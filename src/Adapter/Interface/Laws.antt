-- ===== src/Adapter/Interface/Laws.antt =====
-- mqttadapter/interface.go: what the transports rely on when they call an adapter.
use go_reverse_rpc.Base.{
  ℕ, ◌≡◌, Bool, true, false, List, [], ◌∷◌, ◌++◌, Bytes, bytes_eq, ◌==◌, if◌then◌else◌,
}
use go_reverse_rpc.Base.Dict.{Dict, keys}
use go_reverse_rpc.Adapter.Client.{
  Request, subscribed, unsubscribed, published, disconnected, Selected, selected_error,
}
use go_reverse_rpc.Adapter.Client.Laws.{member}
use go_reverse_rpc.Adapter.Interface.{MqttClientAdapter}

-- The callbacks one after the other.
abbrev pub run_callbacks : {W : Type 0} → List (W → W) → W → W
run_callbacks [] w = w
run_callbacks (act ∷ acts) w = run_callbacks acts (act w)

-- `history` are the calls of the client, the latest first, and `Holds r acts` says that `acts` are
-- the callbacks of `r`, none of which is to run only once. `connected` is the client's event.
pub record Lawful {C O W R L : Type 0} (c : MqttClientAdapter C O W R L) : Type 1 where
  pub remembers : Bytes → W → Bool
  pub history : W → List Request
  pub Holds : R → List (W → W) → Type 0
  pub connected : R × W → R × W
  pub remembers-subscribe :
      (topic t : Bytes) (qos : ℕ) (w : W)
      → remembers topic (c.subscribe t qos w) ≡ (if t == topic then true else remembers topic w)
  pub history-subscribe :
      (t : Bytes) (qos : ℕ) (w : W)
      → history (c.subscribe t qos w) ≡ subscribed ((t, qos) ∷ []) ∷ history w
  pub remembers-subscribe_multiple :
      (topic : Bytes) (filters : Dict Bytes ℕ) (w : W)
      → remembers topic (c.subscribe_multiple filters w)
        ≡ (if member topic (keys filters) then true else remembers topic w)
  pub history-subscribe_multiple :
      (filters : Dict Bytes ℕ) (w : W)
      → history (c.subscribe_multiple filters w) ≡ subscribed filters ∷ history w
  pub remembers-unsubscribe :
      (topic t : Bytes) (w : W)
      → remembers topic (c.unsubscribe t w) ≡ (if t == topic then false else remembers topic w)
  pub history-unsubscribe :
      (t : Bytes) (w : W) → history (c.unsubscribe t w) ≡ unsubscribed (t ∷ []) ∷ history w
  pub remembers-unsubscribe_all :
      (topic : Bytes) (w : W) → remembers topic (c.unsubscribe_all w) ≡ false
  pub remembers-publish_bytes :
      (topic t : Bytes) (qos : ℕ) (retained : Bool) (content : Bytes) (w : W)
      → remembers topic (c.publish_bytes t qos retained content w) ≡ remembers topic w
  pub history-publish_bytes :
      (t : Bytes) (qos : ℕ) (retained : Bool) (content : Bytes) (w : W)
      → history (c.publish_bytes t qos retained content w)
        ≡ published t qos retained content ∷ history w
  pub remembers-disconnect :
      (topic : Bytes) (w : W) → remembers topic (c.disconnect w) ≡ remembers topic w
  pub history-disconnect : (w : W) → history (c.disconnect w) ≡ disconnected 1000 ∷ history w
  -- A method that waits does the same, and returns the error of its `select`.
  pub subscribe-waits :
      (selected : Selected) (t : Bytes) (qos : ℕ) (w : W)
      → c.subscribe_wait selected t qos w ≡ (selected_error selected, c.subscribe t qos w)
  pub subscribe_multiple-waits :
      (selected : Selected) (filters : Dict Bytes ℕ) (w : W)
      → c.subscribe_multiple_wait selected filters w
        ≡ (selected_error selected, c.subscribe_multiple filters w)
  pub unsubscribe-waits :
      (selected : Selected) (t : Bytes) (w : W)
      → c.unsubscribe_wait selected t w ≡ (selected_error selected, c.unsubscribe t w)
  pub unsubscribe_all-waits :
      (selected : Selected) (w : W)
      → c.unsubscribe_all_wait selected w ≡ (selected_error selected, c.unsubscribe_all w)
  pub publish_bytes-waits :
      (selected : Selected) (t : Bytes) (qos : ℕ) (retained : Bool) (content : Bytes) (w : W)
      → c.publish_bytes_wait selected t qos retained content w
        ≡ (selected_error selected, c.publish_bytes t qos retained content w)
  -- A callback that is registered runs at once on a client that is connected, and is held, until
  -- its index is taken out.
  pub on_connect-Holds :
      (asked : Bool) (act : W → W) (between : R × W → R × W) (r : R) (w : W) (acts : List (W → W))
      → Holds (between (r, if asked then act w else w)).0 acts
      → let (idx, r', w') = c.on_connect asked act between (r, w) in
        Holds r' (acts ++ act ∷ [])
        × Holds (c.off_connect idx r') acts
        × (w' ≡ (between (r, if asked then act w else w)).1)
  pub connected-Holds :
      (r : R) (w : W) (acts : List (W → W))
      → Holds r acts
      → connected (r, w) ≡ (r, run_callbacks acts w)
