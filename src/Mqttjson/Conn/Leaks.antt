-- ===== src/Mqttjson/Conn/Leaks.antt =====
-- mqttjson/conn.go, mqttjson/client.go: what calls ask of an adapter, and what they leave with it.
use mathlib.Core.List.{append-nil, append_assoc}
use go_reverse_rpc.Base.{
  ℕ, zero, suc, ◌≡◌, refl, sym, ap, ◌∙◌, subst, Bool, true, false, List, [], ◌∷◌, ◌++◌, Bytes,
  bytes_eq, ◌==◌, if◌then◌else◌, arith,
}
use go_reverse_rpc.Errors.{Result, ok, err}
use go_reverse_rpc.Adapter.Client.{Request, subscribed, published}
use go_reverse_rpc.Adapter.Client.Laws.{member}
use go_reverse_rpc.Adapter.Interface.{MqttClientAdapter}
use go_reverse_rpc.Adapter.Interface.Laws.{Lawful, run_callbacks}
use go_reverse_rpc.Mqttpb.Conn.{new_conn}
use go_reverse_rpc.Adapter.Callbacks.Repeats.{times}
use go_reverse_rpc.Mqttjson.Conn.{RpcConn, new_rpc_conn, write, write_encoded, close, use_conn}

-- A call: the client's answer to `IsConnected`, the two topics and the request.
pub record Called : Type 0 where
  pub connected : Bool
  pub request_topic : Bytes
  pub response_topic : Bytes
  pub encoded : Result Bytes

abbrev pub response_topics : List Called → List Bytes
response_topics [] = []
response_topics (x ∷ xs) = x.response_topic ∷ response_topics xs

-- A subscription to each response topic, after what was there.
abbrev pub subscriptions : List Called → List Request → List Request
subscriptions [] before = before
subscriptions (x ∷ xs) before = subscriptions xs (subscribed ((x.response_topic, 0) ∷ []) ∷ before)

abbrev pub published_of : Bytes → ℕ → Result Bytes → List Request
published_of topic qos (err e) = []
published_of topic qos (ok content) = published topic qos false content ∷ []

module _ {C O W R L : Type 0} (c : MqttClientAdapter C O W R L) (laws : Lawful c) where
  -- A call, while which the client connects `n` times.
  abbrev called : ℕ → Called → R × W → R × W
  called n x s =
      use_conn c x.connected (λ s. s) x.request_topic x.response_topic x.encoded
        (λ s. times n laws.connected s) s

  -- Calls, one after the other, while none of which the client connects.
  abbrev pub use_all : List Called → R × W → R × W
  use_all [] s = s
  use_all (x ∷ xs) s =
      use_all xs
        (use_conn c x.connected (λ s. s) x.request_topic x.response_topic x.encoded (λ s. s) s)

  -- One call after the other, in a list that ends with the last.
  abbrev leftover : List Called → List (W → W)
  leftover [] = []
  leftover (x ∷ xs) = c.subscribe x.response_topic 0 ∷ leftover xs

  written :
      (encoded : Result Bytes) (conn : RpcConn) (topic : Bytes) (w : W)
      → (laws.history (write_encoded c encoded conn w)
          ≡ published_of conn.request_topic conn.qos encoded ++ laws.history w)
        × (laws.remembers topic (write_encoded c encoded conn w) ≡ laws.remembers topic w)
  unfolding write_encoded write
  written (err e) conn topic w = (refl, refl)
  written (ok content) conn topic w = (
    laws.history-publish_bytes conn.request_topic conn.qos false content w,
    laws.remembers-publish_bytes topic conn.request_topic conn.qos false content w,
  )

  -- What a connection finds when it is open.
  history-opened :
      (connected : Bool) (t topic : Bytes) (w w' : W)
      → w' ≡ (if connected then c.subscribe t 0 w else w)
      → (laws.history w'
          ≡ (if connected then subscribed ((t, 0) ∷ []) ∷ laws.history w else laws.history w))
        × ((if t == topic then false else laws.remembers topic w')
            ≡ (if t == topic then false else laws.remembers topic w))
  history-opened true t topic w w' h =
      (rw h (laws.history-subscribe t 0 w), ground (arith, laws.remembers-subscribe topic t 0 w))
  history-opened false t topic w w' h = (rw h refl, rw h refl)

  times-connected :
      (n : ℕ) (r : R) (w : W) (acts : List (W → W))
      → laws.Holds r acts
      → times n laws.connected (r, w) ≡ (r, times n (run_callbacks acts) w)
  times-connected zero r w acts h = refl
  times-connected (suc n) r w acts h =
      ap (times n laws.connected) (laws.connected-Holds r w acts h)
      ∙ times-connected n r (run_callbacks acts w) acts h

  -- What a call leaves, from the time at which it starts to wait.
  record Leaves (n : ℕ) (x : Called) (topic : Bytes) (r : R) (w : W) (acts : List (W → W))
      : Type 0 where
    waiting : W
    closed :
        (called n x (r, w)).1
        ≡ c.unsubscribe x.response_topic (times n (run_callbacks acts) waiting)
    logged :
        laws.history waiting
        ≡ published_of x.request_topic 0 x.encoded
          ++ (if x.connected
              then subscribed ((x.response_topic, 0) ∷ []) ∷ laws.history w
              else laws.history w)
    kept :
        (if x.response_topic == topic then false else laws.remembers topic waiting)
        ≡ (if x.response_topic == topic then false else laws.remembers topic w)
    held : laws.Holds (called n x (r, w)).0 acts

  called-Leaves :
      (n : ℕ) (x : Called) (topic : Bytes) (r : R) (w : W) (acts : List (W → W))
      → laws.Holds r acts
      → Leaves n x topic r w (acts ++ c.subscribe x.response_topic 0 ∷ [])
  unfolding use_conn new_rpc_conn write_encoded write close
  called-Leaves n x topic r w acts h =
      let act = c.subscribe x.response_topic 0 in
      let (idx, r', w₁) = c.on_connect x.connected act (λ s. s) (r, w) in
      let conn = new_conn x.request_topic x.response_topic 0 in
      let w₂ = write_encoded c x.encoded conn w₁ in
      let (held, taken, opened) = laws.on_connect-Holds x.connected act (λ s. s) r w acts h in
      let (logged, kept) = history-opened x.connected x.response_topic topic w w₁ opened in
      let (sent, same) = written x.encoded conn topic w₁ in
      let waited = times-connected n r' w₂ (acts ++ act ∷ []) held in
      record {
        waiting = w₂;
        closed = ap (λ (s : R × W). c.unsubscribe x.response_topic s.1) waited;
        logged = sent ∙ ap (λ log. published_of x.request_topic 0 x.encoded ++ log) logged;
        kept = ap (λ b. if x.response_topic == topic then false else b) same ∙ kept;
        held = subst (λ (s : R × W). laws.Holds s.0 (acts ++ act ∷ [])) (sym waited) held;
      }

  forgets-use_all :
      (xs : List Called) (topic : Bytes) (r : R) (w : W) (acts : List (W → W))
      → laws.Holds r acts
      → let (r', w') = use_all xs (r, w) in
        (laws.remembers topic w'
          ≡ (if member topic (response_topics xs) then false else laws.remembers topic w))
        × laws.Holds r' (acts ++ leftover xs)
  forgets-use_all [] topic r w acts h = (refl, subst (laws.Holds r) (sym (append-nil acts)) h)
  forgets-use_all (x ∷ xs) topic r w acts h =
      let (r₁, w₁) = called 0 x (r, w) in
      let act = c.subscribe x.response_topic 0 in
      let left = called-Leaves 0 x topic r w acts h in
      let forgotten : laws.remembers topic w₁
          ≡ (if x.response_topic == topic then false else laws.remembers topic w) =
        ap (laws.remembers topic) left.closed
        ∙ laws.remembers-unsubscribe topic x.response_topic left.waiting
        ∙ left.kept in
      let (later, holds) = forgets-use_all xs topic r₁ w₁ (acts ++ act ∷ []) left.held in
      (
        ground (arith, later, forgotten),
        subst (laws.Holds (use_all xs (r₁, w₁)).0) (append_assoc acts (act ∷ []) (leftover xs))
            holds,
      )

  run-leftover :
      (xs : List Called) (topic : Bytes) (w : W)
      → let w' = run_callbacks (leftover xs) w in
        (laws.history w' ≡ subscriptions xs (laws.history w))
        × (laws.remembers topic w'
            ≡ (if member topic (response_topics xs) then true else laws.remembers topic w))
  run-leftover [] topic w = (refl, refl)
  run-leftover (x ∷ xs) topic w =
      let (logged, remembered) = run-leftover xs topic (c.subscribe x.response_topic 0 w) in
      (
        logged ∙ ap (subscriptions xs) (laws.history-subscribe x.response_topic 0 w),
        ground (arith, remembered, laws.remembers-subscribe topic x.response_topic 0 w),
      )

  -- What `n` connections make of the answer for one topic.
  abbrev rejoined : ℕ → Bool → Bool → Bool
  rejoined zero subscribes before = before
  rejoined (suc n) subscribes before = if subscribes then true else before

  -- On an adapter that keeps the laws of the interface and holds no callbacks: after any calls,
  -- whose registrations nothing interrupts and while none of which the client connects, the adapter
  -- has forgotten their response topics, and remembers the other topics as before. But when the
  -- client connects again, it makes one subscription for every call that was ever made, and the
  -- adapter remembers the response topics of all of them.
  pub connected-use_all :
      (xs : List Called) (topic : Bytes) (r : R) (w : W)
      → laws.Holds r []
      → let (r', w') = use_all xs (r, w) in
        let (r'', w'') = laws.connected (r', w') in
        let subscribes = member topic (response_topics xs) in
        (laws.remembers topic w' ≡ (if subscribes then false else laws.remembers topic w))
        × (laws.history w'' ≡ subscriptions xs (laws.history w'))
        × (laws.remembers topic w'' ≡ (if subscribes then true else laws.remembers topic w))
  connected-use_all xs topic r w h =
      let (r', w') = use_all xs (r, w) in
      let (forgotten, held) = forgets-use_all xs topic r w [] h in
      let (logged, remembered) = run-leftover xs topic w' in
      let fired = ap (λ (s : R × W). s.1) (laws.connected-Holds r' w' (leftover xs) held) in
      (
        forgotten,
        ap laws.history fired ∙ logged,
        ap (laws.remembers topic) fired ∙ ground (arith, remembered, forgotten),
      )
