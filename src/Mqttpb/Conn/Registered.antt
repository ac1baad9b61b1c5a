-- ===== src/Mqttpb/Conn/Registered.antt =====
-- mqttpb/conn.go, mqttjson/conn.go: what a connection leaves with the adapter.
use go_reverse_rpc.Base.{ℕ, ◌≡◌, Bool, true, false, Bytes, bytes_eq, arith}
use go_reverse_rpc.Base.Dict.{insert, lookup-erase}
use go_reverse_rpc.Mqttpb.Conn.{Conn, receive, close}
use go_reverse_rpc.Adapter.Callbacks.{Registry, always, no_callbacks, on_connect}
use go_reverse_rpc.Adapter.Callbacks.Repeats.{connects}
use go_reverse_rpc.Adapter.Client.{Adapter, unsubscribe}
use go_reverse_rpc.Adapter.Client.Laws.{remembers}
use go_reverse_rpc.Adapter.Client.Resubscribes.{Subscribed, subscribing, Subscribed-connects}

abbrev State : Type 0
State = Registry (Unit {0}) Adapter × Adapter

-- The registration by `NewConn`. `connected` is the client's answer to `IsConnected`.
unfoldable pub open_conn : Bool → (State → State) → Bytes → ℕ → State → State
unfolding on_connect
open_conn connected between response_topic qos (r, a) =
    let (idx, r', a') =
      on_connect connected tt (λ idx. always (subscribing response_topic qos)) between (r, a) in
    (r', a')

-- The part of `Close` that concerns the adapter.
unfoldable pub close_conn : Bytes → Adapter → Adapter
unfolding unsubscribe
close_conn response_topic a = unsubscribe response_topic a

forgets-close_conn : (topic : Bytes) (a : Adapter) → remembers topic (close_conn topic a) ≡ false
unfolding close_conn
forgets-close_conn topic a = ground (arith, lookup-erase topic topic a.subscribe_map)

-- Let the connection of a call be opened on a connected client without other callbacks, without
-- interruption of its registration, and closed. Then the adapter does not remember its response
-- topic. But the callback on connection stays: when the client reconnects, it subscribes again to
-- the topic, each time, and the adapter remembers it. A message that arrives there meets the closed
-- channel, and its callback panics.
pub close_conn-Subscribed :
    (c : Conn) (n : ℕ) (a : Adapter) (payload : Bytes)
    → let (r, a₁) = open_conn true (λ s. s) c.response_topic c.qos (no_callbacks, a) in
      let a₂ = close_conn c.response_topic a₁ in
      (remembers c.response_topic a₂ ≡ false)
      × Subscribed c.response_topic c.qos n a₂ (connects n (r, a₂)).1
      × ((receive payload (close c)).panicked ≡ true)
unfolding open_conn no_callbacks insert receive close
close_conn-Subscribed c n a payload = (
  forgets-close_conn c.response_topic _,
  Subscribed-connects c.response_topic c.qos n 1 0 _,
  ground arith,
)
