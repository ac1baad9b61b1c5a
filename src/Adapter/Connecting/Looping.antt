-- ===== src/Adapter/Connecting/Looping.antt =====
-- mqttadapter/mqtt.go: `ConnectAndWaitForSuccess` on the state of the adapter, among calls of its
-- other methods.
use go_reverse_rpc.Base.{◌≡◌, refl, Bool, none, some, List, [], ◌∷◌, arith, if◌then◌else◌}
use go_reverse_rpc.Adapter.Client.{Adapter, Selected, connect}
use go_reverse_rpc.Adapter.Connecting.{
  Round, Ended, was_connected, connects, stopped, retrying, retry,
}

-- A pass of the loop: what other goroutines do to the state before it, what the client answers to
-- `IsConnected`, and how the `select` of `Connect` ends.
pub record Pass (W : Type 0) : Type 0 where
  pub others : W → W
  pub is_connected : Bool
  pub selected : Selected

unfoldable pub retry_on : List (Pass Adapter) → Adapter → Ended × Adapter
unfolding connect
retry_on [] a = (retrying, a)
retry_on (p ∷ ps) a =
    let a₁ = p.others a in
    let (failure, a₂) = connect p.selected a₁ in
    let again = retry_on ps a₂ in
    if a₁.stop_retry_connect
    then (stopped, a₁)
    else if p.is_connected
    then (was_connected, a₁)
    else elim failure [ none ↦ (connects, a₂) | some e ↦ again ]

-- `ConnectAndWaitForSuccess`; `EnsureConnected` runs it in a goroutine.
unfoldable pub connect_and_wait : Bool → List (Pass Adapter) → Adapter → Ended × Adapter
unfolding retry_on
connect_and_wait is_connected passes a =
    if is_connected then (was_connected, a) else retry_on passes a

-- What the passes read.
abbrev pub rounds : List (Pass Adapter) → Adapter → List Round
rounds [] a = []
rounds (p ∷ ps) a =
    let a₁ = p.others a in
    let (failure, a₂) = connect p.selected a₁ in
    record {
      stop_retry_connect = a₁.stop_retry_connect;
      is_connected = p.is_connected;
      connect = failure;
    }
    ∷ rounds ps a₂

-- The loop on the state ends as the loop on what its passes read.
pub retry_on-rounds :
    (ps : List (Pass Adapter)) (a : Adapter) → (retry_on ps a).0 ≡ (retry (rounds ps a)).0
unfolding retry_on retry
retry_on-rounds [] a = refl
retry_on-rounds (p ∷ ps) a = ground (arith, retry_on-rounds ps (connect p.selected (p.others a)).1)
