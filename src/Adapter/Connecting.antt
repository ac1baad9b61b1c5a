-- ===== src/Adapter/Connecting.antt =====
-- mqttadapter/mqtt.go: the loop of `ConnectAndWaitForSuccess`.
pub mod Disconnected
pub mod Looping
use go_reverse_rpc.Base.{
  ℕ, suc, ◌+◌, ◌≡◌, Bool, true, false, Option, none, some, List, [], ◌∷◌, ◌++◌, length, All, arith,
  if◌then◌else◌,
}
use go_reverse_rpc.Errors.{Error}

-- What one pass of the loop reads: the flag that `Disconnect` sets, the client's state, and the
-- error of `Connect`.
pub record Round : Type 0 where
  pub stop_retry_connect : Bool
  pub is_connected : Bool
  pub connect : Option Error

-- `retrying` is a loop that has not ended yet.
pub data Ended : Type 0 where
  was_connected connects stopped retrying : Ended

-- The loop, with the calls of `Connect` that it made.
unfoldable pub retry : List Round → Ended × ℕ
retry [] = (retrying, 0)
retry (r ∷ rs) =
    let (ended, attempts) = retry rs in
    if r.stop_retry_connect
    then (stopped, 0)
    else if r.is_connected
    then (was_connected, 0)
    else elim r.connect [ none ↦ (connects, 1) | some e ↦ (ended, suc attempts) ]

-- `ConnectAndWaitForSuccess`, with the answer to its first `IsConnected`.
unfoldable pub connect_and_wait_for_success : Bool → List Round → Ended × ℕ
unfolding retry
connect_and_wait_for_success is_connected rounds =
    if is_connected then (was_connected, 0) else retry rounds

-- A pass after which the loop sleeps and goes on.
abbrev pub Fails : Round → Type 0
Fails r =
    (r.stop_retry_connect ≡ false) × (r.is_connected ≡ false) × (e : Error) × (r.connect ≡ some e)

-- How the loop ends in a pass, and whether it calls `Connect` there.
abbrev pub ends : Bool → Bool → Option Error → Option (Ended × ℕ)
ends true _ _ = some (stopped, 0)
ends false true _ = some (was_connected, 0)
ends false false none = some (connects, 1)
ends false false (some e) = none

retry-Fails :
    (failed : List Round) (rest : List Round)
    → All Fails failed
    → retry (failed ++ rest) ≡ ((retry rest).0, length failed + (retry rest).1)
unfolding retry
retry-Fails [] rest f = ground arith
retry-Fails (r ∷ failed) rest f = ground (arith, retry-Fails failed rest f.1)

-- On a client without a connection, after passes that all fail, the first pass that finds the stop
-- flag set, the client connected, or a `Connect` without an error ends the loop, whatever would
-- come after it. `Connect` was called once in each failed pass, and in the last one if nothing else
-- ended it.
pub connect_and_wait_ends :
    (failed : List Round) (r : Round) (rest : List Round) (ended : Ended) (attempts : ℕ)
    → All Fails failed
    → ends r.stop_retry_connect r.is_connected r.connect ≡ some (ended, attempts)
    → connect_and_wait_for_success false (failed ++ r ∷ rest) ≡ (ended, length failed + attempts)
unfolding connect_and_wait_for_success
connect_and_wait_ends failed r rest ended attempts f e =
    ground (arith, retry-Fails failed (r ∷ rest) f)
