-- ===== src/Adapter/Callbacks.antt =====
-- mqttadapter/mqtt.go: the callbacks that run when the client connects or loses its connection.
pub mod Laws
pub mod Lifetime
pub mod Repeats
use go_reverse_rpc.Base.{ℕ, suc, Bool, List, [], ◌∷◌, ℕ_eq, if◌then◌else◌}
use go_reverse_rpc.Base.Dict.{Dict, insert, erase, values}

-- What a registered closure does with an event `E` to the world `W`. `once` takes itself out of the
-- registry, under the index that its variable `subID` holds, before it acts.
pub data Callback (E W : Type 0) : Type 0 where
  always : (E → W → W) → Callback E W
  once : ℕ → (E → W → W) → Callback E W

-- The counter and the map of one of the two kinds of callbacks.
pub record Registry (E W : Type 0) : Type 0 where
  pub count : ℕ
  pub callbacks : Dict ℕ (Callback E W)

module _ {E W : Type 0} where
  unfoldable pub no_callbacks : Registry E W
  no_callbacks = record { count = 0; callbacks = [] }

  -- `OffConnect`, `OffConnectLost`
  unfoldable pub off : ℕ → Registry E W → Registry E W
  off idx r = record r { callbacks = erase idx r.callbacks }

  -- A call of a callback.
  unfoldable pub run : E → Callback E W → Registry E W × W → Registry E W × W
  unfolding off
  run e (always act) (r, w) = (r, act e w)
  run e (once idx act) (r, w) = (off idx r, act e w)

  -- `OnConnectLost`, and the locked part of `OnConnect`. `closure` is the callback by the value of
  -- the variable that the caller assigns the index to.
  unfoldable pub on_connect_lost : (ℕ → Callback E W) → Registry E W → ℕ × Registry E W
  on_connect_lost closure r = (
    r.count,
    record { count = suc r.count; callbacks = insert r.count (closure r.count) r.callbacks },
  )

  -- The part of `OnConnect` before the lock, with what the client answers to `IsConnected`. While
  -- it runs the callback, the caller's variable is still zero.
  unfoldable pub on_connect_ask :
      Bool → E → (ℕ → Callback E W) → Registry E W × W → Registry E W × W
  unfolding run
  on_connect_ask connected e closure s = if connected then run e (closure 0) s else s

  -- `OnConnect`. `between` is what other goroutines do after the callback has run, and before the
  -- lock.
  unfoldable pub on_connect :
      Bool
      → E
      → (ℕ → Callback E W)
      → (Registry E W × W → Registry E W × W)
      → Registry E W × W
      → ℕ × Registry E W × W
  unfolding on_connect_ask on_connect_lost
  on_connect connected e closure between s =
      let (r₁, w₁) = between (on_connect_ask connected e closure s) in
      let (idx, r₂) = on_connect_lost closure r₁ in (idx, r₂, w₁)

  -- `OnConnectOnce`, with the answers to its own `IsConnected` and to that in `OnConnect`, where no
  -- other goroutine acts on the registry in the meantime.
  unfoldable pub on_connect_once :
      Bool → Bool → E → (E → W → W) → Registry E W × W → Registry E W × W
  unfolding on_connect
  on_connect_once connected again e act (r, w) =
      if connected
      then (r, act e w)
      else let (idx, r', w') = on_connect again e (λ idx. once idx act) (λ s. s) (r, w) in (r', w')

  -- `OnConnectLostOnce`
  unfoldable pub on_connect_lost_once : (E → W → W) → Registry E W → Registry E W
  unfolding on_connect_lost
  on_connect_lost_once act r = (on_connect_lost (λ idx. once idx act) r).1

  unfoldable pub run_all : E → List (Callback E W) → Registry E W × W → Registry E W × W
  unfolding run
  run_all e [] s = s
  run_all e (cb ∷ cbs) s = run_all e cbs (run e cb s)

  -- The handlers that `New` gives the client: a goroutine for each callback of the map, here where
  -- no other goroutine acts in between, in the order of the map's list. Where one does, `run` is a
  -- step for each of them.
  unfoldable pub fire : E → Registry E W × W → Registry E W × W
  unfolding run_all
  fire e (r, w) = run_all e (values r.callbacks) (r, w)
