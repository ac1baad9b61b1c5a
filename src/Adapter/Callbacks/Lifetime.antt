-- ===== src/Adapter/Callbacks/Lifetime.antt =====
-- Registries from `New` on, through registrations, removals and events.
use go_reverse_rpc.Base.{ℕ, Bool, List, [], ◌∷◌, ℕ_eq}
use go_reverse_rpc.Adapter.Callbacks.{
  run, Callback, always, Registry, off, on_connect, on_connect_ask, on_connect_lost,
  on_connect_once, on_connect_lost_once, fire,
}

-- A call of one of the methods, with the client's answers to `IsConnected`, or an event. A call of
-- `OnConnect` that others interrupt is `asks`, and later `registers` with the answer false. An
-- event whose goroutines others interrupt is a row of `runs`, each of any callback, also of one
-- that has been taken out since the event.
pub data Change (E W : Type 0) : Type 0 where
  asks : Bool → E → (E → W → W) → Change E W
  registers : Bool → E → (E → W → W) → Change E W
  registers_once : Bool → Bool → E → (E → W → W) → Change E W
  registers_lost registers_lost_once : (E → W → W) → Change E W
  takes_out : ℕ → Change E W
  happens : E → Change E W
  runs : E → Callback E W → Change E W

module _ {E W : Type 0} where
  abbrev pub change : Change E W → Registry E W × W → Registry E W × W
  change (asks connected e act) s = on_connect_ask connected e (λ idx. always act) s
  change (registers connected e act) s =
      let (idx, r, w) = on_connect connected e (λ idx. always act) (λ s. s) s in (r, w)
  change (registers_once connected again e act) s = on_connect_once connected again e act s
  change (registers_lost act) (r, w) = ((on_connect_lost (λ idx. always act) r).1, w)
  change (registers_lost_once act) (r, w) = (on_connect_lost_once act r, w)
  change (takes_out idx) (r, w) = (off idx r, w)
  change (happens e) s = fire e s
  change (runs e cb) s = run e cb s

  abbrev pub change_all : List (Change E W) → Registry E W × W → Registry E W × W
  change_all [] s = s
  change_all (c ∷ cs) s = change_all cs (change c s)
