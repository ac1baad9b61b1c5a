-- ===== src/Adapter/Interface/Holding.antt =====
-- mqttadapter/mqtt.go: registries that hold plain callbacks for connections.
use go_reverse_rpc.Base.{
  ℕ, suc, ◌<◌, ◌≡◌, refl, Bool, true, false, if◌then◌else◌, List, [], ◌∷◌, ◌++◌, ℕ_eq, arith,
}
use go_reverse_rpc.Base.Dict.{Dict, insert, erase, values}
use go_reverse_rpc.Adapter.Callbacks.{
  Callback, always, Registry, on_connect, off, run, run_all, fire,
}
use go_reverse_rpc.Adapter.Interface.Laws.{run_callbacks}

module _ {W : Type 0} where
  -- The entries of a registry of callbacks, all with indices below the counter.
  abbrev Entries : ℕ → Dict ℕ (Callback (Unit {0}) W) → List (W → W) → Type 0
  Entries count [] [] = Unit
  Entries count [] (act ∷ acts) = ⊥
  Entries count (entry ∷ m) [] = ⊥
  Entries count ((idx, cb) ∷ m) (act ∷ acts) =
      (idx < count) × (cb ≡ always (λ e. act)) × Entries count m acts

  abbrev pub RegistryHolds : Registry (Unit {0}) W → List (W → W) → Type 0
  RegistryHolds r acts = Entries r.count r.callbacks acts

  insert-Entries :
      (count : ℕ) (act : W → W) (m : Dict ℕ (Callback (Unit {0}) W)) (acts : List (W → W))
      → Entries count m acts
      → Entries (suc count) (insert count (always (λ e. act)) m) (acts ++ act ∷ [])
  unfolding insert
  insert-Entries count act [] (a ∷ acts) h = absurd h
  insert-Entries count act ((idx, cb) ∷ m) [] h = absurd h
  insert-Entries count act [] [] h = (omega arith, refl, tt)
  insert-Entries count act ((idx, cb) ∷ m) (a ∷ acts) h =
      ground (arith, insert-Entries count act m acts)

  erase-Entries :
      (count : ℕ) (act : W → W) (m : Dict ℕ (Callback (Unit {0}) W)) (acts : List (W → W))
      → Entries count m acts
      → Entries (suc count) (erase count (insert count (always (λ e. act)) m)) acts
  unfolding insert erase
  erase-Entries count act [] (a ∷ acts) h = absurd h
  erase-Entries count act ((idx, cb) ∷ m) [] h = absurd h
  erase-Entries count act [] [] h = ground arith
  erase-Entries count act ((idx, cb) ∷ m) (a ∷ acts) h =
      ground (arith, erase-Entries count act m acts)

  run_all-Entries :
      (count : ℕ) (m : Dict ℕ (Callback (Unit {0}) W)) (acts : List (W → W))
      (r : Registry (Unit {0}) W) (w : W)
      → Entries count m acts
      → run_all tt (values m) (r, w) ≡ (r, run_callbacks acts w)
  unfolding run_all values run
  run_all-Entries count [] (act ∷ acts) r w h = absurd h
  run_all-Entries count ((idx, cb) ∷ m) [] r w h = absurd h
  run_all-Entries count [] [] r w h = refl
  run_all-Entries count ((idx, cb) ∷ m) (act ∷ acts) r w h =
      rw h.1 (run_all-Entries count m acts r (act w) h.2)

  pub on_connect-RegistryHolds :
      (asked : Bool) (act : W → W) (between : Registry (Unit {0}) W × W → Registry (Unit {0}) W × W)
      (r : Registry (Unit {0}) W) (w : W) (acts : List (W → W))
      → RegistryHolds (between (r, if asked then act w else w)).0 acts
      → let (idx, r', w') = on_connect asked tt (λ idx. always (λ e. act)) between (r, w) in
        RegistryHolds r' (acts ++ act ∷ [])
        × RegistryHolds (off idx r') acts
        × (w' ≡ (between (r, if asked then act w else w)).1)
  unfolding on_connect off
  on_connect-RegistryHolds true act between r w acts h =
      let (r₁, w₁) = between (r, act w) in
      (
        insert-Entries r₁.count act r₁.callbacks acts h,
        erase-Entries r₁.count act r₁.callbacks acts h,
        refl,
      )
  on_connect-RegistryHolds false act between r w acts h =
      let (r₁, w₁) = between (r, w) in
      (
        insert-Entries r₁.count act r₁.callbacks acts h,
        erase-Entries r₁.count act r₁.callbacks acts h,
        refl,
      )

  pub fire-RegistryHolds :
      (r : Registry (Unit {0}) W) (w : W) (acts : List (W → W))
      → RegistryHolds r acts
      → fire tt (r, w) ≡ (r, run_callbacks acts w)
  unfolding fire
  fire-RegistryHolds r w acts h = run_all-Entries r.count r.callbacks acts r w h
