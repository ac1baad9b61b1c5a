-- ===== src/Adapter/Callbacks/Laws.antt =====
-- Registries of callbacks: fresh indices, removal, and callbacks that run once.
use go_reverse_rpc.Base.{
  ℕ, suc, ◌<◌, ◌≡◌, ◌∙◌, refl, Bool, true, false, Option, none, some, List, [], ◌∷◌, ℕ_eq, ◌==◌,
  ◌||◌, if◌then◌else◌, arith,
}
use go_reverse_rpc.Base.Dict.{Dict, insert, lookup, erase, values, lookup-insert, lookup-erase}
use go_reverse_rpc.Adapter.Callbacks.{
  Callback, always, once, Registry, off, on_connect_lost, on_connect_once, run, run_all, fire,
}

module _ {E W : Type 0} where
  -- A callback that runs once knows the index under which it is registered.
  abbrev Matches : ℕ → Callback E W → Type 0
  Matches idx (always act) = Unit
  Matches idx (once own act) = own ≡ idx

  -- Every index is registered once, and below the counter.
  abbrev Registered : ℕ → Dict ℕ (Callback E W) → Type 0
  Registered count [] = Unit
  Registered count ((idx, cb) ∷ m) =
      (idx < count) × Matches idx cb × (lookup idx m ≡ none) × Registered count m

  abbrev pub IsValid : Registry E W → Type 0
  IsValid r = Registered r.count r.callbacks

  lookup-Registered :
      (count : ℕ) (m : Dict ℕ (Callback E W)) → Registered count m → lookup count m ≡ none
  unfolding lookup
  lookup-Registered count [] v = refl
  lookup-Registered count ((idx, cb) ∷ m) v = ground (arith, lookup-Registered count m v.3)

  insert-Registered :
      (idx count : ℕ) (cb : Callback E W) (m : Dict ℕ (Callback E W))
      → Matches idx cb
      → lookup idx m ≡ none
      → idx ≡ count
      → Registered count m
      → Registered (suc count) (insert idx cb m)
  unfolding insert lookup
  insert-Registered idx count cb [] c e h v = (omega arith, c, refl, tt)
  insert-Registered idx count cb ((k, v) ∷ m) c e h w =
      ground (arith, insert-Registered idx count cb m c, lookup-insert k idx cb m)

  erase-Registered :
      (idx count : ℕ) (m : Dict ℕ (Callback E W))
      → Registered count m
      → Registered count (erase idx m)
  unfolding erase
  erase-Registered idx count [] v = tt
  erase-Registered idx count ((k, cb) ∷ m) v =
      ground (arith, erase-Registered idx count m v.3, lookup-erase k idx m)

  -- Whether a callback takes the index out of the registry.
  abbrev retires : ℕ → Callback E W → Bool
  retires idx (always act) = false
  retires idx (once own act) = own == idx

  abbrev any_retires : ℕ → List (Callback E W) → Bool
  any_retires idx [] = false
  any_retires idx (cb ∷ cbs) = retires idx cb || any_retires idx cbs

  -- What is left of an entry when its callback has run.
  abbrev pub left_over : Option (Callback E W) → Option (Callback E W)
  left_over none = none
  left_over (some (always act)) = some (always act)
  left_over (some (once own act)) = none

  lookup-run_all :
      (e : E) (idx : ℕ) (cbs : List (Callback E W)) (r : Registry E W) (w : W)
      → lookup idx (run_all e cbs (r, w)).0.callbacks
        ≡ (if any_retires idx cbs then none else lookup idx r.callbacks)
  unfolding run_all off
  lookup-run_all e idx [] r w = refl
  lookup-run_all e idx (always act ∷ cbs) r w = ground (arith, lookup-run_all e idx cbs r (act e w))
  lookup-run_all e idx (once own act ∷ cbs) r w =
      ground
        (arith, lookup-run_all e idx cbs (off own r) (act e w), lookup-erase idx own r.callbacks)

  any_retires_of_lookup :
      (idx count : ℕ) (m : Dict ℕ (Callback E W))
      → Registered count m
      → lookup idx m ≡ none
      → any_retires idx (values m) ≡ false
  unfolding lookup values
  any_retires_of_lookup idx count [] v h = refl
  any_retires_of_lookup idx count ((k, always act) ∷ m) v h =
      ground (arith, any_retires_of_lookup idx count m v.3)
  any_retires_of_lookup idx count ((k, once own act) ∷ m) v h =
      ground (arith, any_retires_of_lookup idx count m v.3)

  left_over-lookup :
      (idx count : ℕ) (m : Dict ℕ (Callback E W))
      → Registered count m
      → (if any_retires idx (values m) then none else lookup idx m) ≡ left_over (lookup idx m)
  unfolding lookup values
  left_over-lookup idx count [] v = refl
  left_over-lookup idx count ((k, always act) ∷ m) v =
      ground (arith, left_over-lookup idx count m v.3, any_retires_of_lookup idx count m v.3)
  left_over-lookup idx count ((k, once own act) ∷ m) v =
      ground (arith, left_over-lookup idx count m v.3, any_retires_of_lookup idx count m v.3)

  pub off-IsValid : (idx : ℕ) (r : Registry E W) → IsValid r → IsValid (off idx r)
  unfolding off
  off-IsValid idx r v = erase-Registered idx r.count r.callbacks v

  pub run-IsValid :
      (e : E) (cb : Callback E W) (r : Registry E W) (w : W)
      → IsValid r
      → IsValid (run e cb (r, w)).0
  unfolding run
  run-IsValid e (always act) r w v = v
  run-IsValid e (once own act) r w v = off-IsValid own r v

  run_all-IsValid :
      (e : E) (cbs : List (Callback E W)) (r : Registry E W) (w : W)
      → IsValid r
      → IsValid (run_all e cbs (r, w)).0
  unfolding run_all
  run_all-IsValid e [] r w v = v
  run_all-IsValid e (always act ∷ cbs) r w v = run_all-IsValid e cbs r (act e w) v
  run_all-IsValid e (once own act ∷ cbs) r w v =
      run_all-IsValid e cbs (off own r) (act e w) (off-IsValid own r v)

  -- Closures as the program makes them: plain callbacks, and those of the `Once` methods.
  abbrev pub IsClosure : (ℕ → Callback E W) → Type 0
  IsClosure closure = (idx : ℕ) → Matches idx (closure idx)

  pub on_connect_lost-IsValid :
      (closure : ℕ → Callback E W) (r : Registry E W)
      → IsClosure closure
      → IsValid r
      → IsValid (on_connect_lost closure r).1
  unfolding on_connect_lost
  on_connect_lost-IsValid closure r c v =
      insert-Registered r.count r.count (closure r.count) r.callbacks (c r.count)
        (lookup-Registered r.count r.callbacks v) refl v

  -- In a registry with every index registered once and below the counter, a closure that is plain
  -- or knows its index is registered under an index that no callback has; the registry stays so,
  -- and taking the index out again restores what was registered.
  pub off-on_connect_lost :
      (closure : ℕ → Callback E W) (r : Registry E W) (j : ℕ)
      → IsClosure closure
      → IsValid r
      → let (idx, r') = on_connect_lost closure r in
        (lookup idx r.callbacks ≡ none)
        × (lookup idx r'.callbacks ≡ some (closure idx))
        × (lookup j (off idx r').callbacks ≡ lookup j r.callbacks)
        × IsValid r'
  unfolding on_connect_lost off
  off-on_connect_lost closure r j c v =
      let fresh = lookup-Registered r.count r.callbacks v in
      let entries = insert r.count (closure r.count) r.callbacks in
      (
        fresh,
        ground (arith, lookup-insert r.count r.count (closure r.count) r.callbacks),
        ground (
          arith,
          fresh,
          lookup-erase j r.count entries,
          lookup-insert j r.count (closure r.count) r.callbacks,
        ),
        on_connect_lost-IsValid closure r c v,
      )

  -- In a registry with every index registered once and below the counter: when an event of the
  -- client has run every callback, those that run once are out of the registry, all others are as
  -- before, and the registry stays so.
  pub lookup-fire :
      (e : E) (r : Registry E W) (w : W) (j : ℕ)
      → IsValid r
      → let r' = (fire e (r, w)).0 in
        (lookup j r'.callbacks ≡ left_over (lookup j r.callbacks)) × IsValid r'
  unfolding fire
  lookup-fire e r w j v = (
    lookup-run_all e j (values r.callbacks) r w ∙ left_over-lookup j r.count r.callbacks v,
    run_all-IsValid e (values r.callbacks) r w v,
  )

  -- `OnConnectOnce` on a client that connects between the two questions to it, when callbacks
  -- have been registered before: the callback has run, it stays registered to run again, and the
  -- callback with index 0 is gone.
  pub on_connect_once_race :
      (e : E) (act : E → W → W) (r : Registry E W) (w : W)
      → 0 < r.count
      → let (r', w') = on_connect_once false true e act (r, w) in
        (w' ≡ act e w)
        × (lookup r.count r'.callbacks ≡ some (once r.count act))
        × (lookup 0 r'.callbacks ≡ none)
  unfolding on_connect_once off
  on_connect_once_race e act r w h = ground (
    arith,
    lookup-insert 0 r.count (once r.count act) (erase 0 r.callbacks),
    lookup-insert r.count r.count (once r.count act) (erase 0 r.callbacks),
    lookup-erase 0 0 r.callbacks,
  )
