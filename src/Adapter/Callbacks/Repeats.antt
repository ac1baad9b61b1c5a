-- ===== src/Adapter/Callbacks/Repeats.antt =====
-- A client that connects again and again.
use go_reverse_rpc.Base.{ℕ, zero, suc, ◌≡◌, refl, ap, ◌∙◌, List, [], ◌∷◌, ◌++◌}
use go_reverse_rpc.Base.Dict.{values}
use go_reverse_rpc.Adapter.Callbacks.{always, Registry, fire, run_all}

abbrev pub times : {A : Type 0} → ℕ → (A → A) → A → A
times zero f a = a
times (suc n) f a = times n f (f a)

-- `count` times the same.
abbrev pub replicate : {A : Type 0} → ℕ → A → List A
replicate zero a = []
replicate (suc count) a = a ∷ replicate count a

pub replicate-append-cons :
    {A : Type 0} (n : ℕ) (a : A) (tail : List A)
    → replicate n a ++ (a ∷ tail) ≡ a ∷ (replicate n a ++ tail)
replicate-append-cons zero a tail = refl
replicate-append-cons (suc n) a tail = ap (λ l. a ∷ l) (replicate-append-cons n a tail)

module _ {W : Type 0} where
  -- The client connects `n` times.
  abbrev pub connects : ℕ → Registry (Unit {0}) W × W → Registry (Unit {0}) W × W
  connects zero s = s
  connects (suc n) s = connects n (fire tt s)

  pub connects-always :
      (act : Unit {0} → W → W) (n count idx : ℕ) (w : W)
      → (connects n (record { count = count; callbacks = (idx, always act) ∷ [] }, w)).1
        ≡ times n (act tt) w
  unfolding fire run_all values
  connects-always act zero count idx w = refl
  connects-always act (suc n) count idx w = connects-always act n count idx (act tt w)

  pub connects-empty :
      (n count : ℕ) (w : W)
      → connects n (record { count = count; callbacks = [] }, w)
        ≡ (record { count = count; callbacks = [] }, w)
  unfolding fire run_all values
  connects-empty zero count w = refl
  connects-empty (suc n) count w = connects-empty n count w

  pub connects-nothing :
      (n count : ℕ) (w : W) → (connects n (record { count = count; callbacks = [] }, w)).1 ≡ w
  unfolding fire run_all values
  connects-nothing zero count w = refl
  connects-nothing (suc n) count w = connects-nothing n count w

-- What is logged by an action that logs the same each time.
pub times-log :
    {A B : Type 0} (log : A → List B) (act : A → A) (entry : B)
    → ((a : A) → log (act a) ≡ entry ∷ log a)
    → (n : ℕ) (a : A) → log (times n act a) ≡ replicate n entry ++ log a
times-log log act entry logs zero a = refl
times-log log act entry logs (suc n) a =
    times-log log act entry logs n (act a)
    ∙ ap (λ tail. replicate n entry ++ tail) (logs a)
    ∙ replicate-append-cons n entry (log a)
