-- ===== src/Base/Int.antt =====
-- Go's signed `int`, of 64 bits, as an integer; `int32(x)` keeps the low 32 bits.
use Prim.Native.Nat.{ℕ, ◌+◌, ◌-◌, ◌%◌, ◌<◌}
use mathlib.Core.Path.{◌≡◌}
use native.Mathlib.Omega.{arith}
use go_reverse_rpc.Base.Tests.{Eq, ltb, if◌then◌else◌, ℕ_discrete}

-- `negsuc n` is -(n + 1).
pub data ℤ : Type 0 where
  pos : ℕ → ℤ
  negsuc : ℕ → ℤ

pub ℤ-discrete : Discrete ℤ
ℤ-discrete = hlevel ℕ_discrete

instance unfoldable pub ℤ_eq : Eq ℤ
unfolding ℤ-discrete
ℤ_eq = record { dec = ℤ-discrete }

abbrev two_31 : ℕ
two_31 = 2147483648

abbrev two_32 : ℕ
two_32 = 4294967296

-- The bits of an `int`, modulo 2 ^ 32.
low_32 : ℤ → ℕ
low_32 (pos n) = n % two_32
low_32 (negsuc n) = two_32 - 1 - n % two_32

-- The integer that a pattern of 32 bits stands for.
signed_32 : ℕ → ℤ
signed_32 b = if ltb b two_31 then pos b else negsuc (two_32 - 1 - b)

-- `int32(x)`
unfoldable pub int32 : ℤ → ℤ
unfolding low_32 signed_32
int32 x = signed_32 (low_32 x)

abbrev pub InInt32 : ℤ → Type 0
InInt32 (pos n) = n < two_31
InInt32 (negsuc n) = n < two_31

pub int32-InInt32 : (x : ℤ) → InInt32 (int32 x)
unfolding int32
int32-InInt32 (pos n) = ground arith
int32-InInt32 (negsuc n) = ground arith

-- Two integers that differ by a multiple of 2 ^ 32.
abbrev pub Congruent : ℤ → ℤ → Type 0
Congruent (pos n) (pos m) = n % two_32 ≡ m % two_32
Congruent (pos n) (negsuc m) = (n + m + 1) % two_32 ≡ 0
Congruent (negsuc n) (pos m) = (n + m + 1) % two_32 ≡ 0
Congruent (negsuc n) (negsuc m) = n % two_32 ≡ m % two_32

-- `int32(x)` keeps the class of `x`.
pub int32-Congruent : (x : ℤ) → Congruent x (int32 x)
unfolding int32
int32-Congruent (pos n) = ground arith
int32-Congruent (negsuc n) = ground arith
