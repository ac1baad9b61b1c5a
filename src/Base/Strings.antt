-- ===== src/Base/Strings.antt =====
-- Go strings and byte slices: sequences of bytes. A literal is written by its text.
use Prim.Native.Char.{code}
use Prim.Native.Nat.{ℕ}
use Prim.Native.String.{String}
use mathlib.Core.List.{List, [], ◌∷◌}
use go_reverse_rpc.Base.Tests.{Eq, ℕ_discrete}

abbrev pub Bytes : Type 0
Bytes = List ℕ

-- The bytes of an ASCII literal.
abbrev pub lit : String → Bytes
lit String.[] = []
lit (String.◌∷◌ c s) = code c ∷ lit s

pub Bytes-discrete : Discrete Bytes
Bytes-discrete = hlevel ℕ_discrete

-- Shut in proofs, where a split on `s == t` gives the equation or its negation.
instance unfoldable pub bytes_eq : Eq Bytes
unfolding Bytes-discrete
bytes_eq = record { dec = Bytes-discrete }
