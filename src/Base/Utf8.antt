-- ===== src/Base/Utf8.antt =====
-- Go strings that are text in UTF-8, as `utf8.Valid` of the standard library has it.
use Prim.Native.Nat.{ℕ, zero, suc}
use mathlib.Core.Path.{◌≡◌, refl}
use mathlib.Core.Bool.{Bool, true, false, ◌&&◌}
use mathlib.Core.Option.{Option, none, some}
use mathlib.Core.List.{[], ◌∷◌}
use go_reverse_rpc.Base.Tests.{leb, if◌then◌else◌}
use go_reverse_rpc.Base.Strings.{Bytes}

abbrev within : ℕ → ℕ → ℕ → Bool
within low high b = leb low b && leb b high

-- After the first byte of a character: how many bytes it has left, and the bounds of the next one.
lead : ℕ → Option (ℕ × ℕ × ℕ)
lead b =
    if within 0 127 b
    then some (0, 0, 0)
    else if within 194 223 b
    then some (1, 128, 191)
    else if within 224 224 b
    then some (2, 160, 191)
    else if within 237 237 b
    then some (2, 128, 159)
    else if within 225 239 b
    then some (2, 128, 191)
    else if within 240 240 b
    then some (3, 144, 191)
    else if within 241 243 b
    then some (3, 128, 191)
    else if within 244 244 b
    then some (3, 128, 143)
    else none

-- The rest of a string, with the bytes that the present character has left.
continues : ℕ → ℕ → ℕ → Bytes → Bool
unfolding lead
continues zero low high [] = true
continues (suc n) low high [] = false
continues zero low high (b ∷ bs) = elim (lead b) [
  | none ↦ false
  | some (n, low', high') ↦ continues n low' high' bs
]
continues (suc n) low high (b ∷ bs) = within low high b && continues n 128 191 bs

unfoldable pub valid_utf8 : Bytes → Bool
unfolding continues
valid_utf8 text = continues 0 0 0 text

abbrev pub IsUtf8 : Bytes → Type 0
IsUtf8 text = valid_utf8 text ≡ true

pub nil-IsUtf8 : IsUtf8 []
unfolding valid_utf8
nil-IsUtf8 = refl
