-- ===== src/Base/Decimal.antt =====
-- `strconv.FormatUint(n, 10)` and `strconv.FormatInt(n, 10)`.
use Prim.Native.Nat.{ℕ, zero, suc, ◌+◌, ◌-◌, ◌*◌, ◌/◌, ◌%◌, ◌<◌}
use mathlib.Core.Path.{◌≡◌}
use mathlib.Core.List.{[], ◌∷◌}
use native.Mathlib.Omega.{arith}
use go_reverse_rpc.Base.Tests.{ltb, if◌then◌else◌}
use go_reverse_rpc.Base.Strings.{Bytes}
use go_reverse_rpc.Base.Int.{ℤ, pos, negsuc}

-- The digits of `n` in front of `acc`, on fuel.
unfoldable pub digits_onto : ℕ → ℕ → Bytes → Bytes
digits_onto zero n acc = acc
digits_onto (suc fuel) n acc =
    let rest = digits_onto fuel (n / 10) ((b'0' + n % 10) ∷ acc) in
    if ltb n 10 then (b'0' + n) ∷ acc else rest

-- A number has no more digits than its successor counts, so the fuel is enough.
unfoldable pub format_uint : ℕ → Bytes
unfolding digits_onto
format_uint n = digits_onto (suc n) n []

unfoldable pub format_int : ℤ → Bytes
unfolding format_uint
format_int (pos n) = format_uint n
format_int (negsuc n) = b'-' ∷ format_uint (suc n)

-- The value of a text of digits, read from the left.
pub parse_onto : ℕ → Bytes → ℕ
parse_onto acc [] = acc
parse_onto acc (c ∷ cs) = parse_onto (acc * 10 + (c - b'0')) cs

parse-digits_onto :
    (fuel n : ℕ) (acc : Bytes) → n < fuel → parse_onto 0 (digits_onto fuel n acc) ≡ parse_onto n acc
unfolding digits_onto parse_onto
parse-digits_onto zero n acc h = elim h [ ]
parse-digits_onto (suc fuel) n acc h =
    ground (arith, parse-digits_onto fuel (n / 10) ((b'0' + n % 10) ∷ acc))

-- The fuel is enough: the digits read back as the number.
pub parse-format_uint : (n : ℕ) → parse_onto 0 (format_uint n) ≡ n
unfolding format_uint parse_onto
parse-format_uint n = parse-digits_onto (suc n) n [] (omega arith)
