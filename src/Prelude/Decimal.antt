-- ===== src/Prelude/Decimal.antt =====
-- strconv.FormatInt and strconv.ParseInt at base 10 and 64 bits.
use Prim.Native.Nat.{ℕ, zero, suc, ◌+◌, ◌-◌, ◌*◌, ◌/◌, ◌%◌, ◌^◌}
use mathlib.Core.Bool.{Bool, true, false, ◌&&◌}
use mathlib.Core.List.{[], ◌∷◌, ◌++◌}
use mathlib.Core.Option.{Option, none, some}
use goreecloud_drive.Prelude.Tests.{ltb, leb, eqb, if◌then◌else◌}
use goreecloud_drive.Prelude.Text.{Str}
use goreecloud_drive.Prelude.Int.{ℤ, pos, negsuc}

-- The digits of a number. A number is below 10 to the power of itself, so it is fuel enough.
unfoldable pub digits : ℕ → ℕ → Str
digits zero n = (48 + n) ∷ []
digits (suc fuel) n = elim (ltb n 10) [
  | true ↦ (48 + n) ∷ []
  | false ↦ digits fuel (n / 10) ++ (48 + n % 10) ∷ []
]

unfoldable pub format_int : ℤ → Str
unfolding digits
format_int (pos n) = digits n n
format_int (negsuc n) = b'-' ∷ digits (suc n) (suc n)

-- Reads digits onto a value; `none` on any other byte.
unfoldable pub read_digits : ℕ → Str → Option ℕ
read_digits value [] = some value
read_digits value (c ∷ s) =
    let rest = read_digits (value * 10 + (c - 48)) s in
    if leb b'0' c && leb c b'9' then rest else none

-- At least one digit.
abbrev pub read_number : Str → Option ℕ
read_number [] = none
read_number (c ∷ s) = read_digits 0 (c ∷ s)

-- The value with its sign, if an int64 holds it.
abbrev pub in_int64 : Bool → Option ℕ → Option ℤ
in_int64 negative none = none
in_int64 false (some n) = if ltb n (2 ^ 63) then some (pos n) else none
in_int64 true (some zero) = some (pos 0)
in_int64 true (some (suc n)) = if ltb n (2 ^ 63) then some (negsuc n) else none

unfoldable pub parse_int : Str → Option ℤ
unfolding read_digits
parse_int [] = none
parse_int (c ∷ s) =
    if eqb c b'-'
    then in_int64 true (read_number s)
    else if eqb c b'+'
    then in_int64 false (read_number s)
    else in_int64 false (read_number (c ∷ s))
