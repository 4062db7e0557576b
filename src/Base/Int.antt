-- ===== src/Base/Int.antt =====
-- Go's `int`, `int32` and `time.Duration`: integers that wrap around at their width, and how package
-- strconv reads them.
use Prim.Native.Nat.{ℕ, suc, ◌+◌, ◌-◌, ◌*◌, ◌^◌, ◌%◌}
use mathlib.Core.Bool.{◌&&◌}
use mathlib.Core.List.{[], ◌∷◌}
use mathlib.Core.Option.{Option, none, some}
use bookstore_golang.Base.Equality.{◌==◌, nat_eq, ltb, leb, if◌then◌else◌}
use bookstore_golang.Base.Text.{Str}

-- `negsuc n` is -(n + 1).
pub data ℤ : Type 0 where
  pos : ℕ → ℤ
  negsuc : ℕ → ℤ

abbrev pub neg : ℕ → ℤ
neg n = if n == 0 then pos 0 else negsuc (n - 1)

-- The pattern of `w` bits that stands for an integer, and back.
abbrev to_bits : ℕ → ℤ → ℕ
to_bits w (pos n) = n % (2 ^ w)
to_bits w (negsuc n) = (2 ^ w) - 1 - (n % (2 ^ w))

unfoldable pub wrap : ℕ → ℤ → ℤ
wrap w z = let b = to_bits w z in if ltb b (2 ^ (w - 1)) then pos b else negsuc ((2 ^ w) - b - 1)

abbrev scaled : ℕ → ℤ → ℤ
scaled unit (pos n) = pos (n * unit)
scaled unit (negsuc n) = neg (suc n * unit)

-- `time.Duration(n) * unit`
unfoldable pub duration : ℕ → ℤ → ℤ
unfolding wrap
duration unit n = wrap 64 (scaled unit n)

unfoldable pub digits : ℕ → Str → Option ℕ
digits acc [] = some acc
digits acc (c ∷ s) = if leb b'0' c && leb c b'9' then digits (acc * 10 + (c - b'0')) s else none

abbrev unsigned : Str → Option ℕ
unfolding digits
unsigned [] = none
unsigned (c ∷ s) = digits 0 (c ∷ s)

abbrev not_below : Option ℕ → Option ℤ
not_below none = none
not_below (some n) = if ltb n (2 ^ 63) then some (pos n) else none

abbrev not_above : Option ℕ → Option ℤ
not_above none = none
not_above (some n) = if leb n (2 ^ 63) then some (neg n) else none

-- `strconv.Atoi`
unfoldable pub atoi : Str → Option ℤ
unfolding digits
atoi [] = none
atoi (c ∷ s) =
    if c == b'-'
    then not_above (unsigned s)
    else if c == b'+'
    then not_below (unsigned s)
    else not_below (unsigned (c ∷ s))
