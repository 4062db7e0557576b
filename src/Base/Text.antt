-- ===== src/Base/Text.antt =====
-- Go strings as lists of code points, with the parts of `strings` and `unicode` that the program
-- calls.
pub mod Trim
use Prim.Native.Nat.{ℕ, ◌+◌, ◌≤◌}
use Prim.Native.Char.{code}
use Prim.Native.String.{String}
use mathlib.Core.Path.{◌≡◌, refl}
use mathlib.Core.Bool.{Bool, false, ◌&&◌, ◌||◌}
use mathlib.Core.List.{List, [], ◌∷◌, map}
use native.Mathlib.Decide.{ℕ_discrete}
use native.Mathlib.Omega.{arith}
use bookstore_golang.Base.Equality.{Eq, ◌==◌, nat_eq, leb, ltb, if◌then◌else◌}

abbrev pub Str : Type 0
Str = List ℕ

abbrev pub codes : String → Str
codes String.[] = []
codes (String.◌∷◌ c s) = code c ∷ codes s

unfoldable pub Str-discrete : Discrete Str
Str-discrete = hlevel ℕ_discrete

instance abbrev pub str_eq : Eq Str
str_eq = record { dec = Str-discrete }

-- The tables of package `unicode`, which are data of the Go release and not of the program.
pub record Unicode : Type 0 where
  pub is_space : ℕ → Bool
  pub to_lower : ℕ → ℕ
  pub is_upper : ℕ → Bool
  pub is_lower : ℕ → Bool
  pub is_digit : ℕ → Bool

-- What the program relies on: folding case twice is folding it once, and makes no white space, and
-- the small ASCII letters and the underscore are no white space and stay as they are.
pub record IsUnicode (u : Unicode) : Type 0 where
  pub to_lower_idem : (c : ℕ) → u.to_lower (u.to_lower c) ≡ u.to_lower c
  pub to_lower_visible : (c : ℕ) → u.is_space c ≡ false → u.is_space (u.to_lower c) ≡ false
  pub to_lower_underscore : u.to_lower b'_' ≡ b'_'
  pub underscore_visible : u.is_space b'_' ≡ false
  pub to_lower_small : (c : ℕ) → b'a' ≤ c → c ≤ b'z' → u.to_lower c ≡ c
  pub small_visible : (c : ℕ) → b'a' ≤ c → c ≤ b'z' → u.is_space c ≡ false

-- The ASCII part of the tables.
abbrev pub ascii : Unicode
ascii = record {
  is_space = λ c. c == 32 || (leb 9 c && leb c 13);
  to_lower = λ c. if leb b'A' c && leb c b'Z' then c + 32 else c;
  is_upper = λ c. leb b'A' c && leb c b'Z';
  is_lower = λ c. leb b'a' c && leb c b'z';
  is_digit = λ c. leb b'0' c && leb c b'9';
}

ascii_to_lower_idem : (c : ℕ) → ascii.to_lower (ascii.to_lower c) ≡ ascii.to_lower c
ascii_to_lower_idem c = ground arith

ascii_to_lower_visible :
    (c : ℕ) → ascii.is_space c ≡ false → ascii.is_space (ascii.to_lower c) ≡ false
ascii_to_lower_visible c h = ground arith

pub ascii-IsUnicode : IsUnicode ascii
ascii-IsUnicode = record {
  to_lower_idem = ascii_to_lower_idem;
  to_lower_visible = ascii_to_lower_visible;
  to_lower_underscore = refl;
  underscore_visible = ground arith;
  to_lower_small = λ c p q. ground arith;
  small_visible = λ c p q. ground arith;
}

-- The bytes of a code point in UTF-8.
abbrev pub utf8_len : ℕ → ℕ
utf8_len c = if ltb c 128 then 1 else if ltb c 2048 then 2 else if ltb c 65536 then 3 else 4

-- `len(s)`, in bytes.
unfoldable pub byte_len : Str → ℕ
byte_len [] = 0
byte_len (c ∷ s) = utf8_len c + byte_len s

module _ (u : Unicode) where
  unfoldable pub trim_left : Str → Str
  trim_left [] = []
  trim_left (c ∷ s) = if u.is_space c then trim_left s else c ∷ s

  abbrev keep_right : ℕ → Str → Str
  keep_right c [] = if u.is_space c then [] else c ∷ []
  keep_right c (d ∷ s) = c ∷ d ∷ s

  unfoldable pub trim_right : Str → Str
  trim_right [] = []
  trim_right (c ∷ s) = keep_right c (trim_right s)

  -- `strings.TrimSpace`
  unfoldable pub trim : Str → Str
  unfolding trim_left trim_right
  trim s = trim_right (trim_left s)

  -- `strings.ToLower`
  abbrev pub lower : Str → Str
  lower = map u.to_lower
