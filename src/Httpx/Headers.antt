-- ===== src/Httpx/Headers.antt =====
-- Headers that are set, and handlers that leave a header alone.
use bookstore_golang.Base.{
  ◌≡◌, refl, false, List, [], ◌∷◌, ◌==◌, ==-refl, eq_of_==, Bool-cases, inl, inr, arith,
}
use bookstore_golang.Base.Text.{Str, str_eq}
use bookstore_golang.Httpx.{Page, Handler, set_header, get_header}

pub get_header-set_header :
    (name value : Str) (l : List (Str × Str)) → get_header name (set_header name value l) ≡ value
unfolding set_header get_header
get_header-set_header name value [] = ground (arith, ==-refl name)
get_header-set_header name value ((n, v) ∷ l) =
    ground (arith, ==-refl name, get_header-set_header name value l)

pub get_header-set_other :
    (name other value : Str) (l : List (Str × Str))
    → (other == name) ≡ false
    → get_header name (set_header other value l) ≡ get_header name l
unfolding set_header get_header
get_header-set_other name other value [] h = ground arith
get_header-set_other name other value ((n, v) ∷ l) h = elim (Bool-cases (n == other)) [
  | inl same ↦ rw (same, eq_of_== n other same, h) refl
  | inr apart ↦ rw apart (ground (arith, get_header-set_other name other value l h))
]

-- What a handler answers in a header is what stood there.
pub record KeepsHeader {S : Type 0} (name : Str) (h : Handler S) : Type 0 where
  pub kept : (c : Page S) → get_header name (h c).1.headers ≡ get_header name c.headers
