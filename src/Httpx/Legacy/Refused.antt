-- ===== src/Httpx/Legacy/Refused.antt =====
-- Tokens that the legacy middleware does not admit.
use bookstore_golang.Base.{
  ℕ, ◌≡◌, refl, Option, Bool-cases, inl, inr, none, some, List, [], ◌∷◌, ◌==◌,
}
use bookstore_golang.Base.Text.{Str, codes, str_eq}
use bookstore_golang.Config.Sections.{split}
use bookstore_golang.Httpx.{Page, Handler, returned}
use bookstore_golang.Httpx.Legacy.{
  Claim, number, TokenLibrary, with_claims, with_parts, legacy_auth_middleware,
}

-- The claims of a token as GenerateAccessToken makes them: the id of the user is a number.
abbrev pub NumbersUsers : TokenLibrary → Type 0
NumbersUsers l =
    (token : Str) (claims : Str → Option Claim)
    → l.parse_with_claims token ≡ some claims
    → (n : ℕ) × (claims (codes "user_id") ≡ some (number n))

module _ {S : Type 0} (l : TokenLibrary) (next : Handler S) (numbers : NumbersUsers l) where
  -- Refused, with what the handlers work on as it was.
  abbrev pub Unauthorized : Handler S → Page S → Type 0
  Unauthorized h c = ((h c).0 ≡ returned) × ((h c).1.status ≡ 401) × ((h c).1.app ≡ c.app)

  claims_refused :
      (token : Str) (found : Option (Str → Option Claim)) (c : Page S)
      → l.parse_with_claims token ≡ found
      → Unauthorized (with_claims l next found) c
  claims_refused token none c e = (refl, refl, refl)
  claims_refused token (some claims) c e =
      let (n, held) = numbers token claims e in rw held (refl, refl, refl)

  parts_refused : (parts : List Str) (c : Page S) → Unauthorized (with_parts l next parts) c
  parts_refused [] c = (refl, refl, refl)
  parts_refused (scheme ∷ []) c = (refl, refl, refl)
  parts_refused (scheme ∷ token ∷ []) c = elim (Bool-cases (scheme == codes "Bearer")) [
    | inl bearer ↦ rw bearer (claims_refused token (l.parse_with_claims token) c refl)
    | inr unknown ↦ rw unknown (refl, refl, refl)
  ]
  parts_refused (scheme ∷ token ∷ more ∷ parts) c = (refl, refl, refl)

  -- Where every token carries a number as its user, the middleware refuses every request.
  legacy_refuses : (c : Page S) → Unauthorized (legacy_auth_middleware l next) c
  unfolding legacy_auth_middleware
  legacy_refuses c = elim (Bool-cases (c.request.header (codes "Authorization") == [])) [
    | inl missing ↦ rw missing (refl, refl, refl)
    | inr there ↦ rw there (parts_refused (split b' ' (c.request.header (codes "Authorization"))) c)
  ]
