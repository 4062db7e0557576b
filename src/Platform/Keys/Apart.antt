-- ===== src/Platform/Keys/Apart.antt =====
-- Keys that are equal have equal parts.
use mathlib.Core.Path.{ap₂}
use bookstore_golang.Base.{
  ◌≡◌, ◌≢◌, refl, ap, List, [], ◌∷◌, ◌++◌, All, ◌↔◌, true, false, ◌==◌, if◌then◌else◌,
}
use bookstore_golang.Base.Text.{Str, Unicode, trim, str_eq}
use bookstore_golang.Base.Text.Trim.{trim-All}
use bookstore_golang.Platform.Keys.{KeyBuilder, after_colons, kept_parts, join}

-- A text without the sign that parts a key.
abbrev NoColon : Str → Type 0
NoColon = All (λ c. c ≢ b':')

after_colons-split :
    (p q : Str) (ps qs : List Str)
    → NoColon p
    → NoColon q
    → p ++ after_colons ps ≡ q ++ after_colons qs
    → (p ≡ q) × (after_colons ps ≡ after_colons qs)
unfolding after_colons
after_colons-split [] [] ps qs hp hq e = (refl, e)
after_colons-split (c ∷ p) (d ∷ q) ps qs hp hq e =
    let (same, rest) = after_colons-split p q ps qs hp.1 hq.1 (cc) in (ap₂ ◌∷◌ (cc) same, rest)
after_colons-split [] (d ∷ q) [] qs hp hq e = absurd (cc)
after_colons-split [] (d ∷ q) (r ∷ ps) qs hp hq e = absurd (hq.0 (cc))
after_colons-split (c ∷ p) [] ps [] hp hq e = absurd (cc)
after_colons-split (c ∷ p) [] ps (r ∷ qs) hp hq e = absurd (hp.0 (cc))

after_colons_injective :
    (ps qs : List Str)
    → All NoColon ps
    → All NoColon qs
    → after_colons ps ≡ after_colons qs
    → ps ≡ qs
unfolding after_colons
after_colons_injective [] [] hp hq e = refl
after_colons_injective [] (q ∷ qs) hp hq e = absurd (cc)
after_colons_injective (p ∷ ps) [] hp hq e = absurd (cc)
after_colons_injective (p ∷ ps) (q ∷ qs) hp hq e =
    let (same, rest) = after_colons-split p q ps qs hp.0 hq.0 (cc) in
    ap₂ ◌∷◌ same (after_colons_injective ps qs hp.1 hq.1 rest)

append_cancel : (s x y : Str) → s ++ x ≡ s ++ y → x ≡ y
append_cancel [] x y e = e
append_cancel (c ∷ s) x y e = append_cancel s x y (cc)

module _ (u : Unicode) where
  kept_parts-All : (ps : List Str) → All NoColon ps → All NoColon (kept_parts u ps)
  unfolding kept_parts
  kept_parts-All [] h = tt
  kept_parts-All (p ∷ ps) h =
      elim (trim u p == [])
        as (λ b. All NoColon (if b then kept_parts u ps else trim u p ∷ kept_parts u ps)) [
          | true ↦ kept_parts-All ps h.1
          | false ↦ (trim-All u (λ c. c ≢ b':') p h.0, kept_parts-All ps h.1)
        ]

  -- Where no part holds a colon, two keys of a builder are equal exactly when their parts that are not
  -- blank, trimmed, are.
  join-eq_iff :
      (b : KeyBuilder) (ps qs : List Str)
      → All NoColon ps
      → All NoColon qs
      → (join u b ps ≡ join u b qs) ↔ (kept_parts u ps ≡ kept_parts u qs)
  unfolding join
  join-eq_iff b ps qs hp hq = (
    λ e.
        after_colons_injective (kept_parts u ps) (kept_parts u qs) (kept_parts-All ps hp)
          (kept_parts-All qs hq)
          (append_cancel b.prefix (after_colons (kept_parts u ps)) (after_colons (kept_parts u qs))
            e),
    λ e. ap (λ parts. b.prefix ++ after_colons parts) e,
  )
