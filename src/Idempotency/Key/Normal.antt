-- ===== src/Idempotency/Key/Normal.antt =====
-- A normalised scope stays as it is, and holds none of the signs that part a key.
use mathlib.Core.List.{map-map}
use mathlib.Core.Path.{ap₂}
use bookstore_golang.Base.{
  ℕ, ◌≡◌, refl, ◌≤◌, false, [], ◌∷◌, ◌++◌, map, nat_eq, All, arith, ◌≢◌, ◌↔◌,
}
use bookstore_golang.Base.Text.{Str, codes, Unicode, IsUnicode, trim, lower}
use bookstore_golang.Base.Text.Trim.{
  trim-All, FrontVisible, BackVisible, trim-FrontVisible, trim-BackVisible, trim-id,
  map-FrontVisible, map-BackVisible,
}
use bookstore_golang.Idempotency.Key.{
  normalize_scope, normalize_key, build_key, replace_sign, default_if_empty,
  default_redis_key_prefix,
}

-- A sign of a normalised scope.
abbrev pub IsScopeSign : Unicode → ℕ → Type 0
IsScopeSign u c = (u.to_lower c ≡ c) × (c ≢ b' ') × (c ≢ b'/') × (c ≢ b':')

clean_sign : ℕ → ℕ
clean_sign c = replace_sign b':' b'_' (replace_sign b'/' b'_' (replace_sign b' ' b'_' c))

clean : Str → Str
clean = map clean_sign

module _ (u : Unicode) (v : IsUnicode u) where
  IsLow : ℕ → Type 0
  IsLow c = u.to_lower c ≡ c

  clean_sign-IsScopeSign : (c : ℕ) → u.to_lower c ≡ c → IsScopeSign u (clean_sign c)
  unfolding clean_sign
  clean_sign-IsScopeSign c h = ground (arith, v.to_lower_underscore)

  clean_sign_visible : (c : ℕ) → u.is_space c ≡ false → u.is_space (clean_sign c) ≡ false
  unfolding clean_sign
  clean_sign_visible c h = ground (arith, v.underscore_visible)

  lower-IsLow : (s : Str) → All IsLow (lower u s)
  unfolding IsLow
  lower-IsLow [] = tt
  lower-IsLow (c ∷ s) = (v.to_lower_idem c, lower-IsLow s)

  clean-All : (s : Str) → All IsLow s → All (IsScopeSign u) (clean s)
  unfolding IsLow clean
  clean-All [] h = tt
  clean-All (c ∷ s) h = (clean_sign-IsScopeSign c h.0, clean-All s h.1)

  -- What a normalised scope is: visible at both ends, not empty, and of scope signs alone.
  record IsScope (s : Str) : Type 0 where
    front : FrontVisible u s
    back : BackVisible u s
    signs : All (IsScopeSign u) s
    filled : s ≢ []

  default-IsScope : IsScope (codes "default")
  default-IsScope = record {
    front = v.small_visible b'd' (omega arith) (omega arith);
    back = v.small_visible b't' (omega arith) (omega arith);
    signs = (
      sign b'd' (omega arith) (omega arith),
      (
        sign b'e' (omega arith) (omega arith),
        (
          sign b'f' (omega arith) (omega arith),
          (
            sign b'a' (omega arith) (omega arith),
            (
              sign b'u' (omega arith) (omega arith),
              (sign b'l' (omega arith) (omega arith), (sign b't' (omega arith) (omega arith), tt)),
            ),
          ),
        ),
      ),
    );
    filled = λ e. cc;
  }
    where
      sign : (c : ℕ) → b'a' ≤ c → c ≤ b'z' → IsScopeSign u c
      sign c p q = (v.to_lower_small c p q, omega arith, omega arith, omega arith)

  default_if_empty-IsScope :
      (s : Str)
      → FrontVisible u s
      → BackVisible u s
      → All (IsScopeSign u) s
      → IsScope (default_if_empty s)
  default_if_empty-IsScope [] f b h = default-IsScope
  default_if_empty-IsScope (c ∷ s) f b h = record {
    front = f;
    back = b;
    signs = h;
    filled = λ e. cc;
  }

  normalize_scope-clean :
      (s : Str) → normalize_scope u s ≡ default_if_empty (clean (trim u (lower u s)))
  unfolding normalize_scope clean clean_sign
  normalize_scope-clean s = simp map-map

  normalize_scope-IsScope : (s : Str) → IsScope (normalize_scope u s)
  unfolding clean
  normalize_scope-IsScope s = rw normalize_scope-clean (
      default_if_empty-IsScope (clean (trim u (lower u s)))
        (map-FrontVisible u clean_sign clean_sign_visible (trim u (lower u s))
          (trim-FrontVisible u (lower u s)))
        (map-BackVisible u clean_sign clean_sign_visible (trim u (lower u s))
          (trim-BackVisible u (lower u s)))
        (clean-All (trim u (lower u s)) (trim-All u IsLow (lower u s) (lower-IsLow s))))

  lower-id : (s : Str) → All (IsScopeSign u) s → lower u s ≡ s
  lower-id [] h = refl
  lower-id (c ∷ s) h = ap₂ ◌∷◌ h.0.0 (lower-id s h.1)

  clean-id : (s : Str) → All (IsScopeSign u) s → clean s ≡ s
  unfolding clean clean_sign
  clean-id [] h = refl
  clean-id (c ∷ s) h = ap₂ ◌∷◌ (ground arith) (clean-id s h.1)

  default_if_empty-id : (s : Str) → s ≢ [] → default_if_empty s ≡ s
  default_if_empty-id [] h = absurd (h refl)
  default_if_empty-id (c ∷ s) h = refl

  normalize_scope-id : (s : Str) → IsScope s → normalize_scope u s ≡ s
  normalize_scope-id s h =
      rw
        (
          normalize_scope-clean s,
          lower-id s h.signs,
          trim-id u s h.front h.back,
          clean-id s h.signs,
        )
        (default_if_empty-id s h.filled)

  -- Normalising a scope twice is normalising it once.
  pub normalize_scope_idem :
      (s : Str) → normalize_scope u (normalize_scope u s) ≡ normalize_scope u s
  normalize_scope_idem s = normalize_scope-id (normalize_scope u s) (normalize_scope-IsScope s)

  -- No sign of a normalised scope is a colon.
  pub normalize_scope-no_colon : (s : Str) → All (λ c. c ≢ b':') (normalize_scope u s)
  normalize_scope-no_colon s = go (normalize_scope u s) (normalize_scope-IsScope s).signs
    where
      go : (t : Str) → All (IsScopeSign u) t → All (λ c. c ≢ b':') t
      go [] h = tt
      go (c ∷ t) h = (h.0.3, go t h.1)

-- A text with no colon ends at the first colon.
append-colon_injective :
    (s t k l : Str)
    → All (λ c. c ≢ b':') s
    → All (λ c. c ≢ b':') t
    → s ++ (b':' ∷ k) ≡ t ++ (b':' ∷ l)
    → (s ≡ t) × (k ≡ l)
append-colon_injective [] [] k l h h' e = (refl, cc)
append-colon_injective [] (d ∷ t) k l h h' e = absurd (h'.0 (cc))
append-colon_injective (c ∷ s) [] k l h h' e = absurd (h.0 (cc))
append-colon_injective (c ∷ s) (d ∷ t) k l h h' e =
    let r = append-colon_injective s t k l h.1 h'.1 (cc) in (ap₂ ◌∷◌ (cc) r.0, r.1)

append-injective : (p s t : Str) → p ++ s ≡ p ++ t → s ≡ t
append-injective [] s t e = e
append-injective (c ∷ p) s t e = append-injective p s t (cc)

-- Two requests share a Redis key exactly when their scopes are the same once normalised and their
-- keys are the same once trimmed.
pub build_key-eq_iff :
    (u : Unicode)
    → IsUnicode u
    → (s s' k k' : Str)
    → (build_key u s k ≡ build_key u s' k')
      ↔ ((normalize_scope u s ≡ normalize_scope u s') × (normalize_key u k ≡ normalize_key u k'))
unfolding build_key
build_key-eq_iff u v s s' k k' = (
  λ e.
      append-colon_injective _ _ _ _ (normalize_scope-no_colon u v s)
        (normalize_scope-no_colon u v s') (append-injective default_redis_key_prefix _ _ e),
  λ h. rw (h.0, h.1),
)

-- The key that `BeginHTTP` reserves, of a scope that it has normalised already, is the key that
-- `CompleteHTTP`, `ReleaseHTTP` and `GetHTTP` make of the scope as it came.
pub build_key-normalize_scope :
    (u : Unicode)
    → IsUnicode u
    → (s k : Str) → build_key u (normalize_scope u s) k ≡ build_key u s k
unfolding build_key
build_key-normalize_scope u v s k = rw (normalize_scope_idem u v s)
