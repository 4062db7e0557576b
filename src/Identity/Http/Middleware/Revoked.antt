-- ===== src/Identity/Http/Middleware/Revoked.antt =====
-- Which requests the two middlewares hand on.
use bookstore_golang.Base.{
  ℕ, ◌+◌, ◌<◌, ◌≡◌, ◌≢◌, refl, sym, ◌∙◌, ap, ◌⊎◌, inl, inr, Option-cases, Bool-cases, eq_of_==,
  Bool, true, false, not, ◌==◌, if◌then◌else◌, Option, none, some, [], Result, ok, err, arith,
  ==-refl,
}
use bookstore_golang.Base.Text.{Str, codes, str_eq, trim}
use bookstore_golang.Errors.{Error, token_failed}
use bookstore_golang.Platform.Redis.{Redis, IsRedis, call, redis_get, redis_set}
use bookstore_golang.Database.{World, on_redis}
use bookstore_golang.Identity.Library.{Library, Claims}
use bookstore_golang.Identity.Tokens.{validate_access_token, parse_token, access_type}
use bookstore_golang.Identity.Blacklist.{blacklist_key, add_to_blacklist, is_token_blacklisted}
use bookstore_golang.Identity.Cache.Once.{world_at}
use bookstore_golang.Identity.Http.Middleware.{
  AuthContext, Reply, refused, handed_on, after_validation, with_parts, HeaderLibrary, context_of,
  split_space, auth_middleware, strict_auth_middleware,
}

abbrev pub is_handed_on : {A : Type 0} → Reply A → Bool
is_handed_on (refused status code) = false
is_handed_on (handed_on a) = true

some-none : {A : Type 0} {a : A} → some a ≡ none → ⊥
some-none e = cc

true-false : true ≡ false → ⊥
true-false e = cc

module _ {V : Type 0} {R : Redis V} {A : Type 0}
    (next : AuthContext → World R → Reply A × World R) where
  strict_refuses :
      (ac : AuthContext) (w : World R) {v : V}
      → R.get w.store w.now (blacklist_key ac.jti) ≡ some v
      → is_handed_on (strict_auth_middleware next ac w).0 ≡ false
  unfolding strict_auth_middleware is_token_blacklisted on_redis redis_get call
  strict_refuses ac w listed = ground arith

  strict_lets :
      (ac : AuthContext) (w : World R)
      → is_handed_on (strict_auth_middleware next ac w).0 ≡ true
      → (ac.jti ≢ []) × (R.get w.store w.now (blacklist_key ac.jti) ≡ none)
  unfolding strict_auth_middleware
  strict_lets ac w passed = (
    λ e. ground arith,
    elim (Option-cases (R.get w.store w.now (blacklist_key ac.jti))) [
      | inl free ↦ free
      | inr (v, listed) ↦ absurd (true-false (sym passed ∙ strict_refuses ac w listed))
    ],
  )

module _ {V : Type 0} {R : Redis V} (l : Library V) where
  validate_bad :
      (token : Str) (w : World R)
      → l.parse_with_claims w.now token ≡ none
      → (validate_access_token l token w).0 ≡ err token_failed
  unfolding validate_access_token parse_token
  validate_bad token w bad = ground arith

  validate_other :
      (token : Str) (w : World R) (claims : Claims)
      → l.parse_with_claims w.now token ≡ some claims
      → (claims.type == access_type) ≡ false
      → (validate_access_token l token w).0 ≡ err token_failed
  unfolding validate_access_token parse_token
  validate_other token w claims good other = ground arith

  validate_good :
      (token : Str) (w : World R) (claims : Claims)
      → l.parse_with_claims w.now token ≡ some claims
      → (claims.type == access_type) ≡ true
      → validate_access_token l token w ≡ (ok claims, w)
  unfolding validate_access_token parse_token
  validate_good token w claims good access = ground arith

  -- An access token is checked without a change.
  validate_cases :
      (token : Str) (w : World R)
      → ((validate_access_token l token w).0 ≡ err token_failed)
        ⊎ ((claims : Claims) × (l.parse_with_claims w.now token ≡ some claims)
            × (claims.type ≡ access_type)
            × (validate_access_token l token w ≡ (ok claims, w)))
  validate_cases token w = elim (Option-cases (l.parse_with_claims w.now token)) [
    | inl bad ↦ inl (validate_bad token w bad)
    | inr (claims, good) ↦ elim (Bool-cases (claims.type == access_type)) [
      | inl access ↦
          inr (claims, good, eq_of_== _ _ access, validate_good token w claims good access)
      | inr other ↦ inl (validate_other token w claims good other)
    ]
  ]

module _ {V : Type 0} {R : Redis V} (l : Library V) (h : HeaderLibrary) {A : Type 0}
    (next : AuthContext → World R → Reply A × World R) where
  -- The token of a request that is handed on.
  abbrev pub Authentic : Str → World R → Type 0
  Authentic auth_header w =
      (scheme : Str) × (token : Str) × (claims : Claims) × (split_space auth_header
        ≡ some (scheme, token))
      × (h.equal_fold scheme (codes "Bearer") ≡ true)
      × (l.parse_with_claims w.now (trim l.unicode token) ≡ some claims)
      × (claims.type ≡ access_type)
      × (is_handed_on (next (context_of h claims) w).0 ≡ true)

  err_refused :
      (r : Result Error Claims × World R) {e : Error}
      → r.0 ≡ err e
      → is_handed_on (after_validation l h next r).0 ≡ false
  err_refused (ok c, w) bad = absurd (cc)
  err_refused (err x, w) bad = refl

  header_lets :
      (auth_header : Str) (w : World R)
      → is_handed_on (auth_middleware l h next auth_header w).0 ≡ true
      → is_handed_on (with_parts l h next (split_space auth_header) w).0 ≡ true
  unfolding auth_middleware
  header_lets auth_header w passed = elim (Bool-cases (auth_header == [])) [
    | inl empty ↦ absurd (true-false (sym passed ∙ rw (auth_middleware, empty) refl))
    | inr filled ↦
        sym (
          ap
            (λ (b : Bool).
              is_handed_on
                (if b
                  then (refused 401 (codes "MISSING_TOKEN"), w)
                  else with_parts l h next (split_space auth_header) w).0)
            filled)
        ∙ passed
  ]

  validation_lets :
      (token : Str) (w : World R)
      → is_handed_on (after_validation l h next (validate_access_token l token w)).0 ≡ true
      → (claims : Claims) × (l.parse_with_claims w.now token ≡ some claims)
        × (claims.type ≡ access_type)
        × (is_handed_on (next (context_of h claims) w).0 ≡ true)
  validation_lets token w passed = elim (validate_cases l token w) [
    | inl bad ↦ absurd (true-false (sym passed ∙ err_refused (validate_access_token l token w) bad))
    | inr (claims, good, access, e) ↦ (
      claims,
      good,
      access,
      sym (ap (λ r. is_handed_on (after_validation l h next r).0) e) ∙ passed,
    )
  ]

  parts_let :
      (parts : Option (Str × Str)) (w : World R)
      → is_handed_on (with_parts l h next parts w).0 ≡ true
      → (scheme : Str) × (token : Str) × (parts ≡ some (scheme, token))
        × (h.equal_fold scheme (codes "Bearer") ≡ true)
        × (is_handed_on
              (after_validation l h next (validate_access_token l (trim l.unicode token) w)).0
            ≡ true)
  parts_let none w passed = absurd (true-false (sym passed))
  parts_let (some (scheme, token)) w passed =
      elim (Bool-cases (h.equal_fold scheme (codes "Bearer"))) [
        | inl bearer ↦ (
          scheme,
          token,
          refl,
          bearer,
          sym (
                ap
                  (λ (b : Bool).
                    is_handed_on
                      (if not b
                        then (refused 401 (codes "INVALID_TOKEN_FORMAT"), w)
                        else after_validation l h next
                            (validate_access_token l (trim l.unicode token) w)).0)
                  bearer)
              ∙ passed,
        )
        | inr other ↦ absurd (
            true-false (
              sym passed
              ∙ ap
                  (λ (b : Bool).
                    is_handed_on
                      (if not b
                        then (refused 401 (codes "INVALID_TOKEN_FORMAT"), w)
                        else after_validation l h next
                            (validate_access_token l (trim l.unicode token) w)).0)
                  other))
      ]

  auth_lets :
      (auth_header : Str) (w : World R)
      → is_handed_on (auth_middleware l h next auth_header w).0 ≡ true
      → Authentic auth_header w
  auth_lets auth_header w passed =
      let (scheme, token, split, bearer, rest) =
        parts_let (split_space auth_header) w (header_lets auth_header w passed) in
      let (claims, good, access, last) = validation_lets (trim l.unicode token) w rest in
      (scheme, token, claims, split, bearer, good, access, last)

added_store :
    {V : Type 0} {R : Redis V} (revoked : V) (jti : Str) (ttl : ℕ) (w : World R)
    → (add_to_blacklist revoked jti ttl w).0 ≡ ok tt
    → (add_to_blacklist revoked jti ttl w).1.store
      ≡ R.set w.store w.now (blacklist_key jti) revoked ttl
unfolding add_to_blacklist on_redis redis_set call
added_store revoked jti ttl w added = ground arith

listed_until :
    {V : Type 0} (R : Redis V) (redis : IsRedis R) (revoked : V) (jti : Str) (ttl t : ℕ)
    (w : World R)
    → (add_to_blacklist revoked jti ttl w).0 ≡ ok tt
    → t < w.now + ttl
    → R.get (add_to_blacklist revoked jti ttl w).1.store t (blacklist_key jti) ≡ some revoked
listed_until R redis revoked jti ttl t w added early =
    rw (added_store revoked jti ttl w added, redis.get-set)
      (ground (arith, ==-refl (blacklist_key jti)))

module _ {V : Type 0} (R : Redis V) (redis : IsRedis R) (l : Library V) (h : HeaderLibrary)
    {A : Type 0} where
  -- Over a Redis that keeps what it is given: after AddToBlacklist has listed the id of a token,
  -- and before the entry runs out, a request that the two middlewares hand on, whatever calls
  -- fail, carries a token that is valid then, is an access token, and has an id that is neither
  -- empty nor the listed one.
  pub auth-strict_auth :
      (next : AuthContext → World R → Reply A × World R) (revoked : V) (jti auth_header : Str)
      (ttl t : ℕ) (w : World R)
      → (add_to_blacklist revoked jti ttl w).0 ≡ ok tt
      → t < w.now + ttl
      → let later = world_at t (add_to_blacklist revoked jti ttl w).1 in
        is_handed_on (auth_middleware l h (strict_auth_middleware next) auth_header later).0 ≡ true
        → (scheme : Str) × (token : Str) × (claims : Claims) × (split_space auth_header
            ≡ some (scheme, token))
          × (l.parse_with_claims t (trim l.unicode token) ≡ some claims)
          × (claims.type ≡ access_type)
          × (claims.jti ≢ [])
          × (claims.jti ≢ jti)
  auth-strict_auth next revoked jti auth_header ttl t w added early passed =
      let later = world_at t (add_to_blacklist revoked jti ttl w).1 in
      let (scheme, token, claims, split, bearer, good, access, last) =
        auth_lets l h (strict_auth_middleware next) auth_header later passed in
      let (filled, free) = strict_lets next (context_of h claims) later last in
      (
        scheme,
        token,
        claims,
        split,
        good,
        access,
        filled,
        λ same. some-none (
            sym (listed_until R redis revoked jti ttl t w added early)
            ∙ ap (λ j. R.get later.store t (blacklist_key j)) (sym same)
            ∙ free),
      )
