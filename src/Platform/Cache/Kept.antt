-- ===== src/Platform/Cache/Kept.antt =====
-- What the cache keeps.
use bookstore_golang.Base.{
  ℕ, ◌+◌, ◌≡◌, refl, ap, ◌∙◌, Option, none, some, List, [], ◌∷◌, any, ◌==◌, nat_eq, ltb, ◌||◌,
  if◌then◌else◌, Bool, true, false, Result, ok, err, arith,
}
use bookstore_golang.Base.Text.{Str, str_eq}
use bookstore_golang.Errors.{Error, cache_miss}
use bookstore_golang.Platform.Redis.{Redis, IsRedis, Env, call, redis_get, redis_set}
use bookstore_golang.Platform.Cache.{
  Json, del_all, write_value, get_cached, set_cached, delete_cached, redis_del_all, read_value,
}

module _ {V A : Type 0} (R : Redis V) (redis : IsRedis R) (json : Json V A) where
  -- What Get gives, by what the key holds.
  abbrev pub found : Option V → Result Error A
  found none = err cache_miss
  found (some b) = read_value (json.unmarshal b)

  found-if :
      (b : Bool) (x y : Option V) → found (if b then x else y) ≡ (if b then found x else found y)
  found-if true x y = refl
  found-if false x y = refl

  get_cached_calm :
      (key : Str) (s : Env R)
      → s.faults ≡ []
      → (get_cached json key s).0 ≡ found (R.get s.store s.now key)
  unfolding get_cached redis_get call
  get_cached_calm key s calm = ground arith

  write_value_ok :
      (key : Str) (ttl : ℕ) (o : Option V) (s : Env R)
      → (write_value json key ttl o s).0 ≡ ok tt
      → (b : V) × (o ≡ some b)
        × ((write_value json key ttl o s).1.store ≡ R.set s.store s.now key b ttl)
  unfolding redis_set call
  write_value_ok key ttl none s done = absurd (cc)
  write_value_ok key ttl (some b) s done = (b, refl, ground arith)

  set_cached_ok :
      (key : Str) (value : A) (ttl : ℕ) (s : Env R)
      → (set_cached json key value ttl s).0 ≡ ok tt
      → (b : V) × (json.marshal value ≡ some b)
        × ((set_cached json key value ttl s).1.store ≡ R.set s.store s.now key b ttl)
  unfolding set_cached
  set_cached_ok key value ttl s done = write_value_ok key ttl (json.marshal value) s done

  delete_cached_ok :
      (keys : List Str) (s : Env R)
      → (delete_cached keys s).0 ≡ ok tt
      → (delete_cached keys s).1.store ≡ del_all R keys s.store
  unfolding delete_cached redis_del_all call
  delete_cached_ok [] s done = refl
  delete_cached_ok (key ∷ keys) s done = ground arith

  get-del_all :
      (keys : List Str) (s : R.State) (t : ℕ) (j : Str)
      → R.get (del_all R keys s) t j ≡ (if any (λ k. j == k) keys then none else R.get s t j)
  unfolding any
  get-del_all [] s t j = refl
  get-del_all (key ∷ keys) s t j =
      ground (arith, get-del_all keys (R.del s key) t j, redis.get-del s t key j)

  -- Over a Redis that keeps what it is given, and JSON that reads back the value: if Set returns
  -- no error then, while no call fails, Get of the key gives the value as long as the time to live
  -- has not run out or is 0, and a cache miss after that, and Get of any other key gives what it
  -- gave.
  get_cached-set_cached :
      (key : Str) (value : A) (ttl : ℕ) (s : Env R) (t : ℕ) (j : Str)
      → ((b : V) → json.marshal value ≡ some b → json.unmarshal b ≡ some value)
      → (set_cached json key value ttl s).0 ≡ ok tt
      → (get_cached json j (record (set_cached json key value ttl s).1 { now = t; faults = [] })).0
        ≡ (if j == key
            then (if ttl == 0 || ltb t (s.now + ttl) then ok value else err cache_miss)
            else (get_cached json j (record s { now = t; faults = [] })).0)
  get_cached-set_cached key value ttl s t j reads done =
      let (b, written, kept) = set_cached_ok key value ttl s done in
      let later = record s { now = t; faults = [] } in
      get_cached_calm j (record (set_cached json key value ttl s).1 { now = t; faults = [] }) refl
      ∙ ap (λ st. found (R.get st t j)) kept
      ∙ ap found (redis.get-set s.store s.now key b ttl t j)
      ∙ found-if (j == key) (if ttl == 0 || ltb t (s.now + ttl) then some b else none)
          (R.get s.store t j)
      ∙ rw
          (
            found-if (ttl == 0 || ltb t (s.now + ttl)) (some b) none,
            reads b written,
            get_cached_calm j later refl,
          )
          refl

  pub get_cached-delete_cached :
      (keys : List Str) (s : Env R) (t : ℕ) (j : Str)
      → (delete_cached keys s).0 ≡ ok tt
      → (get_cached json j (record (delete_cached keys s).1 { now = t; faults = [] })).0 ≡ (
          if any (λ k. j == k) keys
          then err cache_miss
          else (get_cached json j (record s { now = t; faults = [] })).0)
  get_cached-delete_cached keys s t j done =
      get_cached_calm j (record (delete_cached keys s).1 { now = t; faults = [] }) refl
      ∙ ap (λ st. found (R.get st t j)) (delete_cached_ok keys s done)
      ∙ ap found (get-del_all keys s.store t j)
      ∙ found-if (any (λ k. j == k) keys) none (R.get s.store t j)
      ∙ rw (get_cached_calm j (record s { now = t; faults = [] }) refl) refl
