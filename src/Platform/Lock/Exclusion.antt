-- ===== src/Platform/Lock/Exclusion.antt =====
-- A lock excludes the others while it lasts.
use bookstore_golang.Base.{
  ℕ, ◌+◌, ◌<◌, ◌≡◌, ◌≢◌, ◌⊎◌, inl, inr, true, none, some, List, [], ◌∷◌, nat_eq, All, ok, arith,
  ==-refl,
}
use bookstore_golang.Base.Text.{Str, str_eq}
use bookstore_golang.Platform.Redis.{Redis, IsRedis, Env, call, redis_set_nx}
use bookstore_golang.Database.Tx.Atomic.{is_err}
use bookstore_golang.Platform.Lock.{Lock, acquire, release, release_lock_script}

-- What clients do to locks, of any keys.
pub data LockStep : Type 0 where
  acquires : Str → Str → ℕ → LockStep
  releases : Lock → LockStep

abbrev pub token_of : LockStep → Str
token_of (acquires token key ttl) = token
token_of (releases lock) = lock.token

module _ {R : Redis Str} where
  abbrev pub run_step : LockStep → Env R → Env R
  run_step (acquires token key ttl) e = (acquire token key ttl e).1
  run_step (releases lock) e = (release (some lock) e).1

  -- Steps at their times.
  abbrev pub run_steps : List (ℕ × LockStep) → Env R → Env R
  run_steps [] e = e
  run_steps ((t, x) ∷ steps) e = run_steps steps (run_step x (record e { now = t }))

  -- The key holds the token until the time.
  abbrev pub Holds : Str → Str → ℕ → Env R → Type 0
  Holds key token until e = (t : ℕ) → t < until → R.get e.store t key ≡ some token

module _ {R : Redis Str} where
  acquire_cases :
      (token k : Str) (ttl : ℕ) (e : Env R)
      → ((acquire token k ttl e).1.store ≡ e.store)
        ⊎ ((R.get e.store e.now k ≡ none)
            × ((acquire token k ttl e).1.store ≡ R.set e.store e.now k token ttl))
  unfolding acquire redis_set_nx call
  acquire_cases token k ttl e = ground arith

  release_cases :
      (lock : Lock) (e : Env R)
      → ((release (some lock) e).1.store ≡ e.store)
        ⊎ ((R.get e.store e.now lock.key ≡ some lock.token)
            × ((release (some lock) e).1.store ≡ R.del e.store lock.key))
  unfolding release release_lock_script call
  release_cases lock e = ground arith

  acquire_ok :
      (token k : Str) (ttl : ℕ) (e : Env R) (lock : Lock)
      → (acquire token k ttl e).0 ≡ ok lock
      → ((acquire token k ttl e).1.store ≡ R.set e.store e.now k token ttl)
        × (lock.key ≡ k)
        × (lock.token ≡ token)
  unfolding acquire redis_set_nx call
  acquire_ok token k ttl e lock got = (ground arith, ground arith, ground arith)

module _ {R : Redis Str} (redis : IsRedis R) where
  step-Holds :
      (key token : Str) (until : ℕ) (x : LockStep) (e : Env R)
      → e.now < until
      → token_of x ≢ token
      → Holds key token until e
      → Holds key token until (run_step x e)
  step-Holds key token until (acquires other k ttl) e early differs held t lt =
      elim (acquire_cases other k ttl e) [
        | inl same ↦ rw same (held t lt)
        | inr (free, set) ↦
            rw (set, redis.get-set) (ground (arith, held t lt, held e.now early, free))
      ]
  step-Holds key token until (releases lock) e early differs held t lt =
      elim (release_cases lock e) [
        | inl same ↦ rw same (held t lt)
        | inr (held', del) ↦
            rw (del, redis.get-del) (ground (arith, held t lt, held e.now early, held'))
      ]

  -- Steps of others, within the time.
  abbrev pub Others : Str → ℕ → ℕ × LockStep → Type 0
  Others token until step = (step.0 < until) × (token_of step.1 ≢ token)

  steps-Holds :
      (key token : Str) (until : ℕ) (steps : List (ℕ × LockStep)) (e : Env R)
      → All (Others token until) steps
      → Holds key token until e
      → Holds key token until (run_steps steps e)
  steps-Holds key token until [] e others held = held
  steps-Holds key token until ((t, x) ∷ steps) e others held =
      steps-Holds key token until steps (run_step x (record e { now = t })) others.1
        (step-Holds key token until x (record e { now = t }) others.0.0 others.0.1 held)

  acquired-Holds :
      (token key : Str) (ttl : ℕ) (e : Env R) (lock : Lock)
      → (acquire token key ttl e).0 ≡ ok lock
      → Holds key token (e.now + ttl) (acquire token key ttl e).1
  acquired-Holds token key ttl e lock got t lt =
      rw ((acquire_ok token key ttl e lock got).0, redis.get-set) (ground (arith, ==-refl key))

  refused :
      (token key other : Str) (until ttl : ℕ) (e : Env R)
      → e.now < until
      → Holds key token until e
      → is_err (acquire other key ttl e).0 ≡ true
  unfolding acquire redis_set_nx call
  refused token key other until ttl e early held = ground (arith, held e.now early)

  release_held :
      (lock : Lock) (until : ℕ) (e : Env R)
      → e.now < until
      → e.faults ≡ []
      → Holds lock.key lock.token until e
      → (release (some lock) e).0 ≡ ok tt
  unfolding release release_lock_script call
  release_held lock until e early calm held = ground (arith, held e.now early, ==-refl lock.token)

  -- Over any Redis that keeps what it is given: after Acquire has given a lock, and any steps of
  -- clients on locks, with other tokens and before its time to live runs out, every Acquire of its
  -- key before then fails, whatever calls fail; and if no call fails from there on, the release of
  -- the lock then succeeds.
  pub acquire_excludes :
      (token key : Str) (ttl : ℕ) (e : Env R) {lock : Lock} (steps : List (ℕ × LockStep)) (t : ℕ)
      → (acquire token key ttl e).0 ≡ ok lock
      → All (Others token (e.now + ttl)) steps
      → t < e.now + ttl
      → let later = record (run_steps steps (acquire token key ttl e).1) { now = t } in
        ((other : Str) (ttl' : ℕ) → is_err (acquire other key ttl' later).0 ≡ true)
        × (later.faults ≡ [] → (release (some lock) later).0 ≡ ok tt)
  acquire_excludes token key ttl e {lock} steps t got others early =
      let until = e.now + ttl in
      let later = record (run_steps steps (acquire token key ttl e).1) { now = t } in
      let held =
        steps-Holds key token until steps (acquire token key ttl e).1 others
          (acquired-Holds token key ttl e lock got) in
      let (_, same_key, same_token) = acquire_ok token key ttl e lock got in
      (
        λ other ttl'. refused token key other until ttl' later early held,
        λ calm. release_held lock until later early calm (rw (same_key, same_token) held),
      )
