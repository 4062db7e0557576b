-- ===== src/Platform/RateLimit/Window.antt =====
-- How many calls of a window the limiter allows.
use bookstore_golang.Base.{
  ℕ, suc, ◌+◌, ◌-◌, ◌≤◌, ◌<◌, ◌≡◌, refl, sym, ap, ◌∙◌, ◌*◌, subst, Bool, true, false, Option, none,
  some, List, [], ◌∷◌, nat_eq, leb, if◌then◌else◌, length, All, Result, ok, err, arith, ==-refl,
}
use bookstore_golang.Base.Text.{Str, str_eq}
use bookstore_golang.Errors.{Error, unavailable}
use bookstore_golang.Platform.Counter.{
  Counters, second, IsCounters, CounterEnv, lasting, counter_call, redis_incr, redis_expire,
  redis_ttl,
}
use bookstore_golang.Platform.RateLimit.{RateLimitResult, allow}

abbrev pub is_allowed : Result Error RateLimitResult → Bool
is_allowed (ok r) = r.allowed
is_allowed (err e) = false

abbrev pub Before : ℕ → Option ℕ → Type 0
Before t none = Unit {0}
Before t (some end) = t < end

All-trivial : (times : List ℕ) → All (λ t. Before t none) times
All-trivial [] = tt
All-trivial (t ∷ times) = (tt, All-trivial times)

module _ {C : Counters} (key : Str) (limit window : ℕ) where
  -- The limiter after calls at the given times, and how many of them it allowed.
  abbrev pub after_calls : List ℕ → CounterEnv C → CounterEnv C
  after_calls [] e = e
  after_calls (t ∷ times) e = after_calls times (allow key limit window (record e { now = t })).1

  abbrev pub allowed_calls : List ℕ → CounterEnv C → ℕ
  allowed_calls [] e = 0
  allowed_calls (t ∷ times) e =
      let r = allow key limit window (record e { now = t }) in
      let rest = allowed_calls times r.1 in if is_allowed r.0 then suc rest else rest

  -- The key holds a count until its end.
  abbrev Reads : ℕ → Option ℕ → CounterEnv C → Type 0
  Reads n end e = (e.faults ≡ []) × ((t : ℕ) → Before t end → C.read e.store t key ≡ some (n, end))

  allow_later :
      (n : ℕ) (end : Option ℕ) (e : CounterEnv C)
      → e.faults ≡ []
      → C.read e.store e.now key ≡ some (suc n, end)
      → (is_allowed (allow key limit window e).0 ≡ leb (suc (suc n)) limit)
        × ((allow key limit window e).1 ≡ record e { store = C.incr e.store e.now key })
  unfolding allow redis_incr redis_expire redis_ttl counter_call
  allow_later n end e calm held = (ground arith, ground arith)

  allow_first :
      (e : CounterEnv C)
      → e.faults ≡ []
      → C.read e.store e.now key ≡ none
      → (is_allowed (allow key limit window e).0 ≡ leb 1 limit)
        × ((allow key limit window e).1
            ≡ record e { store = C.expire (C.incr e.store e.now key) e.now key (C.sent window) })
  unfolding allow redis_incr redis_expire redis_ttl counter_call
  allow_first e calm free = (ground arith, ground arith)

module _ {C : Counters} (laws : IsCounters C) (key : Str) (limit window : ℕ) where
  lasting-Before :
      (t n : ℕ) (end : Option ℕ) → Before t end → lasting t (some (n, end)) ≡ some (n, end)
  lasting-Before t n none b = refl
  lasting-Before t n (some end) b = ground arith

  Reads-allow :
      (n : ℕ) (end : Option ℕ) (e : CounterEnv C)
      → Before e.now end
      → Reads key limit window (suc n) end e
      → Reads key limit window (suc (suc n)) end (allow key limit window e).1
  Reads-allow n end e early (calm, held) =
      rw (allow_later key limit window n end e calm (held e.now early)).1 (
        calm,
        λ t b.
            rw (laws.read-incr, held e.now early, ==-refl key)
              (lasting-Before t (suc (suc n)) end b),
      )

  -- The calls of a window after its first one.
  later_calls :
      (n : ℕ) (end : Option ℕ) (times : List ℕ) (e : CounterEnv C)
      → All (λ t. Before t end) times
      → Reads key limit window (suc n) end e
      → let left = limit - suc n in
        (allowed_calls key limit window times e
          ≡ (if leb (length times) left then length times else left))
        × Reads key limit window (suc (length times + n)) end (after_calls key limit window times e)
  later_calls n end [] e early reads =
      let same : n ≡ 0 + n = omega arith in
      (ground arith, subst (λ m. Reads key limit window (suc m) end e) same reads)
  later_calls n end (t ∷ times) e early reads =
      let e1 = record e { now = t } in
      let same : length times + suc n ≡ suc (length times) + n = omega arith in
      let (count, last) =
        later_calls (suc n) end times (allow key limit window e1).1 early.1
          (Reads-allow n end e1 early.0 reads) in
      (
        rw ((allow_later key limit window n end e1 reads.0 (reads.1 t early.0)).0, count)
            (ground arith),
        subst
            (λ m.
              Reads key limit window (suc m) end
                (after_calls key limit window times (allow key limit window e1).1))
            same last,
      )

  allow-Reads :
      (e : CounterEnv C)
      → e.faults ≡ []
      → C.read e.store e.now key ≡ none
      → Reads key limit window 1 (some (e.now + C.sent window)) (allow key limit window e).1
  allow-Reads e calm free = rw (allow_first key limit window e calm free).1 (
    calm,
    λ t b.
        rw (laws.read-expire, laws.read-incr, free, ==-refl key)
          (lasting-Before t 1 (some (e.now + C.sent window)) b),
  )

  -- Over counters that behave as Redis documents, with a window of whole seconds, one at least,
  -- when no call fails and the key is free, of a first call of Allow and any further ones before
  -- the window that it starts is over, all are allowed if they are at most as many as the limit,
  -- and as many as the limit otherwise.
  pub allow_window :
      (seconds : ℕ) (e : CounterEnv C) (times : List ℕ)
      → window ≡ suc seconds * second
      → e.faults ≡ []
      → C.read e.store e.now key ≡ none
      → All (λ t. t < e.now + window) times
      → let calls = e.now ∷ times in
        allowed_calls key limit window calls e
        ≡ (if leb (length calls) limit then length calls else limit)
  allow_window seconds e times whole calm free early =
      let as_sent : C.sent window ≡ window =
        ap C.sent whole ∙ laws.sent_whole seconds ∙ sym whole in
      let early' = subst (λ ttl. All (λ t. t < e.now + ttl) times) (sym as_sent) early in
      rw
        (
          (allow_first key limit window e calm free).0,
          (later_calls 0 (some (e.now + C.sent window)) times (allow key limit window e).1 early'
              (allow-Reads e calm free)).0,
        )
        (ground arith)

  -- The first call when the increment is well and the expiry fails.
  allow_unexpired :
      (e : CounterEnv C)
      → e.faults ≡ false ∷ true ∷ []
      → C.read e.store e.now key ≡ none
      → ((allow key limit window e).0 ≡ err unavailable)
        × ((allow key limit window e).1
            ≡ record e { store = C.incr e.store e.now key; faults = [] })
  unfolding allow redis_incr redis_expire redis_ttl counter_call
  allow_unexpired e down free = (ground arith, ground arith)

  -- Over counters that behave as Redis documents, when on a free key the increment of Allow is
  -- well, its expiry fails and no call fails after that, the call answers that Redis is
  -- unavailable, and once as many calls as the limit have been made, at whatever times, no call is
  -- allowed at any time.
  pub allow_stuck :
      (e : CounterEnv C) (times : List ℕ) (t : ℕ)
      → e.faults ≡ false ∷ true ∷ []
      → C.read e.store e.now key ≡ none
      → limit ≤ length times + 1
      → let r = allow key limit window e in
        (r.0 ≡ err unavailable)
        × (is_allowed
              (allow key limit window
                (record (after_calls key limit window times r.1) { now = t })).0
            ≡ false)
  allow_stuck e times t down free many =
      let first = allow_unexpired e down free in
      let reads : Reads key limit window 1 none (allow key limit window e).1 =
        rw first.1 (refl, λ t b. rw (laws.read-incr, free, ==-refl key) refl) in
      let all : All (λ t. Before t none) times = All-trivial times in
      let last = (later_calls 0 none times (allow key limit window e).1 all reads).1 in
      (
        first.0,
        (allow_later key limit window (length times + 0) none
              (record (after_calls key limit window times (allow key limit window e).1) { now = t })
              last.0 (last.1 t tt)).0
            ∙ ground (arith, many),
      )
