-- ===== src/Platform/Counter.antt =====
-- The counters of Redis, which is a service: INCR, EXPIRE, TTL and GET, and their documented
-- behaviour. A call may fail, as `faults` says.
pub mod Memory
use bookstore_golang.Base.{
  ℕ, suc, ◌+◌, ◌-◌, ◌*◌, ◌≡◌, Bool, true, false, Option, none, some, List, [], ◌∷◌, ◌==◌, ltb,
  if◌then◌else◌, Result, ok, err, Action,
}
use bookstore_golang.Base.Text.{Str, str_eq}
use bookstore_golang.Errors.{Error, redis_failed}

-- nanoseconds
abbrev pub second : ℕ
second = 1000000000

-- A count, and the time at which it runs out, if any.
abbrev pub Count : Type 0
Count = ℕ × Option ℕ

pub record Counters : Type 1 where
  pub State : Type 0
  -- what a key holds at a time
  pub read : State → ℕ → Str → Option Count
  pub incr : State → ℕ → Str → State
  -- with a time to live
  pub expire : State → ℕ → Str → ℕ → State
  -- the time to live that the client sends for a duration, since EXPIRE counts in seconds
  pub sent : ℕ → ℕ

-- What a count is at a later time.
abbrev pub lasting : ℕ → Option Count → Option Count
lasting later none = none
lasting later (some (n, none)) = some (n, none)
lasting later (some (n, some t)) = if ltb later t then some (n, some t) else none

abbrev pub incremented : Option Count → Count
incremented none = (1, none)
incremented (some (n, t)) = (suc n, t)

abbrev pub expiring : ℕ → Option Count → Option Count
expiring t none = none
expiring t (some (n, _)) = some (n, some t)

-- INCR starts a key at one, without an end, and keeps the end of a key that is there; EXPIRE sets
-- the end; no other key changes. The client sends whole seconds as they are.
pub record IsCounters (C : Counters) : Type 0 where
  pub read-incr :
      (s : C.State) (now : ℕ) (k : Str) (later : ℕ) (j : Str)
      → C.read (C.incr s now k) later j
        ≡ (if j == k then lasting later (some (incremented (C.read s now k))) else C.read s later j)
  pub read-expire :
      (s : C.State) (now : ℕ) (k : Str) (ttl later : ℕ) (j : Str)
      → C.read (C.expire s now k ttl) later j ≡ (
          if j == k
          then lasting later (expiring (now + ttl) (C.read s now k))
          else C.read s later j)
  pub sent_whole : (n : ℕ) → C.sent (suc n * second) ≡ suc n * second

pub record CounterEnv (C : Counters) : Type 0 where
  pub store : C.State
  pub now : ℕ
  pub faults : List Bool

-- The time that is left, if there is an end.
abbrev pub time_left : ℕ → Option Count → Option ℕ
time_left now none = none
time_left now (some (n, none)) = none
time_left now (some (n, some t)) = some (t - now)

module _ {C : Counters} where
  unfoldable pub counter_call :
      {A : Type 0} → (CounterEnv C → Result Error A × CounterEnv C) → Action (CounterEnv C) Error A
  counter_call f e = elim e.faults [
    | [] ↦ f e
    | down ∷ rest ↦
        let e' = record e { faults = rest } in if down then (err redis_failed, e') else f e'
  ]

  -- The count after the increment.
  unfoldable pub redis_incr : Str → Action (CounterEnv C) Error ℕ
  unfolding counter_call
  redis_incr k = counter_call (λ e.
      (ok (incremented (C.read e.store e.now k)).0, record e { store = C.incr e.store e.now k }))

  unfoldable pub redis_expire : Str → ℕ → Action (CounterEnv C) Error (Unit {0})
  unfolding counter_call
  redis_expire k ttl =
      counter_call (λ e. (ok tt, record e { store = C.expire e.store e.now k (C.sent ttl) }))

  unfoldable pub redis_ttl : Str → Action (CounterEnv C) Error (Option ℕ)
  unfolding counter_call
  redis_ttl k = counter_call (λ e. (ok (time_left e.now (C.read e.store e.now k)), e))

  unfoldable pub redis_get_count : Str → Action (CounterEnv C) Error (Option Count)
  unfolding counter_call
  redis_get_count k = counter_call (λ e. (ok (C.read e.store e.now k), e))
