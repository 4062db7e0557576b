-- ===== src/Tests/Redis.antt =====
-- Locks and rate limits.
use bookstore_golang.Base.{
  ℕ, ◌≢◌, ◌≡◌, refl, true, false, some, none, List, [], ◌∷◌, ok, err, arith,
}
use bookstore_golang.Base.Text.{Str, codes, str_eq}
use bookstore_golang.Errors.{unavailable}
use bookstore_golang.Database.Tx.Atomic.{is_err}
use bookstore_golang.Platform.Redis.{Redis, Env, call, redis_set_nx}
use bookstore_golang.Platform.Redis.Memory.{memory, memory-IsRedis}
use bookstore_golang.Platform.Lock.{Lock, acquire, release}
use bookstore_golang.Platform.Lock.Exclusion.{
  LockStep, acquires, releases, run_steps, acquire_excludes,
}
use bookstore_golang.Platform.Counter.{CounterEnv}
use bookstore_golang.Platform.Counter.Memory.{counters, counters-IsCounters}
use bookstore_golang.Platform.RateLimit.{allow}
use bookstore_golang.Platform.RateLimit.Window.{
  is_allowed, after_calls, allowed_calls, allow_window, allow_stuck,
}

abbrev texts : Redis Str
texts = memory Str

abbrev no_locks : Env texts
no_locks = record { store = λ k. none; now = 100; faults = [] }

abbrev a_lock : Lock
a_lock = record { key = codes "lock"; token = codes "a"; ttl = 10 }

abbrev b_lock : Lock
b_lock = record { key = codes "lock"; token = codes "b"; ttl = 10 }

abbrev attempts_of_b : List (ℕ × LockStep)
attempts_of_b = (102, acquires (codes "b") (codes "lock") 10) ∷ (103, releases b_lock) ∷ []

differs : codes "b" ≢ codes "a"
differs = λ e. ground arith

acquire_excludes_example :
    let later =
      record (run_steps attempts_of_b (acquire (codes "a") (codes "lock") 10 no_locks).1) {
        now = 105;
      } in
    ((other : Str) (ttl' : ℕ) → is_err (acquire other (codes "lock") ttl' later).0 ≡ true)
    × (later.faults ≡ [] → (release (some a_lock) later).0 ≡ ok tt)
unfolding acquire redis_set_nx call
acquire_excludes_example =
    acquire_excludes (memory-IsRedis Str) (codes "a") (codes "lock") 10 no_locks {lock = a_lock}
      attempts_of_b 105 refl ((omega arith, differs), ((omega arith, differs), tt)) (omega arith)

abbrev calm_counters : CounterEnv counters
calm_counters = record { store = λ k. none; now = 100; faults = [] }

abbrev failing_counters : CounterEnv counters
failing_counters = record { store = λ k. none; now = 100; faults = false ∷ true ∷ [] }

allow_window_example :
    allowed_calls (codes "k") 2 60000000000 (100 ∷ 101 ∷ 102 ∷ []) calm_counters ≡ 2
allow_window_example =
    allow_window counters-IsCounters (codes "k") 2 60000000000 59 calm_counters (101 ∷ 102 ∷ [])
      (omega arith) refl refl (omega arith, (omega arith, tt))

-- Long after the window.
allow_stuck_example :
    let r = allow (codes "k") 2 60 failing_counters in
    (r.0 ≡ err unavailable)
    × (is_allowed
          (allow
            (codes "k")
            2
            60
            (record (after_calls (codes "k") 2 60 (101 ∷ []) r.1) { now = 9000 })).0
        ≡ false)
allow_stuck_example =
    allow_stuck counters-IsCounters (codes "k") 2 60 failing_counters (101 ∷ []) 9000 refl refl
      (omega arith)
