-- ===== src/Kafka/Consumer/Retry.antt =====
-- How often a message is tried.
use bookstore_golang.Base.{
  ℕ, zero, suc, ◌≤◌, ◌<◌, ◌≡◌, refl, sym, subst, ◌∙◌, ap, inl, inr, Bool, true, false, List, [],
  ◌++◌, arith,
}
use mathlib.Core.List.{append_assoc, append-nil}
use bookstore_golang.Base.Int.{ℤ, pos, negsuc}
use bookstore_golang.Errors.{Error}
use bookstore_golang.Kafka.Producer.{Broker}
use bookstore_golang.Kafka.Handler.{
  Message, Values, Handler, Outcome, Outcome-cases, done, failed, panicked,
}
use bookstore_golang.Kafka.Settings.{Config}
use bookstore_golang.Kafka.Consumer.{attempt_count, attempts, handle_with_retry, pause}

abbrev pub is_failed : Outcome → Bool
is_failed done = false
is_failed (failed e) = true
is_failed panicked = false

-- The sleeps of `n` attempts from the given one on.
abbrev pub waits : ℤ → ℕ → ℕ → List ℤ
waits backoff attempt zero = []
waits backoff attempt (suc n) = pause backoff attempt ++ waits backoff (suc attempt) n

module _ {S : Type 0} (h : Handler S) (c : Values) (msg : Message) where
  -- The state of the handler after `n` calls, and what the call after them comes to.
  abbrev pub app_after : ℕ → S → S
  app_after zero s = s
  app_after (suc n) s = app_after n (h c msg s).1

  abbrev pub outcome_after : ℕ → S → Outcome
  outcome_after n s = (h c msg (app_after n s)).0

  -- What the attempts of a message come to, of which there are `suc left`.
  abbrev pub Tried : ℤ → ℕ → ℕ → Broker S → Outcome × Broker S → Type 0
  Tried backoff left attempt b r =
      (k : ℕ) × (k ≤ left)
      × (r.1 ≡ record b {
        app = app_after (suc k) b.app;
        slept = b.slept ++ waits backoff attempt (suc k);
      })
      × (r.0 ≡ outcome_after k b.app)
      × ((j : ℕ) → j < k → is_failed (outcome_after j b.app) ≡ true)
      × (is_failed r.0 ≡ true → k ≡ left)

  first_is_last :
      (backoff : ℤ) (left attempt : ℕ) (b : Broker S) (o : Outcome)
      → (h c msg b.app).0 ≡ o
      → (is_failed o ≡ true → 0 ≡ left)
      → Tried backoff left attempt b
          (o, record b { app = (h c msg b.app).1; slept = b.slept ++ pause backoff attempt })
  first_is_last backoff left attempt b o same only = (
    0,
    omega arith,
    ap (λ l. record b { app = (h c msg b.app).1; slept = b.slept ++ l })
        (sym (append-nil (pause backoff attempt))),
    sym same,
    λ j lt. absurd (omega arith),
    only,
  )

  failed_before :
      (b : S) (k : ℕ) {e : Error}
      → (h c msg b).0 ≡ failed e
      → ((j : ℕ) → j < k → is_failed (outcome_after j (h c msg b).1) ≡ true)
      → (j : ℕ) → j < suc k
      → is_failed (outcome_after j b) ≡ true
  failed_before b k first others zero lt = ap is_failed first
  failed_before b k first others (suc j) lt = others j (omega arith)

  one_more :
      (backoff : ℤ) (left attempt : ℕ) (b : Broker S) (r : Outcome × Broker S) {e : Error}
      → (h c msg b.app).0 ≡ failed e
      → Tried backoff left
          (suc attempt)
          (record b { app = (h c msg b.app).1; slept = b.slept ++ pause backoff attempt })
          r
      → Tried backoff (suc left) attempt b r
  one_more backoff left attempt b r first (k, few, after, last, before, all) = (
    suc k,
    omega (arith, few),
    after
        ∙ ap (λ l. record b { app = app_after (suc k) (h c msg b.app).1; slept = l })
            (append_assoc b.slept _ _),
    last,
    failed_before b.app k first before,
    λ f. ap suc (all f),
  )

  attempts_lem :
      (backoff : ℤ) (left attempt : ℕ) (last : Outcome) (b : Broker S)
      → Tried backoff left attempt b (attempts h c msg backoff (suc left) attempt last b)
  unfolding attempts
  attempts_lem backoff zero attempt last b = elim (Outcome-cases (h c msg b.app).0) [
    | inl d ↦ rw (attempts, d) (first_is_last backoff 0 attempt b done d (λ f. refl))
    | inr (inl (e, f)) ↦
        rw (attempts, f) (first_is_last backoff 0 attempt b (failed e) f (λ f. refl))
    | inr (inr p) ↦ rw (attempts, p) (first_is_last backoff 0 attempt b panicked p (λ f. refl))
  ]
  attempts_lem backoff (suc left) attempt last b =
      let b1 = record b { app = (h c msg b.app).1; slept = b.slept ++ pause backoff attempt } in
      elim (Outcome-cases (h c msg b.app).0) [
        | inl d ↦
            rw (attempts, d) (first_is_last backoff (suc left) attempt b done d (λ f. absurd (cc)))
        | inr (inl (e, f)) ↦
            rw (attempts, f)
              (one_more backoff left attempt b _ f
                (attempts_lem backoff left (suc attempt) (failed e) b1))
        | inr (inr p) ↦
            rw (attempts, p)
              (first_is_last backoff (suc left) attempt b panicked p (λ f. absurd (cc)))
      ]

  -- What HandleWithRetry comes to with so many configured retries.
  abbrev pub Attempted : ℤ → ℤ → Broker S → Outcome × Broker S → Type 0
  Attempted (pos n) backoff b r = Tried backoff n 0 b r
  Attempted (negsuc n) backoff b r = r ≡ (done, b)

  -- Where the configured retries are not negative, HandleWithRetry calls the handler one time at
  -- least and one time more than them at most; the calls but the last fail, its outcome is that of
  -- the last call, and it is an error only when all attempts were made; before the n-th retry it
  -- sleeps for n times the backoff, as an integer of 64 bits, and it changes nothing but the state
  -- of the handler and the sleeps. Where the retries are negative it calls nothing, changes
  -- nothing, and returns no error.
  pub handle_with_retry_bounds :
      (cfg : Config) (b : Broker S)
      → Attempted cfg.consumer_max_retries cfg.consumer_retry_backoff b
          (handle_with_retry cfg h c msg b)
  unfolding handle_with_retry attempt_count attempts
  handle_with_retry_bounds cfg b = go cfg.consumer_max_retries
    where
      go :
          (n : ℤ)
          → Attempted n cfg.consumer_retry_backoff b
              (attempts h c msg cfg.consumer_retry_backoff (attempt_count n) 0 done b)
      go (pos n) = attempts_lem cfg.consumer_retry_backoff n 0 done b
      go (negsuc n) = refl

  -- Where the retries are not negative.
  pub handle_with_retry-Tried :
      (cfg : Config) (n : ℕ) (b : Broker S)
      → cfg.consumer_max_retries ≡ pos n
      → Tried cfg.consumer_retry_backoff n 0 b (handle_with_retry cfg h c msg b)
  handle_with_retry-Tried cfg n b e =
      subst (λ m. Attempted m cfg.consumer_retry_backoff b (handle_with_retry cfg h c msg b)) e
        (handle_with_retry_bounds cfg b)
