-- ===== src/Outbox/Dispatcher.antt =====
-- internal/platform/outbox/dispatcher.go, and `ClaimPending`, `MarkPublished` and `MarkFailed` of
-- postgres_repository.go. The publisher is the interface of repository.go, as a parameter.
pub mod Stuck
use bookstore_golang.Base.{
  ℕ, zero, suc, Bool, true, false, not, ◌&&◌, ◌==◌, nat_eq, Eq, Option, none, some, List, [], ◌∷◌,
  if◌then◌else◌, Result, ok, err, Action, pure, ◌>>=◌, filter, update, count, any, ltb,
}
use bookstore_golang.Base.Text.{Str}
use bookstore_golang.Errors.{Error, check_violation, no_rows}
use bookstore_golang.Platform.Redis.{Redis}
use bookstore_golang.Database.{Context, World, Db, Statement, execute}
use bookstore_golang.Outbox.Model.{
  OutboxEvent, State, State-discrete, pending, publishing, published, failed,
}
use bookstore_golang.Outbox.Recorder.{state_allowed}

instance abbrev pub state_eq : Eq State
state_eq = record { dec = State-discrete }

abbrev pub is_empty : {A : Type 0} → List A → Bool
is_empty [] = true
is_empty (x ∷ l) = false

abbrev pub is_pending : OutboxEvent → Bool
is_pending e = e.state == pending

-- `ORDER BY created_at`
unfoldable pub insert_by_age : OutboxEvent → List OutboxEvent → List OutboxEvent
insert_by_age e [] = e ∷ []
insert_by_age e (f ∷ l) = if ltb f.created_at e.created_at then f ∷ insert_by_age e l else e ∷ f ∷ l

unfoldable pub order_by_age : List OutboxEvent → List OutboxEvent
unfolding insert_by_age
order_by_age [] = []
order_by_age (e ∷ l) = insert_by_age e (order_by_age l)

-- `LIMIT`
unfoldable pub take : {A : Type 0} → ℕ → List A → List A
take zero l = []
take (suc n) [] = []
take (suc n) (x ∷ l) = x ∷ take n l

unfoldable pub claimable : ℕ → List OutboxEvent → List OutboxEvent
unfolding order_by_age take
claimable limit events = take limit (order_by_age (filter is_pending events))

abbrev pub is_among : List OutboxEvent → OutboxEvent → Bool
is_among chosen e = any (λ c. c.id == e.id) chosen

abbrev claimed : OutboxEvent → OutboxEvent
claimed e = record e { state = publishing }

-- An update that would break the CHECK on the state fails as a whole. The rows come back in the order
-- of the table.
unfoldable pub query_claim_pending : ℕ → Statement (List OutboxEvent)
unfolding claimable
query_claim_pending limit now id d =
    let chosen = claimable limit d.outbox_events in
    if not (is_empty chosen) && not (state_allowed publishing)
    then (err check_violation, d)
    else let events = update (is_among chosen) claimed d.outbox_events in
      (ok (filter (is_among chosen) events), record d { outbox_events = events })

-- The update of the row of an id.
abbrev set_row : ℕ → (OutboxEvent → OutboxEvent) → Db → Result Error (Unit {0}) × Db
set_row event_id f d =
    if count (λ e. e.id == event_id) d.outbox_events == 0
    then (err no_rows, d)
    else (ok tt, record d { outbox_events = update (λ e. e.id == event_id) f d.outbox_events })

unfoldable pub query_mark_published : ℕ → Statement (Unit {0})
query_mark_published event_id now id d =
    set_row event_id (λ e. record e { state = published; published_at = some now }) d

unfoldable pub query_mark_failed : ℕ → Str → Statement (Unit {0})
query_mark_failed event_id message now id d =
    set_row event_id (λ e. record e { state = failed; last_error = some message }) d

abbrev is_ok : {A : Type 0} → Result Error A → Bool
is_ok (ok a) = true
is_ok (err e) = false

module _ {V : Type 0} {R : Redis V} (publish : OutboxEvent → Action (World R) Error (Unit {0}))
    (message : Error → Str) (c : Context) where
  -- Whether an event that was sent, or not, counts as published.
  abbrev sent : OutboxEvent → Result Error (Unit {0}) × World R → Result Error Bool × World R
  sent e (err x, w) = (ok false, (execute c (query_mark_failed e.id (message x)) w).1)
  sent e (ok _, w) = let r = execute c (query_mark_published e.id) w in (ok (is_ok r.0), r.1)

  -- The loop over the claimed events.
  unfoldable pub deliver : List OutboxEvent → ℕ → Action (World R) Error ℕ
  unfolding query_mark_published query_mark_failed
  deliver [] done = pure done
  deliver (e ∷ events) done = do
    arrived ← λ w. sent e (publish e w)
    deliver events (if arrived then suc done else done)

  unfoldable pub dispatch_once : ℕ → Action (World R) Error ℕ
  unfolding query_claim_pending deliver
  dispatch_once limit = do events ← execute c (query_claim_pending limit); deliver events 0
