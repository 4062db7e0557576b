-- ===== src/Outbox/Dispatcher/Stuck.antt =====
-- The claim of `DispatchOnce` against the CHECK of migration 000007.
use bookstore_golang.Base.{
  ℕ, suc, ◌≡◌, refl, Bool, true, false, List, [], ◌∷◌, err, Action, filter, any, arith,
}
use bookstore_golang.Base.Text.{Str}
use bookstore_golang.Errors.{Error, check_violation}
use bookstore_golang.Platform.Redis.{Redis}
use bookstore_golang.Database.{Context, World, Db, execute, attempt}
use bookstore_golang.Outbox.Model.{OutboxEvent}
use bookstore_golang.Outbox.Dispatcher.{
  is_empty, is_pending, insert_by_age, order_by_age, take, claimable, query_claim_pending,
  dispatch_once, state_eq,
}

filter-any :
    {A : Type 0} (p : A → Bool) (l : List A) → any p l ≡ true → is_empty (filter p l) ≡ false
unfolding filter any
filter-any p [] h = absurd (ground arith)
filter-any p (x ∷ l) h = ground (arith, filter-any p l)

insert_by_age_filled :
    (e : OutboxEvent) (l : List OutboxEvent) → is_empty (insert_by_age e l) ≡ false
unfolding insert_by_age
insert_by_age_filled e [] = refl
insert_by_age_filled e (f ∷ l) = ground arith

order_by_age_filled :
    (l : List OutboxEvent) → is_empty l ≡ false → is_empty (order_by_age l) ≡ false
unfolding order_by_age
order_by_age_filled [] h = h
order_by_age_filled (e ∷ l) h = insert_by_age_filled e (order_by_age l)

take_filled :
    {A : Type 0} (n : ℕ) (l : List A) → is_empty l ≡ false → is_empty (take (suc n) l) ≡ false
unfolding take
take_filled n [] h = h
take_filled n (x ∷ l) h = refl

claimable_filled :
    (limit : ℕ) (l : List OutboxEvent)
    → any is_pending l ≡ true
    → is_empty (claimable (suc limit) l) ≡ false
unfolding claimable
claimable_filled limit l h = take_filled limit _ (order_by_age_filled _ (filter-any is_pending l h))

claim_refused :
    (limit now id : ℕ) (d : Db)
    → any is_pending d.outbox_events ≡ true
    → query_claim_pending (suc limit) now id d ≡ (err check_violation, d)
unfolding query_claim_pending
claim_refused limit now id d h = rw (claimable_filled limit d.outbox_events h) refl

module _ {V : Type 0} {R : Redis V} (publish : OutboxEvent → Action (World R) Error (Unit {0}))
    (message : Error → Str) (c : Context) where
  -- DispatchOnce with a limit above 0 and calls that do not fail, outside a transaction and with
  -- some event pending, returns the error of the CHECK on the state of an event, has sent nothing
  -- and has changed no row, whatever the publisher does.
  pub dispatch_once_refused :
      (limit : ℕ) (w : World R)
      → c.in_tx ≡ false
      → w.faults ≡ []
      → any is_pending w.db.outbox_events ≡ true
      → dispatch_once publish message c (suc limit) w
        ≡ (err check_violation, record w { ids = suc w.ids })
  unfolding dispatch_once execute attempt
  dispatch_once_refused limit w outer calm waiting =
      ground (arith, claim_refused limit w.now w.ids w.db waiting)
