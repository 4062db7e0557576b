-- ===== src/Database/Tx.antt =====
-- internal/platform/tx/tx.go
pub mod Atomic
pub mod Rules
pub mod Calm
use bookstore_golang.Base.{
  ℕ, Bool, true, false, Option, none, some, Result, ok, err, Action, ◌>>=◌, if◌then◌else◌,
}
use bookstore_golang.Errors.{Error, db_failed, commit_failed, rollback_failed}
use bookstore_golang.Platform.Redis.{Redis}
use bookstore_golang.Database.{Context, World, attempt}

module _ {V : Type 0} {R : Redis V} where
  -- `pool.BeginTx`: the transaction starts from the tables as they are.
  unfoldable pub begin_tx : Action (World R) Error (Unit {0})
  unfolding attempt
  begin_tx = attempt db_failed (λ w. (ok tt, record w { open_tx = some w.db }))

  -- `txx.Commit`
  unfoldable pub commit : Action (World R) Error (Unit {0})
  unfolding attempt
  commit = attempt commit_failed (λ w. elim w.open_tx [
    | none ↦ (err commit_failed, w)
    | some d ↦ (ok tt, record w { db = d; open_tx = none })
  ])

  -- `txx.Rollback`, after an error of the callback
  unfoldable pub rollback : Action (World R) Error (Unit {0})
  unfolding attempt
  rollback = attempt rollback_failed (λ w. (ok tt, record w { open_tx = none }))

  -- the deferred `Rollback`, whose error is dropped
  abbrev pub close_tx : {A : Type 0} → Result Error A × World R → Result Error A × World R
  close_tx (r, w) = (r, record w { open_tx = none })

  abbrev pub committed :
      {A : Type 0} → A → Result Error (Unit {0}) × World R → Result Error A × World R
  committed a (ok _, w) = (ok a, w)
  committed a (err e, w) = close_tx (err e, w)

  abbrev pub rolled_back :
      {A : Type 0} → Error → Result Error (Unit {0}) × World R → Result Error A × World R
  rolled_back e (ok _, w) = close_tx (err e, w)
  rolled_back e (err e', w) = close_tx (err e', w)

  -- What follows on the callback.
  abbrev pub finish_tx : {A : Type 0} → Result Error A × World R → Result Error A × World R
  finish_tx (ok a, w) = committed a (commit w)
  finish_tx (err e, w) = rolled_back e (rollback w)

  -- `WithinTransaction`; what the callback leaves in variables of its caller is its result here.
  unfoldable pub within_transaction :
      {A : Type 0} → Context → (Context → Action (World R) Error A) → Action (World R) Error A
  unfolding begin_tx commit rollback
  within_transaction c fn =
      if c.in_tx then fn c else (begin_tx >>= λ _ w. finish_tx (fn (record c { in_tx = true }) w))
