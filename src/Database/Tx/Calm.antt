-- ===== src/Database/Tx/Calm.antt =====
-- A transaction whose calls do not fail.
use bookstore_golang.Base.{
  ◌≡◌, refl, ◌∙◌, ap, true, false, some, none, [], Result, ok, err, Action, bind_result, arith,
}
use bookstore_golang.Errors.{Error}
use bookstore_golang.Platform.Redis.{Redis}
use bookstore_golang.Database.{Context, World, Db, attempt}
use bookstore_golang.Database.Tx.{within_transaction, begin_tx, commit, finish_tx, committed}
use bookstore_golang.Database.Tx.Atomic.{within_transaction_outer}

-- What follows on a call that ended well.
pub bind_ok :
    {S E A B : Type 0} (r : Result E A × S) (f : A → Action S E B) {s' : S} {a : A}
    → r ≡ (ok a, s')
    → bind_result r f ≡ f a s'
bind_ok r f h = rw h refl

-- What follows on a call that ended in an error.
pub bind_err :
    {S E A B : Type 0} (r : Result E A × S) (f : A → Action S E B) {s' : S} {e : E}
    → r ≡ (err e, s')
    → bind_result r f ≡ (err e, s')
bind_err r f h = rw h refl

module _ {V : Type 0} {R : Redis V} where
  begin_tx_calm :
      (w : World R) → w.faults ≡ [] → begin_tx w ≡ (ok tt, record w { open_tx = some w.db })
  unfolding begin_tx attempt
  begin_tx_calm w calm = ground arith

  commit_calm :
      (w : World R) (d : Db)
      → w.faults ≡ []
      → w.open_tx ≡ some d
      → commit w ≡ (ok tt, record w { db = d; open_tx = none })
  unfolding commit attempt
  commit_calm w d calm opened = ground arith

  -- The callback ends well in the transaction, and no later call fails: what it left is put in force.
  pub within_transaction_calm :
      {A : Type 0} (c : Context) (fn : Context → Action (World R) Error A) (w w' : World R) {a : A}
      {d : Db}
      → c.in_tx ≡ false
      → w.faults ≡ []
      → fn (record c { in_tx = true }) (record w { open_tx = some w.db }) ≡ (ok a, w')
      → w'.faults ≡ []
      → w'.open_tx ≡ some d
      → within_transaction c fn w ≡ (ok a, record w' { db = d; open_tx = none })
  within_transaction_calm c fn w w' {a} {d} outer calm done calm' opened =
      within_transaction_outer c fn w outer
      ∙ bind_ok (begin_tx w) _ (begin_tx_calm w calm)
      ∙ ap finish_tx done
      ∙ ap (committed a) (commit_calm w' d calm' opened)
