-- ===== src/Database/Tx/Atomic.antt =====
-- A transaction takes effect whole or not at all.
use bookstore_golang.Base.{
  ◌≡◌, refl, Bool, true, false, some, Result, ok, err, bind_result, Bool-cases, inl, inr, Action,
  arith, ◌∙◌,
}
use bookstore_golang.Errors.{Error}
use bookstore_golang.Platform.Redis.{Redis}
use bookstore_golang.Database.{Context, World, Db, Statement, execute}
use bookstore_golang.Database.Tx.{begin_tx, commit, rollback, finish_tx, within_transaction}

abbrev pub is_err : {A : Type 0} → Result Error A → Bool
is_err (ok a) = false
is_err (err e) = true

module _ {V : Type 0} {R : Redis V} where
  -- A call that leaves the tables alone (it may write to the open transaction).
  pub record KeepsDb {A : Type 0} (m : Action (World R) Error A) : Type 0 where
    pub kept : (w : World R) → (m w).1.db ≡ w.db

  -- Inside a transaction no statement reaches the tables.
  pub execute-KeepsDb :
      {A : Type 0} (c : Context) (f : Statement A) → c.in_tx ≡ true → KeepsDb (execute c f)
  unfolding execute
  execute-KeepsDb c f h = record { kept = λ w. ground arith }

  finish_tx_err :
      {A : Type 0} (x : Result Error A × World R)
      → is_err (finish_tx x).0 ≡ true
      → (finish_tx x).1.db ≡ x.1.db
  unfolding commit rollback
  finish_tx_err (ok a, w) h = ground arith
  finish_tx_err (err e, w) h = ground arith

  begin_tx-KeepsDb : KeepsDb (begin_tx {R = R})
  unfolding begin_tx
  begin_tx-KeepsDb = record { kept = λ w. ground arith }

  begun_err :
      {A : Type 0} (fn : Action (World R) Error A) (x : Result Error (Unit {0}) × World R)
      → KeepsDb fn
      → is_err (bind_result x (λ _ w. finish_tx (fn w))).0 ≡ true
      → (bind_result x (λ _ w. finish_tx (fn w))).1.db ≡ x.1.db
  begun_err fn (ok _, w) keeps failed = finish_tx_err (fn w) failed ∙ keeps.kept w
  begun_err fn (err e, w) keeps failed = refl

  pub within_transaction_nested :
      {A : Type 0} (c : Context) (fn : Context → Action (World R) Error A) (w : World R)
      → c.in_tx ≡ true
      → within_transaction c fn w ≡ fn c w
  unfolding within_transaction
  within_transaction_nested c fn w h = simp h

  pub within_transaction_outer :
      {A : Type 0} (c : Context) (fn : Context → Action (World R) Error A) (w : World R)
      → c.in_tx ≡ false
      → within_transaction c fn w
        ≡ bind_result (begin_tx w) (λ _ w'. finish_tx (fn (record c { in_tx = true }) w'))
  unfolding within_transaction
  within_transaction_outer c fn w h = simp h

  -- A transaction that ends in an error has changed no table, also if its commit or its rollback
  -- failed, provided that the callback leaves the tables alone inside a transaction.
  pub within_transaction_err :
      {A : Type 0} (c : Context) (fn : Context → Action (World R) Error A) (w : World R)
      → ((c' : Context) → c'.in_tx ≡ true → KeepsDb (fn c'))
      → is_err (within_transaction c fn w).0 ≡ true
      → (within_transaction c fn w).1.db ≡ w.db
  within_transaction_err c fn w keeps failed = elim (Bool-cases c.in_tx) [
    | inl nested ↦ rw (within_transaction_nested c fn w nested) ((keeps c nested).kept w)
    | inr outer ↦ rw (within_transaction_outer c fn w outer) (
        begun_err (fn (record c { in_tx = true })) (begin_tx w)
          (keeps (record c { in_tx = true }) refl)
          (rw (within_transaction_outer c fn w outer) at failed)
        ∙ begin_tx-KeepsDb.kept w)
  ]

  finish_tx_ok :
      {A : Type 0} (x : Result Error A × World R) (a : A)
      → (finish_tx x).0 ≡ ok a
      → (x.0 ≡ ok a) × (x.1.open_tx ≡ some (finish_tx x).1.db)
  unfolding commit rollback
  finish_tx_ok (ok b, w) a h = ground arith
  finish_tx_ok (err e, w) a h = ground arith

  begun_ok :
      {A : Type 0} (fn : Action (World R) Error A) (d : Db) (x : Result Error (Unit {0}) × World R)
      (a : A)
      → ((x.0 ≡ ok tt) → (x.1.open_tx ≡ some d) × (x.1.db ≡ d))
      → (bind_result x (λ _ w'. finish_tx (fn w'))).0 ≡ ok a
      → (w' : World R) × (w'.open_tx ≡ some d)
        × (w'.db ≡ d)
        × ((fn w').0 ≡ ok a)
        × ((fn w').1.open_tx ≡ some (bind_result x (λ _ w'. finish_tx (fn w'))).1.db)
  begun_ok fn d (ok _, w) a began done =
      let r = finish_tx_ok (fn w) a done in (w, (began refl).0, (began refl).1, r.0, r.1)
  begun_ok fn d (err e, w) a began done = absurd (cc)

  begin_tx_ok :
      (w : World R)
      → (begin_tx w).0 ≡ ok tt
      → ((begin_tx w).1.open_tx ≡ some w.db) × ((begin_tx w).1.db ≡ w.db)
  unfolding begin_tx
  begin_tx_ok w h = ground arith

  -- A transaction, not nested, that ends well has started from the tables as they were and has put
  -- in force exactly what its callback left in the open transaction.
  pub within_transaction_ok :
      {A : Type 0} (c : Context) (fn : Context → Action (World R) Error A) (w : World R) {a : A}
      → c.in_tx ≡ false
      → (within_transaction c fn w).0 ≡ ok a
      → (w' : World R) × (w'.open_tx ≡ some w.db)
        × (w'.db ≡ w.db)
        × ((fn (record c { in_tx = true }) w').0 ≡ ok a)
        × ((fn (record c { in_tx = true }) w').1.open_tx ≡ some (within_transaction c fn w).1.db)
  within_transaction_ok c fn w {a} outer done = rw (within_transaction_outer c fn w outer) (
      begun_ok (fn (record c { in_tx = true })) w.db (begin_tx w) a (begin_tx_ok w)
        (rw (within_transaction_outer c fn w outer) at done))
