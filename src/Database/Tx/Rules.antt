-- ===== src/Database/Tx/Rules.antt =====
-- Rules by which a chain of calls is seen to leave the tables alone when it ends in an error.
use bookstore_golang.Base.{
  ℕ, ◌≡◌, refl, sym, ap, >>=-eq-ok, ◌∙◌, Bool, true, false, Result, ok, err, Action, bind_result,
  catch, catch_result, guard, ◌>>=◌, arith,
}
use bookstore_golang.Errors.{Error}
use bookstore_golang.Platform.Redis.{Redis, Env}
use bookstore_golang.Database.{Context, World, Db, Statement, execute, on_redis}
use bookstore_golang.Database.Tx.{within_transaction}
use bookstore_golang.Database.Tx.Atomic.{KeepsDb, is_err, within_transaction_err}

-- A statement that writes nothing.
abbrev pub Reads : {A : Type 0} → Statement A → Type 0
Reads f = (now id : ℕ) (d : Db) → (f now id d).1 ≡ d

module _ {V : Type 0} {R : Redis V} where
  -- A call that leaves the tables alone if it ends in an error.
  pub record Atomic {A : Type 0} (m : Action (World R) Error A) : Type 0 where
    pub restored : (w : World R) → is_err (m w).0 ≡ true → (m w).1.db ≡ w.db

  -- A call that never ends in an error.
  pub record Sure {A : Type 0} (m : Action (World R) Error A) : Type 0 where
    pub ends_well : (w : World R) → is_err (m w).0 ≡ false

  pub execute-Reads :
      {A : Type 0} (c : Context) (f : Statement A) → Reads f → KeepsDb (execute {R = R} c f)
  unfolding execute
  execute-Reads c f reads = record { kept = λ w. ground (arith, reads w.now w.ids w.db) }

  pub on_redis-KeepsDb : {A : Type 0} (m : Action (Env R) Error A) → KeepsDb (on_redis {R = R} m)
  unfolding on_redis
  on_redis-KeepsDb m = record { kept = λ w. refl }

  bind_keeps :
      {A B : Type 0} (r : Result Error A × World R) (f : A → Action (World R) Error B) (d : Db)
      → r.1.db ≡ d
      → ((a : A) → KeepsDb (f a))
      → (bind_result r f).1.db ≡ d
  bind_keeps (ok a, w) f d e keeps = (keeps a).kept w ∙ e
  bind_keeps (err x, w) f d e keeps = e

  pub >>=-KeepsDb :
      {A B : Type 0} (m : Action (World R) Error A) (f : A → Action (World R) Error B)
      → KeepsDb m
      → ((a : A) → KeepsDb (f a))
      → KeepsDb (m >>= f)
  >>=-KeepsDb m f k h = record { kept = λ w. bind_keeps (m w) f w.db (k.kept w) h }

  catch_keeps :
      {A : Type 0} (r : Result Error A × World R) (h : Error → Action (World R) Error A) (d : Db)
      → r.1.db ≡ d
      → ((e : Error) → KeepsDb (h e))
      → (catch_result r h).1.db ≡ d
  catch_keeps (ok a, w) h d e keeps = e
  catch_keeps (err x, w) h d e keeps = (keeps x).kept w ∙ e

  pub catch-KeepsDb :
      {A : Type 0} (m : Action (World R) Error A) (h : Error → Action (World R) Error A)
      → KeepsDb m
      → ((e : Error) → KeepsDb (h e))
      → KeepsDb (catch m h)
  catch-KeepsDb m h k g = record { kept = λ w. catch_keeps (m w) h w.db (k.kept w) g }

  pub guard-KeepsDb : (b : Bool) (e : Error) → KeepsDb (guard {S = World R} b e)
  guard-KeepsDb true e = record { kept = λ w. refl }
  guard-KeepsDb false e = record { kept = λ w. refl }

  bind-Atomic :
      {A B : Type 0} (r : Result Error A × World R) (f : A → Action (World R) Error B) (d : Db)
      → r.1.db ≡ d
      → ((a : A) → Atomic (f a))
      → is_err (bind_result r f).0 ≡ true
      → (bind_result r f).1.db ≡ d
  bind-Atomic (ok a, w) f d e atomic failed = (atomic a).restored w failed ∙ e
  bind-Atomic (err x, w) f d e atomic failed = e

  -- Calls that leave the tables alone may come first.
  pub >>=-Atomic :
      {A B : Type 0} (m : Action (World R) Error A) (f : A → Action (World R) Error B)
      → KeepsDb m
      → ((a : A) → Atomic (f a))
      → Atomic (m >>= f)
  >>=-Atomic m f k h = record {
    restored = λ w failed. bind-Atomic (m w) f w.db (k.kept w) h failed;
  }

  bind-Sure :
      {A B : Type 0} (r : Result Error A × World R) (f : A → Action (World R) Error B) (d : Db)
      → (is_err r.0 ≡ true → r.1.db ≡ d)
      → ((a : A) → Sure (f a))
      → is_err (bind_result r f).0 ≡ true
      → (bind_result r f).1.db ≡ d
  bind-Sure (ok a, w) f d e sure failed = absurd (ground (arith, (sure a).ends_well w))
  bind-Sure (err x, w) f d e sure failed = e refl

  -- Calls that cannot fail may come last.
  pub >>=-Sure :
      {A B : Type 0} (m : Action (World R) Error A) (f : A → Action (World R) Error B)
      → Atomic m
      → ((a : A) → Sure (f a))
      → Atomic (m >>= f)
  >>=-Sure m f k h = record {
    restored = λ w failed. bind-Sure (m w) f w.db (k.restored w) h failed;
  }

  pub Atomic-of_KeepsDb : {A : Type 0} (m : Action (World R) Error A) → KeepsDb m → Atomic m
  Atomic-of_KeepsDb m k = record { restored = λ w failed. k.kept w }

  pub within_transaction-Atomic :
      {A : Type 0} (c : Context) (fn : Context → Action (World R) Error A)
      → ((c' : Context) → c'.in_tx ≡ true → KeepsDb (fn c'))
      → Atomic (within_transaction c fn)
  within_transaction-Atomic c fn keeps = record {
    restored = λ w failed. within_transaction_err c fn w keeps failed;
  }

module _ {V : Type 0} {R : Redis V} where
  -- What a call that leaves the tables alone leaves when it ends well.
  pub kept_ok :
      {A : Type 0} (m : Action (World R) Error A) (w : World R) {a : A} {w' : World R}
      → KeepsDb m
      → m w ≡ (ok a, w')
      → w'.db ≡ w.db
  kept_ok m w keeps e = sym (ap (λ r. r.1.db) e) ∙ keeps.kept w

  -- The rest of a call that ended well, after a part that leaves the tables alone.
  pub after_kept :
      {A B Q : Type 0} (m : Action (World R) Error A) (f : A → Action (World R) Error B)
      (w : World R) (d : Db) {b : B} {t : World R}
      → KeepsDb m
      → w.db ≡ d
      → (m >>= f) w ≡ (ok b, t)
      → ((a : A) (w' : World R) → w'.db ≡ d → f a w' ≡ (ok b, t) → Q)
      → Q
  after_kept m f w d keeps same e k =
      let (a, w', e1, rest) = >>=-eq-ok m f w e in k a w' (kept_ok m w keeps e1 ∙ same) rest
