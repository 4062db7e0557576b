-- ===== src/Database.antt =====
-- The tables of migrations/ that the program reads and writes, the world that a call runs in, and the
-- executor of internal/platform/tx/context.go, which runs a statement in the open transaction or
-- straight on the tables. A table is the list of its rows. All tables draw their ids from one
-- sequence, which a rollback does not turn back.
pub mod Tx
use bookstore_golang.Base.{
  ℕ, ◌+◌, suc, Bool, true, false, Option, none, some, List, [], ◌∷◌, Result, ok, err, Action,
}
use bookstore_golang.Base.Text.{Str}
use bookstore_golang.Errors.{Error, db_failed, tx_closed}
use bookstore_golang.Platform.Redis.{Redis, Env}
use bookstore_golang.Outbox.Model.{OutboxEvent}
use bookstore_golang.Identity.Status.{UserStatus}
use bookstore_golang.Identity.Entity.{Credential, Device, Session, Address}

-- `userRow` of internal/modules/identity/infra/postgres/rows.go. The other rows have the fields of
-- their entities.
pub record UserRow : Type 0 where
  pub id : ℕ
  pub email : Str
  pub full_name : Str
  pub phone : Option Str
  pub user_type : Str
  pub status : UserStatus
  pub email_verified_at : Option ℕ
  pub last_login_at : Option ℕ
  pub locked_reason : Option Str
  pub version : ℕ
  pub created_at : ℕ
  pub updated_at : ℕ

-- consumer name and event id
abbrev pub ProcessedEvent : Type 0
ProcessedEvent = Str × Str × ℕ

pub record Db : Type 0 where
  pub users : List UserRow
  pub credentials : List Credential
  pub devices : List Device
  pub sessions : List Session
  pub addresses : List Address
  pub outbox_events : List OutboxEvent
  pub processed_events : List ProcessedEvent

-- What a `context.Context` carries: whether it holds a transaction, and the request's keys.
pub record Context : Type 0 where
  pub in_tx : Bool
  pub request_id : Str
  pub idempotency_key : Str

-- `open_tx` is the tables as the open transaction sees them. `entropy` counts the random draws.
pub record World {V : Type 0} (R : Redis V) : Type 0 where
  pub env : Env R
  pub open env use *
  pub db : Db
  pub open_tx : Option Db
  pub ids : ℕ
  pub entropy : ℕ

-- A statement on the tables, given the time and an id of the sequence.
abbrev pub Statement : Type 0 → Type 0
Statement A = ℕ → ℕ → Db → Result Error A × Db

module _ {V : Type 0} {R : Redis V} where
  -- The call of a service: it fails with the error, or goes on with `f`.
  unfoldable pub attempt :
      {A : Type 0} → Error → (World R → Result Error A × World R) → Action (World R) Error A
  attempt failure f w = elim w.faults [
    | [] ↦ f w
    | down ∷ rest ↦
        let w' = record w { env = record (w.env) { faults = rest } } in
        elim down [ true ↦ (err failure, w') | false ↦ f w' ]
  ]

  -- `tx.GetExecutor(ctx, pool)`, and the statement that it runs.
  unfoldable pub execute : {A : Type 0} → Context → Statement A → Action (World R) Error A
  unfolding attempt
  execute c f = attempt db_failed (λ w. elim c.in_tx [
    | true ↦ elim w.open_tx [
      | none ↦ (err tx_closed, w)
      | some d ↦ let r = f w.now w.ids d in (r.0, record w { open_tx = some r.1; ids = suc w.ids })
    ]
    | false ↦ let r = f w.now w.ids w.db in (r.0, record w { db = r.1; ids = suc w.ids })
  ])

  -- A call of Redis from here.
  unfoldable pub on_redis : {A : Type 0} → Action (Env R) Error A → Action (World R) Error A
  on_redis m w = let r = m w.env in (r.0, record w { env = r.1 })

  -- `clock.Now()` and `time.Now()`
  abbrev pub now_of : Action (World R) Error ℕ
  now_of w = (ok w.now, w)

  -- The next draw of random numbers.
  abbrev pub draw : Action (World R) Error ℕ
  draw w = (ok w.entropy, record w { entropy = suc w.entropy })
