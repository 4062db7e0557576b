-- ===== src/Platform/Redis.antt =====
-- Redis is a service, so its key space is a parameter: the commands that the program sends, and of
-- their documented behaviour what it relies on. A call may fail; `faults` says for each call in turn
-- whether it does.
pub mod Memory
use bookstore_golang.Base.{
  ℕ, ◌+◌, ◌<◌, ◌≡◌, Bool, true, false, Option, none, some, List, [], ◌∷◌, ◌==◌, nat_eq, ◌||◌, ltb,
  if◌then◌else◌, Result, ok, err, Action,
}
use bookstore_golang.Base.Text.{Str, str_eq}
use bookstore_golang.Errors.{Error, redis_failed, decode_failed}

pub record Redis (V : Type 0) : Type 1 where
  pub State : Type 0
  -- GET at a time
  pub get : State → ℕ → Str → Option V
  -- SET at a time, with a time to live, where none is given as 0
  pub set : State → ℕ → Str → V → ℕ → State
  -- DEL
  pub del : State → Str → State

-- A key holds what was last set until its time to live, if any, has run out, and no other key changes.
pub record IsRedis {V : Type 0} (R : Redis V) : Type 0 where
  pub get-set :
      (s : R.State) (now : ℕ) (k : Str) (v : V) (ttl later : ℕ) (j : Str)
      → R.get (R.set s now k v ttl) later j ≡ (
          if j == k
          then (if ttl == 0 || ltb later (now + ttl) then some v else none)
          else R.get s later j)
  pub get-del :
      (s : R.State) (later : ℕ) (k j : Str)
      → R.get (R.del s k) later j ≡ (if j == k then none else R.get s later j)

-- A coding of values, such as JSON or decimal digits.
pub record Codec (V A : Type 0) : Type 0 where
  pub encode : A → V
  pub decode : V → Option A

pub record IsCodec {V A : Type 0} (c : Codec V A) : Type 0 where
  pub decode-encode : (a : A) → c.decode (c.encode a) ≡ some a

-- The key space, the time, and which of the calls to come will fail.
pub record Env {V : Type 0} (R : Redis V) : Type 0 where
  pub store : R.State
  pub now : ℕ
  pub faults : List Bool

module _ {V : Type 0} {R : Redis V} where
  -- One call of the service: it fails, or goes on with `f`.
  unfoldable pub call : {A : Type 0} → (Env R → Result Error A × Env R) → Action (Env R) Error A
  call f e = elim e.faults [
    | [] ↦ f e
    | down ∷ rest ↦
        let e' = record e { faults = rest } in if down then (err redis_failed, e') else f e'
  ]

  unfoldable pub clock : Action (Env R) Error ℕ
  clock e = (ok e.now, e)

  unfoldable pub redis_get : Str → Action (Env R) Error (Option V)
  unfolding call
  redis_get k = call (λ e. (ok (R.get e.store e.now k), e))

  unfoldable pub redis_set : Str → V → ℕ → Action (Env R) Error (Unit {0})
  unfolding call
  redis_set k v ttl = call (λ e. (ok tt, record e { store = R.set e.store e.now k v ttl }))

  unfoldable pub redis_del : Str → Action (Env R) Error (Unit {0})
  unfolding call
  redis_del k = call (λ e. (ok tt, record e { store = R.del e.store k }))

  -- SET NX: whether the key was free, and is now set.
  unfoldable pub redis_set_nx : Str → V → ℕ → Action (Env R) Error Bool
  unfolding call
  redis_set_nx k v ttl = call (λ e. elim (R.get e.store e.now k) [
    | none ↦ (ok true, record e { store = R.set e.store e.now k v ttl })
    | some _ ↦ (ok false, e)
  ])

  -- GETDEL
  unfoldable pub redis_get_del : Str → Action (Env R) Error (Option V)
  unfolding call
  redis_get_del k = call (λ e. (ok (R.get e.store e.now k), record e { store = R.del e.store k }))
