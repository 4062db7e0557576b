-- ===== src/Identity/Auth/Created/Steps.antt =====
-- The calls that `Register` makes, where they do not fail.
use bookstore_golang.Base.{ℕ, ◌≡◌, true, false, ◌==◌, some, [], ◌∷◌, ◌++◌, ok, any, arith, suc}
use bookstore_golang.Base.Text.{Str, str_eq}
use bookstore_golang.Platform.Redis.{Redis, call, redis_set}
use bookstore_golang.Database.{Context, World, Db, execute, attempt, on_redis}
use bookstore_golang.Outbox.Recorder.{record_event, event_of, query_insert_event}
use bookstore_golang.Outbox.Model.{RecordParams, OutboxEvent}
use bookstore_golang.Identity.Entity.{Email, Credential, User}
use bookstore_golang.Identity.Library.{Library}
use bookstore_golang.Identity.Cache.{
  email_verify_prefix, email_verify_ttl, issue_verify_token, generate_secure_token,
}
use bookstore_golang.Identity.Publisher.{
  publish_user_registered, user_params, token_payload, register_event,
}
use bookstore_golang.Identity.Repo.User.{
  query_check_exist_email, exists_by_email, query_insert_user, new_user_row, insert_user,
}
use bookstore_golang.Identity.Repo.Credential.{query_insert, is_of, insert_credential}
use bookstore_golang.Identity.Tokens.{hash_password}

-- The tables with one more row each.
abbrev pub with_user : User → ℕ → ℕ → Db → Db
with_user user now id d = record d { users = d.users ++ (new_user_row user now id ∷ []) }

abbrev pub with_credential : Credential → Db → Db
with_credential credential d = record d { credentials = d.credentials ++ (credential ∷ []) }

abbrev with_event : OutboxEvent → ℕ → Db → Db
with_event e id d = record d { outbox_events = d.outbox_events ++ (record e { id = id } ∷ []) }

module _ {V : Type 0} {R : Redis V} where
  pub exists_by_email_fresh :
      (c : Context) (w : World R) (email : Email)
      → c.in_tx ≡ false
      → w.faults ≡ []
      → any (λ r. r.email == email.value) w.db.users ≡ false
      → exists_by_email c email w ≡ (ok false, record w { ids = suc w.ids })
  unfolding execute attempt query_check_exist_email
  exists_by_email_fresh c w email outer calm fresh = ground arith

  pub hash_password_calm :
      (l : Library V) (w : World R) (password hashed : Str)
      → l.generate_from_password w.entropy password ≡ some hashed
      → hash_password l password w ≡ (ok hashed, record w { entropy = suc w.entropy })
  unfolding hash_password
  hash_password_calm l w password hashed h = ground arith

  unfoldable pub wrote : Db → World R → World R
  wrote d w = record w { open_tx = some d; ids = suc w.ids }

  module _ (c : Context) (w : World R) (d : Db) (inside : c.in_tx ≡ true) (calm : w.faults ≡ [])
      (opened : w.open_tx ≡ some d) where
    pub insert_user_fresh :
        (user : User)
        → any (λ r. r.email == user.email.value) d.users ≡ false
        → insert_user c user w ≡ (ok w.ids, wrote (with_user user w.now w.ids d) w)
    unfolding execute attempt query_insert_user wrote
    insert_user_fresh user fresh = ground arith

    pub insert_credential_free :
        (credential : Credential)
        → any (is_of credential.user_id) d.credentials ≡ false
        → insert_credential c credential w ≡ (ok tt, wrote (with_credential credential d) w)
    unfolding execute attempt query_insert wrote
    insert_credential_free credential free = ground arith

    record_event_calm :
        (uuid : ℕ → Str) (p : RecordParams)
        → record_event uuid c p w ≡ (
          ok tt,
          wrote
              (with_event (event_of (uuid w.entropy) p w.now) w.ids d)
              (record w { entropy = suc w.entropy }),
        )
    unfolding execute attempt query_insert_event wrote record_event event_of
    record_event_calm uuid p = ground arith

  module _ (l : Library V) where
    unfoldable pub with_verify_token : ℕ → Str → World R → World R
    with_verify_token user_id token w = record w {
      entropy = suc w.entropy;
      env = record (w.env) {
        store =
            R.set w.store w.now (email_verify_prefix ++ token) (l.decimal.encode user_id)
              email_verify_ttl;
      };
    }

    pub issue_verify_token_calm :
        (user_id : ℕ) (w : World R) (token : Str)
        → w.faults ≡ []
        → l.secure_token w.entropy ≡ some token
        → issue_verify_token l user_id w ≡ (ok token, with_verify_token user_id token w)
    unfolding issue_verify_token generate_secure_token on_redis redis_set call with_verify_token
    issue_verify_token_calm user_id w token calm drawn = ground arith

    unfoldable pub registered : Context → ℕ → Str → Str → World R → OutboxEvent
    unfolding user_params
    registered c user_id email token w =
        event_of (l.uuid w.entropy)
          (user_params c (l.format_int user_id) register_event c.idempotency_key
            (token_payload user_id email token) w.now)
          w.now

    pub publish_calm :
        (c : Context) (w : World R) (d : Db) (user_id : ℕ) (email token : Str)
        → c.in_tx ≡ true
        → w.faults ≡ []
        → w.open_tx ≡ some d
        → (token == []) ≡ false
        → publish_user_registered l c user_id email token w ≡ (
          ok tt,
          wrote
              (with_event (registered c user_id email token w) w.ids d)
              (record w { entropy = suc w.entropy }),
        )
    unfolding publish_user_registered registered
    publish_calm c w d user_id email token inside calm opened filled =
        rw filled (record_event_calm c w d inside calm opened l.uuid _)
