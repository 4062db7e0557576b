-- ===== src/Identity/Auth/Created.antt =====
-- What `Register` leaves in the tables when it ends well.
mod Steps
use bookstore_golang.Base.{
  ℕ, ◌≡◌, ◌∙◌, refl, ap, true, false, ◌==◌, none, some, [], ◌∷◌, ◌++◌, Result, ok, Action, any,
  arith, suc, bind_result,
}
use bookstore_golang.Base.Text.{Str, str_eq}
use bookstore_golang.Platform.Redis.{Redis, call, redis_set}
use bookstore_golang.Database.{Context, World, Db, execute, attempt, on_redis}
use bookstore_golang.Database.Tx.Calm.{bind_ok, within_transaction_calm}
use bookstore_golang.Database.Tx.{within_transaction, begin_tx, commit, finish_tx, committed}
use bookstore_golang.Outbox.Recorder.{record_event, event_of, query_insert_event}
use bookstore_golang.Outbox.Model.{RecordParams, OutboxEvent}
use bookstore_golang.Identity.Entity.{Email, new_email, Credential, User}
use bookstore_golang.Identity.Library.{Library}
use bookstore_golang.Identity.Cache.{
  email_verify_prefix, email_verify_ttl, issue_verify_token, generate_secure_token,
}
use bookstore_golang.Identity.Publisher.{
  publish_user_registered, user_params, token_payload, register_event,
}
use bookstore_golang.Identity.Repo.User.{
  query_check_exist_email, exists_by_email, query_insert_user, new_user_row, insert_user,
}
use bookstore_golang.Identity.Repo.Credential.{query_insert, is_of, insert_credential}
use bookstore_golang.Identity.Auth.{AuthService, RegisterCommand, lift}
use bookstore_golang.Identity.Policy.{validate_registration}
use bookstore_golang.Identity.Tokens.{hash_password}
use bookstore_golang.Identity.Auth.Register.{register, register_tx, new_user, new_credential}
use bookstore_golang.Identity.Auth.Created.Steps.{
  with_user, with_credential, exists_by_email_fresh, hash_password_calm, wrote, insert_user_fresh,
  insert_credential_free, with_verify_token, issue_verify_token_calm, registered, publish_calm,
}

module _ {V : Type 0} (l : Library V) where
  -- The row of the event that the registration of `user_id` records.
  abbrev pub registered_event : Context → ℕ → Str → Str → ℕ → ℕ → OutboxEvent
  registered_event c user_id email token n now =
      event_of (l.uuid n)
        (user_params c (l.format_int user_id) register_event c.idempotency_key
          (token_payload user_id email token) now)
        now

  -- The tables with the rows of a new account, at a time, from an id and a draw on.
  abbrev pub with_account : Context → User → Credential → Str → ℕ → ℕ → ℕ → Db → Db
  with_account c user credential token now id n d = record d {
    users = d.users ++ (new_user_row user now id ∷ []);
    credentials = d.credentials ++ (record credential { user_id = id } ∷ []);
    outbox_events =
        d.outbox_events
        ++ (record (registered_event c id user.email.value token (suc n) now) { id = suc (suc id) }
            ∷ []);
  }

module _ {V : Type 0} {R : Redis V} where
  module _ (l : Library V) where
    register_tx_ok :
        (user : User) (credential : Credential) (c : Context) (w : World R) (d : Db) (token : Str)
        → c.in_tx ≡ true
        → w.faults ≡ []
        → w.open_tx ≡ some d
        → any (λ r. r.email == user.email.value) d.users ≡ false
        → any (is_of w.ids) d.credentials ≡ false
        → l.secure_token w.entropy ≡ some token
        → (token == []) ≡ false
        → (w' : World R) × (register_tx l user credential c w ≡ (ok w.ids, w'))
          × (w'.open_tx ≡ some (with_account l c user credential token w.now w.ids w.entropy d))
          × (w'.faults ≡ [])
    unfolding register_tx registered wrote with_verify_token
    register_tx_ok user credential c w d token inside calm opened fresh free drawn filled =
        let d1 = with_user user w.now w.ids d in
        let w1 = wrote d1 w in
        let d2 = with_credential (record credential { user_id = w.ids }) d1 in
        let w2 = wrote d2 w1 in
        let w3 = with_verify_token l w.ids token w2 in
        (
          _,
          bind_ok (insert_user c user w) _ (insert_user_fresh c w d inside calm opened user fresh)
              ∙ bind_ok (insert_credential c (record credential { user_id = w.ids }) w1) _ (
                  insert_credential_free c w1 d1 inside calm refl
                    (record credential { user_id = w.ids }) free)
              ∙ bind_ok (issue_verify_token l w.ids w2) _
                  (issue_verify_token_calm l w.ids w2 token calm drawn)
              ∙ bind_ok (publish_user_registered l c w.ids user.email.value token w3) _
                  (publish_calm l c w3 d2 w.ids user.email.value token inside calm refl filled),
          refl,
          calm,
        )

    tx_ok :
        (ctx : Context) (user : User) (credential : Credential) (w : World R) (token : Str)
        → ctx.in_tx ≡ false
        → w.faults ≡ []
        → any (λ r. r.email == user.email.value) w.db.users ≡ false
        → any (is_of w.ids) w.db.credentials ≡ false
        → l.secure_token w.entropy ≡ some token
        → (token == []) ≡ false
        → (w' : World R) × (within_transaction ctx (register_tx l user credential) w
            ≡ (ok w.ids, w'))
          × (w'.db ≡ with_account l ctx user credential token w.now w.ids w.entropy w.db)
    unfolding user_params
    tx_ok ctx user credential w token outer calm fresh free drawn filled =
        let (w', e, opened, calm') =
          register_tx_ok user credential (record ctx { in_tx = true })
            (record w { open_tx = some w.db }) w.db token refl calm refl fresh free drawn filled in
        (
          record w' {
            db = with_account l ctx user credential token w.now w.ids w.entropy w.db;
            open_tx = none;
          },
          within_transaction_calm ctx (register_tx l user credential) w w' outer calm e calm'
              opened,
          refl,
        )

    -- Register with calls that do not fail, outside a transaction, of a valid and new address and
    -- a valid password that can be hashed, with a verify token that is drawn and not empty and an
    -- id that no credential has, returns the id of the user; the tables then hold the one new row
    -- of the user, of its credential and of its event, and no other change.
    pub register_creates :
        (s : AuthService) (ctx : Context) (cmd : RegisterCommand) (w : World R) (email : Email)
        (hashed token : Str)
        → ctx.in_tx ≡ false
        → w.faults ≡ []
        → new_email l.unicode l.parse_address cmd.email ≡ ok email
        → validate_registration l.unicode s.register_policy email cmd.password ≡ ok tt
        → any (λ r. r.email == email.value) w.db.users ≡ false
        → any (is_of (suc w.ids)) w.db.credentials ≡ false
        → l.generate_from_password w.entropy cmd.password ≡ some hashed
        → l.secure_token (suc w.entropy) ≡ some token
        → (token == []) ≡ false
        → let r = register l s ctx cmd w in
          (r.0 ≡ ok (record { user_id = suc w.ids; email = email.value }))
          × (r.1.db
              ≡ with_account l ctx
                  (new_user l cmd email)
                  (new_credential hashed w.now)
                  token
                  w.now
                  (suc w.ids)
                  (suc w.entropy)
                  w.db)
    unfolding register
    register_creates s ctx cmd w email hashed token outer calm named valid fresh free hash drawn
          filled =
        let w1 = record w { ids = suc w.ids } in
        let w2 = record w1 { entropy = suc w1.entropy } in
        let (w', e, done) =
          tx_ok ctx (new_user l cmd email) (new_credential hashed w.now) w2 token outer calm fresh
            free drawn filled in
        let whole =
          bind_ok (lift (new_email l.unicode l.parse_address cmd.email) w) _
            (ap (λ r. (r, w)) named)
          ∙ bind_ok (lift (validate_registration l.unicode s.register_policy email cmd.password) w)
              _ (ap (λ r. (r, w)) valid)
          ∙ bind_ok (exists_by_email ctx email w) _
              (exists_by_email_fresh ctx w email outer calm fresh)
          ∙ bind_ok (hash_password l cmd.password w1) _
              (hash_password_calm l w1 cmd.password hashed hash)
          ∙ bind_ok
              (within_transaction ctx
                (register_tx l (new_user l cmd email) (new_credential hashed w.now)) w2)
              _ e in
        (ap (λ r. r.0) whole, ap (λ r. r.1.db) whole ∙ done)
