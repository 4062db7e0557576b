-- ===== src/Identity/Auth/Proven.antt =====
-- Whom `Login` lets in.
use bookstore_golang.Base.{
  ℕ, ◌≡◌, refl, sym, ◌∙◌, ap, Bool, true, false, ◌==◌, nat_eq, Option, none, some, Result, ok, err,
  Action, fail, guard, catch, ◌>>=◌, ◌>>◌, >>=-eq-ok, find, arith,
}
use bookstore_golang.Base.Text.{Str, str_eq, Unicode}
use bookstore_golang.Errors.{Error, invalid_credentials}
use bookstore_golang.Platform.Redis.{Redis}
use bookstore_golang.Database.{Context, World, UserRow, Statement, execute, attempt}
use bookstore_golang.Identity.Status.{can_login}
use bookstore_golang.Identity.Entity.{User, Credential, Email, new_email}
use bookstore_golang.Identity.Library.{Library}
use bookstore_golang.Identity.Tokens.{verify_password}
use bookstore_golang.Identity.Repo.User.{
  found_user, map_user_row_to_entity, query_get_user_by_email, get_by_email,
}
use bookstore_golang.Identity.Repo.Credential.{query_credential_get_by_user_id, get_by_user_id}
use bookstore_golang.Identity.Auth.{AuthService, LoginCommand, TokenOutput, lift}
use bookstore_golang.Identity.Auth.Login.{enter_device, login}

-- A row that is read is held, and gives the user its id and status.
row_of :
    (u : Unicode) (parse_address : Str → Bool) (held : Option UserRow) {user : User}
    → found_user u parse_address held ≡ ok user
    → (row : UserRow) × (held ≡ some row) × (user.id ≡ row.id) × (user.status ≡ row.status)
unfolding map_user_row_to_entity
row_of u parse_address none e = absurd (cc)
row_of u parse_address (some row) e = (row, refl, ground arith, ground arith)

module _ {V : Type 0} {R : Redis V} where
  pub executed_ok :
      {A : Type 0} (c : Context) (f : Statement A) (w : World R) {a : A} {w' : World R}
      → c.in_tx ≡ false
      → execute c f w ≡ (ok a, w')
      → ((f w.now w.ids w.db).0 ≡ ok a) × (w'.db ≡ (f w.now w.ids w.db).1)
  unfolding execute attempt
  executed_ok c f w outer e = (ground arith, ground arith)

  pub guard_ok :
      {B : Type 0} (b : Bool) (e : Error) (m : Action (World R) Error B) (w : World R) {x : B}
      {t : World R}
      → (guard b e >> m) w ≡ (ok x, t)
      → (b ≡ true) × (m w ≡ (ok x, t))
  guard_ok true e m w h = (refl, h)
  guard_ok false e m w h = absurd (cc)

  pub lift_ok :
      {A B : Type 0} (a : Result Error A) (f : A → Action (World R) Error B) (w : World R) {x : B}
      {t : World R}
      → (lift a >>= f) w ≡ (ok x, t)
      → (v : A) × (a ≡ ok v) × (f v w ≡ (ok x, t))
  lift_ok (ok v) f w h = (v, refl, h)
  lift_ok (err e) f w h = absurd (cc)

  -- Reading the user of an address gives the row of the address.
  pub user_read :
      (l : Library V) (c : Context) (email : Email) (w : World R) {user : User} {w' : World R}
      → c.in_tx ≡ false
      → get_by_email c l.unicode l.parse_address email w ≡ (ok user, w')
      → ((row : UserRow) × (find (λ r. r.email == email.value) w.db.users ≡ some row)
          × (user.id ≡ row.id)
          × (user.status ≡ row.status))
        × (w'.db ≡ w.db)
  unfolding query_get_user_by_email map_user_row_to_entity
  user_read l c email w outer e =
      let (found, same) =
        executed_ok c (query_get_user_by_email l.unicode l.parse_address email) w outer e in
      (row_of l.unicode l.parse_address (find (λ r. r.email == email.value) w.db.users) found, same)

  password_ok :
      (l : Library V) (password hash : Str) (w : World R) {w' : World R}
      → catch (verify_password l password hash) (λ _. fail invalid_credentials) w ≡ (ok tt, w')
      → l.compare_hash_and_password hash password ≡ true
  unfolding verify_password
  password_ok l password hash w e = ground arith

  credential_read :
      (c : Context) (user_id : ℕ) (w : World R) {credential : Credential} {w' : World R}
      → c.in_tx ≡ false
      → get_by_user_id c user_id w ≡ (ok credential, w')
      → find (λ r. r.user_id == user_id) w.db.credentials ≡ some credential
  unfolding query_credential_get_by_user_id
  credential_read c user_id w outer e =
      let found = (executed_ok c (query_credential_get_by_user_id user_id) w outer e).0 in
      ground (arith, found)

  -- From the credential of the user on, whatever follows.
  from_credential :
      {B : Type 0} (l : Library V) (c : Context) (user_id : ℕ) (password : Str)
      (k : Action (World R) Error B) (w : World R) {x : B} {t : World R}
      → c.in_tx ≡ false
      → (get_by_user_id c user_id >>= λ credential.
            catch
              (verify_password l password credential.password_hash)
              (λ _. fail invalid_credentials)
            >> k)
          w
        ≡ (ok x, t)
      → (credential : Credential) × (find (λ r. r.user_id == user_id) w.db.credentials
          ≡ some credential)
        × (l.compare_hash_and_password credential.password_hash password ≡ true)
  from_credential l c user_id password k w outer e =
      let (credential, w1, e1, rest1) = >>=-eq-ok (get_by_user_id c user_id) _ w e in
      let (_, w2, e2, rest2) =
        >>=-eq-ok
          (catch (verify_password l password credential.password_hash)
            (λ _. fail invalid_credentials))
          _ w1 rest1 in
      (
        credential,
        credential_read c user_id w outer e1,
        password_ok l password credential.password_hash w1 e2,
      )

  -- The row and the credential that a login rests on.
  abbrev pub Proven : Library V → LoginCommand → World R → Email → Type 0
  Proven l cmd w email =
      (row : UserRow) × (credential : Credential) × (find (λ r. r.email == email.value) w.db.users
        ≡ some row)
      × (can_login row.status ≡ true)
      × (find (λ r. r.user_id == row.id) w.db.credentials ≡ some credential)
      × (l.compare_hash_and_password credential.password_hash cmd.password ≡ true)

  row-Proven :
      (l : Library V) (cmd : LoginCommand) (w w' : World R) (email : Email) (user : User)
      (row : UserRow)
      → find (λ r. r.email == email.value) w.db.users ≡ some row
      → user.id ≡ row.id
      → user.status ≡ row.status
      → w'.db ≡ w.db
      → can_login user.status ≡ true
      → ((credential : Credential) × (find (λ r. r.user_id == user.id) w'.db.credentials
            ≡ some credential)
          × (l.compare_hash_and_password credential.password_hash cmd.password ≡ true))
      → Proven l cmd w email
  row-Proven l cmd w w' email user row held same_id same_status same_db allowed
        (credential, kept, match) =
      (
        row,
        credential,
        held,
        ap can_login (sym same_status) ∙ allowed,
        ap (λ i. find (λ r. r.user_id == i) w.db.credentials) (sym same_id)
            ∙ ap (λ d. find (λ r. r.user_id == user.id) d.credentials) (sym same_db)
            ∙ kept,
        match,
      )

  from_user :
      (l : Library V) (s : AuthService) (ctx : Context) (cmd : LoginCommand) (email : Email)
      (w : World R) {out : TokenOutput} {t : World R}
      → ctx.in_tx ≡ false
      → (get_by_email ctx l.unicode l.parse_address email >>= λ user.
            guard (can_login user.status) invalid_credentials
            >> (get_by_user_id ctx user.id >>= λ credential.
                catch
                  (verify_password l cmd.password credential.password_hash)
                  (λ _. fail invalid_credentials)
                >> enter_device l s ctx user cmd))
          w
        ≡ (ok out, t)
      → Proven l cmd w email
  from_user l s ctx cmd email w outer e =
      let (user, w1, e1, rest1) =
        >>=-eq-ok (get_by_email ctx l.unicode l.parse_address email) _ w e in
      let ((row, held, same_id, same_status), same_db) = user_read l ctx email w outer e1 in
      let (allowed, rest2) = guard_ok (can_login user.status) invalid_credentials _ w1 rest1 in
      row-Proven l cmd w w1 email user row held same_id same_status same_db allowed
        (from_credential l ctx user.id cmd.password (enter_device l s ctx user cmd) w1 outer rest2)

  -- Outside a transaction, whatever calls fail, if Login returns tokens then the address of the
  -- command is valid, a user row with it is in the tables whose status may log in, and the
  -- credential of that user has a hash that the password matches
  pub login_ok_password :
      (l : Library V) (s : AuthService) (ctx : Context) (cmd : LoginCommand) (w : World R)
      {out : TokenOutput}
      → ctx.in_tx ≡ false
      → (login l s ctx cmd w).0 ≡ ok out
      → (email : Email) × (new_email l.unicode l.parse_address cmd.email ≡ ok email)
        × Proven l cmd w email
  unfolding login
  login_ok_password l s ctx cmd w {out} outer success =
      let (email, valid, rest) =
        lift_ok (new_email l.unicode l.parse_address cmd.email) _ w
          (ap (λ r. (r, (login l s ctx cmd w).1)) success) in
      (email, valid, from_user l s ctx cmd email w outer rest)
