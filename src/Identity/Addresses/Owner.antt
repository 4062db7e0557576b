-- ===== src/Identity/Addresses/Owner.antt =====
-- Only the owner of an address changes it, and what its update and delete answer.
use bookstore_golang.Base.{
  ℕ, ◌≡◌, ◌≢◌, Bool, true, false, ◌==◌, nat_eq, some, List, ◌∷◌, err, Action, ◌>>=◌, ◌>>◌, find,
  arith,
}
use bookstore_golang.Base.Text.{Unicode}
use bookstore_golang.Errors.{Error, address_not_found}
use bookstore_golang.Platform.Redis.{Redis}
use bookstore_golang.Database.{Context, World, execute, attempt}
use bookstore_golang.Database.Tx.Atomic.{is_err}
use bookstore_golang.Identity.Entity.{Address, address_assert_ownership}
use bookstore_golang.Identity.Auth.{lift}
use bookstore_golang.Identity.Repo.Address.{
  query_get_address_by_id, get_by_id, query_delete_address,
}
use bookstore_golang.Identity.Addresses.{
  UpdateAddressCommand, DeleteAddressCommand, update_address, delete_address,
}

module _ {V : Type 0} {R : Redis V} where
  -- What is done with an address that may not be the user's.
  abbrev owned :
      {A : Type 0} → ℕ → (Address → Action (World R) Error A) → Address → Action (World R) Error A
  owned user_id f address = do lift (address_assert_ownership address user_id); f address

  refused :
      {A : Type 0} (ctx : Context) (address_id user_id : ℕ) (f : Address → Action (World R) Error A)
      (w : World R) {a : Address}
      → ctx.in_tx ≡ false
      → find (λ r. r.id == address_id) w.db.addresses ≡ some a
      → a.user_id ≢ user_id
      → let r = (get_by_id ctx address_id >>= owned user_id f) w in
        (is_err r.0 ≡ true) × (r.1.db ≡ w.db)
  unfolding query_get_address_by_id execute attempt address_assert_ownership
  refused ctx address_id user_id f w {a} outer held other = ground arith

  -- Outside a transaction, whatever calls fail, UpdateAddress and DeleteAddress of an address that
  -- another user owns return an error and leave the tables as they were.
  pub update_delete_not_owner :
      (u : Unicode) (ctx : Context) (cmd : UpdateAddressCommand) (cmd' : DeleteAddressCommand)
      (w : World R) {a a' : Address}
      → ctx.in_tx ≡ false
      → find (λ r. r.id == cmd.id) w.db.addresses ≡ some a
      → a.user_id ≢ cmd.fields.user_id
      → find (λ r. r.id == cmd'.id) w.db.addresses ≡ some a'
      → a'.user_id ≢ cmd'.user_id
      → ((is_err (update_address u ctx cmd w).0 ≡ true)
          × ((update_address u ctx cmd w).1.db ≡ w.db))
        × ((is_err (delete_address ctx cmd' w).0 ≡ true)
            × ((delete_address ctx cmd' w).1.db ≡ w.db))
  unfolding update_address delete_address
  update_delete_not_owner u ctx cmd cmd' w outer held other held' other' = (
    refused ctx cmd.id cmd.fields.user_id _ w outer held other,
    refused ctx cmd'.id cmd'.user_id _ w outer held' other',
  )

  -- Outside a transaction, when the owner deletes an address and the DELETE fails after the read
  -- was well, DeleteAddress answers that there is no such address, and the tables are what they
  -- were.
  pub delete_address_failure :
      (ctx : Context) (cmd : DeleteAddressCommand) (w : World R) {a : Address} {rest : List Bool}
      → ctx.in_tx ≡ false
      → w.faults ≡ false ∷ true ∷ rest
      → find (λ r. r.id == cmd.id) w.db.addresses ≡ some a
      → a.user_id ≡ cmd.user_id
      → ((delete_address ctx cmd w).0 ≡ err address_not_found)
        × ((delete_address ctx cmd w).1.db ≡ w.db)
  unfolding delete_address query_get_address_by_id query_delete_address execute attempt
      address_assert_ownership
  delete_address_failure ctx cmd w {a} {rest} outer down held owner = ground arith
