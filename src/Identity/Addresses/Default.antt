-- ===== src/Identity/Addresses/Default.antt =====
-- The default address of a user, of whom there is one at most.
use bookstore_golang.Base.{
  ℕ, suc, ◌≡◌, refl, ◌∙◌, ap, Bool, true, false, ◌&&◌, ◌==◌, nat_eq, ==-refl, if◌then◌else◌, some,
  List, [], ◌∷◌, ◌++◌, ok, any, filter, update, arith, Bool-cases, inl, inr,
}
use bookstore_golang.Base.Text.{Unicode}
use bookstore_golang.Platform.Redis.{Redis}
use bookstore_golang.Database.{Context, World, Db, execute, attempt}
use bookstore_golang.Database.Tx.Calm.{within_transaction_calm}
use mathlib.Core.List.{append-nil}
use bookstore_golang.Identity.Entity.{Address}
use bookstore_golang.Identity.Repo.Address.{
  unset_row, new_address_row, query_insert_address, query_unset_default_by_user_id,
}
use bookstore_golang.Identity.Addresses.{
  AddAddressCommand, new_address, add_address, add_address_tx,
}

-- A default address of the user.
abbrev pub is_default_of : ℕ → Address → Bool
is_default_of user_id a = a.user_id == user_id && a.is_default

-- The addresses after those of the user have ceased to be defaults.
abbrev pub cleared : Bool → ℕ → ℕ → List Address → List Address
cleared b user_id now l = if b then update (λ a. a.user_id == user_id) (unset_row now) l else l

no_default_left :
    (user_id now : ℕ) (l : List Address)
    → filter (is_default_of user_id) (update (λ a. a.user_id == user_id) (unset_row now) l) ≡ []
unfolding filter update
no_default_left user_id now [] = refl
no_default_left user_id now (a ∷ l) = ground (arith, no_default_left user_id now l)

any-filter : (p : Address → Bool) (l : List Address) → filter p l ≡ [] → any p l ≡ false
unfolding any filter
any-filter p [] h = refl
any-filter p (a ∷ l) h = ground (arith, any-filter p l)

filter-append :
    (p : Address → Bool) (l : List Address) (a : Address)
    → filter p (l ++ (a ∷ [])) ≡ filter p l ++ (if p a then a ∷ [] else [])
unfolding filter
filter-append p [] a = ground arith
filter-append p (b ∷ l) a = ground (arith, filter-append p l a)

defaults_after :
    (u : Unicode) (cmd : AddAddressCommand) (now id : ℕ) (l : List Address)
    → filter (is_default_of cmd.user_id) (
        cleared cmd.is_default cmd.user_id now l
        ++ (new_address_row (new_address u cmd) now id ∷ []))
      ≡ (if cmd.is_default
          then new_address_row (new_address u cmd) now id ∷ []
          else filter (is_default_of cmd.user_id) l)
defaults_after u cmd now id l =
    rw (filter-append (is_default_of cmd.user_id) _ (new_address_row (new_address u cmd) now id)) (
      ground (
        arith,
        no_default_left cmd.user_id now l,
        ==-refl cmd.user_id,
        append-nil (filter (is_default_of cmd.user_id) l),
      ))

module _ {V : Type 0} {R : Redis V} where
  add_address_tx_ok :
      (a : Address) (c : Context) (w : World R) (d : Db)
      → c.in_tx ≡ true
      → w.faults ≡ []
      → w.open_tx ≡ some d
      → let id = if a.is_default then suc w.ids else w.ids in
        add_address_tx a c w ≡ (
          ok id,
          record w {
            open_tx = some (record d {
              addresses =
                  cleared a.is_default a.user_id w.now d.addresses
                  ++ (new_address_row a w.now id ∷ []);
            });
            ids = suc id;
          },
        )
  unfolding add_address_tx execute attempt query_insert_address query_unset_default_by_user_id
  add_address_tx_ok a c w d inside calm opened = elim (Bool-cases a.is_default) [
    | inl yes' ↦ ground (
      arith,
      any-filter (is_default_of a.user_id) _ (no_default_left a.user_id w.now d.addresses),
    )
    | inr no' ↦ ground arith
  ]

module _ {V : Type 0} {R : Redis V} (u : Unicode) (ctx : Context) where
  add_address_ok :
      (cmd : AddAddressCommand) (w : World R)
      → ctx.in_tx ≡ false
      → w.faults ≡ []
      → let id = if cmd.is_default then suc w.ids else w.ids in
        let r = add_address u ctx cmd w in
        (r.0 ≡ ok id)
        × (r.1.db ≡ record (w.db) {
          addresses =
              cleared cmd.is_default cmd.user_id w.now w.db.addresses
              ++ (new_address_row (new_address u cmd) w.now id ∷ []);
        })
  unfolding add_address
  add_address_ok cmd w outer calm =
      rw
        (within_transaction_calm ctx (add_address_tx (new_address u cmd)) w _ outer calm
          (add_address_tx_ok (new_address u cmd) (record ctx { in_tx = true })
            (record w { open_tx = some w.db }) w.db refl calm refl)
          calm refl)
        (refl, refl)

  -- Outside a transaction, when no call fails, AddAddress returns the id of its new row, the
  -- tables change only in the addresses, where the user's rows cease to be defaults if the new one
  -- is to be the default and the new row comes last, and the default addresses of the user are
  -- then the new row alone if it was to be the default, and otherwise those of before.
  pub add_address_default :
      (cmd : AddAddressCommand) (w : World R)
      → ctx.in_tx ≡ false
      → w.faults ≡ []
      → let id = if cmd.is_default then suc w.ids else w.ids in
        let row = new_address_row (new_address u cmd) w.now id in
        let r = add_address u ctx cmd w in
        (r.0 ≡ ok id)
        × (r.1.db ≡ record (w.db) {
          addresses = cleared cmd.is_default cmd.user_id w.now w.db.addresses ++ (row ∷ []);
        })
        × (filter (is_default_of cmd.user_id) r.1.db.addresses ≡ (
            if cmd.is_default then row ∷ [] else filter (is_default_of cmd.user_id) w.db.addresses))
  add_address_default cmd w outer calm =
      let (e, e') = add_address_ok cmd w outer calm in
      (
        e,
        e',
        ap (λ d. filter (is_default_of cmd.user_id) d.addresses) e'
            ∙ defaults_after u cmd w.now (if cmd.is_default then suc w.ids else w.ids)
                w.db.addresses,
      )
