-- ===== src/Identity/Repo/Address.antt =====
-- internal/modules/identity/infra/postgres/address_repo.go. `addresses` has a UNIQUE index on user_id
-- over the rows with is_default; its trigger sets updated_at.
use bookstore_golang.Base.{
  ℕ, Bool, false, not, ◌&&◌, ◌==◌, nat_eq, if◌then◌else◌, Option, none, some, List, [], ◌∷◌, ◌++◌,
  Result, ok, err, Action, filter, find, update, count, any, order_desc,
}
use bookstore_golang.Errors.{Error, address_not_found, unique_violation}
use bookstore_golang.Platform.Redis.{Redis}
use bookstore_golang.Database.{Context, World, Statement, execute}
use bookstore_golang.Identity.Entity.{Address}

abbrev or_address_not_found : Option Address → Result Error Address
or_address_not_found none = err address_not_found
or_address_not_found (some a) = ok a

unfoldable pub query_get_address_by_id : ℕ → Statement Address
query_get_address_by_id address_id now id d =
    (or_address_not_found (find (λ a. a.id == address_id) d.addresses), d)

-- `ORDER BY is_default DESC, created_at DESC`: the defaults come first.
unfoldable pub query_list_address_by_user_id : ℕ → Statement (List Address)
query_list_address_by_user_id user_id now id d =
    let own = filter (λ a. a.user_id == user_id) d.addresses in
    (
      ok (
          order_desc (λ a. a.created_at) (filter (λ a. a.is_default) own)
          ++ order_desc (λ a. a.created_at) (filter (λ a. not a.is_default) own)),
      d,
    )

-- A default address of the user beside the one of the id.
abbrev pub rivals : ℕ → ℕ → Address → Bool
rivals user_id address_id a = a.user_id == user_id && (a.is_default && not (a.id == address_id))

abbrev pub new_address_row : Address → ℕ → ℕ → Address
new_address_row a now id = record a { id = id; version = 1; created_at = now; updated_at = now }

unfoldable pub query_insert_address : Address → Statement ℕ
query_insert_address a now id d =
    if a.is_default && any (λ r. r.user_id == a.user_id && r.is_default) d.addresses
    then (err unique_violation, d)
    else (ok id, record d { addresses = d.addresses ++ (new_address_row a now id ∷ []) })

abbrev pub updated_row : Address → ℕ → Address → Address
updated_row a now r = record r {
  recipient_name = a.recipient_name;
  recipient_phone = a.recipient_phone;
  line1 = a.line1;
  line2 = a.line2;
  province = a.province;
  district = a.district;
  ward = a.ward;
  postal_code = a.postal_code;
  country_code = a.country_code;
  is_default = a.is_default;
  updated_at = now;
}

-- Whether the row of the id would become a second default of its user.
abbrev pub clashes : Address → List Address → Bool
clashes a l = a.is_default && any (λ r. r.id == a.id && any (rivals r.user_id a.id) l) l

-- The result is the number of rows affected.
unfoldable pub query_update_address : Address → Statement ℕ
query_update_address a now id d = if clashes a d.addresses then (err unique_violation, d) else (
  ok (count (λ r. r.id == a.id) d.addresses),
  record d { addresses = update (λ r. r.id == a.id) (updated_row a now) d.addresses },
)

unfoldable pub query_delete_address : ℕ → Statement ℕ
query_delete_address address_id now id d = (
  ok (count (λ r. r.id == address_id) d.addresses),
  record d { addresses = filter (λ r. not (r.id == address_id)) d.addresses },
)

abbrev pub unset_row : ℕ → Address → Address
unset_row now r = record r { is_default = false; updated_at = now }

unfoldable pub query_unset_default_by_user_id : ℕ → Statement (Unit {0})
query_unset_default_by_user_id user_id now id d =
    (ok tt, record d { addresses = update (λ r. r.user_id == user_id) (unset_row now) d.addresses })

-- The methods of `AddressRepository`.
module _ {V : Type 0} {R : Redis V} (c : Context) where
  -- `if tag.RowsAffected() == 0`, which is asked before the error: the tag of a call that failed
  -- affects no row.
  abbrev pub affected : Result Error ℕ × World R → Result Error (Unit {0}) × World R
  affected (ok n, w) = if n == 0 then (err address_not_found, w) else (ok tt, w)
  affected (err e, w) = (err address_not_found, w)

  abbrev pub get_by_id : ℕ → Action (World R) Error Address
  get_by_id address_id = execute c (query_get_address_by_id address_id)

  abbrev pub list_by_user_id : ℕ → Action (World R) Error (List Address)
  list_by_user_id user_id = execute c (query_list_address_by_user_id user_id)

  abbrev pub insert : Address → Action (World R) Error ℕ
  insert a = execute c (query_insert_address a)

  abbrev pub update_row : Address → Action (World R) Error (Unit {0})
  update_row a w = affected (execute c (query_update_address a) w)

  abbrev pub delete_row : ℕ → Action (World R) Error (Unit {0})
  delete_row address_id w = affected (execute c (query_delete_address address_id) w)

  abbrev pub unset_default_by_user_id : ℕ → Action (World R) Error (Unit {0})
  unset_default_by_user_id user_id = execute c (query_unset_default_by_user_id user_id)
