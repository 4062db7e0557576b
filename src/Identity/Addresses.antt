-- ===== src/Identity/Addresses.antt =====
-- internal/modules/identity/app/service/address_service.go
pub mod Default
pub mod Owner
use bookstore_golang.Base.{ℕ, Bool, true, false, if◌then◌else◌, Result, Action, pure, ◌>>=◌, ◌>>◌}
use bookstore_golang.Base.Text.{Str, Unicode, trim}
use bookstore_golang.Errors.{Error}
use bookstore_golang.Platform.Redis.{Redis}
use bookstore_golang.Database.{Context, World}
use bookstore_golang.Database.Tx.{within_transaction}
use bookstore_golang.Identity.Entity.{Address, address_assert_ownership}
use bookstore_golang.Identity.Auth.{lift}
use bookstore_golang.Identity.Repo.Address.{
  get_by_id, insert, update_row, delete_row, unset_default_by_user_id,
}

-- `AddAddressCommand`; the `UpdateAddressCommand` has the same fields and an id.
pub record AddAddressCommand : Type 0 where
  pub user_id : ℕ
  pub recipient_name : Str
  pub recipient_phone : Str
  pub line1 : Str
  pub line2 : Str
  pub province_code : Str
  pub district_code : Str
  pub ward_code : Str
  pub postal_code : Str
  pub country_code : Str
  pub is_default : Bool

pub record UpdateAddressCommand : Type 0 where
  pub id : ℕ
  pub fields : AddAddressCommand

pub record DeleteAddressCommand : Type 0 where
  pub id : ℕ
  pub user_id : ℕ

abbrev pub new_address : Unicode → AddAddressCommand → Address
new_address u cmd = record {
  id = 0;
  user_id = cmd.user_id;
  recipient_name = trim u cmd.recipient_name;
  recipient_phone = trim u cmd.recipient_phone;
  line1 = trim u cmd.line1;
  line2 = trim u cmd.line2;
  province = trim u cmd.province_code;
  district = trim u cmd.district_code;
  ward = trim u cmd.ward_code;
  postal_code = trim u cmd.postal_code;
  country_code = trim u cmd.country_code;
  is_default = cmd.is_default;
  version = 0;
  created_at = 0;
  updated_at = 0;
}

-- The address with the fields of the command.
abbrev pub with_fields : Unicode → AddAddressCommand → Address → Address
with_fields u cmd a = record (new_address u cmd) {
  id = a.id;
  user_id = a.user_id;
  version = a.version;
  created_at = a.created_at;
  updated_at = a.updated_at;
}

module _ {V : Type 0} {R : Redis V} where
  -- `if address.IsDefault { … }`
  abbrev pub unset_others : Context → Address → Action (World R) Error (Unit {0})
  unset_others tx_ctx address =
      if address.is_default then unset_default_by_user_id tx_ctx address.user_id else pure tt

  unfoldable pub add_address_tx : Address → Context → Action (World R) Error ℕ
  add_address_tx address tx_ctx = do unset_others tx_ctx address; insert tx_ctx address

  unfoldable pub update_address_tx : Address → Context → Action (World R) Error (Unit {0})
  update_address_tx address tx_ctx = do unset_others tx_ctx address; update_row tx_ctx address

module _ {V : Type 0} {R : Redis V} (u : Unicode) (ctx : Context) where
  unfoldable pub add_address : AddAddressCommand → Action (World R) Error ℕ
  unfolding add_address_tx within_transaction
  add_address cmd = within_transaction ctx (add_address_tx (new_address u cmd))

  unfoldable pub update_address : UpdateAddressCommand → Action (World R) Error (Unit {0})
  unfolding update_address_tx within_transaction
  update_address cmd = do
    address ← get_by_id ctx cmd.id
    lift (address_assert_ownership address cmd.fields.user_id)
    within_transaction ctx (update_address_tx (with_fields u cmd.fields address))

module _ {V : Type 0} {R : Redis V} (ctx : Context) where
  unfoldable pub delete_address : DeleteAddressCommand → Action (World R) Error (Unit {0})
  delete_address cmd = do
    address ← get_by_id ctx cmd.id
    lift (address_assert_ownership address cmd.user_id)
    delete_row ctx cmd.id
