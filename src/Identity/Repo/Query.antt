-- ===== src/Identity/Repo/Query.antt =====
-- internal/modules/identity/infra/postgres/query_repo.go, with the views of app/query and their
-- functions of mapper.go.
use bookstore_golang.Base.{
  ℕ, Bool, ◌==◌, nat_eq, Option, none, some, List, map, Result, ok, err, Action, filter, find,
  order_desc,
}
use bookstore_golang.Base.Text.{Str}
use bookstore_golang.Errors.{Error, user_not_found}
use bookstore_golang.Platform.Redis.{Redis}
use bookstore_golang.Database.{Context, World, Db, Statement, UserRow, execute}
use bookstore_golang.Identity.Status.{UserStatus}
use bookstore_golang.Identity.Entity.{Session, Device, Address}
use bookstore_golang.Identity.Repo.Address.{query_list_address_by_user_id}

pub record MeView : Type 0 where
  pub user_id : ℕ
  pub email : Str
  pub full_name : Str
  pub status : UserStatus
  pub email_verified_at : Option ℕ
  pub created_at : ℕ

pub record SessionView : Type 0 where
  pub id : ℕ
  pub device_id : ℕ
  pub ip_address : Option Str
  pub user_agent : Str
  pub expired_at : ℕ
  pub revoked_at : Option ℕ
  pub created_at : ℕ

pub record DeviceView : Type 0 where
  pub id : ℕ
  pub fingerprint : Str
  pub label : Str
  pub first_seen_at : ℕ
  pub last_seen_at : ℕ
  pub revoked_at : Option ℕ

pub record AddressView : Type 0 where
  pub id : ℕ
  pub recipient_name : Str
  pub recipient_phone : Str
  pub province : Str
  pub district : Str
  pub ward : Str
  pub line1 : Str
  pub line2 : Str
  pub is_default : Bool

abbrev pub map_user_row_to_me_view : UserRow → MeView
map_user_row_to_me_view r = record {
  user_id = r.id;
  email = r.email;
  full_name = r.full_name;
  status = r.status;
  email_verified_at = r.email_verified_at;
  created_at = r.created_at;
}

abbrev pub map_session_row_to_view : Session → SessionView
map_session_row_to_view r = record {
  id = r.id;
  device_id = r.device_id;
  ip_address = r.ip_address;
  user_agent = r.user_agent;
  expired_at = r.expired_at;
  revoked_at = r.revoked_at;
  created_at = r.created_at;
}

abbrev pub map_device_row_to_view : Device → DeviceView
map_device_row_to_view r = record {
  id = r.id;
  fingerprint = r.fingerprint;
  label = r.label;
  first_seen_at = r.first_seen_at;
  last_seen_at = r.last_seen_at;
  revoked_at = r.revoked_at;
}

abbrev pub map_address_row_to_view : Address → AddressView
map_address_row_to_view r = record {
  id = r.id;
  recipient_name = r.recipient_name;
  recipient_phone = r.recipient_phone;
  province = r.province;
  district = r.district;
  ward = r.ward;
  line1 = r.line1;
  line2 = r.line2;
  is_default = r.is_default;
}

abbrev me_found : Option UserRow → Result Error MeView
me_found none = err user_not_found
me_found (some r) = ok (map_user_row_to_me_view r)

unfoldable pub query_me : ℕ → Statement MeView
query_me user_id now id d = (me_found (find (λ r. r.id == user_id) d.users), d)

unfoldable pub query_list_session : ℕ → Statement (List SessionView)
query_list_session user_id now id d = (
  ok (
      map map_session_row_to_view
        (order_desc (λ s. s.created_at) (filter (λ s. s.user_id == user_id) d.sessions))),
  d,
)

unfoldable pub query_list_device : ℕ → Statement (List DeviceView)
query_list_device user_id now id d = (
  ok (
      map map_device_row_to_view
        (order_desc (λ s. s.created_at) (filter (λ s. s.user_id == user_id) d.devices))),
  d,
)

abbrev address_views : Result Error (List Address) × Db → Result Error (List AddressView) × Db
address_views (ok l, d) = (ok (map map_address_row_to_view l), d)
address_views (err e, d) = (err e, d)

-- The query is that of `queryListAddressByUserID`.
unfoldable pub query_list_address : ℕ → Statement (List AddressView)
unfolding query_list_address_by_user_id
query_list_address user_id now id d = address_views (query_list_address_by_user_id user_id now id d)

module _ {V : Type 0} {R : Redis V} (c : Context) where
  abbrev pub get_me : ℕ → Action (World R) Error MeView
  get_me user_id = execute c (query_me user_id)

  abbrev pub list_sessions : ℕ → Action (World R) Error (List SessionView)
  list_sessions user_id = execute c (query_list_session user_id)

  abbrev pub list_devices : ℕ → Action (World R) Error (List DeviceView)
  list_devices user_id = execute c (query_list_device user_id)

  abbrev pub list_addresses : ℕ → Action (World R) Error (List AddressView)
  list_addresses user_id = execute c (query_list_address user_id)
