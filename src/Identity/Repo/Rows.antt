-- ===== src/Identity/Repo/Rows.antt =====
-- internal/modules/identity/infra/postgres/rows.go: the rows that the queries select. How pgx
-- reads one column is a parameter.
pub mod Scan
pub mod Tables
pub mod Scanned
use bookstore_golang.Base.{ℕ, Bool, Option}
use bookstore_golang.Base.Text.{Str}

-- A value of a column; `J` are the values of JSON.
pub data Value (J : Type 0) : Type 0 where
  null : Value J
  bigint : ℕ → Value J
  text : Str → Value J
  boolean : Bool → Value J
  timestamptz : ℕ → Value J
  jsonb : J → Value J

-- How pgx reads a column into a destination of each type, or that it cannot.
pub record Driver (J : Type 0) : Type 0 where
  pub int64 : Value J → Option ℕ
  pub string : Value J → Option Str
  pub string_pointer : Value J → Option (Option Str)
  pub bool : Value J → Option Bool
  pub time : Value J → Option ℕ
  pub time_pointer : Value J → Option (Option ℕ)
  pub json : Value J → Option J

pub record UserRow (J : Type 0) : Type 0 where
  pub id : ℕ
  pub email : Str
  pub full_name : Str
  pub phone : Option Str
  pub user_type : Str
  pub status : Str
  pub email_verified_at : Option ℕ
  pub last_login_at : Option ℕ
  pub locked_reason : Option Str
  pub metadata : J
  pub version : ℕ
  pub created_at : ℕ
  pub updated_at : ℕ

pub record SessionRow : Type 0 where
  pub id : ℕ
  pub user_id : ℕ
  pub device_id : ℕ
  pub refresh_token_hash : Str
  pub session_status : Str
  pub expired_at : ℕ
  pub ip_address : Option Str
  pub user_agent : Str
  pub last_seen_at : ℕ
  pub revoked_at : Option ℕ
  pub revoked_reason : Option Str
  pub created_at : ℕ
  pub updated_at : ℕ

pub record DeviceRow (J : Type 0) : Type 0 where
  pub id : ℕ
  pub user_id : ℕ
  pub fingerprint : Str
  pub label : Str
  pub first_seen_at : ℕ
  pub last_seen_at : ℕ
  pub revoked_at : Option ℕ
  pub revoked_reason : Option Str
  pub metadata : J
  pub created_at : ℕ
  pub updated_at : ℕ

pub record AddressRow : Type 0 where
  pub id : ℕ
  pub user_id : ℕ
  pub recipient_name : Str
  pub recipient_phone : Str
  pub line1 : Str
  pub line2 : Str
  pub province : Str
  pub district : Str
  pub ward : Str
  pub postal_code : Str
  pub country_code : Str
  pub is_default : Bool
  pub version : ℕ
  pub created_at : ℕ
  pub updated_at : ℕ

pub record CredentialRow : Type 0 where
  pub user_id : ℕ
  pub password_hash : Str
  pub password_algo : Str
  pub password_changed_at : ℕ
  pub failed_login_count : ℕ
  pub last_failed_login_at : Option ℕ
