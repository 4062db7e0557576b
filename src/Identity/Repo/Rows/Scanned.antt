-- ===== src/Identity/Repo/Rows/Scanned.antt =====
-- Rows that are scanned from what is selected of them.
use bookstore_golang.Base.{ℕ, Bool, ◌≡◌, Option, none, some, List, Result, ok, ℕ_discrete}
use bookstore_golang.Base.Text.{Str, Str-discrete}
use bookstore_golang.Config.Sections.{split}
use bookstore_golang.Identity.Repo.Rows.{
  Value, bigint, text, boolean, timestamptz, jsonb, Driver, UserRow, SessionRow, DeviceRow,
  AddressRow, CredentialRow,
}
use bookstore_golang.Identity.Repo.Rows.Scan.{
  Scan, ScanError, column, no_more, scan_user, scan_session, scan_device, scan_address,
  scan_credential, scan_by_device_id,
}
use bookstore_golang.Identity.Repo.Rows.Tables.{
  Stored, or_null, select, stored_user, stored_session, stored_device, stored_address,
  stored_credential, get_user_by_id_columns, get_user_by_email_columns, me_columns,
  get_by_refresh_token_hash_columns, list_active_by_user_id_columns, list_session_columns,
  get_by_device_id_columns, get_device_by_id_columns, get_device_by_fingerprint_columns,
  list_active_device_by_user_id_columns, list_device_columns, get_address_by_id_columns,
  list_address_by_user_id_columns, list_address_columns, credential_get_by_user_id_columns,
}

-- The destinations of Scan as pgx documents them: each reads a value of its kind, and a pointer
-- reads a null too.
pub record IsDriver {J : Type 0} (p : Driver J) : Type 0 where
  pub reads_int64 : (n : ℕ) → p.int64 (bigint n) ≡ some n
  pub reads_string : (s : Str) → p.string (text s) ≡ some s
  pub reads_string_pointer : (o : Option Str) → p.string_pointer (or_null text o) ≡ some o
  pub reads_bool : (b : Bool) → p.bool (boolean b) ≡ some b
  pub reads_time : (n : ℕ) → p.time (timestamptz n) ≡ some n
  pub reads_time_pointer : (o : Option ℕ) → p.time_pointer (or_null timestamptz o) ≡ some o
  pub reads_json : (j : J) → p.json (jsonb j) ≡ some j

-- What is scanned of the columns that a SELECT gives.
abbrev pub scanned :
    {J A : Type 0} → Scan J A → Option (List (Value J)) → Option (Result ScanError A)
scanned scan none = none
scanned scan (some vs) = some (scan vs).0

-- The row is read back from the columns that are selected.
abbrev pub ReadBack : {J A : Type 0} → Scan J A → (A → Stored J) → List Str → A → Type 0
ReadBack scan stored names r = scanned scan (select names (stored r)) ≡ some (ok r)

-- The row without the columns that GetByDeviceID does not select.
abbrev pub unselected : SessionRow → SessionRow
unselected r = record r { revoked_at = none; revoked_reason = none; created_at = 0; updated_at = 0 }

module _ {J : Type 0} (p : Driver J) (laws : IsDriver p) where
  scan_user-ReadBack :
      (r : UserRow J)
      → ReadBack (scan_user p) stored_user get_user_by_id_columns r
        × ReadBack (scan_user p) stored_user get_user_by_email_columns r
        × ReadBack (scan_user p) stored_user me_columns r
  unfolding select stored_user split Str-discrete ℕ_discrete scan_user column no_more
      get_user_by_id_columns get_user_by_email_columns me_columns
  scan_user-ReadBack r = (
    simp (
      laws.reads_int64, laws.reads_string, laws.reads_string_pointer, laws.reads_time,
      laws.reads_time_pointer, laws.reads_json,
    ),
    simp (
      laws.reads_int64, laws.reads_string, laws.reads_string_pointer, laws.reads_time,
      laws.reads_time_pointer, laws.reads_json,
    ),
    simp (
      laws.reads_int64, laws.reads_string, laws.reads_string_pointer, laws.reads_time,
      laws.reads_time_pointer, laws.reads_json,
    ),
  )

  scan_session-ReadBack :
      (r : SessionRow)
      → ReadBack (scan_session p) stored_session get_by_refresh_token_hash_columns r
        × ReadBack (scan_session p) stored_session list_active_by_user_id_columns r
        × ReadBack (scan_session p) stored_session list_session_columns r
  unfolding select stored_session split Str-discrete ℕ_discrete scan_session column no_more
      get_by_refresh_token_hash_columns list_active_by_user_id_columns list_session_columns
  scan_session-ReadBack r = (
    simp (
      laws.reads_int64, laws.reads_string, laws.reads_string_pointer, laws.reads_time,
      laws.reads_time_pointer,
    ),
    simp (
      laws.reads_int64, laws.reads_string, laws.reads_string_pointer, laws.reads_time,
      laws.reads_time_pointer,
    ),
    simp (
      laws.reads_int64, laws.reads_string, laws.reads_string_pointer, laws.reads_time,
      laws.reads_time_pointer,
    ),
  )

  scan_device-ReadBack :
      (r : DeviceRow J)
      → ReadBack (scan_device p) stored_device get_device_by_id_columns r
        × ReadBack (scan_device p) stored_device get_device_by_fingerprint_columns r
        × ReadBack (scan_device p) stored_device list_active_device_by_user_id_columns r
        × ReadBack (scan_device p) stored_device list_device_columns r
  unfolding select stored_device split Str-discrete ℕ_discrete scan_device column no_more
      get_device_by_id_columns get_device_by_fingerprint_columns
      list_active_device_by_user_id_columns list_device_columns
  scan_device-ReadBack r = (
    simp (
      laws.reads_int64, laws.reads_string, laws.reads_string_pointer, laws.reads_time,
      laws.reads_time_pointer, laws.reads_json,
    ),
    simp (
      laws.reads_int64, laws.reads_string, laws.reads_string_pointer, laws.reads_time,
      laws.reads_time_pointer, laws.reads_json,
    ),
    simp (
      laws.reads_int64, laws.reads_string, laws.reads_string_pointer, laws.reads_time,
      laws.reads_time_pointer, laws.reads_json,
    ),
    simp (
      laws.reads_int64, laws.reads_string, laws.reads_string_pointer, laws.reads_time,
      laws.reads_time_pointer, laws.reads_json,
    ),
  )

  scan_address-ReadBack :
      (r : AddressRow)
      → ReadBack (scan_address p) stored_address get_address_by_id_columns r
        × ReadBack (scan_address p) stored_address list_address_by_user_id_columns r
        × ReadBack (scan_address p) stored_address list_address_columns r
  unfolding select stored_address split Str-discrete ℕ_discrete scan_address column no_more
      get_address_by_id_columns list_address_by_user_id_columns list_address_columns
  scan_address-ReadBack r = (
    simp (laws.reads_int64, laws.reads_string, laws.reads_bool, laws.reads_time),
    simp (laws.reads_int64, laws.reads_string, laws.reads_bool, laws.reads_time),
    simp (laws.reads_int64, laws.reads_string, laws.reads_bool, laws.reads_time),
  )

  scan_credential-ReadBack :
      (r : CredentialRow)
      → ReadBack (scan_credential p) stored_credential credential_get_by_user_id_columns r
  unfolding select stored_credential split Str-discrete ℕ_discrete scan_credential column no_more
      credential_get_by_user_id_columns
  scan_credential-ReadBack r =
      simp (laws.reads_int64, laws.reads_string, laws.reads_time, laws.reads_time_pointer)

  scan_by_device_id-ReadBack :
      (r : SessionRow)
      → scanned (scan_by_device_id p) (select get_by_device_id_columns (stored_session r))
        ≡ some (ok (unselected r))
  unfolding select stored_session split Str-discrete ℕ_discrete scan_by_device_id column no_more
      get_by_device_id_columns
  scan_by_device_id-ReadBack r =
      simp (laws.reads_int64, laws.reads_string, laws.reads_string_pointer, laws.reads_time)

  module _ (u : UserRow J) (s : SessionRow) (d : DeviceRow J) (a : AddressRow)
      (c : CredentialRow) where
    -- With a driver that reads each kind of value into its destination, for stored rows with a
    -- null only in columns that are scanned into pointers: what the repositories scan of the
    -- columns of each of their SELECT statements on users, sessions, devices, addresses and
    -- credentials is the stored row, and for GetByDeviceID the row with its four columns that are
    -- not selected left at zero.
    pub scan-ReadBack :
        (ReadBack (scan_user p) stored_user get_user_by_id_columns u
          × ReadBack (scan_user p) stored_user get_user_by_email_columns u
          × ReadBack (scan_user p) stored_user me_columns u)
        × (ReadBack (scan_session p) stored_session get_by_refresh_token_hash_columns s
            × ReadBack (scan_session p) stored_session list_active_by_user_id_columns s
            × ReadBack (scan_session p) stored_session list_session_columns s)
        × (ReadBack (scan_device p) stored_device get_device_by_id_columns d
            × ReadBack (scan_device p) stored_device get_device_by_fingerprint_columns d
            × ReadBack (scan_device p) stored_device list_active_device_by_user_id_columns d
            × ReadBack (scan_device p) stored_device list_device_columns d)
        × (ReadBack (scan_address p) stored_address get_address_by_id_columns a
            × ReadBack (scan_address p) stored_address list_address_by_user_id_columns a
            × ReadBack (scan_address p) stored_address list_address_columns a)
        × (ReadBack (scan_credential p) stored_credential credential_get_by_user_id_columns c)
        × (scanned (scan_by_device_id p) (select get_by_device_id_columns (stored_session s))
            ≡ some (ok (unselected s)))
    scan-ReadBack = (
      scan_user-ReadBack u,
      scan_session-ReadBack s,
      scan_device-ReadBack d,
      scan_address-ReadBack a,
      scan_credential-ReadBack c,
      scan_by_device_id-ReadBack s,
    )
