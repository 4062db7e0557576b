-- ===== src/Identity/Repo/Rows/Scan.antt =====
-- internal/modules/identity/infra/postgres/scan.go: the rows are scanned column by column in the order
-- of the SELECT.
use bookstore_golang.Base.{
  Option, none, some, List, [], ◌∷◌, Action, ◌>>=◌, ◌>>◌, pure, Result, ok, err,
}
use bookstore_golang.Identity.Repo.Rows.{
  Value, Driver, UserRow, SessionRow, DeviceRow, AddressRow, CredentialRow,
}

-- `row.Scan` fails: the columns are not as many as the destinations, or one does not fit.
pub data ScanError : Type 0 where
  columns_differ no_fit : ScanError

-- A scan takes the columns from the left.
abbrev pub Scan : Type 0 → Type 0 → Type 0
Scan J A = Action (List (Value J)) ScanError A

abbrev or_no_fit : {A : Type 0} → Option A → Result ScanError A
or_no_fit none = err no_fit
or_no_fit (some a) = ok a

unfoldable pub column : {J A : Type 0} → (Value J → Option A) → Scan J A
column read [] = (err columns_differ, [])
column read (v ∷ vs) = (or_no_fit (read v), vs)

unfoldable pub no_more : {J : Type 0} → Scan J (Unit {0})
no_more [] = (ok tt, [])
no_more (v ∷ vs) = (err columns_differ, v ∷ vs)

module _ {J : Type 0} (p : Driver J) where
  unfoldable pub scan_user : Scan J (UserRow J)
  unfolding column no_more
  scan_user = do
    id ← column p.int64
    email ← column p.string
    full_name ← column p.string
    phone ← column p.string_pointer
    user_type ← column p.string
    status ← column p.string
    email_verified_at ← column p.time_pointer
    last_login_at ← column p.time_pointer
    locked_reason ← column p.string_pointer
    metadata ← column p.json
    version ← column p.int64
    created_at ← column p.time
    updated_at ← column p.time
    no_more
    pure (record {
      id = id;
      email = email;
      full_name = full_name;
      phone = phone;
      user_type = user_type;
      status = status;
      email_verified_at = email_verified_at;
      last_login_at = last_login_at;
      locked_reason = locked_reason;
      metadata = metadata;
      version = version;
      created_at = created_at;
      updated_at = updated_at;
    })

  unfoldable pub scan_session : Scan J SessionRow
  unfolding column no_more
  scan_session = do
    id ← column p.int64
    user_id ← column p.int64
    device_id ← column p.int64
    refresh_token_hash ← column p.string
    session_status ← column p.string
    expired_at ← column p.time
    ip_address ← column p.string_pointer
    user_agent ← column p.string
    last_seen_at ← column p.time
    revoked_at ← column p.time_pointer
    revoked_reason ← column p.string_pointer
    created_at ← column p.time
    updated_at ← column p.time
    no_more
    pure (record {
      id = id;
      user_id = user_id;
      device_id = device_id;
      refresh_token_hash = refresh_token_hash;
      session_status = session_status;
      expired_at = expired_at;
      ip_address = ip_address;
      user_agent = user_agent;
      last_seen_at = last_seen_at;
      revoked_at = revoked_at;
      revoked_reason = revoked_reason;
      created_at = created_at;
      updated_at = updated_at;
    })

  unfoldable pub scan_device : Scan J (DeviceRow J)
  unfolding column no_more
  scan_device = do
    id ← column p.int64
    user_id ← column p.int64
    fingerprint ← column p.string
    label ← column p.string
    first_seen_at ← column p.time
    last_seen_at ← column p.time
    revoked_at ← column p.time_pointer
    revoked_reason ← column p.string_pointer
    metadata ← column p.json
    created_at ← column p.time
    updated_at ← column p.time
    no_more
    pure (record {
      id = id;
      user_id = user_id;
      fingerprint = fingerprint;
      label = label;
      first_seen_at = first_seen_at;
      last_seen_at = last_seen_at;
      revoked_at = revoked_at;
      revoked_reason = revoked_reason;
      metadata = metadata;
      created_at = created_at;
      updated_at = updated_at;
    })

  unfoldable pub scan_address : Scan J AddressRow
  unfolding column no_more
  scan_address = do
    id ← column p.int64
    user_id ← column p.int64
    recipient_name ← column p.string
    recipient_phone ← column p.string
    line1 ← column p.string
    line2 ← column p.string
    province ← column p.string
    district ← column p.string
    ward ← column p.string
    postal_code ← column p.string
    country_code ← column p.string
    is_default ← column p.bool
    version ← column p.int64
    created_at ← column p.time
    updated_at ← column p.time
    no_more
    pure (record {
      id = id;
      user_id = user_id;
      recipient_name = recipient_name;
      recipient_phone = recipient_phone;
      line1 = line1;
      line2 = line2;
      province = province;
      district = district;
      ward = ward;
      postal_code = postal_code;
      country_code = country_code;
      is_default = is_default;
      version = version;
      created_at = created_at;
      updated_at = updated_at;
    })

  unfoldable pub scan_credential : Scan J CredentialRow
  unfolding column no_more
  scan_credential = do
    user_id ← column p.int64
    password_hash ← column p.string
    password_algo ← column p.string
    password_changed_at ← column p.time
    failed_login_count ← column p.int64
    last_failed_login_at ← column p.time_pointer
    no_more
    pure (record {
      user_id = user_id;
      password_hash = password_hash;
      password_algo = password_algo;
      password_changed_at = password_changed_at;
      failed_login_count = failed_login_count;
      last_failed_login_at = last_failed_login_at;
    })

  -- The scan of GetByDeviceID, which selects fewer columns; the others are zero in its row.
  unfoldable pub scan_by_device_id : Scan J SessionRow
  unfolding column no_more
  scan_by_device_id = do
    id ← column p.int64
    user_id ← column p.int64
    device_id ← column p.int64
    refresh_token_hash ← column p.string
    session_status ← column p.string
    expired_at ← column p.time
    ip_address ← column p.string_pointer
    user_agent ← column p.string
    last_seen_at ← column p.time
    no_more
    pure (record {
      id = id;
      user_id = user_id;
      device_id = device_id;
      refresh_token_hash = refresh_token_hash;
      session_status = session_status;
      expired_at = expired_at;
      ip_address = ip_address;
      user_agent = user_agent;
      last_seen_at = last_seen_at;
      revoked_at = none;
      revoked_reason = none;
      created_at = 0;
      updated_at = 0;
    })
