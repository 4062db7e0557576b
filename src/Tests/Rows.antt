-- ===== src/Tests/Rows.antt =====
-- Rows that a driver reads.
use bookstore_golang.Base.{ℕ, Bool, Option, none, some, ◌≡◌, refl, ok, true}
use bookstore_golang.Base.Text.{Str, codes}
use bookstore_golang.Identity.Repo.Rows.{
  Value, null, bigint, text, boolean, timestamptz, jsonb, Driver, UserRow, SessionRow, DeviceRow,
  AddressRow, CredentialRow,
}
use bookstore_golang.Identity.Repo.Rows.Tables.{
  or_null, select, stored_user, stored_session, stored_device, stored_address, stored_credential,
  get_user_by_id_columns, get_user_by_email_columns, me_columns, get_by_refresh_token_hash_columns,
  list_active_by_user_id_columns, list_session_columns, get_by_device_id_columns,
  get_device_by_id_columns, get_device_by_fingerprint_columns,
  list_active_device_by_user_id_columns, list_device_columns, get_address_by_id_columns,
  list_address_by_user_id_columns, list_address_columns, credential_get_by_user_id_columns,
}
use bookstore_golang.Identity.Repo.Rows.Scan.{
  scan_user, scan_session, scan_device, scan_address, scan_credential, scan_by_device_id,
}
use bookstore_golang.Identity.Repo.Rows.Scanned.{
  IsDriver, ReadBack, scanned, unselected, scan-ReadBack,
}

abbrev int_of : Value ℕ → Option ℕ
int_of (bigint n) = some n
int_of v = none

abbrev text_of : Value ℕ → Option Str
text_of (text s) = some s
text_of v = none

abbrev text_pointer : Value ℕ → Option (Option Str)
text_pointer null = some none
text_pointer (text s) = some (some s)
text_pointer v = none

abbrev bool_of : Value ℕ → Option Bool
bool_of (boolean b) = some b
bool_of v = none

abbrev time_of : Value ℕ → Option ℕ
time_of (timestamptz n) = some n
time_of v = none

abbrev time_or_null : Value ℕ → Option (Option ℕ)
time_or_null null = some none
time_or_null (timestamptz n) = some (some n)
time_or_null v = none

abbrev json_of : Value ℕ → Option ℕ
json_of (jsonb j) = some j
json_of v = none

abbrev driver : Driver ℕ
driver = record {
  int64 = int_of;
  string = text_of;
  string_pointer = text_pointer;
  bool = bool_of;
  time = time_of;
  time_pointer = time_or_null;
  json = json_of;
}

driver-reads_string_pointer : (o : Option Str) → text_pointer (or_null text o) ≡ some o
driver-reads_string_pointer none = refl
driver-reads_string_pointer (some s) = refl

driver-reads_time_pointer : (o : Option ℕ) → time_or_null (or_null timestamptz o) ≡ some o
driver-reads_time_pointer none = refl
driver-reads_time_pointer (some n) = refl

driver-IsDriver : IsDriver driver
driver-IsDriver = record {
  reads_int64 = λ n. refl;
  reads_string = λ s. refl;
  reads_string_pointer = driver-reads_string_pointer;
  reads_bool = λ b. refl;
  reads_time = λ n. refl;
  reads_time_pointer = driver-reads_time_pointer;
  reads_json = λ j. refl;
}

abbrev user : UserRow ℕ
user = record {
  id = 1;
  email = codes "ema";
  full_name = codes "ful";
  phone = none;
  user_type = codes "use";
  status = codes "sta";
  email_verified_at = some 7;
  last_login_at = some 8;
  locked_reason = none;
  metadata = 0;
  version = 11;
  created_at = 12;
  updated_at = 13;
}

abbrev session : SessionRow
session = record {
  id = 1;
  user_id = 2;
  device_id = 3;
  refresh_token_hash = codes "ref";
  session_status = codes "ses";
  expired_at = 6;
  ip_address = none;
  user_agent = codes "use";
  last_seen_at = 9;
  revoked_at = some 10;
  revoked_reason = none;
  created_at = 12;
  updated_at = 13;
}

abbrev device : DeviceRow ℕ
device = record {
  id = 1;
  user_id = 2;
  fingerprint = codes "fin";
  label = codes "lab";
  first_seen_at = 5;
  last_seen_at = 6;
  revoked_at = some 7;
  revoked_reason = none;
  metadata = 0;
  created_at = 10;
  updated_at = 11;
}

abbrev address : AddressRow
address = record {
  id = 1;
  user_id = 2;
  recipient_name = codes "rec";
  recipient_phone = codes "rec";
  line1 = codes "lin";
  line2 = codes "lin";
  province = codes "pro";
  district = codes "dis";
  ward = codes "war";
  postal_code = codes "pos";
  country_code = codes "cou";
  is_default = true;
  version = 13;
  created_at = 14;
  updated_at = 15;
}

abbrev credential : CredentialRow
credential = record {
  user_id = 1;
  password_hash = codes "pas";
  password_algo = codes "pas";
  password_changed_at = 4;
  failed_login_count = 5;
  last_failed_login_at = some 6;
}

scan-ReadBack_example :
    (ReadBack (scan_user driver) stored_user get_user_by_id_columns user
      × ReadBack (scan_user driver) stored_user get_user_by_email_columns user
      × ReadBack (scan_user driver) stored_user me_columns user)
    × (ReadBack (scan_session driver) stored_session get_by_refresh_token_hash_columns session
        × ReadBack (scan_session driver) stored_session list_active_by_user_id_columns session
        × ReadBack (scan_session driver) stored_session list_session_columns session)
    × (ReadBack (scan_device driver) stored_device get_device_by_id_columns device
        × ReadBack (scan_device driver) stored_device get_device_by_fingerprint_columns device
        × ReadBack (scan_device driver) stored_device list_active_device_by_user_id_columns device
        × ReadBack (scan_device driver) stored_device list_device_columns device)
    × (ReadBack (scan_address driver) stored_address get_address_by_id_columns address
        × ReadBack (scan_address driver) stored_address list_address_by_user_id_columns address
        × ReadBack (scan_address driver) stored_address list_address_columns address)
    × (ReadBack
        (scan_credential driver)
        stored_credential
        credential_get_by_user_id_columns
        credential)
    × (scanned (scan_by_device_id driver) (select get_by_device_id_columns (stored_session session))
        ≡ some (ok (unselected session)))
scan-ReadBack_example = scan-ReadBack driver driver-IsDriver user session device address credential
