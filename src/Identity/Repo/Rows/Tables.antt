-- ===== src/Identity/Repo/Rows/Tables.antt =====
-- The columns of the tables of migrations/, and the SELECT lists of the repositories of
-- internal/modules/identity/infra/postgres. A column that may be null and is scanned into a plain
-- destination holds a value in the stored rows.
use bookstore_golang.Base.{◌==◌, Option, none, some, List, [], ◌∷◌, ◌++◌, if◌then◌else◌}
use bookstore_golang.Base.Text.{Str, codes, str_eq}
use bookstore_golang.Config.Sections.{split}
use bookstore_golang.Identity.Repo.Rows.{
  Value, null, bigint, text, boolean, timestamptz, jsonb, UserRow, SessionRow, DeviceRow,
  AddressRow, CredentialRow,
}

-- A row of a table, by the names of its columns.
abbrev pub Stored : Type 0 → Type 0
Stored J = List (Str × Value J)

abbrev pub or_null : {J A : Type 0} → (A → Value J) → Option A → Value J
or_null f none = null
or_null f (some a) = f a

unfoldable pub stored_user : {J : Type 0} → UserRow J → Stored J
stored_user r =
    (codes "id", bigint r.id)
    ∷ (codes "email", text r.email)
    ∷ (codes "full_name", text r.full_name)
    ∷ (codes "phone", or_null text r.phone)
    ∷ (codes "user_type", text r.user_type)
    ∷ (codes "account_status", text r.status)
    ∷ (codes "email_verified_at", or_null timestamptz r.email_verified_at)
    ∷ (codes "last_login_at", or_null timestamptz r.last_login_at)
    ∷ (codes "locked_reason", or_null text r.locked_reason)
    ∷ (codes "metadata", jsonb r.metadata)
    ∷ (codes "version", bigint r.version)
    ∷ (codes "created_at", timestamptz r.created_at)
    ∷ (codes "updated_at", timestamptz r.updated_at)
    ∷ []

unfoldable pub stored_session : {J : Type 0} → SessionRow → Stored J
stored_session r =
    (codes "id", bigint r.id)
    ∷ (codes "user_id", bigint r.user_id)
    ∷ (codes "device_id", bigint r.device_id)
    ∷ (codes "refresh_token_hash", text r.refresh_token_hash)
    ∷ (codes "session_status", text r.session_status)
    ∷ (codes "expires_at", timestamptz r.expired_at)
    ∷ (codes "ip_address", or_null text r.ip_address)
    ∷ (codes "user_agent", text r.user_agent)
    ∷ (codes "last_seen_at", timestamptz r.last_seen_at)
    ∷ (codes "revoked_at", or_null timestamptz r.revoked_at)
    ∷ (codes "revoked_reason", or_null text r.revoked_reason)
    ∷ (codes "created_at", timestamptz r.created_at)
    ∷ (codes "updated_at", timestamptz r.updated_at)
    ∷ []

unfoldable pub stored_device : {J : Type 0} → DeviceRow J → Stored J
stored_device r =
    (codes "id", bigint r.id)
    ∷ (codes "user_id", bigint r.user_id)
    ∷ (codes "fingerprint_hash", text r.fingerprint)
    ∷ (codes "device_label", text r.label)
    ∷ (codes "first_seen_at", timestamptz r.first_seen_at)
    ∷ (codes "last_seen_at", timestamptz r.last_seen_at)
    ∷ (codes "revoked_at", or_null timestamptz r.revoked_at)
    ∷ (codes "revoked_reason", or_null text r.revoked_reason)
    ∷ (codes "metadata", jsonb r.metadata)
    ∷ (codes "created_at", timestamptz r.created_at)
    ∷ (codes "updated_at", timestamptz r.updated_at)
    ∷ []

unfoldable pub stored_address : {J : Type 0} → AddressRow → Stored J
stored_address r =
    (codes "id", bigint r.id)
    ∷ (codes "user_id", bigint r.user_id)
    ∷ (codes "recipient_name", text r.recipient_name)
    ∷ (codes "recipient_phone", text r.recipient_phone)
    ∷ (codes "address_line1", text r.line1)
    ∷ (codes "address_line2", text r.line2)
    ∷ (codes "province_code", text r.province)
    ∷ (codes "district_code", text r.district)
    ∷ (codes "ward_code", text r.ward)
    ∷ (codes "postal_code", text r.postal_code)
    ∷ (codes "country_code", text r.country_code)
    ∷ (codes "is_default", boolean r.is_default)
    ∷ (codes "version", bigint r.version)
    ∷ (codes "created_at", timestamptz r.created_at)
    ∷ (codes "updated_at", timestamptz r.updated_at)
    ∷ []

unfoldable pub stored_credential : {J : Type 0} → CredentialRow → Stored J
stored_credential r =
    (codes "user_id", bigint r.user_id)
    ∷ (codes "password_hash", text r.password_hash)
    ∷ (codes "password_algo", text r.password_algo)
    ∷ (codes "password_changed_at", timestamptz r.password_changed_at)
    ∷ (codes "failed_login_count", bigint r.failed_login_count)
    ∷ (codes "last_failed_login_at", or_null timestamptz r.last_failed_login_at)
    ∷ []

abbrev column_named : {J : Type 0} → Str → Stored J → Option (Value J)
column_named name [] = none
column_named name ((other, v) ∷ r) = if other == name then some v else column_named name r

abbrev added : {J : Type 0} → Option (Value J) → Option (List (Value J)) → Option (List (Value J))
added none vs = none
added (some v) none = none
added (some v) (some vs) = some (v ∷ vs)

-- What a SELECT of these columns gives; a column that the table has not is an error.
unfoldable pub select : {J : Type 0} → List Str → Stored J → Option (List (Value J))
select [] r = some []
select (name ∷ names) r = added (column_named name r) (select names r)

-- The SELECT lists, without the blanks between the names.
unfoldable pub get_user_by_id_columns : List Str
unfolding split
get_user_by_id_columns = split b',' (
    codes "id,email,full_name,phone,user_type,account_status,email_verified_at,"
    ++ (codes "last_login_at,locked_reason,metadata,version,created_at,updated_at"))

unfoldable pub get_user_by_email_columns : List Str
unfolding split
get_user_by_email_columns = split b',' (
    codes "id,email,full_name,phone,user_type,account_status,email_verified_at,"
    ++ (codes "last_login_at,locked_reason,metadata,version,created_at,updated_at"))

unfoldable pub me_columns : List Str
unfolding split
me_columns = split b',' (
    codes "id,email,full_name,phone,user_type,account_status,email_verified_at,"
    ++ (codes "last_login_at,locked_reason,metadata,version,created_at,updated_at"))

unfoldable pub get_by_refresh_token_hash_columns : List Str
unfolding split
get_by_refresh_token_hash_columns = split b',' (
    codes "id,user_id,device_id,refresh_token_hash,session_status,expires_at,"
    ++ (codes "ip_address,user_agent,last_seen_at,revoked_at,revoked_reason,"
        ++ (codes "created_at,updated_at")))

unfoldable pub list_active_by_user_id_columns : List Str
unfolding split
list_active_by_user_id_columns = split b',' (
    codes "id,user_id,device_id,refresh_token_hash,session_status,expires_at,"
    ++ (codes "ip_address,user_agent,last_seen_at,revoked_at,revoked_reason,"
        ++ (codes "created_at,updated_at")))

unfoldable pub list_session_columns : List Str
unfolding split
list_session_columns = split b',' (
    codes "id,user_id,device_id,refresh_token_hash,session_status,expires_at,"
    ++ (codes "ip_address,user_agent,last_seen_at,revoked_at,revoked_reason,"
        ++ (codes "created_at,updated_at")))

unfoldable pub get_by_device_id_columns : List Str
unfolding split
get_by_device_id_columns = split b',' (
    codes "id,user_id,device_id,refresh_token_hash,session_status,expires_at,"
    ++ (codes "ip_address,user_agent,last_seen_at"))

unfoldable pub get_device_by_id_columns : List Str
unfolding split
get_device_by_id_columns = split b',' (
    codes "id,user_id,fingerprint_hash,device_label,first_seen_at,last_seen_at,"
    ++ (codes "revoked_at,revoked_reason,metadata,created_at,updated_at"))

unfoldable pub get_device_by_fingerprint_columns : List Str
unfolding split
get_device_by_fingerprint_columns = split b',' (
    codes "id,user_id,fingerprint_hash,device_label,first_seen_at,last_seen_at,"
    ++ (codes "revoked_at,revoked_reason,metadata,created_at,updated_at"))

unfoldable pub list_active_device_by_user_id_columns : List Str
unfolding split
list_active_device_by_user_id_columns = split b',' (
    codes "id,user_id,fingerprint_hash,device_label,first_seen_at,last_seen_at,"
    ++ (codes "revoked_at,revoked_reason,metadata,created_at,updated_at"))

unfoldable pub list_device_columns : List Str
unfolding split
list_device_columns = split b',' (
    codes "id,user_id,fingerprint_hash,device_label,first_seen_at,last_seen_at,"
    ++ (codes "revoked_at,revoked_reason,metadata,created_at,updated_at"))

unfoldable pub get_address_by_id_columns : List Str
unfolding split
get_address_by_id_columns = split b',' (
    codes "id,user_id,recipient_name,recipient_phone,address_line1,address_line2,"
    ++ (codes "province_code,district_code,ward_code,postal_code,country_code,"
        ++ (codes "is_default,version,created_at,updated_at")))

unfoldable pub list_address_by_user_id_columns : List Str
unfolding split
list_address_by_user_id_columns = split b',' (
    codes "id,user_id,recipient_name,recipient_phone,address_line1,address_line2,"
    ++ (codes "province_code,district_code,ward_code,postal_code,country_code,"
        ++ (codes "is_default,version,created_at,updated_at")))

unfoldable pub list_address_columns : List Str
unfolding split
list_address_columns = split b',' (
    codes "id,user_id,recipient_name,recipient_phone,address_line1,address_line2,"
    ++ (codes "province_code,district_code,ward_code,postal_code,country_code,"
        ++ (codes "is_default,version,created_at,updated_at")))

unfoldable pub credential_get_by_user_id_columns : List Str
unfolding split
credential_get_by_user_id_columns = split b',' (
    codes "user_id,password_hash,password_algo,password_changed_at,"
    ++ (codes "failed_login_count,last_failed_login_at"))
