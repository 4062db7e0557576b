-- ===== src/Identity/Repo/Device.antt =====
-- internal/modules/identity/infra/postgres/device_repo.go. `user_devices` is UNIQUE on
-- (user_id, fingerprint_hash); its trigger sets updated_at.
use bookstore_golang.Base.{
  ℕ, Bool, not, ◌&&◌, Option, none, some, List, [], ◌∷◌, ◌++◌, ◌==◌, nat_eq, Result, ok, err,
  Action, filter, find, update, order_desc,
}
use bookstore_golang.Base.Text.{Str, str_eq}
use bookstore_golang.Errors.{Error, db_failed}
use bookstore_golang.Platform.Redis.{Redis}
use bookstore_golang.Database.{Context, World, Db, Statement, execute}
use bookstore_golang.Identity.Entity.{Device, is_some}

-- `entity.Device{}`
abbrev pub zero_device : Device
zero_device = record {
  id = 0;
  user_id = 0;
  fingerprint = [];
  label = [];
  first_seen_at = 0;
  last_seen_at = 0;
  revoked_at = none;
  revoked_reason = none;
  created_at = 0;
  updated_at = 0;
}

abbrev pub has_print : ℕ → Str → Device → Bool
has_print user_id fingerprint r = r.user_id == user_id && r.fingerprint == fingerprint

-- A device that is not there is passed on as `pgx.ErrNoRows`.
unfoldable pub query_get_device_by_id : ℕ → Statement Device
query_get_device_by_id device_id now id d =
    (elim (find (λ r. r.id == device_id) d.devices) [ none ↦ err db_failed | some r ↦ ok r ], d)

-- A `*entity.Device`, which may be nil. For a device that is not there the code returns a pointer to
-- the zero device.
unfoldable pub query_get_device_by_fingerprint : ℕ → Str → Statement (Option Device)
query_get_device_by_fingerprint user_id fingerprint now id d = (
  elim (find (has_print user_id fingerprint) d.devices) [
    | none ↦ ok (some zero_device)
    | some r ↦ ok (some r)
  ],
  d,
)

unfoldable pub query_list_active_device_by_user_id : ℕ → Statement (List Device)
query_list_active_device_by_user_id user_id now id d = (
  ok (
      order_desc (λ r. r.last_seen_at)
        (filter (λ r. r.user_id == user_id && not (is_some r.revoked_at)) d.devices)),
  d,
)

abbrev pub seen_row : Device → ℕ → Device → Device
seen_row device now r = record r {
  label = device.label;
  last_seen_at = device.last_seen_at;
  revoked_at = none;
  updated_at = now;
}

abbrev pub new_device_row : Device → ℕ → ℕ → Device
new_device_row device now id = record device {
  id = id;
  revoked_reason = none;
  created_at = now;
  updated_at = now;
}

-- `RETURNING id, first_seen_at` is scanned into `ID` and `LastSeenAt`.
abbrev returned : Device → Device → Device
returned device row = record device { id = row.id; last_seen_at = row.first_seen_at }

abbrev pub upsert_on_conflict : Device → ℕ → ℕ → Db → Option Device → Result Error Device × Db
upsert_on_conflict device now id d none =
    let row = new_device_row device now id in
    (ok (returned device row), record d { devices = d.devices ++ (row ∷ []) })
upsert_on_conflict device now id d (some old) = (
  ok (returned device old),
  record d {
    devices = update (has_print device.user_id device.fingerprint) (seen_row device now) d.devices;
  },
)

unfoldable pub query_upsert_device : Device → Statement Device
query_upsert_device device now id d =
    upsert_on_conflict device now id d
      (find (has_print device.user_id device.fingerprint) d.devices)

abbrev or_time : Option ℕ → ℕ → Option ℕ
or_time none t = some t
or_time (some s) t = some s

-- `COALESCE(revoked_at, $2)`
unfoldable pub query_revoke_device : ℕ → ℕ → Statement (Unit {0})
query_revoke_device device_id revoked_at now id d = (
  ok tt,
  record d {
    devices =
        update (λ r. r.id == device_id)
          (λ r. record r { revoked_at = or_time r.revoked_at revoked_at; updated_at = now })
          d.devices;
  },
)

-- The methods of `DeviceRepository`: each runs its statement on the context's executor.
module _ {V : Type 0} {R : Redis V} (c : Context) where
  abbrev pub get_by_id : ℕ → Action (World R) Error Device
  get_by_id device_id = execute c (query_get_device_by_id device_id)

  abbrev pub get_by_fingerprint : ℕ → Str → Action (World R) Error (Option Device)
  get_by_fingerprint user_id fingerprint =
      execute c (query_get_device_by_fingerprint user_id fingerprint)

  abbrev pub list_active_by_user_id : ℕ → Action (World R) Error (List Device)
  list_active_by_user_id user_id = execute c (query_list_active_device_by_user_id user_id)

  abbrev pub upsert : Device → Action (World R) Error Device
  upsert device = execute c (query_upsert_device device)

  abbrev pub revoke : ℕ → ℕ → Action (World R) Error (Unit {0})
  revoke device_id revoked_at = execute c (query_revoke_device device_id revoked_at)
