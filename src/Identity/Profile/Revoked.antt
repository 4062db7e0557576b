-- ===== src/Identity/Profile/Revoked.antt =====
-- What the revocation of a device leaves.
use bookstore_golang.Base.{
  ℕ, suc, ◌≤◌, ◌≡◌, refl, ◌∙◌, ap, true, false, ◌==◌, nat_eq, some, [], ok, find, arith,
}
use bookstore_golang.Platform.Redis.{Redis}
use bookstore_golang.Database.{Context, World, Db, execute, attempt}
use bookstore_golang.Database.Tx.Calm.{bind_ok, within_transaction_calm}
use bookstore_golang.Identity.Entity.{Device, device_assert_ownership}
use bookstore_golang.Identity.Auth.{lift}
use bookstore_golang.Identity.Repo.Device.{query_get_device_by_id, query_revoke_device, get_by_id}
use bookstore_golang.Identity.Repo.Session.{
  query_revoke_all_by_user_id, query_list_active_by_user_id,
}
use bookstore_golang.Identity.Repo.Session.Revocation.{revoke_all-list_active}
use bookstore_golang.Identity.Profile.{profile_revoke_device, revoke_device_tx}

same :
    (device_id user_id at now id id' : ℕ) (d : Db)
    → (query_revoke_all_by_user_id user_id at now id
        (query_revoke_device device_id at now id' d).1).1.devices
      ≡ (query_revoke_device device_id at now id' d).1.devices
unfolding query_revoke_all_by_user_id
same device_id user_id at now id id' d = refl

owner_ok :
    (device : Device) (user_id : ℕ)
    → device.user_id ≡ user_id
    → device_assert_ownership device user_id ≡ ok tt
unfolding device_assert_ownership
owner_ok device user_id h = ground arith

module _ {V : Type 0} {R : Redis V} where
  revoke_device_tx_ok :
      (user_id device_id now : ℕ) (c : Context) (w : World R) (d : Db)
      → c.in_tx ≡ true
      → w.faults ≡ []
      → w.open_tx ≡ some d
      → revoke_device_tx user_id device_id now c w ≡ (
        ok tt,
        record w {
          open_tx =
              some
                (query_revoke_all_by_user_id user_id now w.now
                  (suc w.ids)
                  (query_revoke_device device_id now w.now w.ids d).1).1;
          ids = suc (suc w.ids);
        },
      )
  unfolding revoke_device_tx execute attempt query_revoke_device query_revoke_all_by_user_id
  revoke_device_tx_ok user_id device_id now c w d inside calm opened = ground arith

  found_ok :
      (ctx : Context) (user_id device_id : ℕ) (w : World R) {device : Device}
      → ctx.in_tx ≡ false
      → w.faults ≡ []
      → find (λ r. r.id == device_id) w.db.devices ≡ some device
      → get_by_id ctx device_id w ≡ (ok device, record w { ids = suc w.ids })
  unfolding query_get_device_by_id execute attempt
  found_ok ctx user_id device_id w outer calm held = ground arith

  -- Outside a transaction, when no call fails, RevokeDevice of a device that the user owns returns
  -- no error, the devices are those after the revocation of the device, and no session of the
  -- user, on any device, is active from then on.
  profile_revoke_device_ok :
      (ctx : Context) (user_id device_id : ℕ) (w : World R) {device : Device}
      → ctx.in_tx ≡ false
      → w.faults ≡ []
      → find (λ r. r.id == device_id) w.db.devices ≡ some device
      → device.user_id ≡ user_id
      → (later : ℕ) → w.now ≤ later
      → let r = profile_revoke_device ctx user_id device_id w in
        (r.0 ≡ ok tt)
        × (r.1.db.devices ≡ (query_revoke_device device_id w.now w.now (suc w.ids) w.db).1.devices)
        × ((query_list_active_by_user_id user_id later 0 r.1.db).0 ≡ ok [])
  unfolding profile_revoke_device
  profile_revoke_device_ok ctx user_id device_id w {device} outer calm held owner later after =
      let w1 = record w { ids = suc w.ids } in
      let whole =
        bind_ok (get_by_id ctx device_id w) _ (found_ok ctx user_id device_id w outer calm held)
        ∙ bind_ok (lift (device_assert_ownership device user_id) w1) _
            (ap (λ r. (r, w1)) (owner_ok device user_id owner))
        ∙ within_transaction_calm ctx (revoke_device_tx user_id device_id w.now) w1 _ outer calm
            (revoke_device_tx_ok user_id device_id w.now (record ctx { in_tx = true })
              (record w1 { open_tx = some w.db }) w.db refl calm refl)
            calm refl in
      (
        ap (λ r. r.0) whole,
        ap (λ r. r.1.db.devices) whole
            ∙ same device_id user_id w.now w.now (suc (suc w.ids)) (suc w.ids) w.db,
        ap (λ r. (query_list_active_by_user_id user_id later 0 r.1.db).0) whole
            ∙ revoke_all-list_active user_id w.now w.now later (suc (suc w.ids)) 0
                (query_revoke_device device_id w.now w.now (suc w.ids) w.db).1 after,
      )
