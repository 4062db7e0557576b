-- ===== src/Tests/Addresses.antt =====
-- Addresses and devices of a user.
use bookstore_golang.Base.{
  ◌≡◌, refl, true, false, nat_eq, none, [], ◌∷◌, ◌++◌, ok, err, find, filter, arith, ℕ_discrete,
}
use bookstore_golang.Base.Text.{codes, ascii}
use bookstore_golang.Errors.{address_not_found}
use bookstore_golang.Database.{Db, World}
use bookstore_golang.Database.Tx.Atomic.{is_err}
use bookstore_golang.Identity.Entity.{Address, Device}
use bookstore_golang.Identity.Repo.Address.{new_address_row}
use bookstore_golang.Identity.Addresses.{
  AddAddressCommand, UpdateAddressCommand, DeleteAddressCommand, new_address, add_address,
  update_address, delete_address,
}
use bookstore_golang.Identity.Addresses.Default.{is_default_of, cleared, add_address_default}
use bookstore_golang.Identity.Addresses.Owner.{update_delete_not_owner, delete_address_failure}
use bookstore_golang.Tests.Data.{store, world, context, two_sessions}

abbrev alices_home : AddAddressCommand
alices_home = record {
  user_id = 2;
  recipient_name = codes " Alice ";
  recipient_phone = codes "0900";
  line1 = codes "1 Le Loi";
  line2 = [];
  province_code = codes "79";
  district_code = codes "760";
  ward_code = codes "26734";
  postal_code = [];
  country_code = codes "VN";
  is_default = true;
}

abbrev home_row : Address
home_row = new_address_row (new_address ascii alices_home) 20 8

abbrev alices_phone : Device
alices_phone = record {
  id = 3;
  user_id = 2;
  fingerprint = codes "f";
  label = codes "phone";
  first_seen_at = 50;
  last_seen_at = 50;
  revoked_at = none;
  revoked_reason = none;
  created_at = 50;
  updated_at = 50;
}

abbrev at_home : Db
at_home = record two_sessions { addresses = home_row ∷ []; devices = alices_phone ∷ [] }

abbrev home_world : World store
home_world = record (world []) { db = at_home }

add_address_default_example :
    let row = new_address_row (new_address ascii alices_home) 100 2 in
    let r = add_address ascii context alices_home home_world in
    (r.0 ≡ ok 2)
    × (r.1.db ≡ record at_home { addresses = cleared true 2 100 (home_row ∷ []) ++ (row ∷ []) })
    × (filter (is_default_of 2) r.1.db.addresses ≡ row ∷ [])
add_address_default_example = add_address_default ascii context alices_home home_world refl refl

-- The user 7 is another one.
abbrev update_of_other : UpdateAddressCommand
update_of_other = record { id = 8; fields = record alices_home { user_id = 7 } }

abbrev delete_of_other : DeleteAddressCommand
delete_of_other = record { id = 8; user_id = 7 }

abbrev delete_of_alice : DeleteAddressCommand
delete_of_alice = record { id = 8; user_id = 2 }

update_delete_not_owner_example :
    ((is_err (update_address ascii context update_of_other home_world).0 ≡ true)
      × ((update_address ascii context update_of_other home_world).1.db ≡ at_home))
    × ((is_err (delete_address context delete_of_other home_world).0 ≡ true)
        × ((delete_address context delete_of_other home_world).1.db ≡ at_home))
unfolding find ℕ_discrete
update_delete_not_owner_example =
    update_delete_not_owner ascii context update_of_other delete_of_other home_world refl refl
      (omega arith) refl (omega arith)

abbrev failing_world : World store
failing_world = record (world (false ∷ true ∷ [])) { db = at_home }

delete_address_failure_example :
    ((delete_address context delete_of_alice failing_world).0 ≡ err address_not_found)
    × ((delete_address context delete_of_alice failing_world).1.db ≡ at_home)
unfolding find ℕ_discrete
delete_address_failure_example =
    delete_address_failure context delete_of_alice failing_world refl refl refl refl
