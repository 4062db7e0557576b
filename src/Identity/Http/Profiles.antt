-- ===== src/Identity/Http/Profiles.antt =====
-- internal/modules/identity/http/address_handler.go and profile_handler.go, with the paths of
-- router.go. `parse_int` is strconv.ParseInt, on the numbers that are not negative.
pub mod Routes
use bookstore_golang.Base.{ℕ, Option, none, some, List, [], ◌∷◌, Result, Action}
use bookstore_golang.Base.Text.{Str, codes}
use bookstore_golang.Errors.{Error}
use bookstore_golang.Identity.Addresses.{
  AddAddressCommand, UpdateAddressCommand, DeleteAddressCommand,
}
use bookstore_golang.Identity.Http.Middleware.{AuthContext}
use bookstore_golang.Identity.Http.Handlers.{
  Answer, failure, success, AddressRequest, respond, bind_json, with_context, with_id, param,
  positive, plain_success, write_address_error, write_profile_error,
}

-- `AddressUseCase` and `AddressQueryUseCase`
pub record AddressUseCase (W : Type 0) (L : Type 0) : Type 0 where
  pub add_address : AddAddressCommand → Action W Error ℕ
  pub update_address : UpdateAddressCommand → Action W Error (Unit {0})
  pub delete_address : DeleteAddressCommand → Action W Error (Unit {0})
  pub list_addresses : ℕ → Action W Error L

-- `ProfileUseCase`
pub record ProfileUseCase (W : Type 0) (M S D : Type 0) : Type 0 where
  pub get_me : ℕ → Action W Error M
  pub list_sessions : ℕ → Action W Error S
  pub revoke_all_sessions : ℕ → Action W Error (Unit {0})
  pub list_devices : ℕ → Action W Error D
  pub revoke_device : ℕ → ℕ → Action W Error (Unit {0})

-- `getAuthUser`
abbrev pub get_auth_user :
    {W B : Type 0} → Option AuthContext → (ℕ → W → Answer B × W) → W → Answer B × W
get_auth_user context k = with_context (codes "UNAUTHORIZED") context (λ ac. k ac.user_id)

abbrev pub command_of : ℕ → AddressRequest → AddAddressCommand
command_of user_id req = record {
  user_id = user_id;
  recipient_name = req.recipient_name;
  recipient_phone = req.recipient_phone;
  line1 = req.line1;
  line2 = req.line2;
  province_code = req.province_code;
  district_code = req.district_code;
  ward_code = req.ward_code;
  postal_code = req.postal_code;
  country_code = req.country_code;
  is_default = req.is_default;
}

abbrev found : {A : Type 0} → A → Answer A
found a = success 200 (codes "OK") a none

module _ {W L : Type 0} (parse_int : Str → Option ℕ) (uc : AddressUseCase W L) where
  unfoldable pub handle_list_addresses : Option AuthContext → W → Answer L × W
  handle_list_addresses context = get_auth_user context (λ user_id w.
      respond (write_address_error (codes "LIST_ADDRESSES_FAILED")) found
        (uc.list_addresses user_id w))

  unfoldable pub handle_add_address : Option AuthContext → Option AddressRequest → W → Answer ℕ × W
  handle_add_address context body = get_auth_user context (λ user_id. bind_json body (λ req w.
      respond (write_address_error (codes "ADD_ADDRESS_FAILED"))
        (λ id. success 201 (codes "ADDRESS_CREATED") id none)
        (uc.add_address (command_of user_id req) w)))

  -- The id of the path.
  abbrev pub address_id : List (Str × Str) → Option ℕ
  address_id params = positive (parse_int (param (codes "address_id") params))

  unfoldable pub handle_update_address :
      Option AuthContext → List (Str × Str) → Option AddressRequest → W → Answer (Unit {0}) × W
  unfolding param
  handle_update_address context params body = get_auth_user context (λ user_id.
      with_id (codes "INVALID_ADDRESS_ID") (address_id params) (λ id. bind_json body (λ req w.
        respond (write_address_error (codes "UPDATE_ADDRESS_FAILED"))
          (plain_success (codes "ADDRESS_UPDATED"))
          (uc.update_address (record { id = id; fields = command_of user_id req }) w))))

  unfoldable pub handle_delete_address :
      Option AuthContext → List (Str × Str) → W → Answer (Unit {0}) × W
  unfolding param
  handle_delete_address context params = get_auth_user context (λ user_id.
      with_id (codes "INVALID_ADDRESS_ID") (address_id params) (λ id w.
        respond (write_address_error (codes "DELETE_ADDRESS_FAILED"))
          (plain_success (codes "ADDRESS_DELETED"))
          (uc.delete_address (record { id = id; user_id = user_id }) w)))

module _ {W M S D : Type 0} (parse_int : Str → Option ℕ) (uc : ProfileUseCase W M S D) where
  unfoldable pub handle_get_me : Option AuthContext → W → Answer M × W
  handle_get_me context = get_auth_user context (λ user_id w.
      respond (write_profile_error (codes "GET_ME_FAILED")) found (uc.get_me user_id w))

  unfoldable pub handle_list_sessions : Option AuthContext → W → Answer S × W
  handle_list_sessions context = get_auth_user context (λ user_id w.
      respond (write_profile_error (codes "LIST_SESSIONS_FAILED")) found
        (uc.list_sessions user_id w))

  unfoldable pub handle_revoke_all_sessions : Option AuthContext → W → Answer (Unit {0}) × W
  handle_revoke_all_sessions context = get_auth_user context (λ user_id w.
      respond (write_profile_error (codes "REVOKE_ALL_SESSIONS_FAILED"))
        (plain_success (codes "OK")) (uc.revoke_all_sessions user_id w))

  unfoldable pub handle_list_devices : Option AuthContext → W → Answer D × W
  handle_list_devices context = get_auth_user context (λ user_id w.
      respond (write_profile_error (codes "LIST_DEVICES_FAILED")) found (uc.list_devices user_id w))

  abbrev pub device_id : List (Str × Str) → Option ℕ
  device_id params = positive (parse_int (param (codes "device_id") params))

  unfoldable pub handle_revoke_device :
      Option AuthContext → List (Str × Str) → W → Answer (Unit {0}) × W
  unfolding param
  handle_revoke_device context params = get_auth_user context (λ user_id.
      with_id (codes "INVALID_DEVICE_ID") (device_id params) (λ id w.
        respond (write_profile_error (codes "REVOKE_DEVICE_FAILED")) (plain_success (codes "OK"))
          (uc.revoke_device user_id id w)))

-- What gin reads from the path: "/addresses/:addressId" and "/devices/:deviceId" of router.go.
abbrev pub address_params : Str → List (Str × Str)
address_params value = (codes "addressId", value) ∷ []

abbrev pub device_params : Str → List (Str × Str)
device_params value = (codes "deviceId", value) ∷ []
