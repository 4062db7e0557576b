-- ===== src/Identity/Http/Profiles/Routes.antt =====
-- The handlers on the paths that the router gives them.
use bookstore_golang.Base.{ℕ, ◌≡◌, refl, Option, none, some, [], ℕ_discrete}
use bookstore_golang.Base.Text.{Str, codes, str_eq, Str-discrete}
use bookstore_golang.Identity.Http.Middleware.{AuthContext}
use bookstore_golang.Identity.Http.Handlers.{failure, AddressRequest, param}
use bookstore_golang.Identity.Http.Profiles.{
  AddressUseCase, ProfileUseCase, address_params, device_params, handle_update_address,
  handle_delete_address, handle_revoke_device,
}

module _ {W L M S D : Type 0} (parse_int : Str → Option ℕ) (addresses : AddressUseCase W L)
    (profile : ProfileUseCase W M S D) where
  -- If the empty text is read as no number, every authenticated request to the paths of the router
  -- for the update and the delete of an address and the revocation of a device is answered with
  -- the status 400, whatever the id in the path and the body, and no service is called.
  pub routes_refused :
      (ac : AuthContext) (value : Str) (body : Option AddressRequest) (w : W)
      → parse_int [] ≡ none
      → (handle_update_address parse_int addresses (some ac) (address_params value) body w
          ≡ (failure 400 (codes "INVALID_ADDRESS_ID"), w))
        × (handle_delete_address parse_int addresses (some ac) (address_params value) w
            ≡ (failure 400 (codes "INVALID_ADDRESS_ID"), w))
        × (handle_revoke_device parse_int profile (some ac) (device_params value) w
            ≡ (failure 400 (codes "INVALID_DEVICE_ID"), w))
  unfolding handle_update_address handle_delete_address handle_revoke_device param Str-discrete
      ℕ_discrete
  routes_refused ac value body w empty = (rw empty refl, rw empty refl, rw empty refl)
