-- ===== src/Tests/Http.antt =====
-- The middlewares and the handlers of the identity module.
use bookstore_golang.Base.{
  ℕ, ◌≢◌, ◌≡◌, refl, Option, some, none, [], ◌∷◌, ◌==◌, nat_eq, ok, arith, ℕ_discrete,
}
use bookstore_golang.Base.Text.{Str, codes, str_eq, Str-discrete, trim}
use bookstore_golang.Platform.Redis.{call, redis_get, redis_set}
use bookstore_golang.Platform.Redis.Memory.{memory-IsRedis}
use bookstore_golang.Database.{World, on_redis}
use bookstore_golang.Identity.Library.{Library, Claims}
use bookstore_golang.Identity.Tokens.{access_type, validate_access_token, parse_token}
use bookstore_golang.Identity.Blacklist.{add_to_blacklist, is_token_blacklisted}
use bookstore_golang.Identity.Http.Middleware.{
  AuthContext, Reply, handed_on, HeaderLibrary, split_space, auth_middleware,
  strict_auth_middleware,
}
use bookstore_golang.Identity.Http.Middleware.Revoked.{auth-strict_auth}
use bookstore_golang.Identity.Http.Handlers.{failure}
use bookstore_golang.Identity.Http.Profiles.{
  AddressUseCase, ProfileUseCase, address_params, device_params, handle_update_address,
  handle_delete_address, handle_revoke_device,
}
use bookstore_golang.Identity.Http.Profiles.Routes.{routes_refused}
use bookstore_golang.Tests.Data.{Value, library, store, world}

abbrev claims : Claims
claims = record {
  user_id = 2;
  email = [];
  role = [];
  type = access_type;
  session_id = codes "4";
  device_id = codes "3";
  jti = codes "j2";
  expires_at = 200;
  issued_at = 100;
}

abbrev signing : Library Value
signing = record library { parse_with_claims = λ now s. some claims }

abbrev headers : HeaderLibrary
headers = record { equal_fold = λ s t. s == t; parse_int = λ s. 4 }

abbrev answer : AuthContext → World store → Reply ℕ × World store
answer ac w = (handed_on ac.user_id, w)

auth-strict_auth_example :
    (scheme : Str) × (token : Str) × (claims' : Claims) × (split_space (codes "Bearer t")
      ≡ some (scheme, token))
    × (signing.parse_with_claims 105 (trim signing.unicode token) ≡ some claims')
    × (claims'.type ≡ access_type)
    × (claims'.jti ≢ [])
    × (claims'.jti ≢ codes "j1")
unfolding auth_middleware strict_auth_middleware split_space validate_access_token parse_token
    add_to_blacklist is_token_blacklisted on_redis redis_get redis_set call trim Str-discrete
    ℕ_discrete
auth-strict_auth_example =
    auth-strict_auth store (memory-IsRedis Value) signing headers answer (Value.user 0) (codes "j1")
      (codes "Bearer t") 50 105 (world []) refl (omega arith) refl

abbrev addresses : AddressUseCase ℕ ℕ
addresses = record {
  add_address = λ cmd n. (ok 1, n);
  update_address = λ cmd n. (ok tt, 7);
  delete_address = λ cmd n. (ok tt, 7);
  list_addresses = λ id n. (ok 0, n);
}

abbrev profile : ProfileUseCase ℕ ℕ ℕ ℕ
profile = record {
  get_me = λ id n. (ok 0, n);
  list_sessions = λ id n. (ok 0, n);
  revoke_all_sessions = λ id n. (ok tt, 7);
  list_devices = λ id n. (ok 0, n);
  revoke_device = λ user id n. (ok tt, 7);
}

-- Decimals of one digit.
abbrev one_digit : Str → Option ℕ
one_digit [] = none
one_digit (c ∷ s) = some 1

abbrev alice : AuthContext
alice = record {
  user_id = 2;
  email = [];
  role = [];
  device_id = 3;
  session_id = 4;
  jti = codes "j2";
}

routes_refused_example :
    (handle_update_address one_digit addresses (some alice) (address_params (codes "1")) none 0
      ≡ (failure 400 (codes "INVALID_ADDRESS_ID"), 0))
    × (handle_delete_address one_digit addresses (some alice) (address_params (codes "1")) 0
        ≡ (failure 400 (codes "INVALID_ADDRESS_ID"), 0))
    × (handle_revoke_device one_digit profile (some alice) (device_params (codes "1")) 0
        ≡ (failure 400 (codes "INVALID_DEVICE_ID"), 0))
routes_refused_example = routes_refused one_digit addresses profile alice (codes "1") none 0 refl
