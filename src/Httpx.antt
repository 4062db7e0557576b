-- ===== src/Httpx.antt =====
-- internal/platform/httpx: the middlewares of every request, and the router that chains them. gin runs
-- a handler on a context; what stands behind a middleware is a parameter of it.
pub mod Headers
pub mod Cors
pub mod Legacy
pub mod Router
use bookstore_golang.Base.{
  ℕ, suc, Bool, true, false, Option, none, some, List, [], ◌∷◌, ◌++◌, ◌==◌, if◌then◌else◌,
}
use bookstore_golang.Base.Text.{Str, codes, str_eq}

-- The bodies of the answers, which are sent as JSON.
pub data Body : Type 0 where
  empty : Body
  success : ℕ → Str → Body
  failure : ℕ → Str → Str → Body
  coded : Str → Str → Body
  plain_error : Str → Body

pub record Request : Type 0 where
  pub method : Str
  pub header : Str → Str
  pub client_ip : Str

-- `gin.Context`: the request with the keys that were set on it, the answer so far, and the state that
-- the handlers work on. `draws` counts the random texts.
pub record Page (S : Type 0) : Type 0 where
  pub request : Request
  pub keys : List (Str × Str)
  pub request_id : Str
  pub status : ℕ
  pub headers : List (Str × Str)
  pub body : Body
  pub draws : ℕ
  pub app : S

-- A handler comes back, or panics.
pub data Exit : Type 0 where
  returned panicked : Exit

abbrev pub Handler : Type 0 → Type 0
Handler S = Page S → Exit × Page S

-- `Header().Set`
unfoldable pub set_header : Str → Str → List (Str × Str) → List (Str × Str)
set_header name value [] = (name, value) ∷ []
set_header name value ((n, v) ∷ l) =
    if n == name then (name, value) ∷ l else (n, v) ∷ set_header name value l

unfoldable pub get_header : Str → List (Str × Str) → Str
get_header name [] = []
get_header name ((n, v) ∷ l) = if n == name then v else get_header name l

module _ {S : Type 0} where
  abbrev pub header : Str → Str → Page S → Page S
  header name value c = record c { headers = set_header name value c.headers }

  -- `AbortWithStatusJSON`: what stands behind is not called.
  abbrev pub abort_with : ℕ → Body → Handler S
  abort_with status body c = (returned, record c { status = status; body = body })

  -- `Success` and `Error` of response.go
  unfoldable pub success_response : ℕ → Str → Handler S
  success_response status message c =
      (returned, record c { status = status; body = success status message })

  unfoldable pub error_response : ℕ → Str → Str → Handler S
  error_response status message error = abort_with status (failure status message error)

  abbrev pub chosen_id : (ℕ → Str) → Page S → Str
  chosen_id uuid c =
      let id = c.request.header (codes "X-Request-ID") in if id == [] then uuid c.draws else id

  abbrev pub identified : Str → Page S → Page S
  identified id c =
      header (codes "X-Request-ID") id (record c {
        keys = (codes "request_id", id) ∷ c.keys;
        request_id = id;
        draws = suc c.draws;
      })

  unfoldable pub request_id_middleware : (ℕ → Str) → Handler S → Handler S
  unfolding set_header
  request_id_middleware uuid next c = next (identified (chosen_id uuid c) c)

  abbrev pub recovered : Exit × Page S → Exit × Page S
  recovered (returned, c) = (returned, c)
  recovered (panicked, c) =
      abort_with 500 (coded (codes "INTERNAL_ERROR") (codes "internal server error")) c

  -- gin's `CustomRecovery` with the program's answer
  unfoldable pub recovery_middleware : Handler S → Handler S
  recovery_middleware next c = recovered (next c)

  -- A line of the log on each request.
  unfoldable pub logger_middleware : Handler S → Handler S
  logger_middleware next c = next c
