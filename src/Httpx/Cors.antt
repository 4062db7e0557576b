-- ===== src/Httpx/Cors.antt =====
-- internal/platform/httpx/cors.go
pub mod Origins
use bookstore_golang.Base.{ℕ, Bool, true, false, List, [], ◌∷◌, ◌++◌, ◌==◌, if◌then◌else◌, any}
use bookstore_golang.Base.Text.{Str, codes, str_eq, Unicode, trim}
use bookstore_golang.Config.Others.{CorsConfig}
use bookstore_golang.Httpx.{Page, Handler, Body, empty, set_header, header, abort_with}

-- `strings.Join(l, ",")`
unfoldable pub join_commas : List Str → Str
join_commas [] = []
join_commas (s ∷ []) = s
join_commas (s ∷ t ∷ l) = s ++ (b',' ∷ join_commas (t ∷ l))

-- `strconv.FormatBool`
abbrev pub format_bool : Bool → Str
format_bool true = codes "true"
format_bool false = codes "false"

abbrev pub is_allowed : Unicode → List Str → Str → Bool
is_allowed u allowed origin = any (λ a. trim u a == origin) allowed

module _ {S : Type 0} (u : Unicode) (cfg : CorsConfig) where
  abbrev pub allow_headers : Str → Page S → Page S
  allow_headers origin c =
      header (codes "Access-Control-Allow-Credentials") (format_bool cfg.allow_credentials) (
        header (codes "Access-Control-Allow-Headers") (join_commas cfg.allowed_headers) (
          header (codes "Access-Control-Allow-Methods") (join_commas cfg.allowed_methods)
            (header (codes "Access-Control-Allow-Origin") origin c)))

  -- The page with the headers, where the loop finds the origin.
  abbrev pub mark_origin : Str → Page S → Page S
  mark_origin origin c =
      if is_allowed u cfg.allowed_origins origin then allow_headers origin c else c

  unfoldable pub cors_middleware : Handler S → Handler S
  unfolding any trim set_header join_commas
  cors_middleware next c =
      let origin = c.request.header (codes "Origin") in
      if origin == []
      then next c
      else if c.request.method == codes "OPTIONS"
      then abort_with 204 empty (mark_origin origin c)
      else next (mark_origin origin c)
