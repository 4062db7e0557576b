-- ===== src/Platform/Keys.antt =====
-- internal/platform/redis/keys.go. An id is printed by package fmt. `Hash`, SHA-256 of the standard
-- library in hexadecimal digits, is not modelled.
pub mod Apart
use bookstore_golang.Base.{ℕ, List, [], ◌∷◌, ◌++◌, ◌==◌, if◌then◌else◌}
use bookstore_golang.Base.Text.{Str, codes, str_eq, Unicode, trim}

pub record KeyBuilder : Type 0 where
  pub prefix : Str

-- Each text after a colon.
unfoldable pub after_colons : List Str → Str
after_colons [] = []
after_colons (p ∷ ps) = b':' ∷ (p ++ after_colons ps)

module _ (u : Unicode) where
  unfoldable pub new_key_builder : Str → KeyBuilder
  new_key_builder prefix =
      if trim u prefix == [] then record { prefix = codes "app" } else record { prefix = prefix }

  unfoldable pub kept_parts : List Str → List Str
  kept_parts [] = []
  kept_parts (p ∷ ps) = let rest = kept_parts ps in if trim u p == [] then rest else trim u p ∷ rest

  -- `KeyBuilder.join`
  unfoldable pub join : KeyBuilder → List Str → Str
  join b parts = b.prefix ++ after_colons (kept_parts parts)

  module _ (sprint : ℕ → Str) (b : KeyBuilder) where
    unfoldable pub catalog_list_key : Str → Str
    catalog_list_key hash = join b (codes "catalog_list" ∷ hash ∷ [])

    unfoldable pub book_detail_key : Str → Str
    book_detail_key book_id = join b (codes "book_detail" ∷ book_id ∷ [])

    unfoldable pub search_books_key : Str → Str
    search_books_key hash = join b (codes "search_books" ∷ hash ∷ [])

    unfoldable pub cart_key : ℕ → Str
    cart_key user_id = join b (codes "cart" ∷ sprint user_id ∷ [])

    unfoldable pub session_key : Str → Str
    session_key session_id = join b (codes "session" ∷ session_id ∷ [])

    unfoldable pub user_sessions_key : ℕ → Str
    user_sessions_key user_id = join b (codes "user_sessions" ∷ sprint user_id ∷ [])

    unfoldable pub device_key : ℕ → ℕ → Str
    device_key user_id device_id = join b (codes "device" ∷ sprint user_id ∷ sprint device_id ∷ [])

    unfoldable pub idempotency_key : Str → Str → Str
    idempotency_key scope key = join b (codes "idempotency" ∷ scope ∷ key ∷ [])

    unfoldable pub lock_key : Str → Str
    lock_key resource = join b (codes "lock" ∷ resource ∷ [])

    unfoldable pub quota_download_key : ℕ → ℕ → Str
    quota_download_key user_id book_id =
        join b (codes "quota" ∷ codes "download" ∷ sprint user_id ∷ sprint book_id ∷ [])

    unfoldable pub rate_key : Str → Str → Str
    rate_key scope subject = join b (codes "rate" ∷ scope ∷ subject ∷ [])

    unfoldable pub job_dedup_key : Str → Str → Str
    job_dedup_key job_type biz_key = join b (codes "job_dedup" ∷ job_type ∷ biz_key ∷ [])

    unfoldable pub download_token_key : Str → Str
    download_token_key token_id = join b (codes "dl_token" ∷ token_id ∷ [])

    unfoldable pub hold_key : ℕ → Str
    hold_key order_id = join b (codes "hold" ∷ sprint order_id ∷ [])
