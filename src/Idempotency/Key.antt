-- ===== src/Idempotency/Key.antt =====
-- internal/platform/idempotency/key.go: scopes, keys and the Redis key made of them.
pub mod Normal
use bookstore_golang.Base.{ℕ, List, [], ◌∷◌, ◌++◌, map, ◌==◌, nat_eq, if◌then◌else◌}
use bookstore_golang.Base.Text.{Str, codes, Unicode, trim, lower}

abbrev pub default_redis_key_prefix : Str
default_redis_key_prefix = codes "idempotency:"

-- `strings.ReplaceAll(s, c, d)` for texts of one sign
abbrev pub replace_sign : ℕ → ℕ → ℕ → ℕ
replace_sign c d x = if x == c then d else x

abbrev pub replace_all : ℕ → ℕ → Str → Str
replace_all c d = map (replace_sign c d)

abbrev pub default_if_empty : Str → Str
default_if_empty [] = codes "default"
default_if_empty (c ∷ s) = c ∷ s

module _ (u : Unicode) where
  unfoldable pub normalize_scope : Str → Str
  normalize_scope scope =
      let s = trim u (lower u scope) in
      let s = replace_all b' ' b'_' s in
      let s = replace_all b'/' b'_' s in let s = replace_all b':' b'_' s in default_if_empty s

  unfoldable pub normalize_key : Str → Str
  normalize_key raw = trim u raw

  unfoldable pub build_key : Str → Str → Str
  build_key scope raw_key =
      default_redis_key_prefix ++ (normalize_scope scope ++ (b':' ∷ normalize_key raw_key))
