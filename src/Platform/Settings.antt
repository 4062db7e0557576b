-- ===== src/Platform/Settings.antt =====
-- internal/platform/redis/config.go, client.go and redis.go: the settings of the Redis client. What
-- go-redis makes of them is not modelled.
use bookstore_golang.Base.{nat_eq, List, [], ◌∷◌, ◌++◌, ◌==◌, if◌then◌else◌}
use bookstore_golang.Base.Int.{ℤ, pos, negsuc}
use bookstore_golang.Base.Text.{Str, codes, str_eq}

pub record Config : Type 0 where
  pub addr : Str
  pub username : Str
  pub password : Str
  pub db : ℤ
  pub key_prefix : Str
  pub dial_timeout : ℤ
  pub read_timeout : ℤ
  pub write_timeout : ℤ
  pub pool_size : ℤ
  pub min_idle_conns : ℤ

-- `if c.X <= 0 { c.X = def }`
unfoldable pub or_positive : ℤ → ℤ → ℤ
or_positive def (pos n) = if n == 0 then def else pos n
or_positive def (negsuc n) = def

abbrev pub or_text : Str → Str → Str
or_text def s = if s == [] then def else s

unfoldable pub with_defaults : Config → Config
unfolding or_positive
with_defaults c = record c {
  addr = or_text (codes "127.0.0.1:6379") c.addr;
  key_prefix = or_text (codes "app") c.key_prefix;
  dial_timeout = or_positive (pos 3000000000) c.dial_timeout;
  read_timeout = or_positive (pos 2000000000) c.read_timeout;
  write_timeout = or_positive (pos 2000000000) c.write_timeout;
  pool_size = or_positive (pos 20) c.pool_size;
}

-- `Key`
unfoldable pub key : List Str → Str
key [] = []
key (p ∷ []) = p
key (p ∷ q ∷ parts) = p ++ (codes ":" ++ key (q ∷ parts))
