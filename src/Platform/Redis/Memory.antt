-- ===== src/Platform/Redis/Memory.antt =====
-- A key space in memory, which shows that the assumptions on Redis can be met.
use bookstore_golang.Base.{
  ℕ, ◌+◌, refl, Option, none, some, ◌==◌, nat_eq, ltb, if◌then◌else◌, arith,
}
use bookstore_golang.Base.Text.{Str, str_eq}
use bookstore_golang.Platform.Redis.{Redis, IsRedis, Codec, IsCodec}

abbrev live : {V : Type 0} → ℕ → Option (V × Option ℕ) → Option V
live now none = none
live now (some (v, none)) = some v
live now (some (v, some expires_at)) = if ltb now expires_at then some v else none

abbrev pub memory : (V : Type 0) → Redis V
memory V = record {
  State = Str → Option (V × Option ℕ);
  get = λ s now k. live now (s k);
  set = λ s now k v ttl j.
      if j == k then some (v, if ttl == 0 then none else some (now + ttl)) else s j;
  del = λ s k j. if j == k then none else s j;
}

pub memory-IsRedis : (V : Type 0) → IsRedis (memory V)
memory-IsRedis V = record {
  get-set = λ s now k v ttl later j. ground arith;
  get-del = λ s later k j. ground arith;
}

abbrev pub plain : (V : Type 0) → Codec V V
plain V = record { encode = λ v. v; decode = λ v. some v }

pub plain-IsCodec : (V : Type 0) → IsCodec (plain V)
plain-IsCodec V = record { decode-encode = λ v. refl }
