-- ===== src/Platform/Counter/Memory.antt =====
-- Counters in memory, which show that the assumptions can be met.
use Prim.Native.Nat.{◌%◌}
use bookstore_golang.Base.{
  ℕ, suc, ◌+◌, ◌-◌, ◌*◌, ltb, ◌&&◌, Option, some, ◌==◌, ◌≡◌, if◌then◌else◌, arith,
}
use bookstore_golang.Base.Text.{Str, str_eq}
use bookstore_golang.Platform.Counter.{
  second, Count, Counters, IsCounters, lasting, incremented, expiring,
}

-- Down to whole seconds, and one second where there is less.
unfoldable pub whole_seconds : ℕ → ℕ
whole_seconds d = if ltb 0 d && ltb d second then second else d - d % second

whole_seconds_whole : (n : ℕ) → whole_seconds (suc n * second) ≡ suc n * second
unfolding whole_seconds
whole_seconds_whole n = ground arith

abbrev pub counters : Counters
counters = record {
  State = Str → Option Count;
  read = λ s now k. lasting now (s k);
  incr = λ s now k j. if j == k then some (incremented (lasting now (s k))) else s j;
  sent = whole_seconds;
  expire = λ s now k ttl j. if j == k then expiring (now + ttl) (lasting now (s k)) else s j;
}

pub counters-IsCounters : IsCounters counters
counters-IsCounters = record {
  read-incr = λ s now k later j. ground arith;
  sent_whole = whole_seconds_whole;
  read-expire = λ s now k ttl later j. ground arith;
}
