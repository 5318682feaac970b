-- ===== src/Cache.antt =====
-- The reconnection of Redis (backend/src/cache/cache.module.ts): how long to wait before a further
-- attempt, in milliseconds, or none to give up.
use soro_lend.Prelude.{ℕ, ◌*◌, Option, none, some, ltb, leb, if◌then◌else◌}

-- `Math.min`
abbrev pub min : ℕ → ℕ → ℕ
min a b = if leb a b then a else b

unfoldable pub retry_strategy : ℕ → Option ℕ
retry_strategy times = if ltb 3 times then none else some (min (times * 200) 2000)
