-- ===== src/Api/RateLimiter.antt =====
-- api/security_middleware.go: `authRateLimiter`. The mutex makes each call of `Allow` one step.
-- Times are counted from a fixed instant, in the unit of the window.
pub mod Refinement
pub mod Bound
pub mod Full
mod Tests
use legacy_store.Base.{
  ℕ, ◌+◌, Bool, true, false, not, List, [], Option, none, some, Text, length, leb, ltb,
  if◌then◌else◌,
}
use legacy_store.Base.Dict.{lookup, insert, keep}

pub record RateBucket : Type 0 where
  pub count : ℕ
  pub reset_time : ℕ

pub record Limiter : Type 0 where
  pub buckets : List (Text × RateBucket)
  pub limit : ℕ
  pub window : ℕ

unfoldable pub new_limiter : ℕ → ℕ → Limiter
new_limiter limit window = record { buckets = []; limit = limit; window = window }

abbrev pub is_live : ℕ → RateBucket → Bool
is_live now b = ltb now b.reset_time

abbrev pub fresh : Limiter → ℕ → RateBucket
fresh l now = record { count = 1; reset_time = now + l.window }

-- The sweep at the end of `Allow`.
pub sweep : ℕ → List (Text × RateBucket) → List (Text × RateBucket)
sweep now buckets = if ltb 4096 (length buckets) then keep (is_live now) buckets else buckets

open_bucket : Limiter → Text → ℕ → Limiter × Bool
open_bucket l key now = (record l { buckets = insert key (fresh l now) l.buckets }, true)

use_bucket : Limiter → Text → ℕ → RateBucket → Limiter × Bool
use_bucket l key now b = if leb l.limit b.count then (l, false) else (
  record l { buckets = sweep now (insert key (record b { count = b.count + 1 }) l.buckets) },
  true,
)

allow_at : Limiter → Text → ℕ → Option RateBucket → Limiter × Bool
unfolding open_bucket use_bucket
allow_at l key now none = open_bucket l key now
allow_at l key now (some b) =
    if not (is_live now b) then open_bucket l key now else use_bucket l key now b

-- `Allow`
pub allow : Limiter → Text → ℕ → Limiter × Bool
unfolding allow_at
allow l key now = allow_at l key now (lookup key l.buckets)
