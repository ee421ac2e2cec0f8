-- ===== src/Shared/RateLimit.antt =====
-- `ValkeyTokenBucket` (src/shared/ratelimit/token_bucket.py): its Lua script over the hash of one
-- subject, and what `allow` answers. The script's numbers are doubles; here they are exact, and a
-- token is `unit` parts, so that a microsecond restores `refill` parts. The key's expiry is the
-- server's: an absent hash is `none`.
use scalable_ecommerce_backe.Prelude.{
  ℕ, ◌+◌, ◌-◌, ◌*◌, ◌/◌, ltb, leb, min, if◌then◌else◌, Bool, true, false, Option, none, some, List,
  [], ◌∷◌,
}
pub mod Bounds
mod Tests

-- `RateLimitConfig`
pub record Config : Type 0 where
  pub capacity : ℕ
  pub refill : ℕ
  pub period_seconds : ℕ

pub record Bucket : Type 0 where
  pub tokens : ℕ
  pub ts : ℕ

-- `BucketDecision`
pub record BucketDecision : Type 0 where
  pub allowed : Bool
  pub remaining : ℕ
  pub retry_after_seconds : ℕ

abbrev pub unit : Config → ℕ
unit c = c.period_seconds * 1000000

-- The least number whose product with b is not below a.
abbrev pub ceil_div : ℕ → ℕ → ℕ
ceil_div a b = (a + (b - 1)) / b

-- The bucket refilled: a fresh one is full, and a clock that ran backward refills nothing.
unfoldable pub refilled : Config → ℕ → Option Bucket → Bucket
refilled c now none = record { tokens = c.capacity * unit c; ts = now }
refilled c now (some b) =
    if ltb b.ts now
    then record {
      tokens = min (c.capacity * unit c) (b.tokens + (now - b.ts) * c.refill);
      ts = now;
    }
    else b

-- A wait of microseconds in whole seconds, at least one.
unfoldable pub retry_after : ℕ → ℕ
retry_after us = if leb 1 (ceil_div us 1000000) then ceil_div us 1000000 else 1

-- `wait` is what the script says of the tokens left, in microseconds: `math.ceil` of a quotient of
-- doubles, which is left to the caller.
unfoldable pub spend : (ℕ → ℕ) → Config → Bucket → BucketDecision × Bucket
spend wait c b =
    if leb (unit c) b.tokens
    then (
      record {
        allowed = true;
        remaining = (b.tokens - unit c) / unit c;
        retry_after_seconds = retry_after 0;
      },
      record b { tokens = b.tokens - unit c },
    )
    else (
      record {
        allowed = false;
        remaining = b.tokens / unit c;
        retry_after_seconds = retry_after (wait b.tokens);
      },
      b,
    )

-- `allow`
unfoldable pub allow : (ℕ → ℕ) → Config → ℕ → Option Bucket → BucketDecision × Bucket
unfolding spend
allow wait c now bucket = spend wait c (refilled c now bucket)

-- Calls one after the other, each at its own clock: how many are admitted, and the bucket after.
unfoldable pub serve : (ℕ → ℕ) → Config → List ℕ → Bucket → ℕ × Bucket
unfolding allow
serve wait c [] b = (0, b)
serve wait c (now ∷ later) b =
    let r = allow wait c now (some b) in
    let rest = serve wait c later r.1 in ((if r.0.allowed then rest.0 + 1 else rest.0), rest.1)
