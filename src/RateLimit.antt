-- ===== src/RateLimit.antt =====
-- application/ports/rate_limit.py and adapters/ratelimit/in_memory_token_bucket.py: one token bucket
-- per organization. A float is a fraction: the rate is `rate / per` requests a second, and tokens are
-- counted in units of which one token has `per * 1000000 * scale`, so that every float that a bucket
-- can hold is a whole number of them. A time is a number of microseconds. What the floating-point
-- operations round to is a parameter; taking one token from a bucket that has it is exact.
pub mod Bound
pub mod Degraded
pub mod Spends
mod Tests
use enterprise_llm_gateway.Prelude.{
  Bool, Option, false, if◌then◌else◌, leb, max, min, nat_eq, none, pair_eq, some, text_eq, true, ℕ,
  ◌*◌, ◌+◌, ◌-◌, ◌/◌,
}
use enterprise_llm_gateway.Prelude.Dict.{Dict, get, put}
use enterprise_llm_gateway.Prelude.Int.{ltb_ℤ, pos, pos_part, ℤ}

pub record RateLimitPolicy : Type 0 where
  pub rate : ℕ
  pub per : ℕ
  pub burst : ℕ

-- `RateLimitPolicy(rate / (per + 1), burst)`: none is the ValueError.
unfoldable pub rate_limit_policy : ℤ → ℕ → ℤ → Option RateLimitPolicy
rate_limit_policy rate per burst =
    if ltb_ℤ (pos 0) rate
    then if ltb_ℤ burst (pos 1)
      then none
      else some (record { rate = pos_part rate; per = per + 1; burst = pos_part burst })
    else none

pub record RateLimitDecision : Type 0 where
  pub allowed : Bool
  pub limit : ℕ
  pub remaining : ℕ
  pub reset_seconds : ℕ
  pub retry_after_seconds : Option ℕ

-- `RateLimitDecision(…)`: none is either of its ValueErrors.
unfoldable pub rate_limit_decision : Bool → ℕ → ℕ → ℕ → Option ℕ → Option RateLimitDecision
rate_limit_decision true limit remaining reset (some seconds) = none
rate_limit_decision false limit remaining reset none = none
rate_limit_decision true limit remaining reset none = some (record {
  allowed = true;
  limit = limit;
  remaining = remaining;
  reset_seconds = reset;
  retry_after_seconds = none;
})
rate_limit_decision false limit remaining reset (some seconds) = some (record {
  allowed = false;
  limit = limit;
  remaining = remaining;
  reset_seconds = reset;
  retry_after_seconds = some seconds;
})

-- `_Bucket`
pub record Bucket : Type 0 where
  pub tokens : ℕ
  pub updated_at : ℕ

-- The floating-point arithmetic of a bucket: how fine its units are; `bucket.tokens + elapsed * rate`,
-- of the tokens and the microseconds elapsed; and `math.ceil((goal - bucket.tokens) / rate)`, of the
-- goal and the tokens.
pub record Floats : Type 0 where
  pub scale : ℕ
  pub accrued : ℕ → ℕ → ℕ
  pub seconds : ℕ → ℕ → ℕ

module _ (floats : Floats) (policy : RateLimitPolicy) where
  -- The units of one token, and of a full bucket.
  abbrev pub token : ℕ
  token = policy.per * 1000000 * floats.scale

  unfoldable pub capacity : ℕ
  capacity = policy.burst * token

  -- The units that an exact rate adds in a microsecond.
  abbrev pub flow : ℕ
  flow = policy.rate * floats.scale

  -- `_refill`: an interval that would be negative is 0.
  unfoldable pub refill : Bucket → ℕ → Bucket
  unfolding capacity
  refill b now = record {
    tokens = min capacity (floats.accrued b.tokens (now - b.updated_at));
    updated_at = now;
  }

  -- `_seconds_to_next_token`
  unfoldable pub seconds_to_next_token : Bucket → ℕ
  seconds_to_next_token b = max 1 (floats.seconds token b.tokens)

  -- `_seconds_to_full`
  unfoldable pub seconds_to_full : Bucket → ℕ
  unfolding capacity
  seconds_to_full b = if leb capacity b.tokens then 0 else max 1 (floats.seconds capacity b.tokens)

  -- The bucket that `acquire` works on: full for an organization seen for the first time.
  unfoldable pub current : ℕ → Option Bucket → Bucket
  unfolding refill capacity
  current now none = record { tokens = capacity; updated_at = now }
  current now (some b) = refill b now

  -- The decision on that bucket, and what is left of it.
  unfoldable pub take_token : Bucket → Option RateLimitDecision × Bucket
  unfolding seconds_to_full seconds_to_next_token rate_limit_decision
  take_token b =
      let left = record b { tokens = b.tokens - token } in
      if leb token b.tokens
      then (
        rate_limit_decision true policy.burst (left.tokens / token) (seconds_to_full left) none,
        left,
      )
      else (
        rate_limit_decision false policy.burst 0 (seconds_to_full b)
            (some (seconds_to_next_token b)),
        b,
      )

  -- `InMemoryTokenBucketRateLimiter.acquire`, with the clock's reading.
  unfoldable pub acquire : ℕ → ℕ → Dict ℕ Bucket → Option RateLimitDecision × Dict ℕ Bucket
  unfolding current take_token
  acquire now org buckets =
      let (decision, b) = take_token (current now (get org buckets)) in
      (decision, put org b buckets)
