-- ===== src/RateLimit/Tests.antt =====
-- Requests to a limiter of two requests a second and bursts of two, and the theorems about it.
use enterprise_llm_gateway.Prelude.{
  List, [], arith, codes, false, nat_eq, pair_eq, refl, some, text_eq, ℕ, ◌*◌, ◌%◌, ◌/◌, ◌+◌, ◌-◌,
  ◌∷◌, ◌≡◌, ◌≤◌,
}
use enterprise_llm_gateway.Prelude.Dict.{get, put}
use enterprise_llm_gateway.Prelude.Result.{err, ok}
use enterprise_llm_gateway.RateLimit.{
  RateLimitDecision, RateLimitPolicy, acquire, capacity, Floats, current, rate_limit_decision,
  refill, seconds_to_full, seconds_to_next_token, take_token, token,
}
use enterprise_llm_gateway.RateLimit.Bound.{Grows, granted, granted-bounded, times_of}
use enterprise_llm_gateway.RateLimit.Spends.{Ascend, IsNear}
use enterprise_llm_gateway.RateLimit.Degraded.{
  Falls, Limiter, LogTells, acquire-Falls, acquire_degraded, degraded_limiter, limiter_unavailable,
}

abbrev policy : RateLimitPolicy
policy = record { rate = 2; per = 1; burst = 2 }

-- What a refill adds is rounded up by a unit where the number of microseconds is odd.
abbrev rounded : Floats
rounded = record {
  scale = 1;
  accrued = λ tokens elapsed. tokens + elapsed * 2 + elapsed % 2;
  seconds = λ goal tokens. (goal - tokens + 1999999) / 2000000;
}

rounded-Grows : Grows rounded policy
rounded-Grows tokens elapsed = omega arith

rounded-IsNear : IsNear rounded policy 1
unfolding capacity
rounded-IsNear tokens elapsed = omega arith

abbrev requests : List (ℕ × ℕ)
requests = (0, 1) ∷ (0, 7) ∷ (100, 1) ∷ (200, 1) ∷ (600000, 1) ∷ []

three_granted : granted rounded policy 1 requests [] ≡ 3
unfolding granted acquire current refill take_token capacity get put rate_limit_decision
    seconds_to_full seconds_to_next_token
three_granted = refl

granted-bounded_example :
    granted rounded policy 1 requests [] * token rounded policy
    ≤ 2 * token rounded policy + (600000 - 0) * 2 + 4 * 1
unfolding Ascend times_of get
granted-bounded_example =
    granted-bounded rounded policy 1 1 0 600000 requests [] rounded-Grows rounded-IsNear refl
      (omega arith, (omega arith, (omega arith, (omega arith, omega arith))))

abbrev denial : RateLimitDecision
denial = record {
  allowed = false;
  limit = 2;
  remaining = 0;
  reset_seconds = 1;
  retry_after_seconds = some 1;
}

-- A shared limiter that is out, and a local one that denies.
abbrev out : Limiter ℕ
out org calls = (err (limiter_unavailable (codes "ConnectionError")), calls + 1)

abbrev denying : Limiter ℕ
denying org calls = (ok denial, calls + 1)

acquire-Falls_example :
    Falls out denying 1
      (degraded_limiter 0 0)
      (acquire_degraded out denying 1 (degraded_limiter 0 0))
unfolding LogTells
acquire-Falls_example = acquire-Falls out denying 1 (degraded_limiter 0 0) refl
