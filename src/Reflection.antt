-- ===== src/Reflection.antt =====
-- application/reflection/retry_policy.py and reflective_executor.py: which attempts are retried, how
-- many there are, and what a caller gets back. A backoff is a whole number of microseconds, as a
-- `timedelta` is.
pub mod Attempts
pub mod Charges
mod Tests
pub mod Transient
use enterprise_llm_gateway.Prelude.{
  Bool, List, Option, Text, [], codes, false, if◌then◌else◌, length, ltb, nat_eq, none, pair_eq,
  some, suc, text_eq, true, zero, ℕ, ◌*◌, ◌++◌, ◌+◌, ◌-◌, ◌^◌, ◌||◌, ◌∷◌,
}
use enterprise_llm_gateway.Prelude.Decimal.{decimal}
use enterprise_llm_gateway.Prelude.Int.{ltb_ℤ, pos, pos_part, ℤ}
use enterprise_llm_gateway.Prelude.Result.{Result, err, ok}
use enterprise_llm_gateway.Execution.{Failure, InferenceExecutionResult, execute}
use enterprise_llm_gateway.Ports.{
  ExecutionOutcome, InferenceRequest, ProviderErrorCategory, budget_denied, budget_unavailable,
  cache_hit, executed, is_transient, not_accountable, not_routed,
}
use enterprise_llm_gateway.Routing.{RoutingExecution}
use enterprise_llm_gateway.World.{
  Env, RetryVerdict, World, record_metric, reflection_attempt, retry, succeeded, terminal_failure,
}

pub record RetryPolicy : Type 0 where
  pub max_attempts : ℕ
  pub base_backoff : ℕ

-- `RetryPolicy(max_attempts, base_backoff)`: none is the ValueError.
unfoldable pub retry_policy : ℤ → ℤ → Option RetryPolicy
retry_policy max_attempts base_backoff =
    if ltb_ℤ max_attempts (pos 1) || ltb_ℤ base_backoff (pos 0)
    then none
    else some
        (record { max_attempts = pos_part max_attempts; base_backoff = pos_part base_backoff })

-- `RetryPolicy()`
abbrev pub default_policy : RetryPolicy
default_policy = record { max_attempts = 3; base_backoff = 100000 }

-- `backoff_before(next_attempt)`, for an attempt after the first.
unfoldable pub backoff_before : RetryPolicy → ℕ → ℕ
backoff_before policy next_attempt = policy.base_backoff * 2 ^ (next_attempt - 2)

-- `is_transient` is `in _RETRYABLE_PROVIDER_ERRORS`.
unfoldable pub classify : InferenceExecutionResult → RetryVerdict
classify r = elim r.outcome [
  | cache_hit ↦ succeeded
  | executed ↦
      if r.response.ok
      then succeeded
      else if is_transient r.response.error_category
      then retry
      else terminal_failure
  | not_routed ↦ terminal_failure
  | not_accountable ↦ terminal_failure
  | budget_denied ↦ terminal_failure
  | budget_unavailable ↦ terminal_failure
]

-- `f"{correlation_id}#{attempt}"`
unfoldable pub attempt_correlation_id : Text → ℕ → Text
attempt_correlation_id corr attempt = corr ++ (codes "#" ++ decimal attempt)

pub record AttemptRecord : Type 0 where
  pub attempt : ℕ
  pub correlation_id : Text
  pub outcome : ExecutionOutcome
  pub verdict : RetryVerdict
  pub error : Option Text
  pub error_category : Option ProviderErrorCategory

pub record ReflectionResult : Type 0 where
  pub final : InferenceExecutionResult
  pub attempts : List AttemptRecord
  pub execution : RoutingExecution

-- What escapes from `execute`: an exception of the coordinator, the AssertionError of a policy
-- without attempts, or the ValueError of a result without attempts.
pub data ReflectionFailure : Type 0 where
  raised : Failure → ReflectionFailure
  no_attempt unexplained : ReflectionFailure

-- `ReflectionResult(…)`
unfoldable pub reflection_result :
    InferenceExecutionResult
    → List AttemptRecord
    → RoutingExecution
    → Result ReflectionFailure ReflectionResult
reflection_result final [] e = err unexplained
reflection_result final (a ∷ rest) e =
    ok (record { final = final; attempts = a ∷ rest; execution = e })

-- The verdict of `self.attempts[-1]`.
unfoldable pub last_verdict : List AttemptRecord → Option RetryVerdict
last_verdict [] = none
last_verdict (a ∷ []) = some a.verdict
last_verdict (a ∷ b ∷ rest) = last_verdict (b ∷ rest)

abbrev pub is_retry : RetryVerdict → Bool
is_retry retry = true
is_retry succeeded = false
is_retry terminal_failure = false

abbrev is_success : RetryVerdict → Bool
is_success succeeded = true
is_success retry = false
is_success terminal_failure = false

-- The properties `attempt_count`, `retried`, `succeeded` and `exhausted`.
abbrev pub attempt_count : ReflectionResult → ℕ
attempt_count r = length r.attempts

abbrev pub retried : ReflectionResult → Bool
retried r = ltb 1 (length r.attempts)

unfoldable pub has_succeeded : ReflectionResult → Bool
unfolding last_verdict
has_succeeded r = elim (last_verdict r.attempts) [ none ↦ false | some v ↦ is_success v ]

unfoldable pub exhausted : ReflectionResult → Bool
unfolding last_verdict
exhausted r = elim (last_verdict r.attempts) [ none ↦ false | some v ↦ is_retry v ]

-- The world, and the delays that the sleeper was asked for, the last one first.
pub record Reflecting (C : Type 0) : Type 0 where
  pub world : World C
  pub slept : List ℕ

module _ (E : Env) (policy : RetryPolicy) (e : RoutingExecution) (request : InferenceRequest) where
  open E use {Client}

  abbrev pub attempt_request : ℕ → InferenceRequest
  attempt_request attempt = record request {
    correlation_id = attempt_correlation_id request.correlation_id attempt;
  }

  abbrev pub attempt_record : ℕ → InferenceExecutionResult → AttemptRecord
  attempt_record attempt r = record {
    attempt = attempt;
    correlation_id = attempt_correlation_id request.correlation_id attempt;
    outcome = r.outcome;
    verdict = classify r;
    error = r.response.error;
    error_category = r.response.error_category;
  }

  -- The sleep before every attempt but the first.
  unfoldable pub pause : ℕ → Reflecting Client → Reflecting Client
  unfolding backoff_before
  pause attempt st =
      if ltb 1 attempt then record st { slept = backoff_before policy attempt ∷ st.slept } else st

  -- One round of the loop up to the verdict.
  unfoldable pub one_attempt :
      ℕ → Reflecting Client → Result Failure InferenceExecutionResult × Reflecting Client
  unfolding pause classify
  one_attempt attempt st =
      let st1 = pause attempt st in
      let (answer, w) = execute E e (attempt_request attempt) st1.world in
      (
        answer,
        record st1 {
          world = elim answer [
            | ok r ↦ record_metric (reflection_attempt (classify r)) w
            | err f ↦ w
          ];
        },
      )

  -- The loop, with so many rounds left, the number of the next one and what the earlier ones left.
  unfoldable pub attempt_loop :
      ℕ
      → ℕ
      → Option InferenceExecutionResult
      → List AttemptRecord
      → Reflecting Client
      → Result ReflectionFailure ReflectionResult × Reflecting Client
  unfolding one_attempt reflection_result
  attempt_loop zero attempt none attempts st = (err no_attempt, st)
  attempt_loop zero attempt (some r) attempts st = (reflection_result r attempts e, st)
  attempt_loop (suc n) attempt last attempts st =
      let (answer, st') = one_attempt attempt st in
      elim answer [
        | err f ↦ (err (raised f), st')
        | ok r ↦
            let attempts' = attempts ++ (attempt_record attempt r ∷ []) in
            let next = attempt_loop n (attempt + 1) (some r) attempts' st' in
            if is_retry (classify r) then next else (reflection_result r attempts' e, st')
      ]

  -- `ReflectiveExecutor.execute`
  unfoldable pub reflect :
      Reflecting Client → Result ReflectionFailure ReflectionResult × Reflecting Client
  reflect st = attempt_loop policy.max_attempts 1 none [] st
