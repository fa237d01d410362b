-- ===== src/Reflection/Transient.antt =====
-- Which results are retried: failed calls with a transient error, and no others.

use enterprise_llm_gateway.Prelude.{
  Option, arith, false, nat_eq, none, pair_eq, refl, some, text_eq, true, ◌≡◌,
}
use enterprise_llm_gateway.Execution.{InferenceExecutionResult}
use enterprise_llm_gateway.Ports.{
  ProviderErrorCategory, authentication, executed, invalid_request, is_transient, rate_limited,
  server_error,
}
use enterprise_llm_gateway.Reflection.{classify, is_retry}
use enterprise_llm_gateway.World.{RetryVerdict, retry}

-- The categories that the ports call transient.
pub data IsTransient : Option ProviderErrorCategory → Type 0 where
  timed_out : IsTransient (some ProviderErrorCategory.timeout)
  limited : IsTransient (some rate_limited)
  broken : IsTransient (some server_error)

-- The provider was called, and failed with a transient error.
pub record FailedTransiently (r : InferenceExecutionResult) : Type 0 where
  pub called : r.outcome ≡ executed
  pub failed : r.response.ok ≡ false
  pub category : IsTransient r.response.error_category

pub is_retry-eq : (v : RetryVerdict) → is_retry v ≡ true → v ≡ retry
is_retry-eq v h = ground arith

transient : (c : Option ProviderErrorCategory) → is_transient c ≡ true → IsTransient c
transient none h = absurd (cc)
transient (some ProviderErrorCategory.timeout) h = timed_out
transient (some rate_limited) h = limited
transient (some server_error) h = broken
transient (some invalid_request) h = absurd (cc)
transient (some authentication) h = absurd (cc)

transient-is : (c : Option ProviderErrorCategory) → IsTransient c → is_transient c ≡ true
transient-is c timed_out = refl
transient-is c limited = refl
transient-is c broken = refl

classify-retry :
    (r : InferenceExecutionResult)
    → is_retry (classify r) ≡ true
    → (r.outcome ≡ executed)
      × (r.response.ok ≡ false)
      × (is_transient r.response.error_category ≡ true)
unfolding classify
classify-retry r h = ground arith

pub retry-FailedTransiently :
    (r : InferenceExecutionResult) → is_retry (classify r) ≡ true → FailedTransiently r
retry-FailedTransiently r h =
    let (called, failed, category) = classify-retry r h in
    record {
      called = called;
      failed = failed;
      category = transient r.response.error_category category;
    }

pub FailedTransiently-retry :
    (r : InferenceExecutionResult) → FailedTransiently r → is_retry (classify r) ≡ true
unfolding classify
FailedTransiently-retry r h =
    ground (arith, h.called, h.failed, transient-is r.response.error_category h.category)
