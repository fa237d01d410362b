-- ===== src/World.antt =====
-- What the request path shares: the ledger, the breaker, the cache, the provider's side, the clock
-- and the metrics (observability/metrics.py: the labels of each counter that the path increments,
-- newest first; durations are not kept). What the path takes from outside is an environment.
use enterprise_llm_gateway.Prelude.{Bool, List, Option, Text, nat_eq, pair_eq, text_eq, ℕ, ◌+◌, ◌∷◌}
use enterprise_llm_gateway.Accounting.{PriceFor}
use enterprise_llm_gateway.Breaker.{Breaker}
use enterprise_llm_gateway.Cache.{ResponseCache}
use enterprise_llm_gateway.Ledger.{Ledger, ReservationOutcome}
use enterprise_llm_gateway.Ports.{
  ExecutionOutcome, InferenceRequest, ProviderDescriptor, ProviderErrorCategory, ProviderResponse,
}
use enterprise_llm_gateway.Routing.{RoutingOutcome}

pub data RetryVerdict : Type 0 where
  succeeded retry terminal_failure : RetryVerdict

-- The outcome of a streamed provider call: `ok`, the failure's category, or `unclassified`.
pub data StreamLabel : Type 0 where
  answered unclassified : StreamLabel
  categorised : ProviderErrorCategory → StreamLabel

-- A served request that was not admitted has no outcome.
pub data Metric : Type 0 where
  budget_reservation : ReservationOutcome → Metric
  cache_lookup : Bool → Metric
  inference_attempt : ExecutionOutcome → Metric
  provider_call : Text → ProviderResponse → Metric
  reflection_attempt : RetryVerdict → Metric
  provider_stream : Text → StreamLabel → Metric
  served_request : Option ExecutionOutcome → Metric
  routing_decision : RoutingOutcome → Metric

-- A `ProviderClient` with whatever it remembers, a `PricingPort`, the n-th reading of the clock, the
-- hash of a text, the text of an identifier, and the reconciler's time to live.
pub record Env : Type 1 where
  pub Client : Type 0
  pub invoke : ProviderDescriptor → InferenceRequest → Client → ProviderResponse × Client
  pub price_for : PriceFor
  pub clock : ℕ → ℕ
  pub sha256 : Text → Text
  pub uuid_text : ℕ → Text
  pub reservation_ttl : ℕ

pub record World (Client : Type 0) : Type 0 where
  pub ledger : Ledger
  pub breaker : Breaker
  pub cache : ResponseCache
  pub client : Client
  pub readings : ℕ
  pub metrics : List Metric

module _ {C : Type 0} where
  -- One more reading of the clock has been taken.
  abbrev pub tick : World C → World C
  tick w = record w { readings = w.readings + 1 }

  abbrev pub record_metric : Metric → World C → World C
  record_metric m w = record w { metrics = m ∷ w.metrics }
