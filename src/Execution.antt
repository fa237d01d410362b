-- ===== src/Execution.antt =====
-- application/providers/provider_executor.py and application/execution/inference_coordinator.py:
-- cache, then reserve, call, settle or release. One request runs by itself: the deduplicator lets
-- the first caller of a key run its operation, which is this.
pub mod Charges
pub mod Served
pub mod Reach
pub mod Calls
pub mod Traffic
pub mod Fresh
pub mod Repeat
pub mod Demo
mod Tests
use enterprise_llm_gateway.Reservations
use enterprise_llm_gateway.Prelude.{
  Option, Text, codes, false, if◌then◌else◌, nat_eq, none, pair_eq, some, text_eq, true, ℕ, ◌++◌,
}
use enterprise_llm_gateway.Prelude.Result.{Result, err, ok}
use enterprise_llm_gateway.Accounting.{CostRecord}
use enterprise_llm_gateway.Breaker.{ProviderCallResult, observe}
use enterprise_llm_gateway.Cache.{CachedResponse, compute_cache_key, safe_get, safe_put}
use enterprise_llm_gateway.Ledger.{
  LedgerError, ReservationOutcome, exceeded, permitted, reserved, unavailable,
}
use enterprise_llm_gateway.Ports.{
  ExecutionOutcome, InferenceRequest, ProviderDescriptor, ProviderResponse, budget_denied,
  budget_unavailable, cache_hit, executed, failure, not_accountable, not_routed,
}
use enterprise_llm_gateway.Reservations.{defect, ledger}
use enterprise_llm_gateway.Routing.{RoutingExecution, outcome_text, routed}
use enterprise_llm_gateway.World.{
  Env, World, cache_lookup, inference_attempt, provider_call, record_metric, tick,
}

-- What can escape from `execute`: a payload that json cannot encode, or the ledger's exceptions.
pub data Failure : Type 0 where
  encoding : Failure
  ledger_error : LedgerError → Failure

pub record InferenceExecutionResult : Type 0 where
  pub outcome : ExecutionOutcome
  pub response : ProviderResponse
  pub cost : Option CostRecord

-- `InferenceExecutionResult(outcome=o, response=r)`
abbrev pub uncosted : ExecutionOutcome → ProviderResponse → InferenceExecutionResult
uncosted o r = record { outcome = o; response = r; cost = none }

-- `f"budget_{reservation.outcome.value}"`
abbrev pub budget_text : ReservationOutcome → Text
budget_text ReservationOutcome.reserved = codes "budget_reserved"
budget_text ReservationOutcome.exceeded = codes "budget_exceeded"
budget_text ReservationOutcome.unavailable = codes "budget_unavailable"

abbrev pub refusal : ReservationOutcome → ExecutionOutcome
refusal ReservationOutcome.reserved = budget_denied
refusal ReservationOutcome.exceeded = budget_denied
refusal ReservationOutcome.unavailable = budget_unavailable

-- `ProviderResponse(ok=True, content=…, provider=…)` of a cached response
abbrev pub replayed : CachedResponse → ProviderResponse
replayed c = record {
  ok = true;
  content = c.content;
  error = none;
  provider = c.provider;
  usage = none;
  error_category = none;
}

module _ (E : Env) where
  open E use {Client, invoke, clock, sha256, uuid_text}

  -- `ProviderExecutor.execute` on a routed execution.
  unfoldable pub call_provider :
      ProviderDescriptor → InferenceRequest → World Client → ProviderResponse × World Client
  call_provider provider request w =
      let (response, c) = invoke provider request w.client in
      (response, record_metric (provider_call provider.name response) (record w { client = c }))

  -- `ProviderExecutor.execute`
  unfoldable pub provider_execute :
      RoutingExecution → InferenceRequest → World Client → ProviderResponse × World Client
  unfolding call_provider
  provider_execute e request w = elim (routed e) [
    | none ↦ (failure (codes "not_routed: " ++ outcome_text e.decision.outcome), w)
    | some provider ↦ call_provider provider request w
  ]

  unfoldable pub observe_call :
      ℕ → ProviderDescriptor → ProviderResponse → World Client → World Client
  observe_call org provider response w =
      let result : ProviderCallResult = record {
        ok = response.ok;
        error_category = response.error_category;
      } in
      record (tick w) { breaker = observe (clock w.readings) org provider.name result w.breaker }

  unfoldable pub finish :
      ExecutionOutcome
      → ProviderResponse
      → Option CostRecord
      → World Client
      → Result Failure InferenceExecutionResult × World Client
  finish o response cost w = (
    ok (record { outcome = o; response = response; cost = cost }),
    record_metric (inference_attempt o) w,
  )

  -- `_not_accountable`
  unfoldable pub not_accountable_result :
      World Client → Result Failure InferenceExecutionResult × World Client
  unfolding finish
  not_accountable_result w = finish not_accountable (failure (codes "not_accountable")) none w

  -- `release`, and then what follows; an exception of the ledger escapes.
  unfoldable pub release_then :
      ℕ
      → Text
      → (World Client → Result Failure InferenceExecutionResult × World Client)
      → World Client
      → Result Failure InferenceExecutionResult × World Client
  release_then org corr next w =
      let (answer, w') = Reservations.release E org corr w in
      elim answer [ ok u ↦ next w' | err e ↦ (err (ledger_error e), w') ]

  unfoldable pub store_response :
      ℕ → ProviderDescriptor → Text → ProviderResponse → World Client → World Client
  store_response org provider digest response w =
      let entry : CachedResponse = record {
        provider = response.provider;
        model = provider.model;
        content = response.content;
      } in
      record (tick w) { cache = safe_put (clock w.readings) org digest entry w.cache }

  -- The settlement of a call that succeeded.
  unfoldable pub settle_call :
      ℕ
      → ProviderDescriptor
      → InferenceRequest
      → Text
      → ProviderResponse
      → World Client
      → Result Failure InferenceExecutionResult × World Client
  unfolding release_then not_accountable_result store_response finish
  settle_call org provider request digest response w =
      let (answer, w') = Reservations.settle E org request.correlation_id response provider w in
      elim answer [
        | ok r ↦ finish executed response (some r) (store_response org provider digest response w')
        | err (defect e) ↦ release_then org request.correlation_id not_accountable_result w'
        | err (ledger e) ↦ (err (ledger_error e), w')
      ]

  -- What follows a permitted reservation.
  unfoldable pub call_and_settle :
      ℕ
      → ProviderDescriptor
      → InferenceRequest
      → Text
      → World Client
      → Result Failure InferenceExecutionResult × World Client
  unfolding call_provider observe_call settle_call release_then finish
  call_and_settle org provider request digest w =
      let (response, w1) = call_provider provider request w in
      let w2 = observe_call org provider response w1 in
      if response.ok
      then settle_call org provider request digest response w2
      else release_then org request.correlation_id (finish executed response none) w2

  -- `_execute_and_settle`
  unfoldable pub execute_and_settle :
      ℕ
      → ProviderDescriptor
      → InferenceRequest
      → Text
      → World Client
      → Result Failure InferenceExecutionResult × World Client
  unfolding not_accountable_result finish call_and_settle
  execute_and_settle org provider request digest w =
      let (answer, w1) = Reservations.reserve E org provider request w in
      elim answer [
        | err e ↦ not_accountable_result w1
        | ok r ↦
            if permitted r.outcome
            then call_and_settle org provider request digest w1
            else finish (refusal r.outcome) (failure (budget_text r.outcome)) none w1
      ]

  -- A hit answers by itself.
  unfoldable pub from_cache :
      CachedResponse → World Client → Result Failure InferenceExecutionResult × World Client
  unfolding finish
  from_cache c w = finish cache_hit (replayed c) none w

  -- The look-up of a routed request, and what follows it.
  unfoldable pub execute_keyed :
      ℕ
      → ProviderDescriptor
      → InferenceRequest
      → Text
      → World Client
      → Result Failure InferenceExecutionResult × World Client
  unfolding from_cache execute_and_settle
  execute_keyed org provider request digest w =
      let cached = safe_get (clock w.readings) org digest w.cache in
      elim cached [
        | some c ↦ from_cache c (record_metric (cache_lookup true) (tick w))
        | none ↦
            execute_and_settle org provider request digest
              (record_metric (cache_lookup false) (tick w))
      ]

  -- `InferenceCoordinator.execute`
  unfoldable pub execute :
      RoutingExecution
      → InferenceRequest
      → World Client
      → Result Failure InferenceExecutionResult × World Client
  unfolding provider_execute finish execute_keyed
  execute e request w =
      let org = e.decision.organization_id in
      elim (routed e) [
        | none ↦
            let (response, w') = provider_execute e request w in finish not_routed response none w'
        | some provider ↦
            elim (compute_cache_key sha256 uuid_text org provider.name provider.model
              request.payload) [
                | none ↦ (err encoding, w)
                | some digest ↦ execute_keyed org provider request digest w
              ]
      ]
