-- ===== src/Evaluation/Coherence.antt =====
-- What the usage evaluator makes of the coordinator's results.
use enterprise_llm_gateway.Reservations
use enterprise_llm_gateway.Prelude.{
  Bool, Option, Option-cases, Text, ap, arith, codes, false, if-cases, inl, inr, nat_eq, none, not,
  pair_eq, refl, some, text_eq, true, ℕ, ◌++◌, ◌≡◌, ◌≢◌,
}
use enterprise_llm_gateway.Prelude.Result.{Result, Result-cases, err, ok}
use enterprise_llm_gateway.Accounting.{CostRecord, account}
use enterprise_llm_gateway.Cache.{compute_cache_key, safe_get}
use enterprise_llm_gateway.Evaluation.{EvaluationInput, failing, reports_usage, usage_consistency}
use enterprise_llm_gateway.Execution.{
  Failure, InferenceExecutionResult, budget_text, call_and_settle, call_provider, encoding, execute,
  execute_and_settle, execute_keyed, finish, from_cache, ledger_error, not_accountable_result,
  observe_call, refusal, release_then, settle_call,
}
use enterprise_llm_gateway.Execution.Served.{
  execute-not_routed, execute-routed, execute_and_settle-priced, execute_and_settle-unpriced,
  execute_keyed-hit, execute_keyed-miss,
}
use enterprise_llm_gateway.Ledger.{ReservationOutcome, permitted}
use enterprise_llm_gateway.Ports.{
  ExecutionOutcome, InferenceRequest, ProviderDescriptor, ProviderResponse, budget_denied,
  budget_unavailable, cache_hit, executed, failure, not_accountable, not_routed,
}
use enterprise_llm_gateway.Reservations.{defect, ledger, reclaim, reserve_priced}
use enterprise_llm_gateway.Routing.{RoutingExecution, outcome_text, routed}
use enterprise_llm_gateway.World.{Env, World, cache_lookup, record_metric, tick}

-- What the serving layer shows the evaluators of a result.
abbrev pub input_of : ℕ → Text → InferenceExecutionResult → EvaluationInput
input_of org corr r = record {
  organization_id = org;
  correlation_id = corr;
  outcome = r.outcome;
  response = r.response;
}

-- The evaluator does not find the result defective.
unfoldable pub IsCoherent : Text → ℕ → Text → Result Failure InferenceExecutionResult → Type 0
IsCoherent name org corr (err f) = Unit {0}
IsCoherent name org corr (ok r) = (usage_consistency name (input_of org corr r)).outcome ≢ failing

module _ (E : Env) (name : Text) (o : ℕ) (corr : Text) where
  open E use {Client, clock, price_for}

  abbrev Coheres : Result Failure InferenceExecutionResult × World Client → Type 0
  Coheres z = IsCoherent name o corr z.0

  -- Neither a success that was executed, nor a hit.
  abbrev is_idle : ExecutionOutcome → Bool → Bool
  is_idle cache_hit good = false
  is_idle executed good = not good
  is_idle not_routed good = true
  is_idle budget_denied good = true
  is_idle budget_unavailable good = true
  is_idle not_accountable good = true

  finish-Coheres :
      (outcome : ExecutionOutcome) (response : ProviderResponse) (cost : Option CostRecord)
      (w : World Client)
      → is_idle outcome response.ok ≡ true
      → Coheres (finish E outcome response cost w)
  unfolding finish IsCoherent usage_consistency
  finish-Coheres outcome response cost w idle = λ fails. ground arith

  account-usage :
      (provider : ProviderDescriptor) (org : ℕ) (c : Text) (response : ProviderResponse)
      (r : CostRecord)
      → account price_for response provider org c ≡ ok r
      → reports_usage response ≡ true
  unfolding account
  account-usage provider org c response r f = ground (arith, f)

  release_then-Coheres :
      (org : ℕ) (c : Text)
      (next : World Client → Result Failure InferenceExecutionResult × World Client)
      (w : World Client)
      → ((w : World Client) → Coheres (next w))
      → Coheres (release_then E org c next w)
  unfolding release_then IsCoherent
  release_then-Coheres org c next w h =
      let (answer, w') = Reservations.release E org c w in
      elim answer
        as (λ a. Coheres (elim a [ ok u ↦ next w' | err e ↦ (err (ledger_error e), w') ])) [
          | ok u ↦ h w'
          | err e ↦ tt
        ]

  settle-usage :
      (org : ℕ) (c : Text) (response : ProviderResponse) (provider : ProviderDescriptor)
      (w : World Client) (r : CostRecord)
      → (Reservations.settle E org c response provider w).0 ≡ ok r
      → reports_usage response ≡ true
  unfolding Reservations.settle
  settle-usage org c response provider w r h =
      elim (Result-cases (account price_for response provider org c)) [
        | inl (k, f) ↦ account-usage provider org c response k f
        | inr (e, f) ↦ ground (arith, f, h)
      ]

  settle_call-Coheres :
      (org : ℕ) (provider : ProviderDescriptor) (request : InferenceRequest) (digest : Text)
      (response : ProviderResponse) (w : World Client)
      → response.ok ≡ true
      → Coheres (settle_call E org provider request digest response w)
  unfolding settle_call not_accountable_result
  settle_call-Coheres org provider request digest response w good =
      let c = request.correlation_id in
      let (answer, w') = Reservations.settle E org c response provider w in
      elim (Result-cases answer) [
        | inl (r, f) ↦
            rw (f, settle_call)
              (unfold finish IsCoherent usage_consistency in
                λ fails. ground (arith, good, settle-usage org c response provider w r f))
        | inr (defect e, f) ↦
            rw (f, settle_call)
              (release_then-Coheres org c (not_accountable_result E) w' (λ v.
                finish-Coheres not_accountable (failure (codes "not_accountable")) none v refl))
        | inr (ledger e, f) ↦ rw (f, settle_call) (unfold IsCoherent in tt)
      ]

  call_and_settle-Coheres :
      (org : ℕ) (provider : ProviderDescriptor) (request : InferenceRequest) (digest : Text)
      (w : World Client)
      → Coheres (call_and_settle E org provider request digest w)
  unfolding call_and_settle call_provider observe_call
  call_and_settle-Coheres org provider request digest w =
      let (response, w1) = call_provider E provider request w in
      let w2 = observe_call E org provider response w1 in
      if-cases Coheres response.ok
        (λ good. settle_call-Coheres org provider request digest response w2 good)
        (λ bad.
          release_then-Coheres org request.correlation_id (finish E executed response none) w2
            (λ v. finish-Coheres executed response none v (ap not bad)))

  refusal-idle : (o : ReservationOutcome) → is_idle (refusal o) false ≡ true
  refusal-idle ReservationOutcome.reserved = refl
  refusal-idle ReservationOutcome.exceeded = refl
  refusal-idle ReservationOutcome.unavailable = refl

  execute_and_settle-Coheres :
      (org : ℕ) (provider : ProviderDescriptor) (request : InferenceRequest) (digest : Text)
      (w : World Client)
      → Coheres (execute_and_settle E org provider request digest w)
  unfolding not_accountable_result
  execute_and_settle-Coheres org provider request digest w =
      elim (Option-cases (price_for org provider.name provider.model)) [
        | inl f ↦ rw (execute_and_settle-unpriced E org provider request digest w f) (
            finish-Coheres not_accountable (failure (codes "not_accountable")) none
              (Reservations.reclaim E org w).1 refl)
        | inr (price, f) ↦
            let (r, w2) =
              Reservations.reserve_priced E org request price (Reservations.reclaim E org w).1 in
            rw (execute_and_settle-priced E org provider request digest w price f) (
              if-cases Coheres (permitted r.outcome)
                (λ held. call_and_settle-Coheres org provider request digest w2)
                (λ refused.
                  finish-Coheres (refusal r.outcome) (failure (budget_text r.outcome)) none w2
                    (refusal-idle r.outcome)))
      ]

  execute_keyed-Coheres :
      (org : ℕ) (provider : ProviderDescriptor) (request : InferenceRequest) (digest : Text)
      (w : World Client)
      → Coheres (execute_keyed E org provider request digest w)
  execute_keyed-Coheres org provider request digest w =
      elim (Option-cases (safe_get (clock w.readings) org digest w.cache)) [
        | inl f ↦ rw (execute_keyed-miss E org provider request digest w f) (
            execute_and_settle-Coheres org provider request digest
              (record_metric (cache_lookup false) (tick w)))
        | inr (c, f) ↦ rw (execute_keyed-hit E org provider request digest w c f) (
            unfold from_cache finish IsCoherent usage_consistency in λ fails. ground (arith, fails))
      ]

  -- Whatever the coordinator returns, in whatever state it is called, the usage evaluator does not
  -- find it defective: a success that was executed reports its usage, and a hit reports none.
  pub execute-IsCoherent :
      (e : RoutingExecution) (request : InferenceRequest) (w : World Client)
      → IsCoherent name o corr (execute E e request w).0
  execute-IsCoherent e request w = elim (Option-cases (routed e)) [
    | inl f ↦ rw (execute-not_routed E e request w f) (
        finish-Coheres not_routed
          (failure (codes "not_routed: " ++ outcome_text e.decision.outcome)) none w refl)
    | inr (provider, f) ↦
        let org = e.decision.organization_id in
        rw (execute-routed E e provider request w f)
          (elim (compute_cache_key E.sha256 E.uuid_text org provider.name provider.model
              request.payload)
            as (λ k. Coheres (elim k [
              | none ↦ (err encoding, w)
              | some digest ↦ execute_keyed E org provider request digest w
            ])) [
              | none ↦ unfold IsCoherent in tt
              | some digest ↦ execute_keyed-Coheres org provider request digest w
            ])
  ]
