-- ===== src/Execution/Served.antt =====
-- A whole request: what it leaves in the ledger, from the reservation to the result.
use enterprise_llm_gateway.Reservations
use mathlib.Core.Path.{subst}
use enterprise_llm_gateway.Prelude.{
  Option-cases, Text, [], arith, codes, false, if-cases, if◌then◌else◌, inl, inr, nat_eq, none,
  pair_eq, refl, some, sym, text_eq, true, ℕ, ◌++◌, ◌-◌, ◌∷◌, ◌≡◌,
}
use enterprise_llm_gateway.Prelude.Dict.{get}
use enterprise_llm_gateway.Prelude.Int.{ℤ}
use enterprise_llm_gateway.Prelude.Result.{Result, err}
use enterprise_llm_gateway.Accounting.{ModelPrice, compute_cost, estimate_usage}
use enterprise_llm_gateway.Cache.{
  CachedResponse, compute_cache_key, join_nul, key_material, safe_get,
}
use enterprise_llm_gateway.Execution.{
  Failure, InferenceExecutionResult, budget_text, call_and_settle, call_provider, encoding, execute,
  execute_and_settle, execute_keyed, finish, from_cache, not_accountable_result, observe_call,
  provider_execute, refusal, replayed, uncosted,
}
use enterprise_llm_gateway.Execution.Charges.{
  Accounted, CostsIfServed, finish-Accounted, plus_zero, release_then-Accounted,
  settle_call-Accounted, uncosted-served, unserved,
}
use enterprise_llm_gateway.Ledger.{Reservation, is_reserved, ledger_for, new_hold, permitted}
use enterprise_llm_gateway.Ledger.Account.{Stands, reconcile-Stands, reserve-Stands}
use enterprise_llm_gateway.Ledger.Holds.{held}
use enterprise_llm_gateway.Ports.{
  ExecutionOutcome, InferenceRequest, ProviderDescriptor, ProviderResponse, cache_hit, executed,
  failure, not_accountable, not_routed,
}
use enterprise_llm_gateway.Reservations.{reclaim, reserve_priced}
use enterprise_llm_gateway.Routing.{RoutingExecution, outcome_text, routed}
use enterprise_llm_gateway.World.{Env, World, cache_lookup, record_metric, tick}

module _ (E : Env) where
  open E use {Client, price_for, clock, reservation_ttl}

  abbrev Served : ℕ → Text → ℤ → Result Failure InferenceExecutionResult × World Client → Type 0
  Served org corr spent z = Accounted org corr spent z.0 z.1

  -- A result that charges nothing, where nothing is reserved.
  refused-Accounted :
      (org : ℕ) (corr : Text) (spent : ℤ) (o : ExecutionOutcome) (response : ProviderResponse)
      (w : World Client)
      → Stands org corr spent none w.ledger
      → CostsIfServed (uncosted o response)
      → Served org corr spent (finish E o response none w)
  refused-Accounted org corr spent o response w h served =
      finish-Accounted E org corr spent o response none none w
        (subst (λ (z : ℤ). Stands org corr z none w.ledger) (sym (plus_zero spent)) h) refl served

  call_and_settle-Accounted :
      (org : ℕ) (provider : ProviderDescriptor) (request : InferenceRequest) (digest : Text)
      (spent : ℤ) (r : Reservation) (w : World Client)
      → is_reserved r.status ≡ true
      → Stands org request.correlation_id spent (some r) w.ledger
      → Served org request.correlation_id spent (call_and_settle E org provider request digest w)
  unfolding call_and_settle call_provider observe_call
  call_and_settle-Accounted org provider request digest spent r w live h =
      let (response, w1) = call_provider E provider request w in
      let w2 = observe_call E org provider response w1 in
      if-cases (Served org request.correlation_id spent) response.ok
        (λ good.
          settle_call-Accounted E org provider request digest response spent r w2 live good h)
        (λ bad.
          release_then-Accounted E org request.correlation_id spent executed response r w2 live h
            (uncosted-served executed response bad))

  pub reclaim-Stands :
      (org : ℕ) (corr : Text) (spent : ℤ) (w : World Client)
      → Stands org corr spent none w.ledger
      → Stands org corr spent none (Reservations.reclaim E org w).1.ledger
  unfolding Reservations.reclaim
  reclaim-Stands org corr spent w h =
      reconcile-Stands org corr spent (clock w.readings - reservation_ttl) w.ledger h

  pub reserve_priced-Stands :
      (org : ℕ) (request : InferenceRequest) (price : ModelPrice) (spent : ℤ) (w : World Client)
      → Stands org request.correlation_id spent none w.ledger
      → let (r, w') = Reservations.reserve_priced E org request price w in
        let cost = (compute_cost (estimate_usage request) price).total_cost in
        (permitted r.outcome ≡ true
          → Stands org request.correlation_id spent
              (some (new_hold (clock w.readings) request.correlation_id cost))
              w'.ledger)
        × (permitted r.outcome ≡ false → Stands org request.correlation_id spent none w'.ledger)
  unfolding Reservations.reserve_priced
  reserve_priced-Stands org request price spent w h =
      let cost = (compute_cost (estimate_usage request) price).total_cost in
      let (r, done, held, refused) =
        reserve-Stands org request.correlation_id spent (clock w.readings) cost w.ledger h in
      rw done (held, refused)

  pub execute_and_settle-unpriced :
      (org : ℕ) (provider : ProviderDescriptor) (request : InferenceRequest) (digest : Text)
      (w : World Client)
      → price_for org provider.name provider.model ≡ none
      → execute_and_settle E org provider request digest w
        ≡ not_accountable_result E (Reservations.reclaim E org w).1
  unfolding execute_and_settle Reservations.reserve
  execute_and_settle-unpriced org provider request digest w f = ground arith

  pub execute_and_settle-priced :
      (org : ℕ) (provider : ProviderDescriptor) (request : InferenceRequest) (digest : Text)
      (w : World Client) (price : ModelPrice)
      → price_for org provider.name provider.model ≡ some price
      → let (r, w2) =
          Reservations.reserve_priced E org request price (Reservations.reclaim E org w).1 in
        execute_and_settle E org provider request digest w ≡ (
          if permitted r.outcome
          then call_and_settle E org provider request digest w2
          else finish E (refusal r.outcome) (failure (budget_text r.outcome)) none w2)
  unfolding execute_and_settle Reservations.reserve
  execute_and_settle-priced org provider request digest w price f = ground arith

  execute_and_settle-Accounted :
      (org : ℕ) (provider : ProviderDescriptor) (request : InferenceRequest) (digest : Text)
      (spent : ℤ) (w : World Client)
      → Stands org request.correlation_id spent none w.ledger
      → Served org request.correlation_id spent (execute_and_settle E org provider request digest w)
  execute_and_settle-Accounted org provider request digest spent w h =
      let corr = request.correlation_id in
      let w1 = (Reservations.reclaim E org w).1 in
      let h1 = reclaim-Stands org corr spent w h in
      elim (Option-cases (price_for org provider.name provider.model)) [
        | inl f ↦ rw (execute_and_settle-unpriced org provider request digest w f) (
            unfold not_accountable_result in
            refused-Accounted org corr spent not_accountable (failure (codes "not_accountable")) w1
              h1 (uncosted-served not_accountable (failure (codes "not_accountable")) refl))
        | inr (price, f) ↦
            let (r, w2) = Reservations.reserve_priced E org request price w1 in
            let (held, refused) = reserve_priced-Stands org request price spent w1 h1 in
            rw (execute_and_settle-priced org provider request digest w price f) (
              if-cases (Served org corr spent) (permitted r.outcome)
                (λ is_held.
                  call_and_settle-Accounted org provider request digest spent
                    (new_hold (clock w1.readings) corr
                      (compute_cost (estimate_usage request) price).total_cost)
                    w2 refl (held is_held))
                (λ not_held.
                  refused-Accounted org corr spent (refusal r.outcome)
                    (failure (budget_text r.outcome)) w2 (refused not_held)
                    (uncosted-served (refusal r.outcome) (failure (budget_text r.outcome)) refl)))
      ]

  pub execute_keyed-hit :
      (org : ℕ) (provider : ProviderDescriptor) (request : InferenceRequest) (digest : Text)
      (w : World Client) (c : CachedResponse)
      → safe_get (clock w.readings) org digest w.cache ≡ some c
      → execute_keyed E org provider request digest w
        ≡ from_cache E c (record_metric (cache_lookup true) (tick w))
  unfolding execute_keyed
  execute_keyed-hit org provider request digest w c f = ground arith

  pub execute_keyed-miss :
      (org : ℕ) (provider : ProviderDescriptor) (request : InferenceRequest) (digest : Text)
      (w : World Client)
      → safe_get (clock w.readings) org digest w.cache ≡ none
      → execute_keyed E org provider request digest w
        ≡ execute_and_settle E org provider request digest
            (record_metric (cache_lookup false) (tick w))
  unfolding execute_keyed
  execute_keyed-miss org provider request digest w f = ground arith

  execute_keyed-Accounted :
      (org : ℕ) (provider : ProviderDescriptor) (request : InferenceRequest) (digest : Text)
      (spent : ℤ) (w : World Client)
      → Stands org request.correlation_id spent none w.ledger
      → Served org request.correlation_id spent (execute_keyed E org provider request digest w)
  execute_keyed-Accounted org provider request digest spent w h =
      elim (Option-cases (safe_get (clock w.readings) org digest w.cache)) [
        | inl f ↦ rw (execute_keyed-miss org provider request digest w f) (
            execute_and_settle-Accounted org provider request digest spent
              (record_metric (cache_lookup false) (tick w)) h)
        | inr (c, f) ↦ rw (execute_keyed-hit org provider request digest w c f) (
            unfold from_cache in
            refused-Accounted org request.correlation_id spent cache_hit (replayed c)
              (record_metric (cache_lookup true) (tick w)) h
              (unserved cache_hit (replayed c) (λ e. cc)))
      ]

  pub execute-routed :
      (e : RoutingExecution) (provider : ProviderDescriptor) (request : InferenceRequest)
      (w : World Client)
      → routed e ≡ some provider
      → let org = e.decision.organization_id in
        execute E e request w
        ≡ elim (compute_cache_key E.sha256 E.uuid_text org provider.name provider.model
            request.payload) [
              | none ↦ (err encoding, w)
              | some digest ↦ execute_keyed E org provider request digest w
            ]
  unfolding execute
  execute-routed e provider request w f = ground arith

  pub execute-not_routed :
      (e : RoutingExecution) (request : InferenceRequest) (w : World Client)
      → routed e ≡ none
      → execute E e request w
        ≡ finish E not_routed
            (failure (codes "not_routed: " ++ outcome_text e.decision.outcome))
            none
            w
  unfolding execute provider_execute
  execute-not_routed e request w f = ground arith

  pub execute-Accounted :
      (e : RoutingExecution) (request : InferenceRequest) (json : Text) (w : World Client)
      → request.payload.canonical ≡ some json
      → w.ledger.unavailable ≡ false
      → get request.correlation_id (ledger_for e.decision.organization_id w.ledger).reservations
        ≡ none
      → let (answer, w') = execute E e request w in
        let org = e.decision.organization_id in
        Accounted org request.correlation_id (ledger_for org w.ledger).spent answer w'
  unfolding compute_cache_key
  execute-Accounted e request json w encodes up new =
      let org = e.decision.organization_id in
      let corr = request.correlation_id in
      let spent = (ledger_for org w.ledger).spent in
      let h : Stands org corr spent none w.ledger = record {
        up = up;
        spent_is = refl;
        entry_is = new;
      } in
      elim (Option-cases (routed e)) [
        | inl f ↦ rw (execute-not_routed e request w f) (
            let reason = failure (codes "not_routed: " ++ outcome_text e.decision.outcome) in
            refused-Accounted org corr spent not_routed reason w h
              (uncosted-served not_routed reason refl))
        | inr (provider, f) ↦
            rw (execute-routed e provider request w f, key_material, encodes)
              (execute_keyed-Accounted org provider request
                (E.sha256 (join_nul (E.uuid_text org ∷ provider.name ∷ provider.model ∷ json ∷ [])))
                spent w h)
      ]
