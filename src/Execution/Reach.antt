-- ===== src/Execution/Reach.antt =====
-- What a request touches: the provider is called, and its circuit observed, only past the cache and
-- the budget.
use enterprise_llm_gateway.Ledger as LedgerStore
use enterprise_llm_gateway.Reservations
use enterprise_llm_gateway.Prelude.{
  Bool, Option, Option-cases, Text, ap, arith, codes, false, inl, inr, nat_eq, none, pair_eq, some,
  sym, text_eq, true, ℕ, ◌∙◌, ◌≡◌,
}
use enterprise_llm_gateway.Prelude.Result.{Result, err, ok}
use enterprise_llm_gateway.Accounting.{AccountingDefect, ModelPrice}
use enterprise_llm_gateway.Cache.{CachedResponse, safe_get}
use enterprise_llm_gateway.Execution.{
  InferenceExecutionResult, budget_text, execute_and_settle, execute_keyed, finish, from_cache,
  not_accountable_result, refusal, replayed, uncosted,
}
use enterprise_llm_gateway.Ledger.{ReservationResult, permitted, reconcile_expired, unavailable}
use enterprise_llm_gateway.Ports.{
  InferenceRequest, ProviderDescriptor, budget_denied, budget_unavailable, cache_hit, failure,
  not_accountable,
}
use enterprise_llm_gateway.Reservations.{reclaim, reserve_priced}
use enterprise_llm_gateway.World.{Env, World}

-- The reservation lets the call through.
abbrev pub lets_through : Result AccountingDefect ReservationResult → Bool
lets_through (ok r) = permitted r.outcome
lets_through (err e) = false

-- The result of a request whose reservation does not let it through.
abbrev refused_result : Result AccountingDefect ReservationResult → InferenceExecutionResult
refused_result (ok r) = uncosted (refusal r.outcome) (failure (budget_text r.outcome))
refused_result (err e) = uncosted not_accountable (failure (codes "not_accountable"))

-- What such a result says, by the price of the model and by whether the ledger is out.
abbrev pub explained : Option ModelPrice → Bool → InferenceExecutionResult
explained none down = uncosted not_accountable (failure (codes "not_accountable"))
explained (some price) true = uncosted budget_unavailable (failure (codes "budget_unavailable"))
explained (some price) false = uncosted budget_denied (failure (codes "budget_exceeded"))

module _ (E : Env) where
  open E use {Client, clock, price_for}

  -- Neither the provider's side, nor the breaker, nor the cache has changed.
  abbrev pub Untouched : World Client → World Client → Type 0
  Untouched w w' = (w'.client ≡ w.client) × (w'.breaker ≡ w.breaker) × (w'.cache ≡ w.cache)

  reclaim-unavailable :
      (org : ℕ) (w : World Client) → (reclaim E org w).1.ledger.unavailable ≡ w.ledger.unavailable
  unfolding reclaim reconcile_expired
  reclaim-unavailable org w = ground arith

  reserve_priced-explained :
      (org : ℕ) (request : InferenceRequest) (price : ModelPrice) (w : World Client)
      → let q = (reserve_priced E org request price w).0 in
        permitted q.outcome ≡ false
        → uncosted (refusal q.outcome) (failure (budget_text q.outcome))
          ≡ explained (some price) w.ledger.unavailable
  unfolding reserve_priced LedgerStore.reserve
  reserve_priced-explained org request price w h = ground arith

  reserve-unpriced :
      (org : ℕ) (provider : ProviderDescriptor) (request : InferenceRequest) (w : World Client)
      → price_for org provider.name provider.model ≡ none
      → refused_result (Reservations.reserve E org provider request w).0
        ≡ explained none w.ledger.unavailable
  unfolding Reservations.reserve
  reserve-unpriced org provider request w f = ground (arith, f)

  reserve-priced :
      (org : ℕ) (provider : ProviderDescriptor) (request : InferenceRequest) (price : ModelPrice)
      (w : World Client)
      → price_for org provider.name provider.model ≡ some price
      → (Reservations.reserve E org provider request w).0
        ≡ ok (reserve_priced E org request price (reclaim E org w).1).0
  unfolding Reservations.reserve
  reserve-priced org provider request price w f = ground (arith, f)

  refused_result-explained :
      (org : ℕ) (provider : ProviderDescriptor) (request : InferenceRequest) (w : World Client)
      → let reservation = (Reservations.reserve E org provider request w).0 in
        lets_through reservation ≡ false
        → refused_result reservation
          ≡ explained (price_for org provider.name provider.model) w.ledger.unavailable
  refused_result-explained org provider request w h =
      let down = w.ledger.unavailable in
      elim (Option-cases (price_for org provider.name provider.model)) [
        | inl f ↦
            reserve-unpriced org provider request w f
            ∙ ap (λ (p : Option ModelPrice). explained p down) (sym f)
        | inr (price, f) ↦
            let is = reserve-priced org provider request price w f in
            let w1 = (reclaim E org w).1 in
            ap refused_result is
            ∙ reserve_priced-explained org request price w1 (sym (ap lets_through is) ∙ h)
            ∙ ap (explained (some price)) (reclaim-unavailable org w)
            ∙ ap (λ (p : Option ModelPrice). explained p down) (sym f)
      ]

  reserve-Untouched :
      (org : ℕ) (provider : ProviderDescriptor) (request : InferenceRequest) (w : World Client)
      → Untouched w (Reservations.reserve E org provider request w).1
  unfolding Reservations.reserve Reservations.reclaim Reservations.reserve_priced
  reserve-Untouched org provider request w = ground arith

  refused_result-Untouched :
      (org : ℕ) (provider : ProviderDescriptor) (request : InferenceRequest) (digest : Text)
      (w : World Client)
      → let reservation = (Reservations.reserve E org provider request w).0 in
        lets_through reservation ≡ false
        → let (answer, w') = execute_and_settle E org provider request digest w in
          (answer ≡ ok (refused_result reservation)) × Untouched w w'
  unfolding execute_and_settle not_accountable_result finish
  refused_result-Untouched org provider request digest w h =
      ground (arith, reserve-Untouched org provider request w)

  -- If the reservation does not let the request through, then the provider is not called: its side, the
  -- breaker and the cache are left as they were. The result is a failure without a cost: NOT_ACCOUNTABLE
  -- if the model has no price, otherwise BUDGET_UNAVAILABLE with budget_unavailable if the ledger does
  -- not answer, and BUDGET_DENIED with budget_exceeded if it does.
  pub refused-Untouched :
      (org : ℕ) (provider : ProviderDescriptor) (request : InferenceRequest) (digest : Text)
      (w : World Client)
      → let reservation = (Reservations.reserve E org provider request w).0 in
        lets_through reservation ≡ false
        → let (answer, w') = execute_and_settle E org provider request digest w in
          (answer
            ≡ ok (explained (price_for org provider.name provider.model) w.ledger.unavailable))
          × Untouched w w'
  refused-Untouched org provider request digest w h =
      let (answer_is, clean) = refused_result-Untouched org provider request digest w h in
      (answer_is ∙ ap ok (refused_result-explained org provider request w h), clean)

  -- A hit is answered from the cache: the ledger, the provider's side, the breaker and the cache are
  -- left as they were, and the answer has no usage and no cost.
  pub hit-Untouched :
      (org : ℕ) (provider : ProviderDescriptor) (request : InferenceRequest) (digest : Text)
      (c : CachedResponse) (w : World Client)
      → safe_get (clock w.readings) org digest w.cache ≡ some c
      → let (answer, w') = execute_keyed E org provider request digest w in
        (answer ≡ ok (uncosted cache_hit (replayed c))) × (w'.ledger ≡ w.ledger) × Untouched w w'
  unfolding execute_keyed from_cache finish
  hit-Untouched org provider request digest c w h = ground arith
