-- ===== src/Execution/Calls.antt =====
-- The ledger's calls of one request: which of the four coroutines, for which organization and under
-- which identifier.
use enterprise_llm_gateway.Reservations
use enterprise_llm_gateway.Ledger as LedgerStore
use enterprise_llm_gateway.Prelude.{
  All, All-append, List, Option-cases, Text, [], ap, arith, codes, false, if-cases, inl, inr,
  nat_eq, none, pair_eq, refl, sym, text_eq, ℕ, ◌++◌, ◌-◌, ◌∙◌, ◌∷◌, ◌≡◌,
}
use enterprise_llm_gateway.Prelude.Result.{Result, Result-cases, ok}
use enterprise_llm_gateway.Accounting.{
  CostRecord, ModelPrice, account, compute_cost, estimate_usage, settlement_detail,
}
use enterprise_llm_gateway.Cache.{compute_cache_key, safe_get}
use enterprise_llm_gateway.Execution.{
  Failure, InferenceExecutionResult, call_and_settle, call_provider, execute, execute_and_settle,
  execute_keyed, finish, from_cache, not_accountable_result, observe_call, release_then,
  settle_call, store_response,
}
use enterprise_llm_gateway.Execution.Charges.{settle_call-defective}
use enterprise_llm_gateway.Execution.Served.{
  execute-not_routed, execute-routed, execute_and_settle-priced, execute_and_settle-unpriced,
  execute_keyed-hit, execute_keyed-miss,
}
use enterprise_llm_gateway.Ledger.{Ledger, permitted}
use enterprise_llm_gateway.Ledger.Orgs.{
  Op, apply, reconcile_op, release_op, reserve_op, run, settle_op,
}
use enterprise_llm_gateway.Ports.{
  ExecutionOutcome, InferenceRequest, ProviderDescriptor, ProviderResponse, executed, failure,
  not_accountable,
}
use enterprise_llm_gateway.Reservations.{reclaim, reserve_priced}
use enterprise_llm_gateway.Routing.{RoutingExecution, routed}
use enterprise_llm_gateway.World.{Env, World, cache_lookup, record_metric, tick}

-- A call for the organization, and under the identifier where it has one.
unfoldable pub IsOwn : ℕ → Text → Op → Type 0
IsOwn org corr (reserve_op now o c cost) = (o ≡ org) × (c ≡ corr)
IsOwn org corr (settle_op o c d) = (o ≡ org) × (c ≡ corr)
IsOwn org corr (release_op o c) = (o ≡ org) × (c ≡ corr)
IsOwn org corr (reconcile_op o older) = o ≡ org

-- The second ledger comes from the first by such calls.
unfoldable pub Acts : ℕ → Text → Ledger → Ledger → Type 0
Acts org corr s s' = (ops : List Op) × All (IsOwn org corr) ops × (s' ≡ run ops s)

pub run-append : (xs ys : List Op) (s : Ledger) → run (xs ++ ys) s ≡ run ys (run xs s)
unfolding run
run-append [] ys s = refl
run-append (x ∷ xs) ys s = run-append xs ys (apply x s)

Acts-refl : (org : ℕ) (corr : Text) (s : Ledger) → Acts org corr s s
unfolding Acts run
Acts-refl org corr s = ([], tt, refl)

Acts-then :
    (org : ℕ) (corr : Text) (s s' : Ledger) (op : Op)
    → Acts org corr s s'
    → IsOwn org corr op
    → Acts org corr s (apply op s')
unfolding Acts run
Acts-then org corr s s' op (ops, mine, eq) it = (
  ops ++ (op ∷ []),
  All-append (IsOwn org corr) ops (op ∷ []) mine (it, tt),
  ap (apply op) eq ∙ sym (run-append ops (op ∷ []) s),
)

module _ (E : Env) where
  open E use {Client, price_for, clock, reservation_ttl}

  -- What an answer's world has done to the ledger.
  abbrev pub Reaches :
      ℕ → Text → Ledger → Result Failure InferenceExecutionResult × World Client → Type 0
  Reaches org corr s z = Acts org corr s z.1.ledger

  ledger-release_then :
      (org : ℕ) (corr : Text) (o : ExecutionOutcome) (response : ProviderResponse)
      (w : World Client)
      → (release_then E org corr (finish E o response none) w).1.ledger
        ≡ (LedgerStore.release org corr w.ledger).1
  unfolding release_then finish Reservations.release
  ledger-release_then org corr o response w = ground arith

  release_then-Reaches :
      (org : ℕ) (corr : Text) (s : Ledger) (o : ExecutionOutcome) (response : ProviderResponse)
      (w : World Client)
      → Acts org corr s w.ledger
      → Reaches org corr s (release_then E org corr (finish E o response none) w)
  release_then-Reaches org corr s o response w h =
      rw (ledger-release_then org corr o response w)
        (unfold apply IsOwn in Acts-then org corr s w.ledger (release_op org corr) h (refl, refl))

  ledger-settle_call :
      (org : ℕ) (provider : ProviderDescriptor) (request : InferenceRequest) (digest : Text)
      (response : ProviderResponse) (w : World Client) (c : CostRecord)
      → account price_for response provider org request.correlation_id ≡ ok c
      → (settle_call E org provider request digest response w).1.ledger
        ≡ (LedgerStore.settle org request.correlation_id (settlement_detail c) w.ledger).1
  unfolding settle_call Reservations.settle finish store_response
  ledger-settle_call org provider request digest response w c f = ground arith

  settle_call-Reaches :
      (org : ℕ) (provider : ProviderDescriptor) (request : InferenceRequest) (digest : Text)
      (s : Ledger) (response : ProviderResponse) (w : World Client)
      → Acts org request.correlation_id s w.ledger
      → Reaches org request.correlation_id s (settle_call E org provider request digest response w)
  unfolding not_accountable_result
  settle_call-Reaches org provider request digest s response w h =
      elim (Result-cases (account price_for response provider org request.correlation_id)) [
        | inl (c, f) ↦ rw (ledger-settle_call org provider request digest response w c f) (
            unfold apply IsOwn in
            Acts-then org request.correlation_id s w.ledger
              (settle_op org request.correlation_id (settlement_detail c)) h (refl, refl))
        | inr (e, f) ↦ rw (settle_call-defective E org provider request digest response w e f) (
            release_then-Reaches org request.correlation_id s not_accountable
              (failure (codes "not_accountable")) w h)
      ]

  call_and_settle-Reaches :
      (org : ℕ) (provider : ProviderDescriptor) (request : InferenceRequest) (digest : Text)
      (s : Ledger) (w : World Client)
      → Acts org request.correlation_id s w.ledger
      → Reaches org request.correlation_id s (call_and_settle E org provider request digest w)
  unfolding call_and_settle call_provider observe_call
  call_and_settle-Reaches org provider request digest s w h =
      let (response, w1) = call_provider E provider request w in
      let w2 = observe_call E org provider response w1 in
      if-cases (Reaches org request.correlation_id s) response.ok
        (λ good. settle_call-Reaches org provider request digest s response w2 h)
        (λ bad. release_then-Reaches org request.correlation_id s executed response w2 h)

  reclaim-Acts :
      (org : ℕ) (corr : Text) (s : Ledger) (w : World Client)
      → Acts org corr s w.ledger
      → Acts org corr s (Reservations.reclaim E org w).1.ledger
  unfolding Reservations.reclaim
  reclaim-Acts org corr s w h =
      unfold apply IsOwn in
      Acts-then org corr s w.ledger (reconcile_op org (clock w.readings - reservation_ttl)) h refl

  reserve_priced-Acts :
      (org : ℕ) (request : InferenceRequest) (price : ModelPrice) (s : Ledger) (w : World Client)
      → Acts org request.correlation_id s w.ledger
      → Acts org request.correlation_id s
          (Reservations.reserve_priced E org request price w).1.ledger
  unfolding Reservations.reserve_priced
  reserve_priced-Acts org request price s w h =
      unfold apply IsOwn in
      Acts-then org request.correlation_id s w.ledger
        (reserve_op (clock w.readings) org request.correlation_id
          (compute_cost (estimate_usage request) price).total_cost)
        h (refl, refl)

  execute_and_settle-Reaches :
      (org : ℕ) (provider : ProviderDescriptor) (request : InferenceRequest) (digest : Text)
      (s : Ledger) (w : World Client)
      → Acts org request.correlation_id s w.ledger
      → Reaches org request.correlation_id s (execute_and_settle E org provider request digest w)
  unfolding not_accountable_result finish
  execute_and_settle-Reaches org provider request digest s w h =
      let w1 = (Reservations.reclaim E org w).1 in
      let h1 = reclaim-Acts org request.correlation_id s w h in
      elim (Option-cases (price_for org provider.name provider.model)) [
        | inl f ↦ rw (execute_and_settle-unpriced E org provider request digest w f) h1
        | inr (price, f) ↦
            let (r, w2) = Reservations.reserve_priced E org request price w1 in
            let h2 = reserve_priced-Acts org request price s w1 h1 in
            rw (execute_and_settle-priced E org provider request digest w price f) (
              if-cases (Reaches org request.correlation_id s) (permitted r.outcome)
                (λ held. call_and_settle-Reaches org provider request digest s w2 h2)
                (λ refused. h2))
      ]

  execute_keyed-Reaches :
      (org : ℕ) (provider : ProviderDescriptor) (request : InferenceRequest) (digest : Text)
      (w : World Client)
      → Reaches org request.correlation_id w.ledger (execute_keyed E org provider request digest w)
  unfolding from_cache finish
  execute_keyed-Reaches org provider request digest w =
      elim (Option-cases (safe_get (clock w.readings) org digest w.cache)) [
        | inl f ↦ rw (execute_keyed-miss E org provider request digest w f) (
            execute_and_settle-Reaches org provider request digest w.ledger
              (record_metric (cache_lookup false) (tick w))
              (Acts-refl org request.correlation_id w.ledger))
        | inr (c, f) ↦
            rw (execute_keyed-hit E org provider request digest w c f)
              (Acts-refl org request.correlation_id w.ledger)
      ]

  -- Whatever happens in a request, its effect on the ledger is that of a sequence of the ledger's
  -- own calls, each for the organization that the routing decision names, and each reservation,
  -- settlement and release under the request's own identifier.
  pub execute-Reaches :
      (e : RoutingExecution) (request : InferenceRequest) (w : World Client)
      → Reaches e.decision.organization_id request.correlation_id w.ledger (execute E e request w)
  unfolding finish
  execute-Reaches e request w =
      let org = e.decision.organization_id in
      let same = Acts-refl org request.correlation_id w.ledger in
      elim (Option-cases (routed e)) [
        | inl f ↦ rw (execute-not_routed E e request w f) same
        | inr (provider, f) ↦
            elim (Option-cases (
              compute_cache_key E.sha256 E.uuid_text org provider.name provider.model
                request.payload)) [
                  | inl k ↦ rw (execute-routed E e provider request w f, k) same
                  | inr (digest, k) ↦
                      rw (execute-routed E e provider request w f, k)
                        (execute_keyed-Reaches org provider request digest w)
                ]
      ]
