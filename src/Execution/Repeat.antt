-- ===== src/Execution/Repeat.antt =====
-- What a request that was charged leaves in the cache for the next one with the same content.
use enterprise_llm_gateway.Reservations
use mathlib.Core.Path.{subst}
use enterprise_llm_gateway.Ledger as LedgerStore
use enterprise_llm_gateway.Prelude.{
  Option-cases, Text, ap, arith, codes, false, if-cases, inl, inr, nat_eq, none, pair_eq, refl,
  some, sym, text_eq, ℕ, ◌+◌, ◌-◌, ◌<◌, ◌∙◌, ◌≡◌, ◌⊎◌,
}
use enterprise_llm_gateway.Prelude.Dict.{get-put_self, put}
use enterprise_llm_gateway.Prelude.Result.{Result, Result-cases, err, ok}
use enterprise_llm_gateway.Accounting.{CostRecord, account, settlement_detail}
use enterprise_llm_gateway.Cache.{
  CachedResponse, Entry, ResponseCache, insert, lookup, safe_get, safe_put,
}
use enterprise_llm_gateway.Execution.{
  Failure, InferenceExecutionResult, call_and_settle, call_provider, execute_and_settle,
  execute_keyed, finish, from_cache, ledger_error, not_accountable_result, observe_call,
  release_then, replayed, settle_call, store_response, uncosted,
}
use enterprise_llm_gateway.Execution.Charges.{settle_call-charged, settle_call-defective}
use enterprise_llm_gateway.Execution.Reach.{Untouched, hit-Untouched}
use enterprise_llm_gateway.Execution.Served.{
  execute_and_settle-priced, execute_and_settle-unpriced, execute_keyed-hit, execute_keyed-miss,
}
use enterprise_llm_gateway.Ledger.{Ledger, LedgerError, permitted, unavailable}
use enterprise_llm_gateway.Ports.{
  ExecutionOutcome, InferenceRequest, ProviderDescriptor, ProviderResponse, cache_hit, executed,
  failure, not_accountable,
}
use enterprise_llm_gateway.Reservations.{reclaim, reserve_priced}
use enterprise_llm_gateway.World.{Env, World, cache_lookup, record_metric, tick}

module _ (E : Env) (org : ℕ) (provider : ProviderDescriptor) (digest : Text) where
  open E use {Client, clock, price_for}

  -- The response as the cache gives it back.
  abbrev pub kept : ProviderResponse → CachedResponse
  kept response = record {
    provider = response.provider;
    model = provider.model;
    content = response.content;
  }

  -- The entry of a response that was written at a reading of the clock.
  abbrev entry_at : ℕ → ℕ → ProviderResponse → Entry
  entry_at n ttl response = record { response = kept response; expires_at = clock n + ttl }

  -- The result has no cost, or its response stands in the cache since the last reading of the clock.
  unfoldable Stores :
      ResponseCache → Result Failure InferenceExecutionResult × World Client → Type 0
  Stores c (err f, w) = Unit
  Stores c (ok result, w) =
      (result.cost ≡ none)
      ⊎ ((n : ℕ) × (w.readings ≡ n + 1)
          × (w.cache ≡ record c {
            entries = put (org, digest) (entry_at n c.ttl result.response) c.entries;
          }))

  release_then-released :
      (corr : Text) (next : World Client → Result Failure InferenceExecutionResult × World Client)
      (w : World Client) (u : Unit {0})
      → (Reservations.release E org corr w).0 ≡ ok u
      → release_then E org corr next w ≡ next (Reservations.release E org corr w).1
  unfolding release_then
  release_then-released corr next w u f = ground (arith, f)

  release_then-raised :
      (corr : Text) (next : World Client → Result Failure InferenceExecutionResult × World Client)
      (w : World Client) (e : LedgerError)
      → (Reservations.release E org corr w).0 ≡ err e
      → release_then E org corr next w
        ≡ (err (ledger_error e), (Reservations.release E org corr w).1)
  unfolding release_then
  release_then-raised corr next w e f = ground (arith, f)

  release_then-Stores :
      (c : ResponseCache) (corr : Text) (o : ExecutionOutcome) (response : ProviderResponse)
      (w : World Client)
      → Stores c (release_then E org corr (finish E o response none) w)
  release_then-Stores c corr o response w =
      elim (Result-cases (Reservations.release E org corr w).0) [
        | inl (u, f) ↦
            subst (Stores c) (sym (release_then-released corr (finish E o response none) w u f))
              (unfold Stores finish in inl refl)
        | inr (e, f) ↦
            subst (Stores c) (sym (release_then-raised corr (finish E o response none) w e f))
              (unfold Stores in tt)
      ]

  safe_put-up :
      (now : ℕ) (r : CachedResponse) (c : ResponseCache)
      → c.unavailable ≡ false
      → safe_put now org digest r c ≡ record c {
        entries = put (org, digest) (record { response = r; expires_at = now + c.ttl }) c.entries;
      }
  unfolding safe_put insert
  safe_put-up now r c up = ground (arith, up)

  stored-Stores :
      (response : ProviderResponse) (r : CostRecord) (w : World Client)
      → w.cache.unavailable ≡ false
      → Stores w.cache
          (finish E executed response (some r) (store_response E org provider digest response w))
  unfolding Stores finish store_response
  stored-Stores response r w up =
      inr (w.readings, refl, safe_put-up (clock w.readings) (kept response) w.cache up)

  settle_call-refused :
      (request : InferenceRequest) (response : ProviderResponse) (w : World Client) (c : CostRecord)
      (e : LedgerError)
      → account price_for response provider org request.correlation_id ≡ ok c
      → let (answer, s') =
          LedgerStore.settle org request.correlation_id (settlement_detail c) w.ledger in
        answer ≡ err e
        → settle_call E org provider request digest response w
          ≡ (err (ledger_error e), record w { ledger = s' })
  unfolding settle_call Reservations.settle
  settle_call-refused request response w c e f refused = ground (arith, f, refused)

  settle_call-Stores :
      (request : InferenceRequest) (response : ProviderResponse) (w : World Client)
      → w.cache.unavailable ≡ false
      → Stores w.cache (settle_call E org provider request digest response w)
  unfolding not_accountable_result
  settle_call-Stores request response w up =
      let corr = request.correlation_id in
      elim (Result-cases (account price_for response provider org corr)) [
        | inr (e, f) ↦
            rw (settle_call-defective E org provider request digest response w e f) (
              release_then-Stores w.cache corr not_accountable (failure (codes "not_accountable"))
                w)
        | inl (c, f) ↦
            elim (Result-cases (LedgerStore.settle org corr (settlement_detail c) w.ledger).0) [
              | inl (u, done) ↦
                  rw (settle_call-charged E org provider request digest response w c f done) (
                    stored-Stores response c
                      (record w {
                        ledger = (LedgerStore.settle org corr (settlement_detail c) w.ledger).1;
                      })
                      up)
              | inr (e, refused) ↦
                  rw (settle_call-refused request response w c e f refused) (unfold Stores in tt)
            ]
      ]

  call_and_settle-Stores :
      (request : InferenceRequest) (w : World Client)
      → w.cache.unavailable ≡ false
      → Stores w.cache (call_and_settle E org provider request digest w)
  unfolding call_and_settle call_provider observe_call
  call_and_settle-Stores request w up =
      let (response, w1) = call_provider E provider request w in
      let w2 = observe_call E org provider response w1 in
      if-cases (Stores w.cache) response.ok (λ good. settle_call-Stores request response w2 up)
        (λ bad. release_then-Stores w.cache request.correlation_id executed response w2)

  execute_and_settle-Stores :
      (request : InferenceRequest) (w : World Client)
      → w.cache.unavailable ≡ false
      → Stores w.cache (execute_and_settle E org provider request digest w)
  unfolding not_accountable_result finish Reservations.reclaim Reservations.reserve_priced
  execute_and_settle-Stores request w up =
      let w1 = (Reservations.reclaim E org w).1 in
      elim (Option-cases (price_for org provider.name provider.model)) [
        | inl f ↦
            rw (execute_and_settle-unpriced E org provider request digest w f)
              (unfold Stores in inl refl)
        | inr (price, f) ↦
            let (r, w2) = Reservations.reserve_priced E org request price w1 in
            rw (execute_and_settle-priced E org provider request digest w price f) (
              if-cases (Stores w.cache) (permitted r.outcome)
                (λ held. call_and_settle-Stores request w2 up)
                (λ refused. unfold Stores in inl refl))
      ]

  execute_keyed-Stores :
      (request : InferenceRequest) (w : World Client)
      → w.cache.unavailable ≡ false
      → Stores w.cache (execute_keyed E org provider request digest w)
  unfolding from_cache finish
  execute_keyed-Stores request w up =
      elim (Option-cases (safe_get (clock w.readings) org digest w.cache)) [
        | inl f ↦
            rw (execute_keyed-miss E org provider request digest w f)
              (execute_and_settle-Stores request (record_metric (cache_lookup false) (tick w)) up)
        | inr (c, f) ↦
            rw (execute_keyed-hit E org provider request digest w c f) (unfold Stores in inl refl)
      ]

  safe_get-fresh :
      (now n : ℕ) (response : ProviderResponse) (c : ResponseCache)
      → c.unavailable ≡ false
      → now < clock n + c.ttl
      → safe_get now org digest
          (record c { entries = put (org, digest) (entry_at n c.ttl response) c.entries })
        ≡ some (kept response)
  unfolding safe_get lookup
  safe_get-fresh now n response c up soon =
      ground (arith, up, soon, get-put_self (org, digest) (entry_at n c.ttl response) c.entries)

  -- With a cache that answers: if a request was charged, then the next request with the same key, whoever sends it, that finds
  -- the cache as the first one left it before the entry's time to live is over, is answered from the
  -- cache with the same content: it has no cost, and neither the ledger nor the provider is touched.
  -- The entry's time is that of the last reading of the clock by the first request.
  pub charged-hit :
      (request again : InferenceRequest) (w later : World Client) (r : InferenceExecutionResult)
      (c : CostRecord)
      → let (answer, w') = execute_keyed E org provider request digest w in
        w.cache.unavailable ≡ false
        → answer ≡ ok r
        → r.cost ≡ some c
        → later.cache ≡ w'.cache
        → clock later.readings < clock (w'.readings - 1) + w.cache.ttl
        → let (answer', w'') = execute_keyed E org provider again digest later in
          (answer' ≡ ok (uncosted cache_hit (replayed (kept r.response))))
          × (w''.ledger ≡ later.ledger)
          × Untouched E later w''
  unfolding Stores
  charged-hit request again w later r c up answered costs same soon =
      let z = execute_keyed E org provider request digest w in
      let stores : Stores w.cache (ok r, z.1) =
        subst (λ (a : Result Failure InferenceExecutionResult). Stores w.cache (a, z.1)) answered
          (execute_keyed-Stores request w up) in
      elim stores [
        | inl free ↦ absurd (cc)
        | inr (n, n_is, cache_is) ↦
            hit-Untouched E org provider again digest (kept r.response) later (
              ap (safe_get (clock later.readings) org digest) (same ∙ cache_is)
              ∙ safe_get-fresh (clock later.readings) n r.response w.cache up (
                  subst (λ (m : ℕ). clock later.readings < clock m + w.cache.ttl)
                    (omega (arith, n_is)) soon))
      ]
