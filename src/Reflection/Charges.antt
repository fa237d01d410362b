-- ===== src/Reflection/Charges.antt =====
-- What a reflected request charges, over all its attempts.
use mathlib.Core.Path.{subst}
use enterprise_llm_gateway.Prelude.{
  List, Option, Option-cases, Text, [], ap, arith, codes, false, if-cases, inl, inr, nat_eq, none,
  pair_eq, some, suc, sym, text_eq, true, zero, ℕ, ◌++◌, ◌+◌, ◌∙◌, ◌∷◌, ◌≡◌, ◌≤◌,
}
use enterprise_llm_gateway.Prelude.Decimal.{append-cancel, decimal-inj}
use enterprise_llm_gateway.Prelude.Dict.{get}
use enterprise_llm_gateway.Prelude.Int.{pos, ℤ, ◌+ℤ◌}
use enterprise_llm_gateway.Prelude.Result.{Result, ok}
use enterprise_llm_gateway.Execution.{InferenceExecutionResult, execute}
use enterprise_llm_gateway.Execution.Charges.{charged, CostsIfServed, plus_zero}
use enterprise_llm_gateway.Execution.Fresh.{execute-fresh}
use enterprise_llm_gateway.Execution.Served.{execute-Accounted}
use enterprise_llm_gateway.Ledger.{Ledger, ledger_for}
use enterprise_llm_gateway.Ports.{InferenceRequest}
use enterprise_llm_gateway.Reflection.{
  AttemptRecord, Reflecting, ReflectionFailure, ReflectionResult, RetryPolicy,
  attempt_correlation_id, attempt_loop, attempt_record, attempt_request, classify, is_retry,
  one_attempt, pause, reflect, reflection_result,
}
use enterprise_llm_gateway.Reflection.Attempts.{bool-clash, loop-answered, reflection_result-append}
use enterprise_llm_gateway.Routing.{RoutingExecution}
use enterprise_llm_gateway.World.{Env}

attempt_correlation_id-inj :
    (corr : Text) (m n : ℕ) → attempt_correlation_id corr m ≡ attempt_correlation_id corr n → m ≡ n
unfolding attempt_correlation_id
attempt_correlation_id-inj corr m n h =
    decimal-inj m n (append-cancel (codes "#") (append-cancel corr h))

retry-failed : (r : InferenceExecutionResult) → is_retry (classify r) ≡ true → r.response.ok ≡ false
unfolding classify
retry-failed r again = ground arith

-- A transient failure is not served, so it is not charged.
retry-uncharged :
    (r : InferenceExecutionResult)
    → is_retry (classify r) ≡ true
    → CostsIfServed r
    → charged r.cost ≡ pos 0
retry-uncharged r again served = elim (Option-cases r.cost) [
  | inl f ↦ ap charged f
  | inr (c, f) ↦ absurd (bool-clash (served.0 (λ h. cc)).1 (retry-failed r again))
]

module _ (E : Env) (policy : RetryPolicy) (e : RoutingExecution) (request : InferenceRequest) where
  open E use {Client}

  abbrev id_of : ℕ → Text
  id_of n = attempt_correlation_id request.correlation_id n

  -- The store answers, so much is spent, and the attempts from `k` on are new.
  pub record IsReady (spent : ℤ) (k : ℕ) (s : Ledger) : Type 0 where
    pub up : s.unavailable ≡ false
    pub spent_is : (ledger_for e.decision.organization_id s).spent ≡ spent
    pub new :
        (j : ℕ)
        → k ≤ j
        → get (id_of j) (ledger_for e.decision.organization_id s).reservations ≡ none

  answer-one_attempt :
      (k : ℕ) (st : Reflecting Client)
      → (one_attempt E policy e request k st).0
        ≡ (execute E e (attempt_request E policy e request k) st.world).0
  unfolding one_attempt pause
  answer-one_attempt k st = ground arith

  ledger-one_attempt :
      (k : ℕ) (st : Reflecting Client)
      → (one_attempt E policy e request k st).1.world.ledger
        ≡ (execute E e (attempt_request E policy e request k) st.world).1.ledger
  unfolding one_attempt pause
  ledger-one_attempt k st = ground arith

  attempt-IsReady :
      (json : Text) (spent : ℤ) (k : ℕ) (st : Reflecting Client)
      → request.payload.canonical ≡ some json
      → IsReady spent k st.world.ledger
      → (r : InferenceExecutionResult) × ((one_attempt E policy e request k st).0 ≡ ok r)
        × CostsIfServed r
        × IsReady
            (spent +ℤ charged r.cost)
            (k + 1)
            (one_attempt E policy e request k st).1.world.ledger
  attempt-IsReady json spent k st encodes ready =
      let request' = attempt_request E policy e request k in
      let h =
        execute-Accounted E e request' json st.world encodes ready.up (ready.new k (omega arith)) in
      (
        h.result,
        answer-one_attempt k st ∙ h.returned,
        h.served,
        rw (ledger-one_attempt k st) (record {
          up = h.up;
          spent_is = h.spent_is ∙ ap (λ (z : ℤ). z +ℤ charged h.result.cost) ready.spent_is;
          new = λ j later.
              execute-fresh E e request' (id_of j) st.world ready.up
                (λ same. absurd (
                  omega (arith, attempt_correlation_id-inj request.correlation_id j k same, later)))
                (ready.new j (omega (arith, later)));
        }),
      )

  -- The loop returned a result, and what was spent since grew by what its final one charges.
  pub record Charges (spent : ℤ) (z : Result ReflectionFailure ReflectionResult × Reflecting Client)
      : Type 0 where
    pub result : ReflectionResult
    pub returned : z.0 ≡ ok result
    pub spent_is :
        (ledger_for e.decision.organization_id z.1.world.ledger).spent
        ≡ spent +ℤ charged result.final.cost

  final-Charges :
      (spent : ℤ) (k : ℕ) (r : InferenceExecutionResult) (before : List AttemptRecord)
      (st : Reflecting Client)
      → IsReady (spent +ℤ charged r.cost) (k + 1) st.world.ledger
      → Charges spent
          (reflection_result r (before ++ (attempt_record E policy e request k r ∷ [])) e, st)
  final-Charges spent k r before st ready = record {
    result = record {
      final = r;
      attempts = before ++ (attempt_record E policy e request k r ∷ []);
      execution = e;
    };
    returned =
        reflection_result-append E policy e request r before
          (attempt_record E policy e request k r);
    spent_is = ready.spent_is;
  }

  -- One round, given what the rounds after a transient failure charge.
  round-Charges :
      (json : Text) (spent : ℤ) (n k : ℕ) (last : Option InferenceExecutionResult)
      (before : List AttemptRecord) (st : Reflecting Client)
      → request.payload.canonical ≡ some json
      → IsReady spent k st.world.ledger
      → ((r : InferenceExecutionResult) (st' : Reflecting Client)
          → charged r.cost ≡ pos 0
          → IsReady (spent +ℤ charged r.cost) (k + 1) st'.world.ledger
          → Charges spent (
              attempt_loop E policy e request n
                (k + 1)
                (some r)
                (before ++ (attempt_record E policy e request k r ∷ []))
                st'))
      → Charges spent (attempt_loop E policy e request (suc n) k last before st)
  round-Charges json spent n k last before st encodes ready next =
      let (r, eq, served, after) = attempt-IsReady json spent k st encodes ready in
      let st' = (one_attempt E policy e request k st).1 in
      rw (loop-answered E policy e request n k last before st r eq) (
        if-cases (Charges spent) (is_retry (classify r))
          (λ again. next r st' (retry-uncharged r again served) after)
          (λ done. final-Charges spent k r before st' after))

  loop-Charges :
      (json : Text) (n : ℕ) (spent : ℤ) (k : ℕ) (last : Option InferenceExecutionResult)
      (before : List AttemptRecord) (st : Reflecting Client)
      → request.payload.canonical ≡ some json
      → IsReady spent k st.world.ledger
      → Charges spent (attempt_loop E policy e request (suc n) k last before st)
  unfolding attempt_loop
  loop-Charges json zero spent k last before st encodes ready =
      round-Charges json spent zero k last before st encodes ready
        (λ r st' free after. final-Charges spent k r before st' after)
  loop-Charges json (suc n) spent k last before st encodes ready =
      round-Charges json spent (suc n) k last before st encodes ready (λ r st' free after.
        loop-Charges json n spent (k + 1) (some r)
          (before ++ (attempt_record E policy e request k r ∷ [])) st' encodes
          (subst (λ (z : ℤ). IsReady z (k + 1) st'.world.ledger)
            (ap (λ (z : ℤ). spent +ℤ z) free ∙ plus_zero spent) after))

  pub reflect-Charges :
      (n : ℕ) (json : Text) (st : Reflecting Client)
      → policy.max_attempts ≡ suc n
      → request.payload.canonical ≡ some json
      → IsReady (ledger_for e.decision.organization_id st.world.ledger).spent 1 st.world.ledger
      → Charges
          (ledger_for e.decision.organization_id st.world.ledger).spent
          (reflect E policy e request st)
  unfolding reflect
  reflect-Charges n json st some_attempts encodes ready =
      let spent = (ledger_for e.decision.organization_id st.world.ledger).spent in
      subst (λ (m : ℕ). Charges spent (attempt_loop E policy e request m 1 none [] st))
        (sym some_attempts) (loop-Charges json n spent 1 none [] st encodes ready)
