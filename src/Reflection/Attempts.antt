-- ===== src/Reflection/Attempts.antt =====
-- The attempts that one reflected request records.
use mathlib.Core.List.{append_assoc}
use mathlib.Core.Path.{subst}
use enterprise_llm_gateway.Prelude.{
  Bool, List, Option, [], ap, arith, false, if-cases, if◌then◌else◌, inl, inr, nat_eq, none,
  pair_eq, refl, some, suc, sym, text_eq, true, zero, ℕ, ◌++◌, ◌+◌, ◌∙◌, ◌∷◌, ◌≡◌,
}
use enterprise_llm_gateway.Prelude.Result.{Result, Result-cases, err, ok}
use enterprise_llm_gateway.Execution.{Failure, InferenceExecutionResult}
use enterprise_llm_gateway.Ports.{InferenceRequest, executed}
use enterprise_llm_gateway.Reflection.{
  AttemptRecord, Reflecting, ReflectionFailure, ReflectionResult, RetryPolicy,
  attempt_correlation_id, attempt_loop, attempt_record, classify, is_retry, one_attempt, raised,
  reflect, reflection_result,
}
use enterprise_llm_gateway.Reflection.Transient.{
  FailedTransiently, FailedTransiently-retry, IsTransient, is_retry-eq, retry-FailedTransiently,
}
use enterprise_llm_gateway.Routing.{RoutingExecution}
use enterprise_llm_gateway.World.{Env, retry}

pub bool-clash : {b : Bool} → b ≡ true → b ≡ false → ⊥
bool-clash h k = cc

module _ (E : Env) (policy : RetryPolicy) (e : RoutingExecution) (request : InferenceRequest) where
  open E use {Client}

  -- Attempts numbered from `k`, at most `n` of them, at least one, each under its own identifier:
  -- every one but the last was a call that failed with a transient error, and has the verdict to retry;
  -- the last is the record of `r`, and if that is such a failure too then there are exactly `n`.
  unfoldable pub RunsFrom : ℕ → ℕ → InferenceExecutionResult → List AttemptRecord → Type 0
  RunsFrom k zero r rest = ⊥
  RunsFrom k (suc n) r [] = ⊥
  RunsFrom k (suc n) r (a ∷ []) =
      (a ≡ attempt_record E policy e request k r) × (FailedTransiently r → n ≡ 0)
  RunsFrom k (suc n) r (a ∷ b ∷ rest) =
      (a.attempt ≡ k)
      × (a.correlation_id ≡ attempt_correlation_id request.correlation_id k)
      × (a.outcome ≡ executed)
      × IsTransient a.error_category
      × (a.verdict ≡ retry)
      × RunsFrom (k + 1) n r (b ∷ rest)

  -- What a loop's answer, if it is a result, adds to the attempts before it.
  unfoldable Explains :
      ℕ → ℕ → List AttemptRecord → Result ReflectionFailure ReflectionResult → Type 0
  unfolding RunsFrom
  Explains k n before (err f) = Unit
  Explains k n before (ok result) =
      (new : List AttemptRecord) × (result.attempts ≡ before ++ new)
      × RunsFrom k n result.final new
      × (result.execution ≡ e)

  pub reflection_result-append :
      (r : InferenceExecutionResult) (before : List AttemptRecord) (a : AttemptRecord)
      → reflection_result r (before ++ (a ∷ [])) e
        ≡ ok (record { final = r; attempts = before ++ (a ∷ []); execution = e })
  unfolding reflection_result
  reflection_result-append r [] a = refl
  reflection_result-append r (b ∷ before) a = refl

  last-Explains :
      (k n : ℕ) (r : InferenceExecutionResult) (before : List AttemptRecord)
      → (is_retry (classify r) ≡ true → n ≡ 0)
      → Explains k
          (suc n)
          before
          (reflection_result r (before ++ (attempt_record E policy e request k r ∷ [])) e)
  unfolding Explains RunsFrom
  last-Explains k n r before h =
      rw (reflection_result-append r before (attempt_record E policy e request k r)) (
        attempt_record E policy e request k r ∷ [],
        refl,
        (refl, λ transiently. h (FailedTransiently-retry r transiently)),
        refl,
      )

  -- A retried attempt before the rest.
  more-Explains :
      (k n : ℕ) (r : InferenceExecutionResult) (before : List AttemptRecord)
      (answer : Result ReflectionFailure ReflectionResult)
      → is_retry (classify r) ≡ true
      → Explains (k + 1) (suc n) (before ++ (attempt_record E policy e request k r ∷ [])) answer
      → Explains k (suc (suc n)) before answer
  unfolding Explains
  more-Explains k n r before (err f) again h = tt
  more-Explains k n r before (ok result) again ([], eq, runs, same) =
      absurd (unfold RunsFrom in runs)
  more-Explains k n r before (ok result) again (b ∷ new, eq, runs, same) = (
    attempt_record E policy e request k r ∷ b ∷ new,
    eq ∙ append_assoc before (attempt_record E policy e request k r ∷ []) (b ∷ new),
    unfold RunsFrom in
        (let why = retry-FailedTransiently r again in
          (refl, refl, why.called, why.category, is_retry-eq (classify r) again, runs)),
    same,
  )

  pub loop-raised :
      (n k : ℕ) (last : Option InferenceExecutionResult) (before : List AttemptRecord)
      (st : Reflecting Client) (f : Failure)
      → (one_attempt E policy e request k st).0 ≡ err f
      → attempt_loop E policy e request (suc n) k last before st
        ≡ (err (raised f), (one_attempt E policy e request k st).1)
  unfolding attempt_loop
  loop-raised n k last before st f eq = ground arith

  pub loop-answered :
      (n k : ℕ) (last : Option InferenceExecutionResult) (before : List AttemptRecord)
      (st : Reflecting Client) (r : InferenceExecutionResult)
      → (one_attempt E policy e request k st).0 ≡ ok r
      → let before' = before ++ (attempt_record E policy e request k r ∷ []) in
        let st' = (one_attempt E policy e request k st).1 in
        attempt_loop E policy e request (suc n) k last before st ≡ (
          if is_retry (classify r)
          then attempt_loop E policy e request n (k + 1) (some r) before' st'
          else (reflection_result r before' e, st'))
  unfolding attempt_loop
  loop-answered n k last before st r eq = ground arith

  -- One round, given what the rounds after a transient failure add.
  round-Explains :
      (n k : ℕ) (last : Option InferenceExecutionResult) (before : List AttemptRecord)
      (st : Reflecting Client)
      → ((r : InferenceExecutionResult) (before' : List AttemptRecord) (st' : Reflecting Client)
          → (is_retry (classify r) ≡ true)
          → before' ≡ before ++ (attempt_record E policy e request k r ∷ [])
          → Explains k
              (suc n)
              before
              (attempt_loop E policy e request n (k + 1) (some r) before' st').0)
      → Explains k (suc n) before (attempt_loop E policy e request (suc n) k last before st).0
  round-Explains n k last before st next =
      elim (Result-cases (one_attempt E policy e request k st).0) [
        | inr (f, eq) ↦ rw (loop-raised n k last before st f eq) (unfold Explains in tt)
        | inl (r, eq) ↦ rw (loop-answered n k last before st r eq) (
            if-cases
              (λ (z : Result ReflectionFailure ReflectionResult × Reflecting Client).
                Explains k (suc n) before z.0)
              (is_retry (classify r))
              (λ again.
                next r (before ++ (attempt_record E policy e request k r ∷ []))
                  (one_attempt E policy e request k st).1 again refl)
              (λ done. last-Explains k n r before (λ again. absurd (bool-clash again done))))
      ]

  loop-Explains :
      (n k : ℕ) (last : Option InferenceExecutionResult) (before : List AttemptRecord)
      (st : Reflecting Client)
      → Explains k (suc n) before (attempt_loop E policy e request (suc n) k last before st).0
  unfolding attempt_loop
  loop-Explains zero k last before st =
      round-Explains zero k last before st
        (λ r before' st' again here. rw here (last-Explains k 0 r before (λ h. refl)))
  loop-Explains (suc n) k last before st =
      round-Explains (suc n) k last before st (λ r before' st' again here. rw here (
        more-Explains k n r before
          (attempt_loop E policy e request (suc n) (k + 1) (some r)
            (before ++ (attempt_record E policy e request k r ∷ [])) st').0
          again
          (loop-Explains n (k + 1) (some r) (before ++ (attempt_record E policy e request k r ∷ []))
            st')))

  -- A result of `execute` under a policy of `n + 1` attempts records at least one attempt and at
  -- most `n + 1`, numbered from 1 and each under its own identifier. Every one but the last was a
  -- call that failed with a timeout, a rate limit or a server error; the last is the record of the
  -- result that is handed on; and if that one is such a failure too, all the attempts were used.
  pub reflect-RunsFrom :
      (n : ℕ) (st : Reflecting Client) (result : ReflectionResult)
      → policy.max_attempts ≡ suc n
      → (reflect E policy e request st).0 ≡ ok result
      → RunsFrom 1 policy.max_attempts result.final result.attempts × (result.execution ≡ e)
  unfolding reflect Explains
  reflect-RunsFrom n st result some_attempts h =
      let explained : Explains 1 (suc n) [] (ok result) =
        subst (Explains 1 (suc n) [])
          (ap (λ (m : ℕ). (attempt_loop E policy e request m 1 none [] st).0) (sym some_attempts)
            ∙ h)
          (loop-Explains n 1 none [] st) in
      let (new, eq, runs, same) = explained in
      (
        subst (λ (m : ℕ). RunsFrom 1 m result.final result.attempts) (sym some_attempts)
            (subst (RunsFrom 1 (suc n) result.final) (sym eq) runs),
        same,
      )
