-- ===== src/Evaluation/Verdicts.antt =====
-- What a run of the evaluators reports: one verdict for each, in order.
use mathlib.Core.List.{append-nil, append_assoc}
use enterprise_llm_gateway.Prelude.{
  List, [], ap, arith, codes, false, nat_eq, pair_eq, refl, sym, text_eq, ◌++◌, ◌∙◌, ◌∷◌, ◌≡◌,
}
use enterprise_llm_gateway.Prelude.Result.{Result, ok}
use enterprise_llm_gateway.Evaluation.{
  Evaluating, EvaluationError, EvaluationInput, EvaluationReport, EvaluationResult, Evaluator,
  Verdict, count_verdict, error, evaluation_report, evaluation_result, evaluation_runner,
  is_empty_text, raised, result_of, returned, run_evaluators, run_from, verdict_of,
}

module _ {S : Type 0} where
  -- An exception stands in the report as the evaluator's error, with a detail.
  unfoldable pub Answers : Evaluator S → Verdict → EvaluationResult → Type 0
  Answers e (returned v) r = r ≡ v
  Answers e (raised type_name message) r =
      (r.evaluator ≡ e.name)
      × (r.outcome ≡ error)
      × (r.detail ≡ codes "evaluator raised " ++ (type_name ++ (codes ": " ++ message)))

  -- Every evaluator was asked in the state that the one before it left, whatever it answered.
  unfoldable pub AllAnswer :
      EvaluationInput → List (Evaluator S) → S → List EvaluationResult → S → Type 0
  AllAnswer target [] s [] s' = s' ≡ s
  AllAnswer target [] s (r ∷ rs) s' = ⊥
  AllAnswer target (e ∷ es) s [] s' = ⊥
  AllAnswer target (e ∷ es) s (r ∷ rs) s' =
      let (v, next) = e.evaluate target s in Answers e v r × AllAnswer target es next rs s'

  abbrev pub AllNamed : List (Evaluator S) → Type 0
  AllNamed [] = Unit {0}
  AllNamed (e ∷ es) = (is_empty_text e.name ≡ false) × AllNamed es

  verdict_of-Answers :
      (e : Evaluator S) (v : Verdict)
      → is_empty_text e.name ≡ false
      → (r : EvaluationResult) × (verdict_of e.name v ≡ ok r) × Answers e v r
  unfolding verdict_of Answers evaluation_result
  verdict_of-Answers e (returned v) named = (v, refl, refl)
  verdict_of-Answers e (raised type_name message) named = (
    result_of e.name error (codes "evaluator raised " ++ (type_name ++ (codes ": " ++ message))),
    ground (arith, named),
    (refl, refl, refl),
  )

  -- What a run adds to the results so far.
  Adds :
      EvaluationInput
      → List EvaluationResult
      → List (Evaluator S)
      → Evaluating S
      → Result EvaluationError EvaluationReport × Evaluating S
      → Type 0
  Adds target results es st z =
      (rs : List EvaluationResult) × AllAnswer target es st.state rs z.1.state
      × (z.0 ≡ evaluation_report target.organization_id target.correlation_id (results ++ rs))

  run_from-judged :
      (target : EvaluationInput) (results : List EvaluationResult) (e : Evaluator S)
      (es : List (Evaluator S)) (st : Evaluating S) (r : EvaluationResult)
      → let (v, s) = e.evaluate target st.state in
        verdict_of e.name v ≡ ok r
        → run_from results (e ∷ es) target st
          ≡ run_from (results ++ (r ∷ [])) es target (count_verdict r (record st { state = s }))
  unfolding run_from
  run_from-judged target results e es st r is_ok = ground (arith, is_ok)

  run_from-Adds :
      (target : EvaluationInput) (results : List EvaluationResult) (es : List (Evaluator S))
      (st : Evaluating S)
      → AllNamed es
      → Adds target results es st (run_from results es target st)
  unfolding Adds AllAnswer run_from count_verdict
  run_from-Adds target results [] st named = (
    [],
    refl,
    ap (evaluation_report target.organization_id target.correlation_id) (sym (append-nil results)),
  )
  run_from-Adds target results (e ∷ es) st (named, others) =
      let (v, s) = e.evaluate target st.state in
      let (r, is_ok, answers) = verdict_of-Answers e v named in
      let st' = count_verdict r (record st { state = s }) in
      let (rs, all, report) = run_from-Adds target (results ++ (r ∷ [])) es st' others in
      rw (run_from-judged target results e es st r is_ok) (
        r ∷ rs,
        (answers, all),
        report
            ∙ ap (evaluation_report target.organization_id target.correlation_id)
                (append_assoc results (r ∷ []) rs),
      )

  nonempty :
      (target : EvaluationInput) (e : Evaluator S) (es : List (Evaluator S)) (st : Evaluating S)
      (rs : List EvaluationResult)
      → let (answer, st') = run_from [] (e ∷ es) target st in
        AllAnswer target (e ∷ es) st.state rs st'.state
        → answer ≡ evaluation_report target.organization_id target.correlation_id rs
        → (rs : List EvaluationResult) × (answer
            ≡ ok (record {
              organization_id = target.organization_id;
              correlation_id = target.correlation_id;
              results = rs;
            }))
          × AllAnswer target (e ∷ es) st.state rs st'.state
  unfolding AllAnswer evaluation_report
  nonempty target e es st [] all report = absurd all
  nonempty target e es st (r ∷ rs) all report = (r ∷ rs, report, all)

  -- A run of a configured runner whose evaluators have names does not raise, whatever they do: it
  -- reports the target's organization and identifier with one result for each evaluator, in order,
  -- the verdict that it returned, or an error with its name if it raised.
  pub run-AllAnswer :
      (target : EvaluationInput) (es configured : List (Evaluator S)) (st : Evaluating S)
      → evaluation_runner es ≡ ok configured
      → AllNamed configured
      → let (answer, st') = run_evaluators configured target st in
        (rs : List EvaluationResult) × (answer
          ≡ ok (record {
            organization_id = target.organization_id;
            correlation_id = target.correlation_id;
            results = rs;
          }))
        × AllAnswer target configured st.state rs st'.state
  unfolding run_evaluators evaluation_runner Adds
  run-AllAnswer target [] configured st h named = absurd (cc)
  run-AllAnswer target (e ∷ es) [] st h named = absurd (cc)
  run-AllAnswer target (e ∷ es) (c ∷ cs) st h named =
      let (rs, all, report) = run_from-Adds target [] (c ∷ cs) st named in
      nonempty target c cs st rs all report
