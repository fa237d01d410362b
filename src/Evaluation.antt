-- ===== src/Evaluation.antt =====
-- application/ports/evaluation.py, application/evaluation/runner.py, usage_consistency.py and
-- response_completeness.py: verdicts on a completed inference.
pub mod Verdicts
pub mod Coherence
mod Tests
use enterprise_llm_gateway.Prelude.{
  Bool, List, Option, Text, [], codes, false, if◌then◌else◌, nat_eq, none, not, pair_eq, some,
  text_eq, true, ℕ, ◌&&◌, ◌++◌, ◌||◌, ◌∷◌,
}
use enterprise_llm_gateway.Prelude.Result.{Result, err, ok}
use enterprise_llm_gateway.Ports.{
  Content, ExecutionOutcome, ProviderResponse, absent, budget_denied, budget_unavailable, cache_hit,
  executed, not_accountable, not_routed, object,
}

pub data EvaluationOutcome : Type 0 where
  passed failing error not_applicable : EvaluationOutcome

pub record EvaluationInput : Type 0 where
  pub organization_id : ℕ
  pub correlation_id : Text
  pub outcome : ExecutionOutcome
  pub response : ProviderResponse

pub record EvaluationResult : Type 0 where
  pub evaluator : Text
  pub outcome : EvaluationOutcome
  pub detail : Text

abbrev pub is_empty_text : Text → Bool
is_empty_text [] = true
is_empty_text (c ∷ t) = false

abbrev pub needs_detail : EvaluationOutcome → Bool
needs_detail passed = false
needs_detail failing = true
needs_detail error = true
needs_detail not_applicable = false

-- `EvaluationResult(…)`: none is either of its ValueErrors.
unfoldable pub evaluation_result : Text → EvaluationOutcome → Text → Option EvaluationResult
evaluation_result evaluator o detail =
    if is_empty_text evaluator || (needs_detail o && is_empty_text detail)
    then none
    else some (record { evaluator = evaluator; outcome = o; detail = detail })

-- What `evaluate` does: it returns a verdict, or raises an exception with a type's name and a text.
pub data Verdict : Type 0 where
  returned : EvaluationResult → Verdict
  raised : Text → Text → Verdict

-- An `Evaluator` over the state that the evaluators share.
pub record Evaluator (S : Type 0) : Type 0 where
  pub name : Text
  pub evaluate : EvaluationInput → S → Verdict × S

pub record EvaluationReport : Type 0 where
  pub organization_id : ℕ
  pub correlation_id : Text
  pub results : List EvaluationResult

pub data EvaluationError : Type 0 where
  no_results unnamed no_evaluators : EvaluationError

unfoldable pub evaluation_report :
    ℕ → Text → List EvaluationResult → Result EvaluationError EvaluationReport
evaluation_report org corr [] = err no_results
evaluation_report org corr (r ∷ rs) =
    ok (record { organization_id = org; correlation_id = corr; results = r ∷ rs })

abbrev pub is_failing : EvaluationOutcome → Bool
is_failing passed = false
is_failing failing = true
is_failing error = false
is_failing not_applicable = false

abbrev pub is_error : EvaluationOutcome → Bool
is_error passed = false
is_error failing = false
is_error error = true
is_error not_applicable = false

unfoldable pub any_outcome : (EvaluationOutcome → Bool) → List EvaluationResult → Bool
any_outcome p [] = false
any_outcome p (r ∷ rs) = p r.outcome || any_outcome p rs

-- The properties `target_failed` and `evaluation_degraded`.
unfoldable pub target_failed : EvaluationReport → Bool
unfolding any_outcome
target_failed r = any_outcome is_failing r.results

unfoldable pub evaluation_degraded : EvaluationReport → Bool
unfolding any_outcome
evaluation_degraded r = any_outcome is_error r.results

-- `_verdict`: an exception becomes an ERROR; without an evaluator's name the result itself raises.
unfoldable pub verdict_of : Text → Verdict → Result EvaluationError EvaluationResult
unfolding evaluation_result
verdict_of name (returned r) = ok r
verdict_of name (raised type_name message) =
    elim (evaluation_result name error
      (codes "evaluator raised " ++ (type_name ++ (codes ": " ++ message)))) [
        | none ↦ err unnamed
        | some r ↦ ok r
      ]

-- The evaluators' state, and the verdicts counted by evaluator and outcome, newest first.
pub record Evaluating (S : Type 0) : Type 0 where
  pub state : S
  pub counted : List (Text × EvaluationOutcome)

module _ {S : Type 0} where
  -- `EvaluationRunner(evaluators)`
  unfoldable pub evaluation_runner :
      List (Evaluator S) → Result EvaluationError (List (Evaluator S))
  evaluation_runner [] = err no_evaluators
  evaluation_runner (e ∷ es) = ok (e ∷ es)

  unfoldable pub judge :
      Evaluator S
      → EvaluationInput
      → Evaluating S
      → Result EvaluationError EvaluationResult × Evaluating S
  unfolding verdict_of
  judge evaluator target st =
      let (v, s) = evaluator.evaluate target st.state in
      (verdict_of evaluator.name v, record st { state = s })

  unfoldable pub count_verdict : EvaluationResult → Evaluating S → Evaluating S
  count_verdict r st = record st { counted = (r.evaluator, r.outcome) ∷ st.counted }

  -- The loop of `run`, with the results so far.
  unfoldable pub run_from :
      List EvaluationResult
      → List (Evaluator S)
      → EvaluationInput
      → Evaluating S
      → Result EvaluationError EvaluationReport × Evaluating S
  unfolding judge count_verdict evaluation_report
  run_from results [] target st =
      (evaluation_report target.organization_id target.correlation_id results, st)
  run_from results (e ∷ es) target st =
      let (answer, st') = judge e target st in
      elim answer [
        | err failure ↦ (err failure, st')
        | ok r ↦ run_from (results ++ (r ∷ [])) es target (count_verdict r st')
      ]

  -- `EvaluationRunner.run`
  unfoldable pub run_evaluators :
      List (Evaluator S)
      → EvaluationInput
      → Evaluating S
      → Result EvaluationError EvaluationReport × Evaluating S
  unfolding run_from
  run_evaluators evaluators target st = run_from [] evaluators target st

-- `ExecutionOutcome.value`
abbrev pub execution_text : ExecutionOutcome → Text
execution_text cache_hit = codes "cache_hit"
execution_text executed = codes "executed"
execution_text not_routed = codes "not_routed"
execution_text budget_denied = codes "budget_denied"
execution_text budget_unavailable = codes "budget_unavailable"
execution_text not_accountable = codes "not_accountable"

abbrev pub reports_usage : ProviderResponse → Bool
reports_usage r = elim r.usage [ none ↦ false | some u ↦ true ]

abbrev pub result_of : Text → EvaluationOutcome → Text → EvaluationResult
result_of name o detail = record { evaluator = name; outcome = o; detail = detail }

abbrev pub not_billable : Text → EvaluationInput → EvaluationResult
not_billable name target = result_of name not_applicable (
    codes "no billable execution occurred (outcome="
    ++ (execution_text target.outcome ++ codes ")"))

-- `UsageAccountingConsistencyEvaluator.evaluate`
unfoldable pub usage_consistency : Text → EvaluationInput → EvaluationResult
usage_consistency name target = elim target.outcome [
  | cache_hit ↦
      if reports_usage target.response
      then result_of name failing
          (codes "cache hit reported provider usage, but no provider was called")
      else result_of name passed (codes "cache hit correctly reported no usage")
  | executed ↦
      if target.response.ok
      then (if reports_usage target.response
          then result_of name passed
              (codes "executed success reported usage available for settlement")
          else result_of name failing
              (codes "executed success reported no usage, so its cost cannot be settled"))
      else not_billable name target
  | not_routed ↦ not_billable name target
  | budget_denied ↦ not_billable name target
  | budget_unavailable ↦ not_billable name target
  | not_accountable ↦ not_billable name target
]

abbrev pub delivers : ExecutionOutcome → Bool
delivers cache_hit = true
delivers executed = true
delivers not_routed = false
delivers budget_denied = false
delivers budget_unavailable = false
delivers not_accountable = false

abbrev pub carries_content : ProviderResponse → Bool
carries_content r = elim r.content [ Content.text t ↦ true | object n ↦ true | absent ↦ false ]

-- `ResponseCompletenessEvaluator.evaluate`
unfoldable pub response_completeness : Text → EvaluationInput → EvaluationResult
response_completeness name target =
    if not (delivers target.outcome) || not target.response.ok
    then result_of name not_applicable (
        codes "no successful response was delivered (outcome="
        ++ (execution_text target.outcome ++ codes ")"))
    else if carries_content target.response
    then result_of name passed (codes "successful response carried content")
    else result_of name failing (codes "response reported ok=True but carried no content")
