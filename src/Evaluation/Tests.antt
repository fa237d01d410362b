-- ===== src/Evaluation/Tests.antt =====
-- Two evaluators on one result, of which the second raises.
use enterprise_llm_gateway.Prelude.{
  List, [], codes, nat_eq, pair_eq, refl, text_eq, ℕ, ◌+◌, ◌∷◌, ◌≡◌,
}
use enterprise_llm_gateway.Prelude.Result.{ok}
use enterprise_llm_gateway.Evaluation.{
  Evaluating, EvaluationInput, EvaluationResult, Evaluator, Verdict, error, evaluation_runner,
  passed, run_evaluators, usage_consistency,
}
use enterprise_llm_gateway.Evaluation.Coherence.{IsCoherent, execute-IsCoherent}
use enterprise_llm_gateway.Evaluation.Verdicts.{AllAnswer, run-AllAnswer}
use enterprise_llm_gateway.Execution.{execute}
use enterprise_llm_gateway.Execution.Demo.{demo, execution, request, served, world}
use enterprise_llm_gateway.Ports.{executed}

abbrev evaluators : List (Evaluator ℕ)
evaluators =
    record {
      name = codes "usage";
      evaluate = λ target n. (Verdict.returned (usage_consistency (codes "usage") target), n + 1);
    }
    ∷ record {
      name = codes "broken";
      evaluate = λ target n. (Verdict.raised (codes "E") (codes "x"), n + 1);
    }
    ∷ []

abbrev target : EvaluationInput
target = record {
  organization_id = 1;
  correlation_id = codes "r1";
  outcome = executed;
  response = served;
}

abbrev idle : Evaluating ℕ
idle = record { state = 0; counted = [] }

both_counted :
    (run_evaluators evaluators target idle).1.counted
    ≡ (codes "broken", error) ∷ (codes "usage", passed) ∷ []
unfolding run_evaluators usage_consistency
both_counted = refl

run-AllAnswer_example :
    let (answer, st') = run_evaluators evaluators target idle in
    (rs : List EvaluationResult) × (answer
      ≡ ok (record { organization_id = 1; correlation_id = codes "r1"; results = rs }))
    × AllAnswer target evaluators 0 rs st'.state
unfolding evaluation_runner
run-AllAnswer_example = run-AllAnswer target evaluators evaluators idle refl (refl, (refl, tt))

execute-IsCoherent_example :
    IsCoherent
      (codes "usage")
      1
      (codes "r1")
      (execute (demo served) execution request (world 5000)).0
execute-IsCoherent_example =
    execute-IsCoherent (demo served) (codes "usage") 1 (codes "r1") execution request (world 5000)
