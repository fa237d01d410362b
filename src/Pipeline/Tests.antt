-- ===== src/Pipeline/Tests.antt =====
-- A chain of three stages, and the theorem about its admission. The stages count their calls.
use enterprise_llm_gateway.Prelude.{
  List, Text, [], codes, mem, nat_eq, none, pair_eq, refl, some, text_beq, text_eq, ℕ, ◌+◌, ◌∷◌,
  ◌≡◌,
}
use enterprise_llm_gateway.Prelude.Result.{err}
use enterprise_llm_gateway.Pipeline.{
  Admitting, PipelineStage, StageAnswer, StageContext, admission_outcome, admit, admit_from,
  continue, count_decision, duplicated, normalise, raised, repeats, request_pipeline, returned,
  run_stage,
}
use enterprise_llm_gateway.Pipeline.Admission.{Decides, admit-Decides}

abbrev answering : Text → StageAnswer → PipelineStage ℕ
answering name answer = record {
  name = name;
  before_request = λ context calls. (answer, calls + 1);
}

abbrev pass : StageAnswer
pass = returned (record { action = continue; reason = none; annotations = [] })

abbrev stages : List (PipelineStage ℕ)
stages =
    answering (codes "authorization") pass
    ∷ answering (codes "policy") (raised (codes "KeyError") (codes "rule"))
    ∷ answering (codes "routing") pass
    ∷ []

abbrev context : StageContext
context = record {
  correlation_id = codes "r1";
  organization_id = some 1;
  principal_id = none;
  attributes = [];
}

abbrev start : Admitting ℕ
start = record { state = 0; decisions = [] }

two_calls : (admit stages context start).1.state ≡ 2
unfolding admit admit_from run_stage normalise count_decision admission_outcome
two_calls = refl

same_names :
    request_pipeline (answering (codes "a") pass ∷ answering (codes "a") pass ∷ []) ≡ err duplicated
unfolding request_pipeline repeats mem text_eq text_beq
same_names = refl

admit-Decides_example : Decides context [] stages 0 (admit stages context start)
unfolding request_pipeline repeats mem text_eq text_beq
admit-Decides_example = admit-Decides context stages stages start refl
