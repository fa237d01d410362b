-- ===== src/Serving.antt =====
-- application/serving/inference_service.py: admission, then reflection and evaluation, or a stream.
pub mod Entitled
pub mod Spotless
pub mod Decides
mod Tests
pub mod Demo
use enterprise_llm_gateway.Prelude.{
  Bool, List, Option, Text, [], false, if◌then◌else◌, nat_eq, none, pair_eq, some, text_eq, true, ℕ,
  ◌∷◌,
}
use enterprise_llm_gateway.Prelude.Dict.{get}
use enterprise_llm_gateway.Prelude.Result.{Result, err, ok}
use enterprise_llm_gateway.Evaluation.{
  Evaluating, EvaluationError, EvaluationReport, Evaluator, run_evaluators,
}
use enterprise_llm_gateway.Evaluation.Coherence.{input_of}
use enterprise_llm_gateway.Pipeline.{
  AdmissionOutcome, Admitting, OutcomeError, PipelineStage, StageContext, StageRecord, Value, admit,
  admitted, execution, flag, mapping, nothing, number, opaque, stages_run, texts,
}
use enterprise_llm_gateway.Ports.{ExecutionOutcome, InferenceRequest, ProviderDescriptor}
use enterprise_llm_gateway.Reflection.{ReflectionFailure, ReflectionResult, RetryPolicy, reflect}
use enterprise_llm_gateway.Routing.{RoutingExecution}
use enterprise_llm_gateway.Stages.{routing_key}
use enterprise_llm_gateway.StreamPort.{Upstream}
use enterprise_llm_gateway.Streaming.{OpenFailure, StreamSession, open_session}
use enterprise_llm_gateway.World.{Env, World, record_metric, served_request}

pub record ServedInference : Type 0 where
  pub admission : AdmissionOutcome
  pub reflection : Option ReflectionResult
  pub evaluation : Option EvaluationReport

pub record ServedStream : Type 0 where
  pub admission : AdmissionOutcome
  pub session : Option StreamSession

-- What can escape: the admission's ValueErrors, `RoutingTransportError` with the stages that ran, what
-- escapes from the parts, and the ValueErrors of a result that contradicts its admission.
pub data ServeFailure : Type 0 where
  misadmitted : OutcomeError → ServeFailure
  no_routing : List Text → ServeFailure
  unreflected : ReflectionFailure → ServeFailure
  unevaluated : EvaluationError → ServeFailure
  unopened : OpenFailure → ServeFailure
  unexecuted executed_anyway : ServeFailure

abbrev pub is_some : {A : Type 0} → Option A → Bool
is_some none = false
is_some (some a) = true

-- The check of `ServedInference` and `ServedStream`: something was done exactly if it was admitted.
unfoldable pub consistent : Bool → Bool → Result ServeFailure (Unit {0})
consistent admits does =
    if admits
    then (if does then ok tt else err unexecuted)
    else (if does then err executed_anyway else ok tt)

abbrev pub with_check : {A : Type 0} → Result ServeFailure (Unit {0}) → A → Result ServeFailure A
with_check (ok u) a = ok a
with_check (err e) a = err e

unfoldable pub served_inference :
    AdmissionOutcome
    → Option ReflectionResult
    → Option EvaluationReport
    → Result ServeFailure ServedInference
unfolding consistent
served_inference admission reflection evaluation =
    with_check (consistent (admitted admission) (is_some reflection))
      (record { admission = admission; reflection = reflection; evaluation = evaluation })

unfoldable pub served_stream :
    AdmissionOutcome → Option StreamSession → Result ServeFailure ServedStream
unfolding consistent
served_stream admission session =
    with_check (consistent (admitted admission) (is_some session))
      (record { admission = admission; session = session })

-- `isinstance(candidate, RoutingExecution)`
abbrev pub as_execution : Option Value → Option RoutingExecution
as_execution none = none
as_execution (some nothing) = none
as_execution (some (Value.text t)) = none
as_execution (some (flag b)) = none
as_execution (some (number n)) = none
as_execution (some (texts ts)) = none
as_execution (some (mapping p)) = none
as_execution (some (execution e)) = some e
as_execution (some (opaque n)) = none

abbrev pub or_else : {A : Type 0} → Option A → Option A → Option A
or_else none o = o
or_else (some a) o = some a

-- `_routing_execution`, over the records
unfoldable pub transported : List StageRecord → Option RoutingExecution
transported [] = none
transported (r ∷ rs) = or_else (as_execution (get routing_key r.annotations)) (transported rs)

-- What serving works on: the stages' own state and the world with the admission's counts, the delays
-- that the sleeper was asked for, and the evaluators' state.
pub record Serving (A C T : Type 0) : Type 0 where
  pub admitting : Admitting (A × World C)
  pub slept : List ℕ
  pub evaluating : Evaluating T

module _ (E : Env) {A T : Type 0} where
  open E use {Client}

  abbrev pub world_of : Serving A Client T → World Client
  world_of st = st.admitting.state.1

  abbrev pub with_world : World Client → Serving A Client T → Serving A Client T
  with_world w st = record st {
    admitting = record st.admitting { state = (st.admitting.state.0, w) };
  }

  unfoldable pub count_served : Option ExecutionOutcome → Serving A Client T → Serving A Client T
  count_served o st = with_world (record_metric (served_request o) (world_of st)) st

  -- The result of a request that was not admitted.
  unfoldable pub refuse :
      AdmissionOutcome
      → Serving A Client T
      → Result ServeFailure ServedInference × Serving A Client T
  unfolding served_inference count_served
  refuse admission st = (served_inference admission none none, count_served none st)

  unfoldable pub refuse_stream :
      AdmissionOutcome → Serving A Client T → Result ServeFailure ServedStream × Serving A Client T
  unfolding served_stream count_served
  refuse_stream admission st = (served_stream admission none, count_served none st)

  module _ (stages : List (PipelineStage (A × World Client))) where
    -- The admission of a request.
    unfoldable pub admit_request :
        StageContext
        → Serving A Client T
        → Result OutcomeError AdmissionOutcome × Serving A Client T
    admit_request context st =
        let (answer, a) = admit stages context st.admitting in (answer, record st { admitting = a })

    module _ (policy : RetryPolicy) (evaluators : List (Evaluator T))
        (request : InferenceRequest) where
      -- `serve` past the reflection.
      unfoldable pub evaluate_served :
          AdmissionOutcome
          → RoutingExecution
          → ReflectionResult
          → Serving A Client T
          → Result ServeFailure ServedInference × Serving A Client T
      unfolding served_inference count_served
      evaluate_served admission e reflection st =
          let target =
            input_of e.decision.organization_id request.correlation_id reflection.final in
          let (answer, v) = run_evaluators evaluators target st.evaluating in
          let st' = record st { evaluating = v } in
          elim answer [
            | err f ↦ (err (unevaluated f), st')
            | ok report ↦ (
              served_inference admission (some reflection) (some report),
              count_served (some reflection.final.outcome) st',
            )
          ]

      -- `serve` past the transport.
      unfoldable pub execute_served :
          AdmissionOutcome
          → RoutingExecution
          → Serving A Client T
          → Result ServeFailure ServedInference × Serving A Client T
      unfolding evaluate_served
      execute_served admission e st =
          let (answer, r) =
            reflect E policy e request (record { world = world_of st; slept = st.slept }) in
          let st' = with_world r.world (record st { slept = r.slept }) in
          elim answer [
            | err f ↦ (err (unreflected f), st')
            | ok reflection ↦ evaluate_served admission e reflection st'
          ]

      -- `serve` past the admission.
      unfoldable pub serve_admission :
          AdmissionOutcome
          → Serving A Client T
          → Result ServeFailure ServedInference × Serving A Client T
      unfolding execute_served refuse transported
      serve_admission admission st =
          let go =
            elim (transported admission.records)
              as (λ o. Result ServeFailure ServedInference × Serving A Client T) [
                | none ↦ (err (no_routing (stages_run admission)), st)
                | some e ↦ execute_served admission e st
              ] in
          if admitted admission then go else refuse admission st

      -- `InferenceService.serve`
      unfoldable pub serve :
          StageContext
          → Serving A Client T
          → Result ServeFailure ServedInference × Serving A Client T
      unfolding admit_request serve_admission
      serve context st =
          let (answer, st') = admit_request context st in
          elim answer [
            | err e ↦ (err (misadmitted e), st')
            | ok admission ↦ serve_admission admission st'
          ]

    module _ (open_upstream : ProviderDescriptor → InferenceRequest → Client → Upstream × Client)
        (request : InferenceRequest) where
      -- `serve_stream` past the transport.
      unfoldable pub open_served :
          AdmissionOutcome
          → RoutingExecution
          → Serving A Client T
          → Result ServeFailure ServedStream × Serving A Client T
      unfolding served_stream count_served
      open_served admission e st =
          let (answer, w) = open_session E open_upstream e request (world_of st) in
          let st' = with_world w st in
          elim answer [
            | err f ↦ (err (unopened f), st')
            | ok session ↦
                (served_stream admission (some session), count_served (some session.outcome) st')
          ]

      unfoldable pub stream_admission :
          AdmissionOutcome
          → Serving A Client T
          → Result ServeFailure ServedStream × Serving A Client T
      unfolding open_served refuse_stream transported
      stream_admission admission st =
          let go =
            elim (transported admission.records)
              as (λ o. Result ServeFailure ServedStream × Serving A Client T) [
                | none ↦ (err (no_routing (stages_run admission)), st)
                | some e ↦ open_served admission e st
              ] in
          if admitted admission then go else refuse_stream admission st

      -- `InferenceService.serve_stream`
      unfoldable pub serve_stream :
          StageContext → Serving A Client T → Result ServeFailure ServedStream × Serving A Client T
      unfolding admit_request stream_admission
      serve_stream context st =
          let (answer, st') = admit_request context st in
          elim answer [
            | err e ↦ (err (misadmitted e), st')
            | ok admission ↦ stream_admission admission st'
          ]
