-- ===== src/Serving/Decides.antt =====
-- Serving through the gateway's chain: what is executed, and what a refusal leaves.
use mathlib.Core.Path.{subst}
use enterprise_llm_gateway.Prelude.{
  List, arith, false, nat_eq, none, pair_eq, refl, some, sym, text_eq, true, ◌≡◌,
}
use enterprise_llm_gateway.Prelude.Result.{Result, ok}
use enterprise_llm_gateway.Authorization.{PermissionResolver}
use enterprise_llm_gateway.Evaluation.{Evaluator}
use enterprise_llm_gateway.Execution.{refusal}
use enterprise_llm_gateway.Pipeline.{
  AdmissionOutcome, PipelineStage, StageContext, admit, admitted, falsy,
}
use enterprise_llm_gateway.Policy.{PolicyEngine}
use enterprise_llm_gateway.Ports.{InferenceRequest, ProviderDescriptor}
use enterprise_llm_gateway.Reflection.{RetryPolicy}
use enterprise_llm_gateway.Routing.{RoutingExecution}
use enterprise_llm_gateway.Routing.Agents.{Agent}
use enterprise_llm_gateway.Routing.Engine.{Catalog}
use enterprise_llm_gateway.Serving.{
  ServeFailure, Serving, admit_request, consistent, count_served, execute_served, open_served,
  refuse, refuse_stream, serve, serve_admission, serve_stream, served_inference, served_stream,
  stream_admission, transported, world_of,
}
use enterprise_llm_gateway.Serving.Entitled.{Entitled, Judged, admit-Judged, admits, refuses}
use enterprise_llm_gateway.Serving.Spotless.{Spotless}
use enterprise_llm_gateway.Stages.{Objects, gateway_stages}
use enterprise_llm_gateway.StreamPort.{Upstream}
use enterprise_llm_gateway.World.{Env, World}

module _ (E : Env) (py : Objects) (catalog : Catalog) (agents : List Agent) {A : Type 0}
    (resolver : PermissionResolver A) (engine : PolicyEngine A) (context : StageContext) where
  open E use {Client}

  abbrev chain : List (PipelineStage (A × World Client))
  chain = gateway_stages E py catalog agents resolver engine

  module _ {T : Type 0} where
    -- The state after the admission.
    abbrev pub after_admission : Serving A Client T → Serving A Client T
    after_admission st = record st { admitting = (admit chain context st.admitting).1 }

    -- How the request is served, by what its admission says: `proceed` of the entitled execution in the
    -- state after the admission; or the refusal `refusal`, with everything but the breaker's readings
    -- and the metrics as before.
    pub data Serves {R : Type 0} (st : Serving A Client T)
        (proceed : AdmissionOutcome
          → RoutingExecution
          → Serving A Client T
          → Result ServeFailure R × Serving A Client T)
        (refusal : AdmissionOutcome → R) (z : Result ServeFailure R × Serving A Client T)
        : Type 0 where
      executes :
          (admission : AdmissionOutcome)
          (entitled : Entitled E py catalog agents resolver engine context st.admitting.state.0
            (world_of E st)
            admission)
          → (admit chain context st.admitting).0 ≡ ok admission
          → Spotless E (world_of E st) (world_of E (after_admission st))
          → z ≡ proceed admission entitled.chosen (after_admission st)
          → Serves st proceed refusal z
      refused_as :
          (admission : AdmissionOutcome)
          → (admit chain context st.admitting).0 ≡ ok admission
          → admitted admission ≡ false
          → falsy admission.reason ≡ false
          → z.0 ≡ ok (refusal admission)
          → Spotless E (world_of E st) (world_of E z.1)
          → z.1.slept ≡ st.slept
          → z.1.evaluating ≡ st.evaluating
          → Serves st proceed refusal z

    serve_admission-admitted :
        (policy : RetryPolicy) (evaluators : List (Evaluator T)) (request : InferenceRequest)
        (admission : AdmissionOutcome) (e : RoutingExecution) (st : Serving A Client T)
        → admitted admission ≡ true
        → transported admission.records ≡ some e
        → serve_admission E chain policy evaluators request admission st
          ≡ execute_served E chain policy evaluators request admission e st
    unfolding serve_admission
    serve_admission-admitted policy evaluators request admission e st free found =
        ground (arith, free, found)

    serve_admission-refused :
        (policy : RetryPolicy) (evaluators : List (Evaluator T)) (request : InferenceRequest)
        (admission : AdmissionOutcome) (st : Serving A Client T)
        → admitted admission ≡ false
        → serve_admission E chain policy evaluators request admission st ≡ (
          ok (record { admission = admission; reflection = none; evaluation = none }),
          count_served E none st,
        )
    unfolding serve_admission refuse served_inference consistent
    serve_admission-refused policy evaluators request admission st blocked = ground (arith, blocked)

    stream_admission-admitted :
        (open_upstream : ProviderDescriptor → InferenceRequest → Client → Upstream × Client)
        (request : InferenceRequest) (admission : AdmissionOutcome) (e : RoutingExecution)
        (st : Serving A Client T)
        → admitted admission ≡ true
        → transported admission.records ≡ some e
        → stream_admission E chain open_upstream request admission st
          ≡ open_served E chain open_upstream request admission e st
    unfolding stream_admission
    stream_admission-admitted open_upstream request admission e st free found =
        ground (arith, free, found)

    stream_admission-refused :
        (open_upstream : ProviderDescriptor → InferenceRequest → Client → Upstream × Client)
        (request : InferenceRequest) (admission : AdmissionOutcome) (st : Serving A Client T)
        → admitted admission ≡ false
        → stream_admission E chain open_upstream request admission st
          ≡ (ok (record { admission = admission; session = none }), count_served E none st)
    unfolding stream_admission refuse_stream served_stream consistent
    stream_admission-refused open_upstream request admission st blocked = ground (arith, blocked)

    Judged-Serves :
        {R : Type 0} (st : Serving A Client T)
        (proceed : AdmissionOutcome
          → RoutingExecution
          → Serving A Client T
          → Result ServeFailure R × Serving A Client T)
        (refusal : AdmissionOutcome → R)
        (after : AdmissionOutcome → Serving A Client T → Result ServeFailure R × Serving A Client T)
        (admission : AdmissionOutcome)
        → ((e : RoutingExecution)
            → admitted admission ≡ true
            → transported admission.records ≡ some e
            → after admission (after_admission st) ≡ proceed admission e (after_admission st))
        → (admitted admission ≡ false
            → after admission (after_admission st)
              ≡ (ok (refusal admission), count_served E none (after_admission st)))
        → (admit chain context st.admitting).0 ≡ ok admission
        → Judged E py catalog agents resolver engine context st.admitting.state.0
            (world_of E st)
            (world_of E (after_admission st))
            admission
        → Serves st proceed refusal (after admission (after_admission st))
    unfolding count_served
    Judged-Serves st proceed refusal after admission go stop is_ok (admits free entitled clean) =
        executes admission entitled is_ok clean (go entitled.chosen free entitled.transported_is)
    Judged-Serves st proceed refusal after admission go stop is_ok (refuses blocked why clean) =
        subst (Serves st proceed refusal) (sym (stop blocked)) (
          refused_as admission is_ok blocked why refl
            (record {
              ledger_is = clean.ledger_is;
              client_is = clean.client_is;
              cache_is = clean.cache_is;
            })
            refl refl)

    serve-admission :
        (policy : RetryPolicy) (evaluators : List (Evaluator T)) (request : InferenceRequest)
        (st : Serving A Client T) (admission : AdmissionOutcome)
        → (admit chain context st.admitting).0 ≡ ok admission
        → serve E chain policy evaluators request context st
          ≡ serve_admission E chain policy evaluators request admission (after_admission st)
    unfolding serve admit_request
    serve-admission policy evaluators request st admission f = ground (arith, f)

    serve_stream-admission :
        (open_upstream : ProviderDescriptor → InferenceRequest → Client → Upstream × Client)
        (request : InferenceRequest) (st : Serving A Client T) (admission : AdmissionOutcome)
        → (admit chain context st.admitting).0 ≡ ok admission
        → serve_stream E chain open_upstream request context st
          ≡ stream_admission E chain open_upstream request admission (after_admission st)
    unfolding serve_stream admit_request
    serve_stream-admission open_upstream request st admission f = ground (arith, f)

    pub serve-Serves :
        (policy : RetryPolicy) (evaluators : List (Evaluator T)) (request : InferenceRequest)
        (st : Serving A Client T)
        → Serves st
            (execute_served E chain policy evaluators request)
            (λ admission. record { admission = admission; reflection = none; evaluation = none })
            (serve E chain policy evaluators request context st)
    serve-Serves policy evaluators request st =
        let (admission, is_ok, judged) =
          admit-Judged E py catalog agents resolver engine context st.admitting in
        let st' = after_admission st in
        subst
          (Serves st (execute_served E chain policy evaluators request)
            (λ (admission : AdmissionOutcome). record {
              admission = admission;
              reflection = none;
              evaluation = none;
            }))
          (sym (serve-admission policy evaluators request st admission is_ok))
          (Judged-Serves st (execute_served E chain policy evaluators request)
            (λ admission. record { admission = admission; reflection = none; evaluation = none })
            (serve_admission E chain policy evaluators request) admission
            (λ e free found.
              serve_admission-admitted policy evaluators request admission e st' free found)
            (λ blocked. serve_admission-refused policy evaluators request admission st' blocked)
            is_ok judged)

    pub serve_stream-Serves :
        (open_upstream : ProviderDescriptor → InferenceRequest → Client → Upstream × Client)
        (request : InferenceRequest) (st : Serving A Client T)
        → Serves st
            (open_served E chain open_upstream request)
            (λ admission. record { admission = admission; session = none })
            (serve_stream E chain open_upstream request context st)
    serve_stream-Serves open_upstream request st =
        let (admission, is_ok, judged) =
          admit-Judged E py catalog agents resolver engine context st.admitting in
        let st' = after_admission st in
        subst
          (Serves st (open_served E chain open_upstream request)
            (λ (admission : AdmissionOutcome). record { admission = admission; session = none }))
          (sym (serve_stream-admission open_upstream request st admission is_ok))
          (Judged-Serves st (open_served E chain open_upstream request)
            (λ admission. record { admission = admission; session = none })
            (stream_admission E chain open_upstream request) admission
            (λ e free found.
              stream_admission-admitted open_upstream request admission e st' free found)
            (λ blocked. stream_admission-refused open_upstream request admission st' blocked) is_ok
            judged)
