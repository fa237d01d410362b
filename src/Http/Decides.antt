-- ===== src/Http/Decides.antt =====
-- What the route does for whom: a caller with no authentication, one that is refused, and one that is
-- permitted.
use mathlib.Core.Path.{subst}
use enterprise_llm_gateway.Prelude.{
  List, Option, Option-cases, Text, [], ap, arith, codes, false, if-cases, inl, inr, nat_eq, none,
  pair_eq, refl, some, sym, text_eq, ℕ, ◌∙◌, ◌∷◌, ◌≡◌,
}
use enterprise_llm_gateway.Prelude.Dict.{Dict}
use enterprise_llm_gateway.Prelude.Result.{Result, ok}
use enterprise_llm_gateway.Authorization.{PermissionResolver}
use enterprise_llm_gateway.Evaluation.{Evaluator}
use enterprise_llm_gateway.Execution.{refusal}
use enterprise_llm_gateway.Http.{
  AuthenticationContext, InferenceBody, RequestState, Response, RouteFailure, after_serving, answer,
  error_response, infer, infer_as, inference_context, inference_request, request_id_of,
  stream_answer, translate_refusal, unauthenticated,
}
use enterprise_llm_gateway.Http.Permits.{Permitted, stages-Permitted}
use enterprise_llm_gateway.Pipeline.{AdmissionOutcome, PipelineStage, admit, admitted, falsy}
use enterprise_llm_gateway.Policy.{PolicyEngine}
use enterprise_llm_gateway.Ports.{InferenceRequest, ProviderDescriptor}
use enterprise_llm_gateway.Reflection.{RetryPolicy}
use enterprise_llm_gateway.Routing.{RoutingExecution}
use enterprise_llm_gateway.Routing.Agents.{Agent}
use enterprise_llm_gateway.Routing.Engine.{Catalog}
use enterprise_llm_gateway.Serving.{
  ServeFailure, Serving, execute_served, open_served, serve, serve_stream, world_of,
}
use enterprise_llm_gateway.Serving.Decides.{
  Serves, executes, refused_as, serve-Serves, serve_stream-Serves,
}
use enterprise_llm_gateway.Serving.Spotless.{Spotless}
use enterprise_llm_gateway.Stages.{Objects, gateway_stages}
use enterprise_llm_gateway.StreamPort.{Upstream}
use enterprise_llm_gateway.World.{Env, World}

after_serving-ok :
    {R S : Type 0} (translate : R → Result RouteFailure Response) (z : Result ServeFailure R × S)
    (r : R)
    → z.0 ≡ ok r
    → after_serving translate z ≡ (translate r, z.1)
unfolding after_serving
after_serving-ok translate z r h = ground (arith, h)

given_reason :
    (reason : Option Text)
    → falsy reason ≡ false
    → (c : ℕ) × (rest : Text) × (reason ≡ some (c ∷ rest))
given_reason none h = absurd (cc)
given_reason (some []) h = absurd (cc)
given_reason (some (c ∷ rest)) h = (c, rest, refl)

translate_refusal-reason :
    (id : Text) (admission : AdmissionOutcome) (c : ℕ) (rest : Text)
    → admission.reason ≡ some (c ∷ rest)
    → translate_refusal admission id
      ≡ error_response 403 (record {
        error_type = codes "permission_error";
        code = codes "permission_denied";
        message = c ∷ rest;
        request_id = id;
        retryable = false;
      })
unfolding translate_refusal
translate_refusal-reason id admission c rest h = ground (arith, h)

answer-refused :
    (id : Text) (admission : AdmissionOutcome)
    → admitted admission ≡ false
    → answer id (record { admission = admission; reflection = none; evaluation = none })
      ≡ ok (translate_refusal admission id)
unfolding answer
answer-refused id admission blocked = ground (arith, blocked)

stream_answer-refused :
    (id : Text) (admission : AdmissionOutcome)
    → admitted admission ≡ false
    → stream_answer id (record { admission = admission; session = none })
      ≡ ok (translate_refusal admission id)
unfolding stream_answer
stream_answer-refused id admission blocked = ground (arith, blocked)

module _ (E : Env) (py : Objects) (catalog : Catalog) (agents : List Agent) {A T : Type 0}
    (resolver : PermissionResolver A) (engine : PolicyEngine A) where
  open E use {Client}

  -- How the route decides: a caller without authentication gets 401 and changes nothing; one that is
  -- refused gets a 403 with the reason that its admission gives, which is not empty, and moves no
  -- ledger, provider, cache, sleeper or evaluator; any other is permitted.
  pub data Decides (request : RequestState) (body : InferenceBody) (st : Serving A Client T)
      (z : Result RouteFailure Response × Serving A Client T) : Type 0 where
    unknown :
        request.auth ≡ none
        → z ≡ (
          ok (
              error_response 401 (record {
                error_type = codes "authentication_error";
                code = codes "authentication_required";
                message = codes "This endpoint requires an authenticated principal.";
                request_id = request_id_of request;
                retryable = false;
              })),
          st,
        )
        → Decides request body st z
    refused :
        (auth : AuthenticationContext) (admission : AdmissionOutcome) (c : ℕ) (rest : Text)
        → request.auth ≡ some auth
        → (admit
            (gateway_stages E py catalog agents resolver engine)
            (inference_context (request_id_of request) auth body)
            st.admitting).0
          ≡ ok admission
        → admitted admission ≡ false
        → admission.reason ≡ some (c ∷ rest)
        → z.0
          ≡ ok (
              error_response 403 (record {
                error_type = codes "permission_error";
                code = codes "permission_denied";
                message = c ∷ rest;
                request_id = request_id_of request;
                retryable = false;
              }))
        → Spotless E (world_of E st) (world_of E z.1)
        → z.1.slept ≡ st.slept
        → z.1.evaluating ≡ st.evaluating
        → Decides request body st z
    permitted :
        (auth : AuthenticationContext)
        → request.auth ≡ some auth
        → Permitted resolver engine (request_id_of request) auth body st.admitting.state.0
        → Decides request body st z

  served-Decides :
      {R : Type 0} (request : RequestState) (auth : AuthenticationContext) (body : InferenceBody)
      (st : Serving A Client T)
      (proceed : AdmissionOutcome
        → RoutingExecution
        → Serving A Client T
        → Result ServeFailure R × Serving A Client T)
      (refusal : AdmissionOutcome → R) (translate : R → Result RouteFailure Response)
      (z : Result ServeFailure R × Serving A Client T)
      → request.auth ≡ some auth
      → let id = request_id_of request in
        ((admission : AdmissionOutcome)
          → admitted admission ≡ false
          → translate (refusal admission) ≡ ok (translate_refusal admission id))
        → Serves E py catalog agents resolver engine
            (inference_context id auth body)
            st
            proceed
            refusal
            z
        → Decides request body st (after_serving translate z)
  served-Decides request auth body st proceed refusal translate z known says
        (executes admission entitled is_ok clean is) =
      let id = request_id_of request in
      permitted auth known (
        stages-Permitted resolver engine py.shown id auth body st.admitting.state.0 entitled.org
          entitled.grant entitled.permit)
  served-Decides request auth body st proceed refusal translate z known says
        (refused_as admission is_ok blocked why is clean sleeps judges) =
      let (c, rest, reason_is) = given_reason admission.reason why in
      subst (Decides request body st) (sym (after_serving-ok translate z (refusal admission) is)) (
        refused auth admission c rest known is_ok blocked reason_is
          (says admission blocked
            ∙ ap ok (translate_refusal-reason (request_id_of request) admission c rest reason_is))
          clean sleeps judges)

  module _ (policy : RetryPolicy) (evaluators : List (Evaluator T))
      (open_upstream : ProviderDescriptor → InferenceRequest → Client → Upstream × Client)
      (repr : Dict Text Text → Text) where
    abbrev stages : List (PipelineStage (A × World Client))
    stages = gateway_stages E py catalog agents resolver engine

    infer_as-Decides :
        (request : RequestState) (auth : AuthenticationContext) (body : InferenceBody)
        (st : Serving A Client T)
        → request.auth ≡ some auth
        → Decides request body st (
            infer_as E stages policy evaluators open_upstream repr
              (request_id_of request)
              auth
              body
              st)
    unfolding infer_as
    infer_as-Decides request auth body st known =
        let id = request_id_of request in
        let context = inference_context id auth body in
        let asked = inference_request repr id body in
        if-cases (Decides request body st) body.stream
          (λ streams.
            served-Decides request auth body st (open_served E stages open_upstream asked)
              (λ admission. record { admission = admission; session = none }) (stream_answer id)
              (serve_stream E stages open_upstream asked context st) known
              (stream_answer-refused id)
              (serve_stream-Serves E py catalog agents resolver engine context open_upstream asked
                st))
          (λ whole.
            served-Decides request auth body st (execute_served E stages policy evaluators asked)
              (λ admission. record { admission = admission; reflection = none; evaluation = none })
              (answer id) (serve E stages policy evaluators asked context st) known
              (answer-refused id)
              (serve-Serves E py catalog agents resolver engine context policy evaluators asked st))

    infer-unknown :
        (request : RequestState) (body : InferenceBody) (st : Serving A Client T)
        → request.auth ≡ none
        → infer E stages policy evaluators open_upstream repr request body st
          ≡ (ok (unauthenticated (request_id_of request)), st)
    unfolding infer
    infer-unknown request body st f = ground (arith, f)

    infer-known :
        (request : RequestState) (auth : AuthenticationContext) (body : InferenceBody)
        (st : Serving A Client T)
        → request.auth ≡ some auth
        → infer E stages policy evaluators open_upstream repr request body st
          ≡ infer_as E stages policy evaluators open_upstream repr
              (request_id_of request)
              auth
              body
              st
    unfolding infer
    infer-known request auth body st f = ground (arith, f)

    -- One request to the route, streamed or not, over the gateway's chain. It has no authentication, the
    -- answer is 401 with an authentication_error, and the state is as before; or its admission refuses
    -- it with a reason that is not empty, the answer is 403 with a permission_error and that reason as
    -- its message, and no ledger, provider, cache, sleeper or evaluator has been touched; or the
    -- resolver grants its principal the permission to invoke, in its own organization, and the policy
    -- engine allows the payload that was sent.
    pub infer-Decides :
        (request : RequestState) (body : InferenceBody) (st : Serving A Client T)
        → Decides request body st
            (infer E stages policy evaluators open_upstream repr request body st)
    infer-Decides request body st = elim (Option-cases request.auth) [
      | inl f ↦ unknown f (infer-unknown request body st f)
      | inr (auth, f) ↦
          subst (Decides request body st) (sym (infer-known request auth body st f))
            (infer_as-Decides request auth body st f)
    ]
