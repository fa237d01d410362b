-- ===== src/Http.antt =====
-- delivery/http/api/inference.py: the route of one inference request. It authenticates, translates
-- the body, calls the service once, and translates what came of it into a response or a stream of SSE
-- frames. FastAPI, pydantic and Starlette stand outside: a body here has been validated, and a
-- response is what is handed to them.
mod Sse
mod Bodies
pub mod Frames
pub mod Permits
pub mod Done
mod Tests
pub mod Client
pub mod Decides
unfoldable pub use Sse.*
unfoldable pub use Bodies.*
use enterprise_llm_gateway.Prelude.{
  Bool, List, Option, Text, [], codes, false, if◌then◌else◌, nat_eq, none, pair_eq, some, suc,
  text_eq, true, zero, ℕ, ◌++◌, ◌∷◌,
}
use enterprise_llm_gateway.Prelude.Dict.{Dict}
use enterprise_llm_gateway.Prelude.Result.{Result, err, ok}
use enterprise_llm_gateway.Authorization.{declare}
use enterprise_llm_gateway.Evaluation.{Evaluator}
use enterprise_llm_gateway.Json.{dumps, dumps_canonical, dumps_flag, dumps_text}
use enterprise_llm_gateway.Pipeline.{
  AdmissionOutcome, PipelineStage, StageContext, Value, admitted, mapping,
}
use enterprise_llm_gateway.Policy.{request_key}
use enterprise_llm_gateway.Ports.{
  Content, ExecutionOutcome, InferenceRequest, ProviderDescriptor, budget_denied,
  budget_unavailable, cache_hit, executed, not_accountable, not_routed,
}
use enterprise_llm_gateway.Reflection.{ReflectionResult, RetryPolicy, attempt_count}
use enterprise_llm_gateway.Serving.{
  ServeFailure, ServedInference, ServedStream, Serving, serve, serve_stream,
}
use enterprise_llm_gateway.StreamPort.{Upstream}
use enterprise_llm_gateway.Streaming.{
  Events, InferenceStreamEvent, StreamSession, broken, consume, delivered,
}
use enterprise_llm_gateway.World.{Env, World}

module _ (E : Env) where
  open E use {Client}

  -- `_frame`, pulled so many times and closed: each pull asks the events once, and its `finally` closes
  -- them. A generator that was never pulled does neither.
  unfoldable pub frame : ℕ → Text → Events → World Client → (List Message × Bool) × World Client
  unfolding frame_messages
  frame n id events w =
      let (r, w') = consume E n events w in ((frame_messages n id r.events r.raised, r.raised), w')

-- `_inference_payload(body)`: `prompt` and, unless it is None, `model`.
abbrev pub payload_members : InferenceBody → Dict Text Text
payload_members body =
    (codes "prompt", body.prompt)
    ∷ elim body.model [ none ↦ [] | some model ↦ (codes "model", model) ∷ [] ]

-- Its canonical JSON text, which sorts the keys.
unfoldable pub canonical_payload : InferenceBody → Text
canonical_payload body = dumps_canonical (elim body.model [
  | none ↦ (codes "prompt", dumps_text body.prompt) ∷ []
  | some model ↦ (codes "model", dumps_text model) ∷ (codes "prompt", dumps_text body.prompt) ∷ []
])

-- `INFERENCE_PERMISSION`, and the resource that is declared
abbrev pub inference_permission : Text
inference_permission = codes "inference:invoke"

abbrev pub inference_resource : Text
inference_resource = codes "POST /v1/inference"

abbrev pub request_value : InferenceBody → Value
request_value body = mapping (record {
  routing = record { modality = none; prompt = some body.prompt };
  encoded = ok (canonical_payload body);
})

unfoldable pub inference_context : Text → AuthenticationContext → InferenceBody → StageContext
unfolding declare
inference_context id auth body = record {
  correlation_id = id;
  organization_id = some auth.organization_id;
  principal_id = some auth.principal_id;
  attributes =
      declare (inference_permission ∷ []) (some inference_resource)
      ++ ((request_key, request_value body) ∷ []);
}

-- `repr` of the payload's dict is a parameter.
unfoldable pub inference_request : (Dict Text Text → Text) → Text → InferenceBody → InferenceRequest
inference_request repr id body = record {
  correlation_id = id;
  payload = record {
    repr = repr (payload_members body);
    canonical = some (canonical_payload body);
  };
}

abbrev pub is_cache_hit : ExecutionOutcome → Bool
is_cache_hit cache_hit = true
is_cache_hit executed = false
is_cache_hit not_routed = false
is_cache_hit budget_denied = false
is_cache_hit budget_unavailable = false
is_cache_hit not_accountable = false

-- `_SSE_HEADERS` and the two of the response
abbrev pub stream_headers : Text → ExecutionOutcome → Dict Text Text
stream_headers id o =
    (codes "Cache-Control", codes "no-cache")
    ∷ (codes "Connection", codes "keep-alive")
    ∷ (codes "X-Accel-Buffering", codes "no")
    ∷ (codes "X-Request-Id", id)
    ∷ (codes "X-Cache", if is_cache_hit o then codes "hit" else codes "miss")
    ∷ []

-- `_stream_response` past the admission and its mapped errors.
unfoldable pub session_response : Text → StreamSession → Response
session_response id session = elim session.events [
  | none ↦ error_response 502 (failed_body id)
  | some events ↦ event_stream (stream_headers id session.outcome) events
]

abbrev pub or_response : Option Response → Response → Response
or_response none r = r
or_response (some e) r = e

-- `_stream_response` past the service.
unfoldable pub stream_answer : Text → ServedStream → Result RouteFailure Response
unfolding session_response execution_error translate_refusal
stream_answer id served =
    let go = elim served.session as (λ o. Result RouteFailure Response) [
      | none ↦ err asserted
      | some session ↦
          ok (or_response (execution_error session.outcome id) (session_response id session))
    ] in
    if admitted served.admission then go else ok (translate_refusal served.admission id)

-- `infer` past the mapped errors.
unfoldable pub inference_response : Text → ReflectionResult → Response
inference_response id reflection =
    if reflection.final.response.ok
    then answer_response (record {
      content = reflection.final.response.content;
      provider = reflection.final.response.provider;
      cached = is_cache_hit reflection.final.outcome;
      attempts = attempt_count reflection;
      request_id = id;
    })
    else error_response 502 (failed_body id)

-- `infer` past the service.
unfoldable pub answer : Text → ServedInference → Result RouteFailure Response
unfolding inference_response execution_error translate_refusal
answer id served =
    let go = elim served.reflection as (λ o. Result RouteFailure Response) [
      | none ↦ err asserted
      | some reflection ↦ ok (
          or_response (execution_error reflection.final.outcome id)
            (inference_response id reflection))
    ] in
    if admitted served.admission then go else ok (translate_refusal served.admission id)

-- The answer to a request without authentication.
abbrev pub unauthenticated : Text → Response
unauthenticated id = error_response 401 (record {
  error_type = codes "authentication_error";
  code = codes "authentication_required";
  message = codes "This endpoint requires an authenticated principal.";
  request_id = id;
  retryable = false;
})

-- `getattr(request.state, "request_id", "unknown")`
abbrev pub request_id_of : RequestState → Text
request_id_of request = elim request.request_id [ none ↦ codes "unknown" | some id ↦ id ]

unfoldable pub after_serving :
    {R S : Type 0}
    → (R → Result RouteFailure Response)
    → Result ServeFailure R × S
    → Result RouteFailure Response × S
after_serving translate (ok served, s) = (translate served, s)
after_serving translate (err e, s) = (err (unserved e), s)

module _ (E : Env) {A T : Type 0} (stages : List (PipelineStage (A × World E.Client)))
    (policy : RetryPolicy) (evaluators : List (Evaluator T))
    (open_upstream : ProviderDescriptor → InferenceRequest → E.Client → Upstream × E.Client)
    (repr : Dict Text Text → Text) where
  -- `infer` past the authentication.
  unfoldable pub infer_as :
      Text
      → AuthenticationContext
      → InferenceBody
      → Serving A E.Client T
      → Result RouteFailure Response × Serving A E.Client T
  unfolding answer stream_answer inference_context inference_request after_serving
  infer_as id auth body st =
      let context = inference_context id auth body in
      let request = inference_request repr id body in
      if body.stream
      then after_serving (stream_answer id) (serve_stream E stages open_upstream request context st)
      else after_serving (answer id) (serve E stages policy evaluators request context st)

  -- `infer`
  unfoldable pub infer :
      RequestState
      → InferenceBody
      → Serving A E.Client T
      → Result RouteFailure Response × Serving A E.Client T
  unfolding infer_as
  infer request body st = elim request.auth [
    | none ↦ (ok (unauthenticated (request_id_of request)), st)
    | some auth ↦ infer_as (request_id_of request) auth body st
  ]
