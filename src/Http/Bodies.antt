-- ===== src/Http/Bodies.antt =====
-- The bodies of a request and of its responses, and the table of errors.
use enterprise_llm_gateway.Prelude.{
  Bool, Option, Text, [], codes, false, nat_eq, none, pair_eq, some, text_eq, true, ℕ, ◌∷◌,
}
use enterprise_llm_gateway.Prelude.Dict.{Dict}
use enterprise_llm_gateway.Pipeline.{AdmissionOutcome}
use enterprise_llm_gateway.Ports.{
  Content, ExecutionOutcome, budget_denied, budget_unavailable, cache_hit, executed,
  not_accountable, not_routed,
}
use enterprise_llm_gateway.Serving.{ServeFailure}
use enterprise_llm_gateway.Streaming.{Events}

-- A validated `InferenceBody`.
pub record InferenceBody : Type 0 where
  pub prompt : Text
  pub model : Option Text
  pub stream : Bool

-- `request.state`: the identifier that a middleware has set, and the authentication, if any.
pub record AuthenticationContext : Type 0 where
  pub organization_id : ℕ
  pub principal_id : ℕ

pub record RequestState : Type 0 where
  pub request_id : Option Text
  pub auth : Option AuthenticationContext

-- The dict of `_error_body`, below its "error".
pub record ErrorBody : Type 0 where
  pub error_type : Text
  pub code : Text
  pub message : Text
  pub request_id : Text
  pub retryable : Bool

pub record InferenceAnswer : Type 0 where
  pub content : Content
  pub provider : Text
  pub cached : Bool
  pub attempts : ℕ
  pub request_id : Text

-- What the route returns: a JSON response with its status, or 200 with a stream of events.
pub data Response : Type 0 where
  error_response : ℕ → ErrorBody → Response
  answer_response : InferenceAnswer → Response
  event_stream : Dict Text Text → Events → Response

-- What escapes from the route: an exception of the service, or an AssertionError.
pub data RouteFailure : Type 0 where
  unserved : ServeFailure → RouteFailure
  asserted : RouteFailure

-- `_PROVIDER_FAILED`
abbrev pub provider_failed : Text
provider_failed = codes "The upstream provider failed to complete this request."

abbrev pub failed_body : Text → ErrorBody
failed_body id = record {
  error_type = codes "provider_error";
  code = codes "provider_failed";
  message = provider_failed;
  request_id = id;
  retryable = true;
}

abbrev pub or_text : Option Text → Text → Text
or_text none t = t
or_text (some []) t = t
or_text (some (c ∷ s)) t = c ∷ s

-- `_translate_refusal`
unfoldable pub translate_refusal : AdmissionOutcome → Text → Response
translate_refusal admission id = error_response 403 (record {
  error_type = codes "permission_error";
  code = codes "permission_denied";
  message = or_text admission.reason (codes "request was not admitted");
  request_id = id;
  retryable = false;
})

abbrev error_row : ℕ → Text → Text → Text → Bool → Text → Option Response
error_row status error_type code message retryable id = some (
    error_response status (record {
      error_type = error_type;
      code = code;
      message = message;
      request_id = id;
      retryable = retryable;
    }))

-- `_EXECUTION_ERRORS.get(outcome)`, rendered
unfoldable pub execution_error : ExecutionOutcome → Text → Option Response
execution_error budget_denied id =
    error_row 402 (codes "budget_error") (codes "budget_exceeded")
      (codes "The organization's budget for this request is exhausted.") false id
execution_error budget_unavailable id =
    error_row 503 (codes "availability_error") (codes "budget_unavailable")
      (codes "Budget could not be verified, so the request was not executed.") true id
execution_error not_routed id =
    error_row 503 (codes "availability_error") (codes "no_eligible_provider")
      (codes "No eligible provider is available for this request.") true id
execution_error not_accountable id =
    error_row 503 (codes "availability_error") (codes "accounting_unavailable")
      (codes "This request could not be accounted for and was not served.") false id
execution_error cache_hit id = none
execution_error executed id = none
