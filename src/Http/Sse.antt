-- ===== src/Http/Sse.antt =====
-- The frames of a streamed response.
use enterprise_llm_gateway.Prelude.{
  Bool, List, Option, Text, [], codes, if◌then◌else◌, nat_eq, none, pair_eq, some, suc, text_eq,
  zero, ℕ, ◌++◌, ◌∷◌,
}
use enterprise_llm_gateway.Http.Bodies.{ErrorBody, failed_body}
use enterprise_llm_gateway.Json.{dumps, dumps_flag, dumps_text}
use enterprise_llm_gateway.Streaming.{InferenceStreamEvent, broken, delivered}

-- `_sse(data, event=…)`
unfoldable pub sse : Option Text → Text → Text
sse none data_text = codes "data: " ++ (data_text ++ (10 ∷ 10 ∷ []))
sse (some event) data_text =
    codes "event: " ++ (event ++ (10 ∷ (codes "data: " ++ (data_text ++ (10 ∷ 10 ∷ [])))))

-- `json.dumps({"delta": event.content})`
abbrev pub delta_json : Text → Text
delta_json content = dumps ((codes "delta", dumps_text content) ∷ [])

-- `json.dumps(_error_body(…))`
abbrev pub error_json : ErrorBody → Text
error_json b = dumps (
    (
      codes "error",
      dumps (
          (codes "type", dumps_text b.error_type)
          ∷ (codes "code", dumps_text b.code)
          ∷ (codes "message", dumps_text b.message)
          ∷ (codes "request_id", dumps_text b.request_id)
          ∷ (codes "retryable", dumps_flag b.retryable)
          ∷ []),
    )
    ∷ [])

-- `_DONE_SENTINEL`
abbrev pub done_sentinel : Text
done_sentinel = codes "[DONE]"

-- The event's name and the data of a frame.
abbrev pub Message : Type 0
Message = Option Text × Text

abbrev pub delta_message : Text → Message
delta_message content = (none, delta_json content)

abbrev pub error_message : Text → Message
error_message id = (some (codes "error"), error_json (failed_body id))

abbrev pub done_message : Message
done_message = (none, done_sentinel)

-- The frames that `_frame` yields to a consumer that pulls so many times, from the events that it
-- sees and whether an exception then comes through.
unfoldable pub frame_messages : ℕ → Text → List InferenceStreamEvent → Bool → List Message
frame_messages zero id events through = []
frame_messages (suc n) id [] through = if through then [] else done_message ∷ []
frame_messages (suc n) id (delivered content ∷ events) through =
    delta_message content ∷ frame_messages n id events through
frame_messages (suc n) id (broken f ∷ events) through = error_message id ∷ []

unfoldable pub render : List Message → Text
unfolding sse
render [] = []
render ((event, data_text) ∷ ms) = sse event data_text ++ render ms
