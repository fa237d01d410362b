-- ===== src/OpenAi.antt =====
-- adapters/providers/openai_compatible_client.py: one integration behind both provider ports. What
-- httpx does with a request, and what json makes of a text, are parameters; the translation of both is
-- modelled.
mod Wire
pub mod Contract
pub mod Events
pub mod Gateway
mod Tests
unfoldable pub use Wire.*
use enterprise_llm_gateway.Prelude.{
  Bool, Option, Text, [], codes, false, if◌then◌else◌, leb, nat_eq, none, pair_eq, some, text_beq,
  text_eq, true, ℕ, ◌&&◌, ◌++◌, ◌==◌, ◌||◌, ◌∷◌,
}
use enterprise_llm_gateway.Prelude.Decimal.{decimal}
use enterprise_llm_gateway.Prelude.Dict.{Dict, get}
use enterprise_llm_gateway.Prelude.Int.{pos, ℤ}
use enterprise_llm_gateway.Ports.{
  Content, InferenceRequest, Payload, ProviderDescriptor, ProviderErrorCategory, ProviderResponse,
  ProviderUsage, absent, authentication, invalid_request, object, rate_limited, server_error,
}
use enterprise_llm_gateway.StreamPort.{
  ProviderStreamEvent, Upstream, chunk, completed, emit, failed, raises, stopped,
}

-- `_failure` and `_stream_failure`
abbrev pub call_failure : ProviderDescriptor → ProviderErrorCategory → Text → ProviderResponse
call_failure provider category message = record {
  ok = false;
  content = absent;
  error = some message;
  provider = provider.name;
  usage = none;
  error_category = some category;
}

abbrev pub stream_failure : ProviderErrorCategory → Text → ProviderStreamEvent
stream_failure category message =
    failed (record { error = message; error_category = some category })

-- The texts that a failure can carry.
abbrev pub unconfigured_error : Text
unconfigured_error = codes "provider has no connection configured"

abbrev pub timeout_error : Text
timeout_error = codes "provider call timed out"

abbrev pub transport_error : Text
transport_error = codes "provider transport error"

abbrev pub malformed_body : Text
malformed_body = codes "provider returned a malformed body"

abbrev pub malformed_event : Text
malformed_event = codes "provider returned a malformed stream event"

abbrev pub status_error : ℕ → Text
status_error status = codes "provider returned HTTP " ++ decimal status

abbrev pub latest : Option ProviderUsage → Option ProviderUsage → Option ProviderUsage
latest none usage = usage
latest (some reported) usage = some reported

abbrev pub emit_delta : Text → Upstream → Upstream
emit_delta [] rest = rest
emit_delta (c ∷ t) rest = emit (chunk (c ∷ t)) rest

abbrev pub only : ProviderStreamEvent → Upstream
only e = emit e stopped

-- The body of an error response is drained, which may raise.
unfoldable pub drained : ℕ → Lines → Upstream
unfolding category_for_status
drained status (line l ls) = drained status ls
drained status body_ended = only (stream_failure (category_for_status status) (status_error status))
drained status body_timed_out = only (stream_failure ProviderErrorCategory.timeout timeout_error)
drained status body_broken = only (stream_failure server_error transport_error)
drained status body_escaped = raises

-- `json.loads` of a text; the number that names a content that is no text; what the payload's prompt
-- is, "" if it has none.
pub record Python : Type 0 where
  pub loads : Text → Loaded
  pub named : JsonValue → ℕ
  pub prompt_of : Payload → JsonValue

module _ (py : Python) where
  -- The loop over the lines, with the usage that was last reported.
  unfoldable pub line_events : Option ProviderUsage → Lines → Upstream
  unfolding payload_of usage_from delta_from text_eq text_beq
  line_events usage body_ended = stopped
  line_events usage body_timed_out =
      only (stream_failure ProviderErrorCategory.timeout timeout_error)
  line_events usage body_broken = only (stream_failure server_error transport_error)
  line_events usage body_escaped = raises
  line_events usage (line l ls) = elim (payload_of l) [
    | none ↦ line_events usage ls
    | some t ↦ elim (t == codes "[DONE]") [
      | true ↦ only (completed usage)
      | false ↦ elim (py.loads t) [
        | load_escaped ↦ raises
        | loaded value ↦ elim (as_members value) [
          | none ↦ only (stream_failure server_error malformed_event)
          | some event ↦
              emit_delta (delta_from event) (line_events (latest (usage_from event) usage) ls)
        ]
      ]
    ]
  ]

  unfoldable pub reply_events : StreamReply → Upstream
  unfolding line_events drained
  reply_events connect_timed_out = only (stream_failure ProviderErrorCategory.timeout timeout_error)
  reply_events connect_broken = only (stream_failure server_error transport_error)
  reply_events connect_escaped = raises
  reply_events (streamed status ls) =
      if leb 400 status then drained status ls else line_events none ls

  abbrev pub any_content : JsonValue → Content
  any_content null = absent
  any_content (boolean b) = object (py.named (boolean b))
  any_content (integer n) = object (py.named (integer n))
  any_content (fraction n) = object (py.named (fraction n))
  any_content (string t) = Content.text t
  any_content (array xs) = object (py.named (array xs))
  any_content (mapped ms) = object (py.named (mapped ms))

  -- `_content_from`
  unfoldable pub content_from : JsonMembers → Content
  unfolding get_in
  content_from payload =
      let first = as_members (first_item (get_in (codes "choices") (some payload))) in
      let message = as_members (get_in (codes "message") first) in
      elim (get_in (codes "content") message) [
        | some v ↦ any_content v
        | none ↦ any_content (mapped payload)
      ]

  -- `_body`
  unfoldable pub body_of : ProviderDescriptor → InferenceRequest → JsonMembers
  body_of provider request = member (codes "model") (string provider.model) (
      member (codes "messages")
        (array (
          item
            (mapped (
              member (codes "role") (string (codes "user"))
                (member (codes "content") (py.prompt_of request.payload) no_member)))
            no_item))
        no_member)

  -- The body of a streamed request.
  unfoldable pub stream_body_of : ProviderDescriptor → InferenceRequest → JsonMembers
  stream_body_of provider request = member (codes "model") (string provider.model) (
      member (codes "messages")
        (array (
          item
            (mapped (
              member (codes "role") (string (codes "user"))
                (member (codes "content") (py.prompt_of request.payload) no_member)))
            no_item))
        (member (codes "stream") (boolean true) (
          member (codes "stream_options")
            (mapped (member (codes "include_usage") (boolean true) no_member)) no_member)))

  -- The response to a body, once json has read it.
  unfoldable pub body_response : ProviderDescriptor → Loaded → Option ProviderResponse
  unfolding content_from usage_from
  body_response provider load_escaped = none
  body_response provider (loaded body) = elim (as_members body) [
    | none ↦ some (call_failure provider server_error malformed_body)
    | some payload ↦ some (record {
      ok = true;
      content = content_from payload;
      error = none;
      provider = provider.name;
      usage = usage_from payload;
      error_category = none;
    })
  ]

  -- `invoke` past the connection; none is an exception that it does not catch.
  unfoldable pub reply_response : ProviderDescriptor → Reply → Option ProviderResponse
  unfolding body_response category_for_status
  reply_response provider call_timed_out =
      some (call_failure provider ProviderErrorCategory.timeout timeout_error)
  reply_response provider call_broken = some (call_failure provider server_error transport_error)
  reply_response provider call_escaped = none
  reply_response provider (replied status body) =
      if leb 400 status
      then some (call_failure provider (category_for_status status) (status_error status))
      else body_response provider body

  module _ {C : Type 0} (connections : Dict Text ProviderConnection)
      (post : ProviderConnection → JsonMembers → C → Reply × C)
      (open_stream : ProviderConnection → JsonMembers → C → StreamReply × C) where
    -- `invoke`; none is an exception that it does not catch.
    unfoldable pub invoke : ProviderDescriptor → InferenceRequest → C → Option ProviderResponse × C
    unfolding reply_response body_of
    invoke provider request c = elim (get provider.name connections) [
      | none ↦ (some (call_failure provider authentication unconfigured_error), c)
      | some connection ↦
          let (reply, c') = post connection (body_of provider request) c in
          (reply_response provider reply, c')
    ]

    -- `stream`
    unfoldable pub stream : ProviderDescriptor → InferenceRequest → C → Upstream × C
    unfolding reply_events stream_body_of
    stream provider request c = elim (get provider.name connections) [
      | none ↦ (only (stream_failure authentication unconfigured_error), c)
      | some connection ↦
          let (reply, c') = open_stream connection (stream_body_of provider request) c in
          (reply_events reply, c')
    ]
