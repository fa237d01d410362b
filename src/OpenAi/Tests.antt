-- ===== src/OpenAi/Tests.antt =====
-- A body of two events, a blank line and the final mark, through the client and the coordinator.
use enterprise_llm_gateway.Prelude.{
  Text, [], codes, if◌then◌else◌, nat_eq, none, pair_eq, refl, some, text_beq, text_eq, ℕ, ◌+◌,
  ◌==◌, ◌∷◌, ◌≡◌,
}
use enterprise_llm_gateway.Prelude.Dict.{Dict, get}
use enterprise_llm_gateway.Prelude.Int.{pos}
use enterprise_llm_gateway.Execution.Demo.{openai, request}
use enterprise_llm_gateway.OpenAi.{
  JsonMembers, Lines, ProviderConnection, Python, Reply, StreamReply, array, body_ended, delta_from,
  integer, invoke, item, line, line_events, malformed_event, mapped, member, no_item, no_member,
  null, only, call_failure, load_escaped, loaded, status_error, replied, stream_failure, streamed,
  string,
}
use enterprise_llm_gateway.OpenAi.Contract.{IsResponse, invoke-IsResponse}
use enterprise_llm_gateway.Ports.{server_error}
use enterprise_llm_gateway.StreamPort.{chunk, completed, emit, raises}

-- An event with this delta.
abbrev delta_event : Text → JsonMembers
delta_event content =
    member (codes "choices")
      (array (
        item
          (mapped (
            member (codes "delta") (mapped (member (codes "content") (string content) no_member))
              no_member))
          no_item))
      no_member

abbrev usage_event : JsonMembers
usage_event = member (codes "choices") (array no_item) (
    member (codes "usage")
      (mapped (
        member (codes "prompt_tokens") (integer (pos 4))
          (member (codes "completion_tokens") (integer (pos 2)) no_member)))
      no_member)

abbrev py : Python
py = record {
  loads = λ t. loaded (
      if t == codes "d"
      then some (mapped (delta_event (codes "hi")))
      else if t == codes "u"
      then some (mapped usage_event)
      else none);
  named = λ v. 0;
  prompt_of = λ p. string (codes "hello");
}

abbrev body_lines : Lines
body_lines =
    line (codes "data: d ")
      (line [] (line (codes "data:u") (line (codes "data: [DONE]") body_ended)))

two_events :
    line_events py none body_lines
    ≡ emit
        (chunk (codes "hi"))
        (only (completed (some (record { prompt_tokens = pos 4; completion_tokens = pos 2 }))))
unfolding line_events
two_events = refl

not_json :
    line_events py none (line (codes "data: x") body_ended)
    ≡ only (stream_failure server_error malformed_event)
unfolding line_events
not_json = refl

-- A shape that is not known is passed over.
unknown_shape : delta_from (member (codes "choices") null no_member) ≡ []
unfolding delta_from
unknown_shape = refl

abbrev connections : Dict Text ProviderConnection
connections =
    (
      codes "openai",
      record { base_url = codes "https://p"; api_key = codes "key"; timeout = 30000000 },
    )
    ∷ []

abbrev post : ProviderConnection → JsonMembers → ℕ → Reply × ℕ
post connection sent calls = (replied 503 (loaded none), calls + 1)

abbrev wire : ProviderConnection → JsonMembers → ℕ → StreamReply × ℕ
wire connection sent calls = (streamed 200 body_lines, calls + 1)

-- A line that json raises RecursionError on.
too_deep :
    line_events (record py { loads = λ t. load_escaped }) none (line (codes "data: x") body_ended)
    ≡ raises
unfolding line_events
too_deep = refl

invoke-IsResponse_example : IsResponse py (call_failure openai server_error (status_error 503))
unfolding invoke get text_eq text_beq
invoke-IsResponse_example =
    invoke-IsResponse py connections post wire openai request 0
      (call_failure openai server_error (status_error 503)) refl
