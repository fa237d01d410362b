-- ===== src/Http/Tests.antt =====
-- The route for a caller that may invoke, for a stranger and for nobody; and the frames of two chunks.
use enterprise_llm_gateway.Reservations
use enterprise_llm_gateway.Prelude.{
  Bool, List, [], ap, codes, false, map, nat_eq, none, pair_eq, refl, some, text_beq, text_eq, ℕ,
  ◌++◌, ◌∷◌, ◌≡◌,
}
use enterprise_llm_gateway.Prelude.Dict.{get, put}
use enterprise_llm_gateway.Prelude.Int.{pos, ◌*ℤ◌, ◌+ℤ◌, ◌-ℤ◌}
use enterprise_llm_gateway.Accounting.{account, compute_cost, settlement_detail}
use enterprise_llm_gateway.Execution.Demo.{demo, served}
use enterprise_llm_gateway.Http.{
  InferenceBody, Message, RequestState, canonical_payload, delta_json, delta_message, done_message,
  frame, frame_messages, infer, render, sse,
}
use enterprise_llm_gateway.Http.Client.{all_encodable, meant, see, see-render}
use enterprise_llm_gateway.Http.Decides.{Decides, infer-Decides}
use enterprise_llm_gateway.Http.Done.{Delivered, frame-Delivered, has_done}
use enterprise_llm_gateway.Http.Frames.{read_messages}
use enterprise_llm_gateway.Json.{dumps_dict, dumps_text}
use enterprise_llm_gateway.Json.Reader.{all_scalar}
use enterprise_llm_gateway.Ledger.{ledger_for, settle, settle_in}
use enterprise_llm_gateway.Policy.{local_engine}
use enterprise_llm_gateway.Reflection.{default_policy}
use enterprise_llm_gateway.Serving.Demo.{
  agents, by_roles, catalog, evaluators, py, source, stages, start,
}
use enterprise_llm_gateway.StreamPort.{emit, finish_stream, pull}
use enterprise_llm_gateway.Streaming.{InferenceStreamEvent, consume, deliver, delivered}
use enterprise_llm_gateway.Streaming.Demo.{delivery, hold, holding}
use enterprise_llm_gateway.World.{unclassified}

abbrev body : InferenceBody
body = record { prompt = codes "hi"; model = some (codes "gpt"); stream = false }

abbrev caller : ℕ → RequestState
caller principal = record {
  request_id = some (codes "q1");
  auth = some (record { organization_id = 1; principal_id = principal });
}

canonical : canonical_payload body ≡ codes "{\"model\":\"gpt\",\"prompt\":\"hi\"}"
unfolding canonical_payload dumps_dict
canonical = refl

escaped : dumps_text (10 ∷ 34 ∷ 233 ∷ 128512 ∷ []) ≡ codes "\"\\n\\\"\\u00e9\\ud83d\\ude00\""
unfolding dumps_text
escaped = refl

a_frame : sse none (delta_json (codes "a")) ≡ codes "data: {\"delta\": \"a\"}" ++ (10 ∷ 10 ∷ [])
unfolding sse dumps_dict
a_frame = refl

infer-Decides_example :
    Decides
      (demo served)
      py
      catalog
      agents
      by_roles
      (local_engine (λ n. []) 100)
      (caller 7)
      body
      start
      (infer
        (demo served)
        stages
        default_policy
        evaluators
        source
        (λ members. codes "d")
        (caller 7)
        body
        start)
infer-Decides_example =
    infer-Decides (demo served) py catalog agents by_roles (local_engine (λ n. []) 100)
      default_policy evaluators source (λ members. codes "d") (caller 7) body start

abbrev two_events : List InferenceStreamEvent
two_events = delivered (codes "a\n\nb") ∷ delivered (codes "data: x") ∷ []

see-render_example :
    map see (read_messages (render (frame_messages 3 (codes "q1") two_events false)))
    ≡ meant 3 two_events false
unfolding all_encodable all_scalar
see-render_example = see-render 3 (codes "q1") two_events false refl

sent :
    (frame (demo served) 3 (codes "q1") (deliver delivery) holding).0
    ≡ (delta_message (codes "h") ∷ delta_message (codes "i") ∷ done_message ∷ [], false)
unfolding frame frame_messages consume pull finish_stream Reservations.settle settle account
    compute_cost ledger_for get text_eq text_beq put ◌*ℤ◌ ◌+ℤ◌ ◌-ℤ◌ settlement_detail settle_in
sent = refl

frame-Delivered_example :
    let ((ms, through), w') = frame (demo served) 3 (codes "q1") (deliver delivery) holding in
    Delivered
      (demo served)
      delivery
      (pos 0)
      3
      (emit delivery.first delivery.stream.upstream)
      ms
      holding
      w'
unfolding ledger_for get text_eq text_beq has_done dumps_dict
frame-Delivered_example =
    frame-Delivered (demo served) delivery (codes "q1") (pos 0) hold 2 unclassified
      delivery.stream.upstream holding refl refl
      (record { up = refl; spent_is = refl; entry_is = refl })
      (ap (λ (z : List Message × Bool). has_done z.0) sent)
