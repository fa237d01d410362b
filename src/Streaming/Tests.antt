-- ===== src/Streaming/Tests.antt =====
-- Streams of the small gateway: a complete one, one whose consumer leaves, one that is never read.
use enterprise_llm_gateway.Reservations
use enterprise_llm_gateway.Prelude.{
  [], ap, codes, nat_eq, pair_beq, pair_eq, refl, some, text_beq, text_eq, ℕ, ◌++◌, ◌+◌, ◌∷◌, ◌≡◌,
}
use enterprise_llm_gateway.Prelude.Dict.{get, map_values, put, values}
use enterprise_llm_gateway.Prelude.Int.{pos, ◌*ℤ◌, ◌+ℤ◌, ◌-ℤ◌}
use enterprise_llm_gateway.Prelude.Result.{ok}
use enterprise_llm_gateway.Accounting.{account, compute_cost, estimate_usage, settlement_detail}
use enterprise_llm_gateway.Cache.{compute_cache_key, join_nul, safe_get}
use enterprise_llm_gateway.Execution.Charges.{charged}
use enterprise_llm_gateway.Execution.Demo.{demo, execution, request, served, world}
use enterprise_llm_gateway.Http.{answer}
use enterprise_llm_gateway.Ledger.{ledger_for, reconcile_expired, release, reserve, settle}
use enterprise_llm_gateway.Ports.{InferenceRequest, ProviderDescriptor, executed}
use enterprise_llm_gateway.Reservations.{ledger}
use enterprise_llm_gateway.StreamPort.{
  Upstream, chunk, completed, emit, finish_stream, label_after, new_stream, pull, stopped,
}
use enterprise_llm_gateway.Streaming.{
  StreamSession, broken, consume, deliver, delivered, open_session, opened_session, unaccountable,
}
use enterprise_llm_gateway.Streaming.Demo.{delivery, hold, holding}
use enterprise_llm_gateway.Streaming.Finalize.{Closed, Relays}
use enterprise_llm_gateway.Streaming.Opening.{Held}
use enterprise_llm_gateway.Streaming.Settled.{
  consume-Relays, left_open, read, read-settles, read_answer, session_bill, unread-Held,
}
use enterprise_llm_gateway.World.{unclassified}

abbrev two_chunks : Upstream
two_chunks = emit (chunk (codes "h")) (
    emit (chunk (codes "i")) (
      emit (completed (some (record { prompt_tokens = pos 4; completion_tokens = pos 2 })))
        stopped))

abbrev source : ProviderDescriptor → InferenceRequest → ℕ → Upstream × ℕ
source provider asked calls = (two_chunks, calls + 1)

abbrev session : StreamSession
session = opened_session executed (
    deliver (record delivery {
      key = (2 ∷ []) ++ (0 ∷ codes "openai") ++ (0 ∷ codes "gpt") ++ (0 ∷ codes "json");
    }))

read_whole :
    (consume (demo served) 3 (deliver delivery) (world 1000)).0.events
    ≡ delivered (codes "h") ∷ delivered (codes "i") ∷ broken unaccountable ∷ []
unfolding consume pull finish_stream Reservations.settle account compute_cost settle release
    ledger_for get text_eq text_beq put ◌*ℤ◌ ◌+ℤ◌ ◌-ℤ◌ settlement_detail
read_whole = refl

opens : (open_session (demo served) source execution request (world 5000)).0 ≡ ok session
unfolding open_session compute_cache_key join_nul safe_get new_stream pull label_after
    Reservations.reserve reserve reconcile_expired estimate_usage compute_cost get put values
    map_values text_eq text_beq pair_eq pair_beq ◌+ℤ◌ ◌-ℤ◌ ◌*ℤ◌ ledger_for
opens = refl

read-settles_example :
    let z = open_session (demo served) source execution request (world 5000) in
    Closed 1
      (codes "r1")
      (pos 0 +ℤ charged (session_bill (demo served).price_for 3 session.events))
      (read (demo served) 3 session.events z.1).ledger
unfolding ledger_for get
read-settles_example =
    read-settles (demo served) source execution request session 2 (world 5000) refl refl opens

unread-Held_example :
    let (answer, w') = open_session (demo served) source execution request (world 5000) in
    Held 1 (codes "r1") (pos 0) (read_answer (demo served) 0 answer w').ledger
unfolding ledger_for get
unread-Held_example =
    unread-Held (demo served) source execution request (world 5000) refl refl (ap left_open opens)

consume-Relays_example :
    Relays
      (demo served)
      delivery
      (pos 0)
      3
      []
      (emit delivery.first delivery.stream.upstream)
      holding
      (consume (demo served) 3 (deliver delivery) holding)
unfolding ledger_for get text_eq text_beq
consume-Relays_example =
    consume-Relays (demo served) delivery (pos 0) hold 2 unclassified delivery.stream.upstream
      holding refl refl (record { up = refl; spent_is = refl; entry_is = refl })
