-- ===== src/Streaming/Demo.antt =====
-- A delivery of two chunks, and a world in which its hold stands.
use enterprise_llm_gateway.Prelude.{[], codes, false, nat_eq, none, pair_eq, some, text_eq, ℕ, ◌∷◌}
use enterprise_llm_gateway.Prelude.Int.{pos}
use enterprise_llm_gateway.Execution.Demo.{openai, world}
use enterprise_llm_gateway.Ledger.{Reservation, new_hold, new_org}
use enterprise_llm_gateway.StreamPort.{chunk, completed, emit, stopped}
use enterprise_llm_gateway.Streaming.{Delivery}
use enterprise_llm_gateway.Streaming.Finalize.{running}
use enterprise_llm_gateway.World.{World, unclassified}

abbrev pub delivery : Delivery
delivery = record {
  organization_id = 1;
  provider = openai;
  correlation_id = codes "r1";
  key = codes "k";
  stream = running openai unclassified (
      emit (chunk (codes "i")) (
        emit (completed (some (record { prompt_tokens = pos 4; completion_tokens = pos 2 })))
          stopped));
  first = chunk (codes "h");
}

abbrev pub hold : Reservation
hold = new_hold 1000 (codes "r1") (record { amount = pos 100; currency = codes "USD" })

-- The hold of the delivery stands.
abbrev pub holding : World ℕ
holding = record (world 5000) {
  ledger = record {
    orgs = (1, record (new_org none) { reservations = (codes "r1", hold) ∷ [] }) ∷ [];
    unavailable = false;
  };
}
