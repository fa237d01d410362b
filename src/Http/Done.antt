-- ===== src/Http/Done.antt =====
-- What the final mark of a streamed response is worth: the whole text was delivered, charged and kept.
use mathlib.Core.List.{append-nil, append_assoc}
use mathlib.Core.Path.{subst}
use enterprise_llm_gateway.Prelude.{
  Bool, List, Option, Option-cases, Text, [], ap, arith, false, inl, inr, map, nat_eq, none,
  pair_eq, refl, some, suc, sym, text_beq, text_eq, true, zero, ℕ, ◌++◌, ◌+◌, ◌==◌, ◌||◌, ◌∙◌, ◌∷◌,
  ◌≡◌,
}
use enterprise_llm_gateway.Prelude.Int.{ℤ, ◌+ℤ◌}
use enterprise_llm_gateway.Prelude.Result.{Result, ok}
use enterprise_llm_gateway.Accounting.{AccountingDefect, CostRecord, PriceFor, account}
use enterprise_llm_gateway.Execution.Charges.{charged}
use enterprise_llm_gateway.Http.{
  Message, delta_json, delta_message, done_message, done_sentinel, frame, frame_messages,
}
use enterprise_llm_gateway.Json.{dumps_dict}
use enterprise_llm_gateway.Ledger.{Reservation, is_reserved}
use enterprise_llm_gateway.Ledger.Account.{Stands}
use enterprise_llm_gateway.Ports.{ProviderUsage}
use enterprise_llm_gateway.StreamPort.{Upstream, chunk, completed, emit, failed, raises, stopped}
use enterprise_llm_gateway.Streaming.{
  Delivery, Relayed, assembled, broken, consume, deliver, unaccountable,
}
use enterprise_llm_gateway.Streaming.Endings.{
  accounted, bill, cached, chunks, completes, ending, farewell, is_break, kept,
}
use enterprise_llm_gateway.Streaming.Finalize.{Closed, Relays, running}
use enterprise_llm_gateway.Streaming.Settled.{consume-Relays}
use enterprise_llm_gateway.World.{Env, StreamLabel, World}

-- One of the messages is the final mark.
unfoldable pub has_done : List Message → Bool
unfolding text_eq text_beq
has_done [] = false
has_done ((none, t) ∷ ms) = t == done_sentinel || has_done ms
has_done ((some event, t) ∷ ms) = has_done ms

unfoldable pub join : List Text → Text
join [] = []
join (t ∷ ts) = t ++ join ts

not_done : {A : Type 0} → false ≡ true → A
not_done h = absurd (cc)

delta-not_done : (content : Text) → (delta_json content == done_sentinel) ≡ false
unfolding dumps_dict text_eq text_beq
delta-not_done content = refl

module _ (prices : PriceFor) (d : Delivery) (id : Text) where
  shown_messages : ℕ → Text → Upstream → List Message
  shown_messages n content u =
      let e = ending n content u in
      frame_messages n id (chunks n u ++ farewell prices d e) (is_break e)

  -- The stream completed after these parts, with a usage that was priced, and the messages are the
  -- parts and the final mark.
  record Completed (n : ℕ) (content : Text) (u : Upstream) : Type 0 where
    parts : List Text
    usage : ProviderUsage
    cost : CostRecord
    ending_is : ending n content u ≡ completes (some usage) (content ++ join parts)
    billed : bill prices d (completes (some usage) (content ++ join parts)) ≡ some cost
    shown : shown_messages n content u ≡ map delta_message parts ++ (done_message ∷ [])

  farewell-unbilled :
      (usage : ProviderUsage) (content : Text)
      → bill prices d (completes (some usage) content) ≡ none
      → farewell prices d (completes (some usage) content) ≡ broken unaccountable ∷ []
  unfolding farewell
  farewell-unbilled usage content f = ground (arith, f)

  farewell-billed :
      (usage : ProviderUsage) (content : Text) (cost : CostRecord)
      → bill prices d (completes (some usage) content) ≡ some cost
      → farewell prices d (completes (some usage) content) ≡ []
  unfolding farewell
  farewell-billed usage content cost f = ground (arith, f)

  completed-Completed :
      (n : ℕ) (content : Text) (usage : ProviderUsage) (u : Upstream)
      → has_done (shown_messages (suc n) content (emit (completed (some usage)) u)) ≡ true
      → Completed (suc n) content (emit (completed (some usage)) u)
  unfolding shown_messages frame_messages has_done chunks ending join
  completed-Completed n content usage u h =
      elim (Option-cases (bill prices d (completes (some usage) content))) [
        | inl f ↦ not_done (rw (farewell-unbilled usage content f, has_done, frame_messages) at h)
        | inr (cost, f) ↦ record {
          parts = [];
          usage = usage;
          cost = cost;
          ending_is = ap (completes (some usage)) (sym (append-nil content));
          billed = rw (append-nil content) f;
          shown = rw (farewell-billed usage content cost f) refl;
        }
      ]

  done-Completed :
      (n : ℕ) (content : Text) (u : Upstream)
      → has_done (shown_messages n content u) ≡ true
      → Completed n content u
  unfolding shown_messages frame_messages has_done chunks ending farewell join
  done-Completed zero content u h = absurd (cc)
  done-Completed (suc n) content (emit (chunk c) u) h =
      let more = done-Completed n (content ++ c) u (ground (arith, h, delta-not_done c)) in
      record {
        parts = c ∷ more.parts;
        usage = more.usage;
        cost = more.cost;
        ending_is =
            more.ending_is
            ∙ ap (completes (some more.usage)) (append_assoc content c (join more.parts));
        billed = rw⁻¹ (append_assoc content c (join more.parts)) more.billed;
        shown = ap (λ (ms : List Message). delta_message c ∷ ms) more.shown;
      }
  done-Completed (suc n) content (emit (completed none) u) h = absurd (cc)
  done-Completed (suc n) content (emit (completed (some usage)) u) h =
      completed-Completed n content usage u h
  done-Completed (suc n) content (emit (failed f) u) h = absurd (cc)
  done-Completed (suc n) content stopped h = absurd (cc)
  done-Completed (suc n) content raises h = absurd (cc)

module _ (E : Env) where
  open E use {Client, clock, price_for}

  -- Within so many pulls the provider completed its stream of the parts and reported the usage. The
  -- client has been sent the parts and the final mark; the organization has been charged for them,
  -- nothing is held, and the text that they make is in the cache.
  pub record Delivered (d : Delivery) (spent : ℤ) (n : ℕ) (u : Upstream) (ms : List Message)
      (w w' : World Client) : Type 0 where
    pub parts : List Text
    pub usage : ProviderUsage
    pub cost : CostRecord
    pub reported : ending n [] u ≡ completes (some usage) (join parts)
    pub shown : ms ≡ map delta_message parts ++ (done_message ∷ [])
    pub priced :
        account price_for
          (assembled d.provider (join parts) usage)
          d.provider
          d.organization_id
          d.correlation_id
        ≡ ok cost
    pub closed : Closed d.organization_id d.correlation_id (spent +ℤ charged (some cost)) w'.ledger
    pub cache_is : w'.cache ≡ cached d (clock (w.readings + 1)) (some (join parts)) w.cache

  accounted-some :
      (answer : Result AccountingDefect CostRecord) (cost : CostRecord)
      → accounted answer ≡ some cost
      → answer ≡ ok cost
  accounted-some answer cost h = ground (arith, h)

  kept-billed :
      (d : Delivery) (usage : ProviderUsage) (content : Text) (cost : CostRecord)
      → bill price_for d (completes (some usage) content) ≡ some cost
      → kept price_for d (completes (some usage) content) ≡ some content
  unfolding kept
  kept-billed d usage content cost f = ground (arith, f)

  relayed-Delivered :
      (d : Delivery) (id : Text) (spent : ℤ) (n : ℕ) (u : Upstream) (w : World Client)
      (z : Relayed × World Client)
      → Relays E d spent n [] u w z
      → has_done (frame_messages n id z.0.events z.0.raised) ≡ true
      → Delivered d spent n u (frame_messages n id z.0.events z.0.raised) w z.1
  unfolding Relays shown_messages bill
  relayed-Delivered d id spent n u w z (h, events_are, through_is) done =
      let same : frame_messages n id z.0.events z.0.raised ≡ shown_messages price_for d id n [] u =
        cc in
      let c = done-Completed price_for d id n [] u (ap has_done (sym same) ∙ done) in
      let text_is = join c.parts in
      record {
        parts = c.parts;
        usage = c.usage;
        cost = c.cost;
        reported = c.ending_is;
        shown = same ∙ c.shown;
        priced =
            accounted-some
              (account price_for (assembled d.provider text_is c.usage) d.provider d.organization_id
                d.correlation_id)
              c.cost c.billed;
        closed =
            subst
              (λ (b : Option CostRecord).
                Closed d.organization_id d.correlation_id (spent +ℤ charged b) z.1.ledger)
              (ap (bill price_for d) c.ending_is ∙ c.billed) h.closed;
        cache_is =
            h.cache_is
            ∙ ap (λ (k : Option Text). cached d (clock (w.readings + 1)) k w.cache)
                (ap (kept price_for d) c.ending_is ∙ kept-billed d c.usage text_is c.cost c.billed);
      }

  -- A delivery whose hold stands, framed for a client that pulls at least once. If the client is sent
  -- the final mark, then what it was sent before is the whole text of a stream that the provider
  -- completed, in its parts; the organization was charged exactly what the usage that the provider
  -- reported there costs; nothing is held
  -- for the request; and the same text is what the cache was given.
  pub frame-Delivered :
      (d : Delivery) (id : Text) (spent : ℤ) (r : Reservation) (n : ℕ) (label : StreamLabel)
      (u : Upstream) (w : World Client)
      → d.stream ≡ running d.provider label u
      → is_reserved r.status ≡ true
      → Stands d.organization_id d.correlation_id spent (some r) w.ledger
      → let ((ms, through), w') = frame E (suc n) id (deliver d) w in
        has_done ms ≡ true → Delivered d spent (suc n) (emit d.first u) ms w w'
  unfolding frame
  frame-Delivered d id spent r n label u w same live h done =
      relayed-Delivered d id spent (suc n) (emit d.first u) w (consume E (suc n) (deliver d) w)
        (consume-Relays E d spent r n label u w same live h) done
