-- ===== src/Streaming/Settled.antt =====
-- A streamed request from its opening to the end of its stream.
use mathlib.Core.Path.{subst}
use enterprise_llm_gateway.Prelude.{
  Bool, Option, Text, [], ap, false, nat_eq, none, pair_eq, refl, some, suc, sym, text_eq, true, ℕ,
  ◌≡◌,
}
use enterprise_llm_gateway.Prelude.Dict.{get}
use enterprise_llm_gateway.Prelude.Int.{ℤ, ◌+ℤ◌}
use enterprise_llm_gateway.Prelude.Result.{Result, err, ok}
use enterprise_llm_gateway.Accounting.{CostRecord, PriceFor}
use enterprise_llm_gateway.Execution.Charges.{charged, plus_zero}
use enterprise_llm_gateway.Ledger.{Reservation, is_reserved, ledger_for}
use enterprise_llm_gateway.Ledger.Account.{Stands}
use enterprise_llm_gateway.Ledger.Holds.{held}
use enterprise_llm_gateway.Ports.{InferenceRequest, ProviderDescriptor}
use enterprise_llm_gateway.Routing.{RoutingExecution}
use enterprise_llm_gateway.StreamPort.{ProviderStream, Upstream, emit}
use enterprise_llm_gateway.Streaming.{
  Delivery, Events, OpenFailure, StreamSession, consume, deliver, open_session, provider_raised,
  relay, replay, unencodable,
}
use enterprise_llm_gateway.Streaming.Endings.{bill, ending}
use enterprise_llm_gateway.Streaming.Finalize.{Closed, Relays, relay-Relays, running}
use enterprise_llm_gateway.Streaming.Opening.{Delivers, EventsOpen, Held, Opens, open_session-Opens}
use enterprise_llm_gateway.World.{Env, StreamLabel, World}

-- What pulling a session so many times bills.
unfoldable pub session_bill : PriceFor → ℕ → Option Events → Option CostRecord
unfolding bill ending
session_bill prices n none = none
session_bill prices n (some (replay content)) = none
session_bill prices n (some (deliver d)) =
    bill prices d (ending n [] (emit d.first d.stream.upstream))

-- A stream that was opened and is closed unread, or whose first pull raised.
abbrev pub is_delivery : Option Events → Bool
is_delivery none = false
is_delivery (some (replay content)) = false
is_delivery (some (deliver d)) = true

abbrev pub left_open : Result OpenFailure StreamSession → Bool
left_open (err unencodable) = false
left_open (err provider_raised) = true
left_open (ok session) = is_delivery session.events

module _ (E : Env) where
  open E use {Client}

  -- The session's iterator, if it has one, is pulled so many times and closed.
  unfoldable pub read : ℕ → Option Events → World Client → World Client
  read n none w = w
  read n (some events) w = (consume E n events w).1

  unfoldable pub read_answer : ℕ → Result OpenFailure StreamSession → World Client → World Client
  unfolding read
  read_answer n (err e) w = w
  read_answer n (ok session) w = read n session.events w

  -- A delivery whose hold stands, pulled at least once: whatever the provider does and whenever the
  -- consumer leaves, the ledger, the breaker, the cache and the events are as the ending says, and
  -- nothing is held at the end. What is spent grows by the bill of a completed stream with a usage
  -- that can be priced, and by nothing else; only that stream's text is cached; the breaker is told of
  -- a completion, a failure or a stop, and not of a consumer that left or of an exception.
  pub consume-Relays :
      (d : Delivery) (spent : ℤ) (r : Reservation) (n : ℕ) (label : StreamLabel) (u : Upstream)
      (w : World Client)
      → d.stream ≡ running d.provider label u
      → is_reserved r.status ≡ true
      → Stands d.organization_id d.correlation_id spent (some r) w.ledger
      → Relays E d spent (suc n) [] (emit d.first u) w (consume E (suc n) (deliver d) w)
  unfolding consume
  consume-Relays d spent r n label u w same live h =
      subst
        (λ (s : ProviderStream).
          Relays E d spent (suc n) [] (emit d.first u) w (relay E d n [] d.first s w))
        (sym same) (relay-Relays E d spent r n [] d.first label u w (live, h))

  delivery-Closed :
      (d : Delivery) (spent : ℤ) (n : ℕ) (w : World Client)
      → Held d.organization_id d.correlation_id spent w.ledger
      → Delivers d.organization_id d.correlation_id d
      → Closed d.organization_id d.correlation_id
          (spent +ℤ charged (session_bill E.price_for (suc n) (some (deliver d))))
          (read (suc n) (some (deliver d)) w).ledger
  unfolding read session_bill Relays
  delivery-Closed d spent n w kept_hold to =
      let (h, shown, through) =
        consume-Relays d spent kept_hold.hold n to.label to.upstream w to.stream_is kept_hold.live
          kept_hold.stands in
      subst
        (λ (u : Upstream).
          Closed d.organization_id d.correlation_id
            (spent +ℤ charged (bill E.price_for d (ending (suc n) [] (emit d.first u))))
            (read (suc n) (some (deliver d)) w).ledger)
        (sym (ap (λ (s : ProviderStream). s.upstream) to.stream_is)) h.closed

  read-Closed :
      (org : ℕ) (corr : Text) (spent : ℤ) (n : ℕ) (events : Option Events) (w : World Client)
      → EventsOpen org corr spent events w.ledger
      → Closed org corr
          (spent +ℤ charged (session_bill E.price_for (suc n) events))
          (read (suc n) events w).ledger
  unfolding read session_bill EventsOpen consume
  read-Closed org corr spent n none w h = rw (plus_zero spent) h
  read-Closed org corr spent n (some (replay content)) w h = rw (plus_zero spent) h
  read-Closed org corr spent n (some (deliver d)) w (kept_hold, to) =
      let own : Delivers d.organization_id d.correlation_id d = record {
        label = to.label;
        upstream = to.upstream;
        org_is = refl;
        corr_is = refl;
        stream_is = to.stream_is;
      } in
      let cost = charged (session_bill E.price_for (suc n) (some (deliver d))) in
      let w' = read (suc n) (some (deliver d)) w in
      subst (λ (o : ℕ). Closed o corr (spent +ℤ cost) w'.ledger) to.org_is
        (subst (λ (c : Text). Closed d.organization_id c (spent +ℤ cost) w'.ledger) to.corr_is
          (delivery-Closed d spent n w
            (subst (λ (c : Text). Held d.organization_id c spent w.ledger) (sym to.corr_is)
              (subst (λ (o : ℕ). Held o corr spent w.ledger) (sym to.org_is) kept_hold))
            own))

  -- A streamed request whose identifier is new to its organization's ledger, with a ledger that
  -- answers. If `open` returns a session and its iterator, if it has one, is pulled at least once
  -- before it is closed, then nothing is held under the identifier at the end, and what the
  -- organization has spent has grown by exactly the bill: that of a stream that completed before the
  -- consumer left, with a usage that can be priced.
  pub read-settles :
      (open_upstream : ProviderDescriptor → InferenceRequest → Client → Upstream × Client)
      (e : RoutingExecution) (request : InferenceRequest) (session : StreamSession) (n : ℕ)
      (w : World Client)
      → w.ledger.unavailable ≡ false
      → get request.correlation_id (ledger_for e.decision.organization_id w.ledger).reservations
        ≡ none
      → let (answer, w') = open_session E open_upstream e request w in
        let org = e.decision.organization_id in
        answer ≡ ok session
        → Closed org request.correlation_id
            ((ledger_for org w.ledger).spent
              +ℤ charged (session_bill E.price_for (suc n) session.events))
            (read (suc n) session.events w').ledger
  unfolding Opens
  read-settles open_upstream e request session n w up new returned =
      let org = e.decision.organization_id in
      let corr = request.correlation_id in
      let spent = (ledger_for org w.ledger).spent in
      let w' = (open_session E open_upstream e request w).1 in
      read-Closed org corr spent n session.events w' (
        subst (λ (a : Result OpenFailure StreamSession). Opens org corr spent a w'.ledger) returned
          (open_session-Opens E open_upstream e request w up new))

  unread_events-Held :
      (org : ℕ) (corr : Text) (spent : ℤ) (events : Option Events) (w : World Client)
      → is_delivery events ≡ true
      → EventsOpen org corr spent events w.ledger
      → Held org corr spent (read 0 events w).ledger
  unfolding read EventsOpen consume
  unread_events-Held org corr spent none w unread h = absurd (cc)
  unread_events-Held org corr spent (some (replay content)) w unread h = absurd (cc)
  unread_events-Held org corr spent (some (deliver d)) w unread (held, to) = held

  left_open-Held :
      (org : ℕ) (corr : Text) (spent : ℤ) (answer : Result OpenFailure StreamSession)
      (w : World Client)
      → left_open answer ≡ true
      → Opens org corr spent answer w.ledger
      → Held org corr spent (read_answer 0 answer w).ledger
  unfolding Opens read_answer
  left_open-Held org corr spent (err unencodable) w unread h = absurd (cc)
  left_open-Held org corr spent (err provider_raised) w unread h = h
  left_open-Held org corr spent (ok session) w unread h =
      unread_events-Held org corr spent session.events w unread h

  -- A streamed request whose identifier is new to its organization's ledger, with a ledger that
  -- answers. If its stream is opened and then closed before it is pulled, or its provider raises before
  -- the first event, its hold stands in the ledger at the end: nothing has been released.
  pub unread-Held :
      (open_upstream : ProviderDescriptor → InferenceRequest → Client → Upstream × Client)
      (e : RoutingExecution) (request : InferenceRequest) (w : World Client)
      → w.ledger.unavailable ≡ false
      → get request.correlation_id (ledger_for e.decision.organization_id w.ledger).reservations
        ≡ none
      → let (answer, w') = open_session E open_upstream e request w in
        let org = e.decision.organization_id in
        left_open answer ≡ true
        → Held org request.correlation_id
            (ledger_for org w.ledger).spent
            (read_answer 0 answer w').ledger
  unread-Held open_upstream e request w up new unread =
      let (answer, w') = open_session E open_upstream e request w in
      left_open-Held e.decision.organization_id request.correlation_id
        (ledger_for e.decision.organization_id w.ledger).spent answer w' unread
        (open_session-Opens E open_upstream e request w up new)
