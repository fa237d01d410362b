-- ===== src/Streaming/Opening.antt =====
-- What opening a stream leaves: a refusal or a replay holds nothing, and a stream that is to be
-- delivered has its hold standing.
use enterprise_llm_gateway.Reservations
use enterprise_llm_gateway.Prelude.{
  Option, Option-cases, Text, arith, codes, false, if-cases, if◌then◌else◌, inl, inr, nat_eq, none,
  pair_eq, refl, some, text_eq, true, ℕ, ◌++◌, ◌≡◌,
}
use enterprise_llm_gateway.Prelude.Dict.{get}
use enterprise_llm_gateway.Prelude.Int.{ℤ}
use enterprise_llm_gateway.Prelude.Result.{Result, err, ok}
use enterprise_llm_gateway.Accounting.{ModelPrice, compute_cost, estimate_usage}
use enterprise_llm_gateway.Cache.{compute_cache_key, safe_get}
use enterprise_llm_gateway.Execution.{budget_text, refusal}
use enterprise_llm_gateway.Execution.Charges.{plus_zero}
use enterprise_llm_gateway.Execution.Served.{reclaim-Stands, reserve_priced-Stands}
use enterprise_llm_gateway.Ledger.{
  Ledger, Reservation, is_reserved, ledger_for, new_hold, permitted,
}
use enterprise_llm_gateway.Ledger.Account.{Stands}
use enterprise_llm_gateway.Ledger.Holds.{held}
use enterprise_llm_gateway.Ports.{
  ExecutionOutcome, InferenceRequest, ProviderDescriptor, cache_hit, executed, not_accountable,
  not_routed,
}
use enterprise_llm_gateway.Reservations.{reclaim, reserve_priced}
use enterprise_llm_gateway.Routing.{RoutingExecution, outcome_text, routed}
use enterprise_llm_gateway.StreamPort.{
  ProviderStream, StreamFailure, Upstream, aclose_stream, chunk, completed, emit, failed,
  finish_stream, label_after, new_stream, pull, raises, stopped,
}
use enterprise_llm_gateway.Streaming.{
  Delivery, Events, OpenFailure, StreamSession, begin_stream, committed, deliver, fail_open,
  finish_open, framable, is_hit, malformed_stream, observe_stream, on_first, open_keyed,
  open_reserved, open_session, open_stream, opened_session, provider_raised, refused_session,
  release_quietly, replay, unencodable,
}
use enterprise_llm_gateway.Streaming.Finalize.{Closed, Stands-Closed, release-Closed, running}
use enterprise_llm_gateway.World.{
  Env, StreamLabel, World, answered, cache_lookup, inference_attempt, record_metric, tick,
  unclassified,
}

-- A hold stands under the identifier.
pub record Held (org : ℕ) (corr : Text) (spent : ℤ) (s : Ledger) : Type 0 where
  pub hold : Reservation
  pub live : is_reserved hold.status ≡ true
  pub stands : Stands org corr spent (some hold) s

-- The delivery of a request's stream.
pub record Delivers (org : ℕ) (corr : Text) (d : Delivery) : Type 0 where
  pub label : StreamLabel
  pub upstream : Upstream
  pub org_is : d.organization_id ≡ org
  pub corr_is : d.correlation_id ≡ corr
  pub stream_is : d.stream ≡ running d.provider label upstream

module _ (org : ℕ) (corr : Text) (spent : ℤ) where
  unfoldable pub EventsOpen : Option Events → Ledger → Type 0
  EventsOpen none s = Closed org corr spent s
  EventsOpen (some (replay content)) s = Closed org corr spent s
  EventsOpen (some (deliver d)) s = Held org corr spent s × Delivers org corr d

  unfoldable pub Opens : Result OpenFailure StreamSession → Ledger → Type 0
  unfolding EventsOpen
  Opens (err unencodable) s = Closed org corr spent s
  Opens (err provider_raised) s = Held org corr spent s
  Opens (ok session) s = EventsOpen session.events s

module _ (E : Env)
    (open_upstream : ProviderDescriptor → InferenceRequest → E.Client → Upstream × E.Client) where
  open E use {Client, price_for, clock}

  ledger-aclose : (s : ProviderStream) (w : World Client) → (aclose_stream s w).ledger ≡ w.ledger
  unfolding aclose_stream
  ledger-aclose s w = ground arith

  fail_open-Opens :
      (org : ℕ) (provider : ProviderDescriptor) (corr : Text) (spent : ℤ) (f : StreamFailure)
      (s : ProviderStream) (w : World Client)
      → Held org corr spent w.ledger
      → let (answer, w') = fail_open E open_upstream org provider corr f s w in
        Opens org corr spent answer w'.ledger
  unfolding fail_open Opens observe_stream release_quietly Reservations.release
  fail_open-Opens org provider corr spent f s w h =
      rw (ledger-aclose s (record_metric (inference_attempt executed) w))
        (rw (plus_zero spent) at (release-Closed org corr spent h.hold w.ledger h.live h.stands))

  begin_stream-Opens :
      (org : ℕ) (provider : ProviderDescriptor) (request : InferenceRequest) (digest : Text)
      (spent : ℤ) (u : Upstream) (w : World Client)
      → Held org request.correlation_id spent w.ledger
      → let (answer, w') = begin_stream E open_upstream org provider request digest u w in
        Opens org request.correlation_id spent answer w'.ledger
  unfolding begin_stream new_stream pull Opens on_first committed finish_open label_after
  begin_stream-Opens org provider request digest spent (emit (chunk c) u) w h = (
    h,
    record { label = unclassified; upstream = u; org_is = refl; corr_is = refl; stream_is = refl },
  )
  begin_stream-Opens org provider request digest spent (emit (completed usage) u) w h = (
    h,
    record { label = answered; upstream = u; org_is = refl; corr_is = refl; stream_is = refl },
  )
  begin_stream-Opens org provider request digest spent (emit (failed f) u) w h =
      fail_open-Opens org provider request.correlation_id spent f
        (running provider (label_after (failed f) unclassified) u) w h
  begin_stream-Opens org provider request digest spent stopped w h =
      let (s, w') = finish_stream (new_stream provider stopped) w in
      fail_open-Opens org provider request.correlation_id spent malformed_stream s w' h
  begin_stream-Opens org provider request digest spent raises w h = h

  open_reserved-unpriced :
      (org : ℕ) (provider : ProviderDescriptor) (request : InferenceRequest) (digest : Text)
      (w : World Client)
      → price_for org provider.name provider.model ≡ none
      → open_reserved E open_upstream org provider request digest w
        ≡ finish_open E open_upstream not_accountable
            (refused_session not_accountable (codes "not_accountable"))
            (Reservations.reclaim E org w).1
  unfolding open_reserved Reservations.reserve
  open_reserved-unpriced org provider request digest w f = ground arith

  open_reserved-priced :
      (org : ℕ) (provider : ProviderDescriptor) (request : InferenceRequest) (digest : Text)
      (w : World Client) (price : ModelPrice)
      → price_for org provider.name provider.model ≡ some price
      → let (r, w2) =
          Reservations.reserve_priced E org request price (Reservations.reclaim E org w).1 in
        open_reserved E open_upstream org provider request digest w ≡ (
          if permitted r.outcome
          then open_stream E open_upstream org provider request digest w2
          else finish_open E open_upstream
              (refusal r.outcome)
              (refused_session (refusal r.outcome) (budget_text r.outcome))
              w2)
  unfolding open_reserved Reservations.reserve
  open_reserved-priced org provider request digest w price f = ground arith

  abbrev OpensAt : ℕ → Text → ℤ → Result OpenFailure StreamSession × World Client → Type 0
  OpensAt org corr spent z = Opens org corr spent z.0 z.1.ledger

  refused-Opens :
      (org : ℕ) (corr : Text) (spent : ℤ) (o : ExecutionOutcome) (reason : Text) (w : World Client)
      → Stands org corr spent none w.ledger
      → OpensAt org corr spent (finish_open E open_upstream o (refused_session o reason) w)
  unfolding finish_open Opens
  refused-Opens org corr spent o reason w h = Stands-Closed org corr spent none w.ledger refl h

  open_reserved-Opens :
      (org : ℕ) (provider : ProviderDescriptor) (request : InferenceRequest) (digest : Text)
      (spent : ℤ) (w : World Client)
      → Stands org request.correlation_id spent none w.ledger
      → OpensAt org request.correlation_id spent
          (open_reserved E open_upstream org provider request digest w)
  unfolding open_stream
  open_reserved-Opens org provider request digest spent w h =
      let corr = request.correlation_id in
      let w1 = (Reservations.reclaim E org w).1 in
      let h1 = reclaim-Stands E org corr spent w h in
      elim (Option-cases (price_for org provider.name provider.model)) [
        | inl f ↦
            rw (open_reserved-unpriced org provider request digest w f)
              (refused-Opens org corr spent not_accountable (codes "not_accountable") w1 h1)
        | inr (price, f) ↦
            let (r, w2) = Reservations.reserve_priced E org request price w1 in
            let (held, refused) = reserve_priced-Stands E org request price spent w1 h1 in
            let cost = (compute_cost (estimate_usage request) price).total_cost in
            rw (open_reserved-priced org provider request digest w price f) (
              if-cases (OpensAt org corr spent) (permitted r.outcome)
                (λ is_held.
                  let (upstream, c) = open_upstream provider request w2.client in
                  begin_stream-Opens org provider request digest spent upstream
                    (record w2 { client = c })
                    (record {
                      hold = new_hold (clock w1.readings) corr cost;
                      live = refl;
                      stands = held is_held;
                    }))
                (λ not_held.
                  refused-Opens org corr spent (refusal r.outcome) (budget_text r.outcome) w2
                    (refused not_held)))
      ]

  open_keyed-Opens :
      (org : ℕ) (provider : ProviderDescriptor) (request : InferenceRequest) (digest : Text)
      (spent : ℤ) (w : World Client)
      → Stands org request.correlation_id spent none w.ledger
      → OpensAt org request.correlation_id spent
          (open_keyed E open_upstream org provider request digest w)
  unfolding open_keyed
  open_keyed-Opens org provider request digest spent w h =
      let found = framable (safe_get (clock w.readings) org digest w.cache) in
      let w' = record_metric (cache_lookup (is_hit found)) (tick w) in
      let replayed : (content : Text)
          → OpensAt org request.correlation_id spent (
              finish_open E open_upstream cache_hit (opened_session cache_hit (replay content))
                w') =
        λ content.
          unfold finish_open Opens in
          Stands-Closed org request.correlation_id spent none w'.ledger refl h in
      elim found
        as (λ o. OpensAt org request.correlation_id spent (elim o [
          | some content ↦
              finish_open E open_upstream cache_hit (opened_session cache_hit (replay content)) w'
          | none ↦ open_reserved E open_upstream org provider request digest w'
        ])) [
          | none ↦ open_reserved-Opens org provider request digest spent w' h
          | some content ↦ replayed content
        ]

  -- An identifier that is new to the organization's ledger, and a ledger that answers.
  pub open_session-Opens :
      (e : RoutingExecution) (request : InferenceRequest) (w : World Client)
      → w.ledger.unavailable ≡ false
      → get request.correlation_id (ledger_for e.decision.organization_id w.ledger).reservations
        ≡ none
      → let (answer, w') = open_session E open_upstream e request w in
        let org = e.decision.organization_id in
        Opens org request.correlation_id (ledger_for org w.ledger).spent answer w'.ledger
  unfolding open_session
  open_session-Opens e request w up new =
      let org = e.decision.organization_id in
      let corr = request.correlation_id in
      let spent = (ledger_for org w.ledger).spent in
      let h : Stands org corr spent none w.ledger = record {
        up = up;
        spent_is = refl;
        entry_is = new;
      } in
      elim (routed e)
        as (λ o. OpensAt org corr spent (elim o [
          | none ↦
              finish_open E open_upstream not_routed
                (refused_session not_routed
                  (codes "not_routed: " ++ outcome_text e.decision.outcome))
                w
          | some provider ↦
              elim (compute_cache_key E.sha256 E.uuid_text org provider.name provider.model
                request.payload) [
                  | none ↦ (err unencodable, w)
                  | some digest ↦ open_keyed E open_upstream org provider request digest w
                ]
        ])) [
          | none ↦
              refused-Opens org corr spent not_routed
                (codes "not_routed: " ++ outcome_text e.decision.outcome) w h
          | some provider ↦
              elim (compute_cache_key E.sha256 E.uuid_text org provider.name provider.model
                  request.payload)
                as (λ o. OpensAt org corr spent (elim o [
                  | none ↦ (err unencodable, w)
                  | some digest ↦ open_keyed E open_upstream org provider request digest w
                ])) [
                  | none ↦ unfold Opens in Stands-Closed org corr spent none w.ledger refl h
                  | some digest ↦ open_keyed-Opens org provider request digest spent w h
                ]
        ]
