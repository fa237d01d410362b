-- ===== src/Streaming.antt =====
-- application/streaming/streaming_coordinator.py: what happens before the first byte of a streamed
-- request (`open`), and the generator that relays the provider's events and finalizes the hold
-- (`_deliver`). A consumer pulls the generator so many times and then closes it.
mod Session
mod Deliver
pub mod Endings
pub mod Finalize
pub mod Opening
pub mod Settled
mod Tests
pub mod Demo
unfoldable pub use Session.*
unfoldable pub use Deliver.*
use enterprise_llm_gateway.Reservations
use enterprise_llm_gateway.Prelude.{
  Bool, List, Option, Text, [], codes, false, if◌then◌else◌, nat_eq, none, pair_eq, some, suc,
  text_eq, true, zero, ℕ, ◌++◌, ◌∷◌,
}
use enterprise_llm_gateway.Prelude.Result.{Result, err, ok}
use enterprise_llm_gateway.Breaker.{ProviderCallResult, observe}
use enterprise_llm_gateway.Cache.{CachedResponse, compute_cache_key, safe_get, safe_put}
use enterprise_llm_gateway.Execution.{budget_text, refusal}
use enterprise_llm_gateway.Ledger.{permitted}
use enterprise_llm_gateway.Ports.{
  Content, ExecutionOutcome, InferenceRequest, ProviderDescriptor, ProviderErrorCategory,
  ProviderResponse, ProviderUsage, absent, cache_hit, executed, not_accountable, not_routed, object,
}
use enterprise_llm_gateway.Routing.{RoutingExecution, outcome_text, routed}
use enterprise_llm_gateway.StreamPort.{
  ProviderStream, ProviderStreamEvent, StreamFailure, Upstream, aclose_stream, chunk, completed,
  ended, failed, faulted, got, new_stream, pull,
}
use enterprise_llm_gateway.World.{Env, World, cache_lookup, inference_attempt, record_metric, tick}

module _ (E : Env) where
  open E use {Client, clock, sha256, uuid_text}

  -- `client.stream(provider, request)`
  module _
      (open_upstream : ProviderDescriptor → InferenceRequest → Client → Upstream × Client) where
    unfoldable pub finish_open :
        ExecutionOutcome
        → StreamSession
        → World Client
        → Result OpenFailure StreamSession × World Client
    finish_open o session w = (ok session, record_metric (inference_attempt o) w)

    -- Failed before the first chunk.
    unfoldable pub fail_open :
        ℕ
        → ProviderDescriptor
        → Text
        → StreamFailure
        → ProviderStream
        → World Client
        → Result OpenFailure StreamSession × World Client
    unfolding observe_stream release_quietly
    fail_open org provider corr f s w = (
      ok (record {
        outcome = executed;
        events = none;
        error = some f.error;
        error_category = f.error_category;
      }),
      release_quietly E org corr (
          observe_stream E org provider false f.error_category
            (aclose_stream s (record_metric (inference_attempt executed) w))),
    )

    -- The session that delivers the stream.
    unfoldable pub committed :
        ℕ
        → ProviderDescriptor
        → InferenceRequest
        → Text
        → ProviderStreamEvent
        → ProviderStream
        → World Client
        → Result OpenFailure StreamSession × World Client
    unfolding finish_open
    committed org provider request digest e s w =
        finish_open executed
          (opened_session executed (
            deliver (record {
              organization_id = org;
              provider = provider;
              correlation_id = request.correlation_id;
              key = digest;
              stream = s;
              first = e;
            })))
          w

    -- The first event decides.
    unfoldable pub on_first :
        ℕ
        → ProviderDescriptor
        → InferenceRequest
        → Text
        → ProviderStreamEvent
        → ProviderStream
        → World Client
        → Result OpenFailure StreamSession × World Client
    unfolding fail_open committed
    on_first org provider request digest (failed f) s w =
        fail_open org provider request.correlation_id f s w
    on_first org provider request digest (chunk c) s w =
        committed org provider request digest (chunk c) s w
    on_first org provider request digest (completed usage) s w =
        committed org provider request digest (completed usage) s w

    -- The first pull of the executor's generator.
    unfoldable pub begin_stream :
        ℕ
        → ProviderDescriptor
        → InferenceRequest
        → Text
        → Upstream
        → World Client
        → Result OpenFailure StreamSession × World Client
    unfolding on_first fail_open
    begin_stream org provider request digest upstream w =
        let (p, s, w') = pull (new_stream provider upstream) w in
        elim p [
          | got e ↦ on_first org provider request digest e s w'
          | ended ↦ fail_open org provider request.correlation_id malformed_stream s w'
          | faulted ↦ (err provider_raised, w')
        ]

    -- Past a permitted reservation.
    unfoldable pub open_stream :
        ℕ
        → ProviderDescriptor
        → InferenceRequest
        → Text
        → World Client
        → Result OpenFailure StreamSession × World Client
    unfolding begin_stream
    open_stream org provider request digest w =
        let (upstream, c) = open_upstream provider request w.client in
        begin_stream org provider request digest upstream (record w { client = c })

    -- Past a miss of the cache.
    unfoldable pub open_reserved :
        ℕ
        → ProviderDescriptor
        → InferenceRequest
        → Text
        → World Client
        → Result OpenFailure StreamSession × World Client
    unfolding open_stream finish_open
    open_reserved org provider request digest w =
        let (answer, w') = Reservations.reserve E org provider request w in
        elim answer [
          | err e ↦
              finish_open not_accountable
                (refused_session not_accountable (codes "not_accountable")) w'
          | ok r ↦
              if permitted r.outcome
              then open_stream org provider request digest w'
              else finish_open (refusal r.outcome)
                  (refused_session (refusal r.outcome) (budget_text r.outcome)) w'
        ]

    unfoldable pub open_keyed :
        ℕ
        → ProviderDescriptor
        → InferenceRequest
        → Text
        → World Client
        → Result OpenFailure StreamSession × World Client
    unfolding open_reserved finish_open
    open_keyed org provider request digest w =
        let cached = framable (safe_get (clock w.readings) org digest w.cache) in
        let w' = record_metric (cache_lookup (is_hit cached)) (tick w) in
        elim cached [
          | some content ↦ finish_open cache_hit (opened_session cache_hit (replay content)) w'
          | none ↦ open_reserved org provider request digest w'
        ]

    -- `StreamingCoordinator.open`
    unfoldable pub open_session :
        RoutingExecution
        → InferenceRequest
        → World Client
        → Result OpenFailure StreamSession × World Client
    unfolding open_keyed finish_open
    open_session e request w =
        let org = e.decision.organization_id in
        elim (routed e) [
          | none ↦
              finish_open not_routed
                (refused_session not_routed
                  (codes "not_routed: " ++ outcome_text e.decision.outcome))
                w
          | some provider ↦
              elim (compute_cache_key sha256 uuid_text org provider.name provider.model
                request.payload) [
                  | none ↦ (err unencodable, w)
                  | some digest ↦ open_keyed org provider request digest w
                ]
        ]
