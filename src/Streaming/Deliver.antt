-- ===== src/Streaming/Deliver.antt =====
-- The generator that relays the provider's events and finalizes the hold, and its consumer.
use enterprise_llm_gateway.Reservations
use enterprise_llm_gateway.Prelude.{
  Bool, Option, Text, [], false, nat_eq, none, pair_eq, some, suc, text_eq, true, zero, ℕ, ◌++◌,
  ◌∷◌,
}
use enterprise_llm_gateway.Prelude.Result.{err, ok}
use enterprise_llm_gateway.Breaker.{ProviderCallResult, observe}
use enterprise_llm_gateway.Cache.{CachedResponse, safe_put}
use enterprise_llm_gateway.Ports.{Content, ProviderDescriptor, ProviderErrorCategory, ProviderUsage}
use enterprise_llm_gateway.StreamPort.{
  ProviderStream, ProviderStreamEvent, StreamFailure, aclose_stream, chunk, completed, ended,
  failed, faulted, got, pull,
}
use enterprise_llm_gateway.Streaming.Session.{
  Delivery, Events, Relayed, after_chunk, assembled, broken, deliver, delivered, malformed_stream,
  no_usage, replay, terminal_events, unaccountable,
}
use enterprise_llm_gateway.World.{Env, World, tick}

module _ (E : Env) where
  open E use {Client, clock}

  -- `_observe`
  unfoldable pub observe_stream :
      ℕ → ProviderDescriptor → Bool → Option ProviderErrorCategory → World Client → World Client
  observe_stream org provider good category w =
      let result : ProviderCallResult = record { ok = good; error_category = category } in
      record (tick w) { breaker = observe (clock w.readings) org provider.name result w.breaker }

  -- `_release`: no exception of the ledger gets out.
  unfoldable pub release_quietly : ℕ → Text → World Client → World Client
  release_quietly org corr w = (Reservations.release E org corr w).1

  unfoldable pub store_stream : ℕ → ProviderDescriptor → Text → Text → World Client → World Client
  store_stream org provider digest content w =
      let entry : CachedResponse = record {
        provider = provider.name;
        model = provider.model;
        content = Content.text content;
      } in
      record (tick w) { cache = safe_put (clock w.readings) org digest entry w.cache }

  -- `_complete` with a usage, past the observation.
  unfoldable pub settle_stream :
      Delivery → Text → ProviderUsage → World Client → Option StreamFailure × World Client
  unfolding release_quietly store_stream
  settle_stream d content usage w =
      let (answer, w') =
        Reservations.settle E d.organization_id d.correlation_id
          (assembled d.provider content usage) d.provider w in
      elim answer [
        | ok r ↦ (none, store_stream d.organization_id d.provider d.key content w')
        | err e ↦ (some unaccountable, release_quietly d.organization_id d.correlation_id w')
      ]

  -- `_complete`
  unfoldable pub complete :
      Delivery → Text → Option ProviderUsage → World Client → Option StreamFailure × World Client
  unfolding settle_stream observe_stream release_quietly
  complete d content usage w =
      let w1 = observe_stream d.organization_id d.provider true none w in
      elim usage [
        | none ↦ (some no_usage, release_quietly d.organization_id d.correlation_id w1)
        | some u ↦ settle_stream d content u w1
      ]

  -- A failure that the loop finalizes: the breaker is told and the hold given back.
  unfoldable pub fail_stream : Delivery → Option ProviderErrorCategory → World Client → World Client
  unfolding observe_stream release_quietly
  fail_stream d category w =
      release_quietly d.organization_id d.correlation_id
        (observe_stream d.organization_id d.provider false category w)

  -- The `finally` where nothing has finalized the hold.
  unfoldable pub abandon : Delivery → ProviderStream → World Client → World Client
  unfolding release_quietly
  abandon d s w = aclose_stream s (release_quietly d.organization_id d.correlation_id w)

  -- The loop of `_deliver` while the consumer waits for it: so many more pulls will follow this one.
  unfoldable pub relay :
      Delivery
      → ℕ
      → Text
      → ProviderStreamEvent
      → ProviderStream
      → World Client
      → Relayed × World Client
  unfolding complete fail_stream abandon
  relay d n buffered (failed f) s w = (
    record { events = broken f ∷ []; raised = false },
    aclose_stream s (fail_stream d f.error_category w),
  )
  relay d n buffered (completed usage) s w =
      let (terminal, w') = complete d buffered usage w in
      (record { events = terminal_events terminal; raised = false }, aclose_stream s w')
  relay d zero buffered (chunk c) s w =
      (record { events = delivered c ∷ []; raised = false }, abandon d s w)
  relay d (suc n) buffered (chunk c) s w =
      let (p, s', w') = pull s w in
      elim p [
        | got e ↦ let (r, w'') = relay d n (buffered ++ c) e s' w' in (after_chunk c r, w'')
        | ended ↦ (
          record { events = delivered c ∷ broken malformed_stream ∷ []; raised = false },
          aclose_stream s' (fail_stream d none w'),
        )
        | faulted ↦ (record { events = delivered c ∷ []; raised = true }, abandon d s' w')
      ]

  -- So many pulls of the generator, and then `aclose`. A generator that was never pulled has not
  -- started, and closing it runs nothing.
  unfoldable pub consume_delivery : ℕ → Delivery → World Client → Relayed × World Client
  unfolding relay
  consume_delivery zero d w = (record { events = []; raised = false }, w)
  consume_delivery (suc n) d w = relay d n [] d.first d.stream w

  unfoldable pub consume : ℕ → Events → World Client → Relayed × World Client
  unfolding consume_delivery
  consume zero (replay content) w = (record { events = []; raised = false }, w)
  consume (suc n) (replay content) w =
      (record { events = delivered content ∷ []; raised = false }, w)
  consume n (deliver d) w = consume_delivery n d w
