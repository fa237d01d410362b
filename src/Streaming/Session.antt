-- ===== src/Streaming/Session.antt =====
-- A session, what it delivers, and the generator's arguments.
use enterprise_llm_gateway.Prelude.{
  Bool, List, Option, Text, [], codes, false, nat_eq, none, pair_eq, some, text_eq, true, ℕ, ◌∷◌,
}
use enterprise_llm_gateway.Cache.{CachedResponse}
use enterprise_llm_gateway.Ports.{
  Content, ExecutionOutcome, ProviderDescriptor, ProviderErrorCategory, ProviderResponse,
  ProviderUsage, absent, object,
}
use enterprise_llm_gateway.StreamPort.{ProviderStream, ProviderStreamEvent, StreamFailure}

-- `InferenceStreamEvent`: a chunk, or the terminal failure.
pub data InferenceStreamEvent : Type 0 where
  delivered : Text → InferenceStreamEvent
  broken : StreamFailure → InferenceStreamEvent

-- The arguments of `_deliver`.
pub record Delivery : Type 0 where
  pub organization_id : ℕ
  pub provider : ProviderDescriptor
  pub correlation_id : Text
  pub key : Text
  pub stream : ProviderStream
  pub first : ProviderStreamEvent

-- The iterator of a session: `_replay(content)` or `_deliver(…)`, not started.
pub data Events : Type 0 where
  replay : Text → Events
  deliver : Delivery → Events

pub record StreamSession : Type 0 where
  pub outcome : ExecutionOutcome
  pub events : Option Events
  pub error : Option Text
  pub error_category : Option ProviderErrorCategory

-- What can escape from `open`: a payload that json cannot encode, or the client's exception.
pub data OpenFailure : Type 0 where
  unencodable provider_raised : OpenFailure

-- What a consumer saw before it closed the generator, and whether an exception came through.
pub record Relayed : Type 0 where
  pub events : List InferenceStreamEvent
  pub raised : Bool

abbrev pub plain_failure : Text → StreamFailure
plain_failure e = record { error = e; error_category = none }

-- `_MALFORMED_STREAM`, `_NO_USAGE`, `_UNACCOUNTABLE`
abbrev pub malformed_stream : StreamFailure
malformed_stream = plain_failure (codes "provider ended the stream without a terminal event")

abbrev pub no_usage : StreamFailure
no_usage = plain_failure (codes "provider ended the stream without reporting usage")

abbrev pub unaccountable : StreamFailure
unaccountable = plain_failure (codes "the completed stream could not be accounted for")

abbrev pub refused_session : ExecutionOutcome → Text → StreamSession
refused_session o error = record {
  outcome = o;
  events = none;
  error = some error;
  error_category = none;
}

abbrev pub opened_session : ExecutionOutcome → Events → StreamSession
opened_session o events = record {
  outcome = o;
  events = some events;
  error = none;
  error_category = none;
}

-- The response that a completed stream settles.
abbrev pub assembled : ProviderDescriptor → Text → ProviderUsage → ProviderResponse
assembled provider content usage = record {
  ok = true;
  content = Content.text content;
  error = none;
  provider = provider.name;
  usage = some usage;
  error_category = none;
}

-- `_replayable`, past the look-up.
abbrev pub framable : Option CachedResponse → Option Text
framable none = none
framable (some c) = elim c.content [ Content.text t ↦ some t | object n ↦ none | absent ↦ none ]

abbrev pub is_hit : Option Text → Bool
is_hit none = false
is_hit (some t) = true

abbrev pub terminal_events : Option StreamFailure → List InferenceStreamEvent
terminal_events none = []
terminal_events (some f) = broken f ∷ []

abbrev pub after_chunk : Text → Relayed → Relayed
after_chunk c r = record r { events = delivered c ∷ r.events }
