-- ===== src/StreamPort.antt =====
-- application/ports/streaming.py and application/providers/streaming_executor.py: what a streaming
-- provider client emits, and the generator that measures it. A client's stream is the finite list of
-- what it does when it is pulled; a consumer pulls finitely often, so no more can be seen of it.
use enterprise_llm_gateway.Prelude.{
  Bool, Option, Text, false, if◌then◌else◌, nat_eq, none, pair_eq, some, text_eq, true,
}
use enterprise_llm_gateway.Ports.{ProviderDescriptor, ProviderErrorCategory, ProviderUsage}
use enterprise_llm_gateway.World.{
  StreamLabel, World, answered, categorised, provider_stream, record_metric, unclassified,
}

pub record StreamFailure : Type 0 where
  pub error : Text
  pub error_category : Option ProviderErrorCategory

-- `StreamChunk`, `StreamCompleted`, `StreamFailed`
pub data ProviderStreamEvent : Type 0 where
  chunk : Text → ProviderStreamEvent
  completed : Option ProviderUsage → ProviderStreamEvent
  failed : StreamFailure → ProviderStreamEvent

-- A client's stream emits events until it stops; raising is against its contract, and is kept.
pub data Upstream : Type 0 where
  emit : ProviderStreamEvent → Upstream → Upstream
  stopped raises : Upstream

-- The generator of `StreamingProviderExecutor.stream`: its local `outcome`, and whether it has run
-- its `finally`.
pub record ProviderStream : Type 0 where
  pub provider : Text
  pub upstream : Upstream
  pub outcome : StreamLabel
  pub finished : Bool

-- What one `anext(stream, None)` gives.
pub data Pull : Type 0 where
  got : ProviderStreamEvent → Pull
  ended : Pull
  faulted : Pull

unfoldable pub category_label : Option ProviderErrorCategory → StreamLabel
category_label none = unclassified
category_label (some c) = categorised c

unfoldable pub label_after : ProviderStreamEvent → StreamLabel → StreamLabel
unfolding category_label
label_after (chunk c) label = label
label_after (completed usage) label = answered
label_after (failed f) label = category_label f.error_category

-- `StreamingProviderExecutor.stream`, before the first pull.
unfoldable pub new_stream : ProviderDescriptor → Upstream → ProviderStream
new_stream provider upstream = record {
  provider = provider.name;
  upstream = upstream;
  outcome = unclassified;
  finished = false;
}

module _ {C : Type 0} where
  -- The `finally` of the generator.
  unfoldable pub finish_stream : ProviderStream → World C → ProviderStream × World C
  finish_stream s w =
      (record s { finished = true }, record_metric (provider_stream s.provider s.outcome) w)

  unfoldable pub advance : ProviderStream → World C → Pull × ProviderStream × World C
  unfolding finish_stream label_after
  advance s w = elim s.upstream [
    | emit e rest ↦ (got e, record s { upstream = rest; outcome = label_after e s.outcome }, w)
    | stopped ↦ let (s', w') = finish_stream s w in (ended, s', w')
    | raises ↦ let (s', w') = finish_stream s w in (faulted, s', w')
  ]

  unfoldable pub pull : ProviderStream → World C → Pull × ProviderStream × World C
  unfolding advance
  pull s w = if s.finished then (ended, s, w) else advance s w

  -- `aclose_stream`
  unfoldable pub aclose_stream : ProviderStream → World C → World C
  unfolding finish_stream
  aclose_stream s w = if s.finished then w else (finish_stream s w).1
