-- ===== src/Streaming/Endings.antt =====
-- How a delivered stream ends, told from the provider's events and the number of pulls alone, and
-- what each ending is meant to bill, to tell the breaker, to cache and to show.
use enterprise_llm_gateway.Prelude.{
  Bool, List, Option, Text, [], false, nat_eq, none, pair_eq, some, suc, text_eq, true, zero, ℕ,
  ◌++◌, ◌∷◌,
}
use enterprise_llm_gateway.Prelude.Result.{Result, err, ok}
use enterprise_llm_gateway.Accounting.{AccountingDefect, CostRecord, PriceFor, account}
use enterprise_llm_gateway.Breaker.{Breaker, ProviderCallResult, observe}
use enterprise_llm_gateway.Cache.{ResponseCache, safe_put}
use enterprise_llm_gateway.Ports.{Content, ProviderUsage}
use enterprise_llm_gateway.StreamPort.{
  StreamFailure, Upstream, chunk, completed, emit, failed, raises, stopped,
}
use enterprise_llm_gateway.Streaming.{
  Delivery, InferenceStreamEvent, assembled, broken, delivered, malformed_stream, no_usage,
  unaccountable,
}

-- The provider completed with a text, failed, stopped with no terminal event or raised; or the
-- consumer left first.
pub data Ending : Type 0 where
  completes : Option ProviderUsage → Text → Ending
  fails : StreamFailure → Ending
  stops breaks leaves : Ending

-- After the text so far, with so many pulls to come.
unfoldable pub ending : ℕ → Text → Upstream → Ending
ending zero content u = leaves
ending (suc n) content (emit (chunk c) u) = ending n (content ++ c) u
ending (suc n) content (emit (completed usage) u) = completes usage content
ending (suc n) content (emit (failed f) u) = fails f
ending (suc n) content stopped = stops
ending (suc n) content raises = breaks

-- The chunks that the consumer pulled.
unfoldable pub chunks : ℕ → Upstream → List InferenceStreamEvent
chunks zero u = []
chunks (suc n) (emit (chunk c) u) = delivered c ∷ chunks n u
chunks (suc n) (emit (completed usage) u) = []
chunks (suc n) (emit (failed f) u) = []
chunks (suc n) stopped = []
chunks (suc n) raises = []

abbrev pub accounted : Result AccountingDefect CostRecord → Option CostRecord
accounted (ok c) = some c
accounted (err e) = none

abbrev pub is_break : Ending → Bool
is_break breaks = true
is_break (completes usage content) = false
is_break (fails f) = false
is_break stops = false
is_break leaves = false

-- The outcome that the breaker observes.
unfoldable pub verdict : Ending → Option ProviderCallResult
verdict (completes usage content) = some (record { ok = true; error_category = none })
verdict (fails f) = some (record { ok = false; error_category = f.error_category })
verdict stops = some (record { ok = false; error_category = none })
verdict breaks = none
verdict leaves = none

module _ (d : Delivery) where
  abbrev pub observed : ℕ → Option ProviderCallResult → Breaker → Breaker
  observed now none b = b
  observed now (some result) b = observe now d.organization_id d.provider.name result b

  abbrev pub cached : ℕ → Option Text → ResponseCache → ResponseCache
  cached now none c = c
  cached now (some content) c =
      safe_put now d.organization_id d.key
        (record {
          provider = d.provider.name;
          model = d.provider.model;
          content = Content.text content;
        })
        c

module _ (price_for : PriceFor) (d : Delivery) where
  -- Only a completed stream with a usage that can be priced is billed.
  unfoldable pub bill : Ending → Option CostRecord
  bill (completes (some usage) content) = accounted (
      account price_for (assembled d.provider content usage) d.provider d.organization_id
        d.correlation_id)
  bill (completes none content) = none
  bill (fails f) = none
  bill stops = none
  bill breaks = none
  bill leaves = none

  -- The text that is cached.
  unfoldable pub kept : Ending → Option Text
  unfolding bill
  kept (completes usage content) = elim (bill (completes usage content)) [
    | none ↦ none
    | some c ↦ some content
  ]
  kept (fails f) = none
  kept stops = none
  kept breaks = none
  kept leaves = none

  -- What follows the chunks.
  unfoldable pub farewell : Ending → List InferenceStreamEvent
  unfolding bill
  farewell (completes none content) = broken no_usage ∷ []
  farewell (completes (some usage) content) = elim (bill (completes (some usage) content)) [
    | none ↦ broken unaccountable ∷ []
    | some c ↦ []
  ]
  farewell (fails f) = broken f ∷ []
  farewell stops = broken malformed_stream ∷ []
  farewell breaks = []
  farewell leaves = []
