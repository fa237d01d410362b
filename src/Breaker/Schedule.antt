-- ===== src/Breaker/Schedule.antt =====
-- A whole history of calls, in the order in which the event loop makes them.
use mathlib.Core.Path.{ap₂}
use enterprise_llm_gateway.Prelude.{
  Bool-cases, List, Text, [], arith, if◌then◌else◌, inl, inr, mem, nat_eq, pair_eq, refl, text_eq,
  ℕ, ◌==◌, ◌∙◌, ◌∷◌, ◌≡◌,
}
use enterprise_llm_gateway.Breaker.{
  Breaker, Circuit, CircuitBreakerConfig, CircuitKey, ProviderCallResult, assess, observe,
}
use enterprise_llm_gateway.Breaker.View.{
  assess_lem, assessed, config-assess, config-observe, observed, view, view-assess_other,
  view-observe_ne, view-observe_self,
}

-- `observation now org provider result` is a call of `observe`, `reading now org providers` of `assess`.
pub data Event : Type 0 where
  observation : ℕ → ℕ → Text → ProviderCallResult → Event
  reading : ℕ → ℕ → List Text → Event

unfoldable pub handle : Event → Breaker → Breaker
handle (observation now org p r) b = observe now org p r b
handle (reading now org ps) b = (assess now org ps b).1

unfoldable pub run : List Event → Breaker → Breaker
run [] b = b
run (e ∷ es) b = run es (handle e b)

-- What one event means for the circuit of one key; other keys' events mean nothing to it.
unfoldable pub own_step : CircuitBreakerConfig → CircuitKey → Event → Circuit → Circuit
own_step cfg k (observation now org p r) c = if (org, p) == k then observed cfg now r c else c
own_step cfg (o, q) (reading now org ps) c =
    if org == o then (if mem q ps then assessed cfg now c else c) else c

unfoldable pub own_run : CircuitBreakerConfig → CircuitKey → List Event → Circuit → Circuit
own_run cfg k [] c = c
own_run cfg k (e ∷ es) c = own_run cfg k es (own_step cfg k e c)

pub config-handle : (e : Event) (b : Breaker) → (handle e b).config ≡ b.config
unfolding handle
config-handle (observation now org p r) b = config-observe now org p r b
config-handle (reading now org ps) b = config-assess now org ps b

pub view-handle :
    (e : Event) (b : Breaker) (k : CircuitKey)
    → view (handle e b) k ≡ own_step b.config k e (view b k)
unfolding handle own_step
view-handle (observation now org p r) b k = elim (Bool-cases ((org, p) == k)) [
  | inl same ↦
      let e : (org, p) ≡ k = (pair_eq.equal_iff (org, p) k).0 same in
      rw same (rw (← e) (view-observe_self now org p r b))
  | inr differ ↦ rw differ (view-observe_ne now org p r b k differ)
]
view-handle (reading now org ps) b (o, q) = elim (Bool-cases (org == o)) [
  | inl same ↦
      let e : org ≡ o = (nat_eq.equal_iff org o).0 same in
      rw same (rw (← e) ((assess_lem now org ps b).1 q))
  | inr differ ↦ rw differ (view-assess_other now org ps b (o, q) (ground arith))
]

-- Each circuit of the breaker is a machine of its own: after any history of calls, for whatever
-- tenants and providers, the circuit of a key is what the key's own events make of it.
pub view-run :
    (es : List Event) (b : Breaker) (k : CircuitKey)
    → view (run es b) k ≡ own_run b.config k es (view b k)
unfolding run own_run
view-run [] b k = refl
view-run (e ∷ es) b k =
    view-run es (handle e b) k
    ∙ ap₂ (λ (g : CircuitBreakerConfig) (c : Circuit). own_run g k es c) (config-handle e b)
        (view-handle e b k)

pub config-run : (es : List Event) (b : Breaker) → (run es b).config ≡ b.config
unfolding run
config-run [] b = refl
config-run (e ∷ es) b = config-run es (handle e b) ∙ config-handle e b
