-- ===== src/Breaker/Cooldown.antt =====
-- How an opened circuit becomes usable again.
use mathlib.Core.Path.{subst}
use enterprise_llm_gateway.Prelude.{
  List, Option-cases, Text, [], ap, arith, if◌then◌else◌, inl, inr, leb, map, nat_eq, none, pair_eq,
  some, text_eq, ℕ, ◌+◌, ◌∙◌, ◌∷◌, ◌≡◌, ◌≢◌, ◌≤◌,
}
use enterprise_llm_gateway.Breaker.{
  Breaker, Circuit, CircuitBreakerConfig, CircuitKey, CircuitState, assess, half_open, init, opened,
}
use enterprise_llm_gateway.Breaker.Invariant.{CircuitIsValid, run-CircuitIsValid}
use enterprise_llm_gateway.Breaker.Schedule.{
  Event, config-run, own_run, own_step, reading, run, view-run,
}
use enterprise_llm_gateway.Breaker.View.{assess_lem, assessed, report, view}

opened_time :
    (cfg : CircuitBreakerConfig) (c : Circuit)
    → c.state ≡ opened
    → CircuitIsValid cfg c
    → c.opened_at ≢ none
opened_time cfg c o v = ground arith

state-assessed_opened :
    (cfg : CircuitBreakerConfig) (now t : ℕ) (c : Circuit)
    → c.state ≡ opened
    → c.opened_at ≡ some t
    → (assessed cfg now c).state ≡ (if leb (t + cfg.cooldown) now then half_open else opened)
unfolding assessed
state-assessed_opened cfg now t c o e = ground arith

state-assessed_half_open :
    (cfg : CircuitBreakerConfig) (now : ℕ) (c : Circuit)
    → c.state ≡ half_open
    → (assessed cfg now c).state ≡ half_open
unfolding assessed
state-assessed_half_open cfg now c h = ground arith

config-run-init : (cfg : CircuitBreakerConfig) (es : List Event) → (run es (init cfg)).config ≡ cfg
unfolding init
config-run-init cfg es = config-run es (init cfg)

-- Readings alone, with their times, tenants and providers.
pub reading_events : List (ℕ × ℕ × List Text) → List Event
reading_events [] = []
reading_events ((now, org, ps) ∷ rs) = reading now org ps ∷ reading_events rs

own_step-reading :
    (cfg : CircuitBreakerConfig) (k : CircuitKey) (now org : ℕ) (ps : List Text) (c : Circuit)
    → c.state ≡ half_open
    → (own_step cfg k (reading now org ps) c).state ≡ half_open
unfolding own_step assessed
own_step-reading cfg (o, q) now org ps c h = ground arith

own_run-reading_events :
    (cfg : CircuitBreakerConfig) (k : CircuitKey) (rs : List (ℕ × ℕ × List Text)) (c : Circuit)
    → c.state ≡ half_open
    → (own_run cfg k (reading_events rs) c).state ≡ half_open
unfolding own_run reading_events
own_run-reading_events cfg k [] c h = h
own_run-reading_events cfg k ((now, org, ps) ∷ rs) c h =
    own_run-reading_events cfg k rs (own_step cfg k (reading now org ps) c)
      (own_step-reading cfg k now org ps c h)

-- After any history of a new breaker, a circuit that is open was tripped at some time, and a
-- reading of its provider reports it open before the cooldown from that time has passed and
-- half-open from then on, whatever other providers are read with it.
pub assess-opened :
    (cfg : CircuitBreakerConfig) (es : List Event) (org : ℕ) (p : Text) (ps : List Text)
    → 1 ≤ cfg.failure_threshold
    → (view (run es (init cfg)) (org, p)).state ≡ opened
    → (t : ℕ) × ((view (run es (init cfg)) (org, p)).opened_at ≡ some t)
      × ((now : ℕ)
          → (assess now org (p ∷ ps) (run es (init cfg))).0
            ≡ record {
              provider = p;
              state = if leb (t + cfg.cooldown) now then half_open else opened;
            }
              ∷ map (report cfg now org (run es (init cfg))) ps)
assess-opened cfg es org p ps h o =
    let b = run es (init cfg) in
    let c = view b (org, p) in
    let valid = run-CircuitIsValid cfg es (org, p) h in
    let rest = λ (now : ℕ). map (report cfg now org b) ps in
    elim (Option-cases c.opened_at) [
      | inl never ↦ absurd (opened_time cfg c o valid never)
      | inr (t, e) ↦ (
        t,
        e,
        λ now.
            subst
              (λ (g : CircuitBreakerConfig).
                (assess now org (p ∷ ps) b).0 ≡ map (report g now org b) (p ∷ ps))
              (config-run-init cfg es) (assess_lem now org (p ∷ ps) b).0
            ∙ ap (λ (s : CircuitState). record { provider = p; state = s } ∷ rest now)
                (state-assessed_opened cfg now t c o e),
      )
    ]

-- A circuit that is half-open is reported half-open by every further reading, whatever the time and
-- however many readings came before, as long as no outcome is observed: nothing in the breaker holds
-- back a second probe.
pub half_open_stays :
    (rs : List (ℕ × ℕ × List Text)) (b : Breaker) (now org : ℕ) (p : Text) (ps : List Text)
    → (view b (org, p)).state ≡ half_open
    → let b' = run (reading_events rs) b in
      (assess now org (p ∷ ps) b').0
      ≡ record { provider = p; state = half_open } ∷ map (report b.config now org b') ps
half_open_stays rs b now org p ps h =
    let b' = run (reading_events rs) b in
    let still : (view b' (org, p)).state ≡ half_open =
      rw (view-run (reading_events rs) b (org, p))
        (own_run-reading_events b.config (org, p) rs (view b (org, p)) h) in
    subst
      (λ (g : CircuitBreakerConfig).
        (assess now org (p ∷ ps) b').0 ≡ map (report g now org b') (p ∷ ps))
      (config-run (reading_events rs) b) (assess_lem now org (p ∷ ps) b').0
    ∙ ap
        (λ (s : CircuitState).
          record { provider = p; state = s } ∷ map (report b.config now org b') ps)
        (state-assessed_half_open b.config now (view b' (org, p)) still)
