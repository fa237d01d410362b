-- ===== src/Breaker/Invariant.antt =====
-- What holds of every circuit that calls of `observe` and `assess` can produce.
use mathlib.Core.Path.{ap₂}
use enterprise_llm_gateway.Prelude.{
  List, Text, [], arith, beq_refl, false, if◌then◌else◌, leb, length, nat_eq, none, pair_eq, refl,
  some, suc, text_eq, true, ℕ, ◌++◌, ◌+◌, ◌<◌, ◌∙◌, ◌∷◌, ◌≡◌, ◌≢◌, ◌≤◌,
}
use enterprise_llm_gateway.Prelude.Dict.{get}
use enterprise_llm_gateway.Breaker.{
  Circuit, CircuitBreakerConfig, CircuitKey, CircuitState, ProviderCallResult, closed, fresh,
  half_open, init, opened,
}
use enterprise_llm_gateway.Breaker.Schedule.{
  Event, observation, own_run, own_step, reading, run, view-run,
}
use enterprise_llm_gateway.Breaker.View.{assessed, observed, view}
use enterprise_llm_gateway.Ports.{ProviderErrorCategory, is_transient}

-- A closed circuit is below the threshold; any other reached it, and knows when it was tripped.
abbrev pub StateIsValid : CircuitBreakerConfig → CircuitState → Circuit → Type 0
StateIsValid cfg closed c = (c.consecutive_failures < cfg.failure_threshold) × (c.opened_at ≡ none)
StateIsValid cfg opened c = (cfg.failure_threshold ≤ c.consecutive_failures) × (c.opened_at ≢ none)
StateIsValid cfg half_open c =
    (cfg.failure_threshold ≤ c.consecutive_failures) × (c.opened_at ≢ none)

abbrev pub CircuitIsValid : CircuitBreakerConfig → Circuit → Type 0
CircuitIsValid cfg c = StateIsValid cfg c.state c

observed-CircuitIsValid :
    (cfg : CircuitBreakerConfig) (now : ℕ) (r : ProviderCallResult) (c : Circuit)
    → 1 ≤ cfg.failure_threshold
    → CircuitIsValid cfg c
    → CircuitIsValid cfg (observed cfg now r c)
unfolding observed
observed-CircuitIsValid cfg now r c h v = ground arith

assessed-CircuitIsValid :
    (cfg : CircuitBreakerConfig) (now : ℕ) (c : Circuit)
    → CircuitIsValid cfg c
    → CircuitIsValid cfg (assessed cfg now c)
unfolding assessed
assessed-CircuitIsValid cfg now c v = ground arith

own_step-CircuitIsValid :
    (cfg : CircuitBreakerConfig) (k : CircuitKey) (e : Event) (c : Circuit)
    → 1 ≤ cfg.failure_threshold
    → CircuitIsValid cfg c
    → CircuitIsValid cfg (own_step cfg k e c)
unfolding own_step
own_step-CircuitIsValid cfg k (observation now org p r) c h v =
    ground (arith, observed-CircuitIsValid cfg now r c h v)
own_step-CircuitIsValid cfg (o, q) (reading now org ps) c h v =
    ground (arith, assessed-CircuitIsValid cfg now c v)

own_run-CircuitIsValid :
    (cfg : CircuitBreakerConfig) (k : CircuitKey) (es : List Event) (c : Circuit)
    → 1 ≤ cfg.failure_threshold
    → CircuitIsValid cfg c
    → CircuitIsValid cfg (own_run cfg k es c)
unfolding own_run
own_run-CircuitIsValid cfg k [] c h v = v
own_run-CircuitIsValid cfg k (e ∷ es) c h v =
    own_run-CircuitIsValid cfg k es (own_step cfg k e c) h (own_step-CircuitIsValid cfg k e c h v)

view-init : (cfg : CircuitBreakerConfig) (k : CircuitKey) → view (init cfg) k ≡ fresh
unfolding view init get
view-init cfg k = refl

config-init : (cfg : CircuitBreakerConfig) → (init cfg).config ≡ cfg
unfolding init
config-init cfg = refl

-- What a new breaker's circuit is after a history.
pub view-run-init :
    (cfg : CircuitBreakerConfig) (es : List Event) (k : CircuitKey)
    → view (run es (init cfg)) k ≡ own_run cfg k es fresh
view-run-init cfg es k =
    view-run es (init cfg) k
    ∙ ap₂ (λ (g : CircuitBreakerConfig) (c : Circuit). own_run g k es c) (config-init cfg)
        (view-init cfg k)

-- After any history of a new breaker whose threshold is at least 1, every circuit is either closed
-- with fewer failures than the threshold and no trip time, or has reached the threshold and has a
-- trip time.
pub run-CircuitIsValid :
    (cfg : CircuitBreakerConfig) (es : List Event) (k : CircuitKey)
    → 1 ≤ cfg.failure_threshold
    → CircuitIsValid cfg (view (run es (init cfg)) k)
run-CircuitIsValid cfg es k h =
    rw (view-run-init cfg es k) (own_run-CircuitIsValid cfg k es fresh h (omega arith, refl))

-- The times of consecutive transient faults of one provider, for one tenant.
pub faults : ℕ → Text → ProviderErrorCategory → List ℕ → List Event
faults org p e [] = []
faults org p e (now ∷ ts) =
    observation now org p (record { ok = false; error_category = some e }) ∷ faults org p e ts

-- What the circuit is after `n` faults in a row, the last of them at the times `ts`.
abbrev expected : CircuitBreakerConfig → ℕ → CircuitState
expected cfg n = if leb cfg.failure_threshold n then opened else closed

own_step-fault :
    (cfg : CircuitBreakerConfig) (now org : ℕ) (p : Text) (e : ProviderErrorCategory) (c : Circuit)
    (n : ℕ)
    → is_transient (some e) ≡ true
    → c.state ≡ expected cfg n
    → c.consecutive_failures ≡ n
    → let r : ProviderCallResult = record { ok = false; error_category = some e } in
      let c' = own_step cfg (org, p) (observation now org p r) c in
      (c'.state ≡ expected cfg (n + 1)) × (c'.consecutive_failures ≡ n + 1)
unfolding own_step observed
own_step-fault cfg now org p e c n t hs hn =
    rw (beq_refl {A = CircuitKey} (org, p)) (rw t (ground arith))

own_run-faults :
    (cfg : CircuitBreakerConfig) (org : ℕ) (p : Text) (e : ProviderErrorCategory) (ts : List ℕ)
    (c : Circuit) (n : ℕ)
    → is_transient (some e) ≡ true
    → c.state ≡ expected cfg n
    → c.consecutive_failures ≡ n
    → let c' = own_run cfg (org, p) (faults org p e ts) c in
      (c'.state ≡ expected cfg (n + length ts)) × (c'.consecutive_failures ≡ n + length ts)
unfolding own_run faults
own_run-faults cfg org p e [] c n t hs hn = ground arith
own_run-faults cfg org p e (now ∷ ts) c n t hs hn =
    let r : ProviderCallResult = record { ok = false; error_category = some e } in
    let c' = own_step cfg (org, p) (observation now org p r) c in
    let (state, count) = own_step-fault cfg now org p e c n t hs hn in
    let (state', count') = own_run-faults cfg org p e ts c' (n + 1) t state count in
    let sum : n + 1 + length ts ≡ n + suc (length ts) = omega arith in
    (rw (← sum) state', rw (← sum) count')

own_run-append :
    (cfg : CircuitBreakerConfig) (k : CircuitKey) (es fs : List Event) (c : Circuit)
    → own_run cfg k (es ++ fs) c ≡ own_run cfg k fs (own_run cfg k es c)
unfolding own_run
own_run-append cfg k [] fs c = refl
own_run-append cfg k (e ∷ es) fs c = own_run-append cfg k es fs (own_step cfg k e c)

own_run-served :
    (cfg : CircuitBreakerConfig) (t org : ℕ) (p : Text) (fs : List Event) (c : Circuit)
    → let served = observation t org p (record { ok = true; error_category = none }) in
      own_run cfg (org, p) (served ∷ fs) c ≡ own_run cfg (org, p) fs fresh
unfolding own_run own_step observed
own_run-served cfg t org p fs c = rw (beq_refl {A = CircuitKey} (org, p)) refl

-- After any history that ends with a success of the provider, a row of transient faults, whatever
-- their times, opens the circuit exactly when there are as many of them as the threshold.
faults_trip :
    (cfg : CircuitBreakerConfig) (es : List Event) (t0 org : ℕ) (p : Text)
    (e : ProviderErrorCategory) (ts : List ℕ)
    → 1 ≤ cfg.failure_threshold
    → is_transient (some e) ≡ true
    → let served = observation t0 org p (record { ok = true; error_category = none }) in
      (view (run (es ++ served ∷ faults org p e ts) (init cfg)) (org, p)).state
      ≡ (if leb cfg.failure_threshold (length ts) then opened else closed)
faults_trip cfg es t0 org p e ts h t =
    let fs = faults org p e ts in
    let served = observation t0 org p (record { ok = true; error_category = none }) in
    rw (view-run-init cfg (es ++ served ∷ fs) (org, p)) (
      rw (own_run-append cfg (org, p) es (served ∷ fs) fresh) (
        rw (own_run-served cfg t0 org p fs (own_run cfg (org, p) es fresh)) (
          let zero_left : 0 + length ts ≡ length ts = omega arith in
          rw zero_left at (own_run-faults cfg org p e ts fresh 0 t (ground arith) refl).0)))
