-- ===== src/Breaker.antt =====
-- adapters/health/in_memory_circuit_breaker.py: a three-state breaker for each organization and
-- provider. Times are whole microseconds; the clock's reading is the argument `now`. The metric
-- calls are kept as a list, newest first. `open` is a reserved word: the state is `opened`.
pub mod View
pub mod Invariant
pub mod Schedule
pub mod Cooldown
mod Tests
use enterprise_llm_gateway.Prelude.{
  Bool, List, Option, Text, [], false, if◌then◌else◌, leb, nat_eq, none, pair_eq, some, text_eq,
  true, ℕ, ◌&&◌, ◌+◌, ◌∷◌,
}
use enterprise_llm_gateway.Prelude.Dict.{Dict, get, put}
use enterprise_llm_gateway.Prelude.Int.{ltb_ℤ, pos, pos_part, ℤ}
use enterprise_llm_gateway.Ports.{ProviderErrorCategory, is_transient}

pub data CircuitState : Type 0 where
  closed opened half_open : CircuitState

pub data Transition : Type 0 where
  to_opened to_closed to_half_opened : Transition

pub record ProviderCallResult : Type 0 where
  pub ok : Bool
  pub error_category : Option ProviderErrorCategory

pub record ProviderCircuit : Type 0 where
  pub provider : Text
  pub state : CircuitState

pub record Circuit : Type 0 where
  pub state : CircuitState
  pub consecutive_failures : ℕ
  pub opened_at : Option ℕ

-- `_Circuit()`
abbrev pub fresh : Circuit
fresh = record { state = closed; consecutive_failures = 0; opened_at = none }

pub record CircuitBreakerConfig : Type 0 where
  pub failure_threshold : ℕ
  pub cooldown : ℕ

-- `__post_init__`: none is the ValueError.
unfoldable pub circuit_breaker_config : ℤ → ℤ → Option CircuitBreakerConfig
circuit_breaker_config threshold cooldown =
    if ltb_ℤ threshold (pos 1)
    then none
    else (if ltb_ℤ cooldown (pos 0)
        then none
        else some (record { failure_threshold = pos_part threshold; cooldown = pos_part cooldown }))

abbrev pub CircuitKey : Type 0
CircuitKey = ℕ × Text

pub record Breaker : Type 0 where
  pub config : CircuitBreakerConfig
  pub circuits : Dict CircuitKey Circuit
  pub transitions : List (Text × Transition)

-- `InMemoryCircuitBreaker(clock, config)`
unfoldable pub init : CircuitBreakerConfig → Breaker
init c = record { config = c; circuits = []; transitions = [] }

abbrev pub is_closed : CircuitState → Bool
is_closed closed = true
is_closed opened = false
is_closed half_open = false

abbrev pub is_opened : CircuitState → Bool
is_opened opened = true
is_opened closed = false
is_opened half_open = false

abbrev pub is_half_open : CircuitState → Bool
is_half_open half_open = true
is_half_open opened = false
is_half_open closed = false

-- `record_circuit_transition(provider=provider, transition=t)`
record_circuit_transition : Text → Transition → Breaker → Breaker
record_circuit_transition provider t b = record b { transitions = (provider, t) ∷ b.transitions }

-- The circuit object is written back under its key.
store : CircuitKey → Circuit → Breaker → Breaker
store key c b = record b { circuits = put key c b.circuits }

-- `_on_success` on a circuit that exists.
success_on : ℕ → Text → Circuit → Breaker → Breaker
unfolding store record_circuit_transition
success_on org provider c b =
    let was_recovering = is_half_open c.state in
    let cleared : Circuit = record {
      state = c.state;
      consecutive_failures = 0;
      opened_at = none;
    } in
    let b' = store (org, provider) (record cleared { state = closed }) b in
    if is_closed c.state
    then store (org, provider) cleared b
    else (if was_recovering then record_circuit_transition provider to_closed b' else b')

on_success : ℕ → Text → Breaker → Breaker
unfolding success_on
on_success org provider b = elim (get (org, provider) b.circuits) [
  | none ↦ b
  | some c ↦ success_on org provider c b
]

trip : ℕ → CircuitKey → Circuit → Breaker → Breaker
unfolding store record_circuit_transition
trip now (org, provider) c b =
    record_circuit_transition provider to_opened
      (store (org, provider) (record c { state = opened; opened_at = some now }) b)

-- `_on_transient_failure` on the circuit that `setdefault` gives.
failure_on : ℕ → ℕ → Text → Circuit → Breaker → Breaker
unfolding trip store
failure_on now org provider c b =
    let counted : Circuit = record c { consecutive_failures = c.consecutive_failures + 1 } in
    if is_half_open c.state
    then trip now (org, provider) c b
    else (if is_closed c.state && leb b.config.failure_threshold counted.consecutive_failures
        then trip now (org, provider) counted b
        else store (org, provider) counted b)

on_transient_failure : ℕ → ℕ → Text → Breaker → Breaker
unfolding failure_on
on_transient_failure now org provider b = elim (get (org, provider) b.circuits) [
  | none ↦ failure_on now org provider fresh b
  | some c ↦ failure_on now org provider c b
]

unfoldable pub observe : ℕ → ℕ → Text → ProviderCallResult → Breaker → Breaker
unfolding on_success on_transient_failure
observe now org provider result b =
    if result.ok
    then on_success org provider b
    else (if is_transient result.error_category then on_transient_failure now org provider b else b)

-- Whether the cooldown of an opened circuit has elapsed: `now - opened_at >= cooldown`.
abbrev pub cooled : ℕ → ℕ → Option ℕ → Bool
cooled now cooldown none = false
cooled now cooldown (some t) = leb (t + cooldown) now

-- One round of the loop of `assess`.
unfoldable pub assess_one : ℕ → ℕ → Text → Breaker → ProviderCircuit × Breaker
unfolding store record_circuit_transition
assess_one now org provider b = elim (get (org, provider) b.circuits) [
  | none ↦ (record { provider = provider; state = closed }, b)
  | some c ↦
      if is_opened c.state && cooled now b.config.cooldown c.opened_at
      then (
        record { provider = provider; state = half_open },
        record_circuit_transition provider to_half_opened
            (store (org, provider) (record c { state = half_open }) b),
      )
      else (record { provider = provider; state = c.state }, b)
]

unfoldable pub assess : ℕ → ℕ → List Text → Breaker → List ProviderCircuit × Breaker
unfolding assess_one
assess now org [] b = ([], b)
assess now org (p ∷ ps) b =
    let (a, b') = assess_one now org p b in
    let (rest, b'') = assess now org ps b' in (a ∷ rest, b'')
