-- ===== src/Breaker/Tests.antt =====
-- Histories of the breaker, and its theorems at one of them.
use enterprise_llm_gateway.Prelude.{
  List, Text, [], arith, codes, false, if◌then◌else◌, leb, map, nat_eq, pair_beq, pair_eq, refl,
  some, text_beq, text_eq, ℕ, ◌+◌, ◌∷◌, ◌≡◌,
}
use enterprise_llm_gateway.Prelude.Dict.{get, put}
use enterprise_llm_gateway.Breaker.{
  Breaker, CircuitBreakerConfig, ProviderCallResult, assess, assess_one, half_open, init, observe,
  opened,
}
use enterprise_llm_gateway.Breaker.Cooldown.{assess-opened, half_open_stays, reading_events}
use enterprise_llm_gateway.Breaker.Invariant.{CircuitIsValid, run-CircuitIsValid}
use enterprise_llm_gateway.Breaker.Schedule.{Event, handle, observation, own_run, run, view-run}
use enterprise_llm_gateway.Breaker.View.{report, view}
use enterprise_llm_gateway.Ports.{timeout}

abbrev config : CircuitBreakerConfig
config = record { failure_threshold = 2; cooldown = 30 }

abbrev openai : Text
openai = codes "openai"

abbrev fault : ProviderCallResult
fault = record { ok = false; error_category = some timeout }

abbrev history : List Event
history =
    observation 10 1 openai fault
    ∷ observation 11 2 openai fault
    ∷ observation 12 1 openai fault
    ∷ []

-- A breaker with one half-open circuit.
abbrev recovering : Breaker
recovering = record {
  config = config;
  circuits =
      ((1, openai), record { state = half_open; consecutive_failures = 2; opened_at = some 12 })
      ∷ [];
  transitions = [];
}

reads_half_open :
    (assess 42 1 (openai ∷ []) (run history (init config))).0
    ≡ record { provider = openai; state = half_open } ∷ []
unfolding assess assess_one view run handle observe init get put pair_eq pair_beq text_eq text_beq
reads_half_open = refl

view-run_example :
    view (run history recovering) (1, openai)
    ≡ own_run config (1, openai) history (view recovering (1, openai))
view-run_example = view-run history recovering (1, openai)

run-CircuitIsValid_example : CircuitIsValid config (view (run history (init config)) (1, openai))
run-CircuitIsValid_example = run-CircuitIsValid config history (1, openai) (omega arith)

assess-opened_example :
    (t : ℕ) × ((view (run history (init config)) (1, openai)).opened_at ≡ some t)
    × ((now : ℕ)
        → (assess now 1 (openai ∷ []) (run history (init config))).0
          ≡ record { provider = openai; state = if leb (t + 30) now then half_open else opened }
            ∷ map (report config now 1 (run history (init config))) [])
unfolding view run handle observe init get put pair_eq pair_beq text_eq text_beq
assess-opened_example = assess-opened config history 1 openai [] (omega arith) refl

half_open_stays_example :
    let b' = run (reading_events ((50, 1, openai ∷ []) ∷ (51, 1, openai ∷ []) ∷ [])) recovering in
    (assess 52 1 (openai ∷ []) b').0
    ≡ record { provider = openai; state = half_open } ∷ map (report recovering.config 52 1 b') []
unfolding view get pair_eq pair_beq text_eq text_beq
half_open_stays_example =
    half_open_stays ((50, 1, openai ∷ []) ∷ (51, 1, openai ∷ []) ∷ []) recovering 52 1 openai []
      refl
