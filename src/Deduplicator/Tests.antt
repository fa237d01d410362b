-- ===== src/Deduplicator/Tests.antt =====
-- Runs of the deduplicator: two callers of one key, an end, a late callback and a new call.
use enterprise_llm_gateway.Prelude.{
  List, [], codes, nat_eq, pair_beq, pair_eq, refl, some, text_beq, text_eq, ℕ, ◌∷◌, ◌≡◌,
}
use enterprise_llm_gateway.Prelude.Dict.{get, put, remove}
use enterprise_llm_gateway.Deduplicator.{
  Task, TaskKey, cancel, coalesce, complete, empty, forget, is_task, start,
}
use enterprise_llm_gateway.Deduplicator.Consistency.{single_flight}
use enterprise_llm_gateway.Deduplicator.Results.{coalesce-served}
use enterprise_llm_gateway.Deduplicator.Steps.{
  Runs, Step, call, callback, cancelled, done, step, steps,
}

abbrev first_key : TaskKey
first_key = (1, codes "a")

abbrev other_key : TaskKey
other_key = (2, codes "a")

-- Caller 10 starts a task, caller 11 another one.
abbrev two_calls : List (Step ℕ)
two_calls = call 10 first_key ∷ call 11 other_key ∷ []

-- Caller 12 joins, caller 10 is cancelled, the first task ends and is forgotten; caller 13 starts
-- a third one.
abbrev later_steps : List (Step ℕ)
later_steps = call 12 first_key ∷ cancelled 10 ∷ done 0 42 ∷ callback 0 ∷ call 13 first_key ∷ []

joined : get 12 (steps later_steps (steps two_calls empty)).awaiting ≡ some 0
unfolding steps step empty coalesce start complete forget cancel is_task get put remove text_eq
    pair_eq pair_beq text_beq
joined = refl

restarted : get 13 (steps later_steps (steps two_calls empty)).awaiting ≡ some 2
unfolding steps step empty coalesce start complete forget cancel is_task get put remove text_eq
    pair_eq pair_beq text_beq
restarted = refl

single_flight_example :
    let d = steps two_calls (empty {R = ℕ}) in
    ((u : ℕ) → Runs u first_key d → u ≡ 0)
    × (coalesce 12 first_key d ≡ record d { awaiting = put 12 0 d.awaiting })
unfolding steps step empty coalesce start get put text_eq pair_eq pair_beq text_beq
single_flight_example = single_flight two_calls 12 0 first_key refl

coalesce-served_example :
    let d = coalesce 12 first_key (steps two_calls empty) in
    (t : ℕ) × (get 12 d.awaiting ≡ some t)
    × ((task : Task ℕ) × (get t (steps later_steps d).tasks ≡ some task)
        × (task.key ≡ first_key)
        × ((r : ℕ)
            → task.result ≡ some r
            → get t (steps two_calls (steps later_steps d)).tasks ≡ some task))
coalesce-served_example = coalesce-served two_calls later_steps two_calls 12 first_key
