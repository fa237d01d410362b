-- ===== src/Deduplicator/Steps.antt =====
-- Any interleaving of calls, ends of tasks, callbacks and cancellations.
use enterprise_llm_gateway.Prelude.{
  List, Option-cases, [], arith, if◌then◌else◌, inl, inr, nat_eq, none, pair_eq, some, text_eq, ℕ,
  ◌∷◌, ◌≡◌, ◌⊎◌,
}
use enterprise_llm_gateway.Prelude.Dict.{get, put, remove}
use enterprise_llm_gateway.Deduplicator.{
  Deduplicator, TaskKey, cancel, coalesce, complete, forget, is_task, start,
}

pub data Step (R : Type 0) : Type 0 where
  call : ℕ → TaskKey → Step R
  done : ℕ → R → Step R
  callback : ℕ → Step R
  cancelled : ℕ → Step R

module _ {R : Type 0} where
  unfoldable pub step : Step R → Deduplicator R → Deduplicator R
  step (call caller key) d = coalesce caller key d
  step (done t r) d = complete t r d
  step (callback t) d = forget t d
  step (cancelled caller) d = cancel caller d

  unfoldable pub steps : List (Step R) → Deduplicator R → Deduplicator R
  steps [] d = d
  steps (s ∷ ss) d = steps ss (step s d)

  -- The task runs the operation of the key.
  abbrev pub Runs : ℕ → TaskKey → Deduplicator R → Type 0
  Runs t key d = get t d.tasks ≡ some (record { key = key; result = none })

  pub complete-unchanged :
      (t : ℕ) (r : R) (d : Deduplicator R) → ((k : TaskKey) → ¬ Runs t k d) → complete t r d ≡ d
  unfolding complete
  complete-unchanged t r d idle = elim (Option-cases (get t d.tasks)) [
    | inl f ↦ ground (arith, f)
    | inr (task, f) ↦ elim (Option-cases task.result) [
      | inl g ↦ absurd (idle task.key (cc))
      | inr (old, g) ↦ ground (arith, f, g)
    ]
  ]

  pub complete-ended :
      (t : ℕ) (r : R) (k : TaskKey) (d : Deduplicator R)
      → Runs t k d
      → complete t r d ≡ record d { tasks = put t (record { key = k; result = some r }) d.tasks }
  unfolding complete
  complete-ended t r k d runs = ground (arith, runs)

  pub Runs-cases :
      (t : ℕ) (d : Deduplicator R) → ((k : TaskKey) × Runs t k d) ⊎ ((k : TaskKey) → ¬ Runs t k d)
  Runs-cases t d = elim (Option-cases (get t d.tasks)) [
    | inl f ↦ inr (λ k runs. cc)
    | inr (task, f) ↦ elim (Option-cases task.result) [
      | inl g ↦ inl (task.key, cc)
      | inr (old, g) ↦ inr (λ k runs. ground (arith, f, g, runs))
    ]
  ]

  pub forget-idle : (t : ℕ) (d : Deduplicator R) → get t d.tasks ≡ none → forget t d ≡ d
  unfolding forget
  forget-idle t d f = ground (arith, f)

  pub forget-running : (t : ℕ) (k : TaskKey) (d : Deduplicator R) → Runs t k d → forget t d ≡ d
  unfolding forget
  forget-running t k d f = ground (arith, f)

  pub forget-over :
      (t : ℕ) (r : R) (k : TaskKey) (d : Deduplicator R)
      → get t d.tasks ≡ some (record { key = k; result = some r })
      → forget t d ≡ (
          if is_task t (get k d.in_flight)
          then record d { in_flight = remove k d.in_flight }
          else d)
  unfolding forget
  forget-over t r k d f = ground (arith, f)

  pub coalesce-joins :
      (caller t : ℕ) (key : TaskKey) (d : Deduplicator R)
      → get key d.in_flight ≡ some t
      → coalesce caller key d ≡ record d { awaiting = put caller t d.awaiting }
  unfolding coalesce
  coalesce-joins caller t key d known = ground (arith, known)

  pub coalesce-starts :
      (caller : ℕ) (key : TaskKey) (d : Deduplicator R)
      → get key d.in_flight ≡ none
      → coalesce caller key d ≡ record (start key d) { awaiting = put caller d.started d.awaiting }
  unfolding coalesce
  coalesce-starts caller key d unknown = ground (arith, unknown)
