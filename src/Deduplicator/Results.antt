-- ===== src/Deduplicator/Results.antt =====
-- What a caller of `coalesce` gets, whatever happens after its call.
use enterprise_llm_gateway.Prelude.{
  Bool-cases, List, Option, Option-cases, [], ap, arith, inl, inr, nat_eq, none, pair_eq, refl,
  some, text_eq, ℕ, ◌==◌, ◌∙◌, ◌∷◌, ◌≡◌,
}
use enterprise_llm_gateway.Prelude.Dict.{get, get-put, get-put_ne, get-put_self}
use enterprise_llm_gateway.Deduplicator.{
  Deduplicator, Task, TaskKey, cancel, coalesce, complete, empty, forget, start,
}
use enterprise_llm_gateway.Deduplicator.Consistency.{
  IsConsistent, coalesce-IsConsistent, empty-IsConsistent, step-IsConsistent, steps-IsConsistent,
}
use enterprise_llm_gateway.Deduplicator.Steps.{
  Runs-cases, Step, call, callback, cancelled, coalesce-joins, coalesce-starts, complete-ended,
  complete-unchanged, done, step, steps,
}

module _ {R : Type 0} where
  -- The task is still there, for the same operation, and if it had ended then it has not changed.
  unfoldable Keeps : ℕ → Deduplicator R → Deduplicator R → Type 0
  Keeps t d d' =
      (task : Task R)
      → get t d.tasks ≡ some task
      → (later : Task R) × (get t d'.tasks ≡ some later)
        × (later.key ≡ task.key)
        × ((r : R) → task.result ≡ some r → later ≡ task)

  same-Keeps : (t : ℕ) (d d' : Deduplicator R) → get t d'.tasks ≡ get t d.tasks → Keeps t d d'
  unfolding Keeps
  same-Keeps t d d' same task at = (task, same ∙ at, refl, λ r ended. refl)

  coalesce-Keeps :
      (t caller : ℕ) (key : TaskKey) (d : Deduplicator R)
      → IsConsistent d
      → Keeps t d (coalesce caller key d)
  unfolding Keeps start
  coalesce-Keeps t caller key d h task at = elim (Option-cases (get key d.in_flight)) [
    | inl f ↦ rw (coalesce-starts caller key d f) (
      task,
      grind (
        arith,
        at,
        h.numbered t task,
        get-put d.started t (record { key = key; result = none }) d.tasks,
        nat_eq.equal_iff d.started t,
      ),
      refl,
      λ r ended. refl,
    )
    | inr (u, f) ↦ rw (coalesce-joins caller u key d f) (task, at, refl, λ r ended. refl)
  ]

  complete-Keeps : (t u : ℕ) (r : R) (d : Deduplicator R) → Keeps t d (complete u r d)
  unfolding Keeps
  complete-Keeps t u r d task at = elim (Runs-cases u d) [
    | inr idle ↦ rw (complete-unchanged u r d idle) (task, at, refl, λ r' ended. refl)
    | inl (k, runs) ↦ rw (complete-ended u r k d runs) (
        let ended : Task R = record { key = k; result = some r } in
        elim (Bool-cases (u == t)) [
          | inr other ↦ (task, get-put_ne u t ended d.tasks other ∙ at, refl, λ r' over. refl)
          | inl same ↦ (
            ended,
            grind (arith, same, get-put u t ended d.tasks),
            grind (arith, same, runs, at, nat_eq.equal_iff u t),
            λ r' over. grind (arith, same, runs, at, over, nat_eq.equal_iff u t),
          )
        ])
  ]

  forget-tasks : (t : ℕ) (d : Deduplicator R) → (forget t d).tasks ≡ d.tasks
  unfolding forget
  forget-tasks t d = ground arith

  step-Keeps : (t : ℕ) (s : Step R) (d : Deduplicator R) → IsConsistent d → Keeps t d (step s d)
  unfolding step cancel
  step-Keeps t (call caller key) d h = coalesce-Keeps t caller key d h
  step-Keeps t (done u r) d h = complete-Keeps t u r d
  step-Keeps t (callback u) d h = same-Keeps t d (forget u d) (ap (get t) (forget-tasks u d))
  step-Keeps t (cancelled caller) d h = same-Keeps t d (cancel caller d) refl

  steps-Keeps :
      (t : ℕ) (ss : List (Step R)) (d : Deduplicator R) → IsConsistent d → Keeps t d (steps ss d)
  unfolding steps Keeps
  steps-Keeps t [] d h task at = (task, at, refl, λ r ended. refl)
  steps-Keeps t (s ∷ ss) d h task at =
      let (now, now_at, now_key, now_same) = step-Keeps t s d h task at in
      let (later, later_at, later_key, later_same) =
        steps-Keeps t ss (step s d) (step-IsConsistent s d h) now now_at in
      (
        later,
        later_at,
        later_key ∙ now_key,
        λ r ended.
            later_same r (ap (λ (x : Task R). x.result) (now_same r ended) ∙ ended)
            ∙ now_same r ended,
      )

  coalesce-awaits :
      (caller : ℕ) (key : TaskKey) (d : Deduplicator R)
      → IsConsistent d
      → let d' = coalesce caller key d in
        (t : ℕ) × (get caller d'.awaiting ≡ some t)
        × ((o : Option R) × (get t d'.tasks ≡ some (record { key = key; result = o })))
  unfolding start
  coalesce-awaits caller key d h = elim (Option-cases (get key d.in_flight)) [
    | inl f ↦ rw (coalesce-starts caller key d f) (
      d.started,
      get-put_self caller d.started d.awaiting,
      (none, get-put_self d.started (record { key = key; result = none }) d.tasks),
    )
    | inr (t, f) ↦
        rw (coalesce-joins caller t key d f) (t, get-put_self caller t d.awaiting, h.own t key f)
  ]

  -- After any steps, a call of `coalesce` makes its caller await a task for the key of the call, and
  -- no cancellation nor any other step takes the task away, gives it to another key or changes its
  -- result once it has one: all who await it get the same result.
  pub coalesce-served :
      (before between after : List (Step R)) (caller : ℕ) (key : TaskKey)
      → let d = coalesce caller key (steps before empty) in
        (t : ℕ) × (get caller d.awaiting ≡ some t)
        × ((task : Task R) × (get t (steps between d).tasks ≡ some task)
            × (task.key ≡ key)
            × ((r : R)
                → task.result ≡ some r
                → get t (steps after (steps between d)).tasks ≡ some task))
  unfolding Keeps
  coalesce-served before between after caller key =
      let d0 = steps before empty in
      let h0 = steps-IsConsistent before empty empty-IsConsistent in
      let d = coalesce caller key d0 in
      let h = coalesce-IsConsistent caller key d0 h0 in
      let (t, awaits, (o, at)) = coalesce-awaits caller key d0 h0 in
      let (task, task_at, task_key, task_same) =
        steps-Keeps t between d h (record { key = key; result = o }) at in
      let (end, end_at, end_key, end_same) =
        steps-Keeps t after (steps between d) (steps-IsConsistent between d h) task task_at in
      (t, awaits, (task, task_at, task_key, λ r ended. end_at ∙ ap some (end_same r ended)))
