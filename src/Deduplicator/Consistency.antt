-- ===== src/Deduplicator/Consistency.antt =====
-- One task at a time for a key, in every interleaving.
use enterprise_llm_gateway.Prelude.{
  Bool-cases, List, Option, Option-cases, [], arith, if-cases, inl, inr, nat_eq, none, pair_eq,
  some, text_eq, true, ℕ, ◌<◌, ◌==◌, ◌∙◌, ◌∷◌, ◌≡◌,
}
use enterprise_llm_gateway.Prelude.Dict.{Dict, get, get-put, get-put_ne, get-remove, put, remove}
use enterprise_llm_gateway.Deduplicator.{
  Deduplicator, Task, TaskKey, cancel, coalesce, complete, empty, forget, is_task, start,
}
use enterprise_llm_gateway.Deduplicator.Steps.{
  Runs, Runs-cases, Step, call, callback, cancelled, coalesce-joins, coalesce-starts,
  complete-ended, complete-unchanged, done, forget-idle, forget-over, forget-running, step, steps,
}

is_task-some : (t : ℕ) (o : Option ℕ) → is_task t o ≡ true → o ≡ some t
unfolding is_task
is_task-some t none same = absurd (cc)
is_task-some t (some u) same = ground (arith, same, nat_eq.equal_iff u t)

module _ {R : Type 0} where
  -- Every task has been started, and every one that is running is the one in flight for its key.
  -- A task in flight for a key runs, or ran, the key's operation.
  pub record IsConsistent (d : Deduplicator R) : Type 0 where
    pub numbered : (t : ℕ) (task : Task R) → get t d.tasks ≡ some task → t < d.started
    pub in_flight_is : (t : ℕ) (key : TaskKey) → Runs t key d → get key d.in_flight ≡ some t
    pub own :
        (t : ℕ) (key : TaskKey)
        → get key d.in_flight ≡ some t
        → (o : Option R) × (get t d.tasks ≡ some (record { key = key; result = o }))

  start-IsConsistent :
      (key : TaskKey) (d : Deduplicator R)
      → IsConsistent d
      → get key d.in_flight ≡ none
      → IsConsistent (start key d)
  unfolding start
  start-IsConsistent key d h unknown =
      let new : Task R = record { key = key; result = none } in
      record {
        numbered = λ t task at. ground (
          arith,
          at,
          get-put d.started t new d.tasks,
          nat_eq.equal_iff d.started t,
          h.numbered t task,
        );
        in_flight_is = λ t k runs. grind (
          arith,
          runs,
          unknown,
          get-put d.started t new d.tasks,
          get-put key k d.started d.in_flight,
          nat_eq.equal_iff d.started t,
          pair_eq.equal_iff key k,
          h.in_flight_is t k,
        );
        own = λ t k known. elim (Option-cases (get k d.in_flight)) [
          | inl f ↦ (
            none,
            grind (
              arith,
              known,
              f,
              get-put d.started t new d.tasks,
              get-put key k d.started d.in_flight,
              nat_eq.equal_iff d.started t,
              pair_eq.equal_iff key k,
            ),
          )
          | inr (u, f) ↦
              let (o, at) = h.own u k f in
              (
                o,
                grind (
                  arith,
                  known,
                  f,
                  unknown,
                  at,
                  h.numbered u (record { key = k; result = o }),
                  get-put d.started t new d.tasks,
                  get-put key k d.started d.in_flight,
                  nat_eq.equal_iff d.started t,
                  pair_eq.equal_iff key k,
                ),
              )
        ];
      }

  ended-IsConsistent :
      (t : ℕ) (r : R) (k : TaskKey) (d : Deduplicator R)
      → IsConsistent d
      → Runs t k d
      → IsConsistent (record d { tasks = put t (record { key = k; result = some r }) d.tasks })
  ended-IsConsistent t r k d h running =
      let ended : Task R = record { key = k; result = some r } in
      record {
        numbered = λ u task at. ground (
          arith,
          at,
          running,
          get-put t u ended d.tasks,
          nat_eq.equal_iff t u,
          h.numbered u task,
          h.numbered t (record { key = k; result = none }),
        );
        in_flight_is = λ u j runs.
            ground
              (arith, runs, get-put t u ended d.tasks, nat_eq.equal_iff t u, h.in_flight_is u j);
        own = λ u j known.
            let (o, at) = h.own u j known in
            elim (Bool-cases (t == u)) [
              | inl same ↦ (
                some r,
                grind (arith, same, at, running, get-put t u ended d.tasks, nat_eq.equal_iff t u),
              )
              | inr other ↦ (o, get-put_ne t u ended d.tasks other ∙ at)
            ];
      }

  complete-IsConsistent :
      (t : ℕ) (r : R) (d : Deduplicator R) → IsConsistent d → IsConsistent (complete t r d)
  complete-IsConsistent t r d h = elim (Runs-cases t d) [
    | inl (k, runs) ↦ rw (complete-ended t r k d runs) (ended-IsConsistent t r k d h runs)
    | inr idle ↦ rw (complete-unchanged t r d idle) h
  ]

  forgotten-IsConsistent :
      (t : ℕ) (r : R) (k : TaskKey) (d : Deduplicator R)
      → IsConsistent d
      → get t d.tasks ≡ some (record { key = k; result = some r })
      → get k d.in_flight ≡ some t
      → IsConsistent (record d { in_flight = remove k d.in_flight })
  forgotten-IsConsistent t r k d h over known = record {
    numbered = h.numbered;
    in_flight_is = λ u j runs. grind (
      arith,
      runs,
      over,
      known,
      get-remove k j d.in_flight,
      pair_eq.equal_iff k j,
      h.in_flight_is u j,
    );
    own = λ u j known. h.own u j (ground (arith, known, get-remove k j d.in_flight));
  }

  forget-IsConsistent : (t : ℕ) (d : Deduplicator R) → IsConsistent d → IsConsistent (forget t d)
  forget-IsConsistent t d h = elim (Option-cases (get t d.tasks)) [
    | inl f ↦ rw (forget-idle t d f) h
    | inr (task, f) ↦ elim (Option-cases task.result) [
      | inl g ↦ rw (forget-running t task.key d (cc)) h
      | inr (r, g) ↦ rw (forget-over t r task.key d (cc)) (
          if-cases IsConsistent (is_task t (get task.key d.in_flight))
            (λ same.
              forgotten-IsConsistent t r task.key d h (cc)
                (is_task-some t (get task.key d.in_flight) same))
            (λ other. h))
    ]
  ]

  awaiting-IsConsistent :
      (waits : Dict ℕ ℕ) (d : Deduplicator R)
      → IsConsistent d
      → IsConsistent (record d { awaiting = waits })
  awaiting-IsConsistent waits d h = record {
    numbered = h.numbered;
    in_flight_is = h.in_flight_is;
    own = h.own;
  }

  pub coalesce-IsConsistent :
      (caller : ℕ) (key : TaskKey) (d : Deduplicator R)
      → IsConsistent d
      → IsConsistent (coalesce caller key d)
  coalesce-IsConsistent caller key d h = elim (Option-cases (get key d.in_flight)) [
    | inl f ↦ rw (coalesce-starts caller key d f) (
        awaiting-IsConsistent (put caller d.started d.awaiting) (start key d)
          (start-IsConsistent key d h f))
    | inr (t, f) ↦
        rw (coalesce-joins caller t key d f) (awaiting-IsConsistent (put caller t d.awaiting) d h)
  ]

  pub step-IsConsistent :
      (s : Step R) (d : Deduplicator R) → IsConsistent d → IsConsistent (step s d)
  unfolding step cancel
  step-IsConsistent (call caller key) d h = coalesce-IsConsistent caller key d h
  step-IsConsistent (done t r) d h = complete-IsConsistent t r d h
  step-IsConsistent (callback t) d h = forget-IsConsistent t d h
  step-IsConsistent (cancelled caller) d h = awaiting-IsConsistent (remove caller d.awaiting) d h

  pub steps-IsConsistent :
      (ss : List (Step R)) (d : Deduplicator R) → IsConsistent d → IsConsistent (steps ss d)
  unfolding steps
  steps-IsConsistent [] d h = h
  steps-IsConsistent (s ∷ ss) d h = steps-IsConsistent ss (step s d) (step-IsConsistent s d h)

  pub empty-IsConsistent : IsConsistent (empty {R = R})
  unfolding empty get
  empty-IsConsistent = record {
    numbered = λ t task at. ground (arith, at);
    in_flight_is = λ t key runs. ground (arith, runs);
    own = λ t key known. ground (arith, known);
  }

  -- After any steps, at most one task runs for a key, and a call of `coalesce` with the key of a task
  -- that runs starts nothing: the caller awaits that task, and nothing else changes.
  pub single_flight :
      (ss : List (Step R)) (caller t : ℕ) (key : TaskKey)
      → let d = steps ss empty in
        Runs t key d
        → ((u : ℕ) → Runs u key d → u ≡ t)
          × (coalesce caller key d ≡ record d { awaiting = put caller t d.awaiting })
  single_flight ss caller t key runs =
      let d = steps ss empty in
      let h = steps-IsConsistent ss empty empty-IsConsistent in
      let known = h.in_flight_is t key runs in
      (
        λ u also. ground (arith, known, h.in_flight_is u key also),
        coalesce-joins caller t key d known,
      )
