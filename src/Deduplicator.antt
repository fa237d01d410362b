-- ===== src/Deduplicator.antt =====
-- application/execution/deduplicator.py: tasks shared by the callers of one key. The event loop is the
-- order of the steps: a call of `coalesce` up to its `await`, the end of a task, the callback that
-- forgets it, which runs some time after that, and the cancellation of a caller, from which `shield`
-- keeps the task. A task is known by a number, in the order of the starts.
pub mod Steps
pub mod Consistency
pub mod Results
mod Tests
use enterprise_llm_gateway.Prelude.{
  Bool, Option, Text, [], false, if◌then◌else◌, nat_eq, none, pair_eq, some, text_eq, ℕ, ◌+◌, ◌==◌,
}
use enterprise_llm_gateway.Prelude.Dict.{Dict, get, put, remove}

abbrev pub TaskKey : Type 0
TaskKey = ℕ × Text

-- An `asyncio.Task`: whose operation it runs, and its result, or exception, once it is done.
pub record Task (R : Type 0) : Type 0 where
  pub key : TaskKey
  pub result : Option R

-- `_in_flight`, and what the event loop knows: the tasks, how many were started, and the task that
-- each caller awaits.
pub record Deduplicator (R : Type 0) : Type 0 where
  pub in_flight : Dict TaskKey ℕ
  pub tasks : Dict ℕ (Task R)
  pub started : ℕ
  pub awaiting : Dict ℕ ℕ

-- `self._in_flight.get(key) is done`
unfoldable pub is_task : ℕ → Option ℕ → Bool
is_task t none = false
is_task t (some u) = u == t

module _ {R : Type 0} where
  -- `RequestDeduplicator()`
  unfoldable pub empty : Deduplicator R
  empty = record { in_flight = []; tasks = []; started = 0; awaiting = [] }

  -- `asyncio.ensure_future(operation())`, kept under the key.
  unfoldable pub start : TaskKey → Deduplicator R → Deduplicator R
  start key d = record d {
    in_flight = put key d.started d.in_flight;
    tasks = put d.started (record { key = key; result = none }) d.tasks;
    started = d.started + 1;
  }

  -- `coalesce` up to the `await`, by a caller.
  unfoldable pub coalesce : ℕ → TaskKey → Deduplicator R → Deduplicator R
  unfolding start
  coalesce caller key d = elim (get key d.in_flight) [
    | some t ↦ record d { awaiting = put caller t d.awaiting }
    | none ↦ record (start key d) { awaiting = put caller d.started d.awaiting }
  ]

  -- The operation of a task that is running ends.
  unfoldable pub complete : ℕ → R → Deduplicator R → Deduplicator R
  complete t r d = elim (get t d.tasks) [
    | none ↦ d
    | some task ↦ elim task.result [
      | some old ↦ d
      | none ↦ record d { tasks = put t (record task { result = some r }) d.tasks }
    ]
  ]

  -- `_forget`, for a task that is done.
  unfoldable pub forget : ℕ → Deduplicator R → Deduplicator R
  unfolding is_task
  forget t d = elim (get t d.tasks) [
    | none ↦ d
    | some task ↦ elim task.result [
      | none ↦ d
      | some r ↦
          if is_task t (get task.key d.in_flight)
          then record d { in_flight = remove task.key d.in_flight }
          else d
    ]
  ]

  -- The caller is cancelled; the task is not.
  unfoldable pub cancel : ℕ → Deduplicator R → Deduplicator R
  cancel caller d = record d { awaiting = remove caller d.awaiting }
