-- ===== src/Store/Replies/TaskStates.antt =====
-- internal/store/tasks.go: the state of a task, against a direct description of it.
use agent_room.Prelude.{
  ◌≡◌, refl, ap, Bool, true, false, ◌||◌, List, [], ◌∷◌, some, if◌then◌else◌, any, arith,
}
use agent_room.Room.Types.{
  RequestState, same_state, queued, dispatching, running, completed, needs_review,
}
use agent_room.Store.Tasks.{TaskState, Tally, tally, tally_one, no_runs, latest_state, task_state}

abbrev pub is_uncertain : RequestState → Bool
is_uncertain s = same_state s dispatching || same_state s needs_review

-- A task waits for a review after a run that was completed, and is blocked after another end.
abbrev pub by_latest : List RequestState → TaskState
by_latest [] = TaskState.todo
by_latest (s ∷ states) = if same_state s completed then TaskState.review else TaskState.blocked

-- The state by the runs of the task, the latest first: an uncertain one goes before a running one,
-- this before a queued one, and else the latest decides.
abbrev pub described : List RequestState → TaskState
described states =
    if any is_uncertain states
    then TaskState.needs_confirmation
    else if any (λ s. same_state s running) states
    then TaskState.running
    else if any (λ s. same_state s queued) states
    then TaskState.queued
    else by_latest states

-- What the loop has collected after the runs.
record IsTallied (t : Tally) (states : List RequestState) (r : Tally) : Type 0 where
  uncertain : r.is_uncertain ≡ (t.is_uncertain || any is_uncertain states)
  is_run : r.is_running ≡ (t.is_running || any (λ s. same_state s running) states)
  is_wait : r.is_queued ≡ (t.is_queued || any (λ s. same_state s queued) states)

tally-IsTallied : (t : Tally) (states : List RequestState) → IsTallied t states (tally t states)
unfolding tally
tally-IsTallied t [] = record {
  uncertain = ground arith;
  is_run = ground arith;
  is_wait = ground arith;
}
tally-IsTallied t (s ∷ states) =
    let r = tally-IsTallied (tally_one t s) states in
    record {
      uncertain = ground (arith, r.uncertain);
      is_run = ground (arith, r.is_run);
      is_wait = ground (arith, r.is_wait);
    }

tally-latest_some :
    (t : Tally) (s : RequestState) (states : List RequestState)
    → t.latest ≡ some s
    → (tally t states).latest ≡ some s
unfolding tally
tally-latest_some t s [] h = h
tally-latest_some t s (x ∷ states) h = tally-latest_some (tally_one t x) s states (rw h refl)

latest_by :
    (states : List RequestState) → latest_state (tally no_runs states).latest ≡ by_latest states
unfolding tally
latest_by [] = refl
latest_by (s ∷ states) = ap latest_state (tally-latest_some (tally_one no_runs s) s states refl)

-- The loop over the runs of a task that is not completed, and the `switch` after it, find the state
-- that the description gives; the state of a completed task is completed.
pub task_state-described :
    (states : List RequestState)
    → (task_state states false ≡ described states) × (task_state states true ≡ TaskState.completed)
unfolding task_state
task_state-described states =
    let r = tally-IsTallied no_runs states in
    (rw (r.uncertain, r.is_run, r.is_wait, latest_by states) refl, refl)
