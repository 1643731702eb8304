-- ===== src/Store/Tasks.antt =====
-- internal/store/tasks.go: a task's state, read off the messages that run for it, and the linking of
-- a new run. Tasks are named by their number; the queries, conversion and receipts are not here.
use agent_room.Prelude.{
  ℕ, ◌+◌, Bool, true, false, ◌&&◌, ◌||◌, List, [], ◌∷◌, ◌++◌, Option, none, some, String, str_eq,
  ◌==◌, if◌then◌else◌, any, find, select, update_where, map,
}
use mathlib.Core.List.{reverse}
use agent_room.Result.{
  Result, ok, err, ◌>>◌, guard, not_a_task_writer, task_missing, task_is_completed, task_is_busy,
}
use agent_room.Room.Types.{RequestState, Actor, same_state}
use agent_room.Store.Tables.{
  MessageRow, TaskRow, TaskMessageRow, RoleRow, Database, is_task, is_message,
}
use agent_room.Store.Rows.{require_actor}

pub data TaskState : Type 0 where
  completed needs_confirmation running queued review blocked todo : TaskState

abbrev runs_for : String → ℕ → MessageRow → TaskMessageRow → Bool
runs_for rid id m tm = str_eq tm.room_id rid && tm.task_id == id && tm.message_id == m.id

-- The states of the task's messages, the latest message first: ids grow in the order of insertion.
unfoldable pub run_states : String → ℕ → Database → List RequestState
run_states rid id db =
    map (λ m. m.state)
      (reverse (
        select (λ m. str_eq m.room_id rid && any (runs_for rid id m) db.task_messages) db.messages))

-- What the loop over the rows collects.
pub record Tally : Type 0 where
  pub latest : Option RequestState
  pub is_running : Bool
  pub is_queued : Bool
  pub is_uncertain : Bool

abbrev pub no_runs : Tally
no_runs = record { latest = none; is_running = false; is_queued = false; is_uncertain = false }

abbrev pub first_of_two : Option RequestState → RequestState → Option RequestState
first_of_two none state = some state
first_of_two (some latest) state = some latest

-- One round of the loop.
abbrev pub tally_one : Tally → RequestState → Tally
tally_one t state = record {
  latest = first_of_two t.latest state;
  is_running = t.is_running || same_state state RequestState.running;
  is_queued = t.is_queued || same_state state RequestState.queued;
  is_uncertain =
      t.is_uncertain
      || same_state state RequestState.dispatching
      || same_state state RequestState.needs_review;
}

unfoldable pub tally : Tally → List RequestState → Tally
tally t [] = t
tally t (state ∷ states) = tally (tally_one t state) states

abbrev pub latest_state : Option RequestState → TaskState
latest_state none = todo
latest_state (some state) = if same_state state RequestState.completed then review else blocked

-- The `switch` after the loop.
abbrev pub tally_state : Tally → TaskState
tally_state t =
    if t.is_uncertain
    then needs_confirmation
    else (if t.is_running then running else (if t.is_queued then queued else latest_state t.latest))

unfoldable pub task_state : List RequestState → Bool → TaskState
unfolding tally
task_state states is_completed =
    if is_completed then completed else tally_state (tally no_runs states)

abbrev is_some : Option ℕ → Bool
is_some none = false
is_some (some a) = true

-- A task with its state; its source message is joined.
unfoldable pub load_task : String → ℕ → Database → Option (TaskRow × TaskState)
unfolding task_state run_states
load_task rid id db = elim (find (is_task rid id) db.tasks) [
  | none ↦ none
  | some t ↦
      if any (is_message rid t.source_message_id) db.messages
      then some (t, task_state (run_states rid id db) (is_some t.completed_at))
      else none
]

abbrev is_role : String → ℕ → RoleRow → Bool
is_role rid uid r = str_eq r.room_id rid && r.uid == uid

-- `coalesce((SELECT role …), 'roommate')`.
unfoldable pub member_role : String → ℕ → Database → String
member_role rid uid db = elim (find (is_role rid uid) db.roles) [
  | none ↦ "roommate"
  | some r ↦ r.role
]

unfoldable pub require_task_writer : String → Actor → Database → Result (Unit {0})
unfolding member_role
require_task_writer rid actor db = do
  require_actor rid actor db
  guard (str_eq (member_role rid actor.uid db) "roommate") not_a_task_writer

abbrev touch_task : ℕ → TaskRow → TaskRow
touch_task now t = record t { revision = t.revision + 1; updated_at = now }

-- The rows that the link of a run writes.
unfoldable pub link_run : String → Actor → ℕ → ℕ → ℕ → Database → Database
link_run rid actor task_id message_id now db = record db {
  tasks = update_where (is_task rid task_id) (touch_task now) db.tasks;
  task_messages =
      db.task_messages ++ record { room_id = rid; task_id = task_id; message_id = message_id } ∷ [];
  task_changes =
      db.task_changes
      ++ record {
        room_id = rid;
        task_id = task_id;
        action = "run_added";
        actor = actor.name;
        created_at = now;
        note = "";
      }
        ∷ [];
}

-- The tests on a task's state before it may run once more.
unfoldable pub admit_run : Option (TaskRow × TaskState) → Result (Unit {0})
admit_run none = err task_missing
admit_run (some (t, completed)) = err task_is_completed
admit_run (some (t, queued)) = err task_is_busy
admit_run (some (t, running)) = err task_is_busy
admit_run (some (t, needs_confirmation)) = err task_is_busy
admit_run (some (t, _)) = ok tt

unfoldable pub attach_task_message : String → Actor → ℕ → ℕ → ℕ → Database → Result Database
unfolding link_run admit_run
attach_task_message rid actor task_id message_id now db = do
  require_task_writer rid actor db
  admit_run (load_task rid task_id db)
  ok (link_run rid actor task_id message_id now db)
