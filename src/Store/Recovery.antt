-- ===== src/Store/Recovery.antt =====
-- internal/store/recovery.go: what a member decides about a message that needs review.
use agent_room.Prelude.{
  ℕ, suc, Bool, ◌&&◌, List, [], ◌∷◌, Option, none, some, String, str_eq, ◌==◌, if◌then◌else◌, find,
  count, update_where, select,
}
use mathlib.Core.List.{flat_map}
use agent_room.Result.{
  Result, ok, err, ◌>>=◌, ◌>>◌, guard, invalid_input, stale_recovery, no_recovery_events, no_rows,
}
use agent_room.Room.Types.{RequestState, queued, dispatching, failed, needs_review, Actor}
use agent_room.Store.Tables.{
  MessageKind, cancel, Body, control, MessageRow, BindingRow, EventRow, TaskMessageRow, MemberRow,
  RecoveryEventRow, Database, is_member, is_event,
}
use agent_room.Store.Rows.{contains, hit_message, hit_binding, set_message_state}
use agent_room.Store.Tasks.{attach_task_message}
use agent_room.Store.Lifecycle.{prompts}

pub data RetryKind : Type 0 where
  retry_steer retry_cancel : RetryKind

pub record RetryCommand : Type 0 where
  pub kind : RetryKind
  pub client_message_id : String
  pub actor : Actor
  pub expected_turn_id : String
  pub text : String

pub record RecoveryResult : Type 0 where
  pub duplicate : Bool
  pub events : List EventRow
  pub retry : Option RetryCommand

-- The two updates that take a message and its binding out of review, each of one row.
unfoldable pub leave_review :
    String → ℕ → RequestState → (BindingRow → BindingRow) → Database → Result Database
leave_review rid mid new change db = do
  guard (count (hit_message rid mid needs_review) db.messages == 1) stale_recovery
  guard (count (hit_binding rid mid needs_review) db.bindings == 1) stale_recovery
  ok (record db {
    messages = update_where (hit_message rid mid needs_review) (set_message_state new) db.messages;
    bindings = update_where (hit_binding rid mid needs_review) change db.bindings;
  })

abbrev pub requeued_binding : BindingRow → BindingRow
requeued_binding b = record b {
  codex_turn_id = none;
  state = queued;
  started_at = none;
  completed_at = none;
  error_code = none;
  error_digest = none;
}

abbrev pub redispatched_binding : BindingRow → BindingRow
redispatched_binding b = record b {
  state = dispatching;
  completed_at = none;
  error_code = none;
  error_digest = none;
}

abbrev pub failed_binding : String → ℕ → BindingRow → BindingRow
failed_binding code now b = record b {
  state = failed;
  completed_at = some now;
  error_code = some code;
  error_digest = none;
}

unfoldable pub reset_reviewed_prompt : String → ℕ → Database → Result Database
unfolding leave_review
reset_reviewed_prompt rid mid db = leave_review rid mid queued requeued_binding db

unfoldable pub reset_reviewed_control : String → ℕ → Database → Result Database
unfolding leave_review
reset_reviewed_control rid mid db = leave_review rid mid dispatching redispatched_binding db

unfoldable pub terminalize_reviewed : String → ℕ → String → ℕ → Database → Result Database
unfolding leave_review
terminalize_reviewed rid mid code now db = leave_review rid mid failed (failed_binding code now) db

-- The persisted body of a control; a body of another kind does not decode.
abbrev control_parts : Body → Result (String × String)
control_parts (control turn text) = ok (turn, text)
control_parts _ = err invalid_input

found_actor : Option MemberRow → Result Actor
found_actor none = err no_rows
found_actor (some m) = ok (record { uid = m.uid; name = m.username })

abbrev retry_kind : MessageKind → RetryKind
retry_kind cancel = retry_cancel
retry_kind _ = retry_steer

unfoldable pub retry_command : String → String → MessageRow → Database → Result RetryCommand
unfolding found_actor
retry_command rid cid target db = do
  (turn, text) ← control_parts target.body
  actor ← found_actor (find (is_member rid target.actor_uid) db.members)
  ok (record {
    kind = retry_kind target.kind;
    client_message_id = cid;
    actor = actor;
    expected_turn_id = turn;
    text = text;
  })

abbrev pub recovery_retry_state : MessageKind → RequestState
recovery_retry_state kind = if contains prompts kind then queued else dispatching

abbrev pub is_link : String → ℕ → TaskMessageRow → Bool
is_link rid mid tm = str_eq tm.room_id rid && tm.message_id == mid

-- The new run joins the task of the message that it replaces, if that has one.
unfoldable pub inherit_task :
    String → Actor → Option TaskMessageRow → ℕ → ℕ → Database → Result Database
inherit_task rid actor none mid now db = ok db
inherit_task rid actor (some tm) mid now db = attach_task_message rid actor tm.task_id mid now db

abbrev pub linked_events : String → ℕ → ℕ → List EventRow → List RecoveryEventRow
linked_events rid mid ordinal [] = []
linked_events rid mid ordinal (e ∷ es) =
    record { recovery_message_id = mid; ordinal = ordinal; room_id = rid; seq = e.seq }
    ∷ linked_events rid mid (suc ordinal) es

abbrev pub event_at : List EventRow → RecoveryEventRow → List EventRow
event_at es l = elim (find (is_event l.room_id l.seq) es) [ none ↦ [] | some e ↦ e ∷ [] ]

abbrev nonempty : List EventRow → Result (List EventRow)
nonempty [] = err no_recovery_events
nonempty (e ∷ es) = ok (e ∷ es)

-- The events of a decision taken before, joined in the order of their links.
unfoldable pub load_recovery_events : String → ℕ → Database → Result (List EventRow)
load_recovery_events rid mid db = nonempty (
    flat_map (event_at db.events)
      (select (λ l. l.recovery_message_id == mid && str_eq l.room_id rid) db.recovery_events))
