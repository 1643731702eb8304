-- ===== src/Store/Tests/Steps.antt =====
-- The theorems on single commands, on a room with a prompt and a note.
use agent_room.Prelude.{◌≤◌, ◌≡◌, refl, true, false, [], ◌∷◌, none, some, String, str_eq, find}
use agent_room.Prelude.Text.{is_blank}
use agent_room.Result.{ok, err, invalid_state}
use agent_room.Room.Types.{
  completed, needs_review, validate_submit, valid_client_message_id, valid_connection_id,
}
use agent_room.Store.Tables.{ConnectionRow, Database, is_connection}
use agent_room.Store.Rows.{
  require_actor, allocate_seq, insert_event_at, validate_identifiers, require_message_state,
  update_message_and_binding,
}
use agent_room.Store.Rooms.{initialize_room}
use agent_room.Store.Accept.{accept_message, append_note}
use agent_room.Store.Lifecycle.{begin_dispatch}
use agent_room.Store.Connections.{ack, connected}
use agent_room.Store.Commands.{run, exec, dispatch, open_connection, acknowledge}
use agent_room.Store.Tasks.{TaskState, task_state}
use agent_room.Store.Replies.Dispatch.{begin_dispatch-once}
use agent_room.Store.Replies.Acks.{ack-grows}
use agent_room.Store.Replies.TaskStates.{described, task_state-described}
use agent_room.Store.Tests.Data.{test_hash, opened, first_id}

abbrev dispatched : Database
dispatched = run test_hash ((dispatch "room" first_id, 40) ∷ []) opened

test_dispatch : begin_dispatch "room" first_id opened ≡ ok (tt, dispatched)
unfolding run exec initialize_room accept_message append_note begin_dispatch is_blank
    validate_submit valid_client_message_id require_actor allocate_seq insert_event_at
    validate_identifiers require_message_state update_message_and_binding
test_dispatch = refl

begin_dispatch-once_example : begin_dispatch "room" first_id dispatched ≡ err invalid_state
begin_dispatch-once_example = begin_dispatch-once "room" first_id opened test_dispatch

abbrev connection : ConnectionRow
connection = record {
  id = first_id;
  room_id = "room";
  member_uid = 1;
  connected_at = 35;
  disconnected_at = none;
  last_ack_seq = 1;
}

abbrev joined : Database
joined = run test_hash ((open_connection connection, 35) ∷ []) opened

abbrev acknowledged : Database
acknowledged = run test_hash ((acknowledge first_id 2, 36) ∷ []) joined

test_ack : ack first_id 2 joined ≡ ok (tt, acknowledged)
unfolding run exec initialize_room accept_message append_note ack connected is_blank validate_submit
    valid_client_message_id valid_connection_id require_actor allocate_seq insert_event_at
test_ack = refl

ack-grows_example :
    (c : ConnectionRow) × (find (is_connection first_id) joined.connections ≡ some c)
    × (c.last_ack_seq ≤ 2)
    × (find (is_connection first_id) acknowledged.connections
        ≡ some (record c { last_ack_seq = 2 }))
    × ((k : String)
        → str_eq first_id k ≡ false
        → find (is_connection k) acknowledged.connections
          ≡ find (is_connection k) joined.connections)
ack-grows_example = ack-grows first_id 2 joined test_ack

task_state-described_example :
    (task_state (completed ∷ needs_review ∷ []) false ≡ described (completed ∷ needs_review ∷ []))
    × (task_state (completed ∷ needs_review ∷ []) true ≡ TaskState.completed)
task_state-described_example = task_state-described (completed ∷ needs_review ∷ [])
