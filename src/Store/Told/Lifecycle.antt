-- ===== src/Store/Told/Lifecycle.antt =====
-- The transitions of a message and the status of the room: the event that each returns is stored.
use agent_room.Prelude.{ℕ, Bool, true, false, not, List, none, some, String, find, if◌then◌else◌}
use agent_room.Result.{ok, guard, invalid_input}
use agent_room.Room.Types.{RequestState, dispatching, running, needs_review, RoomStatus}
use agent_room.Store.Tables.{MessageKind, Database, room_status}
use agent_room.Store.Rows.{
  append_event, require_message_state, update_message_and_binding, load_stored_message,
  validate_identifiers, validate_room_id, nullable_string,
}
use agent_room.Prelude.Text.{is_blank}
use agent_room.Store.Checks.{validate_terminal_outcome, validate_finish_turn, validate_reason}
use agent_room.Store.Lifecycle.{
  leave_dispatching, finish_control, fail_dispatch, bind_running_turn, finish_turn,
  mark_needs_review, diagnostic, runs_turn, running_turn, review_target, no_change, prompts,
  controls,
}
use agent_room.Store.Rooms.{set_room_status, change_status, load_room, update_status, same_status}
use agent_room.Store.Told.{
  Tells, tells, one_event, some_event, passes, append_event-IsIn, append_event-Tells,
}

leave_dispatching-Tells :
    (rid cid : String) (kinds : List MessageKind) (topic : String) (state : RequestState)
    (code digest : String) (now : ℕ) (db : Database)
    → Tells one_event (leave_dispatching rid cid kinds topic state code digest now db)
unfolding leave_dispatching
leave_dispatching-Tells rid cid kinds topic state code digest now db =
    passes (require_message_state rid cid kinds dispatching db) λ m _.
      passes
        (update_message_and_binding rid m.id dispatching state (diagnostic state code digest now)
          db)
        λ db' _. append_event-Tells rid m.actor_uid _ _ now db'

pub finish_control-Tells :
    (rid cid : String) (state : RequestState) (code digest : String) (now : ℕ) (db : Database)
    → Tells one_event (finish_control rid cid state code digest now db)
unfolding finish_control
finish_control-Tells rid cid state code digest now db = passes (validate_identifiers rid cid) λ _ _.
    passes (validate_terminal_outcome state code digest true)
      λ _ _. leave_dispatching-Tells rid cid controls "control/" state code digest now db

pub fail_dispatch-Tells :
    (rid cid : String) (state : RequestState) (code digest : String) (now : ℕ) (db : Database)
    → Tells one_event (fail_dispatch rid cid state code digest now db)
unfolding fail_dispatch
fail_dispatch-Tells rid cid state code digest now db = passes (validate_identifiers rid cid) λ _ _.
    passes (validate_terminal_outcome state code digest false)
      λ _ _. leave_dispatching-Tells rid cid prompts "message/" state code digest now db

pub bind_running_turn-Tells :
    (rid cid turn : String) (now : ℕ) (db : Database)
    → Tells one_event (bind_running_turn rid cid turn now db)
unfolding bind_running_turn
bind_running_turn-Tells rid cid turn now db =
    let c = record no_change { turn_id = some turn; started_at = some now } in
    passes (validate_identifiers rid cid) λ _ _.
      passes (guard (not (is_blank turn)) invalid_input) λ _ _.
        passes (require_message_state rid cid prompts dispatching db) λ m _.
          passes (update_message_and_binding rid m.id dispatching running c db)
            λ db' _. append_event-Tells rid m.actor_uid _ _ now db'

pub finish_turn-Tells :
    (rid turn : String) (state : RequestState) (code digest : String) (now : ℕ) (db : Database)
    → Tells one_event (finish_turn rid turn state code digest now db)
unfolding finish_turn
finish_turn-Tells rid turn state code digest now db = passes (validate_room_id rid) λ _ _.
    passes (guard (not (is_blank turn)) invalid_input) λ _ _.
      passes (validate_finish_turn state code digest) λ _ _.
        passes (running_turn rid db (find (runs_turn rid turn db.bindings) db.messages)) λ m _.
          passes
            (update_message_and_binding rid m.id m.state state (diagnostic state code digest now)
              db)
            λ db' _. append_event-Tells rid m.actor_uid _ _ now db'

pub mark_needs_review-Tells :
    (rid cid code digest : String) (now : ℕ) (db : Database)
    → Tells one_event (mark_needs_review rid cid code digest now db)
unfolding mark_needs_review
mark_needs_review-Tells rid cid code digest now db =
    let c = record no_change {
      error_code = nullable_string code;
      error_digest = nullable_string digest;
    } in
    passes (validate_identifiers rid cid) λ _ _. passes (validate_reason code digest) λ _ _.
      passes (review_target rid db (load_stored_message rid cid db)) λ m _.
        passes (update_message_and_binding rid m.id m.state needs_review c db)
          λ db' _. append_event-Tells rid m.actor_uid _ _ now db'

pub set_room_status-Tells :
    (rid : String) (status : RoomStatus) (now : ℕ) (db : Database)
    → Tells some_event (set_room_status rid status now db)
unfolding set_room_status
set_room_status-Tells rid status now db =
    passes (validate_room_id rid)
      λ _ _. passes (load_room rid db) λ r _. choose r.status (same_status r.status status)
  where
    choose :
        (old : RoomStatus) (b : Bool)
        → Tells some_event (if b then ok (none, db) else change_status rid old status now db)
    choose old true = tells none db tt
    choose old false = passes (update_status rid old status db) λ db' _.
        passes (append_event rid 0 "room/status" (room_status old status) now db') λ q h.
          tells (some q.0) q.1
            (append_event-IsIn rid 0 "room/status" (room_status old status) now db' h, tt)
