-- ===== src/Store/Tests/Items.antt =====
-- A completed item that is recorded twice, in a room with a thread.
use agent_room.Prelude.{
  Bool-cases, List, String, ℕ, str_eq, inl, inr, ◌≡◌, refl, true, [], ◌∷◌, some,
}
use agent_room.Prelude.Text.{is_blank}
use agent_room.Result.{ok}
use agent_room.Room.Types.{ready, recovering, CompletedItem}
use agent_room.Store.Tables.{item_completed, RoomRow, EventRow, Database}
use agent_room.Store.Rows.{validate_room_id, append_event, allocate_seq, insert_event_at}
use agent_room.Store.Rooms.{load_room, set_room_status, change_status, update_status}
use agent_room.Store.Commands.{Command, record_item, set_status, run, exec, empty_database}
use agent_room.Store.Items
use agent_room.Store.Items.{Json, stored_payload, is_complete, has_short_ids, record_completed_item}
use agent_room.Store.Items.Later.{record_completed_item-once}
use agent_room.Store.Invariant.{IsWellFormed}
use agent_room.Store.Wellformed.Log.{GapFree}
use agent_room.Store.Tests.Data.{test_hash}

abbrev pub plain_json : Json
plain_json = record {
  valid = λ text. true;
  marshal = λ text. text;
  compact = λ text. text;
  omitted = λ bytes sha256. sha256;
  marker_type = λ text. "";
  marker_sha256 = λ text. "";
  hex_sha256 = λ text. text;
}

abbrev threaded_room : ℕ → RoomRow
threaded_room next_seq = record {
  id = "room";
  display_name = "Room";
  host_id = "host";
  project_path = "/work";
  execution_owner_uid = 1;
  codex_thread_id = some "thread";
  status = ready;
  next_seq = next_seq;
  schema_version = 5;
}

abbrev threaded : Database
threaded = record empty_database { rooms = threaded_room 1 ∷ [] }

abbrev greeting : CompletedItem
greeting = record { thread_id = "thread"; turn_id = "turn"; item_id = "item"; payload = "{}" }

abbrev greeting_row : EventRow
greeting_row = record {
  room_id = "room";
  seq = 1;
  actor_uid = 0;
  kind = "item/completed";
  payload = item_completed "thread" "turn" "item" "{}";
  created_at = 10;
}

abbrev greeted : Database
greeted = record threaded { rooms = threaded_room 2 ∷ []; events = greeting_row ∷ [] }

greeting-recorded :
    record_completed_item plain_json "room" greeting 10 threaded ≡ ok (greeting_row, greeted)
unfolding record_completed_item validate_room_id is_complete has_short_ids is_blank load_room
    Items.record_item stored_payload append_event allocate_seq insert_event_at
greeting-recorded = refl

-- Another item is recorded, and the status of the room changes.
abbrev meanwhile : List (Command × ℕ)
meanwhile =
    (record_item plain_json "room" (record greeting { item_id = "other" }), 20)
    ∷ (set_status "room" recovering, 30)
    ∷ []

abbrev later_room : RoomRow
later_room = record (threaded_room 4) { status = recovering }

meanwhile-room : load_room "room" (run test_hash meanwhile greeted) ≡ ok later_room
unfolding record_completed_item validate_room_id is_complete has_short_ids is_blank load_room
    Items.record_item stored_payload append_event allocate_seq insert_event_at run exec
    set_room_status change_status update_status
meanwhile-room = refl

threaded-IsWellFormed : IsWellFormed threaded
threaded-IsWellFormed = record { gap_free = alone; agree = tt; bounded = tt; logged = tt }
  where
    alone : (rid : String) → GapFree rid threaded.rooms []
    alone rid = elim (Bool-cases (str_eq "room" rid)) [
      | inl here ↦ (0, rw here refl, refl)
      | inr other ↦ (0, rw other refl, refl)
    ]

record_completed_item-once_example :
    record_completed_item plain_json "room" greeting 90 (run test_hash meanwhile greeted)
    ≡ ok (greeting_row, run test_hash meanwhile greeted)
record_completed_item-once_example =
    record_completed_item-once test_hash plain_json "room" greeting 10 90 threaded greeted
      greeting_row meanwhile threaded-IsWellFormed greeting-recorded meanwhile-room
