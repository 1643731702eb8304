-- ===== src/Store/Tests/Data.antt =====
-- A room with two members, in which one has sent a prompt and a note.
use agent_room.Prelude.{ℕ, List, [], ◌∷◌, String}
use agent_room.Prelude.Int.{pos}
use agent_room.Room.Types.{Actor, SubmitInput, queued, completed}
use agent_room.Store.Tables.{
  Canonical, Database, MessageRow, note, prompt, plain, SemanticBody, text_body, control_body,
  recovery_body, kind_text,
}
use agent_room.Store.Rooms.{RoomSeed}
use agent_room.Store.Commands.{
  Command, initialize, submit, remark, dispatch, bind_turn, end_turn, run, empty_database,
}
use Prim.Native.String

abbrev pub hash_body : SemanticBody → String
hash_body (text_body text task_id) = text
hash_body (control_body turn text) = String.◌++◌ turn text
hash_body (recovery_body target action replacement instruction) = String.◌++◌ target instruction

-- A digest that tells the commands of the tests apart.
abbrev pub test_hash : Canonical → String
test_hash c = String.◌++◌ (kind_text c.kind) (hash_body c.body)

abbrev pub ada : Actor
ada = record { uid = 1; name = "ada" }

abbrev pub seed : RoomSeed
seed = record {
  id = "room";
  display_name = "Room";
  host_id = "host";
  project_root = "/srv/room";
  execution_owner_uid = 1;
  members = record { uid = 1; name = "ada" } ∷ record { uid = 2; name = "bob" } ∷ [];
}

abbrev pub first_id : String
first_id = "00000000000000000000000000000001"

abbrev pub second_id : String
second_id = "00000000000000000000000000000002"

abbrev pub first_input : SubmitInput
first_input = record { task_id = pos 0; client_message_id = first_id; text = "build" }

abbrev pub second_input : SubmitInput
second_input = record { task_id = pos 0; client_message_id = second_id; text = "test" }

abbrev pub opening : List (Command × ℕ)
opening =
    (initialize seed, 10)
    ∷ (submit "room" ada first_input, 20)
    ∷ (remark "room" ada second_input, 30)
    ∷ []

abbrev pub opened : Database
opened = run test_hash opening empty_database

-- The prompt is run to its end.
abbrev pub turn : List (Command × ℕ)
turn =
    (dispatch "room" first_id, 40)
    ∷ (bind_turn "room" first_id "turn", 50)
    ∷ (end_turn "room" "turn" completed "" "", 60)
    ∷ []

abbrev pub first_message : MessageRow
first_message = record {
  id = 1;
  room_id = "room";
  client_message_id = first_id;
  actor_uid = 1;
  kind = prompt;
  body = plain "build";
  payload_hash = "promptbuild";
  state = queued;
  accepted_seq = 1;
  created_at = 20;
}

abbrev pub second_message : MessageRow
second_message = record {
  id = 2;
  room_id = "room";
  client_message_id = second_id;
  actor_uid = 1;
  kind = note;
  body = plain "test";
  payload_hash = "notetest";
  state = completed;
  accepted_seq = 2;
  created_at = 30;
}

abbrev pub third_id : String
third_id = "00000000000000000000000000000003"

abbrev pub third_input : SubmitInput
third_input = record { task_id = pos 0; client_message_id = third_id; text = "deploy" }
