-- ===== src/Store/Tests/Answers.antt =====
-- The theorems on the acceptance of a command, on a room with a prompt and a note.
use agent_room.Prelude.{◌≡◌, refl, true, false, [], ◌∷◌, inl, inr, some, find, arith}
use agent_room.Prelude.Text.{is_blank}
use agent_room.Result.{ok, err, idempotency_conflict}
use agent_room.Room.Types.{queued, Actor, validate_submit, valid_client_message_id}
use agent_room.Store.Tables.{Database, is_event, accepted, prompt, plain}
use agent_room.Store.Rows.{require_actor, allocate_seq, insert_event_at, stored_error_code}
use agent_room.Store.Rooms.{initialize_room}
use agent_room.Store.Accept.{Acceptance, accept_message, append_note, accept, prompt_offer}
use agent_room.Store.Commands.{run, exec, submit}
use agent_room.Store.History.Messages.{Reaches}
use agent_room.Store.Replies.Once.{accept-once, accept-same_event, accept-conflict}
use agent_room.Store.Tests.Data.{test_hash, ada, opened, turn, third_id, third_input}
use agent_room.Store.Tests.Runs.{opened-IsWellFormed}

abbrev third : Acceptance
third = record {
  message_id = 3;
  client_message_id = third_id;
  seq = 3;
  state = queued;
  error_code = "";
  duplicate = false;
  event = record {
    room_id = "room";
    seq = 3;
    actor_uid = 1;
    kind = "message/accepted";
    payload = accepted third_id 3 prompt (plain "deploy") queued;
    created_at = 35;
  };
}

abbrev after_third : Database
after_third = run test_hash ((submit "room" ada third_input, 35) ∷ []) opened

test_third :
    accept "room" (prompt_offer test_hash ada third_input) 35 opened ≡ ok (third, after_third)
unfolding run exec initialize_room accept_message append_note accept is_blank validate_submit
    valid_client_message_id require_actor allocate_seq insert_event_at
test_third = refl

accept-once_example :
    (b : Acceptance) × (accept "room"
        (prompt_offer test_hash ada third_input)
        70
        (run test_hash turn after_third)
      ≡ ok (b, run test_hash turn after_third))
    × (b.duplicate ≡ true)
    × (b.message_id ≡ 3)
    × (b.seq ≡ 3)
    × Reaches queued b.state
accept-once_example =
    accept-once test_hash "room" (prompt_offer test_hash ada third_input) 35 70 opened turn
      opened-IsWellFormed test_third

accept-same_event_example :
    (b : Acceptance) × (accept "room"
        (prompt_offer test_hash ada third_input)
        70
        (run test_hash turn after_third)
      ≡ ok (b, run test_hash turn after_third))
    × (b.event ≡ third.event)
    × (find (is_event "room" b.seq) (run test_hash turn after_third).events ≡ some b.event)
    × (b.error_code ≡ stored_error_code "room" 3 (run test_hash turn after_third))
accept-same_event_example =
    accept-same_event test_hash "room" (prompt_offer test_hash ada third_input) 35 70 opened turn
      opened-IsWellFormed test_third

-- Another member sends the same text under the same id.
abbrev grace : Actor
grace = record { uid = 2; name = "grace" }

accept-conflict_example :
    accept "room" (prompt_offer test_hash grace third_input) 70 (run test_hash turn after_third)
    ≡ err idempotency_conflict
accept-conflict_example =
    accept-conflict test_hash "room" (prompt_offer test_hash ada third_input)
      (prompt_offer test_hash grace third_input) 35 70 opened turn opened-IsWellFormed test_third
      refl (inr (inl (λ h. absurd (omega (arith, h)))))
