-- ===== src/Store/Tests/Decisions.antt =====
-- The theorem on decisions, on a prompt that was sent to review and is tried again.
use agent_room.Prelude.{ℕ, ◌≡◌, refl, false, List, [], ◌∷◌, none, String}
use agent_room.Prelude.Text.{is_blank}
use agent_room.Result.{ok}
use agent_room.Room.Types.{
  RecoverInput, RecoveryAction, queued, validate_submit, validate_recover, valid_client_message_id,
}
use agent_room.Store.Tables.{Database, recovery_accepted, recovery_retried}
use agent_room.Store.Rows.{
  require_actor, allocate_seq, insert_event_at, validate_identifiers, require_message_state,
  update_message_and_binding, append_event,
}
use agent_room.Store.Checks.{validate_reason, valid_error_code, valid_digest}
use agent_room.Store.Rooms.{initialize_room}
use agent_room.Store.Accept.{accept_message, append_note}
use agent_room.Store.Lifecycle.{begin_dispatch, mark_needs_review}
use agent_room.Store.Recovery.{RecoveryResult, reset_reviewed_prompt}
use agent_room.Store.Resolve.{resolve_review}
use agent_room.Store.Commands.{Command, run, exec, commit, dispatch, send_to_review, resolve}
use agent_room.Store.History.Steps.{run-IsWellFormed}
use agent_room.Store.Replies.Decision.{IsRepeat, resolve_review-once}
use agent_room.Store.Tests.Data.{test_hash, ada, opened, turn, first_id, third_id}
use agent_room.Store.Tests.Runs.{opened-IsWellFormed}

abbrev digest : String
digest = "0000000000000000000000000000000000000000000000000000000000000000"

abbrev doubtful : List (Command × ℕ)
doubtful =
    (dispatch "room" first_id, 40)
    ∷ (send_to_review "room" first_id "delivery-unknown" digest, 45)
    ∷ []

abbrev in_review : Database
in_review = run test_hash doubtful opened

abbrev decision : RecoverInput
decision = record {
  client_message_id = third_id;
  target_message_id = first_id;
  action = RecoveryAction.retry;
  replacement_message_id = "";
  instruction = "";
}

abbrev decided : Database
decided = run test_hash ((resolve "room" ada decision, 60) ∷ []) in_review

abbrev answer : RecoveryResult
answer = record {
  duplicate = false;
  events =
      record {
        room_id = "room";
        seq = 4;
        actor_uid = 1;
        kind = "recovery/accepted";
        payload = recovery_accepted third_id first_id RecoveryAction.retry;
        created_at = 60;
      }
      ∷ record {
        room_id = "room";
        seq = 5;
        actor_uid = 1;
        kind = "recovery/retried";
        payload = recovery_retried first_id queued;
        created_at = 60;
      }
      ∷ [];
  retry = none;
}

test_decision : resolve_review test_hash "room" ada decision 60 in_review ≡ ok (answer, decided)
unfolding run exec initialize_room accept_message append_note begin_dispatch mark_needs_review
    resolve_review is_blank validate_submit validate_recover validate_reason valid_client_message_id
    require_actor allocate_seq insert_event_at append_event validate_identifiers
    require_message_state update_message_and_binding valid_error_code valid_digest
    reset_reviewed_prompt
test_decision = refl

resolve_review-once_example :
    (commit
        (resolve_review test_hash "room" ada decision 90 (run test_hash turn decided))
        (run test_hash turn decided)
      ≡ run test_hash turn decided)
    × IsRepeat (resolve_review test_hash "room" ada decision 90 (run test_hash turn decided))
resolve_review-once_example =
    resolve_review-once test_hash "room" ada decision 60 90 in_review turn
      (run-IsWellFormed test_hash doubtful opened opened-IsWellFormed) test_decision
