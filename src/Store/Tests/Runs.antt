-- ===== src/Store/Tests/Runs.antt =====
-- The theorems on histories, on a room with a prompt and a note.
use agent_room.Prelude.{ℕ, ◌≡◌, refl, List, ◌++◌, some, map, All}
use agent_room.Prelude.Text.{is_blank}
use agent_room.Result.{ok}
use agent_room.Room.Types.{RequestState, queued, validate_submit, valid_client_message_id}
use agent_room.Store.Tables.{EventRow}
use agent_room.Store.Rows.{
  load_stored_message, set_message_state, require_actor, allocate_seq, insert_event_at,
}
use agent_room.Store.Rooms.{initialize_room}
use agent_room.Store.Accept.{accept_message, append_note}
use agent_room.Store.Commands.{run, exec, empty_database, dispatch}
use agent_room.Store.Queries.{events, latest_seq, events_between}
use agent_room.Store.Invariant.{IsWellFormed, Follows}
use agent_room.Store.History.Steps.{exec-Follows, run-IsWellFormed}
use agent_room.Store.History.Messages.{Reaches, run-load_stored_message, run-final, run-agree}
use agent_room.Store.History.Log.{run-seq_log, empty-IsWellFormed, events-page, run-appends, page}
use agent_room.Store.Wellformed.Log.{seq_log, count_to}
use agent_room.Store.Wellformed.Messages.{Agrees}
use agent_room.Store.Tests.Data.{
  test_hash, opening, opened, turn, first_id, second_id, first_message, second_message,
}

pub test_latest : latest_seq "room" opened ≡ ok 2
unfolding run exec initialize_room accept_message append_note latest_seq is_blank validate_submit
    valid_client_message_id require_actor allocate_seq insert_event_at
test_latest = refl

pub test_first : load_stored_message "room" first_id opened ≡ some first_message
unfolding run exec initialize_room accept_message append_note load_stored_message is_blank
    validate_submit valid_client_message_id require_actor allocate_seq insert_event_at
test_first = refl

test_second : load_stored_message "room" second_id opened ≡ some second_message
unfolding run exec initialize_room accept_message append_note load_stored_message is_blank
    validate_submit valid_client_message_id require_actor allocate_seq insert_event_at
test_second = refl

test_events : events "room" 1 0 10 opened ≡ ok (events_between "room" 1 0 10 opened)
unfolding run exec initialize_room accept_message append_note events events_between is_blank
    validate_submit valid_client_message_id require_actor allocate_seq insert_event_at
test_events = refl

pub opened-IsWellFormed : IsWellFormed opened
opened-IsWellFormed = run-IsWellFormed test_hash opening empty_database empty-IsWellFormed

exec-Follows_example : Follows opened (exec test_hash (dispatch "room" first_id) 40 opened)
exec-Follows_example =
    exec-Follows test_hash (dispatch "room" first_id) 40 opened opened-IsWellFormed

run-seq_log_example : seq_log "room" opened.events ≡ count_to 2
run-seq_log_example = run-seq_log test_hash opening "room" test_latest

run-appends_example :
    (es : List EventRow) × ((run test_hash turn opened).events ≡ opened.events ++ es)
run-appends_example = run-appends test_hash turn opened opened-IsWellFormed

events-page_example :
    (n : ℕ) × (latest_seq "room" opened ≡ ok n)
    × (map (λ e. e.seq) (events_between "room" 1 0 10 opened) ≡ page 1 0 10 n)
events-page_example = events-page "room" 1 0 10 opened opened-IsWellFormed test_events

run-load_stored_message_example :
    (t : RequestState) × (load_stored_message "room" first_id (run test_hash turn opened)
      ≡ some (set_message_state t first_message))
    × Reaches queued t
run-load_stored_message_example =
    run-load_stored_message test_hash turn opened "room" first_id first_message opened-IsWellFormed
      test_first

run-final_example :
    load_stored_message "room" second_id (run test_hash turn opened) ≡ some second_message
run-final_example =
    run-final test_hash turn opened "room" second_id second_message opened-IsWellFormed refl
      test_second

run-agree_example :
    All (Agrees (run test_hash turn opened).messages) (run test_hash turn opened).bindings
run-agree_example = run-agree test_hash turn opened opened-IsWellFormed
