-- ===== src/Store/Lifecycle.antt =====
-- internal/store/repository.go: the transitions of a message from its queueing to its end.
use Prim.Native.String
use agent_room.Prelude.{
  ℕ, Bool, true, false, not, ◌&&◌, ◌||◌, List, [], ◌∷◌, Option, none, some, String, str_eq, any,
  find,
}
use agent_room.Prelude.Text.{is_blank}
use agent_room.Result.{
  Result, ok, err, ◌>>=◌, ◌>>◌, guard, invalid_input, invalid_state, message_not_found,
}
use agent_room.Room.Types.{
  RequestState, queued, dispatching, running, needs_review, same_state, state_text,
}
use agent_room.Store.Tables.{
  MessageKind, prompt, note, steer, cancel, recover, recovery_prompt, same_kind, outcome,
  turn_running, turn_finished, review, MessageRow, BindingRow, EventRow, Database, is_binding,
}
use agent_room.Store.Rows.{
  validate_room_id, validate_identifiers, require_room, load_stored_message, require_message_state,
  Change, contains, update_message_and_binding, nullable_string, nullable_completed_at,
  append_event,
}
use agent_room.Store.Checks.{validate_terminal_outcome, validate_finish_turn, validate_reason}

abbrev pub prompts : List MessageKind
prompts = prompt ∷ recovery_prompt ∷ []

abbrev pub controls : List MessageKind
controls = steer ∷ cancel ∷ []

abbrev pub no_change : Change
no_change = record {
  completed_at = none;
  error_code = none;
  error_digest = none;
  turn_id = none;
  started_at = none;
}

abbrev pub diagnostic : RequestState → String → String → ℕ → Change
diagnostic state code digest now = record {
  completed_at = nullable_completed_at state now;
  error_code = nullable_string code;
  error_digest = nullable_string digest;
  turn_id = none;
  started_at = none;
}

unfoldable pub begin_dispatch : String → String → Database → Result ((Unit {0}) × Database)
begin_dispatch rid cid db = do
  validate_identifiers rid cid
  m ← require_message_state rid cid prompts queued db
  db' ← update_message_and_binding rid m.id queued dispatching no_change db
  ok (tt, db')

-- The end of a control, or of a dispatch that failed: both move a message out of `dispatching`.
unfoldable pub leave_dispatching :
    String
    → String
    → List MessageKind
    → String
    → RequestState
    → String
    → String
    → ℕ
    → Database
    → Result (EventRow × Database)
leave_dispatching rid cid kinds topic state code digest now db = do
  m ← require_message_state rid cid kinds dispatching db
  db' ← update_message_and_binding rid m.id dispatching state (diagnostic state code digest now) db
  append_event rid m.actor_uid (String.◌++◌ topic (state_text state))
      (outcome cid state code digest) now db'

unfoldable pub finish_control :
    String → String → RequestState → String → String → ℕ → Database → Result (EventRow × Database)
unfolding leave_dispatching
finish_control rid cid state code digest now db = do
  validate_identifiers rid cid
  validate_terminal_outcome state code digest true
  leave_dispatching rid cid controls "control/" state code digest now db

unfoldable pub fail_dispatch :
    String → String → RequestState → String → String → ℕ → Database → Result (EventRow × Database)
unfolding leave_dispatching
fail_dispatch rid cid state code digest now db = do
  validate_identifiers rid cid
  validate_terminal_outcome state code digest false
  leave_dispatching rid cid prompts "message/" state code digest now db

unfoldable pub bind_running_turn :
    String → String → String → ℕ → Database → Result (EventRow × Database)
bind_running_turn rid cid turn now db = do
  validate_identifiers rid cid
  guard (not (is_blank turn)) invalid_input
  m ← require_message_state rid cid prompts dispatching db
  db' ←
      update_message_and_binding rid m.id dispatching running
        (record no_change { turn_id = some turn; started_at = some now }) db
  append_event rid m.actor_uid "turn/running" (turn_running cid turn) now db'

abbrev pub names_turn : String → Option String → Bool
names_turn turn none = false
names_turn turn (some t) = str_eq t turn

-- The row of the join in `FinishTurn`.
abbrev pub runs_turn : String → String → List BindingRow → MessageRow → Bool
runs_turn rid turn bindings m =
    str_eq m.room_id rid
    && contains prompts m.kind
    && (same_state m.state running || same_state m.state needs_review)
    && any
        (λ b.
          is_binding rid m.id b && same_state b.state m.state && names_turn turn b.codex_turn_id)
        bindings

unfoldable pub running_turn : String → Database → Option MessageRow → Result MessageRow
unfolding require_room
running_turn rid db none = do require_room rid db; err invalid_state
running_turn rid db (some m) = ok m

unfoldable pub finish_turn :
    String → String → RequestState → String → String → ℕ → Database → Result (EventRow × Database)
unfolding running_turn
finish_turn rid turn state code digest now db = do
  validate_room_id rid
  guard (not (is_blank turn)) invalid_input
  validate_finish_turn state code digest
  m ← running_turn rid db (find (runs_turn rid turn db.bindings) db.messages)
  db' ← update_message_and_binding rid m.id m.state state (diagnostic state code digest now) db
  append_event rid m.actor_uid (String.◌++◌ "turn/" (state_text state))
      (turn_finished turn state code digest) now db'

unfoldable pub review_target : String → Database → Option MessageRow → Result MessageRow
unfolding require_room
review_target rid db none = do require_room rid db; err message_not_found
review_target rid db (some m) = do
  guard (same_state m.state dispatching || same_state m.state running) invalid_state
  guard (not (same_kind m.kind note || same_kind m.kind recover)) invalid_state
  ok m

unfoldable pub mark_needs_review :
    String → String → String → String → ℕ → Database → Result (EventRow × Database)
unfolding review_target load_stored_message
mark_needs_review rid cid code digest now db = do
  validate_identifiers rid cid
  validate_reason code digest
  m ← review_target rid db (load_stored_message rid cid db)
  db' ←
      update_message_and_binding rid m.id m.state needs_review
        (record no_change {
          error_code = nullable_string code;
          error_digest = nullable_string digest;
        })
        db
  append_event rid m.actor_uid "message/needs-review" (review cid code digest) now db'
