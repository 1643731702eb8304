-- ===== src/Room/Types.antt =====
-- internal/room/types.go: the states, the inputs of the commands and their validation.
use agent_room.Prelude.{ℕ, Bool, not, ◌&&◌, String, len, str_eq, ◌==◌, all}
use agent_room.Prelude.Int.{ℤ, is_negative}
use agent_room.Prelude.Text.{codes, is_hex, is_blank}
use agent_room.Result.{
  Result, err, ◌>>◌, guard, blank_message, invalid_client_message_id, expected_turn_id,
  invalid_control_kind, invalid_recovery, invalid_task_id,
}

pub data RequestState : Type 0 where
  queued dispatching running completed failed interrupted needs_review : RequestState

-- The state's text, as the database and the event kinds hold it.
abbrev pub state_text : RequestState → String
state_text queued = "queued"
state_text dispatching = "dispatching"
state_text running = "running"
state_text completed = "completed"
state_text failed = "failed"
state_text interrupted = "interrupted"
state_text needs_review = "needs-review"

abbrev pub rank : RequestState → ℕ
rank queued = 0
rank dispatching = 1
rank running = 2
rank completed = 3
rank failed = 4
rank interrupted = 5
rank needs_review = 6

-- `a == b` on states.
abbrev pub same_state : RequestState → RequestState → Bool
same_state a b = rank a == rank b

pub data RoomStatus : Type 0 where
  ready recovering thread_needs_repair : RoomStatus

pub record Actor : Type 0 where
  pub uid : ℕ
  pub name : String

pub record SubmitInput : Type 0 where
  pub task_id : ℤ
  pub client_message_id : String
  pub text : String

pub record SteerInput : Type 0 where
  pub client_message_id : String
  pub expected_turn_id : String
  pub text : String

pub record CancelInput : Type 0 where
  pub client_message_id : String
  pub expected_turn_id : String

-- The type is a text: `other` is any text but the two constants.
pub data ControlKind : Type 0 where
  steer cancel : ControlKind
  other : String → ControlKind

pub record ControlInput : Type 0 where
  pub client_message_id : String
  pub kind : ControlKind
  pub expected_turn_id : String
  pub text : String

pub data RecoveryAction : Type 0 where
  retry skip continue : RecoveryAction
  other : String → RecoveryAction

pub record RecoverInput : Type 0 where
  pub client_message_id : String
  pub target_message_id : String
  pub action : RecoveryAction
  pub replacement_message_id : String
  pub instruction : String

-- An event that is not stored.
pub record TransientEvent : Type 0 where
  pub revision : ℕ
  pub kind : String
  pub thread_id : String
  pub turn_id : String
  pub item_id : String
  pub delta : String

-- A payload is the text of a JSON value.
pub record CompletedItem : Type 0 where
  pub thread_id : String
  pub turn_id : String
  pub item_id : String
  pub payload : String

-- The loop over the bytes: a text with 32 bytes, all of them digits or a to f. A code point beyond
-- ASCII is no such digit, and neither is any of its bytes.
unfoldable pub valid_hex_id : String → Bool
valid_hex_id id = len id == 32 && all is_hex (codes id)

unfoldable pub valid_client_message_id : String → Bool
unfolding valid_hex_id
valid_client_message_id id = valid_hex_id id

unfoldable pub valid_connection_id : String → Bool
unfolding valid_hex_id
valid_connection_id id = valid_hex_id id

unfoldable pub validate_submit : SubmitInput → Result (Unit {0})
validate_submit input = do
  guard (not (is_negative input.task_id)) invalid_task_id
  guard (valid_client_message_id input.client_message_id) invalid_client_message_id
  guard (not (is_blank input.text)) blank_message

unfoldable pub validate_steer : SteerInput → Result (Unit {0})
validate_steer input = do
  guard (valid_client_message_id input.client_message_id) invalid_client_message_id
  guard (not (is_blank input.expected_turn_id)) expected_turn_id
  guard (not (is_blank input.text)) blank_message

unfoldable pub validate_cancel : CancelInput → Result (Unit {0})
validate_cancel input = do
  guard (valid_client_message_id input.client_message_id) invalid_client_message_id
  guard (not (is_blank input.expected_turn_id)) expected_turn_id

-- The `switch` on the kind.
validate_kind : ControlKind → String → Result (Unit {0})
validate_kind steer text = guard (not (is_blank text)) blank_message
validate_kind cancel text = guard (str_eq text "") invalid_control_kind
validate_kind (other _) text = err invalid_control_kind

unfoldable pub validate_control : ControlInput → Result (Unit {0})
unfolding validate_kind
validate_control input = do
  guard (valid_client_message_id input.client_message_id) invalid_client_message_id
  guard (not (is_blank input.expected_turn_id)) expected_turn_id
  validate_kind input.kind input.text

-- The `switch` on the action.
validate_action : RecoveryAction → RecoverInput → Result (Unit {0})
validate_action continue input = do
  guard
      (valid_client_message_id input.replacement_message_id
        && not (str_eq input.replacement_message_id input.client_message_id)
        && not (str_eq input.replacement_message_id input.target_message_id))
      invalid_recovery
  guard (not (is_blank input.instruction)) blank_message
validate_action (other _) input = err invalid_recovery
validate_action _ input =
    guard (str_eq input.replacement_message_id "" && str_eq input.instruction "") invalid_recovery

unfoldable pub validate_recover : RecoverInput → Result (Unit {0})
unfolding validate_action
validate_recover input = do
  guard
      (valid_client_message_id input.client_message_id
        && valid_client_message_id input.target_message_id)
      invalid_client_message_id
  validate_action input.action input
