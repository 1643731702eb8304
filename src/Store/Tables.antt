-- ===== src/Store/Tables.antt =====
-- The tables of internal/store/schema, as lists of rows in the order of insertion, and the values
-- that internal/store keeps in them. A time is a number of nanoseconds (the zero time is 0), where
-- the database holds it as a text; a column that may be NULL is an `Option`.
use agent_room.Prelude.{ℕ, Bool, ◌&&◌, List, Option, String, str_eq, ◌==◌}
use agent_room.Prelude.Int.{ℤ}
use agent_room.Room.Types.{RequestState, RoomStatus, RecoveryAction}

pub data MessageKind : Type 0 where
  prompt note steer cancel recover recovery_prompt : MessageKind

abbrev pub kind_text : MessageKind → String
kind_text prompt = "prompt"
kind_text note = "note"
kind_text steer = "steer"
kind_text cancel = "cancel"
kind_text recover = "recover"
kind_text recovery_prompt = "recovery-prompt"

abbrev pub kind_rank : MessageKind → ℕ
kind_rank prompt = 0
kind_rank note = 1
kind_rank steer = 2
kind_rank cancel = 3
kind_rank recover = 4
kind_rank recovery_prompt = 5

-- `a == b` on kinds.
abbrev pub same_kind : MessageKind → MessageKind → Bool
same_kind a b = kind_rank a == kind_rank b

-- A message's body: the text, or the JSON of a control or of a recovery command.
pub data Body : Type 0 where
  plain : String → Body
  control : (expected_turn_id text : String) → Body
  recovery :
      (target_message_id : String) (action : RecoveryAction)
      (replacement_message_id instruction : String)
      → Body

-- What is marshalled to JSON, and hashed, to identify a command.
pub data SemanticBody : Type 0 where
  text_body : (text : String) (task_id : ℤ) → SemanticBody
  control_body : (expected_turn_id text : String) → SemanticBody
  recovery_body :
      (target_message_id : String) (action : RecoveryAction)
      (replacement_message_id instruction : String)
      → SemanticBody

pub record Canonical : Type 0 where
  pub kind : MessageKind
  pub actor_uid : ℕ
  pub body : SemanticBody

-- The payloads of the events, which the code marshals to JSON.
pub data Payload : Type 0 where
  accepted :
      (client_message_id : String) (message_id : ℕ) (kind : MessageKind) (body : Body)
      (state : RequestState)
      → Payload
  outcome :
      (client_message_id : String) (state : RequestState) (error_code error_digest : String)
      → Payload
  turn_running : (client_message_id turn_id : String) → Payload
  turn_finished :
      (turn_id : String) (state : RequestState) (error_code error_digest : String) → Payload
  review : (client_message_id code detail_digest : String) → Payload
  room_status : (previous current : RoomStatus) → Payload
  thread_bound : (previous_thread_id : Option String) (thread_id cwd : String) → Payload
  thread_repair : (thread_id : Option String) (code detail_digest : String) → Payload
  recovery_accepted :
      (client_message_id target_message_id : String) (action : RecoveryAction) → Payload
  recovery_retried : (target_message_id : String) (state : RequestState) → Payload
  recovery_closed :
      (target_message_id : String) (state : RequestState) (error_code : String) → Payload
  item_completed : (thread_id turn_id item_id payload : String) → Payload

pub record RoomRow : Type 0 where
  pub id : String
  pub display_name : String
  pub host_id : String
  pub project_path : String
  pub execution_owner_uid : ℕ
  pub codex_thread_id : Option String
  pub status : RoomStatus
  pub next_seq : ℕ
  pub schema_version : ℕ

pub record MemberRow : Type 0 where
  pub room_id : String
  pub uid : ℕ
  pub username : String
  pub added_at : ℕ

pub record RoleRow : Type 0 where
  pub room_id : String
  pub uid : ℕ
  pub role : String

pub record MessageRow : Type 0 where
  pub id : ℕ
  pub room_id : String
  pub client_message_id : String
  pub actor_uid : ℕ
  pub kind : MessageKind
  pub body : Body
  pub payload_hash : String
  pub state : RequestState
  pub accepted_seq : ℕ
  pub created_at : ℕ

pub record BindingRow : Type 0 where
  pub room_id : String
  pub message_id : ℕ
  pub codex_turn_id : Option String
  pub state : RequestState
  pub started_at : Option ℕ
  pub completed_at : Option ℕ
  pub error_code : Option String
  pub error_digest : Option String

pub record EventRow : Type 0 where
  pub room_id : String
  pub seq : ℕ
  pub actor_uid : ℕ
  pub kind : String
  pub payload : Payload
  pub created_at : ℕ

pub record ConnectionRow : Type 0 where
  pub id : String
  pub room_id : String
  pub member_uid : ℕ
  pub connected_at : ℕ
  pub disconnected_at : Option ℕ
  pub last_ack_seq : ℕ

pub record TaskRow : Type 0 where
  pub id : ℕ
  pub room_id : String
  pub number : ℕ
  pub source_message_id : ℕ
  pub source_seq : ℕ
  pub title : String
  pub acceptance : String
  pub revision : ℕ
  pub created_at : ℕ
  pub updated_at : ℕ
  pub completed_at : Option ℕ
  pub completed_by : String

pub record TaskMessageRow : Type 0 where
  pub room_id : String
  pub task_id : ℕ
  pub message_id : ℕ

pub record TaskChangeRow : Type 0 where
  pub room_id : String
  pub task_id : ℕ
  pub action : String
  pub actor : String
  pub created_at : ℕ
  pub note : String

pub record RecoveryRow : Type 0 where
  pub recovery_message_id : ℕ
  pub room_id : String
  pub target_message_id : ℕ
  pub action : RecoveryAction

pub record RecoveryEventRow : Type 0 where
  pub recovery_message_id : ℕ
  pub ordinal : ℕ
  pub room_id : String
  pub seq : ℕ

-- `last_message_id` is the AUTOINCREMENT counter of messages.
pub record Database : Type 0 where
  pub rooms : List RoomRow
  pub members : List MemberRow
  pub roles : List RoleRow
  pub messages : List MessageRow
  pub last_message_id : ℕ
  pub bindings : List BindingRow
  pub events : List EventRow
  pub connections : List ConnectionRow
  pub tasks : List TaskRow
  pub task_messages : List TaskMessageRow
  pub task_changes : List TaskChangeRow
  pub recoveries : List RecoveryRow
  pub recovery_events : List RecoveryEventRow

-- The keys of the tables, as tests for a `WHERE`.
abbrev pub is_room : String → RoomRow → Bool
is_room rid r = str_eq r.id rid

abbrev pub is_member : String → ℕ → MemberRow → Bool
is_member rid uid m = str_eq m.room_id rid && m.uid == uid

abbrev pub is_client_message : String → String → MessageRow → Bool
is_client_message rid cid m = str_eq m.room_id rid && str_eq m.client_message_id cid

abbrev pub is_message : String → ℕ → MessageRow → Bool
is_message rid mid m = str_eq m.room_id rid && m.id == mid

abbrev pub is_binding : String → ℕ → BindingRow → Bool
is_binding rid mid b = str_eq b.room_id rid && b.message_id == mid

abbrev pub in_room : String → EventRow → Bool
in_room rid e = str_eq e.room_id rid

abbrev pub is_event : String → ℕ → EventRow → Bool
is_event rid seq e = str_eq e.room_id rid && e.seq == seq

abbrev pub is_connection : String → ConnectionRow → Bool
is_connection id c = str_eq c.id id

abbrev pub is_task : String → ℕ → TaskRow → Bool
is_task rid id t = str_eq t.room_id rid && t.id == id
