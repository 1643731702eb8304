-- ===== src/Store/Accept.antt =====
-- internal/store/repository.go: the acceptance of a prompt, a note or a control, once for each
-- client message id. SHA-256 over the canonical JSON is the parameter `hash`.
use agent_room.Prelude.{
  ℕ, ◌+◌, Bool, true, false, ◌&&◌, [], ◌∷◌, ◌++◌, Option, none, some, String, str_eq, ◌==◌, find,
  ltb,
}
use agent_room.Prelude.Int.{ℤ, pos, pos_part}
use agent_room.Result.{
  Result, ok, err, ◌>>=◌, ◌>>◌, guard, idempotency_conflict, invalid_input, constraint_failed,
  no_rows,
}
use agent_room.Room.Types.{
  RequestState, queued, dispatching, completed, Actor, SubmitInput, ControlInput, ControlKind,
  validate_submit, validate_control,
}
use agent_room.Store.Tables.{
  MessageKind, prompt, note, steer, cancel, same_kind, Body, plain, control, text_body,
  control_body, Canonical, accepted, MessageRow, BindingRow, EventRow, Database, is_event,
}
use agent_room.Store.Rows.{
  validate_room_id, require_actor, load_stored_message, stored_error_code, allocate_seq,
  insert_event_at,
}
use agent_room.Store.Tasks.{attach_task_message}

pub record Acceptance : Type 0 where
  pub message_id : ℕ
  pub client_message_id : String
  pub seq : ℕ
  pub state : RequestState
  pub error_code : String
  pub duplicate : Bool
  pub event : EventRow

-- The arguments of `accept`, which the three commands fix.
pub record Offer : Type 0 where
  pub actor : Actor
  pub client_message_id : String
  pub kind : MessageKind
  pub body : Body
  pub payload_hash : String
  pub initial : RequestState
  pub binding : Bool
  pub event_kind : String
  pub task_id : ℕ

-- The event at a sequence number, which must be there.
unfoldable pub load_event : String → ℕ → Database → Result EventRow
load_event rid seq db = elim (find (is_event rid seq) db.events) [
  | none ↦ err no_rows
  | some e ↦ ok e
]

-- The stored message is this command's: of its kind, its member and its content.
abbrev pub repeats : Offer → MessageRow → Bool
repeats o m =
    same_kind m.kind o.kind && m.actor_uid == o.actor.uid && str_eq m.payload_hash o.payload_hash

-- A command that was accepted before: the same one is answered from the record.
unfoldable pub accept_again :
    String → Offer → MessageRow → Database → Result (Acceptance × Database)
unfolding load_event stored_error_code
accept_again rid o m db = do
  guard (repeats o m) idempotency_conflict
  event ← load_event rid m.accepted_seq db
  ok (
    record {
      message_id = m.id;
      client_message_id = o.client_message_id;
      seq = m.accepted_seq;
      state = m.state;
      error_code = stored_error_code rid m.id db;
      duplicate = true;
      event = event;
    },
    db,
  )

unfoldable pub insert_message : String → Offer → ℕ → ℕ → Database → Database
insert_message rid o seq now db = record db {
  messages =
      db.messages
      ++ record {
        id = db.last_message_id + 1;
        room_id = rid;
        client_message_id = o.client_message_id;
        actor_uid = o.actor.uid;
        kind = o.kind;
        body = o.body;
        payload_hash = o.payload_hash;
        state = o.initial;
        accepted_seq = seq;
        created_at = now;
      }
        ∷ [];
  last_message_id = db.last_message_id + 1;
}

unfoldable pub attach_if : Bool → String → Actor → ℕ → ℕ → ℕ → Database → Result Database
attach_if true rid actor task_id message_id now db =
    attach_task_message rid actor task_id message_id now db
attach_if false rid actor task_id message_id now db = ok db

-- The turn that a control names is kept with its binding.
abbrev pub control_turn : Body → Option String
control_turn (control turn text) = some turn
control_turn _ = none

abbrev pub binding_row : String → Offer → ℕ → BindingRow
binding_row rid o message_id = record {
  room_id = rid;
  message_id = message_id;
  codex_turn_id = control_turn o.body;
  state = o.initial;
  started_at = none;
  completed_at = none;
  error_code = none;
  error_digest = none;
}

unfoldable pub insert_binding : Bool → String → Offer → ℕ → Database → Database
insert_binding false rid o message_id db = db
insert_binding true rid o message_id db = record db {
  bindings = db.bindings ++ binding_row rid o message_id ∷ [];
}

-- A command seen for the first time. The message's id is fresh and its client id was just looked
-- up, so the keys of messages and bindings cannot refuse the rows.
unfoldable pub accept_new : String → Offer → ℕ → Database → Result (Acceptance × Database)
unfolding insert_message attach_if insert_binding
accept_new rid o now db = do
  require_actor rid o.actor db
  (seq, db1) ← allocate_seq rid db
  let message_id = db1.last_message_id + 1
  let db2 = insert_message rid o seq now db1
  db3 ← attach_if (ltb 0 o.task_id) rid o.actor o.task_id message_id now db2
  let db4 = insert_binding o.binding rid o message_id db3
  (event, db5) ←
      insert_event_at rid seq o.actor.uid o.event_kind
        (accepted o.client_message_id message_id o.kind o.body o.initial) now db4
  ok (
    record {
      message_id = message_id;
      client_message_id = o.client_message_id;
      seq = seq;
      state = o.initial;
      error_code = "";
      duplicate = false;
      event = event;
    },
    db5,
  )

unfoldable pub accept_tx : String → Offer → ℕ → Database → Result (Acceptance × Database)
unfolding accept_again accept_new load_stored_message
accept_tx rid o now db = elim (load_stored_message rid o.client_message_id db) [
  | some m ↦ accept_again rid o m db
  | none ↦ accept_new rid o now db
]

unfoldable pub accept : String → Offer → ℕ → Database → Result (Acceptance × Database)
unfolding validate_room_id accept_tx
accept rid o now db = do validate_room_id rid; accept_tx rid o now db

-- The kinds of a control that the table takes (`CHECK`).
abbrev pub control_message_kind : ControlKind → Result MessageKind
control_message_kind ControlKind.steer = ok steer
control_message_kind ControlKind.cancel = ok cancel
control_message_kind (ControlKind.other _) = err constraint_failed

abbrev pub is_zero : ℤ → Bool
is_zero (pos n) = n == 0
is_zero _ = false

module _ (hash : Canonical → String) where
  abbrev pub prompt_offer : Actor → SubmitInput → Offer
  prompt_offer actor input = record {
    actor = actor;
    client_message_id = input.client_message_id;
    kind = prompt;
    body = plain input.text;
    payload_hash = hash (record {
      kind = prompt;
      actor_uid = actor.uid;
      body = text_body input.text input.task_id;
    });
    initial = queued;
    binding = true;
    event_kind = "message/accepted";
    task_id = pos_part input.task_id;
  }

  abbrev pub note_offer : Actor → SubmitInput → Offer
  note_offer actor input = record {
    actor = actor;
    client_message_id = input.client_message_id;
    kind = note;
    body = plain input.text;
    payload_hash =
        hash (record { kind = note; actor_uid = actor.uid; body = text_body input.text (pos 0) });
    initial = completed;
    binding = false;
    event_kind = "note/accepted";
    task_id = 0;
  }

  abbrev pub control_offer : Actor → ControlInput → MessageKind → Offer
  control_offer actor input kind = record {
    actor = actor;
    client_message_id = input.client_message_id;
    kind = kind;
    body = control input.expected_turn_id input.text;
    payload_hash = hash (record {
      kind = kind;
      actor_uid = actor.uid;
      body = control_body input.expected_turn_id input.text;
    });
    initial = dispatching;
    binding = true;
    event_kind = "control/accepted";
    task_id = 0;
  }

  unfoldable pub accept_message :
      String → Actor → SubmitInput → ℕ → Database → Result (Acceptance × Database)
  unfolding accept
  accept_message rid actor input now db = do
    validate_submit input
    accept rid (prompt_offer actor input) now db

  unfoldable pub append_note :
      String → Actor → SubmitInput → ℕ → Database → Result (Acceptance × Database)
  unfolding accept
  append_note rid actor input now db = do
    guard (is_zero input.task_id) invalid_input
    validate_submit input
    accept rid (note_offer actor input) now db

  unfoldable pub accept_control :
      String → Actor → ControlInput → ℕ → Database → Result (Acceptance × Database)
  unfolding accept
  accept_control rid actor input now db = do
    validate_control input
    kind ← control_message_kind input.kind
    accept rid (control_offer actor input kind) now db
