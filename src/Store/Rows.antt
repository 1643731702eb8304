-- ===== src/Store/Rows.antt =====
-- internal/store/repository.go: the queries and updates inside a transaction. A context, a driver's
-- failure and the crash hook of the tests are left out: a query answers, and a commit succeeds.
use agent_room.Prelude.{
  ℕ, ◌+◌, Bool, not, ◌&&◌, ◌||◌, List, [], ◌∷◌, ◌++◌, Option, none, some, String, str_eq, ◌==◌,
  if◌then◌else◌, any, find, count, update_where,
}
use agent_room.Prelude.Text.{is_blank}
use agent_room.Result.{
  Result, ok, err, ◌>>=◌, ◌>>◌, guard, invalid_input, invalid_state, room_not_found,
  member_not_found, message_not_found, constraint_failed, invalid_client_message_id,
}
use agent_room.Room.Types.{RequestState, needs_review, Actor, same_state, valid_client_message_id}
use agent_room.Store.Tables.{
  MessageKind, same_kind, Payload, RoomRow, MessageRow, BindingRow, EventRow, Database, is_room,
  is_member, is_client_message, is_message, is_binding, is_event,
}

-- The end of a transaction, from what its function returned on the database: an error is rolled back,
-- and anything else is committed.
abbrev pub transact {ℓ} : {A : Type ℓ} → Result (A × Database) → Database → Result A × Database
transact (err e) db = (err e, db)
transact (ok (a, db')) db = (ok a, db')

unfoldable pub validate_room_id : String → Result (Unit {0})
validate_room_id rid = guard (not (is_blank rid)) invalid_input

unfoldable pub validate_identifiers : String → String → Result (Unit {0})
unfolding validate_room_id
validate_identifiers rid cid = do
  validate_room_id rid
  guard (valid_client_message_id cid) invalid_client_message_id

unfoldable pub require_room : String → Database → Result (Unit {0})
require_room rid db = guard (any (is_room rid) db.rooms) room_not_found

-- The membership of a row found or not found.
require_name : String → String → Database → Option String → Result (Unit {0})
unfolding require_room
require_name rid wanted db none = do require_room rid db; err member_not_found
require_name rid wanted db (some name) = guard (str_eq name wanted) member_not_found

unfoldable pub require_actor : String → Actor → Database → Result (Unit {0})
unfolding require_name
require_actor rid actor db = do
  guard (not (actor.uid == 0 || is_blank actor.name)) invalid_input
  require_name rid actor.name db
      (elim (find (is_member rid actor.uid) db.members) [ none ↦ none | some m ↦ some m.username ])

-- The message of a client, with the error code of its binding (`LEFT JOIN`).
unfoldable pub load_stored_message : String → String → Database → Option MessageRow
load_stored_message rid cid db = find (is_client_message rid cid) db.messages

unfoldable pub stored_error_code : String → ℕ → Database → String
stored_error_code rid mid db = elim (find (is_binding rid mid) db.bindings) [
  | none ↦ ""
  | some b ↦ elim b.error_code [ none ↦ "" | some code ↦ code ]
]

abbrev pub contains : List MessageKind → MessageKind → Bool
contains kinds kind = any (λ value. same_kind value kind) kinds

require_found :
    String → Database → List MessageKind → RequestState → Option MessageRow → Result MessageRow
unfolding require_room
require_found rid db kinds expected none = do require_room rid db; err message_not_found
require_found rid db kinds expected (some m) =
    if not (same_state m.state expected) || not (contains kinds m.kind)
    then err invalid_state
    else ok m

unfoldable pub require_message_state :
    String → String → List MessageKind → RequestState → Database → Result MessageRow
unfolding require_found load_stored_message
require_message_state rid cid kinds expected db =
    require_found rid db kinds expected (load_stored_message rid cid db)

-- What `updateMessageAndBinding` writes to the binding besides the state; `COALESCE` keeps the old
-- value of a column given as `none`.
pub record Change : Type 0 where
  pub completed_at : Option ℕ
  pub error_code : Option String
  pub error_digest : Option String
  pub turn_id : Option String
  pub started_at : Option ℕ

abbrev pub coalesce {ℓ} : {A : Type ℓ} → Option A → Option A → Option A
coalesce none old = old
coalesce (some a) old = some a

abbrev pub hit_message : String → ℕ → RequestState → MessageRow → Bool
hit_message rid mid old m = is_message rid mid m && same_state m.state old

abbrev pub hit_binding : String → ℕ → RequestState → BindingRow → Bool
hit_binding rid mid old b = is_binding rid mid b && same_state b.state old

abbrev pub set_message_state : RequestState → MessageRow → MessageRow
set_message_state new m = record m { state = new }

abbrev pub set_binding : RequestState → Change → BindingRow → BindingRow
set_binding new c b = record b {
  codex_turn_id = coalesce c.turn_id b.codex_turn_id;
  state = new;
  started_at = coalesce c.started_at b.started_at;
  completed_at = c.completed_at;
  error_code = c.error_code;
  error_digest = c.error_digest;
}

-- The rows that the two updates leave, and the check that each changed one row.
unfoldable pub update_message_and_binding :
    String → ℕ → RequestState → RequestState → Change → Database → Result Database
update_message_and_binding rid mid old new c db = do
  guard (count (hit_message rid mid old) db.messages == 1) invalid_state
  guard (count (hit_binding rid mid old) db.bindings == 1) invalid_state
  ok (record db {
    messages = update_where (hit_message rid mid old) (set_message_state new) db.messages;
    bindings = update_where (hit_binding rid mid old) (set_binding new c) db.bindings;
  })

abbrev pub nullable_string : String → Option String
nullable_string value = if str_eq value "" then none else some value

abbrev pub nullable_completed_at : RequestState → ℕ → Option ℕ
nullable_completed_at state now = if same_state state needs_review then none else some now

abbrev pub bump_seq : RoomRow → RoomRow
bump_seq r = record r { next_seq = r.next_seq + 1 }

-- `UPDATE rooms SET next_seq = next_seq + 1 … RETURNING next_seq - 1`.
unfoldable pub allocate_seq : String → Database → Result (ℕ × Database)
allocate_seq rid db = elim (find (is_room rid) db.rooms) [
  | none ↦ err room_not_found
  | some r ↦ ok (r.next_seq, record db { rooms = update_where (is_room rid) bump_seq db.rooms })
]

-- The primary key (room_id, seq) refuses a second event at a sequence number.
unfoldable pub insert_event_at :
    String → ℕ → ℕ → String → Payload → ℕ → Database → Result (EventRow × Database)
insert_event_at rid seq uid kind payload created_at db =
    let e : EventRow = record {
      room_id = rid;
      seq = seq;
      actor_uid = uid;
      kind = kind;
      payload = payload;
      created_at = created_at;
    } in
    if any (is_event rid seq) db.events
    then err constraint_failed
    else ok (e, record db { events = db.events ++ e ∷ [] })

unfoldable pub append_event :
    String → ℕ → String → Payload → ℕ → Database → Result (EventRow × Database)
unfolding allocate_seq insert_event_at
append_event rid uid kind payload now db = do
  (seq, db') ← allocate_seq rid db
  insert_event_at rid seq uid kind payload now db'
