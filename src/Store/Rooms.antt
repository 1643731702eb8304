-- ===== src/Store/Rooms.antt =====
-- internal/store/repository.go, recovery.go: the creation of the room, its members, its status and
-- the thread that it is bound to.
use agent_room.Prelude.{
  false, all, ℕ, Bool, true, not, ◌&&◌, ◌||◌, List, [], ◌∷◌, ◌++◌, Option, none, some, String,
  str_eq, ◌==◌, if◌then◌else◌, any, find, count, update_where, map, length,
}
use agent_room.Prelude.Text.{is_blank, trim_space}
use agent_room.Result.{
  Result, ok, err, ◌>>=◌, ◌>>◌, guard, invalid_input, invalid_state, room_not_found,
  member_not_found, already_initialized,
}
use agent_room.Room.Types.{RequestState, RoomStatus, ready, recovering, thread_needs_repair}
use agent_room.Store.Tables.{
  room_status, thread_bound, thread_repair, RoomRow, MemberRow, EventRow, Database, is_room,
  is_member,
}
use agent_room.Store.Rows.{validate_room_id, require_room, append_event}
use agent_room.Store.Checks.{validate_reason}

pub record Member : Type 0 where
  pub uid : ℕ
  pub name : String

pub record RoomSeed : Type 0 where
  pub id : String
  pub display_name : String
  pub host_id : String
  pub project_root : String
  pub execution_owner_uid : ℕ
  pub members : List Member

-- The loop over the members; `uids` and `names` are the sets of those that it has seen.
unfoldable pub check_members : List ℕ → List String → List Member → Bool
check_members uids names [] = true
check_members uids names (m ∷ ms) =
    let rest = check_members (m.uid ∷ uids) (m.name ∷ names) ms in
    not (
      m.uid == 0
      || is_blank m.name
      || not (str_eq (trim_space m.name) m.name)
      || any (λ uid. uid == m.uid) uids
      || any (λ name. str_eq name m.name) names)
    && rest

unfoldable pub validate_room_seed : RoomSeed → Result (Unit {0})
unfolding check_members
validate_room_seed seed = do
  guard
      (not (
        is_blank seed.id
        || is_blank seed.display_name
        || is_blank seed.host_id
        || is_blank seed.project_root
        || seed.execution_owner_uid == 0
        || length seed.members == 0))
      invalid_input
  guard (check_members [] [] seed.members) invalid_input
  guard (any (λ m. m.uid == seed.execution_owner_uid) seed.members) invalid_input

abbrev pub schema_version : ℕ
schema_version = 5

abbrev pub member_row : String → ℕ → Member → MemberRow
member_row rid now m = record { room_id = rid; uid = m.uid; username = m.name; added_at = now }

-- The members' keys, unique in the seed, cannot be refused: the database held no room, so no member.
unfoldable pub initialize_room : RoomSeed → ℕ → Database → Result ((Unit {0}) × Database)
unfolding validate_room_seed
initialize_room seed now db = do
  validate_room_seed seed
  guard (length db.rooms == 0) already_initialized
  ok (
    tt,
    record db {
      rooms =
          db.rooms
          ++ record {
            id = seed.id;
            display_name = seed.display_name;
            host_id = seed.host_id;
            project_path = seed.project_root;
            execution_owner_uid = seed.execution_owner_uid;
            codex_thread_id = none;
            status = ready;
            next_seq = 1;
            schema_version = schema_version;
          }
            ∷ [];
      members = db.members ++ map (member_row seed.id now) seed.members;
    },
  )

found_member : String → Database → Option MemberRow → Result Member
unfolding require_room
found_member rid db none = do require_room rid db; err member_not_found
found_member rid db (some m) = ok (record { uid = m.uid; name = m.username })

unfoldable pub find_member : String → ℕ → Database → Result Member
unfolding found_member
find_member rid uid db = do
  validate_room_id rid
  guard (not (uid == 0)) invalid_input
  found_member rid db (find (is_member rid uid) db.members)

abbrev pub status_rank : RoomStatus → ℕ
status_rank ready = 0
status_rank recovering = 1
status_rank thread_needs_repair = 2

abbrev pub same_status : RoomStatus → RoomStatus → Bool
same_status a b = status_rank a == status_rank b

unfoldable pub load_room : String → Database → Result RoomRow
load_room rid db = elim (find (is_room rid) db.rooms) [ none ↦ err room_not_found | some r ↦ ok r ]

abbrev pub put_status : RoomStatus → RoomRow → RoomRow
put_status status r = record r { status = status }

-- `UPDATE rooms SET status = ? WHERE id = ? AND status = ?`, which must change one row.
unfoldable pub update_status : String → RoomStatus → RoomStatus → Database → Result Database
update_status rid old new db = do
  guard (count (λ r. is_room rid r && same_status r.status old) db.rooms == 1) invalid_state
  ok (record db {
    rooms = update_where (λ r. is_room rid r && same_status r.status old) (put_status new) db.rooms;
  })

-- A status that is set already makes no event.
unfoldable pub change_status :
    String → RoomStatus → RoomStatus → ℕ → Database → Result (Option EventRow × Database)
unfolding update_status
change_status rid old new now db = do
  db' ← update_status rid old new db
  (e, db'') ← append_event rid 0 "room/status" (room_status old new) now db'
  ok (some e, db'')

unfoldable pub set_room_status :
    String → RoomStatus → ℕ → Database → Result (Option EventRow × Database)
unfolding load_room change_status
set_room_status rid status now db = do
  validate_room_id rid
  r ← load_room rid db
  if same_status r.status status then ok (none, db) else change_status rid r.status status now db

unfoldable pub mark_thread_needs_repair :
    String → String → String → ℕ → Database → Result (EventRow × Database)
unfolding load_room update_status
mark_thread_needs_repair rid code digest now db = do
  validate_room_id rid
  validate_reason code digest
  r ← load_room rid db
  guard (not (same_status r.status thread_needs_repair)) invalid_state
  db' ← update_status rid r.status thread_needs_repair db
  append_event rid 0 "thread/needs-repair" (thread_repair r.codex_thread_id code digest) now db'

abbrev pub put_thread : String → RoomRow → RoomRow
put_thread thread r = record r { codex_thread_id = some thread }

-- internal/room/types.go: a completed item of a turn; the payload is the text of a JSON value, or
-- `none` for bytes that are no JSON.
pub record SnapshotItem : Type 0 where
  pub thread_id : String
  pub turn_id : String
  pub item_id : String
  pub payload : Option String

-- The state is a text: `none` is any text but the seven states.
pub record TurnSnapshot : Type 0 where
  pub id : String
  pub state : Option RequestState
  pub items : List SnapshotItem

pub record ThreadSnapshot : Type 0 where
  pub id : String
  pub cwd : String
  pub turns : List TurnSnapshot

abbrev pub is_given {ℓ} : {A : Type ℓ} → Option A → Bool
is_given none = false
is_given (some a) = true

abbrev pub valid_item : String → String → SnapshotItem → Bool
valid_item thread turn item =
    str_eq item.thread_id thread
    && str_eq item.turn_id turn
    && not (is_blank item.item_id)
    && is_given item.payload

abbrev pub valid_turn : String → TurnSnapshot → Bool
valid_turn thread turn =
    not (is_blank turn.id) && is_given turn.state && all (valid_item thread turn.id) turn.items

unfoldable pub validate_thread_snapshot : ThreadSnapshot → Result (Unit {0})
validate_thread_snapshot s = do
  guard (not (is_blank s.id || is_blank s.cwd)) invalid_input
  guard (all (valid_turn s.id) s.turns) invalid_input

-- `UPDATE rooms SET codex_thread_id = ? WHERE id = ? AND codex_thread_id IS ?`: the old value was
-- read from a row with this id.
unfoldable pub bind_thread : String → ThreadSnapshot → ℕ → Database → Result (EventRow × Database)
unfolding load_room validate_thread_snapshot
bind_thread rid snapshot now db = do
  validate_room_id rid
  validate_thread_snapshot snapshot
  r ← load_room rid db
  guard (str_eq snapshot.cwd r.project_path) invalid_input
  guard (count (is_room rid) db.rooms == 1) invalid_state
  append_event rid 0 "thread/bound" (thread_bound r.codex_thread_id snapshot.id snapshot.cwd) now
      (record db { rooms = update_where (is_room rid) (put_thread snapshot.id) db.rooms })
