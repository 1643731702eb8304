-- ===== src/Store/Connections.antt =====
-- internal/store/repository.go: the connections of the clients and what they acknowledged.
use agent_room.Prelude.{
  ℕ, Bool, true, false, not, ◌&&◌, ◌||◌, [], ◌∷◌, ◌++◌, Option, none, some, String, str_eq, ◌==◌,
  if◌then◌else◌, any, find, update_where, ltb,
}
use agent_room.Result.{
  Result, ok, err, ◌>>=◌, ◌>>◌, guard, invalid_input, invalid_state, member_not_found,
  connection_not_found, invalid_connection_id,
}
use agent_room.Room.Types.{valid_connection_id}
use agent_room.Store.Tables.{ConnectionRow, Database, is_connection, is_member}
use agent_room.Store.Rows.{validate_room_id, require_room}

unfoldable pub require_member_uid : String → ℕ → Database → Result (Unit {0})
unfolding require_room
require_member_uid rid uid db =
    if any (is_member rid uid) db.members
    then ok tt
    else (do require_room rid db; err member_not_found)

-- `DisconnectedAt` is set and lies before `ConnectedAt`.
abbrev pub ends_early : Option ℕ → ℕ → Bool
ends_early none start = false
ends_early (some stop) start = ltb stop start

unfoldable pub connected : ConnectionRow → Database → Result ((Unit {0}) × Database)
unfolding require_member_uid
connected c db = do
  guard (valid_connection_id c.id) invalid_connection_id
  validate_room_id c.room_id
  guard
      (not
        (c.member_uid == 0 || c.connected_at == 0 || ends_early c.disconnected_at c.connected_at))
      invalid_input
  require_member_uid c.room_id c.member_uid db
  guard (not (any (is_connection c.id) db.connections)) invalid_state
  ok (tt, record db { connections = db.connections ++ c ∷ [] })

unfoldable pub load_connection : String → Database → Result ConnectionRow
load_connection id db = elim (find (is_connection id) db.connections) [
  | none ↦ err connection_not_found
  | some c ↦ ok c
]

abbrev pub set_ack : ℕ → ConnectionRow → ConnectionRow
set_ack seq c = record c { last_ack_seq = seq }

-- The update's `WHERE` names the value just read, and the id is the table's key: one row changes.
unfoldable pub ack : String → ℕ → Database → Result ((Unit {0}) × Database)
unfolding load_connection
ack id seq db = do
  guard (valid_connection_id id) invalid_connection_id
  c ← load_connection id db
  guard (not (ltb seq c.last_ack_seq)) invalid_state
  ok (tt, record db { connections = update_where (is_connection id) (set_ack seq) db.connections })

abbrev pub is_open : ConnectionRow → Bool
is_open c = elim c.disconnected_at [ none ↦ true | some t ↦ false ]

abbrev pub close_at : ℕ → ConnectionRow → ConnectionRow
close_at now c = record c { disconnected_at = some now }

unfoldable pub disconnected : String → ℕ → Database → Result ((Unit {0}) × Database)
unfolding load_connection
disconnected id now db = do
  guard (valid_connection_id id) invalid_connection_id
  guard (not (now == 0)) invalid_input
  c ← load_connection id db
  guard (is_open c) invalid_state
  guard (not (ltb now c.connected_at)) invalid_input
  ok (tt, record db { connections = update_where (is_connection id) (close_at now) db.connections })

abbrev pub is_stale : String → ConnectionRow → Bool
is_stale rid c = str_eq c.room_id rid && is_open c

-- Times are numbers here, so no stored time is corrupt.
unfoldable pub close_stale : String → ℕ → Database → Result ((Unit {0}) × Database)
close_stale rid now db = do
  validate_room_id rid
  guard (not (now == 0)) invalid_input
  require_room rid db
  guard (not (any (λ c. is_stale rid c && ltb now c.connected_at) db.connections)) invalid_input
  ok (tt, record db { connections = update_where (is_stale rid) (close_at now) db.connections })
