-- ===== src/Store/Queries.antt =====
-- internal/store/repository.go: the reads of the event log.
use agent_room.Prelude.{
  ℕ, ◌-◌, Bool, not, ◌&&◌, ◌||◌, List, none, some, String, ◌==◌, find, select, take, ltb, leb,
}
use agent_room.Result.{Result, ok, err, ◌>>◌, guard, invalid_input, room_not_found, number_refused}
use agent_room.Store.Tables.{EventRow, Database, is_room, in_room}
use agent_room.Store.Rows.{validate_room_id, require_room}

unfoldable pub latest_seq : String → Database → Result ℕ
latest_seq rid db = do
  validate_room_id rid
  elim (find (is_room rid) db.rooms) [ none ↦ err room_not_found | some r ↦ ok (r.next_seq - 1) ]

abbrev pub in_range : ℕ → ℕ → EventRow → Bool
in_range after through e = ltb after e.seq && (through == 0 || leb e.seq through)

-- The rows stand in the order of their sequence numbers, which grow as events are inserted.
unfoldable pub events_between : String → ℕ → ℕ → ℕ → Database → List EventRow
events_between rid after through limit db =
    take limit (select (λ e. in_room rid e && in_range after through e) db.events)

-- A `uint64` that `database/sql` takes as an argument: its high bit is not set.
abbrev pub is_sql_number : ℕ → Bool
is_sql_number n = ltb n 9223372036854775808

-- `limit` is a number here, so `limit <= 0` is `limit == 0`.
unfoldable pub events : String → ℕ → ℕ → ℕ → Database → Result (List EventRow)
unfolding events_between
events rid after through limit db = do
  validate_room_id rid
  guard (not (limit == 0 || (not (through == 0) && ltb through after))) invalid_input
  require_room rid db
  guard (is_sql_number after && is_sql_number through) number_refused
  ok (events_between rid after through limit db)
