-- ===== src/Store/Invariant/Connections.antt =====
-- The commands on the connections keep the database well formed: they write to one table of their own.
use agent_room.Prelude.{
  ℕ, not, ◌&&◌, ◌||◌, List, [], ◌∷◌, ◌++◌, String, ◌==◌, any, ltb, update_where,
}
use agent_room.Result.{guard, invalid_input, invalid_state, invalid_connection_id}
use agent_room.Room.Types.{valid_connection_id}
use agent_room.Store.Tables.{ConnectionRow, Database, is_connection}
use agent_room.Store.Rows.{validate_room_id, require_room}
use agent_room.Store.Connections.{
  connected, ack, disconnected, close_stale, load_connection, require_member_uid, ends_early,
  is_open, is_stale, set_ack, close_at,
}
use agent_room.Store.Wellformed.Log.{Grows-refl}
use agent_room.Store.Wellformed.Messages.{Evolves-refl}
use agent_room.Store.Invariant.{IsWellFormed, Follows, Keeps, kept, after}

connections-Follows :
    (cs : List ConnectionRow) (db : Database)
    → IsWellFormed db
    → Follows db (record db { connections = cs })
connections-Follows cs db w = record {
  well_formed = record {
    gap_free = w.gap_free;
    agree = w.agree;
    bounded = w.bounded;
    logged = w.logged;
  };
  evolves = Evolves-refl db.messages;
  appended = Grows-refl db.events;
}

pub connected-Keeps :
    (c : ConnectionRow) (db : Database) → IsWellFormed db → Keeps db (connected c db)
unfolding connected
connected-Keeps c db w = after (guard (valid_connection_id c.id) invalid_connection_id) λ _ _.
    after (validate_room_id c.room_id) λ _ _.
      after
        (guard
          (not (
            c.member_uid == 0
            || c.connected_at == 0
            || ends_early c.disconnected_at c.connected_at))
          invalid_input)
        λ _ _. after (require_member_uid c.room_id c.member_uid db) λ _ _.
          after (guard (not (any (is_connection c.id) db.connections)) invalid_state)
            λ _ _. kept tt _ (connections-Follows (db.connections ++ c ∷ []) db w)

pub ack-Keeps : (id : String) (seq : ℕ) (db : Database) → IsWellFormed db → Keeps db (ack id seq db)
unfolding ack
ack-Keeps id seq db w = after (guard (valid_connection_id id) invalid_connection_id) λ _ _.
    after (load_connection id db) λ c _.
      after (guard (not (ltb seq c.last_ack_seq)) invalid_state) λ _ _.
        kept tt _
          (connections-Follows (update_where (is_connection id) (set_ack seq) db.connections) db w)

pub disconnected-Keeps :
    (id : String) (now : ℕ) (db : Database) → IsWellFormed db → Keeps db (disconnected id now db)
unfolding disconnected
disconnected-Keeps id now db w = after (guard (valid_connection_id id) invalid_connection_id) λ _ _.
    after (guard (not (now == 0)) invalid_input) λ _ _. after (load_connection id db) λ c _.
      after (guard (is_open c) invalid_state) λ _ _.
        after (guard (not (ltb now c.connected_at)) invalid_input) λ _ _.
          kept tt _ (
            connections-Follows (update_where (is_connection id) (close_at now) db.connections) db
              w)

pub close_stale-Keeps :
    (rid : String) (now : ℕ) (db : Database) → IsWellFormed db → Keeps db (close_stale rid now db)
unfolding close_stale
close_stale-Keeps rid now db w = after (validate_room_id rid) λ _ _.
    after (guard (not (now == 0)) invalid_input) λ _ _. after (require_room rid db) λ _ _.
      after
        (guard (not (any (λ c. is_stale rid c && ltb now c.connected_at) db.connections))
          invalid_input)
        λ _ _.
          kept tt _
            (connections-Follows (update_where (is_stale rid) (close_at now) db.connections) db w)
