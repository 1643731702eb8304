-- ===== src/Store/Replies/Acks.antt =====
-- internal/store/repository.go: what a client has acknowledged only grows.
use agent_room.Prelude.{
  List, [], ℕ, ◌≤◌, ◌≡◌, refl, ap, ◌∙◌, inl, inr, false, not, some, String, str_eq, eq_iff, ltb,
  find, update_where, arith, Option-cases, find-update_where, find-holds,
}
use mathlib.Core.Path.{subst}
use agent_room.Result.{
  Result, ok, err, >>=-eq-ok, guard, guard-eq-ok, invalid_connection_id, invalid_state,
}
use agent_room.Room.Types.{valid_connection_id}
use agent_room.Store.Tables.{ConnectionRow, Database, is_connection}
use agent_room.Store.Connections.{ack, load_connection, set_ack}

loaded :
    (id : String) (db : Database) {c : ConnectionRow}
    → load_connection id db ≡ ok c
    → find (is_connection id) db.connections ≡ some c
unfolding load_connection
loaded id db h = elim (Option-cases (find (is_connection id) db.connections)) [
  | inl e ↦ absurd (ground (arith, rw (load_connection, e) at h))
  | inr (x, e) ↦ e ∙ ap some (ground (arith, rw (load_connection, e) at h))
]

elsewhere :
    (id k : String) (seq : ℕ) (cs : List ConnectionRow)
    → str_eq id k ≡ false
    → find (is_connection k) (update_where (is_connection id) (set_ack seq) cs)
      ≡ find (is_connection k) cs
elsewhere id k seq cs other =
    find-update_where (is_connection k) (is_connection id) (set_ack seq) cs (λ x. refl)
    ∙ elim (Option-cases (find (is_connection k) cs)) [
      | inl e ↦ rw e refl
      | inr (x, e) ↦
          let here = find-holds (is_connection k) cs e in
          let miss : is_connection id x ≡ false =
            ground (arith, eq_iff x.id k, eq_iff x.id id, eq_iff id k) in
          rw (e, miss) refl
    ]

-- An acknowledgement that is taken does not fall behind the connection's last one. It becomes that
-- connection's last one, with nothing else of it changed, and leaves every other connection as it is.
pub ack-grows :
    (id : String) (seq : ℕ) (db : Database) {db' : Database}
    → ack id seq db ≡ ok (tt, db')
    → (c : ConnectionRow) × (find (is_connection id) db.connections ≡ some c)
      × (c.last_ack_seq ≤ seq)
      × (find (is_connection id) db'.connections ≡ some (record c { last_ack_seq = seq }))
      × ((k : String)
          → str_eq id k ≡ false
          → find (is_connection k) db'.connections ≡ find (is_connection k) db.connections)
unfolding ack load_connection
ack-grows id seq db {db'} h =
    let (_, _, h1) = >>=-eq-ok (guard (valid_connection_id id) invalid_connection_id) _ h in
    let (c, read, h2) = >>=-eq-ok (load_connection id db) _ h1 in
    let (u, passed, h3) = >>=-eq-ok (guard (not (ltb seq c.last_ack_seq)) invalid_state) _ h2 in
    let test = guard-eq-ok (not (ltb seq c.last_ack_seq)) invalid_state passed in
    let found = loaded id db read in
    let shape : update_where (is_connection id) (set_ack seq) db.connections ≡ db'.connections =
      ap connections_of h3 in
    let hit = find-holds (is_connection id) db.connections found in
    (
      c,
      found,
      ground arith,
      subst (λ cs. find (is_connection id) cs ≡ some (record c { last_ack_seq = seq })) shape
          (rw
            (
              find-update_where (is_connection id) (is_connection id) (set_ack seq) db.connections
                  (λ x. refl),
              found,
              hit,
            )
            refl),
      λ k other.
          subst (λ cs. find (is_connection k) cs ≡ find (is_connection k) db.connections) shape
            (elsewhere id k seq db.connections other),
    )
  where
    connections_of : Result ((Unit {0}) × Database) → List ConnectionRow
    connections_of (ok (u, d)) = d.connections
    connections_of (err e) = []
