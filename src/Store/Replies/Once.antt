-- ===== src/Store/Replies/Once.antt =====
-- internal/store/repository.go: a command sent again, after any history, is not accepted again, and
-- another one under its id is refused.
use agent_room.Prelude.{
  arith, ℕ, ◌≡◌, ◌≢◌, ◌⊎◌, refl, sym, ap, ◌∙◌, inl, inr, true, false, List, String, some, find,
  find-append, str_eq, eq_iff, ◌==◌, ==_iff, Bool-cases,
}
use mathlib.Core.Path.{subst}
use agent_room.Result.{ok, err, >>=-eq-ok, idempotency_conflict}
use agent_room.Store.Tables.{Canonical, MessageRow, same_kind, EventRow, Database, is_event}
use agent_room.Store.Rows.{
  validate_room_id, set_message_state, load_stored_message, stored_error_code,
}
use agent_room.Store.Accept.{Acceptance, Offer, repeats, accept}
use agent_room.Store.Commands.{Command, run}
use agent_room.Store.Invariant.{IsWellFormed, Keeps-Follows}
use agent_room.Store.Invariant.Accept.{accept-Keeps}
use agent_room.Store.History.Messages.{Reaches, run-load_stored_message}
use agent_room.Store.Replies.Acceptance.{
  IsStored, accept-IsStored, accept-eq-known, accept_again-eq-ok, accept_again-eq-conflict,
}
use agent_room.Store.History.Log.{run-appends}

valid_room :
    (rid : String) (o : Offer) (now : ℕ) (db : Database) {r : Acceptance × Database}
    → accept rid o now db ≡ ok r
    → (u : Unit {0}) × (validate_room_id rid ≡ ok u)
unfolding accept
valid_room rid o now db k = let (u, v, _) = >>=-eq-ok (validate_room_id rid) _ k in (u, v)

-- Another kind of command, another member or another content.
abbrev pub Differs : Offer → Offer → Type 0
Differs o o' =
    (same_kind o.kind o'.kind ≡ false)
    ⊎ (o.actor.uid ≢ o'.actor.uid)
    ⊎ (o.payload_hash ≢ o'.payload_hash)

Differs-repeats :
    (o o' : Offer) (m : MessageRow) → repeats o m ≡ true → Differs o o' → repeats o' m ≡ false
Differs-repeats o o' m same (inl kind) = ground arith
Differs-repeats o o' m same (inr (inl actor)) = elim (Bool-cases (m.actor_uid == o'.actor.uid)) [
  | inl e ↦ absurd (
      actor (
        sym ((==_iff m.actor_uid o.actor.uid).0 (ground arith))
        ∙ (==_iff m.actor_uid o'.actor.uid).0 e))
  | inr e ↦ ground arith
]
Differs-repeats o o' m same (inr (inr hash)) =
    elim (Bool-cases (str_eq m.payload_hash o'.payload_hash)) [
      | inl e ↦ absurd (
          hash (
            sym ((eq_iff m.payload_hash o.payload_hash).0 (ground arith))
            ∙ (eq_iff m.payload_hash o'.payload_hash).0 e))
      | inr e ↦ ground arith
    ]

module _ (hash : Canonical → String) where
  -- An event that is found by its number is found by it after any history.
  still_there :
      (rid : String) (cs : List (Command × ℕ)) (db : Database) (seq : ℕ) {e : EventRow}
      → IsWellFormed db
      → find (is_event rid seq) db.events ≡ some e
      → find (is_event rid seq) (run hash cs db).events ≡ some e
  still_there rid cs db seq w h =
      let (more, grown) = run-appends hash cs db w in
      rw grown (find-append (is_event rid seq) db.events more h)

  -- The message of an acceptance after any history: only its state may have moved.
  known_later :
      (rid : String) (o : Offer) (cs : List (Command × ℕ)) (db1 : Database) {a : Acceptance}
      → IsWellFormed db1
      → IsStored rid o a db1
      → (m : MessageRow) × (load_stored_message rid o.client_message_id (run hash cs db1) ≡ some m)
        × (repeats o m ≡ true)
        × (m.id ≡ a.message_id)
        × (m.accepted_seq ≡ a.seq)
        × Reaches a.state m.state
  known_later rid o cs db1 w1 s =
      let (t, found, moves) =
        run-load_stored_message hash cs db1 rid o.client_message_id s.message w1 s.found in
      (
        set_message_state t s.message,
        found,
        s.this_command,
        s.same_id,
        s.same_seq,
        subst (λ x. Reaches x t) s.same_state moves,
      )

  sent_again :
      (rid : String) (o : Offer) (now later : ℕ) (db : Database) (cs : List (Command × ℕ))
      {a : Acceptance} {db1 : Database}
      → IsWellFormed db
      → accept rid o now db ≡ ok (a, db1)
      → (m : MessageRow) × (m.id ≡ a.message_id)
        × (m.accepted_seq ≡ a.seq)
        × Reaches a.state m.state
        × (find (is_event rid m.accepted_seq) (run hash cs db1).events ≡ some a.event)
        × (accept rid o later (run hash cs db1)
            ≡ ok (
              record {
                message_id = m.id;
                client_message_id = o.client_message_id;
                seq = m.accepted_seq;
                state = m.state;
                error_code = stored_error_code rid m.id (run hash cs db1);
                duplicate = true;
                event = a.event;
              },
              run hash cs db1,
            ))
  sent_again rid o now later db cs {a} {db1} w h =
      let w1 = (Keeps-Follows (accept-Keeps rid o now db w) h).well_formed in
      let s = accept-IsStored rid o now db h in
      let (m, found, same, id, seq, moves) = known_later rid o cs db1 w1 s in
      let (u, valid) = valid_room rid o now db h in
      let there : find (is_event rid m.accepted_seq) (run hash cs db1).events ≡ some a.event =
        rw seq (still_there rid cs db1 a.seq w1 s.at_seq) in
      (
        m,
        id,
        seq,
        moves,
        there,
        accept-eq-known rid o later (run hash cs db1) m valid found
            ∙ accept_again-eq-ok rid o m (run hash cs db1) same there,
      )

  -- The same command sent again, at any time and after any history that follows its acceptance in a
  -- well-formed database, succeeds and leaves the database as it is. It is answered as a duplicate,
  -- with the message id and the sequence number of the first acceptance, and with a state that the
  -- first one's leads to.
  pub accept-once :
      (rid : String) (o : Offer) (now later : ℕ) (db : Database) (cs : List (Command × ℕ))
      {a : Acceptance} {db1 : Database}
      → IsWellFormed db
      → accept rid o now db ≡ ok (a, db1)
      → (b : Acceptance) × (accept rid o later (run hash cs db1) ≡ ok (b, run hash cs db1))
        × (b.duplicate ≡ true)
        × (b.message_id ≡ a.message_id)
        × (b.seq ≡ a.seq)
        × Reaches a.state b.state
  accept-once rid o now later db cs w h =
      let (m, id, seq, moves, _, again) = sent_again rid o now later db cs w h in
      (_, again, refl, id, seq, moves)

  -- The same command sent again, at any time and after any history that follows its acceptance in a
  -- well-formed database, is answered with the very event of the first answer, which stands in the
  -- room's log at its number, and with the error code that the binding of its message has by then.
  pub accept-same_event :
      (rid : String) (o : Offer) (now later : ℕ) (db : Database) (cs : List (Command × ℕ))
      {a : Acceptance} {db1 : Database}
      → IsWellFormed db
      → accept rid o now db ≡ ok (a, db1)
      → (b : Acceptance) × (accept rid o later (run hash cs db1) ≡ ok (b, run hash cs db1))
        × (b.event ≡ a.event)
        × (find (is_event rid b.seq) (run hash cs db1).events ≡ some b.event)
        × (b.error_code ≡ stored_error_code rid a.message_id (run hash cs db1))
  accept-same_event rid o now later db cs {db1 = db1} w h =
      let (m, id, _, _, there, again) = sent_again rid o now later db cs w h in
      (_, again, refl, there, ap (λ n. stored_error_code rid n (run hash cs db1)) id)

  -- Once a command is accepted in a well-formed database, and after any history, another command
  -- under its client message id is refused with idempotency_conflict: one of another kind, of another
  -- member, or with another content.
  pub accept-conflict :
      (rid : String) (o o' : Offer) (now later : ℕ) (db : Database) (cs : List (Command × ℕ))
      {a : Acceptance} {db1 : Database}
      → IsWellFormed db
      → accept rid o now db ≡ ok (a, db1)
      → o'.client_message_id ≡ o.client_message_id
      → Differs o o'
      → accept rid o' later (run hash cs db1) ≡ err idempotency_conflict
  accept-conflict rid o o' now later db cs {a} {db1} w h id other =
      let w1 = (Keeps-Follows (accept-Keeps rid o now db w) h).well_formed in
      let s = accept-IsStored rid o now db h in
      let (m, found, same, _, _, _) = known_later rid o cs db1 w1 s in
      let (u, valid) = valid_room rid o now db h in
      let found' : load_stored_message rid o'.client_message_id (run hash cs db1) ≡ some m =
        ap (λ c. load_stored_message rid c (run hash cs db1)) id ∙ found in
      accept-eq-known rid o' later (run hash cs db1) m valid found'
      ∙ accept_again-eq-conflict rid o' m (run hash cs db1) (Differs-repeats o o' m same other)
