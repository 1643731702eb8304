-- ===== src/Store/Replies/Acceptance.antt =====
-- internal/store/repository.go: a command is accepted once for each client message id.
use agent_room.Prelude.{
  ℕ, ◌+◌, ◌≡◌, refl, inl, inr, true, false, [], ◌∷◌, none, some, String, eq_iff, eq_refl, ltb, find,
  arith, Option-cases, find-append_none, find-holds, find_of_any, ap, ◌∙◌, ==_iff,
}
use mathlib.Core.Path.{subst, subst₂}
use agent_room.Store.Wellformed.Log.{insert_event_at-eq-ok}
use agent_room.Result.{ok, err, >>=-eq-ok, guard, guard-eq-ok, idempotency_conflict}
use agent_room.Store.Tables.{MessageRow, EventRow, Database, accepted, is_client_message, is_event}
use agent_room.Store.Rows.{
  validate_room_id, load_stored_message, require_actor, allocate_seq, insert_event_at,
  stored_error_code,
}
use agent_room.Store.Accept.{
  Acceptance, Offer, load_event, repeats, accept_again, accept_new, accept_tx, accept, attach_if,
  insert_binding, insert_message,
}
use agent_room.Store.Invariant.Steps.{
  attach_if-SameLog, insert_binding-SameLog, stored_rows, message_row,
}

stored-find :
    (rid cid : String) (db : Database) {m : MessageRow}
    → load_stored_message rid cid db ≡ some m
    → find (is_client_message rid cid) db.messages ≡ some m
unfolding load_stored_message
stored-find rid cid db h = h

client_message-room :
    (rid cid : String) (db : Database) {m : MessageRow}
    → load_stored_message rid cid db ≡ some m
    → m.room_id ≡ rid
client_message-room rid cid db {m} h =
    let hit = find-holds (is_client_message rid cid) db.messages (stored-find rid cid db h) in
    ground (arith, hit, eq_iff m.room_id rid)

-- A stored command that is sent again is answered from its record, and another one is refused.
pub accept-eq-known :
    (rid : String) (o : Offer) (now : ℕ) (db : Database) (m : MessageRow) {u : Unit {0}}
    → validate_room_id rid ≡ ok u
    → load_stored_message rid o.client_message_id db ≡ some m
    → accept rid o now db ≡ accept_again rid o m db
unfolding accept accept_tx
accept-eq-known rid o now db m v h = rw (accept, v, accept_tx, h) refl

pub accept_again-eq-conflict :
    (rid : String) (o : Offer) (m : MessageRow) (db : Database)
    → repeats o m ≡ false
    → accept_again rid o m db ≡ err idempotency_conflict
unfolding accept_again
accept_again-eq-conflict rid o m db other = rw (accept_again, other) refl

pub accept_again-eq-ok :
    (rid : String) (o : Offer) (m : MessageRow) (db : Database) {e : EventRow}
    → repeats o m ≡ true
    → find (is_event rid m.accepted_seq) db.events ≡ some e
    → accept_again rid o m db
      ≡ ok (
        record {
          message_id = m.id;
          client_message_id = o.client_message_id;
          seq = m.accepted_seq;
          state = m.state;
          error_code = stored_error_code rid m.id db;
          duplicate = true;
          event = e;
        },
        db,
      )
unfolding accept_again load_event
accept_again-eq-ok rid o m db same found = rw (accept_again, same, load_event, found) refl

load_event-found :
    (rid : String) (seq : ℕ) (db : Database) {e : EventRow}
    → load_event rid seq db ≡ ok e
    → find (is_event rid seq) db.events ≡ some e
unfolding load_event
load_event-found rid seq db h = elim (Option-cases (find (is_event rid seq) db.events)) [
  | inl missing ↦ absurd (ground arith)
  | inr (x, at) ↦ at ∙ ap some (ground arith)
]

-- What an acceptance leaves: the message that it names, stored as this command's.
pub record IsStored (rid : String) (o : Offer) (a : Acceptance) (db : Database) : Type 0 where
  pub message : MessageRow
  pub found : load_stored_message rid o.client_message_id db ≡ some message
  pub this_command : repeats o message ≡ true
  pub same_id : message.id ≡ a.message_id
  pub same_seq : message.accepted_seq ≡ a.seq
  pub same_state : message.state ≡ a.state
  -- The event of the answer stands in the room's log at the number of the answer.
  pub at_seq : find (is_event rid a.seq) db.events ≡ some a.event

accept_again-IsStored :
    (rid : String) (o : Offer) (m : MessageRow) (db : Database) {a : Acceptance} {db' : Database}
    → load_stored_message rid o.client_message_id db ≡ some m
    → accept_again rid o m db ≡ ok (a, db')
    → IsStored rid o a db'
unfolding accept_again
accept_again-IsStored rid o m db {a} {db'} h k =
    let (_, same, k1) = >>=-eq-ok (guard (repeats o m) idempotency_conflict) _ k in
    let (e, read, k2) = >>=-eq-ok (load_event rid m.accepted_seq db) _ k1 in
    let shape : db ≡ db' = ground arith in
    let number : m.accepted_seq ≡ a.seq = ground arith in
    let event : e ≡ a.event = ground arith in
    subst (IsStored rid o a) shape (record {
      message = m;
      found = h;
      this_command = guard-eq-ok (repeats o m) idempotency_conflict same;
      same_id = ground arith;
      same_seq = ground arith;
      same_state = ground arith;
      at_seq =
          subst₂ (λ n x. find (is_event rid n) db.events ≡ some x) number event
            (load_event-found rid m.accepted_seq db read);
    })

accept_new-IsStored :
    (rid : String) (o : Offer) (now : ℕ) (db : Database) {a : Acceptance} {db' : Database}
    → load_stored_message rid o.client_message_id db ≡ none
    → accept_new rid o now db ≡ ok (a, db')
    → IsStored rid o a db'
unfolding accept_new load_stored_message
accept_new-IsStored rid o now db {a} {db'} h k =
    let (_, _, k1) = >>=-eq-ok (require_actor rid o.actor db) _ k in
    let ((seq, db1), given, k2) = >>=-eq-ok (allocate_seq rid db) _ k1 in
    let mid = db1.last_message_id + 1 in
    let db2 = insert_message rid o seq now db1 in
    let (db3, t, k3) =
      >>=-eq-ok (attach_if (ltb 0 o.task_id) rid o.actor o.task_id mid now db2) _ k2 in
    let paid = accepted o.client_message_id mid o.kind o.body o.initial in
    let db4 = insert_binding o.binding rid o mid db3 in
    let ((e, db5), i, k4) =
      >>=-eq-ok (insert_event_at rid seq o.actor.uid o.event_kind paid now db4) _ k3 in
    let shape : db5 ≡ db' = ground arith in
    let m = message_row rid o mid seq now in
    let number : seq ≡ a.seq = ground arith in
    let event : e ≡ a.event = ground arith in
    let (in_rid, at, free, log) =
      insert_event_at-eq-ok rid seq o.actor.uid o.event_kind paid now db4 i in
    let here : is_event rid seq e ≡ true =
      rw (in_rid, at) (rw (eq_refl rid) ((==_iff seq seq).1 refl)) in
    let logged : find (is_event rid seq) db5.events ≡ some e = rw log (
      rw
        (find-append_none (is_event rid seq) db4.events (e ∷ [])
          (find_of_any (is_event rid seq) db4.events free))
        (rw here refl)) in
    let rows =
      stored_rows rid o o.binding now seq db db1 db4 db5 e o.event_kind paid given
        (insert_binding-SameLog o.binding rid o mid db2 db3
          (attach_if-SameLog (ltb 0 o.task_id) rid o.actor o.task_id mid now db2 t))
        i in
    let stored : find (is_client_message rid o.client_message_id) db5.messages ≡ some m =
      rw
        (
          rows.1.messages,
          find-append_none (is_client_message rid o.client_message_id) db.messages (m ∷ []) h,
        )
        (rw (eq_refl rid, eq_refl o.client_message_id) refl) in
    subst (IsStored rid o a) shape (record {
      message = m;
      found = stored;
      this_command = rw (eq_refl o.payload_hash) (ground arith);
      same_id = ground arith;
      same_seq = ground arith;
      same_state = ground arith;
      at_seq = subst₂ (λ n x. find (is_event rid n) db5.events ≡ some x) number event logged;
    })

pub accept-IsStored :
    (rid : String) (o : Offer) (now : ℕ) (db : Database) {a : Acceptance} {db' : Database}
    → accept rid o now db ≡ ok (a, db')
    → IsStored rid o a db'
unfolding accept accept_tx
accept-IsStored rid o now db {a} {db'} k =
    let (_, _, k1) = >>=-eq-ok (validate_room_id rid) _ k in
    elim (Option-cases (load_stored_message rid o.client_message_id db)) [
      | inl h ↦ accept_new-IsStored rid o now db h (rw (accept_tx, h) at k1)
      | inr (m, h) ↦ accept_again-IsStored rid o m db h (rw (accept_tx, h) at k1)
    ]
