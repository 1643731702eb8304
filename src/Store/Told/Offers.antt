-- ===== src/Store/Told/Offers.antt =====
-- An acceptance returns a stored event: its own, or the first one's for a duplicate.
use agent_room.Prelude.{
  ℕ, ◌+◌, ◌≡◌, ap, inl, inr, [], Option, none, some, String, arith, ltb, find, Option-cases,
}
use agent_room.Result.{ok, guard, idempotency_conflict, invalid_input}
use agent_room.Room.Types.{Actor, SubmitInput, ControlInput, validate_submit, validate_control}
use agent_room.Store.Tables.{Canonical, MessageRow, EventRow, Database, is_event, accepted}
use agent_room.Store.Rows.{
  allocate_seq, insert_event_at, load_stored_message, validate_room_id, require_actor,
}
use agent_room.Store.Accept.{
  Offer, accept_again, accept_new, accept, accept_message, append_note, accept_control,
  insert_message, insert_binding, attach_if, load_event, prompt_offer, note_offer, control_offer,
  control_message_kind, is_zero, repeats,
}
use agent_room.Store.Wellformed.Log.{insert_event_at-eq-ok}
use agent_room.Store.Told.{IsIn, IsIn-find, Tells, tells, its_event, passes}

load_event-IsIn :
    (rid : String) (seq : ℕ) (db : Database) {e : EventRow}
    → load_event rid seq db ≡ ok e
    → IsIn db.events e
unfolding load_event
load_event-IsIn rid seq db h = elim (Option-cases (find (is_event rid seq) db.events)) [
  | inl missing ↦ absurd (ground arith)
  | inr (x, found) ↦ IsIn-find (is_event rid seq) db.events (rw found (ground arith))
]

accept_again-Tells :
    (rid : String) (o : Offer) (m : MessageRow) (db : Database)
    → Tells its_event (accept_again rid o m db)
unfolding accept_again
accept_again-Tells rid o m db = passes (guard (repeats o m) idempotency_conflict) λ _ _.
    passes (load_event rid m.accepted_seq db)
      λ e h. tells _ db (load_event-IsIn rid m.accepted_seq db h, tt)

accept_new-Tells :
    (rid : String) (o : Offer) (now : ℕ) (db : Database) → Tells its_event (accept_new rid o now db)
unfolding accept_new
accept_new-Tells rid o now db = passes (require_actor rid o.actor db) λ _ _.
    passes (allocate_seq rid db) λ p _.
      let mid = p.1.last_message_id + 1 in
      let db2 = insert_message rid o p.0 now p.1 in
      let paid = accepted o.client_message_id mid o.kind o.body o.initial in
      passes (attach_if (ltb 0 o.task_id) rid o.actor o.task_id mid now db2) λ db3 _.
        let db4 = insert_binding o.binding rid o mid db3 in
        passes (insert_event_at rid p.0 o.actor.uid o.event_kind paid now db4) λ q h.
          let (_, _, _, shape) =
            insert_event_at-eq-ok rid p.0 o.actor.uid o.event_kind paid now db4 h in
          tells _ q.1 ((db4.events, [], ap (λ (d : Database). d.events) shape), tt)

accept-Tells :
    (rid : String) (o : Offer) (now : ℕ) (db : Database) → Tells its_event (accept rid o now db)
unfolding accept
accept-Tells rid o now db =
    passes (validate_room_id rid) λ _ _. choose (load_stored_message rid o.client_message_id db)
  where
    choose :
        (found : Option MessageRow)
        → Tells its_event
            (elim found [ some m ↦ accept_again rid o m db | none ↦ accept_new rid o now db ])
    choose (some m) = accept_again-Tells rid o m db
    choose none = accept_new-Tells rid o now db

module _ (hash : Canonical → String) where
  pub accept_message-Tells :
      (rid : String) (actor : Actor) (input : SubmitInput) (now : ℕ) (db : Database)
      → Tells its_event (accept_message hash rid actor input now db)
  unfolding accept_message
  accept_message-Tells rid actor input now db =
      passes (validate_submit input) λ _ _. accept-Tells rid (prompt_offer hash actor input) now db

  pub append_note-Tells :
      (rid : String) (actor : Actor) (input : SubmitInput) (now : ℕ) (db : Database)
      → Tells its_event (append_note hash rid actor input now db)
  unfolding append_note
  append_note-Tells rid actor input now db =
      passes (guard (is_zero input.task_id) invalid_input) λ _ _.
        passes (validate_submit input) λ _ _. accept-Tells rid (note_offer hash actor input) now db

  pub accept_control-Tells :
      (rid : String) (actor : Actor) (input : ControlInput) (now : ℕ) (db : Database)
      → Tells its_event (accept_control hash rid actor input now db)
  unfolding accept_control
  accept_control-Tells rid actor input now db = passes (validate_control input) λ _ _.
      passes (control_message_kind input.kind)
        λ kind _. accept-Tells rid (control_offer hash actor input kind) now db
