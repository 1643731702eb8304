-- ===== src/Store/Invariant/Accept.antt =====
-- The acceptance of a command keeps the database well formed and every stored message as it is.
use agent_room.Prelude.{ℕ, ◌+◌, Option, none, some, String, ltb}
use agent_room.Result.{guard, invalid_input, idempotency_conflict}
use agent_room.Room.Types.{Actor, SubmitInput, ControlInput, validate_submit, validate_control}
use agent_room.Store.Tables.{MessageRow, Database, Canonical, accepted}
use agent_room.Store.Rows.{
  validate_room_id, require_actor, load_stored_message, allocate_seq, insert_event_at,
}
use agent_room.Store.Accept.{
  Offer, accept_again, accept_new, accept, accept_message, append_note, accept_control,
  insert_message, insert_binding, attach_if, load_event, prompt_offer, note_offer, control_offer,
  control_message_kind, is_zero, repeats,
}
use agent_room.Store.Invariant.{IsWellFormed, Follows-refl, Keeps, kept, after}
use agent_room.Store.Invariant.Steps.{attach_if-SameLog, insert_binding-SameLog, inserted-Follows}

accept_new-Keeps :
    (rid : String) (o : Offer) (now : ℕ) (db : Database)
    → IsWellFormed db
    → Keeps db (accept_new rid o now db)
unfolding accept_new
accept_new-Keeps rid o now db w = after (require_actor rid o.actor db) λ _ _.
    after (allocate_seq rid db) λ p a.
      let mid = p.1.last_message_id + 1 in
      let db2 = insert_message rid o p.0 now p.1 in
      let paid = accepted o.client_message_id mid o.kind o.body o.initial in
      after (attach_if (ltb 0 o.task_id) rid o.actor o.task_id mid now db2) λ db3 t.
        after
          (insert_event_at rid p.0 o.actor.uid o.event_kind paid now
            (insert_binding o.binding rid o mid db3))
          λ q i. kept _ q.1 (
            inserted-Follows rid o o.binding now p.0 db p.1 (insert_binding o.binding rid o mid db3)
              q.1 q.0 o.event_kind paid a
              (insert_binding-SameLog o.binding rid o mid db2 db3
                (attach_if-SameLog (ltb 0 o.task_id) rid o.actor o.task_id mid now db2 t))
              i (Follows-refl w))

accept_again-Keeps :
    (rid : String) (o : Offer) (m : MessageRow) (db : Database)
    → IsWellFormed db
    → Keeps db (accept_again rid o m db)
unfolding accept_again
accept_again-Keeps rid o m db w =
    after (guard (repeats o m) idempotency_conflict)
      λ _ _. after (load_event rid m.accepted_seq db) λ e _. kept _ db (Follows-refl w)

pub accept-Keeps :
    (rid : String) (o : Offer) (now : ℕ) (db : Database)
    → IsWellFormed db
    → Keeps db (accept rid o now db)
unfolding accept
accept-Keeps rid o now db w =
    after (validate_room_id rid) λ _ _. choose (load_stored_message rid o.client_message_id db)
  where
    choose :
        (found : Option MessageRow)
        → Keeps db
            (elim found [ some m ↦ accept_again rid o m db | none ↦ accept_new rid o now db ])
    choose (some m) = accept_again-Keeps rid o m db w
    choose none = accept_new-Keeps rid o now db w

module _ (hash : Canonical → String) where
  pub accept_message-Keeps :
      (rid : String) (actor : Actor) (input : SubmitInput) (now : ℕ) (db : Database)
      → IsWellFormed db
      → Keeps db (accept_message hash rid actor input now db)
  unfolding accept_message
  accept_message-Keeps rid actor input now db w =
      after (validate_submit input) λ _ _. accept-Keeps rid (prompt_offer hash actor input) now db w

  pub append_note-Keeps :
      (rid : String) (actor : Actor) (input : SubmitInput) (now : ℕ) (db : Database)
      → IsWellFormed db
      → Keeps db (append_note hash rid actor input now db)
  unfolding append_note
  append_note-Keeps rid actor input now db w =
      after (guard (is_zero input.task_id) invalid_input) λ _ _.
        after (validate_submit input) λ _ _. accept-Keeps rid (note_offer hash actor input) now db w

  pub accept_control-Keeps :
      (rid : String) (actor : Actor) (input : ControlInput) (now : ℕ) (db : Database)
      → IsWellFormed db
      → Keeps db (accept_control hash rid actor input now db)
  unfolding accept_control
  accept_control-Keeps rid actor input now db w = after (validate_control input) λ _ _.
      after (control_message_kind input.kind)
        λ kind _. accept-Keeps rid (control_offer hash actor input kind) now db w
