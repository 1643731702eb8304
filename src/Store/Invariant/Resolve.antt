-- ===== src/Store/Invariant/Resolve.antt =====
-- The decision on a reviewed message, taken once, keeps the database well formed.
use agent_room.Prelude.{ℕ, refl, false, not, ◌&&◌, List, Option, none, some, String, any}
use agent_room.Result.{Result, ◌>>=◌, guard, idempotency_conflict}
use agent_room.Room.Types.{Actor, RecoverInput, validate_recover}
use agent_room.Store.Tables.{
  Canonical, MessageRow, Database, RecoveryRow, RecoveryEventRow, recovery_accepted,
  is_client_message,
}
use agent_room.Store.Rows.{
  validate_room_id, require_actor, load_stored_message, allocate_seq, insert_event_at,
}
use agent_room.Store.Accept.{insert_message, insert_binding}
use agent_room.Store.Recovery.{load_recovery_events}
use agent_room.Store.Resolve.{
  resolve_new, resolve_again, resolve_review, recovery_offer, reviewed, is_continue,
  repeats_recovery,
}
use agent_room.Store.Moves.{Extends}
use agent_room.Store.Wellformed.Log.{Grows, Grows-trans}
use agent_room.Store.Wellformed.Messages.{Extends-Evolves}
use agent_room.Store.Invariant.{IsWellFormed, Follows, Follows-refl, Keeps, kept, refused, after}
use agent_room.Store.Invariant.Steps.{SameLog, inserted-Follows, inserted-Extends}
use agent_room.Store.Invariant.Actions.{act-Keeps}

-- The rule for a step from a database that holds more messages.
beyond {ℓ κ} :
    {A : Type ℓ} {B : Type κ} {old mid : Database} {m : Result (A × Database)}
    {f : A → Database → Result (B × Database)}
    → Extends old.messages mid.messages
    → Grows old.events mid.events
    → Keeps mid m
    → ((a : A) (db : Database) → Follows old db → Keeps old (f a db))
    → Keeps old (m >>= λ p. f p.0 p.1)
beyond ext more (refused e) h = refused e
beyond {old = old} {mid = mid} ext more (kept a db fs) h = h a db (record {
  well_formed = fs.well_formed;
  evolves = Extends-Evolves old.messages mid.messages db.messages ext fs.evolves;
  appended = Grows-trans old.events mid.events db.events more fs.appended;
})

-- The tables that record the decision are not among those of the invariant.
with_links :
    {old db : Database} {rs : List RecoveryRow} {es : List RecoveryEventRow}
    → Follows old db
    → Follows old (record db { recoveries = rs; recovery_events = es })
with_links fs = record {
  well_formed = record {
    gap_free = fs.well_formed.gap_free;
    agree = fs.well_formed.agree;
    bounded = fs.well_formed.bounded;
    logged = fs.well_formed.logged;
  };
  evolves = fs.evolves;
  appended = fs.appended;
}

module _ (hash : Canonical → String) where
  -- The message of the decision is inserted, and then the target is moved.
  resolve_new-Keeps :
      (rid : String) (actor : Actor) (input : RecoverInput) (now : ℕ) (db : Database)
      → IsWellFormed db
      → Keeps db (resolve_new hash rid actor input now db)
  unfolding resolve_new insert_binding
  resolve_new-Keeps rid actor input now db w = after (require_actor rid actor db) λ _ _.
      after (reviewed hash (load_stored_message rid input.target_message_id db)) λ target _.
        after
          (guard
            (not (
              is_continue hash input.action
              && any (is_client_message rid input.replacement_message_id) db.messages))
            idempotency_conflict)
          λ _ _. after (allocate_seq rid db) λ p a.
            let o = recovery_offer hash actor input in
            let db1 = insert_message rid o p.0 now p.1 in
            let paid =
              recovery_accepted input.client_message_id input.target_message_id input.action in
            after (insert_event_at rid p.0 actor.uid "recovery/accepted" paid now db1) λ q i.
              let same : SameLog db1 db1 = record {
                rooms = refl;
                messages = refl;
                last_message_id = refl;
                bindings = refl;
                events = refl;
              } in
              let fs =
                inserted-Follows rid o false now p.0 db p.1 db1 q.1 q.0 "recovery/accepted" paid a
                  same i (Follows-refl w) in
              let ext =
                inserted-Extends rid o false now p.0 db p.1 db1 q.1 q.0 "recovery/accepted" paid a
                  same i in
              beyond ext fs.appended
                (act-Keeps hash input.action rid actor input target now q.1 fs.well_formed)
                λ result db3 gs. kept _ _ (with_links gs)

  resolve_again-Keeps :
      (rid : String) (actor : Actor) (input : RecoverInput) (m : MessageRow) (db : Database)
      → IsWellFormed db
      → Keeps db (resolve_again hash rid actor input m db)
  unfolding resolve_again
  resolve_again-Keeps rid actor input m db w =
      after (guard (repeats_recovery hash actor input m) idempotency_conflict)
        λ _ _. after (load_recovery_events rid m.id db) λ _ _. kept _ db (Follows-refl w)

  pub resolve_review-Keeps :
      (rid : String) (actor : Actor) (input : RecoverInput) (now : ℕ) (db : Database)
      → IsWellFormed db
      → Keeps db (resolve_review hash rid actor input now db)
  unfolding resolve_review
  resolve_review-Keeps rid actor input now db w = after (validate_recover input) λ _ _.
      after (validate_room_id rid)
        λ _ _. choose (load_stored_message rid input.client_message_id db)
    where
      choose :
          (found : Option MessageRow)
          → Keeps db (elim found [
            | some m ↦ resolve_again hash rid actor input m db
            | none ↦ resolve_new hash rid actor input now db
          ])
      choose (some m) = resolve_again-Keeps rid actor input m db w
      choose none = resolve_new-Keeps rid actor input now db w
