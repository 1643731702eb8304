-- ===== src/Store/Replies/Decision.antt =====
-- internal/store/recovery.go: a decision on a reviewed message is applied once.
use agent_room.Prelude.{
  ℕ, ◌+◌, ◌≡◌, refl, sym, ap, ◌∙◌, inl, inr, true, false, not, ◌&&◌, List, [], ◌∷◌, Option, none,
  some, String, any, find, arith, eq_refl, Bool-cases, Option-cases, find-append_none,
}
use mathlib.Core.Path.{subst}
use agent_room.Result.{Result, ok, err, ◌>>=◌, >>=-eq-ok, guard, idempotency_conflict}
use agent_room.Room.Types.{Actor, RecoverInput, validate_recover}
use agent_room.Store.Tables.{
  Canonical, MessageRow, EventRow, Database, recovery_accepted, is_client_message,
}
use agent_room.Store.Rows.{
  validate_room_id, require_actor, load_stored_message, allocate_seq, insert_event_at,
  set_message_state,
}
use agent_room.Store.Accept.{insert_message, insert_binding}
use agent_room.Store.Recovery.{RecoveryResult, load_recovery_events}
use agent_room.Store.Resolve.{
  act, resolve_new, resolve_again, resolve_review, recovery_offer, reviewed, is_continue,
  repeats_recovery,
}
use agent_room.Store.Invariant.{Keeps-Follows, IsWellFormed, Follows-refl}
use agent_room.Store.Invariant.Actions.{act-Keeps}
use agent_room.Store.Invariant.Resolve.{resolve_review-Keeps}
use agent_room.Store.Invariant.Steps.{SameLog, stored_rows, inserted-Follows, message_row}
use agent_room.Store.Commands.{Command, run, commit}
use agent_room.Store.History.Messages.{run-load_stored_message}

same_tables {ℓ} :
    {A : Type ℓ} {x y : A} {d d' : Database}
    → (let r : Result (A × Database) = ok (x, d) in r) ≡ ok (y, d')
    → d ≡ d'
same_tables k = ground arith

-- A decision that is refused, or answered as one that was taken before.
abbrev pub IsRepeat : Result (RecoveryResult × Database) → Type 0
IsRepeat (err e) = Unit
IsRepeat (ok (r, db)) = (r.duplicate ≡ true) × (r.retry ≡ none)

module _ (hash : Canonical → String) where
  resolve_new-stored :
      (rid : String) (actor : Actor) (input : RecoverInput) (now : ℕ) (db : Database)
      {r : RecoveryResult} {db' : Database}
      → IsWellFormed db
      → load_stored_message rid input.client_message_id db ≡ none
      → resolve_new hash rid actor input now db ≡ ok (r, db')
      → (m : MessageRow) × (load_stored_message rid input.client_message_id db' ≡ some m)
  unfolding resolve_new load_stored_message insert_binding
  resolve_new-stored rid actor input now db {r} {db'} w fresh h =
      let key = is_client_message rid input.client_message_id in
      let (_, _, h1) = >>=-eq-ok (require_actor rid actor db) _ h in
      let (target, _, h2) =
        >>=-eq-ok (reviewed hash (load_stored_message rid input.target_message_id db)) _ h1 in
      let (_, _, h3) =
        >>=-eq-ok
          (guard
            (not (
              is_continue hash input.action
              && any (is_client_message rid input.replacement_message_id) db.messages))
            idempotency_conflict)
          _ h2 in
      let ((seq, db1), a, h4) = >>=-eq-ok (allocate_seq rid db) _ h3 in
      let o = recovery_offer hash actor input in
      let paid = recovery_accepted input.client_message_id input.target_message_id input.action in
      let inserted = insert_message rid o seq now db1 in
      let ((e, db2), i, h5) =
        >>=-eq-ok (insert_event_at rid seq actor.uid "recovery/accepted" paid now inserted) _ h4 in
      let ((res, db3), acted, h6) =
        >>=-eq-ok (act hash input.action rid actor input target now db2) _ h5 in
      let same : SameLog inserted inserted = record {
        rooms = refl;
        messages = refl;
        last_message_id = refl;
        bindings = refl;
        events = refl;
      } in
      let m = message_row rid o (db1.last_message_id + 1) seq now in
      let rows =
        stored_rows rid o false now seq db db1 inserted db2 e "recovery/accepted" paid a same i in
      let fs =
        inserted-Follows rid o false now seq db db1 inserted db2 e "recovery/accepted" paid a same i
          (Follows-refl w) in
      let here : find key db2.messages ≡ some m =
        ap (find key) rows.1.messages
        ∙ find-append_none key db.messages (m ∷ []) fresh
        ∙ rw (eq_refl rid, eq_refl input.client_message_id) refl in
      let moved =
        Keeps-Follows (act-Keeps hash input.action rid actor input target now db2 fs.well_formed)
          acted in
      let (t, found, _) = moved.evolves key (λ x y. refl) m here in
      (set_message_state t m, sym (ap messages_found (same_tables h6)) ∙ found)
    where
      messages_found : Database → Option MessageRow
      messages_found d = find (is_client_message rid input.client_message_id) d.messages

  again-unchanged :
      (rid : String) (actor : Actor) (input : RecoverInput) (m : MessageRow) (db : Database)
      → commit (resolve_again hash rid actor input m db) db ≡ db
  unfolding resolve_again
  again-unchanged rid actor input m db = elim (Bool-cases (repeats_recovery hash actor input m)) [
    | inl e ↦ rw e (choose (load_recovery_events rid m.id db))
    | inr e ↦ rw e refl
  ]
    where
      choose :
          (events : Result (List EventRow))
          → commit {A = RecoveryResult}
              (events >>= λ es. ok (record { duplicate = true; events = es; retry = none }, db))
              db
            ≡ db
      choose (ok es) = refl
      choose (err e) = refl

  again-IsRepeat :
      (rid : String) (actor : Actor) (input : RecoverInput) (m : MessageRow) (db : Database)
      → IsRepeat (resolve_again hash rid actor input m db)
  unfolding resolve_again
  again-IsRepeat rid actor input m db = elim (Bool-cases (repeats_recovery hash actor input m)) [
    | inl e ↦ rw e (choose (load_recovery_events rid m.id db))
    | inr e ↦ rw e tt
  ]
    where
      choose :
          (events : Result (List EventRow))
          → IsRepeat
              (events >>= λ es. ok (record { duplicate = true; events = es; retry = none }, db))
      choose (ok es) = (refl, refl)
      choose (err e) = tt

  known_again :
      (rid : String) (actor : Actor) (input : RecoverInput) (m : MessageRow) (db db' : Database)
      {r : RecoveryResult}
      → load_stored_message rid input.client_message_id db ≡ some m
      → resolve_again hash rid actor input m db ≡ ok (r, db')
      → load_stored_message rid input.client_message_id db' ≡ some m
  unfolding resolve_again
  known_again rid actor input m db db' e h =
      let (_, _, h1) =
        >>=-eq-ok (guard (repeats_recovery hash actor input m) idempotency_conflict) _ h in
      let (es, _, h2) = >>=-eq-ok (load_recovery_events rid m.id db) _ h1 in
      subst (λ d. load_stored_message rid input.client_message_id d ≡ some m) (same_tables h2) e

  -- A decision on a reviewed message is applied once: the same decision that the same member sends
  -- again under the same client message id, at any time and after any history that follows the first
  -- one in a well-formed database, leaves the database as it is. If it is answered and not refused, it
  -- is answered as a duplicate, with nothing to send to the agent again.
  pub resolve_review-once :
      (rid : String) (actor : Actor) (input : RecoverInput) (now later : ℕ) (db : Database)
      (cs : List (Command × ℕ)) {r : RecoveryResult} {db1 : Database}
      → IsWellFormed db
      → resolve_review hash rid actor input now db ≡ ok (r, db1)
      → (commit (resolve_review hash rid actor input later (run hash cs db1)) (run hash cs db1)
          ≡ run hash cs db1)
        × IsRepeat (resolve_review hash rid actor input later (run hash cs db1))
  unfolding resolve_review
  resolve_review-once rid actor input now later db cs {r} {db1} w h =
      let (u, fits, h1) = >>=-eq-ok (validate_recover input) _ h in
      let (u', valid, h2) = >>=-eq-ok (validate_room_id rid) _ h1 in
      let w1 = (Keeps-Follows (resolve_review-Keeps hash rid actor input now db w) h).well_formed in
      let decided : (m : MessageRow) × (load_stored_message rid input.client_message_id db1
            ≡ some m) =
        elim (Option-cases (load_stored_message rid input.client_message_id db)) [
          | inl e ↦ resolve_new-stored rid actor input now db w e (rw e at h2)
          | inr (m, e) ↦ (m, known_again rid actor input m db db1 e (rw e at h2))
        ] in
      let (t, found, _) =
        run-load_stored_message hash cs db1 rid input.client_message_id decided.0 w1 decided.1 in
      let m = set_message_state t decided.0 in
      (
        rw (fits, valid, found) (again-unchanged rid actor input m (run hash cs db1)),
        rw (fits, valid, found) (again-IsRepeat rid actor input m (run hash cs db1)),
      )
