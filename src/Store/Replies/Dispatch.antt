-- ===== src/Store/Replies/Dispatch.antt =====
-- internal/store/repository.go: a queued prompt is handed to the agent once.
use agent_room.Prelude.{
  ◌≡◌, refl, sym, ap, ◌∙◌, inl, inr, true, false, not, ◌||◌, some, String, ◌==◌, find, count, arith,
  Bool-cases, Option-cases, find-update_where, find-holds, eq_iff,
}
use mathlib.Core.Path.{subst}
use agent_room.Result.{ok, err, >>=-eq-ok, invalid_state, after_guards}
use agent_room.Room.Types.{RequestState, queued, dispatching, same_state}
use agent_room.Store.Tables.{MessageRow, Database, is_client_message}
use agent_room.Store.Rows.{
  validate_identifiers, require_message_state, load_stored_message, update_message_and_binding,
  hit_message, hit_binding, set_message_state, contains,
}
use agent_room.Store.Lifecycle.{begin_dispatch, prompts, no_change}

-- What the check of the state has seen.
record IsFound (rid cid : String) (expected : RequestState) (db : Database) (m : MessageRow)
    : Type 0 where
  found : load_stored_message rid cid db ≡ some m
  in_state : same_state m.state expected ≡ true

require_message_state-IsFound :
    (rid cid : String) (db : Database) {m : MessageRow}
    → require_message_state rid cid prompts queued db ≡ ok m
    → IsFound rid cid queued db m
unfolding require_message_state
require_message_state-IsFound rid cid db {m} h =
    elim (Option-cases (load_stored_message rid cid db)) [
      | inl e ↦ absurd (ground (arith, rw (require_message_state, e) at h))
      | inr (x, e) ↦
          elim (Bool-cases (not (same_state x.state queued) || not (contains prompts x.kind))) [
            | inl e1 ↦ absurd (ground (arith, rw (require_message_state, e, e1) at h))
            | inr e1 ↦
                let same : x ≡ m = ground (arith, rw (require_message_state, e, e1) at h) in
                subst (IsFound rid cid queued db) same
                  (record { found = e; in_state = ground arith })
          ]
    ]

stored :
    (rid cid : String) (db : Database) {m : MessageRow}
    → load_stored_message rid cid db ≡ some m
    → find (is_client_message rid cid) db.messages ≡ some m
unfolding load_stored_message
stored rid cid db h = h

moved :
    (rid cid : String) (db db' : Database) {m : MessageRow}
    → load_stored_message rid cid db ≡ some m
    → hit_message rid m.id queued m ≡ true
    → update_message_and_binding rid m.id queued dispatching no_change db ≡ ok db'
    → load_stored_message rid cid db' ≡ some (set_message_state dispatching m)
unfolding load_stored_message update_message_and_binding
moved rid cid db db' {m} h hit k =
    let shape =
      after_guards (count (hit_message rid m.id queued) db.messages == 1)
        (count (hit_binding rid m.id queued) db.bindings == 1) invalid_state invalid_state k in
    ap (λ (d : Database). find (is_client_message rid cid) d.messages) (sym shape)
    ∙ find-update_where (is_client_message rid cid) (hit_message rid m.id queued)
        (set_message_state dispatching) db.messages (λ x. refl)
    ∙ rw (h, hit) refl

refused_state :
    (rid cid : String) (db : Database) {m : MessageRow}
    → load_stored_message rid cid db ≡ some m
    → same_state m.state queued ≡ false
    → require_message_state rid cid prompts queued db ≡ err invalid_state
unfolding require_message_state
refused_state rid cid db h other = rw (require_message_state, h, other) refl

-- A prompt whose dispatch has begun cannot be dispatched a second time: the next attempt is refused
-- as an invalid state.
pub begin_dispatch-once :
    (rid cid : String) (db : Database) {db' : Database}
    → begin_dispatch rid cid db ≡ ok (tt, db')
    → begin_dispatch rid cid db' ≡ err invalid_state
unfolding begin_dispatch
begin_dispatch-once rid cid db {db'} h =
    let (u, valid, h1) = >>=-eq-ok (validate_identifiers rid cid) _ h in
    let (m, read, h2) = >>=-eq-ok (require_message_state rid cid prompts queued db) _ h1 in
    let (d, wrote, h3) =
      >>=-eq-ok (update_message_and_binding rid m.id queued dispatching no_change db) _ h2 in
    let f = require_message_state-IsFound rid cid db read in
    let here = find-holds (is_client_message rid cid) db.messages (stored rid cid db f.found) in
    let hit : hit_message rid m.id queued m ≡ true =
      ground (arith, f.in_state, here, eq_iff m.room_id rid) in
    let shape : d ≡ db' = ground arith in
    let after_it = moved rid cid db d f.found hit wrote in
    subst (λ (x : Database). begin_dispatch rid cid x ≡ err invalid_state) shape
      (rw (begin_dispatch, valid, refused_state rid cid d after_it refl) refl)
