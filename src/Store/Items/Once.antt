-- ===== src/Store/Items/Once.antt =====
-- internal/store/repository.go: completed history is immutable.
use agent_room.Prelude.{
  inl, inr, Bool-cases, if◌then◌else◌, ℕ, ◌≡◌, refl, true, [], ◌∷◌, Option, none, some, String,
  eq_refl, find, find-append_none, find-holds, find-update_where, arith,
}
use mathlib.Core.Path.{subst}
use agent_room.Result.{err, ok, guard, >>=-eq-ok, guard-eq-ok, invalid_input, invalid_state}
use agent_room.Room.Types.{CompletedItem}
use agent_room.Store.Tables.{Payload, item_completed, RoomRow, EventRow, Database, is_room}
use agent_room.Store.Rows.{validate_room_id, append_event, allocate_seq, insert_event_at, bump_seq}
use agent_room.Store.Rooms.{load_room}
use agent_room.Store.Invariant.{IsWellFormed, Follows-refl, Keeps, after, append_event-Keeps, kept}
use agent_room.Store.Told.{Tells, tells, one_event, passes, append_event-Tells, IsIn-find}
use agent_room.Store.Wellformed.Log.{append_event-eq-ok}
use agent_room.Store.Items.{
  Json, stored_payload, same_payload, is_item, payload_text, holds_thread, record_item,
  record_completed_item, is_complete, has_short_ids,
}

pub record_completed_item-Keeps :
    (json : Json) (rid : String) (item : CompletedItem) (now : ℕ) (db : Database)
    → IsWellFormed db
    → Keeps db (record_completed_item json rid item now db)
unfolding record_completed_item record_item
record_completed_item-Keeps json rid item now db w = after (validate_room_id rid) λ _ _.
    after (guard (is_complete json item) invalid_input) λ _ _.
      after (guard (has_short_ids item) invalid_input) λ _ _. after (load_room rid db) λ r _.
        after (guard (holds_thread item.thread_id r.codex_thread_id) invalid_state)
          λ _ _. choose (find (is_item rid item) db.events)
  where
    choose :
        (found : Option EventRow)
        → Keeps db (record_item json rid item (stored_payload json item.payload) now db found)
    choose none = append_event-Keeps rid 0 _ _ now db db (Follows-refl w)
    choose (some e) =
        after
          (guard (same_payload json (payload_text e.payload) (stored_payload json item.payload))
            invalid_state)
          λ _ _. kept e db (Follows-refl w)

pub record_completed_item-Tells :
    (json : Json) (rid : String) (item : CompletedItem) (now : ℕ) (db : Database)
    → Tells one_event (record_completed_item json rid item now db)
unfolding record_completed_item record_item
record_completed_item-Tells json rid item now db = passes (validate_room_id rid) λ _ _.
    passes (guard (is_complete json item) invalid_input) λ _ _.
      passes (guard (has_short_ids item) invalid_input) λ _ _. passes (load_room rid db) λ r _.
        passes (guard (holds_thread item.thread_id r.codex_thread_id) invalid_state)
          λ _ _. choose (find (is_item rid item) db.events) refl
  where
    choose :
        (found : Option EventRow)
        → find (is_item rid item) db.events ≡ found
        → Tells one_event
            (record_item json rid item (stored_payload json item.payload) now db found)
    choose none at = append_event-Tells rid 0 _ _ now db
    choose (some e) at =
        passes
          (guard (same_payload json (payload_text e.payload) (stored_payload json item.payload))
            invalid_state)
          λ _ _. tells e db (IsIn-find (is_item rid item) db.events at, tt)

-- The row that `append_event` adds, and what it leaves of the room.
append_event-row :
    (rid : String) (uid : ℕ) (kind : String) (payload : Payload) (now : ℕ) (db : Database)
    {e : EventRow} {db' : Database}
    → append_event rid uid kind payload now db ≡ ok (e, db')
    → (e.kind ≡ kind) × (e.payload ≡ payload)
unfolding append_event insert_event_at
append_event-row rid uid kind payload now db {e} {db'} h =
    let ((seq, db1), a, b) =
      >>=-eq-ok (allocate_seq rid db)
        (λ (p : ℕ × Database). insert_event_at rid p.0 uid kind payload now p.1) h in
    (ground (arith, b), ground (arith, b))

-- The item is found in the log at `e`, with the same payload, on the thread of the room.
pub record Holds (json : Json) (rid : String) (item : CompletedItem) (e : EventRow) (db : Database)
    : Type 0 where
  pub room : RoomRow
  pub loaded : load_room rid db ≡ ok room
  pub on_thread : holds_thread item.thread_id room.codex_thread_id ≡ true
  pub found : find (is_item rid item) db.events ≡ some e
  pub same : same_payload json (payload_text e.payload) (stored_payload json item.payload) ≡ true

same_payload_refl : (json : Json) (copy : String) → same_payload json copy copy ≡ true
unfolding same_payload
same_payload_refl json copy = rw (eq_refl (json.compact copy)) refl

load_room-append :
    (rid : String) (uid : ℕ) (kind : String) (payload : Payload) (now : ℕ) (db : Database)
    {r : RoomRow} {e : EventRow} {db' : Database}
    → load_room rid db ≡ ok r
    → append_event rid uid kind payload now db ≡ ok (e, db')
    → load_room rid db' ≡ ok (bump_seq r)
unfolding load_room
load_room-append rid uid kind payload now db {r} h k =
    let (r', found, _, _, shape) = append_event-eq-ok rid uid kind payload now db k in
    let same : r' ≡ r = ground (arith, rw (load_room, found) at h) in
    let hit = find-holds (is_room rid) db.rooms found in
    let moved = find-update_where (is_room rid) (is_room rid) bump_seq db.rooms (λ x. refl) in
    rw shape (rw (load_room, moved, found) (rw hit (rw same refl)))

record_item-Holds :
    (json : Json) (rid : String) (item : CompletedItem) (now : ℕ) (db : Database)
    (found : Option EventRow) {r : RoomRow} {e : EventRow} {db' : Database}
    → load_room rid db ≡ ok r
    → holds_thread item.thread_id r.codex_thread_id ≡ true
    → find (is_item rid item) db.events ≡ found
    → record_item json rid item (stored_payload json item.payload) now db found ≡ ok (e, db')
    → Holds json rid item e db'
unfolding record_item
record_item-Holds json rid item now db none {r} {e} {db'} loaded on at h =
    let copy = stored_payload json item.payload in
    let paid = item_completed item.thread_id item.turn_id item.item_id copy in
    let (_, _, in_rid, _, shape) = append_event-eq-ok rid 0 "item/completed" paid now db h in
    let (kind, payload) = append_event-row rid 0 "item/completed" paid now db h in
    record {
      room = bump_seq r;
      loaded = load_room-append rid 0 "item/completed" paid now db loaded h;
      on_thread = on;
      found = rw shape (
          rw (find-append_none (is_item rid item) db.events (e ∷ []) at) (
            rw (in_rid, kind, payload)
              (rw (eq_refl rid, eq_refl item.thread_id, eq_refl item.turn_id, eq_refl item.item_id)
                refl)));
      same = rw payload (same_payload_refl json copy);
    }
record_item-Holds json rid item now db (some x) {r} {e} {db'} loaded on at h =
    let copy = stored_payload json item.payload in
    let (_, passed, rest) =
      >>=-eq-ok (guard (same_payload json (payload_text x.payload) copy) invalid_state) _ h in
    let one : x ≡ e = ground (arith, rest) in
    let kept_db : db ≡ db' = ground (arith, rest) in
    subst (Holds json rid item e) kept_db (
      subst (λ y. Holds json rid item y db) one
        (record {
          room = r;
          loaded = loaded;
          on_thread = on;
          found = at;
          same = guard-eq-ok _ _ passed;
        }))

pub record_completed_item-Holds :
    (json : Json) (rid : String) (item : CompletedItem) (now : ℕ) (db : Database) {e : EventRow}
    {db' : Database}
    → record_completed_item json rid item now db ≡ ok (e, db')
    → Holds json rid item e db'
unfolding record_completed_item
record_completed_item-Holds json rid item now db h =
    let (_, _, k0) = >>=-eq-ok (validate_room_id rid) _ h in
    let (_, _, k1) = >>=-eq-ok (guard (is_complete json item) invalid_input) _ k0 in
    let (_, _, k2) = >>=-eq-ok (guard (has_short_ids item) invalid_input) _ k1 in
    let (r, h3, k3) = >>=-eq-ok (load_room rid db) _ k2 in
    let (_, h4, k4) =
      >>=-eq-ok (guard (holds_thread item.thread_id r.codex_thread_id) invalid_state) _ k3 in
    record_item-Holds json rid item now db _ h3 (guard-eq-ok _ _ h4) refl k4

-- Where the room is on the item's thread, what was recorded of it decides.
pub record_completed_item-known :
    (json : Json) (rid : String) (item : CompletedItem) (now later : ℕ) (db new : Database)
    {r : RoomRow} {e : EventRow} {db' : Database}
    → record_completed_item json rid item now db ≡ ok (e, db')
    → load_room rid new ≡ ok r
    → find (is_item rid item) new.events ≡ some e
    → record_completed_item json rid item later new
      ≡ (if holds_thread item.thread_id r.codex_thread_id then ok (e, new) else err invalid_state)
unfolding record_completed_item record_item
record_completed_item-known json rid item now later db new {r} h loaded found =
    let held = record_completed_item-Holds json rid item now db h in
    let (_, h0, k0) = >>=-eq-ok (validate_room_id rid) _ h in
    let (_, h1, k1) = >>=-eq-ok (guard (is_complete json item) invalid_input) _ k0 in
    let (_, h2, _) = >>=-eq-ok (guard (has_short_ids item) invalid_input) _ k1 in
    elim (Bool-cases (holds_thread item.thread_id r.codex_thread_id)) [
      | inl on ↦ rw (h0, h1, h2, loaded) (rw on (rw found (rw held.same refl)))
      | inr off ↦ rw (h0, h1, h2, loaded) (rw off refl)
    ]
