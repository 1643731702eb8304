-- ===== src/Store/Invariant/Rooms.antt =====
-- The commands on the room and on the connections keep the database well formed.
use mathlib.Core.Path.{subst}
use agent_room.Prelude.{
  ℕ, ◌≡◌, refl, ap, ◌∙◌, Bool, true, false, not, ◌&&◌, List, [], ◌∷◌, ◌++◌, none, some, String,
  str_eq, ◌==◌, ==_iff, arith, length, find, count, update_where, if◌then◌else◌,
}
use agent_room.Result.{
  ok, guard, guard-eq-ok, after_guard, already_initialized, invalid_input, invalid_state,
}
use agent_room.Room.Types.{RoomStatus, thread_needs_repair}
use agent_room.Store.Tables.{RoomRow, EventRow, Database, is_room, room_status}
use agent_room.Store.Rows.{validate_room_id, append_event}
use agent_room.Store.Rooms.{
  RoomSeed, ThreadSnapshot, validate_thread_snapshot, initialize_room, set_room_status,
  mark_thread_needs_repair, bind_thread, update_status, change_status, load_room, put_status,
  put_thread, same_status, validate_room_seed,
}
use agent_room.Store.Checks.{validate_reason}
use agent_room.Store.Wellformed.Log.{Grows-refl, IsGapFree, next_of, next-update}
use agent_room.Store.Wellformed.Messages.{Evolves-refl}
use agent_room.Store.Invariant.{
  IsWellFormed, Follows, Follows-refl, Keeps, kept, after, append_event-Keeps, append_event-Follows,
}

IsGapFree-same :
    (old new : List RoomRow) (es : List EventRow)
    → ((k : String) → next_of (find (is_room k) new) ≡ next_of (find (is_room k) old))
    → IsGapFree old es
    → IsGapFree new es
IsGapFree-same old new es same g k = let (n, next, log) = g k in (n, same k ∙ next, log)

-- A change of rooms that leaves their ids and numbers alone.
rooms-Follows :
    (p : RoomRow → Bool) (f : RoomRow → RoomRow) (db : Database)
    → ((r : RoomRow) → (f r).id ≡ r.id)
    → ((r : RoomRow) → (f r).next_seq ≡ r.next_seq)
    → IsWellFormed db
    → Follows db (record db { rooms = update_where p f db.rooms })
rooms-Follows p f db ids seqs w = record {
  well_formed = record {
    gap_free =
        IsGapFree-same db.rooms (update_where p f db.rooms) db.events
          (λ k.
            next-update k p f db.rooms (λ x. ap (λ (i : String). str_eq i k) (ids x))
              (λ x _ _. seqs x))
          w.gap_free;
    agree = w.agree;
    bounded = w.bounded;
    logged = w.logged;
  };
  evolves = Evolves-refl db.messages;
  appended = Grows-refl db.events;
}

update_status-Follows :
    (rid : String) (old new : RoomStatus) (db : Database) {db' : Database}
    → IsWellFormed db
    → update_status rid old new db ≡ ok db'
    → Follows db db'
unfolding update_status
update_status-Follows rid old new db {db'} w h =
    let p : RoomRow → Bool = λ r. is_room rid r && same_status r.status old in
    subst (Follows db) (after_guard (count p db.rooms == 1) invalid_state h)
      (rooms-Follows p (put_status new) db (λ r. refl) (λ r. refl) w)

pub set_room_status-Keeps :
    (rid : String) (status : RoomStatus) (now : ℕ) (db : Database)
    → IsWellFormed db
    → Keeps db (set_room_status rid status now db)
unfolding set_room_status
set_room_status-Keeps rid status now db w =
    after (validate_room_id rid)
      λ _ _. after (load_room rid db) λ r _. choose r.status (same_status r.status status)
  where
    choose :
        (old : RoomStatus) (b : Bool)
        → Keeps db (if b then ok (none, db) else change_status rid old status now db)
    choose old true = kept none db (Follows-refl w)
    choose old false = after (update_status rid old status db) λ db' e.
        after (append_event rid 0 "room/status" (room_status old status) now db') λ q i.
          kept (some q.0) q.1 (
            append_event-Follows rid 0 "room/status" (room_status old status) now db db'
              (update_status-Follows rid old status db w e) i)

pub mark_thread_needs_repair-Keeps :
    (rid code digest : String) (now : ℕ) (db : Database)
    → IsWellFormed db
    → Keeps db (mark_thread_needs_repair rid code digest now db)
unfolding mark_thread_needs_repair
mark_thread_needs_repair-Keeps rid code digest now db w = after (validate_room_id rid) λ _ _.
    after (validate_reason code digest) λ _ _. after (load_room rid db) λ r _.
      after (guard (not (same_status r.status thread_needs_repair)) invalid_state) λ _ _.
        after (update_status rid r.status thread_needs_repair db) λ db' e.
          append_event-Keeps rid 0 _ _ now db db'
            (update_status-Follows rid r.status thread_needs_repair db w e)

pub bind_thread-Keeps :
    (rid : String) (snapshot : ThreadSnapshot) (now : ℕ) (db : Database)
    → IsWellFormed db
    → Keeps db (bind_thread rid snapshot now db)
unfolding bind_thread
bind_thread-Keeps rid snapshot now db w = after (validate_room_id rid) λ _ _.
    after (validate_thread_snapshot snapshot) λ _ _. after (load_room rid db) λ r _.
      after (guard (str_eq snapshot.cwd r.project_path) invalid_input) λ _ _.
        after (guard (count (is_room rid) db.rooms == 1) invalid_state) λ _ _.
          append_event-Keeps rid 0 _ _ now db
            (record db { rooms = update_where (is_room rid) (put_thread snapshot.id) db.rooms })
            (rooms-Follows (is_room rid) (put_thread snapshot.id) db (λ r. refl) (λ r. refl) w)

first_room :
    (rooms : List RoomRow) (r : RoomRow) (k : String)
    → length rooms ≡ 0
    → r.next_seq ≡ 1
    → next_of (find (is_room k) (rooms ++ r ∷ [])) ≡ next_of (find (is_room k) rooms)
first_room [] r k h one = ground arith
first_room (x ∷ rooms) r k h one = absurd (omega arith)

pub initialize_room-Keeps :
    (seed : RoomSeed) (now : ℕ) (db : Database)
    → IsWellFormed db
    → Keeps db (initialize_room seed now db)
unfolding initialize_room
initialize_room-Keeps seed now db w = after (validate_room_seed seed) λ _ _.
    after (guard (length db.rooms == 0) already_initialized) λ _ e. kept tt _ (record {
      well_formed = record {
        gap_free =
            IsGapFree-same db.rooms _ db.events
              (λ k.
                first_room db.rooms _ k ((==_iff (length db.rooms) 0).0 (guard-eq-ok _ _ e)) refl)
              w.gap_free;
        agree = w.agree;
        bounded = w.bounded;
        logged = w.logged;
      };
      evolves = Evolves-refl db.messages;
      appended = Grows-refl db.events;
    })
