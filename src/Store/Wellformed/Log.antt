-- ===== src/Store/Wellformed/Log.antt =====
-- The event log of a room: its sequence numbers are 1, 2, 3 and so on, with none left out.
use agent_room.Prelude.{
  ℕ, zero, suc, ◌+◌, ◌<◌, ◌≡◌, refl, sym, ap, ◌∙◌, inl, inr, Bool, true, false, List, [], ◌∷◌, ◌++◌,
  Option, none, some, String, str_eq, eq_iff, ◌==◌, if◌then◌else◌, any, find, select, map,
  update_where, arith, Bool-cases, Option-cases, find-update_where, select-append, find-holds,
  any-append, eq_refl,
}
use mathlib.Core.List.{map-append, append-nil, append_assoc}
use mathlib.Core.Path.{subst}
use agent_room.Result.{ok, >>=-eq-ok}
use agent_room.Store.Tables.{Payload, RoomRow, EventRow, Database, is_room, in_room, is_event}
use agent_room.Store.Rows.{allocate_seq, insert_event_at, append_event, bump_seq}

-- 1, 2, …, n.
abbrev pub count_to : ℕ → List ℕ
count_to zero = []
count_to (suc n) = count_to n ++ suc n ∷ []

abbrev pub seq_log : String → List EventRow → List ℕ
seq_log rid es = map (λ e. e.seq) (select (in_room rid) es)

-- The number that the room gives to its next event; a room that is not there has given none.
abbrev pub next_of : Option RoomRow → ℕ
next_of none = 1
next_of (some r) = r.next_seq

-- The events that were there stay, and others follow them.
abbrev pub Grows : List EventRow → List EventRow → Type 0
Grows old new = (es : List EventRow) × (new ≡ old ++ es)

pub Grows-refl : (es : List EventRow) → Grows es es
Grows-refl es = ([], sym (append-nil es))

pub Grows-snoc : (old es : List EventRow) (e : EventRow) → Grows old es → Grows old (es ++ e ∷ [])
Grows-snoc old es e (more, at) = (more ++ e ∷ [], rw at (append_assoc old more (e ∷ [])))

pub Grows-trans : (a b c : List EventRow) → Grows a b → Grows b c → Grows a c
Grows-trans a b c (es, h) (fs, k) = (es ++ fs, k ∙ rw h (append_assoc a es fs))

abbrev pub GapFree : String → List RoomRow → List EventRow → Type 0
GapFree rid rooms es =
    (n : ℕ) × (next_of (find (is_room rid) rooms) ≡ suc n) × (seq_log rid es ≡ count_to n)

abbrev pub IsGapFree : List RoomRow → List EventRow → Type 0
IsGapFree rooms es = (rid : String) → GapFree rid rooms es

seq_log-snoc :
    (rid : String) (es : List EventRow) (e : EventRow)
    → seq_log rid (es ++ e ∷ [])
      ≡ seq_log rid es ++ (if str_eq e.room_id rid then e.seq ∷ [] else [])
seq_log-snoc rid es e = rw (select-append (in_room rid) es (e ∷ [])) (rw map-append (ground arith))

next-bump_self :
    (rid : String) (rooms : List RoomRow) {r : RoomRow}
    → find (is_room rid) rooms ≡ some r
    → next_of (find (is_room rid) (update_where (is_room rid) bump_seq rooms)) ≡ r.next_seq + 1
next-bump_self rid rooms {r} h =
    rw (find-update_where (is_room rid) (is_room rid) bump_seq rooms (λ x. refl), h)
      (rw (find-holds (is_room rid) rooms h))

-- An update of rooms that leaves the number of the room `k` alone.
pub next-update :
    (k : String) (p : RoomRow → Bool) (f : RoomRow → RoomRow) (rooms : List RoomRow)
    → ((x : RoomRow) → is_room k (f x) ≡ is_room k x)
    → ((x : RoomRow) → is_room k x ≡ true → p x ≡ true → (f x).next_seq ≡ x.next_seq)
    → next_of (find (is_room k) (update_where p f rooms)) ≡ next_of (find (is_room k) rooms)
next-update k p f rooms keep same =
    rw (find-update_where (is_room k) p f rooms keep)
      (elim (Option-cases (find (is_room k) rooms)) [
        | inl e ↦ rw e
        | inr (x, e) ↦ rw e (elim (Bool-cases (p x)) [
          | inl hit ↦ rw hit (same x (find-holds (is_room k) rooms e) hit)
          | inr miss ↦ rw miss
        ])
      ])

next-bump_ne :
    (rid k : String) (rooms : List RoomRow)
    → str_eq rid k ≡ false
    → next_of (find (is_room k) (update_where (is_room rid) bump_seq rooms))
      ≡ next_of (find (is_room k) rooms)
next-bump_ne rid k rooms other =
    next-update k (is_room rid) bump_seq rooms (λ x. refl)
      (λ x here hit. ground (arith, eq_iff x.id k, eq_iff x.id rid, eq_iff rid k))

-- A number is given, and an event stored under it: the log has no gap still.
pub IsGapFree-snoc :
    (rid : String) (rooms : List RoomRow) (es : List EventRow) (e : EventRow) {r : RoomRow}
    → IsGapFree rooms es
    → find (is_room rid) rooms ≡ some r
    → e.room_id ≡ rid
    → e.seq ≡ r.next_seq
    → IsGapFree (update_where (is_room rid) bump_seq rooms) (es ++ e ∷ [])
IsGapFree-snoc rid rooms es e {r} g h at same k = elim (Bool-cases (str_eq rid k)) [
  | inl here ↦
      let ek : rid ≡ k = (eq_iff rid k).0 here in
      let (n, next, log) = g rid in
      let next' : r.next_seq ≡ suc n = rw h at next in
      subst (λ z. GapFree z (update_where (is_room rid) bump_seq rooms) (es ++ e ∷ [])) ek
        (
          suc n,
          rw (next-bump_self rid rooms h) (omega arith),
          rw (seq_log-snoc rid es e) (rw (at, eq_refl rid, log, same, next')),
        )
  | inr other ↦
      let (n, next, log) = g k in
      (
        n,
        rw (next-bump_ne rid k rooms other) next,
        rw (seq_log-snoc k es e) (rw (at, other) (rw (append-nil (seq_log k es)) log)),
      )
]

any_seq :
    (rid : String) (seq : ℕ) (es : List EventRow)
    → any (is_event rid seq) es ≡ any (λ k. k == seq) (seq_log rid es)
any_seq rid seq [] = refl
any_seq rid seq (e ∷ es) = ground (arith, any_seq rid seq es)

any_above : (n seq : ℕ) → n < seq → any (λ k. k == seq) (count_to n) ≡ false
any_above zero seq h = refl
any_above (suc n) seq h =
    rw (any-append (λ k. k == seq) (count_to n) (suc n ∷ []))
      (rw (any_above n seq (omega arith)) (ground arith))

-- A number that the log has not reached is not in it.
pub log_fresh :
    (rid : String) (n seq : ℕ) (es : List EventRow)
    → seq_log rid es ≡ count_to n
    → n < seq
    → any (is_event rid seq) es ≡ false
log_fresh rid n seq es h lt = rw (any_seq rid seq es) (rw h (any_above n seq lt))

pub allocate_seq-eq-ok :
    (rid : String) (db : Database) {seq : ℕ} {db' : Database}
    → allocate_seq rid db ≡ ok (seq, db')
    → (r : RoomRow) × (find (is_room rid) db.rooms ≡ some r)
      × (seq ≡ r.next_seq)
      × (db' ≡ record db { rooms = update_where (is_room rid) bump_seq db.rooms })
unfolding allocate_seq
allocate_seq-eq-ok rid db h = elim (Option-cases (find (is_room rid) db.rooms)) [
  | inl e ↦ absurd (ground arith)
  | inr (r, e) ↦ (r, e, ground arith, ground arith)
]

pub insert_event_at-eq-ok :
    (rid : String) (seq uid : ℕ) (kind : String) (payload : Payload) (now : ℕ) (db : Database)
    {e : EventRow} {db' : Database}
    → insert_event_at rid seq uid kind payload now db ≡ ok (e, db')
    → (e.room_id ≡ rid)
      × (e.seq ≡ seq)
      × (any (is_event rid seq) db.events ≡ false)
      × (db' ≡ record db { events = db.events ++ e ∷ [] })
unfolding insert_event_at
insert_event_at-eq-ok rid seq uid kind payload now db {e} {db'} h =
    elim (Bool-cases (any (is_event rid seq) db.events)) [
      | inl taken ↦ absurd (ground arith)
      | inr free ↦ (ground arith, ground arith, free, ground arith)
    ]

pub append_event-eq-ok :
    (rid : String) (uid : ℕ) (kind : String) (payload : Payload) (now : ℕ) (db : Database)
    {e : EventRow} {db' : Database}
    → append_event rid uid kind payload now db ≡ ok (e, db')
    → (r : RoomRow) × (find (is_room rid) db.rooms ≡ some r)
      × (e.room_id ≡ rid)
      × (e.seq ≡ r.next_seq)
      × (db' ≡ record db {
        rooms = update_where (is_room rid) bump_seq db.rooms;
        events = db.events ++ e ∷ [];
      })
unfolding append_event
append_event-eq-ok rid uid kind payload now db {e} {db'} h =
    let ((seq, db1), a, b) =
      >>=-eq-ok (allocate_seq rid db)
        (λ (p : ℕ × Database). insert_event_at rid p.0 uid kind payload now p.1) h in
    let (r, found, same, shape) = allocate_seq-eq-ok rid db a in
    let (in_rid, at, free, shape') = insert_event_at-eq-ok rid seq uid kind payload now db1 b in
    let grow : Database → Database = λ d. record d { events = d.events ++ e ∷ [] } in
    (r, found, in_rid, at ∙ same, shape' ∙ ap grow shape)
