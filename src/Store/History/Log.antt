-- ===== src/Store/History/Log.antt =====
-- The event log over a history, and what the reads of it answer.
use agent_room.Prelude.{
  ℕ, zero, suc, ◌-◌, ◌≤◌, ◌<◌, ◌≡◌, refl, sym, ap, inl, inr, true, false, not, ◌&&◌, ◌||◌, List, [],
  ◌∷◌, ◌++◌, String, ◌==◌, if◌then◌else◌, ltb, leb, find, select, map, take, drop, length,
  length-append, arith, ltb→lt, Bool-cases, Option-cases, select-append, any, any_of_find,
  any_of_found, ◌⊎◌,
}
use mathlib.Core.List.{append-nil}
use agent_room.Result.{ok, >>=-eq-ok, guard, invalid_input, number_refused}
use agent_room.Store.Tables.{Canonical, EventRow, Database, is_room, in_room}
use agent_room.Store.Rows.{validate_room_id, require_room}
use agent_room.Store.Queries.{latest_seq, events, events_between, in_range, is_sql_number}
use agent_room.Store.Wellformed.Log.{count_to, seq_log, next_of, Grows, Grows-refl, Grows-trans}
use agent_room.Store.Invariant.{IsWellFormed}
use agent_room.Store.Commands.{Command, exec, run, empty_database}
use agent_room.Store.History.Steps.{exec-Follows, run-IsWellFormed}

-- The number at which a read ends, of a log that ends at `n`.
abbrev pub end_of : ℕ → ℕ → ℕ
end_of through n = if through == 0 then n else if ltb through n then through else n

-- The numbers after `after`, up to `through` where that is not 0, and at most `limit` of them.
abbrev pub page : ℕ → ℕ → ℕ → ℕ → List ℕ
page after through limit n = take limit (drop after (count_to (end_of through n)))

pub length-count_to : (n : ℕ) → length (count_to n) ≡ n
length-count_to zero = refl
length-count_to (suc n) =
    rw (length-append (count_to n) (suc n ∷ []), length-count_to n) (omega arith)

pub drop-append_le {ℓ} :
    {A : Type ℓ} (k : ℕ) (xs ys : List A) → k ≤ length xs → drop k (xs ++ ys) ≡ drop k xs ++ ys
drop-append_le zero xs ys h = refl
drop-append_le (suc k) [] ys h = absurd (omega (arith, h))
drop-append_le (suc k) (x ∷ xs) ys h = drop-append_le k xs ys (omega arith)

pub drop-all {ℓ} : {A : Type ℓ} (k : ℕ) (xs : List A) → length xs ≤ k → drop k xs ≡ []
drop-all zero [] h = refl
drop-all zero (x ∷ xs) h = absurd (omega arith)
drop-all (suc k) [] h = refl
drop-all (suc k) (x ∷ xs) h = drop-all k xs (omega arith)

drop-next :
    (after n : ℕ)
    → drop after (count_to n) ++ (if ltb after (suc n) then suc n ∷ [] else [])
      ≡ drop after (count_to (suc n))
drop-next after n = elim (Bool-cases (ltb after (suc n))) [
  | inl h ↦
      rw
        (
          h,
          drop-append_le after (count_to n) (suc n ∷ [])
              (omega (arith, length-count_to n, ltb→lt after (suc n) h)),
        )
        refl
  | inr h ↦
      let beyond : suc n ≤ after = ground arith in
      rw
        (
          h,
          drop-all after (count_to n) (omega (arith, length-count_to n, beyond)),
          drop-all after (count_to n ++ suc n ∷ [])
              (omega (arith, length-append (count_to n) (suc n ∷ []), length-count_to n, beyond)),
        )
        refl
]

-- The numbers of the log that a read asks for.
select_range :
    (after through n : ℕ)
    → select (λ s. ltb after s && (through == 0 || leb s through)) (count_to n)
      ≡ drop after (count_to (end_of through n))
select_range after through zero =
    let none_there : end_of through 0 ≡ 0 = ground arith in
    rw none_there (sym (drop-all after [] (omega arith)))
select_range after through (suc n) =
    rw
      (
        select-append (λ s. ltb after s && (through == 0 || leb s through)) (count_to n)
            (suc n ∷ []),
        select_range after through n,
      )
      (elim (Bool-cases (through == 0 || leb (suc n) through)) [
        | inl h ↦
            let here : end_of through n ≡ n = ground arith in
            let next : end_of through (suc n) ≡ suc n = ground arith in
            rw (here, next) (ground (arith, drop-next after n))
        | inr h ↦
            let here : end_of through n ≡ through = ground arith in
            let next : end_of through (suc n) ≡ through = ground arith in
            rw (here, next) (ground (arith, append-nil (drop after (count_to through))))
      ])

map-take {ℓ κ} :
    {A : Type ℓ} {B : Type κ} (f : A → B) (n : ℕ) (xs : List A)
    → map f (take n xs) ≡ take n (map f xs)
map-take f zero xs = refl
map-take f (suc n) [] = refl
map-take f (suc n) (x ∷ xs) = ap (λ ys. f x ∷ ys) (map-take f n xs)

-- The rows of a read are those of the room whose numbers are in its range.
select-seqs :
    (rid : String) (after through : ℕ) (es : List EventRow)
    → map (λ e. e.seq) (select (λ e. in_room rid e && in_range after through e) es)
      ≡ select (λ s. ltb after s && (through == 0 || leb s through)) (seq_log rid es)
select-seqs rid after through [] = refl
select-seqs rid after through (e ∷ es) = ground (arith, select-seqs rid after through es)

-- A read that succeeds on a well-formed database answers a page with no gap: the room has a latest
-- number n, and the events are those numbered after + 1, after + 2, … in this order, up to `through`
-- or, where that is 0 or beyond it, up to n, the first `limit` of them.
pub events-page :
    (rid : String) (after through limit : ℕ) (db : Database) {es : List EventRow}
    → IsWellFormed db
    → events rid after through limit db ≡ ok es
    → (n : ℕ) × (latest_seq rid db ≡ ok n) × (map (λ e. e.seq) es ≡ page after through limit n)
unfolding events latest_seq require_room events_between
events-page rid after through limit db {es} w h =
    let (u, valid, h1) = >>=-eq-ok (validate_room_id rid) _ h in
    let (_, _, h2) =
      >>=-eq-ok
        (guard (not (limit == 0 || (not (through == 0) && ltb through after))) invalid_input) _
        h1 in
    let (_, there, h3) = >>=-eq-ok (require_room rid db) _ h2 in
    let (_, _, h4) =
      >>=-eq-ok (guard (is_sql_number after && is_sql_number through) number_refused) _ h3 in
    let shape : events_between rid after through limit db ≡ es = ground arith in
    let (n, next, log) = w.gap_free rid in
    elim (Option-cases (find (is_room rid) db.rooms)) [
      | inl e ↦ absurd (ground (arith, any_of_find (is_room rid) db.rooms e))
      | inr (r, e) ↦
          let at : r.next_seq ≡ suc n = rw e at next in
          (
            n,
            rw (valid, e, at) (ap ok (omega arith)),
            rw (sym shape) (
                rw
                  (
                    map-take (λ (e : EventRow). e.seq) limit
                        (select (λ e. in_room rid e && in_range after through e) db.events),
                    select-seqs rid after through db.events,
                    log,
                    select_range after through n,
                  )
                  refl),
          )
    ]

-- A read answers if the room is there, the limit is not 0, the range is not upside down and its ends
-- are below 2^63.
pub events_total :
    (rid : String) (after through limit : ℕ) (db : Database) {n : ℕ}
    → latest_seq rid db ≡ ok n
    → 0 < limit
    → (through ≡ 0) ⊎ (after ≤ through)
    → after < 9223372036854775808
    → through < 9223372036854775808
    → (es : List EventRow) × (events rid after through limit db ≡ ok es)
unfolding events latest_seq require_room
events_total rid after through limit db {n} h some_limit upright low high =
    let (u, valid, h1) = >>=-eq-ok (validate_room_id rid) _ h in
    let test : (limit == 0 || (not (through == 0) && ltb through after)) ≡ false = ground arith in
    elim (Option-cases (find (is_room rid) db.rooms)) [
      | inl e ↦ absurd (ground (arith, rw e at h1))
      | inr (r, e) ↦
          let there : any (is_room rid) db.rooms ≡ true = any_of_found (is_room rid) db.rooms e in
          let small : (is_sql_number after && is_sql_number through) ≡ true = ground arith in
          (events_between rid after through limit db, rw (valid, test, there, small) refl)
    ]

pub latest :
    (rid : String) (db : Database) (k : ℕ) {n : ℕ}
    → next_of (find (is_room rid) db.rooms) ≡ suc k
    → latest_seq rid db ≡ ok n
    → n ≡ k
unfolding latest_seq
latest rid db k {n} next h =
    let (u, valid, h1) = >>=-eq-ok (validate_room_id rid) _ h in
    elim (Option-cases (find (is_room rid) db.rooms)) [
      | inl e ↦ absurd (ground (arith, rw e at h1))
      | inr (r, e) ↦
          let at : r.next_seq ≡ suc k = rw e at next in
          let here : r.next_seq - 1 ≡ n = ground (arith, rw e at h1) in omega arith
    ]

pub empty-IsWellFormed : IsWellFormed empty_database
empty-IsWellFormed = record {
  gap_free = λ rid. (0, refl, refl);
  agree = tt;
  bounded = tt;
  logged = tt;
}

module _ (hash : Canonical → String) where
  run-Grows :
      (cs : List (Command × ℕ)) (db : Database)
      → IsWellFormed db
      → Grows db.events (run hash cs db).events
  unfolding run
  run-Grows [] db w = Grows-refl db.events
  run-Grows ((c, now) ∷ cs) db w =
      let fs = exec-Follows hash c now db w in
      let more = run-Grows cs (exec hash c now db) fs.well_formed in
      Grows-trans db.events (exec hash c now db).events (run hash cs (exec hash c now db)).events
        fs.appended more

  -- No history changes or removes an event, and none inserts one before others: the log of a
  -- well-formed database is a first part of the log after any history.
  pub run-appends :
      (cs : List (Command × ℕ)) (db : Database)
      → IsWellFormed db
      → (es : List EventRow) × ((run hash cs db).events ≡ db.events ++ es)
  run-appends cs db w = run-Grows cs db w

  -- After any history of a new database, the events of a room with the latest number n are
  -- numbered 1, 2, …, n, in this order.
  pub run-seq_log :
      (cs : List (Command × ℕ)) (rid : String) {n : ℕ}
      → latest_seq rid (run hash cs empty_database) ≡ ok n
      → seq_log rid (run hash cs empty_database).events ≡ count_to n
  run-seq_log cs rid {n} h =
      let w = run-IsWellFormed hash cs empty_database empty-IsWellFormed in
      let (k, next, log) = w.gap_free rid in
      let same : n ≡ k = latest rid (run hash cs empty_database) k next h in rw same log
