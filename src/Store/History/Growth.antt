-- ===== src/Store/History/Growth.antt =====
-- The latest number of a room over a history.
use agent_room.Prelude.{
  ℕ, suc, ◌≤◌, ◌≡◌, sym, ap, ◌∙◌, inl, inr, List, ◌++◌, String, find, select, length, length-append,
  arith, Option-cases, select-append,
}
use mathlib.Core.List.{map-append}
use agent_room.Result.{ok, >>=-eq-ok}
use agent_room.Store.Tables.{Canonical, EventRow, Database, is_room, in_room}
use agent_room.Store.Rows.{validate_room_id}
use agent_room.Store.Queries.{latest_seq}
use agent_room.Store.Wellformed.Log.{count_to, seq_log, next_of}
use agent_room.Store.Invariant.{IsWellFormed}
use agent_room.Store.Commands.{Command, run}
use agent_room.Store.History.Steps.{run-IsWellFormed}
use agent_room.Store.History.Log.{latest, length-count_to, run-appends}

seq_log-append :
    (rid : String) (es fs : List EventRow)
    → seq_log rid (es ++ fs) ≡ seq_log rid es ++ seq_log rid fs
seq_log-append rid es fs =
    rw (select-append (in_room rid) es fs)
      (map-append (λ e. e.seq) (select (in_room rid) es) (select (in_room rid) fs))

log_length :
    (rid : String) (es fs : List EventRow) (k n : ℕ)
    → seq_log rid es ≡ count_to k
    → seq_log rid (es ++ fs) ≡ count_to n
    → k ≤ n
log_length rid es fs k n h h' =
    let whole = sym (seq_log-append rid es fs) ∙ h' in
    let parts = ap length whole in
    omega (
      arith,
      parts,
      length-append (seq_log rid es) (seq_log rid fs),
      ap length h,
      length-count_to k,
      length-count_to n,
    )

module _ (hash : Canonical → String) where
  -- The latest number of a room that has an event does not fall over a history of a well-formed
  -- database, and can be read after it.
  pub run-latest_seq :
      (cs : List (Command × ℕ)) (rid : String) (db : Database) {n : ℕ}
      → IsWellFormed db
      → latest_seq rid db ≡ ok n
      → 1 ≤ n
      → (m : ℕ) × (latest_seq rid (run hash cs db) ≡ ok m) × (n ≤ m)
  unfolding latest_seq
  run-latest_seq cs rid db {n} w h some_event =
      let new = run hash cs db in
      let (u, valid, _) = >>=-eq-ok (validate_room_id rid) _ h in
      let (k, next, log) = w.gap_free rid in
      let (k', next', log') = (run-IsWellFormed hash cs db w).gap_free rid in
      let (es, grown) = run-appends hash cs db w in
      let same : n ≡ k = latest rid db k next h in
      let more : k ≤ k' =
        log_length rid db.events es k k' log (ap (seq_log rid) (sym grown) ∙ log') in
      elim (Option-cases (find (is_room rid) new.rooms)) [
        | inl e ↦ let first : 1 ≡ suc k' = sym (ap next_of e) ∙ next' in absurd (omega arith)
        | inr (r, e) ↦
            let at : r.next_seq ≡ suc k' = sym (ap next_of e) ∙ next' in
            (k', rw (valid, e) (ap ok (omega (arith, at))), omega arith)
      ]
