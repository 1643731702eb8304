-- ===== src/Store/Invariant/Lifecycle.antt =====
-- The transitions of a message keep the database well formed, and move the message along its diagram.
use agent_room.Prelude.{
  ℕ, ◌≡◌, inr, Bool, true, false, not, ◌||◌, Option, none, some, String, arith, find, find-holds,
}
use agent_room.Result.{ok, guard, invalid_input}
use agent_room.Room.Types.{
  RequestState, queued, dispatching, running, completed, failed, interrupted, needs_review,
  same_state,
}
use agent_room.Store.Tables.{MessageKind, MessageRow, Database}
use agent_room.Store.Rows.{
  require_message_state, update_message_and_binding, load_stored_message, validate_identifiers,
  validate_room_id, nullable_string,
}
use agent_room.Prelude.Text.{is_blank}
use agent_room.Prelude.{List}
use mathlib.Core.Path.{subst}
use agent_room.Store.Checks.{validate_terminal_outcome, validate_finish_turn, validate_reason}
use agent_room.Store.Lifecycle.{
  begin_dispatch, leave_dispatching, finish_control, fail_dispatch, bind_running_turn, finish_turn,
  mark_needs_review, diagnostic, runs_turn, running_turn, review_target, no_change, prompts,
  controls,
}
use agent_room.Store.Moves.{
  MayBecome, begin, start, settle, refuse, drop, doubt, finish, crash, stop, lose, confirm, close,
  halt,
}
use agent_room.Store.Invariant.{
  IsWellFormed, Keeps, kept, after, update-Follows, append_event-Keeps,
}

terminal-move :
    (s : RequestState) (code digest : String) (controls : Bool) {u : Unit {0}}
    → validate_terminal_outcome s code digest controls ≡ ok u
    → MayBecome dispatching s
unfolding validate_terminal_outcome
terminal-move completed code digest c h = inr settle
terminal-move failed code digest c h = inr refuse
terminal-move interrupted code digest c h = inr drop
terminal-move needs_review code digest c h = inr doubt
terminal-move queued code digest true h = absurd (ground arith)
terminal-move queued code digest false h = absurd (ground arith)
terminal-move dispatching code digest true h = absurd (ground arith)
terminal-move dispatching code digest false h = absurd (ground arith)
terminal-move running code digest true h = absurd (ground arith)
terminal-move running code digest false h = absurd (ground arith)

finish-move :
    (from s : RequestState) (code digest : String) {u : Unit {0}}
    → (same_state from running || same_state from needs_review) ≡ true
    → validate_finish_turn s code digest ≡ ok u
    → MayBecome from s
unfolding validate_finish_turn
finish-move running completed code digest k h = inr finish
finish-move running failed code digest k h = inr crash
finish-move running interrupted code digest k h = inr stop
finish-move needs_review completed code digest k h = inr confirm
finish-move needs_review failed code digest k h = inr close
finish-move needs_review interrupted code digest k h = inr halt
finish-move from s code digest k h = absurd (ground arith)

pub begin_dispatch-Keeps :
    (rid cid : String) (db : Database) → IsWellFormed db → Keeps db (begin_dispatch rid cid db)
unfolding begin_dispatch
begin_dispatch-Keeps rid cid db w = after (validate_identifiers rid cid) λ _ _.
    after (require_message_state rid cid prompts queued db) λ m _.
      after (update_message_and_binding rid m.id queued dispatching no_change db) λ db' e.
        kept tt db' (update-Follows rid m.id queued dispatching no_change db (inr begin) w e)

leave_dispatching-Keeps :
    (rid cid : String) (kinds : List MessageKind) (topic : String) (state : RequestState)
    (code digest : String) (now : ℕ) (db : Database)
    → MayBecome dispatching state
    → IsWellFormed db
    → Keeps db (leave_dispatching rid cid kinds topic state code digest now db)
unfolding leave_dispatching
leave_dispatching-Keeps rid cid kinds topic state code digest now db move w =
    let c = diagnostic state code digest now in
    after (require_message_state rid cid kinds dispatching db) λ m _.
      after (update_message_and_binding rid m.id dispatching state c db) λ db' e.
        append_event-Keeps rid m.actor_uid _ _ now db db'
          (update-Follows rid m.id dispatching state c db move w e)

pub finish_control-Keeps :
    (rid cid : String) (state : RequestState) (code digest : String) (now : ℕ) (db : Database)
    → IsWellFormed db
    → Keeps db (finish_control rid cid state code digest now db)
unfolding finish_control
finish_control-Keeps rid cid state code digest now db w =
    after (validate_identifiers rid cid) λ _ _.
      after (validate_terminal_outcome state code digest true) λ _ e.
        leave_dispatching-Keeps rid cid controls "control/" state code digest now db
          (terminal-move state code digest true e) w

pub fail_dispatch-Keeps :
    (rid cid : String) (state : RequestState) (code digest : String) (now : ℕ) (db : Database)
    → IsWellFormed db
    → Keeps db (fail_dispatch rid cid state code digest now db)
unfolding fail_dispatch
fail_dispatch-Keeps rid cid state code digest now db w = after (validate_identifiers rid cid) λ _ _.
    after (validate_terminal_outcome state code digest false) λ _ e.
      leave_dispatching-Keeps rid cid prompts "message/" state code digest now db
        (terminal-move state code digest false e) w

pub bind_running_turn-Keeps :
    (rid cid turn : String) (now : ℕ) (db : Database)
    → IsWellFormed db
    → Keeps db (bind_running_turn rid cid turn now db)
unfolding bind_running_turn
bind_running_turn-Keeps rid cid turn now db w =
    let c = record no_change { turn_id = some turn; started_at = some now } in
    after (validate_identifiers rid cid) λ _ _.
      after (guard (not (is_blank turn)) invalid_input) λ _ _.
        after (require_message_state rid cid prompts dispatching db) λ m _.
          after (update_message_and_binding rid m.id dispatching running c db) λ db' e.
            append_event-Keeps rid m.actor_uid _ _ now db db'
              (update-Follows rid m.id dispatching running c db (inr start) w e)

running_turn-found :
    (rid : String) (db : Database) (found : Option MessageRow) {m : MessageRow}
    → running_turn rid db found ≡ ok m
    → found ≡ some m
unfolding running_turn
running_turn-found rid db none h = absurd (ground arith)
running_turn-found rid db (some x) h = ground arith

-- The row that `FinishTurn` finds is running or under review.
running_turn-runs :
    (rid turn : String) (db : Database) {m : MessageRow}
    → running_turn rid db (find (runs_turn rid turn db.bindings) db.messages) ≡ ok m
    → (same_state m.state running || same_state m.state needs_review) ≡ true
running_turn-runs rid turn db {m} h =
    let found = running_turn-found rid db (find (runs_turn rid turn db.bindings) db.messages) h in
    let hit = find-holds (runs_turn rid turn db.bindings) db.messages found in ground (arith, hit)

pub finish_turn-Keeps :
    (rid turn : String) (state : RequestState) (code digest : String) (now : ℕ) (db : Database)
    → IsWellFormed db
    → Keeps db (finish_turn rid turn state code digest now db)
unfolding finish_turn
finish_turn-Keeps rid turn state code digest now db w =
    let c = diagnostic state code digest now in
    after (validate_room_id rid) λ _ _. after (guard (not (is_blank turn)) invalid_input) λ _ _.
      after (validate_finish_turn state code digest) λ _ v.
        after (running_turn rid db (find (runs_turn rid turn db.bindings) db.messages)) λ m r.
          after (update_message_and_binding rid m.id m.state state c db) λ db' e.
            append_event-Keeps rid m.actor_uid _ _ now db db' (
              update-Follows rid m.id m.state state c db
                (finish-move m.state state code digest (running_turn-runs rid turn db r) v) w e)

reviewable-move :
    (s : RequestState)
    → (same_state s dispatching || same_state s running) ≡ true
    → MayBecome s needs_review
reviewable-move dispatching h = inr doubt
reviewable-move running h = inr lose
reviewable-move s h = absurd (ground arith)

review-move :
    (rid : String) (db : Database) (found : Option MessageRow) {m : MessageRow}
    → review_target rid db found ≡ ok m
    → MayBecome m.state needs_review
unfolding review_target
review-move rid db none h = absurd (ground arith)
review-move rid db (some x) {m} h =
    let same : x ≡ m = ground arith in
    let passed : (same_state x.state dispatching || same_state x.state running) ≡ true =
      ground arith in
    subst (λ (z : MessageRow). MayBecome z.state needs_review) same (reviewable-move x.state passed)

pub mark_needs_review-Keeps :
    (rid cid code digest : String) (now : ℕ) (db : Database)
    → IsWellFormed db
    → Keeps db (mark_needs_review rid cid code digest now db)
unfolding mark_needs_review
mark_needs_review-Keeps rid cid code digest now db w =
    let c = record no_change {
      error_code = nullable_string code;
      error_digest = nullable_string digest;
    } in
    after (validate_identifiers rid cid) λ _ _. after (validate_reason code digest) λ _ _.
      after (review_target rid db (load_stored_message rid cid db)) λ m r.
        after (update_message_and_binding rid m.id m.state needs_review c db) λ db' e.
          append_event-Keeps rid m.actor_uid _ _ now db db' (
            update-Follows rid m.id m.state needs_review c db
              (review-move rid db (load_stored_message rid cid db) r) w e)
