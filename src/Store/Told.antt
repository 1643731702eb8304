-- ===== src/Store/Told.antt =====
-- What a command returns and what it stores: the event of the result is in the log that the command
-- leaves. The rules for a step and for an event at the end of the log.
pub mod Lifecycle
pub mod Offers
use agent_room.Prelude.{
  ℕ, ◌+◌, ◌≡◌, refl, ap, inl, inr, Bool, true, false, not, List, [], ◌∷◌, ◌++◌, Option, none, some,
  String, str_eq, arith, ltb, find, count, update_where, if◌then◌else◌, ◌==◌, All, Bool-cases,
  Option-cases,
}
use agent_room.Result.{
  Result, ok, err, ◌>>=◌, guard, Error, idempotency_conflict, invalid_input, invalid_state,
}
use agent_room.Room.Types.{
  RequestState, dispatching, running, needs_review, RoomStatus, thread_needs_repair, Actor,
  SubmitInput, ControlInput, validate_submit, validate_control,
}
use agent_room.Store.Tables.{
  Canonical, MessageKind, MessageRow, Payload, EventRow, Database, is_event, is_room, room_status,
  accepted,
}
use agent_room.Store.Rows.{
  append_event, allocate_seq, insert_event_at, require_message_state, update_message_and_binding,
  load_stored_message, validate_identifiers, validate_room_id, nullable_string, require_actor,
}
use agent_room.Prelude.Text.{is_blank}
use agent_room.Store.Checks.{validate_terminal_outcome, validate_finish_turn, validate_reason}
use agent_room.Store.Lifecycle.{
  leave_dispatching, finish_control, fail_dispatch, bind_running_turn, finish_turn,
  mark_needs_review, diagnostic, runs_turn, running_turn, review_target, no_change, prompts,
  controls,
}
use agent_room.Store.Rooms.{set_room_status, change_status, load_room, update_status, same_status}
use agent_room.Store.Accept.{
  Acceptance, Offer, accept_again, accept_new, accept, accept_message, append_note, accept_control,
  insert_message, insert_binding, attach_if, load_event, prompt_offer, note_offer, control_offer,
  control_message_kind, is_zero, repeats,
}
use agent_room.Store.Wellformed.Log.{Grows, append_event-eq-ok, insert_event_at-eq-ok}
use mathlib.Core.List.{append_assoc}

abbrev pub IsIn : List EventRow → EventRow → Type 0
IsIn es e = (before after : List EventRow) × (es ≡ before ++ e ∷ after)

pub IsIn-Grows : (old new : List EventRow) (e : EventRow) → Grows old new → IsIn old e → IsIn new e
IsIn-Grows old new e (more, h) (before, after, at) =
    (before, after ++ more, rw (h, at) (append_assoc before (e ∷ after) more))

pub IsIn-find :
    (p : EventRow → Bool) (es : List EventRow) {e : EventRow} → find p es ≡ some e → IsIn es e
IsIn-find p [] h = absurd (ground arith)
IsIn-find p (x ∷ es) {e} h = elim (Bool-cases (p x)) [
  | inl hit ↦ let same : x ≡ e = ground arith in ([], es, ap (λ y. y ∷ es) same)
  | inr miss ↦
      let (before, after, at) = IsIn-find p es (rw miss at h) in
      (x ∷ before, after, ap (λ ys. x ∷ ys) at)
]

-- A command is refused, or the events that its result shows are in the log that it leaves.
pub data Tells {ℓ} {A : Type ℓ} (shows : A → List EventRow) : Result (A × Database) → Type ℓ where
  silent : (e : Error) → Tells shows (err e)
  tells : (a : A) (db : Database) → All (IsIn db.events) (shows a) → Tells shows (ok (a, db))

abbrev pub one_event : EventRow → List EventRow
one_event e = e ∷ []

abbrev pub some_event : Option EventRow → List EventRow
some_event none = []
some_event (some e) = e ∷ []

abbrev pub its_event : Acceptance → List EventRow
its_event got = got.event ∷ []

abbrev pub no_event : Unit {0} → List EventRow
no_event done = []

-- The rule for a step that comes before the event.
pub passes {ℓ κ} :
    {A : Type ℓ} {B : Type κ} {shows : B → List EventRow} (m : Result A)
    {f : A → Result (B × Database)}
    → ((a : A) → m ≡ ok a → Tells shows (f a))
    → Tells shows (m >>= f)
passes (ok a) h = h a refl
passes (err e) h = silent e

pub ends {ℓ} :
    {A : Type ℓ} {shows : A → List EventRow} (r : Result (A × Database))
    → ((a : A) (db : Database) → r ≡ ok (a, db) → All (IsIn db.events) (shows a))
    → Tells shows r
ends (ok (a, db)) h = tells a db (h a db refl)
ends (err e) h = silent e

pub no_event-Tells : (r : Result ((Unit {0}) × Database)) → Tells no_event r
no_event-Tells r = ends r λ _ _ _. tt

pub append_event-IsIn :
    (rid : String) (uid : ℕ) (kind : String) (payload : Payload) (now : ℕ) (db : Database)
    {e : EventRow} {db' : Database}
    → append_event rid uid kind payload now db ≡ ok (e, db')
    → IsIn db'.events e
append_event-IsIn rid uid kind payload now db {e} h =
    let (_, _, _, _, shape) = append_event-eq-ok rid uid kind payload now db h in
    (db.events, [], ap (λ (d : Database). d.events) shape)

pub append_event-Tells :
    (rid : String) (uid : ℕ) (kind : String) (payload : Payload) (now : ℕ) (db : Database)
    → Tells one_event (append_event rid uid kind payload now db)
append_event-Tells rid uid kind payload now db =
    ends (append_event rid uid kind payload now db)
      λ e db' h. (append_event-IsIn rid uid kind payload now db h, tt)
