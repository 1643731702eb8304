-- ===== src/Store/Invariant.antt =====
-- What holds of the database between two commands, and what one command may do to it.
pub mod Lifecycle
pub mod Insert
pub mod Steps
pub mod Connections
pub mod Accept
pub mod Actions
pub mod Resolve
pub mod Rooms
use mathlib.Core.Path.{subst}
use agent_room.Prelude.{
  ℕ, ◌+◌, ◌≤◌, ◌≡◌, refl, sym, ◌∙◌, inl, inr, List, [], ◌∷◌, ◌++◌, Option, String, arith, All,
  update_where, count, ◌==◌,
}
use agent_room.Result.{Result, ok, err, ◌>>=◌, ◌>>◌, guard, Error, after_guards, invalid_state}
use agent_room.Room.Types.{RequestState}
use agent_room.Store.Tables.{Payload, MessageRow, EventRow, BindingRow, Database}
use agent_room.Store.Rows.{
  Change, append_event, update_message_and_binding, set_binding, set_message_state, hit_message,
  hit_binding,
}
use agent_room.Store.Moves.{MayBecome, Evolves, Extends}
use agent_room.Store.Wellformed.Log.{
  Grows, Grows-refl, Grows-snoc, IsGapFree, IsGapFree-snoc, append_event-eq-ok,
}
use agent_room.Store.Wellformed.Messages.{
  Agrees, IsLogged, IsLogged-append, update-Evolves, update-Agrees, update-All, Evolves-refl,
}

pub record IsWellFormed (db : Database) : Type 0 where
  -- Each room's events are numbered 1, 2, … up to the number before its next one.
  pub gap_free : IsGapFree db.rooms db.events
  -- Each binding belongs to a message and is in its state.
  pub agree : All (Agrees db.messages) db.bindings
  -- The ids of the messages are among those given.
  pub bounded : All (λ m. m.id ≤ db.last_message_id) db.messages
  -- The event that accepted a message is in the log.
  pub logged : All (IsLogged db.events) db.messages

-- A database that a command may leave, after `old`.
pub record Follows (old db : Database) : Type 0 where
  pub well_formed : IsWellFormed db
  pub evolves : Evolves old.messages db.messages
  pub appended : Grows old.events db.events

-- A command is refused, or leaves a database that may follow.
pub data Keeps {ℓ} {A : Type ℓ} (old : Database) : Result (A × Database) → Type ℓ where
  refused : (e : Error) → Keeps old (err e)
  kept : (a : A) (db : Database) → Follows old db → Keeps old (ok (a, db))

-- The database that a success leaves.
pub Keeps-Follows {ℓ} :
    {A : Type ℓ} {old new : Database} {a : A} {r : Result (A × Database)}
    → Keeps old r
    → r ≡ ok (a, new)
    → Follows old new
Keeps-Follows {old = old} {new = new} (kept b db fs) h =
    let same : db ≡ new = ground arith in subst (Follows old) same fs
Keeps-Follows (refused e) h = absurd (ground arith)

pub Follows-refl : {db : Database} → IsWellFormed db → Follows db db
Follows-refl {db} w = record {
  well_formed = w;
  evolves = Evolves-refl db.messages;
  appended = Grows-refl db.events;
}

-- The rule for a step that only reads or checks, or whose database is known by its equation.
pub after {ℓ κ} :
    {A : Type ℓ} {B : Type κ} {old : Database} (m : Result A) {f : A → Result (B × Database)}
    → ((a : A) → m ≡ ok a → Keeps old (f a))
    → Keeps old (m >>= f)
after (ok a) h = h a refl
after (err e) h = refused e

-- The rule for a step that is known to keep the database well formed.
pub through {ℓ κ} :
    {A : Type ℓ} {B : Type κ} {old : Database} {m : Result (A × Database)}
    {f : A → Database → Result (B × Database)}
    → Keeps old m
    → ((a : A) (db : Database) → Follows old db → Keeps old (f a db))
    → Keeps old (m >>= λ p. f p.0 p.1)
through (refused e) h = refused e
through (kept a db fs) h = h a db fs

-- The rule for the last step, whose database is known by its equation.
pub finally {ℓ} :
    {A : Type ℓ} {old : Database} (r : Result (A × Database))
    → ((a : A) (db : Database) → r ≡ ok (a, db) → Follows old db)
    → Keeps old r
finally (ok (a, db)) k = kept a db (k a db refl)
finally (err e) k = refused e

pub append_event-Follows :
    (rid : String) (uid : ℕ) (kind : String) (payload : Payload) (now : ℕ) (old db : Database)
    {e : EventRow} {db' : Database}
    → Follows old db
    → append_event rid uid kind payload now db ≡ ok (e, db')
    → Follows old db'
append_event-Follows rid uid kind payload now old db {e} {db'} fs h =
    let (r, found, in_rid, at, shape) = append_event-eq-ok rid uid kind payload now db h in
    let w = fs.well_formed in
    subst (Follows old) (sym shape) (record {
      well_formed = record {
        gap_free = IsGapFree-snoc rid db.rooms db.events e w.gap_free found in_rid at;
        agree = w.agree;
        bounded = w.bounded;
        logged = IsLogged-append db.messages db.events (e ∷ []) w.logged;
      };
      evolves = fs.evolves;
      appended = Grows-snoc old.events db.events e fs.appended;
    })

pub append_event-Keeps :
    (rid : String) (uid : ℕ) (kind : String) (payload : Payload) (now : ℕ) (old db : Database)
    → Follows old db
    → Keeps old (append_event rid uid kind payload now db)
append_event-Keeps rid uid kind payload now old db fs =
    finally (append_event rid uid kind payload now db)
      λ e db'. append_event-Follows rid uid kind payload now old db fs

-- The rows that a transition leaves, for any change of the binding that sets its state.
pub moved-Follows :
    (rid : String) (mid : ℕ) (from to : RequestState) (change : BindingRow → BindingRow)
    (db : Database)
    → ((b : BindingRow) → (change b).room_id ≡ b.room_id)
    → ((b : BindingRow) → (change b).message_id ≡ b.message_id)
    → ((b : BindingRow) → (change b).state ≡ to)
    → MayBecome from to
    → IsWellFormed db
    → Follows db (record db {
      messages = update_where (hit_message rid mid from) (set_message_state to) db.messages;
      bindings = update_where (hit_binding rid mid from) change db.bindings;
    })
moved-Follows rid mid from to change db in_rid of_mid sets move w = record {
  well_formed = record {
    gap_free = w.gap_free;
    agree = update-Agrees rid mid from to change in_rid of_mid sets db.messages db.bindings w.agree;
    bounded =
        update-All (λ m. m.id ≤ db.last_message_id) rid mid from to db.messages (λ m p. p)
          w.bounded;
    logged = update-All (IsLogged db.events) rid mid from to db.messages (λ m p. p) w.logged;
  };
  evolves = update-Evolves rid mid from to db.messages move;
  appended = Grows-refl db.events;
}

pub update-Follows :
    (rid : String) (mid : ℕ) (from to : RequestState) (c : Change) (db : Database) {db' : Database}
    → MayBecome from to
    → IsWellFormed db
    → update_message_and_binding rid mid from to c db ≡ ok db'
    → Follows db db'
unfolding update_message_and_binding
update-Follows rid mid from to c db {db'} move w h =
    let done =
      moved-Follows rid mid from to (set_binding to c) db (λ b. refl) (λ b. refl) (λ b. refl) move
        w in
    subst (Follows db)
      (after_guards (count (hit_message rid mid from) db.messages == 1)
        (count (hit_binding rid mid from) db.bindings == 1) invalid_state invalid_state h)
      done
