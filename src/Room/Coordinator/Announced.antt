-- ===== src/Room/Coordinator/Announced.antt =====
-- internal/room/coordinator.go: what the clients are told is stored. The rules for a call of the
-- repository and for `publish`.
pub mod Dispatch
pub mod Control
pub mod Turns
pub mod Items
pub mod Inputs
use agent_room.Prelude.{
  ℕ, ◌≤◌, ◌≡◌, List, [], ◌∷◌, ◌++◌, Option, none, some, All, All-append, arith, ltb, if◌then◌else◌,
}
use agent_room.Result.{Result, ok, err, Error}
use agent_room.Store.Tables.{EventRow, Database}
use agent_room.Store.Wellformed.Log.{Grows}
use agent_room.Store.Wellformed.Messages.{All-map}
use agent_room.Store.Invariant.{IsWellFormed, Keeps, kept, refused}
use agent_room.Store.Told.{IsIn, IsIn-Grows, Tells, tells, silent, some_event}
use agent_room.Room.Coordinator.{Coordinator, settled, publish, publish_some}

-- The database is well formed, each event that was announced is in its log, and the number that the
-- coordinator remembers is not below any of them.
pub record IsBacked (db : Database) (durable : List EventRow) (latest_seq : ℕ) : Type 0 where
  pub well_formed : IsWellFormed db
  pub stored : All (IsIn db.events) durable
  pub latest : All (λ e. e.seq ≤ latest_seq) durable

abbrev pub Backed : Coordinator → Type 0
Backed c = IsBacked c.db c.durable c.latest_seq

-- After a call of the repository: it was refused, or its event can be announced.
pub data Settles {ℓ} {A : Type ℓ} (shows : A → List EventRow)
    : Result A × Coordinator → Type ℓ where
  refusal : (e : Error) (c : Coordinator) → Backed c → Settles shows (err e, c)
  success :
      (a : A) (c : Coordinator)
      → Backed c
      → All (IsIn c.db.events) (shows a)
      → Settles shows (ok a, c)

stored-Grows :
    (old new : List EventRow) (es : List EventRow)
    → Grows old new
    → All (IsIn old) es
    → All (IsIn new) es
stored-Grows old new es g h = All-map (IsIn old) (IsIn new) es (λ e. IsIn-Grows old new e g) h

pub settled-Settles {ℓ} :
    {A : Type ℓ} {shows : A → List EventRow} (r : Result (A × Database)) (c : Coordinator)
    → Backed c
    → Keeps c.db r
    → Tells shows r
    → Settles shows (settled r c)
settled-Settles r c h (refused e) t = refusal e _ h
settled-Settles r c h (kept a db fs) (tells _ _ shown) =
    success a _
      (record {
        well_formed = fs.well_formed;
        stored = stored-Grows c.db.events db.events c.durable fs.appended h.stored;
        latest = h.latest;
      })
      shown

raised :
    (old seq : ℕ)
    → (old ≤ (if ltb old seq then seq else old)) × (seq ≤ (if ltb old seq then seq else old))
raised old seq = (ground arith, ground arith)

pub publish-Backed :
    (e : EventRow) (c : Coordinator) → Backed c → IsIn c.db.events e → Backed (publish e c)
unfolding publish
publish-Backed e c h shown =
    let new = if ltb c.latest_seq e.seq then e.seq else c.latest_seq in
    record {
      well_formed = h.well_formed;
      stored = All-append (IsIn c.db.events) c.durable (e ∷ []) h.stored (shown, tt);
      latest =
          All-append (λ x. x.seq ≤ new) c.durable (e ∷ [])
            (All-map (λ x. x.seq ≤ c.latest_seq) (λ x. x.seq ≤ new) c.durable
              (λ x below. let (up, _) = raised c.latest_seq e.seq in omega arith) h.latest)
            ((raised c.latest_seq e.seq).1, tt);
    }

pub publish_some-Backed :
    (event : Option EventRow) (c : Coordinator)
    → Backed c
    → All (IsIn c.db.events) (some_event event)
    → Backed (publish_some event c)
unfolding publish_some
publish_some-Backed none c h shown = h
publish_some-Backed (some e) c h shown = publish-Backed e c h shown.0
