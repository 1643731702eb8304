-- ===== src/Store/Moves.antt =====
-- The life of a message, and what a command may do to the messages that are stored already. The
-- code gives the states by the checks of each transition; this is their diagram.
use agent_room.Prelude.{◌≡◌, ◌⊎◌, Bool, List, some, find}
use agent_room.Room.Types.{
  RequestState, queued, dispatching, running, completed, failed, interrupted, needs_review,
}
use agent_room.Store.Tables.{MessageRow}
use agent_room.Store.Rows.{set_message_state}

infix 40 ◌⟶◌
pub data ◌⟶◌ : RequestState → RequestState → Type 0 where
  begin : queued ⟶ dispatching
  start : dispatching ⟶ running
  settle : dispatching ⟶ completed
  refuse : dispatching ⟶ failed
  drop : dispatching ⟶ interrupted
  doubt : dispatching ⟶ needs_review
  finish : running ⟶ completed
  crash : running ⟶ failed
  stop : running ⟶ interrupted
  lose : running ⟶ needs_review
  confirm : needs_review ⟶ completed
  close : needs_review ⟶ failed
  halt : needs_review ⟶ interrupted
  requeue : needs_review ⟶ queued
  resend : needs_review ⟶ dispatching

-- A message keeps its state, or makes one move.
abbrev pub MayBecome : RequestState → RequestState → Type 0
MayBecome s t = (t ≡ s) ⊎ (s ⟶ t)

-- A test that does not look at the state, such as one on the ids.
abbrev pub IsKey : (MessageRow → Bool) → Type 0
IsKey q = (s : RequestState) (m : MessageRow) → q (set_message_state s m) ≡ q m

-- The first row of each key stays in place, and changes in its state alone, by one move at most.
abbrev pub Evolves : List MessageRow → List MessageRow → Type 0
Evolves old new =
    (q : MessageRow → Bool)
    → IsKey q
    → (m : MessageRow) → find q old ≡ some m
    → (t : RequestState) × (find q new ≡ some (set_message_state t m)) × MayBecome m.state t

-- The first row of each key stays as it is.
abbrev pub Extends : List MessageRow → List MessageRow → Type 0
Extends old new =
    (q : MessageRow → Bool) (m : MessageRow) → find q old ≡ some m → find q new ≡ some m
