-- ===== src/Room/Coordinator.antt =====
-- internal/room/coordinator.go: the room's one writer. Its state, and what its handlers share: the
-- calls of the repository (the commands of Store, each a transaction at its time), of the agent and
-- of the sink. The goroutine handles one command or event after the other.
pub mod Dispatch
pub mod Control
pub mod Turns
pub mod Items
pub mod Inputs
pub mod Order
pub mod Announced
mod Tests
use agent_room.Prelude.{
  ℕ, ◌+◌, Bool, true, false, List, [], ◌∷◌, ◌++◌, Option, none, some, String, if◌then◌else◌, ltb,
}
use agent_room.Result.{Result, ok, err, Error}
use agent_room.Room.Types.{RequestState, RoomStatus, recovering, Actor, SubmitInput, TransientEvent}
use agent_room.Room.Projection.{Projection}
use agent_room.Store.Tables.{EventRow, Database}

pub record QueuedMessage : Type 0 where
  pub input : SubmitInput
  pub actor : Actor
  pub accepted_seq : ℕ

pub record TurnBinding : Type 0 where
  pub message_id : String
  pub turn_id : String
  pub state : RequestState

-- What a handler returns besides `nil`: an error of the repository, the validator's, or one of the
-- sentinel errors.
pub data Failure : Type 0 where
  stored : Error → Failure
  rejected stale_turn delivery_not_sent delivery_unknown no_active_turn : Failure

-- An error of the agent: its text and, where it is a `MutationError`, its certainty and the text of
-- the error inside.
pub data Certainty : Type 0 where
  not_sent unknown : Certainty

pub data AgentError : Type 0 where
  mutation : Certainty → (text inner : String) → AgentError
  other : (text : String) → AgentError

-- The calls of the agent that change something.
pub data AgentCall : Type 0 where
  start_turn : (thread : String) → SubmitInput → Actor → (text : String) → AgentCall
  steer_turn : (thread turn text : String) → AgentCall
  interrupt_turn : (thread turn : String) → AgentCall

-- The agent is another program: it answers a call in view of all the calls before it.
pub record Agent : Type 0 where
  pub validates : SubmitInput → Bool
  pub starts : List AgentCall → AgentCall → Option AgentError × String
  pub controls : List AgentCall → AgentCall → Option AgentError

-- The state, with the database behind the repository and what was sent so far to the agent and to
-- the sink. `transactions` counts the repository's calls, so that each has its own time.
pub record Coordinator : Type 0 where
  pub status : RoomStatus
  pub thread_id : String
  pub active : Option TurnBinding
  pub pending_controls : List TurnBinding
  pub queue : List QueuedMessage
  pub latest_seq : ℕ
  -- `c.question != nil`
  pub asking : Bool
  pub runtime_ready_seen : Bool
  pub thread_ready : Bool
  pub projection : Projection
  pub fatal : Option Failure
  pub active_fault : String
  pub db : Database
  pub transactions : ℕ
  pub calls : List AgentCall
  pub durable : List EventRow
  pub transient : List TransientEvent

unfoldable pub publish : EventRow → Coordinator → Coordinator
publish e c = record c {
  latest_seq = if ltb c.latest_seq e.seq then e.seq else c.latest_seq;
  durable = c.durable ++ e ∷ [];
}

-- An event behind a pointer that may be nil.
unfoldable pub publish_some : Option EventRow → Coordinator → Coordinator
unfolding publish
publish_some none c = c
publish_some (some e) c = publish e c

abbrev pub send_transient : List TransientEvent → Coordinator → Coordinator
send_transient events c = record c { transient = c.transient ++ events }

abbrev pub note_call : AgentCall → Coordinator → Coordinator
note_call call c = record c { calls = c.calls ++ call ∷ [] }

unfoldable pub fail_persistence : Failure → Coordinator → Coordinator
fail_persistence e c = record c { status = recovering; fatal = some e }

-- A call of the repository.
abbrev pub settled {ℓ} : {A : Type ℓ} → Result (A × Database) → Coordinator → Result A × Coordinator
settled (err e) c = (err e, record c { transactions = c.transactions + 1 })
settled (ok (a, db)) c = (ok a, record c { db = db; transactions = c.transactions + 1 })

module _ (clock : ℕ → ℕ) where
  abbrev pub attempt {ℓ} :
      {A : Type ℓ} → (ℕ → Database → Result (A × Database)) → Coordinator → Result A × Coordinator
  attempt command c = settled (command (clock c.transactions) c.db) c

-- `errors.As` with the certainty "not-sent" keeps the code; the digest is of the inner error.
module _ (digest : String → String) where
  abbrev pub mutation_failure : AgentError → String × String × Certainty
  mutation_failure (mutation not_sent text inner) = ("delivery-not-sent", digest inner, not_sent)
  mutation_failure (mutation unknown text inner) = ("delivery-unknown", digest text, unknown)
  mutation_failure (other text) = ("delivery-unknown", digest text, unknown)
