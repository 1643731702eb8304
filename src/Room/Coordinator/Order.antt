-- ===== src/Room/Coordinator/Order.antt =====
-- internal/room/coordinator.go: the prompts stay in the order of their acceptance.
pub mod Dispatch
pub mod Submit
pub mod Control
pub mod Turns
pub mod Items
pub mod Inputs
use mathlib.Core.List.{map-append, append-nil, append_assoc}
use mathlib.Core.Path.{subst}
use agent_room.Prelude.{
  ℕ, ◌≡◌, refl, sym, ◌∙◌, Bool, true, false, List, [], ◌∷◌, ◌++◌, map, Option, none, some, String,
  arith,
}
use agent_room.Room.Coordinator.{
  Coordinator, QueuedMessage, TurnBinding, AgentCall, start_turn, steer_turn, interrupt_turn,
}
use agent_room.Room.Coordinator.Inputs.{asked}

abbrev pub ids : List QueuedMessage → List String
ids queue = map (λ q. q.input.client_message_id) queue

-- The prompts that were started, and those that wait after them, are the accepted ones. The first
-- one that waits may have been started already, if its outcome could not be stored: the room is
-- then busy with it, without a turn.
pub data Ordered (accepted : List String) (c : Coordinator) : Type 0 where
  aligned : asked c.calls ++ ids c.queue ≡ accepted → Ordered accepted c
  hanging :
      (b : TurnBinding) (next : QueuedMessage) (rest : List QueuedMessage)
      → c.active ≡ some b
      → b.turn_id ≡ ""
      → c.queue ≡ next ∷ rest
      → asked c.calls ++ ids rest ≡ accepted
      → Ordered accepted c

pub asked-append : (xs ys : List AgentCall) → asked (xs ++ ys) ≡ asked xs ++ asked ys
asked-append [] ys = refl
asked-append (start_turn thread input actor text ∷ xs) ys = rw (asked-append xs ys)
asked-append (steer_turn thread turn text ∷ xs) ys = asked-append xs ys
asked-append (interrupt_turn thread turn ∷ xs) ys = asked-append xs ys

-- A step that starts nothing, and leaves the queue and the active turn alone.
pub record Apart (c c' : Coordinator) : Type 0 where
  pub same_started : asked c'.calls ≡ asked c.calls
  pub same_active : c'.active ≡ c.active
  pub same_queue : c'.queue ≡ c.queue

pub Apart-Ordered :
    {accepted : List String} {c c' : Coordinator}
    → Apart c c'
    → Ordered accepted c
    → Ordered accepted c'
Apart-Ordered a (aligned h) = aligned (rw (a.same_started, a.same_queue) h)
Apart-Ordered a (hanging b next rest at blank head h) =
    hanging b next rest (a.same_active ∙ at) blank (a.same_queue ∙ head) (rw a.same_started h)

-- One more prompt is accepted, and waits.
pub Ordered-snoc :
    {accepted : List String} (c : Coordinator) (entry : QueuedMessage)
    → Ordered accepted c
    → Ordered
        (accepted ++ entry.input.client_message_id ∷ [])
        (record c { queue = c.queue ++ entry ∷ [] })
Ordered-snoc c entry (aligned h) = aligned (rw (map-append, ← h, append_assoc) refl)
Ordered-snoc c entry (hanging b next rest at blank head h) =
    hanging b next (rest ++ entry ∷ []) at blank (rw head refl)
      (rw (map-append, ← h, append_assoc) refl)
