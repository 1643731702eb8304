-- ===== src/Room/Coordinator/Items.antt =====
-- internal/room/coordinator.go: the agent's events on the items of the running turn.
use agent_room.Prelude.{
  ℕ, Bool, not, List, [], ◌∷◌, Option, none, some, String, str_eq, if◌then◌else◌,
}
use agent_room.Result.{Result, ok, err}
use agent_room.Room.Types.{CompletedItem, TransientEvent}
use agent_room.Room.Projection
use agent_room.Room.Projection.{ProjectionUpdate, item_delta, item_completed, apply}
use agent_room.Store.Tables.{EventRow}
use agent_room.Store.Items.{Json, record_completed_item}
use agent_room.Room.Coordinator.{
  Coordinator, stored, publish, send_transient, fail_persistence, attempt,
}
use agent_room.Room.Coordinator.Turns.{awaits}

-- An event of kind "item-completed", or "item-delta".
pub record ItemEvent : Type 0 where
  pub is_completed : Bool
  pub thread_id : String
  pub turn_id : String
  pub item_id : String
  pub delta : String
  pub completed : Option CompletedItem

-- What `Apply` sees of the event.
abbrev pub projected : ItemEvent → Projection.AgentEvent
projected event =
    if event.is_completed
    then item_completed event.completed
    else item_delta event.thread_id event.turn_id event.item_id event.delta

abbrev pub item_turn : ItemEvent → String
item_turn event = elim event.completed [ none ↦ event.turn_id | some item ↦ item.turn_id ]

abbrev pub transients : Option TransientEvent → List TransientEvent
transients none = []
transients (some event) = event ∷ []

unfoldable pub shown : ItemEvent → Coordinator → Coordinator
unfolding apply
shown event c =
    let (update, projection) = apply (projected event) c.projection in
    send_transient (transients update.transient) (record c { projection = projection })

module _ (json : Json) (clock : ℕ → ℕ) (rid : String) where
  unfoldable pub recorded : ItemEvent → Result EventRow × Coordinator → Coordinator
  unfolding shown publish fail_persistence
  recorded event (err e, c) = fail_persistence (stored e) c
  recorded event (ok durable, c) = shown event (publish durable c)

  unfoldable pub item_of_turn : ItemEvent → Option CompletedItem → Coordinator → Coordinator
  unfolding shown
  item_of_turn event (some item) c =
      if not (str_eq item.thread_id c.thread_id)
      then c
      else recorded event (attempt clock (record_completed_item json rid item) c)
  item_of_turn event none c = if not (str_eq event.thread_id c.thread_id) then c else shown event c

  unfoldable pub handle_item : ItemEvent → Coordinator → Coordinator
  handle_item event c =
      if not (awaits c.active_fault (item_turn event) c.active)
      then c
      else item_of_turn event event.completed c
