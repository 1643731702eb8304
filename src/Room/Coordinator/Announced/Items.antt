-- ===== src/Room/Coordinator/Announced/Items.antt =====
-- internal/room/coordinator.go: what an event on an item announces is stored.
use agent_room.Prelude.{ℕ, not, Option, none, some, String, str_eq, branch}
use agent_room.Result.{Result}
use agent_room.Room.Types.{CompletedItem}
use agent_room.Store.Tables.{EventRow}
use agent_room.Store.Items.{Json, record_completed_item}
use agent_room.Store.Items.Once.{record_completed_item-Keeps, record_completed_item-Tells}
use agent_room.Store.Told.{one_event}
use agent_room.Room.Coordinator.{Coordinator, attempt, publish, fail_persistence}
use agent_room.Room.Coordinator.Turns.{awaits}
use agent_room.Room.Coordinator.Items.{
  ItemEvent, item_turn, shown, recorded, item_of_turn, handle_item,
}
use agent_room.Room.Coordinator.Announced.{
  Backed, Settles, refusal, success, settled-Settles, publish-Backed,
}

module _ (json : Json) (clock : ℕ → ℕ) (rid : String) where
  shown-Backed : (event : ItemEvent) (c : Coordinator) → Backed c → Backed (shown event c)
  unfolding shown
  shown-Backed event c h = h

  recorded-Backed :
      (event : ItemEvent) (s : Result EventRow × Coordinator)
      → Settles one_event s
      → Backed (recorded json clock rid event s)
  unfolding recorded fail_persistence
  recorded-Backed event s (refusal e c h) = h
  recorded-Backed event s (success durable c h told) =
      shown-Backed event (publish durable c) (publish-Backed durable c h told.0)

  item_of_turn-Backed :
      (event : ItemEvent) (completed : Option CompletedItem) (c : Coordinator)
      → Backed c
      → Backed (item_of_turn json clock rid event completed c)
  unfolding item_of_turn
  item_of_turn-Backed event (some item) c h =
      branch Backed (not (str_eq item.thread_id c.thread_id)) c
        (recorded json clock rid event (attempt clock (record_completed_item json rid item) c)) h
        (recorded-Backed event _ (
          settled-Settles _ c h
            (record_completed_item-Keeps json rid item (clock c.transactions) c.db h.well_formed)
            (record_completed_item-Tells json rid item (clock c.transactions) c.db)))
  item_of_turn-Backed event none c h =
      branch Backed (not (str_eq event.thread_id c.thread_id)) c (shown event c) h
        (shown-Backed event c h)

  pub handle_item-Backed :
      (event : ItemEvent) (c : Coordinator) → Backed c → Backed (handle_item json clock rid event c)
  unfolding handle_item
  handle_item-Backed event c h =
      branch Backed (not (awaits c.active_fault (item_turn event) c.active)) c
        (item_of_turn json clock rid event event.completed c) h
        (item_of_turn-Backed event event.completed c h)
