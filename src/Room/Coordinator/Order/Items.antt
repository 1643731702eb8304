-- ===== src/Room/Coordinator/Order/Items.antt =====
-- internal/room/coordinator.go: the events on items keep the order of the prompts.
use agent_room.Prelude.{ℕ, refl, not, List, Option, none, some, String, str_eq, branch}
use agent_room.Result.{Result, ok, err}
use agent_room.Room.Types.{CompletedItem}
use agent_room.Store.Tables.{EventRow, Database}
use agent_room.Store.Items.{Json}
use agent_room.Room.Coordinator.{Coordinator, settled}
use agent_room.Room.Coordinator.Turns.{awaits}
use agent_room.Room.Coordinator.Items.{
  ItemEvent, item_turn, shown, recorded, item_of_turn, handle_item,
}
use agent_room.Room.Coordinator.Order.{Ordered}
use agent_room.Room.Coordinator.Order.Dispatch.{unchanged}

module _ (json : Json) (clock : ℕ → ℕ) (rid : String) (accepted : List String) where
  shown-Ordered :
      (event : ItemEvent) (c : Coordinator) → Ordered accepted c → Ordered accepted (shown event c)
  unfolding shown
  shown-Ordered event c h = unchanged refl refl refl h

  recorded-Ordered :
      (event : ItemEvent) (r : Result (EventRow × Database)) (c : Coordinator)
      → Ordered accepted c
      → Ordered accepted (recorded json clock rid event (settled r c))
  unfolding recorded
  recorded-Ordered event (err e) c h = unchanged refl refl refl h
  recorded-Ordered event (ok (durable, db)) c h = shown-Ordered event _ (unchanged refl refl refl h)

  item_of_turn-Ordered :
      (event : ItemEvent) (completed : Option CompletedItem) (c : Coordinator)
      → Ordered accepted c
      → Ordered accepted (item_of_turn json clock rid event completed c)
  unfolding item_of_turn
  item_of_turn-Ordered event (some item) c h =
      branch (Ordered accepted) (not (str_eq item.thread_id c.thread_id)) _ _ h
        (recorded-Ordered event _ c h)
  item_of_turn-Ordered event none c h =
      branch (Ordered accepted) (not (str_eq event.thread_id c.thread_id)) _ _ h
        (shown-Ordered event c h)

  pub handle_item-Ordered :
      (event : ItemEvent) (c : Coordinator)
      → Ordered accepted c
      → Ordered accepted (handle_item json clock rid event c)
  unfolding handle_item
  handle_item-Ordered event c h =
      branch (Ordered accepted) (not (awaits c.active_fault (item_turn event) c.active)) _ _ h
        (item_of_turn-Ordered event event.completed c h)
