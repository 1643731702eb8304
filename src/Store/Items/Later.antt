-- ===== src/Store/Items/Later.antt =====
-- internal/store/repository.go: completed history is immutable, whatever commands come in between.
use agent_room.Prelude.{ℕ, ◌≡◌, List, String, if◌then◌else◌, find-append}
use agent_room.Result.{ok, err, invalid_state}
use agent_room.Room.Types.{CompletedItem}
use agent_room.Store.Tables.{Canonical, RoomRow, EventRow, Database}
use agent_room.Store.Rooms.{load_room}
use agent_room.Store.Commands.{Command, run}
use agent_room.Store.Invariant.{IsWellFormed, Keeps-Follows}
use agent_room.Store.History.Log.{run-appends}
use agent_room.Store.Items.{Json, is_item, holds_thread, record_completed_item}
use agent_room.Store.Items.Once.{
  record_completed_item-Keeps, record_completed_item-Holds, record_completed_item-known,
}

module _ (hash : Canonical → String) where
  -- Completed history is immutable. After any history that follows the recording of an item in a
  -- well-formed database, the item recorded again is answered with its event, and nothing is stored,
  -- if its room is on the item's thread still; if the room has gone over to another thread, it is
  -- refused with invalid_state.
  pub record_completed_item-once :
      (json : Json) (rid : String) (item : CompletedItem) (now later : ℕ) (db db' : Database)
      (e : EventRow) (cs : List (Command × ℕ)) {r : RoomRow}
      → IsWellFormed db
      → record_completed_item json rid item now db ≡ ok (e, db')
      → load_room rid (run hash cs db') ≡ ok r
      → record_completed_item json rid item later (run hash cs db') ≡ (
          if holds_thread item.thread_id r.codex_thread_id
          then ok (e, run hash cs db')
          else err invalid_state)
  record_completed_item-once json rid item now later db db' e cs w h loaded =
      let w' = (Keeps-Follows (record_completed_item-Keeps json rid item now db w) h).well_formed in
      let held = record_completed_item-Holds json rid item now db h in
      let (more, grown) = run-appends hash cs db' w' in
      record_completed_item-known json rid item now later db (run hash cs db') h loaded
        (rw grown (find-append (is_item rid item) db'.events more held.found))
