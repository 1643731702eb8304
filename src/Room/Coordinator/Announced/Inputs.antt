-- ===== src/Room/Coordinator/Announced/Inputs.antt =====
-- internal/room/coordinator.go: over any history what the clients are told is stored.
use agent_room.Prelude.{ℕ, true, false, List, [], ◌∷◌, Option, none, some, String}
use agent_room.Store.Tables.{Canonical}
use agent_room.Room.Coordinator.{Coordinator, Failure, Agent}
use agent_room.Room.Coordinator.Inputs.{
  Input, submit, remark, direct, turn_end, fault, unavailable, item, handle, turn_of_loop, run,
}
use agent_room.Room.Coordinator.Announced.{Backed}
use agent_room.Room.Coordinator.Announced.Dispatch.{handle_submit-Backed}
use agent_room.Room.Coordinator.Announced.Control.{handle_control-Backed}
use agent_room.Store.Items.{Json}
use agent_room.Room.Coordinator.Announced.Items.{handle_item-Backed}
use agent_room.Room.Coordinator.Announced.Turns.{
  handle_turn_end-Backed, handle_fault-Backed, handle_unavailable-Backed,
}

module _ (hash : Canonical → String) (json : Json) (digest : String → String) (agent : Agent)
    (clock : ℕ → ℕ) (rid : String) where
  handle-Backed :
      (i : Input) (c : Coordinator)
      → Backed c
      → Backed (handle hash json digest agent clock rid i c).1
  unfolding handle
  handle-Backed (submit actor input) c h =
      handle_submit-Backed digest agent clock rid hash actor input false c h
  handle-Backed (remark actor input) c h =
      handle_submit-Backed digest agent clock rid hash actor input true c h
  handle-Backed (direct actor input) c h =
      handle_control-Backed digest agent clock rid hash actor input c h
  handle-Backed (turn_end event) c h = handle_turn_end-Backed digest agent clock rid event c h
  handle-Backed (fault event) c h = handle_fault-Backed digest agent clock rid event c h
  handle-Backed (unavailable error) c h = handle_unavailable-Backed digest agent clock rid error c h
  handle-Backed (item event) c h = handle_item-Backed json clock rid event c h

  turn_of_loop-Backed :
      (failure : Option Failure) (i : Input) (s : List String × Coordinator)
      → Backed s.1
      → Backed (turn_of_loop hash json digest agent clock rid failure i s).1
  unfolding turn_of_loop
  turn_of_loop-Backed none i s h = handle-Backed i s.1 h
  turn_of_loop-Backed (some e) i s h = h

  -- The agent answers as it likes, the store may refuse any command, and controls, notes and events
  -- of the agent come in any order. Where the database is well formed, each announced event is in its
  -- log, and the number that the coordinator remembers is not below any of them, so it is after any
  -- history: no client is told of an event that is not stored.
  pub run-Backed :
      (is : List Input) (s : List String × Coordinator)
      → Backed s.1
      → Backed (run hash json digest agent clock rid is s).1
  unfolding run
  run-Backed [] s h = h
  run-Backed (i ∷ is) s h =
      run-Backed is (turn_of_loop hash json digest agent clock rid s.1.fatal i s)
        (turn_of_loop-Backed s.1.fatal i s h)
