-- ===== src/Room/Coordinator/Order/Inputs.antt =====
-- internal/room/coordinator.go: over any history the agent is asked for the prompts one after the
-- other, in the order of their acceptance.
use mathlib.Core.List.{append-nil}
use agent_room.Prelude.{ℕ, ◌≡◌, refl, List, [], ◌∷◌, ◌++◌, Option, none, some, String}
use agent_room.Store.Tables.{Canonical}
use agent_room.Room.Coordinator.{Coordinator, Failure, Agent}
use agent_room.Room.Coordinator.Inputs.{
  Input, submit, remark, direct, turn_end, fault, unavailable, item, asked, handle, turn_of_loop,
  run,
}
use agent_room.Room.Coordinator.Order.{Ordered, aligned, hanging, ids, Apart-Ordered}
use agent_room.Room.Coordinator.Order.Submit.{prompt-Ordered, note-Ordered}
use agent_room.Room.Coordinator.Order.Control.{handle_control-Apart}
use agent_room.Store.Items.{Json}
use agent_room.Room.Coordinator.Order.Items.{handle_item-Ordered}
use agent_room.Room.Coordinator.Order.Turns.{
  handle_turn_end-Ordered, handle_fault-Ordered, handle_unavailable-Ordered,
}

-- A coordinator that has not asked for anything yet, and has nothing to do.
pub record IsIdle (c : Coordinator) : Type 0 where
  pub no_calls : c.calls ≡ []
  pub no_queue : c.queue ≡ []

module _ (hash : Canonical → String) (json : Json) (digest : String → String) (agent : Agent)
    (clock : ℕ → ℕ) (rid : String) where
  handle-Ordered :
      (i : Input) (accepted : List String) (c : Coordinator)
      → Ordered accepted c
      → Ordered
          (accepted ++ (handle hash json digest agent clock rid i c).0)
          (handle hash json digest agent clock rid i c).1
  unfolding handle
  handle-Ordered (submit actor input) accepted c h =
      prompt-Ordered hash digest agent clock rid accepted actor input c h
  handle-Ordered (remark actor input) accepted c h =
      rw (append-nil accepted) (note-Ordered hash digest agent clock rid accepted actor input c h)
  handle-Ordered (direct actor input) accepted c h =
      rw (append-nil accepted)
        (Apart-Ordered (handle_control-Apart digest agent clock rid hash actor input c) h)
  handle-Ordered (turn_end event) accepted c h =
      rw (append-nil accepted) (handle_turn_end-Ordered digest agent clock rid accepted event c h)
  handle-Ordered (fault event) accepted c h =
      rw (append-nil accepted) (handle_fault-Ordered digest agent clock rid accepted event c h)
  handle-Ordered (unavailable error) accepted c h =
      rw (append-nil accepted)
        (handle_unavailable-Ordered digest agent clock rid accepted error c h)
  handle-Ordered (item event) accepted c h =
      rw (append-nil accepted) (handle_item-Ordered json clock rid accepted event c h)

  turn_of_loop-Ordered :
      (failure : Option Failure) (i : Input) (accepted : List String) (c : Coordinator)
      → Ordered accepted c
      → Ordered
          (turn_of_loop hash json digest agent clock rid failure i (accepted, c)).0
          (turn_of_loop hash json digest agent clock rid failure i (accepted, c)).1
  unfolding turn_of_loop
  turn_of_loop-Ordered none i accepted c h = handle-Ordered i accepted c h
  turn_of_loop-Ordered (some e) i accepted c h = h

  run-Ordered :
      (is : List Input) (s : List String × Coordinator)
      → Ordered s.0 s.1
      → Ordered
          (run hash json digest agent clock rid is s).0
          (run hash json digest agent clock rid is s).1
  unfolding run
  run-Ordered [] s h = h
  run-Ordered (i ∷ is) s h =
      run-Ordered is (turn_of_loop hash json digest agent clock rid s.1.fatal i s)
        (turn_of_loop-Ordered s.1.fatal i s.0 s.1 h)

  waiting :
      {accepted : List String} {c : Coordinator}
      → Ordered accepted c
      → (rest : List String) × (asked c.calls ++ rest ≡ accepted)
  waiting {c = c} (aligned h) = (ids c.queue, h)
  waiting (hanging b next rest at blank head h) = (ids rest, h)

  -- The agent answers as it likes, the store may refuse any command, and controls, notes and events
  -- of the agent come in any order: the prompts that an idle coordinator has asked the agent to start
  -- are a beginning of those that it has accepted (and not answered as duplicates), in the order of
  -- their acceptance.
  pub run-asked_prefix :
      (is : List Input) (c : Coordinator)
      → IsIdle c
      → (rest : List String) × (asked (run hash json digest agent clock rid is ([], c)).1.calls
            ++ rest
          ≡ (run hash json digest agent clock rid is ([], c)).0)
  run-asked_prefix is c idle =
      waiting (run-Ordered is ([], c) (aligned (rw (idle.no_calls, idle.no_queue) refl)))
