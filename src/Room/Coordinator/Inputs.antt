-- ===== src/Room/Coordinator/Inputs.antt =====
-- internal/room/coordinator.go: the commands and events that the goroutine handles one by one, and
-- the prompts that a history of them accepts and starts.
use agent_room.Prelude.{
  ℕ, true, false, List, [], ◌∷◌, ◌++◌, Option, none, some, String, if◌then◌else◌,
}
use agent_room.Room.Types.{Actor, SubmitInput, ControlInput}
use agent_room.Store.Tables.{Canonical}
use agent_room.Store.Accept.{Acceptance}
use agent_room.Room.Coordinator.{Coordinator, Failure, AgentCall, start_turn, Agent}
use agent_room.Room.Coordinator.Dispatch.{handle_submit}
use agent_room.Room.Coordinator.Control.{handle_control}
use agent_room.Store.Items.{Json}
use agent_room.Room.Coordinator.Items.{ItemEvent, handle_item}
use agent_room.Room.Coordinator.Turns.{
  AgentEvent, Ending, Fault, handle_turn_end, handle_fault, handle_unavailable,
}

pub data Input : Type 0 where
  submit : Actor → SubmitInput → Input
  remark : Actor → SubmitInput → Input
  direct : Actor → ControlInput → Input
  turn_end : AgentEvent Ending → Input
  fault : AgentEvent Fault → Input
  unavailable : Option String → Input
  item : ItemEvent → Input

-- The prompt that a submission has put in the queue, by its answer: accepted, and not before.
abbrev pub taken : SubmitInput → Option Acceptance → List String
taken input none = []
taken input (some got) = if got.duplicate then [] else input.client_message_id ∷ []

-- The prompts that the agent was asked to start.
abbrev pub asked : List AgentCall → List String
asked [] = []
asked (start_turn thread input actor text ∷ calls) = input.client_message_id ∷ asked calls
asked (_ ∷ calls) = asked calls

module _ (hash : Canonical → String) (json : Json) (digest : String → String) (agent : Agent)
    (clock : ℕ → ℕ) (rid : String) where
  -- What `Run` does with a command or an event, with the prompt that it has accepted.
  unfoldable pub handle : Input → Coordinator → List String × Coordinator
  handle (submit actor input) c =
      let (got, result, c') = handle_submit digest agent clock rid hash actor input false c in
      (taken input got, c')
  handle (remark actor input) c =
      let (got, result, c') = handle_submit digest agent clock rid hash actor input true c in
      ([], c')
  handle (direct actor input) c =
      let (got, result, c') = handle_control digest agent clock rid hash actor input c in ([], c')
  handle (turn_end event) c = ([], handle_turn_end digest agent clock rid event c)
  handle (fault event) c = ([], handle_fault digest agent clock rid event c)
  handle (unavailable error) c = ([], handle_unavailable digest agent clock rid error c)
  handle (item event) c = ([], handle_item json clock rid event c)

  -- One turn of the loop, with the prompts that it has accepted so far: it ends at a `fatalErr`.
  unfoldable pub turn_of_loop :
      Option Failure → Input → List String × Coordinator → List String × Coordinator
  turn_of_loop none i (accepted, c) = let (new, c') = handle i c in (accepted ++ new, c')
  turn_of_loop (some e) i s = s

  unfoldable pub run : List Input → List String × Coordinator → List String × Coordinator
  run [] s = s
  run (i ∷ is) s = run is (turn_of_loop s.1.fatal i s)
