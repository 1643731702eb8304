-- ===== src/Room/Coordinator/Control.antt =====
-- internal/room/coordinator.go: a control (steer or cancel) of the running turn.
use agent_room.Prelude.{
  ℕ, Bool, false, not, ◌&&◌, ◌||◌, List, [], ◌∷◌, ◌++◌, Option, none, some, String, str_eq,
  if◌then◌else◌,
}
use agent_room.Result.{Result, ok, err}
use agent_room.Room.Types.{
  RequestState, dispatching, running, completed, failed, needs_review, same_state, ready,
  recovering, Actor, ControlInput, ControlKind,
}
use agent_room.Store.Tables.{Canonical, EventRow}
use agent_room.Store.Rooms.{same_status, set_room_status}
use agent_room.Store.Accept.{Acceptance, accept_control}
use agent_room.Store.Lifecycle.{finish_control}
use agent_room.Room.Coordinator.{
  Coordinator, TurnBinding, Failure, stored, stale_turn, delivery_not_sent, delivery_unknown,
  AgentError, AgentCall, steer_turn, interrupt_turn, Agent, Certainty, not_sent, unknown, publish,
  publish_some, note_call, attempt, mutation_failure,
}

pub record ControlOutcome : Type 0 where
  pub state : RequestState
  pub error_code : String
  pub error_digest : String

-- The loop over the pending controls: the first one of the message is marked or taken out.
unfoldable pub settle_control : String → RequestState → List TurnBinding → List TurnBinding
settle_control cid state [] = []
settle_control cid state (p ∷ ps) =
    let rest = settle_control cid state ps in
    if not (str_eq p.message_id cid)
    then p ∷ rest
    else if same_state state needs_review
    then record p { state = needs_review } ∷ ps
    else ps

-- The answer to a control that was accepted before.
unfoldable pub answer_again : Acceptance → Option Failure
answer_again got =
    if str_eq got.error_code "stale-turn"
    then some stale_turn
    else if same_state got.state needs_review
    then some delivery_unknown
    else if same_state got.state failed
    then some delivery_not_sent
    else none

-- The turn that a control names is the one that runs.
abbrev pub runs_turn : String → Option TurnBinding → Bool
runs_turn turn none = false
runs_turn turn (some b) = same_state b.state running && str_eq b.turn_id turn

abbrev pub control_call : String → ControlInput → AgentCall
control_call thread input = elim input.kind [
  | ControlKind.steer ↦ steer_turn thread input.expected_turn_id input.text
  | _ ↦ interrupt_turn thread input.expected_turn_id
]

module _ (digest : String → String) (agent : Agent) (clock : ℕ → ℕ) (rid : String) where
  unfoldable pub finished :
      Acceptance
      → ControlOutcome
      → Option Failure
      → Result EventRow × Coordinator
      → Acceptance × Option Failure × Coordinator
  unfolding settle_control publish
  finished got outcome result (err e, c) = (got, some (stored e), record c { status = recovering })
  finished got outcome result (ok event, c) = (
    record got { state = outcome.state; error_code = outcome.error_code },
    result,
    publish event (record c {
      pending_controls = settle_control got.client_message_id outcome.state c.pending_controls;
    }),
  )

  unfoldable pub end_control :
      Acceptance
      → ControlOutcome
      → Option Failure
      → Coordinator
      → Acceptance × Option Failure × Coordinator
  end_control got outcome result c = finished got outcome result (
      attempt clock
        (finish_control rid got.client_message_id outcome.state outcome.error_code
          outcome.error_digest)
        c)

  -- The status of the room after a control in doubt.
  unfoldable pub control_frozen :
      Acceptance
      → Result (Option EventRow) × Coordinator
      → Acceptance × Option Failure × Coordinator
  unfolding publish_some
  control_frozen got (err e, c) = (got, some (stored e), c)
  control_frozen got (ok event, c) = (got, some delivery_unknown, publish_some event c)

  -- `finishErr` is an error of the repository, or the `ErrDeliveryUnknown` that was passed.
  unfoldable pub control_doubted :
      Acceptance × Option Failure × Coordinator → Acceptance × Option Failure × Coordinator
  control_doubted (got, some (stored e), c) = (got, some (stored e), c)
  control_doubted (got, result, c) =
      control_frozen got (attempt clock (set_room_status rid recovering) c)

  unfoldable pub uncontrolled :
      Acceptance
      → String × String × Certainty
      → Coordinator
      → Acceptance × Option Failure × Coordinator
  uncontrolled got (code, detail, not_sent) c =
      end_control got (record { state = failed; error_code = code; error_digest = detail })
        (some delivery_not_sent) c
  uncontrolled got (code, detail, unknown) c = control_doubted (
      end_control got (record { state = needs_review; error_code = code; error_digest = detail })
        (some delivery_unknown) (record c { status = recovering }))

  -- The agent's answer to a control.
  unfoldable pub controlled :
      Acceptance → Option AgentError → Coordinator → Acceptance × Option Failure × Coordinator
  controlled got none c =
      end_control got (record { state = completed; error_code = ""; error_digest = "" }) none c
  controlled got (some e) c = uncontrolled got (mutation_failure digest e) c

  unfoldable pub deliver :
      ControlInput → Acceptance → Coordinator → Acceptance × Option Failure × Coordinator
  deliver input got c =
      let call = control_call c.thread_id input in
      if not (same_status c.status ready) || not (runs_turn input.expected_turn_id c.active)
      then end_control got (record { state = failed; error_code = "stale-turn"; error_digest = "" })
          (some stale_turn) c
      else controlled got (agent.controls c.calls call) (note_call call c)

  unfoldable pub directed :
      ControlInput
      → Result Acceptance × Coordinator
      → Option Acceptance × Option Failure × Coordinator
  unfolding answer_again publish
  directed input (err e, c) = (none, some (stored e), c)
  directed input (ok got, c) =
      let c' = publish got.event c in
      let pending : TurnBinding = record {
        message_id = got.client_message_id;
        turn_id = input.expected_turn_id;
        state = dispatching;
      } in
      let (given, result, after_it) =
        deliver input got (record c' { pending_controls = c'.pending_controls ++ pending ∷ [] }) in
      if got.duplicate then (some got, answer_again got, c') else (some given, result, after_it)

  unfoldable pub handle_control :
      (Canonical → String)
      → Actor
      → ControlInput
      → Coordinator
      → Option Acceptance × Option Failure × Coordinator
  handle_control hash actor input c =
      directed input (attempt clock (accept_control hash rid actor input) c)
