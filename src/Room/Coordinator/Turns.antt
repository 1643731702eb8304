-- ===== src/Room/Coordinator/Turns.antt =====
-- internal/room/coordinator.go: the agent's events that end a turn, that report a fault of its
-- protocol, or that its process is gone.
use agent_room.Prelude.{
  ℕ, Bool, false, not, ◌&&◌, ◌||◌, Option, none, some, String, str_eq, if◌then◌else◌,
}
use agent_room.Result.{Result, ok, err}
use agent_room.Room.Types.{
  RequestState, running, completed, failed, interrupted, needs_review, same_state, ready,
  recovering,
}
use agent_room.Store.Tables.{EventRow}
use agent_room.Store.Rooms.{same_status, set_room_status}
use agent_room.Store.Lifecycle.{finish_turn, mark_needs_review}
use agent_room.Room.Live.{remove_turn, reset}
use agent_room.Room.Coordinator.{
  Coordinator, TurnBinding, Failure, stored, delivery_not_sent, delivery_unknown, no_active_turn,
  interrupt_turn, Agent, publish, publish_some, send_transient, note_call, fail_persistence,
  attempt,
}
use agent_room.Room.Coordinator.Dispatch.{put_state, dispatch_next}

-- The kinds of event that end a turn.
pub data Ending : Type 0 where
  turn_completed turn_failed turn_interrupted : Ending

abbrev pub ending_text : Ending → String
ending_text turn_completed = "turn-completed"
ending_text turn_failed = "turn-failed"
ending_text turn_interrupted = "turn-interrupted"

abbrev pub ending_state : Ending → RequestState
ending_state turn_completed = completed
ending_state turn_failed = failed
ending_state turn_interrupted = interrupted

pub data Fault : Type 0 where
  unsupported_server_request protocol_error : Fault

abbrev pub fault_text : Fault → String
fault_text unsupported_server_request = "unsupported-server-request"
fault_text protocol_error = "protocol-error"

-- The events, with the text of their error where they hold one.
pub record AgentEvent (K : Type 0) : Type 0 where
  pub kind : K
  pub thread_id : String
  pub turn_id : String
  pub error : Option String

-- The active turn is the event's, and its end is awaited.
abbrev pub awaits : String → String → Option TurnBinding → Bool
awaits fault event_turn none = false
awaits fault event_turn (some b) =
    (same_state b.state running || (not (str_eq fault "") && same_state b.state needs_review))
    && str_eq b.turn_id event_turn

pub record FinishTurnInput : Type 0 where
  pub state : RequestState
  pub error_code : String
  pub error_digest : String

module _ (digest : String → String) (agent : Agent) (clock : ℕ → ℕ) (rid : String) where
  abbrev pub error_digest_of : Option String → String
  error_digest_of none = ""
  error_digest_of (some text) = digest text

  -- What is stored of a turn's end. A fault makes a failure of it, with the fault as its code.
  unfoldable pub finish_input : String → AgentEvent Ending → FinishTurnInput
  finish_input fault event =
      let state = ending_state event.kind in
      let reported = not (same_state state completed) in
      record {
        state = if str_eq fault "" then state else failed;
        error_code = if reported && str_eq fault "" then ending_text event.kind else fault;
        error_digest = if reported then error_digest_of event.error else "";
      }

  -- The next prompt is dispatched: an error but those of a delivery is fatal.
  unfoldable pub carry_on : Option Failure × Coordinator → Coordinator
  unfolding fail_persistence
  carry_on (none, c) = c
  carry_on (some delivery_not_sent, c) = c
  carry_on (some delivery_unknown, c) = c
  carry_on (some e, c) = fail_persistence e c

  -- The end of a turn with a fault makes the room ready again.
  unfoldable pub cleared : Result (Option EventRow) × Coordinator → Coordinator
  unfolding publish_some fail_persistence
  cleared (err e, c) = fail_persistence (stored e) c
  cleared (ok event, c) =
      carry_on
        (dispatch_next digest agent clock rid (record (publish_some event c) { status = ready }))

  unfoldable pub turn_over : String → Result EventRow × Coordinator → Coordinator
  unfolding publish fail_persistence
  turn_over turn (err e, c) = fail_persistence (stored e) c
  turn_over turn (ok event, c) =
      let (removed, projection) = remove_turn c.thread_id turn c.projection in
      let c' =
        send_transient removed
          (record (publish event c) { projection = projection; active = none }) in
      if str_eq c.active_fault ""
      then carry_on (dispatch_next digest agent clock rid c')
      else cleared (attempt clock (set_room_status rid ready) (record c' { active_fault = "" }))

  unfoldable pub handle_turn_end : AgentEvent Ending → Coordinator → Coordinator
  unfolding finish_input
  handle_turn_end event c =
      let input = finish_input c.active_fault event in
      if not (awaits c.active_fault event.turn_id c.active)
        || (not (str_eq event.thread_id "") && not (str_eq event.thread_id c.thread_id))
      then c
      else turn_over event.turn_id (
          attempt clock
            (finish_turn rid event.turn_id input.state input.error_code input.error_digest) c)

  -- The turn is told to stop. Its answer is passed over: the room stays frozen until the turn's end.
  unfoldable pub stopped : String → Result (Option EventRow) × Coordinator → Coordinator
  unfolding publish_some fail_persistence
  stopped turn (err e, c) = fail_persistence (stored e) c
  stopped turn (ok event, c) =
      let c' = publish_some event c in note_call (interrupt_turn c'.thread_id turn) c'

  unfoldable pub suspected : String → Result EventRow × Coordinator → Coordinator
  unfolding publish fail_persistence
  suspected turn (err e, c) = fail_persistence (stored e) c
  suspected turn (ok event, c) = stopped turn (
      attempt clock (set_room_status rid recovering)
        (record (publish event c) { active = put_state needs_review c.active }))

  -- The event names another thread or another turn than the active one.
  abbrev pub is_elsewhere : AgentEvent Fault → TurnBinding → Coordinator → Bool
  is_elsewhere event b c =
      (not (str_eq event.thread_id "") && not (str_eq event.thread_id c.thread_id))
      || (not (str_eq event.turn_id "") && not (str_eq event.turn_id b.turn_id))

  abbrev pub fault_detail : AgentEvent Fault → String
  fault_detail event = elim event.error [
    | none ↦ digest (fault_text event.kind)
    | some text ↦ digest text
  ]

  unfoldable pub faulted : AgentEvent Fault → Option TurnBinding → Coordinator → Coordinator
  unfolding fail_persistence
  faulted event none c = fail_persistence no_active_turn c
  faulted event (some b) c =
      if not (str_eq c.active_fault "") || is_elsewhere event b c
      then c
      else suspected b.turn_id (
          attempt clock
            (mark_needs_review rid b.message_id (fault_text event.kind) (fault_detail event))
            (record c { status = recovering; active_fault = fault_text event.kind }))

  unfoldable pub handle_fault : AgentEvent Fault → Coordinator → Coordinator
  handle_fault event c = faulted event c.active c

  -- The process is gone: what it was doing waits for a review. An error is passed over here.
  unfoldable pub left_behind : Result EventRow × Coordinator → Coordinator
  unfolding publish
  left_behind (err e, c) = c
  left_behind (ok event, c) = record (publish event c) { active = put_state needs_review c.active }

  abbrev pub closing_detail : Option String → String
  closing_detail none = digest "agent runtime event stream closed"
  closing_detail (some text) = digest text

  unfoldable pub abandon : Option String → Option TurnBinding → Coordinator → Coordinator
  abandon error none c = c
  abandon error (some b) c =
      if same_state b.state needs_review
      then c
      else left_behind (
          attempt clock
            (mark_needs_review rid b.message_id "runtime-unavailable" (closing_detail error)) c)

  unfoldable pub told : Result (Option EventRow) × Coordinator → Coordinator
  unfolding publish_some
  told (err e, c) = c
  told (ok event, c) = publish_some event c

  unfoldable pub handle_unavailable : Option String → Coordinator → Coordinator
  handle_unavailable error c =
      let (removed, projection) = reset c.projection in
      let idle = send_transient removed (record c {
        active_fault = "";
        thread_ready = false;
        runtime_ready_seen = false;
        projection = projection;
      }) in
      let c' =
        told
          (attempt clock (set_room_status rid recovering) (record idle { status = recovering })) in
      if same_status c.status recovering then idle else abandon error c'.active c'
