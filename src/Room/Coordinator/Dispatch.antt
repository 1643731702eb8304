-- ===== src/Room/Coordinator/Dispatch.antt =====
-- internal/room/coordinator.go: the dispatch of the first queued prompt to the agent, and the
-- acceptance of prompts and notes.
use Prim.Native.String
use agent_room.Prelude.{
  ℕ, Bool, true, false, not, ◌||◌, List, [], ◌∷◌, ◌++◌, Option, none, some, String, ltb,
  if◌then◌else◌,
}
use agent_room.Prelude.Int.{pos_part}
use agent_room.Prelude.Text.{decimal}
use agent_room.Result.{Result, ok, err}
use agent_room.Room.Types.{
  RequestState, dispatching, running, failed, needs_review, ready, recovering, Actor, SubmitInput,
}
use agent_room.Store.Tables.{Canonical, EventRow}
use agent_room.Store.Rooms.{same_status, set_room_status}
use agent_room.Store.Accept.{Acceptance, accept_message, append_note}
use agent_room.Store.Lifecycle.{begin_dispatch, fail_dispatch, bind_running_turn, mark_needs_review}
use agent_room.Room.Coordinator.{
  Coordinator, QueuedMessage, TurnBinding, Failure, stored, rejected, delivery_not_sent,
  delivery_unknown, AgentError, start_turn, Agent, Certainty, not_sent, unknown, publish,
  publish_some, note_call, attempt, mutation_failure,
}

-- `c.state.active != nil`, and lists that are not empty.
abbrev pub is_some {ℓ} : {A : Type ℓ} → Option A → Bool
is_some none = false
is_some (some a) = true

abbrev pub is_filled {ℓ} : {A : Type ℓ} → List A → Bool
is_filled [] = false
is_filled (a ∷ rest) = true

-- No prompt is dispatched now.
unfoldable pub is_blocked : Coordinator → Bool
is_blocked c =
    c.asking || not (same_status c.status ready) || is_some c.active || is_filled c.pending_controls

-- `c.state.active.State = …`
abbrev pub put_state : RequestState → Option TurnBinding → Option TurnBinding
put_state s none = none
put_state s (some b) = some (record b { state = s })

-- The text that the agent is given for a prompt.
unfoldable pub turn_text : QueuedMessage → String
unfolding decimal
turn_text next =
    let text =
      String.◌++◌ "[participant: "
        (String.◌++◌ next.actor.name (String.◌++◌ "]\n" next.input.text)) in
    let id = pos_part next.input.task_id in
    if ltb 0 id
    then String.◌++◌ "[project task id: " (String.◌++◌ (decimal id) (String.◌++◌ "]\n" text))
    else text

module _ (digest : String → String) (agent : Agent) (clock : ℕ → ℕ) (rid : String) where
  -- The turn runs: its binding is stored. A result that is lost freezes the room.
  unfoldable pub bound :
      QueuedMessage
      → List QueuedMessage
      → String
      → Result EventRow × Coordinator
      → Option Failure × Coordinator
  unfolding publish
  bound next rest turn (err e, c) = (some (stored e), record c { status = recovering })
  bound next rest turn (ok event, c) = (
    none,
    record (publish event c) {
      queue = rest;
      active =
          some
            (record { message_id = next.input.client_message_id; turn_id = turn; state = running });
    },
  )

  -- The prompt was not sent: the next one is tried.
  unfoldable pub passed_over :
      (Coordinator → Option Failure × Coordinator)
      → List QueuedMessage
      → Result EventRow × Coordinator
      → Option Failure × Coordinator
  unfolding publish
  passed_over again rest (err e, c) = (some (stored e), c)
  passed_over again rest (ok event, c) =
      (some delivery_not_sent, (again (record (publish event c) { queue = rest; active = none })).1)

  -- The status of the room after a delivery in doubt.
  unfoldable pub frozen : Result (Option EventRow) × Coordinator → Option Failure × Coordinator
  unfolding publish_some
  frozen (err e, c) = (some (stored e), c)
  frozen (ok event, c) = (some delivery_unknown, publish_some event c)

  -- Nobody knows whether the prompt was sent: it waits for a review.
  unfoldable pub doubted :
      List QueuedMessage → Result EventRow × Coordinator → Option Failure × Coordinator
  unfolding publish
  doubted rest (err e, c) = (some (stored e), c)
  doubted rest (ok event, c) = frozen (
      attempt clock (set_room_status rid recovering)
        (record (publish event c) { active = put_state needs_review c.active; queue = rest }))

  unfoldable pub undelivered :
      (Coordinator → Option Failure × Coordinator)
      → QueuedMessage
      → List QueuedMessage
      → String × String × Certainty
      → Coordinator
      → Option Failure × Coordinator
  undelivered again next rest (code, detail, not_sent) c =
      passed_over again rest
        (attempt clock (fail_dispatch rid next.input.client_message_id failed code detail) c)
  undelivered again next rest (code, detail, unknown) c = doubted rest (
      attempt clock (mark_needs_review rid next.input.client_message_id code detail)
        (record c { status = recovering }))

  -- The agent's answer to the start of the turn.
  unfoldable pub started :
      (Coordinator → Option Failure × Coordinator)
      → QueuedMessage
      → List QueuedMessage
      → Option AgentError × String
      → Coordinator
      → Option Failure × Coordinator
  started again next rest (some e, turn) c =
      undelivered again next rest (mutation_failure digest e) c
  started again next rest (none, turn) c =
      bound next rest turn
        (attempt clock (bind_running_turn rid next.input.client_message_id turn) c)

  unfoldable pub begun :
      (Coordinator → Option Failure × Coordinator)
      → QueuedMessage
      → List QueuedMessage
      → Result (Unit {0}) × Coordinator
      → Option Failure × Coordinator
  unfolding turn_text
  begun again next rest (err e, c) = (some (stored e), c)
  begun again next rest (ok done, c) =
      let call = start_turn c.thread_id next.input next.actor (turn_text next) in
      started again next rest (agent.starts c.calls call) (
        note_call call (record c {
          active = some (record {
            message_id = next.input.client_message_id;
            turn_id = "";
            state = dispatching;
          });
        }))

  -- `dispatchNext` on the queue, which is the coordinator's: each round that is not sent takes one
  -- message from it.
  unfoldable pub dispatch_queue : List QueuedMessage → Coordinator → Option Failure × Coordinator
  unfolding is_blocked
  dispatch_queue [] c = (none, c)
  dispatch_queue (next ∷ rest) c =
      let round =
        begun (dispatch_queue rest) next rest
          (attempt clock (λ now. begin_dispatch rid next.input.client_message_id) c) in
      if is_blocked c then (none, c) else round

  unfoldable pub dispatch_next : Coordinator → Option Failure × Coordinator
  dispatch_next c = dispatch_queue c.queue c

  -- What `handleSubmit` does with a prompt or a note that is accepted.
  unfoldable pub submitted :
      Bool
      → Actor
      → SubmitInput
      → Result Acceptance × Coordinator
      → Option Acceptance × Option Failure × Coordinator
  unfolding publish
  submitted note actor input (err e, c) = (none, some (stored e), c)
  submitted note actor input (ok got, c) =
      let c' = publish got.event c in
      let entry : QueuedMessage = record { input = input; actor = actor; accepted_seq = got.seq } in
      let (result, after_it) = dispatch_next (record c' { queue = c'.queue ++ entry ∷ [] }) in
      if got.duplicate || note then (some got, none, c') else (some got, result, after_it)

  unfoldable pub handle_submit :
      (Canonical → String)
      → Actor
      → SubmitInput
      → Bool
      → Coordinator
      → Option Acceptance × Option Failure × Coordinator
  handle_submit hash actor input true c =
      submitted true actor input (attempt clock (append_note hash rid actor input) c)
  handle_submit hash actor input false c =
      let accepted = attempt clock (accept_message hash rid actor input) c in
      if agent.validates input
      then submitted false actor input accepted
      else (none, some rejected, c)
