-- ===== src/Room/Coordinator/Announced/Control.antt =====
-- internal/room/coordinator.go: what a control announces is stored.
use agent_room.Prelude.{
  ℕ, inl, inr, not, ◌||◌, Option, none, some, String, Bool-cases, branch, [], ◌∷◌, ◌++◌,
}
use agent_room.Result.{Result}
use agent_room.Room.Types.{dispatching, needs_review, recovering, Actor, ControlInput, ready}
use agent_room.Store.Tables.{Canonical, EventRow}
use agent_room.Store.Rooms.{same_status}
use agent_room.Store.Accept.{Acceptance}
use agent_room.Store.Invariant.Lifecycle.{finish_control-Keeps}
use agent_room.Store.Invariant.Accept.{accept_control-Keeps}
use agent_room.Store.Invariant.Rooms.{set_room_status-Keeps}
use agent_room.Store.Told.{one_event, some_event, its_event}
use agent_room.Store.Told.Lifecycle.{finish_control-Tells, set_room_status-Tells}
use agent_room.Store.Told.Offers.{accept_control-Tells}
use agent_room.Room.Coordinator.{
  Coordinator, TurnBinding, Failure, stored, rejected, stale_turn, delivery_not_sent,
  delivery_unknown, no_active_turn, AgentError, Agent, not_sent, unknown, Certainty,
  mutation_failure, publish,
}
use agent_room.Room.Coordinator.Control.{
  ControlOutcome, finished, end_control, control_frozen, control_doubted, uncontrolled, controlled,
  deliver, directed, handle_control, runs_turn,
}
use agent_room.Room.Coordinator.Announced.{
  Backed, Settles, refusal, success, settled-Settles, publish-Backed, publish_some-Backed,
}

module _ (digest : String → String) (agent : Agent) (clock : ℕ → ℕ) (rid : String) where
  finished-Backed :
      (got : Acceptance) (outcome : ControlOutcome) (result : Option Failure)
      (s : Result EventRow × Coordinator)
      → Settles one_event s
      → Backed (finished digest agent clock rid got outcome result s).2
  unfolding finished publish
  finished-Backed got outcome result s (refusal e c h) = h
  finished-Backed got outcome result s (success event c h shown) = publish-Backed event c h shown.0

  end_control-Backed :
      (got : Acceptance) (outcome : ControlOutcome) (result : Option Failure) (c : Coordinator)
      → Backed c
      → Backed (end_control digest agent clock rid got outcome result c).2
  unfolding end_control
  end_control-Backed got outcome result c h =
      let cid = got.client_message_id in
      finished-Backed got outcome result _ (
        settled-Settles _ c h
          (finish_control-Keeps rid cid outcome.state outcome.error_code outcome.error_digest
            (clock c.transactions) c.db h.well_formed)
          (finish_control-Tells rid cid outcome.state outcome.error_code outcome.error_digest
            (clock c.transactions) c.db))

  control_frozen-Backed :
      (got : Acceptance) (s : Result (Option EventRow) × Coordinator)
      → Settles some_event s
      → Backed (control_frozen digest agent clock rid got s).2
  unfolding control_frozen
  control_frozen-Backed got s (refusal e c h) = h
  control_frozen-Backed got s (success event c h shown) = publish_some-Backed event c h shown

  froze :
      (got : Acceptance) (c : Coordinator)
      → Backed c
      → Backed (control_doubted digest agent clock rid (got, none, c)).2
  unfolding control_doubted
  froze got c h = control_frozen-Backed got _ (
      settled-Settles _ c h
        (set_room_status-Keeps rid recovering (clock c.transactions) c.db h.well_formed)
        (set_room_status-Tells rid recovering (clock c.transactions) c.db))

  control_doubted-Backed :
      (got : Acceptance) (result : Option Failure) (c : Coordinator)
      → Backed c
      → Backed (control_doubted digest agent clock rid (got, result, c)).2
  unfolding control_doubted
  control_doubted-Backed got (some (stored e)) c h = h
  control_doubted-Backed got (some rejected) c h = froze got c h
  control_doubted-Backed got (some stale_turn) c h = froze got c h
  control_doubted-Backed got (some delivery_not_sent) c h = froze got c h
  control_doubted-Backed got (some delivery_unknown) c h = froze got c h
  control_doubted-Backed got (some no_active_turn) c h = froze got c h
  control_doubted-Backed got none c h = froze got c h

  uncontrolled-Backed :
      (got : Acceptance) (f : String × String × Certainty) (c : Coordinator)
      → Backed c
      → Backed (uncontrolled digest agent clock rid got f c).2
  unfolding uncontrolled
  uncontrolled-Backed got (code, detail, not_sent) c h = end_control-Backed got _ _ c h
  uncontrolled-Backed got (code, detail, unknown) c h = control_doubted-Backed _ _ _ (
      end_control-Backed got
        (record { state = needs_review; error_code = code; error_digest = detail })
        (some delivery_unknown) (record c { status = recovering }) h)

  controlled-Backed :
      (got : Acceptance) (answer : Option AgentError) (c : Coordinator)
      → Backed c
      → Backed (controlled digest agent clock rid got answer c).2
  unfolding controlled
  controlled-Backed got none c h = end_control-Backed got _ _ c h
  controlled-Backed got (some e) c h = uncontrolled-Backed got (mutation_failure digest e) c h

  deliver-Backed :
      (input : ControlInput) (got : Acceptance) (c : Coordinator)
      → Backed c
      → Backed (deliver digest agent clock rid input got c).2
  unfolding deliver
  deliver-Backed input got c h =
      elim (Bool-cases
        (not (same_status c.status ready) || not (runs_turn input.expected_turn_id c.active))) [
          | inl stale ↦ rw stale (end_control-Backed got _ _ c h)
          | inr live ↦ rw live (controlled-Backed got _ _ h)
        ]

  directed-Backed :
      (input : ControlInput) (s : Result Acceptance × Coordinator)
      → Settles its_event s
      → Backed (directed digest agent clock rid input s).2
  unfolding directed publish
  directed-Backed input s (refusal e c h) = h
  directed-Backed input s (success got c h shown) =
      let told = publish-Backed got.event c h shown.0 in
      let pending : TurnBinding = record {
        message_id = got.client_message_id;
        turn_id = input.expected_turn_id;
        state = dispatching;
      } in
      branch (λ (r : Option Acceptance × Option Failure × Coordinator). Backed r.2) got.duplicate _
        _ told
        (deliver-Backed input got
          (record (publish got.event c) { pending_controls = c.pending_controls ++ pending ∷ [] })
          told)

  pub handle_control-Backed :
      (hash : Canonical → String) (actor : Actor) (input : ControlInput) (c : Coordinator)
      → Backed c
      → Backed (handle_control digest agent clock rid hash actor input c).2
  unfolding handle_control
  handle_control-Backed hash actor input c h = directed-Backed input _ (
      settled-Settles _ c h
        (accept_control-Keeps hash rid actor input (clock c.transactions) c.db h.well_formed)
        (accept_control-Tells hash rid actor input (clock c.transactions) c.db))
