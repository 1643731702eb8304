-- ===== src/Room/Coordinator/Announced/Turns.antt =====
-- internal/room/coordinator.go: what the agent's events announce is stored.
use agent_room.Prelude.{
  ℕ, inl, inr, not, ◌&&◌, ◌||◌, Option, none, some, String, str_eq, Bool-cases,
}
use agent_room.Result.{Result}
use agent_room.Room.Types.{needs_review, same_state, ready, recovering}
use agent_room.Store.Tables.{EventRow}
use agent_room.Store.Rooms.{set_room_status, same_status}
use agent_room.Store.Invariant.Lifecycle.{finish_turn-Keeps, mark_needs_review-Keeps}
use agent_room.Store.Invariant.Rooms.{set_room_status-Keeps}
use agent_room.Room.Types.{RoomStatus}
use agent_room.Store.Told.{one_event, some_event}
use agent_room.Store.Told.Lifecycle.{
  finish_turn-Tells, mark_needs_review-Tells, set_room_status-Tells,
}
use agent_room.Room.Coordinator.{
  Coordinator, TurnBinding, Failure, stored, rejected, stale_turn, delivery_not_sent,
  delivery_unknown, no_active_turn, Agent, attempt, publish, fail_persistence,
}
use agent_room.Room.Coordinator.Dispatch.{dispatch_next}
use agent_room.Room.Coordinator.Turns.{
  AgentEvent, Ending, Fault, awaits, carry_on, cleared, turn_over, handle_turn_end, stopped,
  suspected, is_elsewhere, faulted, handle_fault, left_behind, abandon, told, handle_unavailable,
  finish_input, fault_text, fault_detail, closing_detail,
}
use agent_room.Room.Coordinator.Announced.{
  Backed, Settles, refusal, success, settled-Settles, publish-Backed, publish_some-Backed,
}
use agent_room.Room.Coordinator.Announced.Dispatch.{dispatch_next-Backed}

module _ (digest : String → String) (agent : Agent) (clock : ℕ → ℕ) (rid : String) where
  status-Settles :
      (status : RoomStatus) (c : Coordinator)
      → Backed c
      → Settles some_event (attempt clock (set_room_status rid status) c)
  status-Settles status c h =
      settled-Settles _ c h
        (set_room_status-Keeps rid status (clock c.transactions) c.db h.well_formed)
        (set_room_status-Tells rid status (clock c.transactions) c.db)

  carry_on-Backed :
      (result : Option Failure) (c : Coordinator)
      → Backed c
      → Backed (carry_on digest agent clock rid (result, c))
  unfolding carry_on fail_persistence
  carry_on-Backed none c h = h
  carry_on-Backed (some delivery_not_sent) c h = h
  carry_on-Backed (some delivery_unknown) c h = h
  carry_on-Backed (some (stored e)) c h = h
  carry_on-Backed (some rejected) c h = h
  carry_on-Backed (some stale_turn) c h = h
  carry_on-Backed (some no_active_turn) c h = h

  next-Backed :
      (c : Coordinator)
      → Backed c
      → Backed (carry_on digest agent clock rid (dispatch_next digest agent clock rid c))
  next-Backed c h =
      let r = dispatch_next digest agent clock rid c in
      carry_on-Backed r.0 r.1 (dispatch_next-Backed digest agent clock rid c h)

  cleared-Backed :
      (s : Result (Option EventRow) × Coordinator)
      → Settles some_event s
      → Backed (cleared digest agent clock rid s)
  unfolding cleared fail_persistence
  cleared-Backed s (refusal e c h) = h
  cleared-Backed s (success event c h shown) = next-Backed _ (publish_some-Backed event c h shown)

  turn_over-Backed :
      (turn : String) (s : Result EventRow × Coordinator)
      → Settles one_event s
      → Backed (turn_over digest agent clock rid turn s)
  unfolding turn_over publish fail_persistence
  turn_over-Backed turn s (refusal e c h) = h
  turn_over-Backed turn s (success event c h shown) =
      let out = publish-Backed event c h shown.0 in
      elim (Bool-cases (str_eq c.active_fault "")) [
        | inl fine ↦ rw fine (next-Backed _ out)
        | inr fault ↦ rw fault (cleared-Backed _ (status-Settles ready _ out))
      ]

  pub handle_turn_end-Backed :
      (event : AgentEvent Ending) (c : Coordinator)
      → Backed c
      → Backed (handle_turn_end digest agent clock rid event c)
  unfolding handle_turn_end
  handle_turn_end-Backed event c h =
      let input = finish_input digest agent clock rid c.active_fault event in
      elim (Bool-cases (
        not (awaits c.active_fault event.turn_id c.active)
        || (not (str_eq event.thread_id "") && not (str_eq event.thread_id c.thread_id)))) [
          | inl skip ↦ rw skip h
          | inr go ↦ rw go (
              turn_over-Backed event.turn_id _ (
                settled-Settles _ c h
                  (finish_turn-Keeps rid event.turn_id input.state input.error_code
                    input.error_digest (clock c.transactions) c.db h.well_formed)
                  (finish_turn-Tells rid event.turn_id input.state input.error_code
                    input.error_digest (clock c.transactions) c.db)))
        ]

  stopped-Backed :
      (turn : String) (s : Result (Option EventRow) × Coordinator)
      → Settles some_event s
      → Backed (stopped digest agent clock rid turn s)
  unfolding stopped fail_persistence
  stopped-Backed turn s (refusal e c h) = h
  stopped-Backed turn s (success event c h shown) = publish_some-Backed event c h shown

  suspected-Backed :
      (turn : String) (s : Result EventRow × Coordinator)
      → Settles one_event s
      → Backed (suspected digest agent clock rid turn s)
  unfolding suspected publish fail_persistence
  suspected-Backed turn s (refusal e c h) = h
  suspected-Backed turn s (success event c h shown) =
      stopped-Backed turn _ (status-Settles recovering _ (publish-Backed event c h shown.0))

  faulted-Backed :
      (event : AgentEvent Fault) (active : Option TurnBinding) (c : Coordinator)
      → Backed c
      → Backed (faulted digest agent clock rid event active c)
  unfolding faulted fail_persistence
  faulted-Backed event none c h = h
  faulted-Backed event (some b) c h =
      let code = fault_text event.kind in
      let detail = fault_detail digest agent clock rid event in
      elim (Bool-cases
        (not (str_eq c.active_fault "") || is_elsewhere digest agent clock rid event b c)) [
          | inl skip ↦ rw skip h
          | inr go ↦ rw go (
              suspected-Backed b.turn_id _ (
                settled-Settles _ (record c { status = recovering; active_fault = code }) h
                  (mark_needs_review-Keeps rid b.message_id code detail (clock c.transactions) c.db
                    h.well_formed)
                  (mark_needs_review-Tells rid b.message_id code detail (clock c.transactions)
                    c.db)))
        ]

  pub handle_fault-Backed :
      (event : AgentEvent Fault) (c : Coordinator)
      → Backed c
      → Backed (handle_fault digest agent clock rid event c)
  unfolding handle_fault
  handle_fault-Backed event c h = faulted-Backed event c.active c h

  left_behind-Backed :
      (s : Result EventRow × Coordinator)
      → Settles one_event s
      → Backed (left_behind digest agent clock rid s)
  unfolding left_behind publish
  left_behind-Backed s (refusal e c h) = h
  left_behind-Backed s (success event c h shown) = publish-Backed event c h shown.0

  abandon-Backed :
      (error : Option String) (active : Option TurnBinding) (c : Coordinator)
      → Backed c
      → Backed (abandon digest agent clock rid error active c)
  unfolding abandon
  abandon-Backed error none c h = h
  abandon-Backed error (some b) c h =
      let detail = closing_detail digest agent clock rid error in
      elim (Bool-cases (same_state b.state needs_review)) [
        | inl skip ↦ rw skip h
        | inr go ↦ rw go (
            left_behind-Backed _ (
              settled-Settles _ c h
                (mark_needs_review-Keeps rid b.message_id "runtime-unavailable" detail
                  (clock c.transactions) c.db h.well_formed)
                (mark_needs_review-Tells rid b.message_id "runtime-unavailable" detail
                  (clock c.transactions) c.db)))
      ]

  told-Backed :
      (s : Result (Option EventRow) × Coordinator)
      → Settles some_event s
      → Backed (told digest agent clock rid s)
  unfolding told
  told-Backed s (refusal e c h) = h
  told-Backed s (success event c h shown) = publish_some-Backed event c h shown

  pub handle_unavailable-Backed :
      (error : Option String) (c : Coordinator)
      → Backed c
      → Backed (handle_unavailable digest agent clock rid error c)
  unfolding handle_unavailable
  handle_unavailable-Backed error c h = elim (Bool-cases (same_status c.status recovering)) [
    | inl skip ↦ rw skip h
    | inr go ↦ rw go (abandon-Backed error _ _ (told-Backed _ (status-Settles recovering _ h)))
  ]
