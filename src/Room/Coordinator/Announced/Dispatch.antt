-- ===== src/Room/Coordinator/Announced/Dispatch.antt =====
-- internal/room/coordinator.go: what a submission and a dispatch announce is stored.
use agent_room.Prelude.{
  ℕ, inl, inr, Bool, true, false, ◌||◌, List, [], ◌∷◌, Option, none, some, String, Bool-cases,
}
use agent_room.Result.{Result}
use agent_room.Room.Types.{failed, recovering, Actor, SubmitInput}
use agent_room.Store.Tables.{Canonical, EventRow}
use agent_room.Store.Accept.{Acceptance}
use agent_room.Store.Invariant.Lifecycle.{
  begin_dispatch-Keeps, fail_dispatch-Keeps, bind_running_turn-Keeps, mark_needs_review-Keeps,
}
use agent_room.Store.Invariant.Accept.{accept_message-Keeps, append_note-Keeps}
use agent_room.Store.Invariant.Rooms.{set_room_status-Keeps}
use agent_room.Store.Told.{one_event, some_event, its_event, no_event, no_event-Tells}
use agent_room.Store.Told.Lifecycle.{
  fail_dispatch-Tells, bind_running_turn-Tells, mark_needs_review-Tells, set_room_status-Tells,
}
use agent_room.Store.Told.Offers.{accept_message-Tells, append_note-Tells}
use agent_room.Room.Coordinator.{
  Coordinator, QueuedMessage, Failure, AgentError, Agent, not_sent, unknown, Certainty,
  mutation_failure, publish,
}
use agent_room.Room.Coordinator.Dispatch.{
  bound, passed_over, frozen, doubted, undelivered, started, begun, dispatch_queue, dispatch_next,
  is_blocked, submitted, handle_submit,
}
use agent_room.Room.Coordinator.Announced.{
  Backed, Settles, refusal, success, settled-Settles, publish-Backed, publish_some-Backed,
}

module _ (digest : String → String) (agent : Agent) (clock : ℕ → ℕ) (rid : String) where
  frozen-Backed :
      (s : Result (Option EventRow) × Coordinator)
      → Settles some_event s
      → Backed (frozen digest agent clock rid s).1
  unfolding frozen
  frozen-Backed s (refusal e c h) = h
  frozen-Backed s (success event c h shown) = publish_some-Backed event c h shown

  bound-Backed :
      (next : QueuedMessage) (rest : List QueuedMessage) (turn : String)
      (s : Result EventRow × Coordinator)
      → Settles one_event s
      → Backed (bound digest agent clock rid next rest turn s).1
  unfolding bound publish
  bound-Backed next rest turn s (refusal e c h) = h
  bound-Backed next rest turn s (success event c h shown) = publish-Backed event c h shown.0

  doubted-Backed :
      (rest : List QueuedMessage) (s : Result EventRow × Coordinator)
      → Settles one_event s
      → Backed (doubted digest agent clock rid rest s).1
  unfolding doubted publish
  doubted-Backed rest s (refusal e c h) = h
  doubted-Backed rest s (success event c h shown) =
      let told = publish-Backed event c h shown.0 in
      frozen-Backed _ (
        settled-Settles _ _ told (set_room_status-Keeps rid recovering _ _ told.well_formed)
          (set_room_status-Tells rid recovering _ _))

  module _ (again : Coordinator → Option Failure × Coordinator)
      (keeps : (c : Coordinator) → Backed c → Backed (again c).1) (next : QueuedMessage)
      (rest : List QueuedMessage) where
    passed_over-Backed :
        (s : Result EventRow × Coordinator)
        → Settles one_event s
        → Backed (passed_over digest agent clock rid again rest s).1
    unfolding passed_over publish
    passed_over-Backed s (refusal e c h) = h
    passed_over-Backed s (success event c h shown) = keeps _ (publish-Backed event c h shown.0)

    undelivered-Backed :
        (f : String × String × Certainty) (c : Coordinator)
        → Backed c
        → Backed (undelivered digest agent clock rid again next rest f c).1
    unfolding undelivered
    undelivered-Backed (code, detail, not_sent) c h =
        let cid = next.input.client_message_id in
        passed_over-Backed _ (
          settled-Settles _ c h
            (fail_dispatch-Keeps rid cid failed code detail (clock c.transactions) c.db
              h.well_formed)
            (fail_dispatch-Tells rid cid failed code detail (clock c.transactions) c.db))
    undelivered-Backed (code, detail, unknown) c h =
        let cid = next.input.client_message_id in
        doubted-Backed rest _ (
          settled-Settles _ (record c { status = recovering }) h
            (mark_needs_review-Keeps rid cid code detail (clock c.transactions) c.db h.well_formed)
            (mark_needs_review-Tells rid cid code detail (clock c.transactions) c.db))

    started-Backed :
        (answer : Option AgentError × String) (c : Coordinator)
        → Backed c
        → Backed (started digest agent clock rid again next rest answer c).1
    unfolding started
    started-Backed (some e, turn) c h = undelivered-Backed (mutation_failure digest e) c h
    started-Backed (none, turn) c h =
        let cid = next.input.client_message_id in
        bound-Backed next rest turn _ (
          settled-Settles _ c h
            (bind_running_turn-Keeps rid cid turn (clock c.transactions) c.db h.well_formed)
            (bind_running_turn-Tells rid cid turn (clock c.transactions) c.db))

    begun-Backed :
        (s : Result (Unit {0}) × Coordinator)
        → Settles no_event s
        → Backed (begun digest agent clock rid again next rest s).1
    unfolding begun
    begun-Backed s (refusal e c h) = h
    begun-Backed s (success done c h shown) = started-Backed _ _ h

  dispatch_queue-Backed :
      (queue : List QueuedMessage) (c : Coordinator)
      → Backed c
      → Backed (dispatch_queue digest agent clock rid queue c).1
  unfolding dispatch_queue
  dispatch_queue-Backed [] c h = h
  dispatch_queue-Backed (next ∷ rest) c h = elim (Bool-cases (is_blocked c)) [
    | inl stop ↦ rw stop h
    | inr go ↦ rw go (
        begun-Backed (dispatch_queue digest agent clock rid rest) (dispatch_queue-Backed rest) next
          rest _
          (settled-Settles _ c h
            (begin_dispatch-Keeps rid next.input.client_message_id c.db h.well_formed)
            (no_event-Tells _)))
  ]

  pub dispatch_next-Backed :
      (c : Coordinator) → Backed c → Backed (dispatch_next digest agent clock rid c).1
  unfolding dispatch_next
  dispatch_next-Backed c h = dispatch_queue-Backed c.queue c h

  submitted-Backed :
      (note : Bool) (actor : Actor) (input : SubmitInput) (s : Result Acceptance × Coordinator)
      → Settles its_event s
      → Backed (submitted digest agent clock rid note actor input s).2
  unfolding submitted publish
  submitted-Backed note actor input s (refusal e c h) = h
  submitted-Backed note actor input s (success got c h shown) =
      let told = publish-Backed got.event c h shown.0 in
      elim (Bool-cases (got.duplicate || note)) [
        | inl over ↦ rw over told
        | inr new ↦ rw new (dispatch_next-Backed _ told)
      ]

  pub handle_submit-Backed :
      (hash : Canonical → String) (actor : Actor) (input : SubmitInput) (note : Bool)
      (c : Coordinator)
      → Backed c
      → Backed (handle_submit digest agent clock rid hash actor input note c).2
  unfolding handle_submit
  handle_submit-Backed hash actor input true c h = submitted-Backed true actor input _ (
      settled-Settles _ c h
        (append_note-Keeps hash rid actor input (clock c.transactions) c.db h.well_formed)
        (append_note-Tells hash rid actor input (clock c.transactions) c.db))
  handle_submit-Backed hash actor input false c h = elim (Bool-cases (agent.validates input)) [
    | inl fine ↦ rw fine (
        submitted-Backed false actor input _ (
          settled-Settles _ c h
            (accept_message-Keeps hash rid actor input (clock c.transactions) c.db h.well_formed)
            (accept_message-Tells hash rid actor input (clock c.transactions) c.db)))
    | inr refused ↦ rw refused h
  ]
