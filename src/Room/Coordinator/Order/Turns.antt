-- ===== src/Room/Coordinator/Order/Turns.antt =====
-- internal/room/coordinator.go: the agent's events keep the order of the prompts.
use mathlib.Core.List.{append-nil}
use agent_room.Prelude.{
  ℕ, ◌≡◌, refl, sym, ◌∙◌, ap, inl, inr, true, not, ◌&&◌, ◌||◌, List, ◌++◌, Option, none, some,
  String, str_eq, eq_iff, arith, Bool-cases,
}
use mathlib.Core.Path.{subst}
use agent_room.Prelude.Text.{is_blank}
use agent_room.Result.{Result, ok, err, Error, invalid_input}
use agent_room.Room.Types.{RequestState, needs_review, same_state, recovering}
use agent_room.Store.Tables.{EventRow, Database}
use agent_room.Store.Rows.{validate_room_id}
use agent_room.Store.Rooms.{same_status}
use agent_room.Store.Lifecycle.{finish_turn}
use agent_room.Room.Coordinator.{
  Coordinator, TurnBinding, Failure, stored, rejected, stale_turn, delivery_not_sent,
  delivery_unknown, no_active_turn, Agent, settled,
}
use agent_room.Room.Coordinator.Dispatch.{put_state, dispatch_next}
use agent_room.Room.Coordinator.Turns.{
  AgentEvent, Ending, Fault, awaits, carry_on, cleared, turn_over, handle_turn_end, stopped,
  suspected, is_elsewhere, faulted, handle_fault, left_behind, abandon, told, handle_unavailable,
}
use agent_room.Room.Coordinator.Inputs.{asked}
use agent_room.Room.Coordinator.Order.{Ordered, aligned, hanging, ids, asked-append}
use agent_room.Room.Coordinator.Order.Dispatch.{dispatch_next-Ordered, unchanged}

-- The store refuses the end of a turn without a name.
finish_turn_blank :
    (rid : String) (state : RequestState) (code detail : String) (now : ℕ) (db : Database)
    → (e : Error) × (finish_turn rid "" state code detail now db ≡ err e)
unfolding finish_turn is_blank
finish_turn_blank rid state code detail now db = go (validate_room_id rid) refl
  where
    go :
        (r : Result (Unit {0}))
        → validate_room_id rid ≡ r
        → (e : Error) × (finish_turn rid "" state code detail now db ≡ err e)
    go (err e) h = (e, rw (finish_turn, h) refl)
    go (ok u) h = (invalid_input, rw (finish_turn, h) refl)

-- A change of the active binding's state.
put_state-Ordered :
    {accepted : List String} {c c' : Coordinator} (s : RequestState)
    → asked c'.calls ≡ asked c.calls
    → c'.active ≡ put_state s c.active
    → c'.queue ≡ c.queue
    → Ordered accepted c
    → Ordered accepted c'
put_state-Ordered s started active queue (aligned h) = aligned (rw (started, queue) h)
put_state-Ordered s started active queue (hanging b next rest at blank head h) =
    hanging (record b { state = s }) next rest (active ∙ ap (put_state s) at) blank (queue ∙ head)
      (rw started h)

module _ (digest : String → String) (agent : Agent) (clock : ℕ → ℕ) (rid : String)
    (accepted : List String) where
  carry_on-Ordered :
      (result : Option Failure) (c : Coordinator)
      → Ordered accepted c
      → Ordered accepted (carry_on digest agent clock rid (result, c))
  unfolding carry_on
  carry_on-Ordered none c h = h
  carry_on-Ordered (some delivery_not_sent) c h = h
  carry_on-Ordered (some delivery_unknown) c h = h
  carry_on-Ordered (some (stored e)) c h = unchanged refl refl refl h
  carry_on-Ordered (some rejected) c h = unchanged refl refl refl h
  carry_on-Ordered (some stale_turn) c h = unchanged refl refl refl h
  carry_on-Ordered (some no_active_turn) c h = unchanged refl refl refl h

  next-Ordered :
      (c : Coordinator)
      → Ordered accepted c
      → Ordered accepted (carry_on digest agent clock rid (dispatch_next digest agent clock rid c))
  next-Ordered c h =
      let r = dispatch_next digest agent clock rid c in
      carry_on-Ordered r.0 r.1 (dispatch_next-Ordered digest agent clock rid accepted c h)

  cleared-Ordered :
      (r : Result (Option EventRow × Database)) (c : Coordinator)
      → Ordered accepted c
      → Ordered accepted (cleared digest agent clock rid (settled r c))
  unfolding cleared
  cleared-Ordered (err e) c h = unchanged refl refl refl h
  cleared-Ordered (ok (none, db)) c h = next-Ordered _ (unchanged refl refl refl h)
  cleared-Ordered (ok (some event, db)) c h = next-Ordered _ (unchanged refl refl refl h)

  turn_over-Ordered :
      (turn : String) (r : Result (EventRow × Database)) (c : Coordinator)
      → asked c.calls ++ ids c.queue ≡ accepted
      → Ordered accepted (turn_over digest agent clock rid turn (settled r c))
  unfolding turn_over
  turn_over-Ordered turn (err e) c h = aligned h
  turn_over-Ordered turn (ok (event, db)) c h = elim (Bool-cases (str_eq c.active_fault "")) [
    | inl fine ↦ rw fine (next-Ordered _ (aligned h))
    | inr fault ↦ rw fault (cleared-Ordered _ _ (aligned h))
  ]

  refused-Ordered :
      (turn : String) (r : Result (EventRow × Database)) (c : Coordinator) (e : Error)
      → r ≡ err e
      → Ordered accepted c
      → Ordered accepted (turn_over digest agent clock rid turn (settled r c))
  unfolding turn_over
  refused-Ordered turn (err e) c f at h = unchanged refl refl refl h
  refused-Ordered turn (ok (event, db)) c f at h = absurd (ground arith)

  -- The turn that is awaited has the event's name: where a prompt hangs it has none, and the store
  -- refuses its end.
  ended-Ordered :
      (turn fault : String) (state : RequestState) (code detail : String) (c : Coordinator)
      → awaits fault turn c.active ≡ true
      → Ordered accepted c
      → Ordered accepted (
          turn_over digest agent clock rid turn
            (settled (finish_turn rid turn state code detail (clock c.transactions) c.db) c))
  ended-Ordered turn fault state code detail c hit (aligned h) = turn_over-Ordered turn _ c h
  ended-Ordered turn fault state code detail c hit (hanging b next rest at blank head h) =
      let named : b.turn_id ≡ turn = (eq_iff b.turn_id turn).0 (ground (arith, rw at at hit)) in
      let none_named : "" ≡ turn = sym blank ∙ named in
      subst
        (λ t. Ordered accepted (
          turn_over digest agent clock rid t
            (settled (finish_turn rid t state code detail (clock c.transactions) c.db) c)))
        none_named
        (let (e, refusal) = finish_turn_blank rid state code detail (clock c.transactions) c.db in
          refused-Ordered "" _ c e refusal (hanging b next rest at blank head h))

  pub handle_turn_end-Ordered :
      (event : AgentEvent Ending) (c : Coordinator)
      → Ordered accepted c
      → Ordered accepted (handle_turn_end digest agent clock rid event c)
  unfolding handle_turn_end
  handle_turn_end-Ordered event c h =
      elim (Bool-cases (
        not (awaits c.active_fault event.turn_id c.active)
        || (not (str_eq event.thread_id "") && not (str_eq event.thread_id c.thread_id)))) [
          | inl skip ↦ rw skip h
          | inr go ↦ rw go (ended-Ordered event.turn_id c.active_fault _ _ _ c (ground arith) h)
        ]

  stopped-Ordered :
      (turn : String) (r : Result (Option EventRow × Database)) (c : Coordinator)
      → Ordered accepted c
      → Ordered accepted (stopped digest agent clock rid turn (settled r c))
  unfolding stopped
  stopped-Ordered turn (err e) c h = unchanged refl refl refl h
  stopped-Ordered turn (ok (none, db)) c h =
      unchanged (rw asked-append (append-nil (asked c.calls))) refl refl h
  stopped-Ordered turn (ok (some event, db)) c h =
      unchanged (rw asked-append (append-nil (asked c.calls))) refl refl h

  suspected-Ordered :
      (turn : String) (r : Result (EventRow × Database)) (c : Coordinator)
      → Ordered accepted c
      → Ordered accepted (suspected digest agent clock rid turn (settled r c))
  unfolding suspected
  suspected-Ordered turn (err e) c h = unchanged refl refl refl h
  suspected-Ordered turn (ok (event, db)) c h =
      stopped-Ordered turn _ _ (put_state-Ordered needs_review refl refl refl h)

  faulted-Ordered :
      (event : AgentEvent Fault) (active : Option TurnBinding) (c : Coordinator)
      → Ordered accepted c
      → Ordered accepted (faulted digest agent clock rid event active c)
  unfolding faulted
  faulted-Ordered event none c h = unchanged refl refl refl h
  faulted-Ordered event (some b) c h =
      elim (Bool-cases
        (not (str_eq c.active_fault "") || is_elsewhere digest agent clock rid event b c)) [
          | inl skip ↦ rw skip h
          | inr go ↦ rw go (suspected-Ordered b.turn_id _ _ (unchanged refl refl refl h))
        ]

  pub handle_fault-Ordered :
      (event : AgentEvent Fault) (c : Coordinator)
      → Ordered accepted c
      → Ordered accepted (handle_fault digest agent clock rid event c)
  unfolding handle_fault
  handle_fault-Ordered event c h = faulted-Ordered event c.active c h

  left_behind-Ordered :
      (r : Result (EventRow × Database)) (c : Coordinator)
      → Ordered accepted c
      → Ordered accepted (left_behind digest agent clock rid (settled r c))
  unfolding left_behind
  left_behind-Ordered (err e) c h = unchanged refl refl refl h
  left_behind-Ordered (ok (event, db)) c h = put_state-Ordered needs_review refl refl refl h

  abandon-Ordered :
      (error : Option String) (active : Option TurnBinding) (c : Coordinator)
      → Ordered accepted c
      → Ordered accepted (abandon digest agent clock rid error active c)
  unfolding abandon
  abandon-Ordered error none c h = h
  abandon-Ordered error (some b) c h = elim (Bool-cases (same_state b.state needs_review)) [
    | inl skip ↦ rw skip h
    | inr go ↦ rw go (left_behind-Ordered _ c h)
  ]

  told-Ordered :
      (r : Result (Option EventRow × Database)) (c : Coordinator)
      → Ordered accepted c
      → Ordered accepted (told digest agent clock rid (settled r c))
  unfolding told
  told-Ordered (err e) c h = unchanged refl refl refl h
  told-Ordered (ok (none, db)) c h = unchanged refl refl refl h
  told-Ordered (ok (some event, db)) c h = unchanged refl refl refl h

  pub handle_unavailable-Ordered :
      (error : Option String) (c : Coordinator)
      → Ordered accepted c
      → Ordered accepted (handle_unavailable digest agent clock rid error c)
  unfolding handle_unavailable
  handle_unavailable-Ordered error c h = elim (Bool-cases (same_status c.status recovering)) [
    | inl skip ↦ rw skip (unchanged refl refl refl h)
    | inr go ↦ rw go (abandon-Ordered error _ _ (told-Ordered _ _ (unchanged refl refl refl h)))
  ]
