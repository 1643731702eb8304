-- ===== src/Room/Coordinator/Order/Control.antt =====
-- internal/room/coordinator.go: a control starts no prompt, and leaves the queue as it is.
use mathlib.Core.List.{append-nil}
use agent_room.Prelude.{
  ℕ, ◌≡◌, refl, ◌∙◌, inl, inr, Bool, true, false, not, ◌||◌, List, [], ◌∷◌, ◌++◌, Option, none,
  some, String, Bool-cases, if◌then◌else◌,
}
use agent_room.Result.{Result, ok, err}
use agent_room.Room.Types.{
  needs_review, ready, recovering, Actor, ControlInput, ControlKind, dispatching,
}
use agent_room.Store.Tables.{Canonical, EventRow, Database}
use agent_room.Store.Rooms.{same_status}
use agent_room.Store.Accept.{Acceptance, accept_control}
use agent_room.Room.Coordinator.{
  Coordinator, TurnBinding, Failure, stored, rejected, stale_turn, delivery_not_sent,
  delivery_unknown, no_active_turn, AgentError, Agent, AgentCall, not_sent, unknown, Certainty,
  settled, publish, note_call, mutation_failure, steer_turn, interrupt_turn,
}
use agent_room.Room.Coordinator.Control.{
  ControlOutcome, runs_turn, control_call, finished, end_control, control_frozen, control_doubted,
  uncontrolled, controlled, deliver, directed, handle_control,
}
use agent_room.Room.Coordinator.Inputs.{asked}
use agent_room.Room.Coordinator.Order.{Apart, asked-append}

pub Apart-refl : {c : Coordinator} → Apart c c
Apart-refl = record { same_started = refl; same_active = refl; same_queue = refl }

pub Apart-trans : {a b c : Coordinator} → Apart a b → Apart b c → Apart a c
Apart-trans h k = record {
  same_started = k.same_started ∙ h.same_started;
  same_active = k.same_active ∙ h.same_active;
  same_queue = k.same_queue ∙ h.same_queue;
}

-- Two branches that are apart.
if-Apart :
    {A B : Type 0} {c : Coordinator} (b : Bool) (x y : A × B × Coordinator)
    → Apart c x.2
    → Apart c y.2
    → Apart c (if b then x else y).2
if-Apart true x y h k = h
if-Apart false x y h k = k

control_call-Apart :
    (thread : String) (input : ControlInput) (calls : List AgentCall)
    → asked (calls ++ control_call thread input ∷ []) ≡ asked calls
control_call-Apart thread input calls = rw asked-append (kind input.kind)
  where
    kind :
        (k : ControlKind)
        → asked calls
            ++ asked (
                (elim k as (λ x. AgentCall) [
                  | ControlKind.steer ↦ steer_turn thread input.expected_turn_id input.text
                  | _ ↦ interrupt_turn thread input.expected_turn_id
                ])
                ∷ [])
          ≡ asked calls
    kind ControlKind.steer = append-nil (asked calls)
    kind ControlKind.cancel = append-nil (asked calls)
    kind (ControlKind.other text) = append-nil (asked calls)

module _ (digest : String → String) (agent : Agent) (clock : ℕ → ℕ) (rid : String) where
  finished-Apart :
      (got : Acceptance) (outcome : ControlOutcome) (result : Option Failure)
      (r : Result (EventRow × Database)) (c : Coordinator)
      → Apart c (finished digest agent clock rid got outcome result (settled r c)).2
  unfolding finished
  finished-Apart got outcome result (err e) c = record {
    same_started = refl;
    same_active = refl;
    same_queue = refl;
  }
  finished-Apart got outcome result (ok (event, db)) c = record {
    same_started = refl;
    same_active = refl;
    same_queue = refl;
  }

  end_control-Apart :
      (got : Acceptance) (outcome : ControlOutcome) (result : Option Failure) (c : Coordinator)
      → Apart c (end_control digest agent clock rid got outcome result c).2
  unfolding end_control
  end_control-Apart got outcome result c = finished-Apart got outcome result _ c

  control_frozen-Apart :
      (got : Acceptance) (r : Result (Option EventRow × Database)) (c : Coordinator)
      → Apart c (control_frozen digest agent clock rid got (settled r c)).2
  unfolding control_frozen
  control_frozen-Apart got (err e) c = record {
    same_started = refl;
    same_active = refl;
    same_queue = refl;
  }
  control_frozen-Apart got (ok (none, db)) c = record {
    same_started = refl;
    same_active = refl;
    same_queue = refl;
  }
  control_frozen-Apart got (ok (some event, db)) c = record {
    same_started = refl;
    same_active = refl;
    same_queue = refl;
  }

  control_doubted-Apart :
      (got : Acceptance) (result : Option Failure) (c : Coordinator)
      → Apart c (control_doubted digest agent clock rid (got, result, c)).2
  unfolding control_doubted
  control_doubted-Apart got (some (stored e)) c = Apart-refl
  control_doubted-Apart got (some rejected) c = control_frozen-Apart got _ c
  control_doubted-Apart got (some stale_turn) c = control_frozen-Apart got _ c
  control_doubted-Apart got (some delivery_not_sent) c = control_frozen-Apart got _ c
  control_doubted-Apart got (some delivery_unknown) c = control_frozen-Apart got _ c
  control_doubted-Apart got (some no_active_turn) c = control_frozen-Apart got _ c
  control_doubted-Apart got none c = control_frozen-Apart got _ c

  frozen_status : (c : Coordinator) → Apart c (record c { status = recovering })
  frozen_status c = record { same_started = refl; same_active = refl; same_queue = refl }

  uncontrolled-Apart :
      (got : Acceptance) (f : String × String × Certainty) (c : Coordinator)
      → Apart c (uncontrolled digest agent clock rid got f c).2
  unfolding uncontrolled
  uncontrolled-Apart got (code, detail, not_sent) c = end_control-Apart got _ _ c
  uncontrolled-Apart got (code, detail, unknown) c =
      let c' = record c { status = recovering } in
      let outcome : ControlOutcome = record {
        state = needs_review;
        error_code = code;
        error_digest = detail;
      } in
      let ended = end_control digest agent clock rid got outcome (some delivery_unknown) c' in
      Apart-trans
        (Apart-trans (frozen_status c) (end_control-Apart got outcome (some delivery_unknown) c'))
        (control_doubted-Apart ended.0 ended.1 ended.2)

  controlled-Apart :
      (got : Acceptance) (answer : Option AgentError) (c : Coordinator)
      → Apart c (controlled digest agent clock rid got answer c).2
  unfolding controlled
  controlled-Apart got none c = end_control-Apart got _ _ c
  controlled-Apart got (some e) c = uncontrolled-Apart got (mutation_failure digest e) c

  deliver-Apart :
      (input : ControlInput) (got : Acceptance) (c : Coordinator)
      → Apart c (deliver digest agent clock rid input got c).2
  unfolding deliver
  deliver-Apart input got c =
      let call = control_call c.thread_id input in
      elim (Bool-cases
        (not (same_status c.status ready) || not (runs_turn input.expected_turn_id c.active))) [
          | inl stale ↦ rw stale (end_control-Apart got _ _ c)
          | inr fine ↦ rw fine (
              Apart-trans
                (record {
                  same_started = control_call-Apart c.thread_id input c.calls;
                  same_active = refl;
                  same_queue = refl;
                })
                (controlled-Apart got (agent.controls c.calls call) (note_call call c)))
        ]

  directed-Apart :
      (input : ControlInput) (r : Result (Acceptance × Database)) (c : Coordinator)
      → Apart c (directed digest agent clock rid input (settled r c)).2
  unfolding directed
  directed-Apart input (err e) c = record {
    same_started = refl;
    same_active = refl;
    same_queue = refl;
  }
  directed-Apart input (ok (got, db)) c =
      let c' = publish got.event (settled (ok (got, db)) c).1 in
      let pending : TurnBinding = record {
        message_id = got.client_message_id;
        turn_id = input.expected_turn_id;
        state = dispatching;
      } in
      if-Apart got.duplicate _ _
        (record { same_started = refl; same_active = refl; same_queue = refl })
        (Apart-trans (record { same_started = refl; same_active = refl; same_queue = refl })
          (deliver-Apart input got
            (record c' { pending_controls = c'.pending_controls ++ pending ∷ [] })))

  pub handle_control-Apart :
      (hash : Canonical → String) (actor : Actor) (input : ControlInput) (c : Coordinator)
      → Apart c (handle_control digest agent clock rid hash actor input c).2
  unfolding handle_control
  handle_control-Apart hash actor input c =
      directed-Apart input (accept_control hash rid actor input (clock c.transactions) c.db) c
