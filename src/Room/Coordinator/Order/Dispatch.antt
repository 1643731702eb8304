-- ===== src/Room/Coordinator/Order/Dispatch.antt =====
-- internal/room/coordinator.go: a dispatch keeps the order of the prompts.
use mathlib.Core.List.{append_assoc}
use agent_room.Prelude.{
  ℕ, ◌≡◌, refl, ap, inl, inr, false, List, [], ◌∷◌, ◌++◌, Option, none, some, String, arith,
  Bool-cases, Option-cases,
}
use agent_room.Result.{Result, ok, err}
use agent_room.Room.Types.{recovering}
use agent_room.Store.Tables.{EventRow, Database}
use agent_room.Room.Coordinator.{
  Coordinator, QueuedMessage, TurnBinding, Failure, AgentError, Agent, not_sent, unknown, Certainty,
  settled, publish_some, mutation_failure,
}
use agent_room.Room.Coordinator.Dispatch.{
  bound, passed_over, frozen, doubted, undelivered, started, begun, dispatch_queue, dispatch_next,
  is_blocked, is_some,
}
use agent_room.Room.Coordinator.Inputs.{asked}
use agent_room.Room.Coordinator.Order.{aligned, hanging, Ordered, ids, asked-append, Apart-Ordered}

-- A prompt is being started: it is the last one that was asked, and still the first of the queue.
record Starting (accepted : List String) (next : QueuedMessage) (rest : List QueuedMessage)
    (c : Coordinator) : Type 0 where
  binding : TurnBinding
  at : c.active ≡ some binding
  blank : binding.turn_id ≡ ""
  head : c.queue ≡ next ∷ rest
  order : asked c.calls ++ ids rest ≡ accepted

Starting-Ordered :
    {accepted : List String} {next : QueuedMessage} {rest : List QueuedMessage} {c : Coordinator}
    → Starting accepted next rest c
    → Ordered accepted c
Starting-Ordered {next = next} {rest = rest} s =
    hanging s.binding next rest s.at s.blank s.head s.order

-- A record that differs from `c` in other fields.
abbrev pub unchanged :
    {accepted : List String} {c c' : Coordinator}
    → asked c'.calls ≡ asked c.calls
    → c'.active ≡ c.active
    → c'.queue ≡ c.queue
    → Ordered accepted c
    → Ordered accepted c'
unchanged started active queue h =
    Apart-Ordered (record { same_started = started; same_active = active; same_queue = queue }) h

module _ (digest : String → String) (agent : Agent) (clock : ℕ → ℕ) (rid : String)
    (accepted : List String) where
  frozen-Ordered :
      (r : Result (Option EventRow × Database)) (c : Coordinator)
      → Ordered accepted c
      → Ordered accepted (frozen digest agent clock rid (settled r c)).1
  unfolding frozen publish_some
  frozen-Ordered (err e) c h = unchanged refl refl refl h
  frozen-Ordered (ok (none, db)) c h = unchanged refl refl refl h
  frozen-Ordered (ok (some event, db)) c h = unchanged refl refl refl h

  module _ (next : QueuedMessage) (rest : List QueuedMessage) where
    bound-Ordered :
        (turn : String) (r : Result (EventRow × Database)) (c : Coordinator)
        → Starting accepted next rest c
        → Ordered accepted (bound digest agent clock rid next rest turn (settled r c)).1
    unfolding bound
    bound-Ordered turn (err e) c s =
        Starting-Ordered (record {
          binding = s.binding;
          at = s.at;
          blank = s.blank;
          head = s.head;
          order = s.order;
        })
    bound-Ordered turn (ok (event, db)) c s = aligned s.order

    doubted-Ordered :
        (r : Result (EventRow × Database)) (c : Coordinator)
        → Starting accepted next rest c
        → Ordered accepted (doubted digest agent clock rid rest (settled r c)).1
    unfolding doubted
    doubted-Ordered (err e) c s =
        Starting-Ordered (record {
          binding = s.binding;
          at = s.at;
          blank = s.blank;
          head = s.head;
          order = s.order;
        })
    doubted-Ordered (ok (event, db)) c s = frozen-Ordered _ _ (aligned s.order)

    module _ (again : Coordinator → Option Failure × Coordinator)
        (keeps : (c : Coordinator)
          → c.queue ≡ rest
          → Ordered accepted c
          → Ordered accepted (again c).1) where
      passed_over-Ordered :
          (r : Result (EventRow × Database)) (c : Coordinator)
          → Starting accepted next rest c
          → Ordered accepted (passed_over digest agent clock rid again rest (settled r c)).1
      unfolding passed_over
      passed_over-Ordered (err e) c s = Starting-Ordered (record {
        binding = s.binding;
        at = s.at;
        blank = s.blank;
        head = s.head;
        order = s.order;
      })
      passed_over-Ordered (ok (event, db)) c s = keeps _ refl (aligned s.order)

      undelivered-Ordered :
          (f : String × String × Certainty) (c : Coordinator)
          → Starting accepted next rest c
          → Ordered accepted (undelivered digest agent clock rid again next rest f c).1
      unfolding undelivered
      undelivered-Ordered (code, detail, not_sent) c s = passed_over-Ordered _ c s
      undelivered-Ordered (code, detail, unknown) c s =
          doubted-Ordered _ (record c { status = recovering })
            (record {
              binding = s.binding;
              at = s.at;
              blank = s.blank;
              head = s.head;
              order = s.order;
            })

      started-Ordered :
          (answer : Option AgentError × String) (c : Coordinator)
          → Starting accepted next rest c
          → Ordered accepted (started digest agent clock rid again next rest answer c).1
      unfolding started
      started-Ordered (none, turn) c s = bound-Ordered turn _ c s
      started-Ordered (some e, turn) c s = undelivered-Ordered (mutation_failure digest e) c s

      begun-Ordered :
          (r : Result (Unit {0} × Database)) (c : Coordinator)
          → c.queue ≡ next ∷ rest
          → asked c.calls ++ ids (next ∷ rest) ≡ accepted
          → Ordered accepted (begun digest agent clock rid again next rest (settled r c)).1
      unfolding begun
      begun-Ordered (err e) c head h = aligned (rw head h)
      begun-Ordered (ok (done, db)) c head h = started-Ordered _ _ (record {
        binding = _;
        at = refl;
        blank = refl;
        head = head;
        order = rw (asked-append, append_assoc) h;
      })

  unblocked : (c : Coordinator) → is_blocked c ≡ false → c.active ≡ none
  unfolding is_blocked
  unblocked c h = elim (Option-cases c.active) [
    | inl e ↦ e
    | inr (b, e) ↦ absurd (ground (arith, ap (is_some {A = TurnBinding}) e))
  ]

  -- With no active turn no prompt is being started.
  idle-order :
      (c : Coordinator) {next : QueuedMessage} {rest : List QueuedMessage}
      → Ordered accepted c
      → c.active ≡ none
      → c.queue ≡ next ∷ rest
      → asked c.calls ++ ids (next ∷ rest) ≡ accepted
  idle-order c (aligned h) idle head = rw head at h
  idle-order c (hanging b next rest at blank first h) idle head = absurd (ground arith)

  dispatch_queue-Ordered :
      (queue : List QueuedMessage) (c : Coordinator)
      → c.queue ≡ queue
      → Ordered accepted c
      → Ordered accepted (dispatch_queue digest agent clock rid queue c).1
  unfolding dispatch_queue
  dispatch_queue-Ordered [] c head h = h
  dispatch_queue-Ordered (next ∷ rest) c head h = elim (Bool-cases (is_blocked c)) [
    | inl stop ↦ rw stop h
    | inr go ↦ rw go (
        begun-Ordered next rest (dispatch_queue digest agent clock rid rest)
          (dispatch_queue-Ordered rest) _ c head (idle-order c h (unblocked c go) head))
  ]

  pub dispatch_next-Ordered :
      (c : Coordinator)
      → Ordered accepted c
      → Ordered accepted (dispatch_next digest agent clock rid c).1
  unfolding dispatch_next
  dispatch_next-Ordered c h = dispatch_queue-Ordered c.queue c refl h
