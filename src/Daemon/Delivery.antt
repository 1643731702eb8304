-- ===== src/Daemon/Delivery.antt =====
-- internal/daemon/hub.go: a subscription over a history of what the hub publishes and its session takes.
use agent_room.Prelude.{
  ℕ, ◌≤◌, ◌≡◌, refl, sym, ap, ◌∙◌, inl, inr, true, false, List, [], ◌∷◌, ◌++◌, Option, none, some,
  length, arith, Bool-cases,
}
use mathlib.Core.List.{append_assoc}
use agent_room.Daemon.Hub.{Broadcast, Subscription, close, receive, take_first, offer}
use agent_room.Daemon.Queue.{total, IsBounded, offer-cases, offer-IsBounded}

-- A broadcast with the length of its JSON is published, the session takes one, or it ends.
pub data QueueStep : Type 0 where
  push : Broadcast → ℕ → QueueStep
  pop shut : QueueStep

abbrev pub pushed : List QueueStep → List Broadcast
pushed [] = []
pushed (push b size ∷ steps) = b ∷ pushed steps
pushed (pop ∷ steps) = pushed steps
pushed (shut ∷ steps) = pushed steps

-- What the session receives is put before `rest`.
abbrev pub received : Option Broadcast → List Broadcast → List Broadcast
received none rest = rest
received (some b) rest = b ∷ rest

received-append :
    (o : Option Broadcast) (xs ys : List Broadcast) → received o xs ++ ys ≡ received o (xs ++ ys)
received-append none xs ys = refl
received-append (some b) xs ys = refl

-- What is received was first in the queue, and nothing else changes.
record IsTaken (s : Subscription) (r : Option Broadcast × Subscription) : Type 0 where
  first : received r.0 r.1.events ≡ s.events
  shorter : length r.1.events ≤ length s.events
  same_closed : r.1.closed ≡ s.closed
  same_sizes : r.1.sizes ≡ s.sizes
  same_bytes : r.1.bytes ≡ s.bytes

take_first-IsTaken :
    (es : List Broadcast) (s : Subscription) → s.events ≡ es → IsTaken s (take_first es s)
unfolding take_first
take_first-IsTaken [] s e = record {
  first = refl;
  shorter = omega arith;
  same_closed = refl;
  same_sizes = refl;
  same_bytes = refl;
}
take_first-IsTaken (b ∷ bs) s e = record {
  first = sym e;
  shorter = rw e (omega arith);
  same_closed = refl;
  same_sizes = refl;
  same_bytes = refl;
}

receive-IsTaken : (s : Subscription) → IsTaken s (receive s)
unfolding receive
receive-IsTaken s = take_first-IsTaken s.events s refl

close-closed : (s : Subscription) → ((close s).closed ≡ true) × ((close s).events ≡ s.events)
unfolding close
close-closed s = elim (Bool-cases s.closed) [
  | inl e ↦ (rw (close, e) refl, rw (close, e) refl)
  | inr e ↦ (rw (close, e) refl, rw (close, e) refl)
]

module _ (max_events max_bytes : ℕ) where
  receive-IsBounded :
      (s : Subscription)
      → IsBounded max_events max_bytes s
      → IsBounded max_events max_bytes (receive s).1
  receive-IsBounded s v =
      let t = receive-IsTaken s in
      record {
        few = omega (arith, t.shorter, v.few);
        while_open = λ h.
            let a = v.while_open (sym t.same_closed ∙ h) in
            record {
              counted = rw t.same_sizes (omega (arith, t.shorter, a.counted));
              summed = t.same_bytes ∙ a.summed ∙ ap total (sym t.same_sizes);
              light = rw t.same_bytes a.light;
            };
      }

  close-IsBounded :
      (s : Subscription)
      → IsBounded max_events max_bytes s
      → IsBounded max_events max_bytes (close s)
  close-IsBounded s v =
      let (shut_now, same) = close-closed s in
      record { few = rw same v.few; while_open = λ h. absurd (ground arith) }

  -- What the session has received in the end, and the subscription.
  unfoldable pub run_queue : List QueueStep → Subscription → List Broadcast × Subscription
  run_queue [] s = ([], s)
  run_queue (push b size ∷ steps) s = run_queue steps (offer max_events max_bytes b size s)
  run_queue (pop ∷ steps) s =
      let r = receive s in let rest = run_queue steps r.1 in (received r.0 rest.0, rest.1)
  run_queue (shut ∷ steps) s = run_queue steps (close s)

  -- After any history, the queue of a subscription is bounded, whether the session is fast or slow.
  pub run_queue-IsBounded :
      (steps : List QueueStep) (s : Subscription)
      → IsBounded max_events max_bytes s
      → IsBounded max_events max_bytes (run_queue steps s).1
  unfolding run_queue receive close
  run_queue-IsBounded [] s v = v
  run_queue-IsBounded (push b size ∷ steps) s v =
      run_queue-IsBounded steps (offer max_events max_bytes b size s)
        (offer-IsBounded max_events max_bytes b size s v)
  run_queue-IsBounded (pop ∷ steps) s v =
      run_queue-IsBounded steps (receive s).1 (receive-IsBounded s v)
  run_queue-IsBounded (shut ∷ steps) s v = run_queue-IsBounded steps (close s) (close-IsBounded s v)

  -- A closed subscription is drained, and gets nothing.
  run_queue-closed :
      (steps : List QueueStep) (s : Subscription)
      → s.closed ≡ true
      → ((run_queue steps s).0 ++ (run_queue steps s).1.events ≡ s.events)
        × ((run_queue steps s).1.closed ≡ true)
  unfolding run_queue
  run_queue-closed [] s h = (refl, h)
  run_queue-closed (push b size ∷ steps) s h = elim (offer-cases max_events max_bytes b size s) [
    | inl (closed_now, same) ↦
        let (whole, shut_still) =
          run_queue-closed steps (offer max_events max_bytes b size s) closed_now in
        (whole ∙ same, shut_still)
    | inr (was_open, _, _, _, _, _, _) ↦ absurd (ground arith)
  ]
  run_queue-closed (pop ∷ steps) s h =
      let t = receive-IsTaken s in
      let (whole, shut_still) = run_queue-closed steps (receive s).1 (t.same_closed ∙ h) in
      (
        received-append (receive s).0 (run_queue steps (receive s).1).0
              (run_queue steps (receive s).1).1.events
            ∙ ap (received (receive s).0) whole
            ∙ t.first,
        shut_still,
      )
  run_queue-closed (shut ∷ steps) s h =
      let (shut_now, same) = close-closed s in
      let (whole, shut_still) = run_queue-closed steps (close s) shut_now in
      (whole ∙ same, shut_still)

  -- What the session received and what waits in the queue is, in the order of publication, a first
  -- part of what was in the queue and what was published since; nothing is lost as long as the
  -- subscription is open.
  pub run_queue-prefix :
      (steps : List QueueStep) (s : Subscription)
      → (lost : List Broadcast) × (s.events ++ pushed steps
          ≡ (run_queue steps s).0 ++ (run_queue steps s).1.events ++ lost)
        × ((run_queue steps s).1.closed ≡ false → (s.closed ≡ false) × (lost ≡ []))
  unfolding run_queue
  run_queue-prefix [] s = ([], refl, λ h. (h, refl))
  run_queue-prefix (push b size ∷ steps) s =
      let new = offer max_events max_bytes b size s in
      elim (offer-cases max_events max_bytes b size s) [
        | inl (closed_now, same) ↦
            let (whole, shut_still) = run_queue-closed steps new closed_now in
            (
              b ∷ pushed steps,
              ap (λ es. es ++ b ∷ pushed steps) (sym (whole ∙ same)),
              λ h. absurd (ground arith),
            )
        | inr (was_open, _, _, stays, queue, _, _) ↦
            let (lost, whole, all) = run_queue-prefix steps new in
            (
              lost,
              sym (append_assoc s.events (b ∷ []) (pushed steps))
                  ∙ ap (λ es. es ++ pushed steps) (sym queue)
                  ∙ whole,
              λ h. (was_open, (all h).1),
            )
      ]
  run_queue-prefix (pop ∷ steps) s =
      let t = receive-IsTaken s in
      let (lost, whole, all) = run_queue-prefix steps (receive s).1 in
      (
        lost,
        ap (λ es. es ++ pushed steps) (sym t.first)
            ∙ received-append (receive s).0 (receive s).1.events (pushed steps)
            ∙ ap (received (receive s).0) whole
            ∙ sym (
                ap (λ es. es ++ lost)
                  (received-append (receive s).0 (run_queue steps (receive s).1).0
                    (run_queue steps (receive s).1).1.events)
                ∙ received-append (receive s).0
                    ((run_queue steps (receive s).1).0 ++ (run_queue steps (receive s).1).1.events)
                    lost),
        λ h. (sym t.same_closed ∙ (all h).0, (all h).1),
      )
  run_queue-prefix (shut ∷ steps) s =
      let (shut_now, same) = close-closed s in
      let (whole, shut_still) = run_queue-closed steps (close s) shut_now in
      (pushed steps, ap (λ es. es ++ pushed steps) (sym (whole ∙ same)), λ h. absurd (ground arith))
