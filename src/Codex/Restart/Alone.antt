-- ===== src/Codex/Restart/Alone.antt =====
-- internal/codex/runtime.go: one process at a time, and the bounds of the delay.
use agent_room.Prelude.{
  ℕ, ◌≤◌, ◌≡◌, refl, true, false, not, List, [], ◌∷◌, arith, length, select, ◌==◌, ==_iff,
}
use agent_room.Codex.Restart.{
  Answer, Phase, forwarding, draining, announcing, first_stop, last_stop, pausing, stopping_again,
  resting, starting, backing_off, idle, installing, ready, ended, forwarded, drained, released,
  accepted, stopped, started, clean, unsaved, failing, launched, fatal_start, retryable,
  next_backoff, after_stop, after_retry, after_start, after, run, alive_after, alive_of,
}

next_backoff-bounds :
    (maximum current : ℕ)
    → current ≤ maximum
    → (current ≤ next_backoff maximum current) × (next_backoff maximum current ≤ maximum)
unfolding next_backoff
next_backoff-bounds maximum current h = (ground arith, ground arith)

module _ (initial maximum : ℕ) where
  abbrev pub IsDelay : ℕ → Type 0
  IsDelay delay = (initial ≤ delay) × (delay ≤ maximum)

  -- What is known in each phase of the processes that run and of the delay: none runs where one is
  -- started, and the one of the session where it is stopped.
  abbrev pub Safe : Phase → List ℕ → Type 0
  Safe (forwarding s) alive = alive ≡ s ∷ []
  Safe (draining s) alive = alive ≡ s ∷ []
  Safe (announcing s) alive = alive ≡ s ∷ []
  Safe (first_stop s) alive = alive ≡ s ∷ []
  Safe (last_stop s) alive = alive ≡ s ∷ []
  Safe (pausing s delay) alive = (alive ≡ s ∷ []) × IsDelay delay
  Safe (stopping_again s delay) alive = (alive ≡ s ∷ []) × IsDelay delay
  Safe (resting delay) alive = (alive ≡ []) × IsDelay delay
  Safe (starting delay) alive = (alive ≡ []) × IsDelay delay
  Safe (backing_off delay) alive = (alive ≡ []) × IsDelay delay
  Safe (idle delay) alive = (length alive ≤ 1) × IsDelay delay
  Safe (installing s delay) alive = (alive ≡ s ∷ []) × IsDelay delay
  Safe (ready s delay) alive = (alive ≡ s ∷ []) × IsDelay delay
  Safe ended alive = length alive ≤ 1

  next-IsDelay : (delay : ℕ) → IsDelay delay → IsDelay (next_backoff maximum delay)
  next-IsDelay delay (low, high) =
      let (up, below) = next_backoff-bounds maximum delay high in (omega arith, below)

  gone : (s : ℕ) {alive : List ℕ} → alive ≡ s ∷ [] → select (λ x. not (x == s)) alive ≡ []
  gone s h = rw h (ground (arith, ==_iff s s))

  one : (s : ℕ) {alive : List ℕ} → alive ≡ s ∷ [] → length alive ≤ 1
  one s h = rw h (omega arith)

  module _ (ordered : initial ≤ maximum) where
    step-Safe :
        (phase : Phase) (a : Answer) (alive : List ℕ)
        → Safe phase alive
        → Safe (after initial maximum phase a) (alive_after phase a alive)
    unfolding after alive_after after_stop after_retry after_start
    step-Safe (forwarding s) (forwarded failed true) alive h = h
    step-Safe (forwarding s) (forwarded true false) alive h = h
    step-Safe (forwarding s) (forwarded false false) alive h = h
    step-Safe (draining s) (drained true) alive h = h
    step-Safe (draining s) (drained false) alive h = h
    step-Safe (announcing s) (accepted true) alive h = h
    step-Safe (announcing s) (accepted false) alive h = h
    step-Safe (first_stop s) (stopped clean) alive h = (gone s h, (omega arith, ordered))
    step-Safe (first_stop s) (stopped unsaved) alive h = (h, (omega arith, ordered))
    step-Safe (first_stop s) (stopped failing) alive h = (one s h, (omega arith, ordered))
    step-Safe (pausing s delay) (released true) alive h = h
    step-Safe (pausing s delay) (released false) alive (h, d) = one s h
    step-Safe (stopping_again s delay) (stopped clean) alive (h, d) = (gone s h, d)
    step-Safe (stopping_again s delay) (stopped unsaved) alive (h, d) = (h, next-IsDelay delay d)
    step-Safe (stopping_again s delay) (stopped failing) alive (h, d) =
        (one s h, next-IsDelay delay d)
    step-Safe (resting delay) (released true) alive h = h
    step-Safe (resting delay) (released false) alive (h, d) = rw h (omega arith)
    step-Safe (starting delay) (started (launched s)) alive (h, d) = (rw h refl, d)
    step-Safe (starting delay) (started fatal_start) alive (h, d) =
        (rw h (omega arith), next-IsDelay delay d)
    step-Safe (starting delay) (started retryable) alive (h, d) = (h, next-IsDelay delay d)
    step-Safe (backing_off delay) (released true) alive h = h
    step-Safe (backing_off delay) (released false) alive (h, d) = rw h (omega arith)
    step-Safe (installing s delay) (accepted true) alive h = h
    step-Safe (installing s delay) (accepted false) alive (h, d) = h
    step-Safe (ready s delay) (accepted true) alive (h, d) = h
    step-Safe (ready s delay) (accepted false) alive (h, d) = h
    step-Safe (last_stop s) (stopped clean) alive h = rw (gone s h) (omega arith)
    step-Safe (last_stop s) (stopped unsaved) alive h = one s h
    step-Safe (last_stop s) (stopped failing) alive h = one s h
    step-Safe (idle delay) (released true) alive (h, d) = (h, next-IsDelay delay d)
    step-Safe (idle delay) (released false) alive (h, d) = h
    step-Safe phase a alive h = h

    -- Whatever the supervisor, the sleeper and the consumer answer, and for as long as they do, from
    -- a running session on: a process is started only where no other one runs, so at most one runs
    -- at any time, and each delay is between the initial and the maximal one.
    pub run-Safe :
        (answers : List Answer) (phase : Phase) (alive : List ℕ)
        → Safe phase alive
        → Safe (run initial maximum answers phase) (alive_of initial maximum answers phase alive)
    unfolding run alive_of
    run-Safe [] phase alive h = h
    run-Safe (a ∷ answers) phase alive h =
        run-Safe answers (after initial maximum phase a) (alive_after phase a alive)
          (step-Safe phase a alive h)
