-- ===== src/Codex/Restart.antt =====
-- internal/codex/runtime.go: the owner of the agent's process, which starts another one when it has
-- ended. What the supervisor, the sleeper and the context do is another goroutine's: each phase of
-- `run` is left by an answer.
pub mod Alone
mod Tests
use agent_room.Prelude.{
  ℕ, ◌*◌, ◌/◌, Bool, true, false, ◌||◌, List, [], ◌∷◌, if◌then◌else◌, ltb, leb, ◌==◌, select, not,
}

-- The errors that `run` tells apart: of the checkpoint, of the cleanup, and any other one.
pub data StopAnswer : Type 0 where
  clean unsaved failing : StopAnswer

pub data StartAnswer : Type 0 where
  launched : (session : ℕ) → StartAnswer
  fatal_start retryable : StartAnswer

-- What a phase waits for. `released` is the end of a sleep that is not an error, `accepted` an event
-- that was taken, or a replacement that was installed.
pub data Answer : Type 0 where
  forwarded : (failed stop : Bool) → Answer
  drained released accepted : Bool → Answer
  stopped : StopAnswer → Answer
  started : StartAnswer → Answer

-- Where `run` is, with its variables `session` and `delay`.
pub data Phase : Type 0 where
  forwarding draining announcing first_stop last_stop : (session : ℕ) → Phase
  pausing stopping_again : (session delay : ℕ) → Phase
  resting starting backing_off idle : (delay : ℕ) → Phase
  installing ready : (session delay : ℕ) → Phase
  ended : Phase

-- `nextBackoff` on durations that are not negative.
unfoldable pub next_backoff : ℕ → ℕ → ℕ
next_backoff maximum current =
    if leb maximum current || ltb (maximum / 2) current then maximum else current * 2

module _ (initial maximum : ℕ) where
  -- The first `Stop` of a session that has failed.
  unfoldable pub after_stop : ℕ → StopAnswer → Phase
  after_stop session clean = resting initial
  after_stop session unsaved = pausing session initial
  after_stop session failing = idle initial

  -- `Stop` in the loop: an error doubles the delay, and one that is not of the checkpoint ends it.
  unfoldable pub after_retry : ℕ → ℕ → StopAnswer → Phase
  unfolding next_backoff
  after_retry session delay clean = starting delay
  after_retry session delay unsaved = pausing session (next_backoff maximum delay)
  after_retry session delay failing = idle (next_backoff maximum delay)

  unfoldable pub after_start : ℕ → StartAnswer → Phase
  unfolding next_backoff
  after_start delay (launched session) = installing session delay
  after_start delay fatal_start = idle (next_backoff maximum delay)
  after_start delay retryable = backing_off (next_backoff maximum delay)

  -- The phase after an answer; an answer to another call changes nothing.
  unfoldable pub after : Phase → Answer → Phase
  unfolding after_stop after_retry after_start next_backoff
  after (forwarding s) (forwarded failed stop) =
      if stop then last_stop s else if failed then draining s else forwarding s
  after (draining s) (drained closed) = if closed then announcing s else last_stop s
  after (announcing s) (accepted b) = if b then first_stop s else last_stop s
  after (first_stop s) (stopped r) = after_stop s r
  after (pausing s delay) (released b) = if b then stopping_again s delay else ended
  after (stopping_again s delay) (stopped r) = after_retry s delay r
  after (resting delay) (released b) = if b then starting delay else ended
  after (starting delay) (started r) = after_start delay r
  after (backing_off delay) (released b) = if b then starting delay else ended
  after (installing s delay) (accepted b) = if b then ready s delay else last_stop s
  after (ready s delay) (accepted b) = if b then forwarding s else last_stop s
  after (last_stop s) (stopped r) = ended
  after (idle delay) (released b) = if b then idle (next_backoff maximum delay) else ended
  after phase answer = phase

  unfoldable pub run : List Answer → Phase → Phase
  run [] phase = phase
  run (a ∷ answers) phase = run answers (after phase a)

-- The processes that a `Start` has left and no `Stop` has ended without an error.
unfoldable pub alive_after : Phase → Answer → List ℕ → List ℕ
alive_after (starting delay) (started (launched session)) alive = session ∷ alive
alive_after (first_stop s) (stopped clean) alive = select (λ x. not (x == s)) alive
alive_after (stopping_again s delay) (stopped clean) alive = select (λ x. not (x == s)) alive
alive_after (last_stop s) (stopped clean) alive = select (λ x. not (x == s)) alive
alive_after phase answer alive = alive

module _ (initial maximum : ℕ) where
  unfoldable pub alive_of : List Answer → Phase → List ℕ → List ℕ
  unfolding alive_after after
  alive_of [] phase alive = alive
  alive_of (a ∷ answers) phase alive =
      alive_of answers (after initial maximum phase a) (alive_after phase a alive)
