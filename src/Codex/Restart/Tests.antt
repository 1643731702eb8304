-- ===== src/Codex/Restart/Tests.antt =====
-- A process that ends, a start that fails once, and a new process.
use agent_room.Prelude.{refl, true, false, List, [], ◌∷◌, arith}
use agent_room.Codex.Restart.{
  Answer, forwarding, forwarded, drained, released, accepted, stopped, started, clean, unsaved,
  launched, retryable, run, alive_of,
}
use agent_room.Codex.Restart.Alone.{Safe, run-Safe}

abbrev restart : List Answer
restart =
    forwarded true false
    ∷ drained true
    ∷ accepted true
    ∷ stopped unsaved
    ∷ released true
    ∷ stopped clean
    ∷ started retryable
    ∷ released true
    ∷ started (launched 2)
    ∷ accepted true
    ∷ accepted true
    ∷ []

run-Safe_example :
    Safe 100 3000
      (run 100 3000 restart (forwarding 1))
      (alive_of 100 3000 restart (forwarding 1) (1 ∷ []))
run-Safe_example = run-Safe 100 3000 (omega arith) restart (forwarding 1) (1 ∷ []) refl
