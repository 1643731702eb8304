-- ===== src/Daemon/Tests.antt =====
-- The theorems on internal/daemon at concrete inputs.
use agent_room.Prelude.{ℕ, ◌-◌, ◌≡◌, refl, false, List, [], ◌∷◌, ◌++◌, map, arith}
use agent_room.Store.Tables.{EventRow, turn_running}
use agent_room.Store.Commands.{Command}
use agent_room.Store.Tests.Data.{ada, opened, test_hash, turn}
use agent_room.Store.Tests.Runs.{opened-IsWellFormed, test_latest}
use agent_room.Daemon.Hub.{Broadcast, durable, Subscription, new_subscription}
use agent_room.Daemon.Queue.{IsBounded}
use agent_room.Daemon.Delivery.{
  QueueStep, push, pop, pushed, run_queue, run_queue-IsBounded, run_queue-prefix,
}
use agent_room.Daemon.Replay.{reached, replay}
use agent_room.Daemon.Live.{live, replay-live}
use agent_room.Daemon.Catchup.{span}

abbrev event : EventRow
event = record {
  room_id = "room";
  seq = 1;
  actor_uid = 1;
  kind = "turn/running";
  payload = turn_running "id" "turn";
  created_at = 10;
}

abbrev fresh : Subscription
fresh = new_subscription ada

fresh-IsBounded : IsBounded 1 100 fresh
fresh-IsBounded = record {
  few = omega arith;
  while_open = λ h. record { counted = omega arith; summed = refl; light = omega arith };
}

-- The second broadcast is taken in time, and the fourth finds the queue full.
abbrev steps : List QueueStep
steps =
    push (durable event) 40
    ∷ pop
    ∷ push (durable event) 60
    ∷ pop
    ∷ push (durable event) 50
    ∷ push (durable event) 50
    ∷ []

run_queue-IsBounded_example : IsBounded 1 100 (run_queue 1 100 steps fresh).1
run_queue-IsBounded_example = run_queue-IsBounded 1 100 steps fresh fresh-IsBounded

run_queue-prefix_example :
    (lost : List Broadcast) × (fresh.events ++ pushed steps
      ≡ (run_queue 1 100 steps fresh).0 ++ (run_queue 1 100 steps fresh).1.events ++ lost)
    × ((run_queue 1 100 steps fresh).1.closed ≡ false → (fresh.closed ≡ false) × (lost ≡ []))
run_queue-prefix_example = run_queue-prefix 1 100 steps fresh

-- The prompt is run to its end while the client catches up.
abbrev busy : ℕ → List (Command × ℕ)
busy n = turn

replay-live_example :
    ((replay (live test_hash busy opened) "room" 1 opened).outcome ≡ reached 2)
    × (map (λ e. e.seq) (replay (live test_hash busy opened) "room" 1 opened).sent ≡ span 1 (2 - 1))
replay-live_example =
    replay-live test_hash busy "room" 1 2 opened opened-IsWellFormed test_latest (omega arith)
      (omega arith)
