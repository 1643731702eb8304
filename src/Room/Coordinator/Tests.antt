-- ===== src/Room/Coordinator/Tests.antt =====
-- The theorems on the coordinator, on a room where two prompts are sent while the first one runs.
use agent_room.Prelude.{ℕ, ◌+◌, ◌*◌, ◌≡◌, refl, true, false, List, [], ◌∷◌, ◌++◌, none, String}
use agent_room.Room.Types.{ready}
use agent_room.Room.Projection.{new_projection}
use agent_room.Store.Commands.{run, initialize, empty_database}
use agent_room.Store.Tables.{Database}
use agent_room.Store.Tests.Data.{test_hash, seed, ada, first_input, second_input}
use agent_room.Room.Coordinator.{Coordinator, Agent}
use agent_room.Store.Tests.Items.{plain_json}
use agent_room.Room.Coordinator.Turns.{turn_completed}
use agent_room.Room.Coordinator.Inputs
use agent_room.Room.Coordinator.Inputs.{Input, submit, turn_end, asked}
use agent_room.Room.Coordinator.Order.Inputs.{run-asked_prefix}
use agent_room.Store.History.Steps.{run-IsWellFormed}
use agent_room.Store.History.Log.{empty-IsWellFormed}
use agent_room.Room.Coordinator.Announced.{Backed}
use agent_room.Room.Coordinator.Announced.Inputs.{run-Backed}

abbrev room_db : Database
room_db = run test_hash ((initialize seed, 10) ∷ []) empty_database

abbrev idle : Coordinator
idle = record {
  status = ready;
  thread_id = "thread";
  active = none;
  pending_controls = [];
  queue = [];
  latest_seq = 0;
  asking = false;
  runtime_ready_seen = true;
  thread_ready = true;
  projection = new_projection;
  fatal = none;
  active_fault = "";
  db = room_db;
  transactions = 0;
  calls = [];
  durable = [];
  transient = [];
}

-- An agent that starts every turn, under one name.
abbrev willing : Agent
willing = record {
  validates = λ input. true;
  starts = λ calls call. (none, "turn");
  controls = λ calls call. none;
}

abbrev morning : List Input
morning =
    submit ada first_input
    ∷ submit ada second_input
    ∷ turn_end
        (record { kind = turn_completed; thread_id = "thread"; turn_id = "turn"; error = none })
    ∷ []

abbrev ticking : ℕ → ℕ
ticking n = 100 + 10 * n

abbrev after_morning : List String × Coordinator
after_morning =
    Inputs.run test_hash plain_json (λ text. text) willing ticking "room" morning ([], idle)

asked_after_morning : List String
asked_after_morning = asked after_morning.1.calls

run-asked_prefix_example :
    (rest : List String) × (asked after_morning.1.calls ++ rest ≡ after_morning.0)
run-asked_prefix_example =
    run-asked_prefix test_hash plain_json (λ text. text) willing ticking "room" morning idle
      (record { no_calls = refl; no_queue = refl })

idle-Backed : Backed idle
idle-Backed = record {
  well_formed =
      run-IsWellFormed test_hash ((initialize seed, 10) ∷ []) empty_database empty-IsWellFormed;
  stored = tt;
  latest = tt;
}

run-Backed_example : Backed after_morning.1
run-Backed_example =
    run-Backed test_hash plain_json (λ text. text) willing ticking "room" morning ([], idle)
      idle-Backed
