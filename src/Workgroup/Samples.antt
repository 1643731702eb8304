-- ===== src/Workgroup/Samples.antt =====
-- A plan of two steps, written down in the wrong order, for one member.
use agent_room.Prelude.{◌≡◌, refl, List, [], ◌∷◌, map}
use agent_room.Prelude.Int.{pos}
use agent_room.Prelude.Text.{is_blank}
use agent_room.Workgroup.Config.{Agent}
use agent_room.Workgroup.Plan.{Step, PlannedStep, planned, plan_steps}
use agent_room.Workgroup.Promise.{assign}

abbrev pub codex : Agent
codex = record {
  mode = "";
  id = "codex";
  name = "Codex Agent";
  provider = "codex";
  description = "";
  instructions = "";
  command = [];
  timeout_seconds = pos 1800;
}

abbrev pub test_step : Step
test_step = record {
  id = "test";
  agent = "codex";
  prompt = "run the tests";
  depends_on = "build" ∷ [];
}

abbrev pub build_step : Step
build_step = record { id = "build"; agent = "codex"; prompt = "build"; depends_on = [] }

abbrev pub steps : List Step
steps = test_step ∷ build_step ∷ []

abbrev pub order : List PlannedStep
order = map (assign (codex ∷ [])) (build_step ∷ test_step ∷ [])

pub test_plan : plan_steps (codex ∷ []) steps ≡ planned order
unfolding plan_steps is_blank
test_plan = refl
