-- ===== src/Workgroup/Tests.antt =====
-- The theorems on internal/workgroup at concrete inputs: a plan whose steps are written down in the
-- wrong order.
use agent_room.Prelude.{
  ℕ, ◌≤◌, ◌≡◌, refl, Bool, true, List, [], ◌∷◌, none, String, str_eq, if◌then◌else◌, length, count,
  map, any, arith,
}
use agent_room.Prelude.Text.{is_blank}
use agent_room.Workgroup.Config.{Config, validate}
use agent_room.Workgroup.Plan.{
  Step, PlannedStep, planned, check_steps, check_all_dependencies, plan_steps,
}
use agent_room.Workgroup.Samples.{codex, steps, order, test_plan}
use agent_room.Workgroup.Order.{IsInOrder}
use agent_room.Workgroup.Members.{HasOwnIds, is_codex, validate-HasOwnIds}
use agent_room.Workgroup.Promise.{plan_steps-IsInOrder, plan_steps_total}

plan_steps-IsInOrder_example :
    IsInOrder [] (map (λ x. x.step) order)
    × ((p : Step → Bool) → count p (map (λ x. x.step) order) ≡ count p steps)
plan_steps-IsInOrder_example = plan_steps-IsInOrder (codex ∷ []) steps test_plan

abbrev rank : String → ℕ
rank id = if str_eq id "test" then 1 else 0

test_checks : check_steps (codex ∷ []) [] steps ≡ none
unfolding check_steps is_blank
test_checks = refl

test_dependencies : check_all_dependencies steps steps ≡ none
unfolding check_all_dependencies
test_dependencies = refl

plan_steps_total_example : (ps : List PlannedStep) × (plan_steps (codex ∷ []) steps ≡ planned ps)
plan_steps_total_example =
    plan_steps_total (codex ∷ []) steps rank (omega arith) (omega arith) test_checks
      test_dependencies ((omega arith, tt), (tt, tt))

abbrev config : Config
config = record { version = 1; members = codex ∷ [] }

test_valid : validate config ≡ none
unfolding validate is_blank
test_valid = refl

validate-HasOwnIds_example :
    (1 ≤ length config.members)
    × (length config.members ≤ 16)
    × HasOwnIds config.members
    × (any is_codex config.members ≡ true)
validate-HasOwnIds_example = validate-HasOwnIds config test_valid
