-- ===== src/Workgroup/Plan.antt =====
-- internal/workgroup/plan.go: an explicit plan, from the steps that were decoded from its JSON to the
-- order in which they run.
use agent_room.Prelude.{
  ℕ, zero, suc, Bool, not, ◌&&◌, ◌||◌, List, [], ◌∷◌, Option, none, some, String, str_eq,
  if◌then◌else◌, ltb, any, all, find, length, map,
}
use agent_room.Prelude.Text.{is_blank, byte_len}
use agent_room.Prelude.Int.{pos}
use agent_room.Workgroup.Config.{Agent, valid_id}

pub record Step : Type 0 where
  pub id : String
  pub agent : String
  pub prompt : String
  pub depends_on : List String

pub record PlannedStep : Type 0 where
  pub step : Step
  pub member : Agent

pub data PlanError : Type 0 where
  wrong_size cyclic : PlanError
  bad_step_id unknown_agent bad_prompt : String → PlanError
  bad_dependency : (step dependency : String) → PlanError

pub data Planned : Type 0 where
  planned : List PlannedStep → Planned
  refused : PlanError → Planned

abbrev pub is_step : String → Step → Bool
is_step id s = str_eq s.id id

abbrev pub is_agent : String → Agent → Bool
is_agent id m = str_eq m.id id

-- The first loop; `seen` holds the steps before, and `none` is no error.
unfoldable pub check_steps : List Agent → List Step → List Step → Option PlanError
unfolding valid_id
check_steps members seen [] = none
check_steps members seen (s ∷ ss) =
    let rest = check_steps members (s ∷ seen) ss in
    if not (valid_id s.id) || any (is_step s.id) seen
    then some (bad_step_id s.id)
    else if not (any (is_agent s.agent) members)
    then some (unknown_agent s.agent)
    else if is_blank s.prompt || ltb 8000 (byte_len s.prompt)
    then some (bad_prompt s.id)
    else rest

-- The dependencies of one step, with those before.
unfoldable pub check_dependencies : Step → List Step → List String → List String → Option PlanError
check_dependencies s steps seen [] = none
check_dependencies s steps seen (d ∷ ds) =
    let rest = check_dependencies s steps (d ∷ seen) ds in
    if str_eq d s.id || not (any (is_step d) steps) || any (λ e. str_eq e d) seen
    then some (bad_dependency s.id d)
    else rest

-- The second loop.
unfoldable pub check_all_dependencies : List Step → List Step → Option PlanError
unfolding check_dependencies
check_all_dependencies steps [] = none
check_all_dependencies steps (s ∷ ss) =
    let rest = check_all_dependencies steps ss in
    elim (check_dependencies s steps [] s.depends_on) [ some e ↦ some e | none ↦ rest ]

abbrev pub is_done : List String → String → Bool
is_done done id = any (λ d. str_eq d id) done

abbrev pub is_ready : List String → Step → Bool
is_ready done s = not (is_done done s.id) && all (is_done done) s.depends_on

-- The last loop, as often as steps are missing: the first step that is not done and whose
-- dependencies are done comes next; `none` is a cycle.
unfoldable pub order_steps : ℕ → List String → List Step → Option (List Step)
order_steps zero done steps = some []
order_steps (suc n) done steps = elim (find (is_ready done) steps) [
  | none ↦ none
  | some s ↦ elim (order_steps n (s.id ∷ done) steps) [
    | none ↦ none
    | some later ↦ some (s ∷ later)
  ]
]

abbrev no_agent : Agent
no_agent = record {
  mode = "";
  id = "";
  name = "";
  provider = "";
  description = "";
  instructions = "";
  command = [];
  timeout_seconds = pos 0;
}

-- The value of a map that was filled in order: the last member of an id, or the zero value.
unfoldable pub member_of : List Agent → String → Agent
member_of [] id = no_agent
member_of (m ∷ ms) id = if is_agent id m && not (any (is_agent id) ms) then m else member_of ms id

unfoldable pub plan_steps : List Agent → List Step → Planned
unfolding check_steps check_all_dependencies order_steps
plan_steps members steps =
    if ltb (length steps) 1 || ltb 16 (length steps)
    then refused wrong_size
    else elim (check_steps members [] steps) [
      | some e ↦ refused e
      | none ↦ elim (check_all_dependencies steps steps) [
        | some e ↦ refused e
        | none ↦ elim (order_steps (length steps) [] steps) [
          | none ↦ refused cyclic
          | some ordered ↦
              planned (
                map (λ (s : Step). record { step = s; member = member_of members s.agent }) ordered)
        ]
      ]
    ]
