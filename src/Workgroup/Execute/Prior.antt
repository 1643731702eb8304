-- ===== src/Workgroup/Execute/Prior.antt =====
-- internal/workgroup/runtime.go: a step is given the results that it depends on.
use agent_room.Prelude.{◌≡◌, true, List, [], ◌∷◌, ◌++◌, ◌⊎◌, String}
use agent_room.Workgroup.Plan.{is_done}
use agent_room.Workgroup.Execute.{
  StepResult, Assignment, Round, Work, Flow, next, break, quit, result_of,
}

-- What the member answered when it was given the assignment, in the round of its step.
abbrev pub answer_of : Assignment → Round → StepResult
answer_of a env = record { step_id = a.step_id; agent_id = a.agent_id; text = (env.reply a).1 }

-- A result is one of the answers.
abbrev pub IsOneOf : List StepResult → StepResult → Type 0
IsOneOf [] r = ⊥
IsOneOf (x ∷ xs) r = (x ≡ r) ⊎ IsOneOf xs r

-- The results handed over are, one for each name and in their order, answers to the assignments of
-- the steps of these names.
abbrev pub Supplied : List StepResult → List String → List StepResult → Type 0
Supplied answers [] [] = Unit
Supplied answers (d ∷ ds) (r ∷ rs) = (r.step_id ≡ d) × IsOneOf answers r × Supplied answers ds rs
Supplied answers _ _ = ⊥

-- Each assignment, of the round at its place, is supplied from the answers of the rounds before.
abbrev pub Handed : List StepResult → List Assignment → List Round → Type 0
Handed answers [] envs = Unit
Handed answers (a ∷ xs) [] = ⊥
Handed answers (a ∷ xs) (env ∷ envs) =
    Supplied answers a.depends_on a.prior × Handed (answer_of a env ∷ answers) xs envs

-- Every step that is done has left its result, which is its answer.
abbrev Covers : List String → List (String × StepResult) → List StepResult → Type 0
Covers done results answers =
    (id : String)
    → is_done done id ≡ true
    → ((result_of id results).step_id ≡ id) × IsOneOf answers (result_of id results)

-- The assignments that are added.
abbrev Adds : Work → Work → List Assignment → Type 0
Adds w w' xs = w'.assignments ≡ w.assignments ++ xs

-- What the round of a step may leave: no assignment if it ends before, or the step's own one.
abbrev Left : List StepResult → Round → List String → Work → Flow → Type 0
Left answers env done w (next w') =
    (a : Assignment) × Adds w w' (a ∷ [])
    × Supplied answers a.depends_on a.prior
    × Covers done w'.results (answer_of a env ∷ answers)
Left answers env done w (break s w') =
    (xs : List Assignment) × Adds w w' xs × Handed answers xs (env ∷ [])
Left answers env done w (quit w') =
    (xs : List Assignment) × Adds w w' xs × Handed answers xs (env ∷ [])

-- The assignments of the rounds from here on.
abbrev Rest : List StepResult → List Round → Work → Work → Type 0
Rest answers envs w w' = (xs : List Assignment) × Adds w w' xs × Handed answers xs envs
