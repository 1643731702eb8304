-- ===== src/Workgroup/Execute.antt =====
-- internal/workgroup/runtime.go: the run of a plan whose steps are known, step by step. The database
-- of the runs, the context and the providers are other code: what they answer in each step is the
-- record `Round`, and an emission that fails means that the runtime is shut down.
pub mod Prior
pub mod Ending
pub mod Receipts
mod Tests
use agent_room.Prelude.{
  ℕ, suc, ◌+◌, ◌*◌, Bool, true, false, not, ◌&&◌, ◌||◌, List, [], ◌∷◌, ◌++◌, Option, none, some,
  String, str_eq, if◌then◌else◌, ltb, find, map,
}
use agent_room.Prelude.Text.{is_blank, byte_len}
use agent_room.Room.Types.{RequestState}
use agent_room.Workgroup.Plan.{Step, PlannedStep}

-- `Result`, as a provider gives it; the ids are the runtime's.
pub record StepResult : Type 0 where
  pub step_id : String
  pub agent_id : String
  pub text : String

abbrev pub zero_result : StepResult
zero_result = record { step_id = ""; agent_id = ""; text = "" }

-- The part of `Assignment` that changes from step to step.
pub record Assignment : Type 0 where
  pub agent_id : String
  pub step_id : String
  pub step_prompt : String
  pub depends_on : List String
  pub instructions : String
  pub prior : List StepResult

pub data StepError : Type 0 where
  delivery_unknown : StepError
  other : String → StepError

pub data StepState : Type 0 where
  waiting running completed failed interrupted unknown blocked : StepState

pub record Receipt : Type 0 where
  pub step : Step
  pub state : StepState

-- The completed items of the turn, which the code marshals to JSON.
pub data Item : Type 0 where
  start_item : ℕ → (agent step : String) (depends_on : List String) → Item
  result_item : ℕ → StepResult → (depends_on : List String) → Item
  workflow_item : (agent : String) → List Receipt → Item

-- What the surroundings answer during a step: the context's error before it, the writes and
-- emissions in their order, the provider's reply to the assignment, the error of the step's deadline,
-- and the context's error after a failure.
pub record Round : Type 0 where
  pub cancelled : Bool
  pub saved_running : Bool
  pub saved_start : Bool
  pub sent_start : Bool
  pub reply : Assignment → Option StepError × String
  pub expired : Option StepError
  pub cancelled_after : Bool
  pub saved_result : Bool
  pub sent_result : Bool
  pub saved_completed : Bool

-- The variables of `execute`: `done` are the receipts of the steps before this one.
pub record Work : Type 0 where
  pub done : List Receipt
  pub items : List Item
  pub results : List (String × StepResult)
  pub assignments : List Assignment
  pub failure : Option StepError
  pub state : RequestState

abbrev pub start_work : Work
start_work = record {
  done = [];
  items = [];
  results = [];
  assignments = [];
  failure = none;
  state = RequestState.completed;
}

-- The loop goes on, or is left with this step's receipt, or `execute` returns.
pub data Flow : Type 0 where
  next : Work → Flow
  break : StepState → Work → Flow
  quit : Work → Flow

-- `results[dep]`, the zero value if it is missing. A new result is put before the older ones.
unfoldable pub result_of : String → List (String × StepResult) → StepResult
result_of id [] = zero_result
result_of id ((k, r) ∷ rs) = if str_eq k id then r else result_of id rs

abbrev pub max_output : ℕ
max_output = 65536

abbrev pub assignment_of : PlannedStep → List (String × StepResult) → Assignment
assignment_of p results = record {
  agent_id = p.member.id;
  step_id = p.step.id;
  step_prompt = p.step.prompt;
  depends_on = p.step.depends_on;
  instructions = p.member.instructions;
  prior = map (λ d. result_of d results) p.step.depends_on;
}

-- The error of a step: the reply's, or the deadline's, or that of a text which is no answer.
unfoldable pub step_error : Option StepError → Option StepError → String → String → Option StepError
step_error (some e) expired agent text = some e
step_error none (some e) agent text = some e
step_error none none agent text =
    if is_blank text || ltb max_output (byte_len text) then some (other agent) else none

abbrev pub failed_state : StepError → Bool → StepState
failed_state delivery_unknown cancelled = unknown
failed_state (other text) cancelled = if cancelled then interrupted else failed

-- The step has its answer.
unfoldable pub conclude :
    Bool → ℕ → PlannedStep → Round → StepResult → Option StepError → Work → Flow
conclude explicit n p env r (some e) w = break (failed_state e env.cancelled_after) (record w {
  failure = some e;
  state = if env.cancelled_after then RequestState.interrupted else RequestState.failed;
})
conclude explicit n p env r none w =
    let told = record w { items = w.items ++ result_item n r p.step.depends_on ∷ [] } in
    let kept = record told { results = (p.step.id, r) ∷ told.results } in
    if not env.saved_result
    then break running (record told { failure = some delivery_unknown })
    else if not env.sent_result
    then quit told
    else if explicit && not env.saved_completed
    then break completed (record kept { failure = some delivery_unknown })
    else next (record kept { done = kept.done ++ record { step = p.step; state = completed } ∷ [] })

-- One round of the loop, with the step's number from 1.
unfoldable pub run_step : Bool → ℕ → PlannedStep → Round → Work → Flow
unfolding step_error
run_step explicit n p env w =
    let told = record w {
      items = w.items ++ start_item n p.member.id p.step.id p.step.depends_on ∷ [];
    } in
    let a = assignment_of p w.results in
    let (e, text) = env.reply a in
    let r : StepResult = record { step_id = p.step.id; agent_id = p.member.id; text = text } in
    if env.cancelled
    then break waiting (record w { state = RequestState.interrupted })
    else if explicit && not env.saved_running
    then break running (record w { failure = some delivery_unknown })
    else if not env.saved_start
    then break running (record told { failure = some delivery_unknown })
    else if not env.sent_start
    then quit told
    else conclude explicit n p env r (step_error e env.expired p.member.id text)
        (record told { assignments = told.assignments ++ a ∷ [] })

-- The steps that are left wait.
abbrev pub wait : List PlannedStep → List Receipt
wait ps = map (λ (p : PlannedStep). record { step = p.step; state = waiting }) ps

-- The receipts at the end of the loop, in `done`; `false` where `execute` has returned.
unfoldable pub after_step :
    PlannedStep → List PlannedStep → Flow → (Work → Bool × Work) → Bool × Work
after_step p rest (next w) again = again w
after_step p rest (break s w) again =
    (true, record w { done = w.done ++ record { step = p.step; state = s } ∷ wait rest })
after_step p rest (quit w) again = (false, w)

-- The loop. Each step has its surroundings: without them it has not come to its end.
unfoldable pub run_steps : Bool → ℕ → List PlannedStep → List Round → Work → Bool × Work
run_steps explicit n [] envs w = (true, w)
run_steps explicit n (p ∷ rest) [] w = (false, w)
run_steps explicit n (p ∷ rest) (env ∷ envs) w =
    after_step p rest (run_step explicit n p env w) (run_steps explicit (n + 1) rest envs)

-- After the loop: a step that did not run is blocked, and one that is running is in doubt.
abbrev pub close_state : StepState → StepState
close_state waiting = blocked
close_state running = unknown
close_state s = s

abbrev pub close_receipt : Receipt → Receipt
close_receipt r = record r { state = close_state r.state }

-- The answers to what follows the loop: the two writes of an explicit plan, the context of the
-- runtime, and the last write.
pub record Closing : Type 0 where
  pub saved_receipts : Bool
  pub saved_workflow : Bool
  pub shut_down : Bool
  pub saved_state : Bool

abbrev pub first_agent : List PlannedStep → String
first_agent [] = ""
first_agent (p ∷ ps) = p.step.agent

abbrev pub doubt_if : Bool → Option StepError → Option StepError
doubt_if lost failure = if lost then some delivery_unknown else failure

-- The report on an explicit plan.
unfoldable pub close_plan : Bool → List PlannedStep → Closing → Work → Work
close_plan false ps env w = w
close_plan true [] env w = w
close_plan true (p ∷ ps) env w =
    let receipts = map close_receipt w.done in
    record w {
      done = receipts;
      items = w.items ++ workflow_item p.step.agent receipts ∷ [];
      failure = doubt_if (not env.saved_workflow) (doubt_if (not env.saved_receipts) w.failure);
    }

-- The event that ends the turn.
pub data Verdict : Type 0 where
  protocol_error turn_completed turn_failed turn_interrupted : Verdict

abbrev pub is_uncertain : Option StepError → Bool
is_uncertain none = false
is_uncertain (some delivery_unknown) = true
is_uncertain (some (other text)) = false

abbrev pub verdict_of : RequestState → Verdict
verdict_of RequestState.failed = turn_failed
verdict_of RequestState.interrupted = turn_interrupted
verdict_of s = turn_completed

-- The end of `execute`: a turn in doubt is not released.
unfoldable pub verdict : Closing → Work → Option Verdict
verdict env w =
    let lost = not (is_uncertain w.failure) && not env.shut_down && not env.saved_state in
    if env.shut_down
    then none
    else if is_uncertain w.failure || lost
    then some protocol_error
    else some (verdict_of w.state)

unfoldable pub finish : Bool → List PlannedStep → Closing → Bool × Work → Option Verdict × Work
unfolding verdict close_plan
finish explicit ps env (false, w) = (none, w)
finish explicit ps env (true, w) =
    let closed = close_plan explicit ps env w in (verdict env closed, closed)

-- `execute` on a plan that was not inferred.
unfoldable pub execute : Bool → List PlannedStep → List Round → Closing → Option Verdict × Work
unfolding finish
execute explicit ps envs env = finish explicit ps env (run_steps explicit 1 ps envs start_work)
