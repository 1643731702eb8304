-- ===== src/Workgroup/Execute/Tests.antt =====
-- The theorems on the run of a plan, at a plan of two steps.
use agent_room.Prelude.{◌≡◌, refl, true, false, [], ◌∷◌, none, some, map, All}
use agent_room.Prelude.Text.{is_blank}
use agent_room.Workgroup.Plan.{PlannedStep}
use agent_room.Workgroup.Promise.{assign}
use agent_room.Workgroup.Samples.{codex, build_step, test_step, order}
use agent_room.Workgroup.Execute.{
  Round, Closing, Receipt, execute, run_steps, after_step, run_step, conclude, turn_completed,
  turn_failed, other, blocked,
}
use agent_room.Workgroup.Execute.Ending.{IsCompleted, steps_of, execute-IsCompleted}
use agent_room.Workgroup.Execute.Receipts.{Settled, IsFinal, execute-Settled}

-- All goes well, and the member answers with the id of its step.
abbrev fine : Round
fine = record {
  cancelled = false;
  saved_running = true;
  saved_start = true;
  sent_start = true;
  reply = λ a. (none, a.step_id);
  expired = none;
  cancelled_after = false;
  saved_result = true;
  sent_result = true;
  saved_completed = true;
}

-- The member fails.
abbrev broken : Round
broken = record fine { reply = λ a. (some (other "failed"), "") }

abbrev closing : Closing
closing = record {
  saved_receipts = true;
  saved_workflow = true;
  shut_down = false;
  saved_state = true;
}

all_well : (execute true order (fine ∷ fine ∷ []) closing).0 ≡ some turn_completed
unfolding execute run_steps after_step run_step conclude is_blank
all_well = refl

execute-IsCompleted_example :
    (map (λ (r : Receipt). r.step) (execute true order (fine ∷ fine ∷ []) closing).1.done
      ≡ steps_of order)
    × All IsCompleted (execute true order (fine ∷ fine ∷ []) closing).1.done
execute-IsCompleted_example = execute-IsCompleted true order (fine ∷ fine ∷ []) closing all_well

first_fails : (execute true order (broken ∷ fine ∷ []) closing).0 ≡ some turn_failed
unfolding execute run_steps after_step run_step conclude
first_fails = refl

abbrev build : PlannedStep
build = assign (codex ∷ []) build_step

abbrev test : PlannedStep
test = assign (codex ∷ []) test_step

execute-Settled_example :
    Settled IsFinal blocked
      (build ∷ test ∷ [])
      (execute true (build ∷ test ∷ []) (broken ∷ fine ∷ []) closing).1.done
execute-Settled_example =
    execute-Settled build (test ∷ []) (broken ∷ fine ∷ []) closing turn_failed first_fails
