-- ===== src/Workgroup/Execute/Receipts.antt =====
-- internal/workgroup/runtime.go: the receipts of an explicit plan at its end.
use mathlib.Core.List.{append-nil, append_assoc}
use mathlib.Core.Path.{subst}
use agent_room.Prelude.{
  ℕ, ◌+◌, ◌≡◌, refl, sym, ap, ◌∙◌, Bool, true, false, not, ◌&&◌, List, [], ◌∷◌, ◌++◌, Option, none,
  some, map, arith, branch,
}
use agent_room.Workgroup.Plan.{PlannedStep}
use agent_room.Workgroup.Execute.{
  StepResult, StepError, StepState, waiting, running, completed, failed, interrupted, unknown,
  blocked, Receipt, Round, Work, start_work, Flow, next, break, quit, conclude, run_step,
  after_step, run_steps, Closing, close_state, close_receipt, close_plan, finish, execute, wait,
  Verdict,
}

abbrev pub receipt : PlannedStep → StepState → Receipt
receipt p s = record { step = p.step; state = s }

-- A prefix of the steps is completed, then one has stopped the plan, and the rest is in one state.
pub data Settled (final : StepState → Type 0) (left : StepState)
    : List PlannedStep → List Receipt → Type 0 where
  all_done : Settled final left [] []
  step_done :
      {ps : List PlannedStep} {rs : List Receipt} (p : PlannedStep)
      → Settled final left ps rs
      → Settled final left (p ∷ ps) (receipt p completed ∷ rs)
  stopped :
      (p : PlannedStep) (s : StepState) (ps : List PlannedStep)
      → final s
      → Settled final left (p ∷ ps) (receipt p s ∷ map (λ q. receipt q left) ps)

abbrev pub AnyState : StepState → Type 0
AnyState s = Unit

-- No step is waiting, or left as running.
abbrev pub IsFinal : StepState → Type 0
IsFinal waiting = ⊥
IsFinal running = ⊥
IsFinal s = Unit

IsFinal-close : (s : StepState) → IsFinal (close_state s)
IsFinal-close waiting = tt
IsFinal-close running = tt
IsFinal-close completed = tt
IsFinal-close failed = tt
IsFinal-close interrupted = tt
IsFinal-close unknown = tt
IsFinal-close blocked = tt

close_left :
    (ps : List PlannedStep)
    → map close_receipt (map (λ q. receipt q waiting) ps) ≡ map (λ q. receipt q blocked) ps
close_left [] = refl
close_left (p ∷ ps) = ap (λ rs. receipt p blocked ∷ rs) (close_left ps)

close-Settled :
    {ps : List PlannedStep} {rs : List Receipt}
    → Settled AnyState waiting ps rs
    → Settled IsFinal blocked ps (map close_receipt rs)
close-Settled all_done = all_done
close-Settled (step_done p h) = step_done p (close-Settled h)
close-Settled (stopped p s ps h) =
    rw (close_left ps) (stopped p (close_state s) ps (IsFinal-close s))

-- A round that goes on has completed its step, and the receipts before it stay.
abbrev Adds : List Receipt → PlannedStep → Flow → Type 0
Adds done p (next w) = w.done ≡ done ++ receipt p completed ∷ []
Adds done p (break s w) = w.done ≡ done
Adds done p (quit w) = Unit

conclude-Adds :
    (explicit : Bool) (n : ℕ) (p : PlannedStep) (env : Round) (r : StepResult)
    (e : Option StepError) (w : Work)
    → Adds w.done p (conclude explicit n p env r e w)
unfolding conclude
conclude-Adds explicit n p env r (some e) w = refl
conclude-Adds explicit n p env r none w =
    let P = Adds w.done p in
    branch P (not env.saved_result) _ _ refl (
      branch P (not env.sent_result) _ _ tt
        (branch P (explicit && not env.saved_completed) _ _ refl refl))

run_step-Adds :
    (explicit : Bool) (n : ℕ) (p : PlannedStep) (env : Round) (w : Work)
    → Adds w.done p (run_step explicit n p env w)
unfolding run_step
run_step-Adds explicit n p env w =
    let P = Adds w.done p in
    branch P env.cancelled _ _ refl (
      branch P (explicit && not env.saved_running) _ _ refl (
        branch P (not env.saved_start) _ _ refl
          (branch P (not env.sent_start) _ _ tt (conclude-Adds explicit n p env _ _ _))))

-- The receipts at the end of the loop follow those that were there.
abbrev Extends : List Receipt → List PlannedStep → Bool → Work → Type 0
Extends done ps false w = Unit
Extends done ps true w =
    (rs : List Receipt) × (w.done ≡ done ++ rs) × Settled AnyState waiting ps rs

step_on :
    (done : List Receipt) (p : PlannedStep) (ps : List PlannedStep) (flag : Bool) (w : Work)
    → Extends (done ++ receipt p completed ∷ []) ps flag w
    → Extends done (p ∷ ps) flag w
step_on done p ps false w h = tt
step_on done p ps true w (rs, at, h) =
    (receipt p completed ∷ rs, at ∙ append_assoc done (receipt p completed ∷ []) rs, step_done p h)

after_step-Extends :
    (p : PlannedStep) (ps : List PlannedStep) (f : Flow) (again : Work → Bool × Work)
    (done : List Receipt)
    → ((w : Work)
        → w.done ≡ done ++ receipt p completed ∷ []
        → Extends (done ++ receipt p completed ∷ []) ps (again w).0 (again w).1)
    → Adds done p f
    → Extends done (p ∷ ps) (after_step p ps f again).0 (after_step p ps f again).1
unfolding after_step
after_step-Extends p ps (next w) again done keeps h =
    step_on done p ps (again w).0 (again w).1 (keeps w h)
after_step-Extends p ps (break s w) again done keeps h =
    (receipt p s ∷ wait ps, rw h refl, stopped p s ps tt)
after_step-Extends p ps (quit w) again done keeps h = tt

run_steps-Extends :
    (explicit : Bool) (n : ℕ) (ps : List PlannedStep) (envs : List Round) (done : List Receipt)
    (w : Work)
    → w.done ≡ done
    → Extends done ps (run_steps explicit n ps envs w).0 (run_steps explicit n ps envs w).1
unfolding run_steps
run_steps-Extends explicit n [] envs done w h = ([], h ∙ sym (append-nil done), all_done)
run_steps-Extends explicit n (p ∷ ps) [] done w h = tt
run_steps-Extends explicit n (p ∷ ps) (env ∷ envs) done w h =
    after_step-Extends p ps (run_step explicit n p env w) (run_steps explicit (n + 1) ps envs) done
      (λ w' h'. run_steps-Extends explicit (n + 1) ps envs (done ++ receipt p completed ∷ []) w' h')
      (subst (λ d. Adds d p (run_step explicit n p env w)) h (run_step-Adds explicit n p env w))

finish-Settled :
    (p : PlannedStep) (ps : List PlannedStep) (env : Closing) (flag : Bool) (w : Work) (v : Verdict)
    → Extends [] (p ∷ ps) flag w
    → (finish true (p ∷ ps) env (flag, w)).0 ≡ some v
    → Settled IsFinal blocked (p ∷ ps) (finish true (p ∷ ps) env (flag, w)).1.done
unfolding finish close_plan
finish-Settled p ps env false w v h k = absurd (ground arith)
finish-Settled p ps env true w v (rs, at, h) k = rw at (close-Settled h)

-- When an explicit plan has come to its end, for whatever reason, its receipts are those of its steps
-- in order: a number of steps completed, then perhaps one that has stopped the plan, which is failed,
-- interrupted, in doubt, blocked or completed, and all after it blocked. None is waiting or running.
pub execute-Settled :
    (p : PlannedStep) (ps : List PlannedStep) (envs : List Round) (env : Closing) (v : Verdict)
    → (execute true (p ∷ ps) envs env).0 ≡ some v
    → Settled IsFinal blocked (p ∷ ps) (execute true (p ∷ ps) envs env).1.done
unfolding execute
execute-Settled p ps envs env v h =
    let r = run_steps true 1 (p ∷ ps) envs start_work in
    finish-Settled p ps env r.0 r.1 v (run_steps-Extends true 1 (p ∷ ps) envs [] start_work refl) h
