-- ===== src/Workgroup/Execute/Ending.antt =====
-- internal/workgroup/runtime.go: what the end of the turn says of its steps.
use mathlib.Core.List.{append-nil, append_assoc, map-append}
use agent_room.Prelude.{
  ℕ, ◌+◌, ◌≡◌, refl, ap, ◌∙◌, inl, inr, ◌⊎◌, Bool, true, false, not, ◌&&◌, List, [], ◌∷◌, ◌++◌,
  Option, none, some, if◌then◌else◌, map, All, All-append, arith, branch,
}
use agent_room.Room.Types.{RequestState}
use agent_room.Workgroup.Plan.{Step, PlannedStep}
use agent_room.Workgroup.Execute.{
  StepResult, StepError, delivery_unknown, completed, Receipt, Round, Work, start_work, Flow, next,
  break, quit, conclude, run_step, after_step, run_steps, Closing, close_receipt, close_plan,
  doubt_if, verdict, turn_completed, finish, execute,
}

abbrev pub IsCompleted : Receipt → Type 0
IsCompleted r = r.state ≡ completed

abbrev pub steps_of : List PlannedStep → List Step
steps_of ps = map (λ p. p.step) ps

-- All went well so far: the receipts are those of these steps.
record IsClean (steps : List Step) (w : Work) : Type 0 where
  no_failure : w.failure ≡ none
  so_far : w.state ≡ RequestState.completed
  all_completed : All IsCompleted w.done
  receipts : map (λ (r : Receipt). r.step) w.done ≡ steps

-- The loop was left: the turn fails or is interrupted, or it is in doubt.
abbrev IsStopped : Work → Type 0
IsStopped w =
    ((w.state ≡ RequestState.failed) ⊎ (w.state ≡ RequestState.interrupted))
    ⊎ (w.failure ≡ some delivery_unknown)

data Course (steps : List Step) (w : Work) : Type 0 where
  clean : IsClean steps w → Course steps w
  halted : IsStopped w → Course steps w

abbrev Leaves : List Step → Flow → Type 0
Leaves steps (next w) = IsClean steps w
Leaves steps (break s w) = IsStopped w
Leaves steps (quit w) = Unit

stop_state :
    (b : Bool)
    → ((if b then RequestState.interrupted else RequestState.failed) ≡ RequestState.failed)
      ⊎ ((if b then RequestState.interrupted else RequestState.failed) ≡ RequestState.interrupted)
stop_state true = inr refl
stop_state false = inl refl

conclude-Leaves :
    (explicit : Bool) (n : ℕ) (p : PlannedStep) (env : Round) (r : StepResult)
    (e : Option StepError) (steps : List Step) (w : Work)
    → IsClean steps w
    → Leaves (steps ++ p.step ∷ []) (conclude explicit n p env r e w)
unfolding conclude
conclude-Leaves explicit n p env r (some e) steps w h = inl (stop_state env.cancelled_after)
conclude-Leaves explicit n p env r none steps w h =
    let P = Leaves (steps ++ p.step ∷ []) in
    branch P (not env.saved_result) _ _ (inr refl) (
      branch P (not env.sent_result) _ _ tt (
        branch P (explicit && not env.saved_completed) _ _ (inr refl) (record {
          no_failure = h.no_failure;
          so_far = h.so_far;
          all_completed = All-append IsCompleted w.done _ h.all_completed (refl, tt);
          receipts = rw (map-append, h.receipts) refl;
        })))

run_step-Leaves :
    (explicit : Bool) (n : ℕ) (p : PlannedStep) (env : Round) (steps : List Step) (w : Work)
    → IsClean steps w
    → Leaves (steps ++ p.step ∷ []) (run_step explicit n p env w)
unfolding run_step
run_step-Leaves explicit n p env steps w h =
    let P = Leaves (steps ++ p.step ∷ []) in
    branch P env.cancelled _ _ (inl (inr refl)) (
      branch P (explicit && not env.saved_running) _ _ (inr refl) (
        branch P (not env.saved_start) _ _ (inr refl) (
          branch P (not env.sent_start) _ _ tt (
            conclude-Leaves explicit n p env _ _ steps _ (record {
              no_failure = h.no_failure;
              so_far = h.so_far;
              all_completed = h.all_completed;
              receipts = h.receipts;
            })))))

-- The end of the loop: `false` where `execute` has returned.
abbrev Ends : List Step → Bool → Work → Type 0
Ends steps false w = Unit
Ends steps true w = Course steps w

after_step-Ends :
    (p : PlannedStep) (rest : List PlannedStep) (f : Flow) (again : Work → Bool × Work)
    (steps all : List Step)
    → ((w : Work) → IsClean steps w → Ends all (again w).0 (again w).1)
    → Leaves steps f
    → Ends all (after_step p rest f again).0 (after_step p rest f again).1
unfolding after_step
after_step-Ends p rest (next w) again steps all keeps h = keeps w h
after_step-Ends p rest (break s w) again steps all keeps h = halted h
after_step-Ends p rest (quit w) again steps all keeps h = tt

run_steps-Ends :
    (explicit : Bool) (n : ℕ) (ps : List PlannedStep) (envs : List Round) (steps : List Step)
    (w : Work)
    → IsClean steps w
    → Ends
        (steps ++ steps_of ps)
        (run_steps explicit n ps envs w).0
        (run_steps explicit n ps envs w).1
unfolding run_steps
run_steps-Ends explicit n [] envs steps w h = rw (append-nil steps) (clean h)
run_steps-Ends explicit n (p ∷ ps) [] steps w h = tt
run_steps-Ends explicit n (p ∷ ps) (env ∷ envs) steps w h =
    rw (← append_assoc steps (p.step ∷ []) (steps_of ps)) (
      after_step-Ends p ps (run_step explicit n p env w) (run_steps explicit (n + 1) ps envs)
        (steps ++ p.step ∷ []) _
        (λ w' h'. run_steps-Ends explicit (n + 1) ps envs (steps ++ p.step ∷ []) w' h')
        (run_step-Leaves explicit n p env steps w h))

close-IsCompleted :
    (rs : List Receipt) → All IsCompleted rs → All IsCompleted (map close_receipt rs)
close-IsCompleted [] h = tt
close-IsCompleted (r ∷ rs) h = (ground arith, close-IsCompleted rs h.1)

close_steps :
    (rs : List Receipt)
    → map (λ (r : Receipt). r.step) (map close_receipt rs) ≡ map (λ (r : Receipt). r.step) rs
close_steps [] = refl
close_steps (r ∷ rs) = ap (λ xs. r.step ∷ xs) (close_steps rs)

doubt_stays :
    (a b : Bool) (failure : Option StepError)
    → failure ≡ some delivery_unknown
    → doubt_if a (doubt_if b failure) ≡ some delivery_unknown
doubt_stays a b failure h = ground arith

doubt_cases :
    (a b : Bool)
    → (doubt_if a (doubt_if b none) ≡ none) ⊎ (doubt_if a (doubt_if b none) ≡ some delivery_unknown)
doubt_cases true b = inr refl
doubt_cases false true = inr refl
doubt_cases false false = inl refl

close_plan-Course :
    (explicit : Bool) (ps : List PlannedStep) (env : Closing) (steps : List Step) (w : Work)
    → Course steps w
    → Course steps (close_plan explicit ps env w)
unfolding close_plan
close_plan-Course false ps env steps w h = h
close_plan-Course true [] env steps w h = h
close_plan-Course true (p ∷ ps) env steps w (clean h) =
    elim (doubt_cases (not env.saved_workflow) (not env.saved_receipts)) [
      | inl fine ↦ clean (record {
        no_failure =
            ap (λ f. doubt_if (not env.saved_workflow) (doubt_if (not env.saved_receipts) f))
              h.no_failure
            ∙ fine;
        so_far = h.so_far;
        all_completed = close-IsCompleted w.done h.all_completed;
        receipts = close_steps w.done ∙ h.receipts;
      })
      | inr lost ↦ halted (
          inr (
            ap (λ f. doubt_if (not env.saved_workflow) (doubt_if (not env.saved_receipts) f))
              h.no_failure
            ∙ lost))
    ]
close_plan-Course true (p ∷ ps) env steps w (halted (inl s)) = halted (inl s)
close_plan-Course true (p ∷ ps) env steps w (halted (inr f)) =
    halted (inr (doubt_stays (not env.saved_workflow) (not env.saved_receipts) w.failure f))

verdict-IsClean :
    (env : Closing) (steps : List Step) (w : Work)
    → Course steps w
    → verdict env w ≡ some turn_completed
    → IsClean steps w
unfolding verdict
verdict-IsClean env steps w (clean h) k = h
verdict-IsClean env steps w (halted (inl (inl s))) k = absurd (ground arith)
verdict-IsClean env steps w (halted (inl (inr s))) k = absurd (ground arith)
verdict-IsClean env steps w (halted (inr f)) k = absurd (ground arith)

finish-IsClean :
    (explicit : Bool) (ps : List PlannedStep) (env : Closing) (steps : List Step) (flag : Bool)
    (w : Work)
    → Ends steps flag w
    → (finish explicit ps env (flag, w)).0 ≡ some turn_completed
    → IsClean steps (finish explicit ps env (flag, w)).1
unfolding finish
finish-IsClean explicit ps env steps false w h k = absurd (ground arith)
finish-IsClean explicit ps env steps true w h k =
    verdict-IsClean env steps _ (close_plan-Course explicit ps env steps w h) k

-- Whatever the providers, the database and the context answer, a turn is reported as completed only
-- if every step of its plan was: there is one receipt for each step, in the order of the plan, and
-- all are completed.
pub execute-IsCompleted :
    (explicit : Bool) (ps : List PlannedStep) (envs : List Round) (env : Closing)
    → (execute explicit ps envs env).0 ≡ some turn_completed
    → (map (λ (r : Receipt). r.step) (execute explicit ps envs env).1.done ≡ steps_of ps)
      × All IsCompleted (execute explicit ps envs env).1.done
unfolding execute
execute-IsCompleted explicit ps envs env h =
    let r = run_steps explicit 1 ps envs start_work in
    let start : IsClean [] start_work = record {
      no_failure = refl;
      so_far = refl;
      all_completed = tt;
      receipts = refl;
    } in
    let c =
      finish-IsClean explicit ps env (steps_of ps) r.0 r.1
        (run_steps-Ends explicit 1 ps envs [] start_work start) h in
    (c.receipts, c.all_completed)
