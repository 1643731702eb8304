-- ===== src/Workgroup/Promise.antt =====
-- internal/workgroup/plan.go: what `Plan` answers for the steps of an explicit plan.
use agent_room.Prelude.{
  ℕ, suc, ◌≤◌, ◌≡◌, refl, sym, ap, ◌∙◌, inl, inr, Bool, true, false, ◌||◌, List, [], ◌∷◌, none,
  some, String, ltb, count, length, map, arith, Bool-cases, Option-cases,
}
use mathlib.Core.Path.{subst}
use agent_room.Workgroup.Config.{Agent}
use agent_room.Workgroup.Plan.{
  Step, PlannedStep, planned, check_steps, member_of, check_all_dependencies, order_steps,
  plan_steps,
}
use agent_room.Workgroup.Order.{
  IsInOrder, check_steps-HasNoRepeat, order-IsInOrder, order-count, undone,
}
use agent_room.Workgroup.Complete.{Rises, check_all_dependencies-HasAll, order-some}

-- The step with the member that runs it.
abbrev pub assign : List Agent → Step → PlannedStep
assign members s = record { step = s; member = member_of members s.agent }

-- How a plan comes about.
record IsChecked (members : List Agent) (steps qs : List Step) : Type 0 where
  steps_pass : check_steps members [] steps ≡ none
  ordered : order_steps (length steps) [] steps ≡ some qs

plan_steps-IsChecked :
    (members : List Agent) (steps : List Step) {ps : List PlannedStep}
    → plan_steps members steps ≡ planned ps
    → (qs : List Step) × IsChecked members steps qs × (map (assign members) qs ≡ ps)
unfolding plan_steps
plan_steps-IsChecked members steps h =
    elim (Bool-cases (ltb (length steps) 1 || ltb 16 (length steps))) [
      | inl e ↦ absurd (ground (arith, rw (plan_steps, e) at h))
      | inr e ↦ elim (Option-cases (check_steps members [] steps)) [
        | inr (x, e1) ↦ absurd (ground (arith, rw (plan_steps, e, e1) at h))
        | inl e1 ↦ elim (Option-cases (check_all_dependencies steps steps)) [
          | inr (x, e2) ↦ absurd (ground (arith, rw (plan_steps, e, e1, e2) at h))
          | inl e2 ↦ elim (Option-cases (order_steps (length steps) [] steps)) [
            | inl e3 ↦ absurd (ground (arith, rw (plan_steps, e, e1, e2, e3) at h))
            | inr (qs, e3) ↦ (
              qs,
              record { steps_pass = e1; ordered = e3 },
              ground (arith, rw (plan_steps, e, e1, e2, e3) at h),
            )
          ]
        ]
      ]
    ]

steps_of_assigned :
    (members : List Agent) (qs : List Step) → map (λ x. x.step) (map (assign members) qs) ≡ qs
steps_of_assigned members [] = refl
steps_of_assigned members (q ∷ qs) = ap (λ rs. q ∷ rs) (steps_of_assigned members qs)

count_all : (ss : List Step) → count (undone (λ s. true) []) ss ≡ length ss
count_all [] = refl
count_all (s ∷ ss) = ap suc (count_all ss)

count-undone : (p : Step → Bool) (ss : List Step) → count (undone p []) ss ≡ count p ss
count-undone p [] = refl
count-undone p (s ∷ ss) = ground (arith, count-undone p ss)

-- An explicit plan that is answered runs the steps that were asked for: they are a permutation of
-- them, as any test passes as many steps of one as of the other, and each step comes once and after
-- all the steps that it depends on.
pub plan_steps-IsInOrder :
    (members : List Agent) (steps : List Step) {ps : List PlannedStep}
    → plan_steps members steps ≡ planned ps
    → IsInOrder [] (map (λ x. x.step) ps)
      × ((p : Step → Bool) → count p (map (λ x. x.step) ps) ≡ count p steps)
plan_steps-IsInOrder members steps {ps} h =
    let (qs, checked, shape) = plan_steps-IsChecked members steps h in
    let u = check_steps-HasNoRepeat members [] steps checked.steps_pass in
    let (in_order, _) = order-IsInOrder (length steps) [] steps checked.ordered in
    let same : qs ≡ map (λ (x : PlannedStep). x.step) ps =
      sym (steps_of_assigned members qs) ∙ ap (map (λ (x : PlannedStep). x.step)) shape in
    subst (λ rs. IsInOrder [] rs × ((p : Step → Bool) → count p rs ≡ count p steps)) same
      (
        in_order,
        λ p.
            order-count p (length steps) [] steps u (count_all steps) checked.ordered
            ∙ count-undone p steps,
      )

-- An explicit plan of 1 to 16 steps that pass the checks is answered, never refused as cyclic, if
-- numbers can be given to the steps that grow from each dependency to the step that needs it.
pub plan_steps_total :
    (members : List Agent) (steps : List Step) (rank : String → ℕ)
    → 1 ≤ length steps
    → length steps ≤ 16
    → check_steps members [] steps ≡ none
    → check_all_dependencies steps steps ≡ none
    → Rises rank steps
    → (ps : List PlannedStep) × (plan_steps members steps ≡ planned ps)
unfolding plan_steps
plan_steps_total members steps rank low high e1 e2 rises =
    let e : (ltb (length steps) 1 || ltb 16 (length steps)) ≡ false = ground arith in
    let (qs, e3) =
      order-some rank (length steps) [] steps (check_steps-HasNoRepeat members [] steps e1) rises
        (check_all_dependencies-HasAll steps steps e2) (count_all steps) in
    (map (assign members) qs, rw (plan_steps, e, e1, e2, e3) refl)
