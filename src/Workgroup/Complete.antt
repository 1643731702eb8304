-- ===== src/Workgroup/Complete.antt =====
-- internal/workgroup/plan.go: what `Plan` promises of the steps: an order that respects the
-- dependencies, whenever there is one.
use agent_room.Prelude.{
  ℕ, zero, suc, ◌<◌, ◌≡◌, refl, inl, inr, Bool, true, false, not, List, [], ◌∷◌, none, some, String,
  eq_iff, any, all, find, count, arith, Bool-cases, Option-cases, find-holds, any_of_find,
  miss_of_any, All, All-find,
}
use agent_room.Workgroup.Plan.{
  Step, is_step, is_done, is_ready, check_dependencies, check_all_dependencies, order_steps,
}
use agent_room.Workgroup.Order.{HasNoRepeat, undone, undone-split}

-- Every step that another one depends on is there.
abbrev pub HasAll : List Step → List Step → Type 0
HasAll steps ss = All (λ s. All (λ d. any (is_step d) steps ≡ true) s.depends_on) ss

-- Numbers that grow from each dependency to the step that needs it: there is no cycle.
abbrev pub Rises : (String → ℕ) → List Step → Type 0
Rises rank ss = All (λ s. All (λ d. rank d < rank s.id) s.depends_on) ss

check_dependencies-All :
    (s : Step) (steps : List Step) (seen ds : List String)
    → check_dependencies s steps seen ds ≡ none
    → All (λ d. any (is_step d) steps ≡ true) ds
unfolding check_dependencies
check_dependencies-All s steps seen [] h = tt
check_dependencies-All s steps seen (d ∷ ds) h =
    let rest : check_dependencies s steps (d ∷ seen) ds ≡ none = ground arith in
    (ground arith, check_dependencies-All s steps (d ∷ seen) ds rest)

pub check_all_dependencies-HasAll :
    (steps ss : List Step) → check_all_dependencies steps ss ≡ none → HasAll steps ss
unfolding check_all_dependencies
check_all_dependencies-HasAll steps [] h = tt
check_all_dependencies-HasAll steps (s ∷ ss) h =
    elim (Option-cases (check_dependencies s steps [] s.depends_on)) [
      | inl e ↦ (
        check_dependencies-All s steps [] s.depends_on e,
        check_all_dependencies-HasAll steps ss (rw (check_all_dependencies, e) at h),
      )
      | inr (x, e) ↦ absurd (ground (arith, rw (check_all_dependencies, e) at h))
    ]

found_passes {ℓ} :
    {A : Type ℓ} (p q : A → Bool) (xs : List A) {x : A}
    → find q xs ≡ some x
    → p x ≡ true
    → any p xs ≡ true
found_passes p q xs e h = elim (Bool-cases (any p xs)) [
  | inl passed ↦ passed
  | inr none_passes ↦ absurd (ground (arith, miss_of_any p q xs none_passes e))
]

find_of_all {ℓ} :
    {A : Type ℓ} (p : A → Bool) (xs : List A)
    → all p xs ≡ false
    → (x : A) × (find (λ y. not (p y)) xs ≡ some x)
find_of_all p [] h = absurd (ground arith)
find_of_all p (x ∷ xs) h = elim (Bool-cases (p x)) [
  | inl e ↦ let (y, found) = find_of_all p xs (rw e at h) in (y, rw e found)
  | inr e ↦ (x, rw e refl)
]

find_of_count {ℓ} :
    {A : Type ℓ} (p : A → Bool) (xs : List A) {n : ℕ}
    → count p xs ≡ suc n
    → (x : A) × (find p xs ≡ some x)
find_of_count p [] h = absurd (omega arith)
find_of_count p (x ∷ xs) h = elim (Bool-cases (p x)) [
  | inl e ↦ (x, rw e refl)
  | inr e ↦ let (y, found) = find_of_count p xs (rw e at h) in (y, rw e found)
]

-- Below a step that is not done, one is ready.
progress :
    (rank : String → ℕ) (steps : List Step) (k : ℕ) (done : List String) (q : Step → Bool)
    {s : Step}
    → Rises rank steps
    → HasAll steps steps
    → find q steps ≡ some s
    → is_done done s.id ≡ false
    → rank s.id < k
    → any (is_ready done) steps ≡ true
progress rank steps zero done q rises has e open_ below = absurd (omega arith)
progress rank steps (suc k) done q {s} rises has e open_ below =
    elim (Bool-cases (all (is_done done) s.depends_on)) [
      | inl all_done ↦ found_passes (is_ready done) q steps e (ground arith)
      | inr missing ↦
          let (d, found) = find_of_all (is_done done) s.depends_on missing in
          let (lower, _) =
            All-find (λ d. rank d < rank s.id) (λ d. not (is_done done d)) s.depends_on found
              (All-find (λ (s : Step). All (λ d. rank d < rank s.id) s.depends_on) q steps e
                rises).0 in
          let (there, open_d) =
            All-find (λ d. any (is_step d) steps ≡ true) (λ d. not (is_done done d)) s.depends_on
              found
              (All-find (λ (s : Step). All (λ d. any (is_step d) steps ≡ true) s.depends_on) q steps
                e has).0 in
          elim (Option-cases (find (is_step d) steps)) [
            | inl none_there ↦ absurd (ground (arith, any_of_find (is_step d) steps none_there))
            | inr (t, e') ↦
                let same : t.id ≡ d = (eq_iff t.id d).0 (find-holds (is_step d) steps e') in
                progress rank steps k done (is_step d) rises has e' (rw same (ground arith))
                  (rw same (omega arith))
          ]
    ]

pub order-some :
    (rank : String → ℕ) (n : ℕ) (done : List String) (steps : List Step)
    → HasNoRepeat steps
    → Rises rank steps
    → HasAll steps steps
    → count (undone (λ s. true) done) steps ≡ n
    → (ps : List Step) × (order_steps n done steps ≡ some ps)
unfolding order_steps
order-some rank zero done steps u rises has many = ([], refl)
order-some rank (suc n) done steps u rises has many =
    let (s, open_) = find_of_count (undone (λ s. true) done) steps many in
    let hit = find-holds (undone (λ s. true) done) steps open_ in
    let some_ready =
      progress rank steps (suc (rank s.id)) done (undone (λ s. true) done) rises has open_
        (ground arith) (omega arith) in
    elim (Option-cases (find (is_ready done) steps)) [
      | inl e ↦ absurd (ground (arith, any_of_find (is_ready done) steps e))
      | inr (t, e) ↦
          let one = undone-split (λ s. true) done steps u e in
          let (ps, later) =
            order-some rank n (t.id ∷ done) steps u rises has (omega (arith, one, many)) in
          (t ∷ ps, rw (order_steps, e, later) refl)
    ]
