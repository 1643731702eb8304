-- ===== src/Workgroup/Order.antt =====
-- internal/workgroup/plan.go: the order of a plan's steps is a permutation of them, in which each step
-- comes after those that it depends on.
use agent_room.Prelude.{
  ℕ, zero, suc, ◌+◌, ◌≡◌, refl, sym, ap, inl, inr, Bool, true, false, not, ◌&&◌, List, [], ◌∷◌,
  none, some, String, str_eq, eq_iff, eq_refl, if◌then◌else◌, any, all, find, count, length, arith,
  Bool-cases, Option-cases, find-holds, miss_of_any,
}
use mathlib.Core.Path.{subst}
use agent_room.Workgroup.Config.{Agent}
use agent_room.Workgroup.Plan.{Step, is_step, is_done, is_ready, check_steps, order_steps}

-- No two steps have an id in common.
abbrev pub HasNoRepeat : List Step → Type 0
HasNoRepeat [] = Unit
HasNoRepeat (s ∷ ss) = (any (is_step s.id) ss ≡ false) × HasNoRepeat ss

-- Each step comes once, and after those that it depends on; `done` are the ids before.
abbrev pub IsInOrder : List String → List Step → Type 0
IsInOrder done [] = Unit
IsInOrder done (s ∷ ss) =
    (is_done done s.id ≡ false)
    × (all (is_done done) s.depends_on ≡ true)
    × IsInOrder (s.id ∷ done) ss

check_steps-seen :
    (members : List Agent) (seen ss : List Step) (t : Step)
    → any (λ x. is_step t.id x) seen ≡ true
    → check_steps members seen ss ≡ none
    → any (is_step t.id) ss ≡ false
unfolding check_steps
check_steps-seen members seen [] t h k = refl
check_steps-seen members seen (s ∷ ss) t h k =
    let other : str_eq s.id t.id ≡ false = elim (Bool-cases (str_eq s.id t.id)) [
      | inl e ↦
          let here : any (is_step s.id) seen ≡ true =
            subst (λ z. any (is_step z) seen ≡ true) (sym ((eq_iff s.id t.id).0 e)) h in
          absurd (ground arith)
      | inr e ↦ e
    ] in
    let rest : check_steps members (s ∷ seen) ss ≡ none = ground arith in
    rw other (check_steps-seen members (s ∷ seen) ss t (rw (other, h) refl) rest)

pub check_steps-HasNoRepeat :
    (members : List Agent) (seen ss : List Step)
    → check_steps members seen ss ≡ none
    → HasNoRepeat ss
unfolding check_steps
check_steps-HasNoRepeat members seen [] k = tt
check_steps-HasNoRepeat members seen (s ∷ ss) k =
    let rest : check_steps members (s ∷ seen) ss ≡ none = ground arith in
    (
      check_steps-seen members (s ∷ seen) ss s (rw (eq_refl s.id) refl) rest,
      check_steps-HasNoRepeat members (s ∷ seen) ss rest,
    )

order_steps-next :
    (n : ℕ) (done : List String) (steps : List Step) {ps : List Step}
    → order_steps (suc n) done steps ≡ some ps
    → (s : Step) × (qs : List Step) × (find (is_ready done) steps ≡ some s)
      × (order_steps n (s.id ∷ done) steps ≡ some qs)
      × ((s ∷ qs) ≡ ps)
unfolding order_steps
order_steps-next n done steps {ps} h = elim (Option-cases (find (is_ready done) steps)) [
  | inl e ↦ absurd (ground (arith, rw (order_steps, e) at h))
  | inr (s, e) ↦ elim (Option-cases (order_steps n (s.id ∷ done) steps)) [
    | inl e' ↦ absurd (ground (arith, rw (order_steps, e, e') at h))
    | inr (qs, e') ↦ (s, qs, e, e', ground (arith, rw (order_steps, e, e') at h))
  ]
]

pub order-IsInOrder :
    (n : ℕ) (done : List String) (steps : List Step) {ps : List Step}
    → order_steps n done steps ≡ some ps
    → IsInOrder done ps × (length ps ≡ n)
unfolding order_steps
order-IsInOrder zero done steps {ps} h =
    let shape : [] ≡ ps = ground arith in
    subst (λ qs. IsInOrder done qs × (length qs ≡ 0)) shape (tt, refl)
order-IsInOrder (suc n) done steps {ps} h =
    let (s, qs, e, e', shape) = order_steps-next n done steps h in
    let hit = find-holds (is_ready done) steps e in
    let (later, many) = order-IsInOrder n (s.id ∷ done) steps e' in
    subst (λ rs. IsInOrder done rs × (length rs ≡ suc n)) shape
      ((ground arith, ground arith, later), ap suc many)

count_without :
    (p : Step → Bool) (id : String) (ss : List Step)
    → any (is_step id) ss ≡ false
    → count (λ s. p s && not (is_step id s)) ss ≡ count p ss
count_without p id [] h = refl
count_without p id (s ∷ ss) h = ground (arith, count_without p id ss)

-- One step is taken out of the count.
count-split :
    (p q : Step → Bool) (ss : List Step) {s : Step}
    → HasNoRepeat ss
    → find q ss ≡ some s
    → count p ss ≡ (if p s then 1 else 0) + count (λ t. p t && not (is_step s.id t)) ss
count-split p q [] u h = absurd (ground arith)
count-split p q (t ∷ ts) {s} u h = elim (Bool-cases (q t)) [
  | inl e ↦
      let same : t ≡ s = ground (arith, rw e at h) in
      subst
        (λ z.
          count p (t ∷ ts)
          ≡ (if p z then 1 else 0) + count (λ y. p y && not (is_step z.id y)) (t ∷ ts))
        same (ground (arith, count_without p t.id ts u.0, eq_refl t.id))
  | inr e ↦
      let later : find q ts ≡ some s = rw e at h in
      let other : str_eq t.id s.id ≡ false =
        ground
          (arith, miss_of_any (is_step t.id) q ts u.0 later, eq_iff t.id s.id, eq_iff s.id t.id) in
      ground (arith, other, count-split p q ts {s = s} u.1 later)
]

-- The steps that are not done.
abbrev pub undone : (Step → Bool) → List String → Step → Bool
undone p done s = p s && not (is_done done s.id)

count_none : (p q : Step → Bool) (ss : List Step) → count q ss ≡ 0 → count (λ s. p s && q s) ss ≡ 0
count_none p q [] h = refl
count_none p q (s ∷ ss) h = ground (arith, count_none p q ss)

count-ext :
    (p q : Step → Bool) (ss : List Step) → ((s : Step) → p s ≡ q s) → count p ss ≡ count q ss
count-ext p q [] h = refl
count-ext p q (s ∷ ss) h = ground (arith, h s, count-ext p q ss h)

-- A step that is placed next is no longer among those that are not done.
pub undone-split :
    (p : Step → Bool) (done : List String) (steps : List Step) {s : Step}
    → HasNoRepeat steps
    → find (is_ready done) steps ≡ some s
    → count (undone p done) steps ≡ (if p s then 1 else 0) + count (undone p (s.id ∷ done)) steps
undone-split p done steps {s} u e =
    let hit = find-holds (is_ready done) steps e in
    let open_ : is_done done s.id ≡ false = ground arith in
    rw (count-split (undone p done) (is_ready done) steps u e, open_)
      (rw
        (count-ext (λ t. undone p done t && not (is_step s.id t)) (undone p (s.id ∷ done)) steps
          (λ t. ground (arith, eq_iff t.id s.id, eq_iff s.id t.id)))
        (ground arith))

pub order-count :
    (p : Step → Bool) (n : ℕ) (done : List String) (steps : List Step) {ps : List Step}
    → HasNoRepeat steps
    → count (undone (λ s. true) done) steps ≡ n
    → order_steps n done steps ≡ some ps
    → count p ps ≡ count (undone p done) steps
unfolding order_steps
order-count p zero done steps {ps} u many h =
    let shape : [] ≡ ps = ground arith in
    subst (λ qs. count p qs ≡ count (undone p done) steps) shape
      (sym (count_none p (undone (λ s. true) done) steps many))
order-count p (suc n) done steps {ps} u many h =
    let (s, qs, e, e', shape) = order_steps-next n done steps h in
    let one = undone-split (λ s. true) done steps u e in
    let later = order-count p n (s.id ∷ done) steps u (omega (arith, one, many)) e' in
    subst (λ rs. count p rs ≡ count (undone p done) steps) shape
      (rw (undone-split p done steps u e) (ground (arith, later)))
