-- ===== src/Room/Budget.antt =====
-- internal/room/projection.go: the budget of the projection is never exceeded.
use Prim.Native.String
use text.Mathlib.TextLemmas
use agent_room.Prelude.{
  ℕ, ◌+◌, ◌*◌, ◌≤◌, ◌≡◌, refl, ap, ◌∙◌, inl, inr, Bool, true, false, not, ◌&&◌, List, [], ◌∷◌, ◌++◌,
  Option, none, some, String, if◌then◌else◌, ltb, find, arith, Bool-cases,
}
use agent_room.Prelude.Text.{byte_len}
use agent_room.Room.Types.{CompletedItem}
use agent_room.Room.Projection.{
  budget, item_cost, Entry, Projection, ProjectionUpdate, AgentEvent, item_delta, item_completed,
  elsewhere, has_key, entry_cost, delete, extend, add_delta, apply_delta, release, keep_mark, mark,
  apply_completed, apply, no_update,
}

abbrev pub total_cost : List Entry → ℕ
total_cost [] = 0
total_cost (e ∷ es) = entry_cost e + total_cost es

-- What is used is what the items cost, and it is within the budget.
pub record IsWithinBudget (p : Projection) : Type 0 where
  pub used_for : p.used ≡ total_cost p.items
  pub within : p.used ≤ budget

byte_len-append : (s t : String) → byte_len (String.◌++◌ s t) ≡ byte_len s + byte_len t
byte_len-append String.[] t = ap byte_len (TextLemmas.nil-append t) ∙ omega arith
byte_len-append (String.◌∷◌ c s) t =
    ap byte_len (TextLemmas.cons-append c s t) ∙ omega (arith, byte_len-append s t)

total_cost-snoc :
    (es : List Entry) (e : Entry) → total_cost (es ++ e ∷ []) ≡ total_cost es + entry_cost e
total_cost-snoc [] e = omega arith
total_cost-snoc (x ∷ es) e = omega (arith, total_cost-snoc es e)

total_cost-delete :
    (key : Entry → Bool) (es : List Entry) {e : Entry}
    → find key es ≡ some e
    → total_cost (delete key es) + entry_cost e ≡ total_cost es
unfolding delete
total_cost-delete key [] h = absurd (ground arith)
total_cost-delete key (x ∷ es) {e = e} h = elim (Bool-cases (key x)) [
  | inl hit ↦
      let same : x ≡ e = ground (arith, rw hit at h) in rw hit (omega (arith, ap entry_cost same))
  | inr miss ↦ rw miss (omega (arith, total_cost-delete key es (rw miss at h)))
]

total_cost-extend :
    (key : Entry → Bool) (delta : String) (es : List Entry) {e : Entry}
    → find key es ≡ some e
    → total_cost (extend key delta es) ≡ total_cost es + 6 * byte_len delta
unfolding extend
total_cost-extend key delta [] h = absurd (ground arith)
total_cost-extend key delta (x ∷ es) {e = e} h = elim (Bool-cases (key x)) [
  | inl hit ↦ rw hit (omega (arith, byte_len-append x.partial delta))
  | inr miss ↦ rw miss (omega (arith, total_cost-extend key delta es (rw miss at h)))
]

add_delta-IsWithinBudget :
    (thread turn item delta : String) (cost : ℕ) (items : List Entry) (p : Projection)
    → total_cost items ≡ total_cost p.items + cost
    → IsWithinBudget p
    → IsWithinBudget (add_delta thread turn item delta cost items p).1
unfolding add_delta
add_delta-IsWithinBudget thread turn item delta cost items p sum v =
    elim (Bool-cases (ltb budget (p.used + cost))) [
      | inl full ↦ rw full (record { used_for = v.used_for; within = v.within })
      | inr fits ↦
          rw fits (record { used_for = omega (arith, v.used_for, sum); within = ground arith })
    ]

apply_delta-IsWithinBudget :
    (o : Option Entry) (thread turn item delta : String) (p : Projection)
    → find (has_key thread turn item) p.items ≡ o
    → IsWithinBudget p
    → IsWithinBudget (apply_delta o thread turn item delta p).1
unfolding apply_delta
apply_delta-IsWithinBudget none thread turn item delta p h v =
    let e : Entry = record {
      thread = thread;
      turn = turn;
      item = item;
      partial = delta;
      completed = none;
    } in
    add_delta-IsWithinBudget thread turn item delta _ _ p (omega (arith, total_cost-snoc p.items e))
      v
apply_delta-IsWithinBudget (some e) thread turn item delta p h v = choose e.completed
  where
    choose :
        (o : Option CompletedItem)
        → IsWithinBudget
            (elim o as (λ x. ProjectionUpdate × Projection) [
              | some c ↦ (no_update, p)
              | none ↦
                  add_delta thread turn item delta
                    (6 * byte_len delta)
                    (extend (has_key thread turn item) delta p.items)
                    p
            ]).1
    choose (some c) = v
    choose none =
        add_delta-IsWithinBudget thread turn item delta _ _ p
          (total_cost-extend (has_key thread turn item) delta p.items h) v

release-IsWithinBudget :
    (o : Option Entry) (key : Entry → Bool) (p : Projection)
    → find key p.items ≡ o
    → IsWithinBudget p
    → IsWithinBudget (release o key p)
unfolding release
release-IsWithinBudget none key p h v = v
release-IsWithinBudget (some e) key p h v =
    let parts = total_cost-delete key p.items h in
    record { used_for = omega (arith, v.used_for, parts); within = omega (arith, v.within) }

keep_mark-IsWithinBudget :
    (c : CompletedItem) (p : Projection) → IsWithinBudget p → IsWithinBudget (keep_mark c p)
unfolding keep_mark
keep_mark-IsWithinBudget c p v =
    elim (Bool-cases (
      not p.truncated
      && not (ltb budget (p.used + item_cost c.thread_id c.turn_id c.item_id "")))) [
        | inl fits ↦ rw fits (record {
          used_for = omega (arith, v.used_for, total_cost-snoc p.items (mark c));
          within = ground arith;
        })
        | inr full ↦ rw full (record { used_for = v.used_for; within = v.within })
      ]

-- Any event of the agent leaves the projection within its budget: what is counted as used is what the
-- items that are kept cost, and this is at most `LiveProjectionBudget`.
pub apply-IsWithinBudget :
    (event : AgentEvent) (p : Projection) → IsWithinBudget p → IsWithinBudget (apply event p).1
unfolding apply apply_completed
apply-IsWithinBudget (item_delta thread turn item delta) p v = choose p.truncated
  where
    choose :
        (b : Bool)
        → IsWithinBudget
            (if b
              then (no_update, p)
              else apply_delta (find (has_key thread turn item) p.items) thread turn item delta p).1
    choose true = v
    choose false =
        apply_delta-IsWithinBudget (find (has_key thread turn item) p.items) thread turn item delta
          p refl v
apply-IsWithinBudget (item_completed none) p v = v
apply-IsWithinBudget (item_completed (some c)) p v =
    let key = has_key c.thread_id c.turn_id c.item_id in
    let kept =
      keep_mark-IsWithinBudget c (release (find key p.items) key p)
        (release-IsWithinBudget (find key p.items) key p refl v) in
    record { used_for = kept.used_for; within = kept.within }
apply-IsWithinBudget elsewhere p v = v
