-- ===== src/Workgroup/Members.antt =====
-- internal/workgroup/config.go: what a valid configuration guarantees.
use agent_room.Prelude.{
  ◌≤◌, ◌≡◌, refl, sym, inl, inr, Bool, true, false, not, ◌&&◌, ◌||◌, List, [], ◌∷◌, none, String,
  str_eq, eq_iff, eq_refl, ◌==◌, if◌then◌else◌, ltb, any, length, arith, Bool-cases, Option-cases,
}
use mathlib.Core.Path.{subst}
use agent_room.Workgroup.Config.{Agent, Config, check_agents, check_provider, bad_agent, validate}

abbrev pub has_id : String → Agent → Bool
has_id id m = str_eq m.id id

-- No two members have an id in common.
abbrev pub HasOwnIds : List Agent → Type 0
HasOwnIds [] = Unit
HasOwnIds (m ∷ ms) = (any (has_id m.id) ms ≡ false) × HasOwnIds ms

abbrev pub is_codex : Agent → Bool
is_codex m = str_eq m.id "codex" && str_eq m.provider "codex"

check_agents-next :
    (seen : List String) (builtin : Bool) (m : Agent) (ms : List Agent)
    → check_agents seen builtin (m ∷ ms) ≡ none
    → (bad_agent seen m ≡ false)
      × (check_agents
            (m.id ∷ seen)
            (if str_eq m.id "codex" then str_eq m.provider "codex" else builtin)
            ms
          ≡ none)
unfolding check_agents
check_agents-next seen builtin m ms h = elim (Bool-cases (bad_agent seen m)) [
  | inl e ↦ absurd (ground (arith, rw (check_agents, e) at h))
  | inr e ↦ elim (Option-cases (check_provider m)) [
    | inl e1 ↦ (e, rw (check_agents, e, e1) at h)
    | inr (x, e1) ↦ absurd (ground (arith, rw (check_agents, e, e1) at h))
  ]
]

bad_agent-seen :
    (seen : List String) (m : Agent)
    → bad_agent seen m ≡ false
    → any (λ id. str_eq id m.id) seen ≡ false
unfolding bad_agent
bad_agent-seen seen m h = ground arith

check_agents-seen :
    (seen : List String) (builtin : Bool) (id : String) (ms : List Agent)
    → any (λ x. str_eq x id) seen ≡ true
    → check_agents seen builtin ms ≡ none
    → any (has_id id) ms ≡ false
check_agents-seen seen builtin id [] h k = refl
check_agents-seen seen builtin id (m ∷ ms) h k =
    let (fine, rest) = check_agents-next seen builtin m ms k in
    let fresh = bad_agent-seen seen m fine in
    let other : str_eq m.id id ≡ false = elim (Bool-cases (str_eq m.id id)) [
      | inl e ↦
          let here : any (λ x. str_eq x m.id) seen ≡ true =
            subst (λ z. any (λ x. str_eq x z) seen ≡ true) (sym ((eq_iff m.id id).0 e)) h in
          absurd (ground arith)
      | inr e ↦ e
    ] in
    rw other (check_agents-seen (m.id ∷ seen) _ id ms (rw (other, h) refl) rest)

check_agents-HasOwnIds :
    (seen : List String) (builtin : Bool) (ms : List Agent)
    → check_agents seen builtin ms ≡ none
    → HasOwnIds ms
check_agents-HasOwnIds seen builtin [] k = tt
check_agents-HasOwnIds seen builtin (m ∷ ms) k =
    let (fine, rest) = check_agents-next seen builtin m ms k in
    (
      check_agents-seen (m.id ∷ seen) _ m.id ms (rw (eq_refl m.id) refl) rest,
      check_agents-HasOwnIds (m.id ∷ seen) _ ms rest,
    )

check_agents-codex :
    (seen : List String) (builtin : Bool) (ms : List Agent)
    → check_agents seen builtin ms ≡ none
    → (builtin || any is_codex ms) ≡ true
unfolding check_agents
check_agents-codex seen builtin [] k = ground arith
check_agents-codex seen builtin (m ∷ ms) k =
    let (fine, rest) = check_agents-next seen builtin m ms k in
    ground (arith, check_agents-codex (m.id ∷ seen) _ ms rest)

-- A valid configuration has 1 to 16 members, no two with the same id, and one of them is `codex` with
-- the provider `codex`.
pub validate-HasOwnIds :
    (c : Config)
    → validate c ≡ none
    → (1 ≤ length c.members)
      × (length c.members ≤ 16)
      × HasOwnIds c.members
      × (any is_codex c.members ≡ true)
unfolding validate
validate-HasOwnIds c h =
    elim (Bool-cases
      (not (c.version == 1) || ltb (length c.members) 1 || ltb 16 (length c.members))) [
        | inl e ↦ absurd (ground (arith, rw (validate, e) at h))
        | inr e ↦
            let rest : check_agents [] false c.members ≡ none = rw (validate, e) at h in
            (
              ground arith,
              ground arith,
              check_agents-HasOwnIds [] false c.members rest,
              check_agents-codex [] false c.members rest,
            )
      ]
