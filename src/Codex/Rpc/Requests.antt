-- ===== src/Codex/Rpc/Requests.antt =====
-- internal/codex/jsonrpc.go: the requests that the server makes of the client, one at a time.
use agent_room.Prelude.{
  ℕ, zero, suc, ◌+◌, ◌≤◌, ◌≡◌, ◌∙◌, inl, inr, Bool, not, ◌&&◌, List, [], ◌∷◌, Option, none, some,
  String, str_eq, ◌==◌, if◌then◌else◌, any, select, arith, Bool-cases, Option-cases,
}
use agent_room.Codex.Rpc.{
  RpcError, invalid_wire_message, duplicate_server_request_id, server_request_busy,
}

-- `serverActive`, and how many of the `serverSlots` (one) are taken.
pub record Requests : Type 0 where
  pub terminal : Option RpcError
  pub active : List String
  pub slots : ℕ

abbrev pub no_requests : Requests
no_requests = record { terminal = none; active = []; slots = 0 }

abbrev pub capacity : ℕ
capacity = 1

abbrev pub has_key : String → List String → Bool
has_key key active = any (λ k. str_eq k key) active

-- A request is admitted unless the connection has ended (`ended` is the context's error), its key is
-- active, or the slot is taken: the key is then given up again.
unfoldable pub admit_open : String → Requests → Option RpcError × Requests
admit_open key s =
    if has_key key s.active
    then (some duplicate_server_request_id, s)
    else if s.slots == capacity
    then (some server_request_busy, s)
    else (none, record s { active = key ∷ s.active; slots = s.slots + 1 })

unfoldable pub admit_server_request :
    Option RpcError → String → Requests → Option RpcError × Requests
unfolding admit_open
admit_server_request ended key s = elim s.terminal [
  | some e ↦ (some e, s)
  | none ↦ elim ended [ some e ↦ (some e, s) | none ↦ admit_open key s ]
]

-- The slot is given back, if one is taken.
abbrev pub less_one : ℕ → ℕ
less_one zero = 0
less_one (suc n) = n

unfoldable pub release_server_request : String → Requests → Requests
release_server_request key s = record s {
  slots = less_one s.slots;
  active = select (λ k. not (str_eq k key)) s.active;
}

unfoldable pub server_request_active : String → Requests → Bool
server_request_active key s = has_key key s.active && s.slots == capacity

-- The check before the handler is started: `none` starts it.
unfoldable pub start_server_request :
    Option RpcError → String → Requests → Option RpcError × Requests
unfolding release_server_request server_request_active
start_server_request ended key s = elim s.terminal [
  | some e ↦ (some e, release_server_request key s)
  | none ↦ elim ended [
    | some e ↦ (some e, release_server_request key s)
    | none ↦
        if server_request_active key s
        then (none, s)
        else (some invalid_wire_message, release_server_request key s)
  ]
]

-- The slots that are taken are within the capacity.
abbrev pub IsSingle : Requests → Type 0
IsSingle s = s.slots ≤ capacity

admit_open-full :
    (key : String) (s : Requests) {s' : Requests}
    → IsSingle s
    → admit_open key s ≡ (none, s')
    → (s'.terminal ≡ s.terminal) × (s'.slots ≡ capacity)
unfolding admit_open
admit_open-full key s single h = ground arith

admitted :
    (key : String) (s : Requests) {s' : Requests}
    → IsSingle s
    → admit_server_request none key s ≡ (none, s')
    → (s'.terminal ≡ none) × (s'.slots ≡ capacity)
unfolding admit_server_request
admitted key s single h = elim (Option-cases s.terminal) [
  | inr (e, over) ↦ absurd (ground (arith, rw (admit_server_request, over) at h))
  | inl going ↦
      let (same, full) = admit_open-full key s single (rw (admit_server_request, going) at h) in
      (same ∙ going, full)
]

full_refused :
    (key : String) (s : Requests)
    → s.terminal ≡ none
    → s.slots ≡ capacity
    → (e : RpcError) × (admit_server_request none key s ≡ (some e, s))
unfolding admit_server_request admit_open
full_refused key s going full = elim (Bool-cases (has_key key s.active)) [
  | inl twice ↦ (duplicate_server_request_id, ground (arith, going))
  | inr new ↦ (server_request_busy, ground (arith, going, full))
]

-- While at most one slot is taken, a request that is admitted holds it: whatever its key, a second
-- one is refused until the first is released, and the refusal changes nothing.
pub admit-once :
    (key other : String) (s s' : Requests)
    → IsSingle s
    → admit_server_request none key s ≡ (none, s')
    → (e : RpcError) × (admit_server_request none other s' ≡ (some e, s'))
admit-once key other s s' single h =
    let (going, full) = admitted key s single h in full_refused other s' going full

-- No request of the server, and no release, takes more than the one slot.
pub admit-IsSingle :
    (ended : Option RpcError) (key : String) (s : Requests)
    → IsSingle s
    → IsSingle (admit_server_request ended key s).1
      × IsSingle (start_server_request ended key s).1
      × IsSingle (release_server_request key s)
unfolding admit_server_request admit_open start_server_request release_server_request
admit-IsSingle ended key s h = (ground arith, ground arith, ground arith)
