-- ===== src/Store/Wellformed/Messages.antt =====
-- The messages and their bindings under the updates of a transition and the insertions of a command.
use mathlib.Core.Path.{subst}
use agent_room.Prelude.{
  ℕ, ◌+◌, ◌≤◌, ◌≡◌, refl, sym, inl, inr, true, List, [], ◌∷◌, ◌++◌, none, some, String, eq_iff,
  if◌then◌else◌, find, update_where, arith, Bool-cases, find-update_where, find-append, find-holds,
  All,
}
use agent_room.Room.Types.{RequestState, same_state}
use agent_room.Store.Tables.{MessageRow, BindingRow, EventRow, is_message, is_event}
use agent_room.Store.Rows.{hit_message, hit_binding, set_message_state}
use agent_room.Store.Moves.{MayBecome, Evolves, Extends}

-- A binding belongs to a message and is in its state.
abbrev pub Agrees : List MessageRow → BindingRow → Type 0
Agrees ms b =
    (m : MessageRow) × (find (is_message b.room_id b.message_id) ms ≡ some m) × (b.state ≡ m.state)

pub same_state-eq : (a b : RequestState) → same_state a b ≡ true → a ≡ b
same_state-eq a b h = ground arith

pub update-Evolves :
    (rid : String) (mid : ℕ) (old new : RequestState) (ms : List MessageRow)
    → MayBecome old new
    → Evolves ms (update_where (hit_message rid mid old) (set_message_state new) ms)
update-Evolves rid mid old new ms move q key m e =
    let found =
      find-update_where q (hit_message rid mid old) (set_message_state new) ms (key new) in
    elim (Bool-cases (hit_message rid mid old m)) [
      | inl hit ↦
          let same : m.state ≡ old = ground (arith, same_state-eq m.state old) in
          (new, rw (found, e, hit) refl, subst (λ s. MayBecome s new) (sym same) move)
      | inr miss ↦ (m.state, rw (found, e, miss) refl, inl refl)
    ]

-- The two updates hit a binding and its message together.
same_hit :
    (rid : String) (mid : ℕ) (old : RequestState) (m : MessageRow) (b : BindingRow)
    → is_message b.room_id b.message_id m ≡ true
    → b.state ≡ m.state
    → hit_binding rid mid old b ≡ hit_message rid mid old m
same_hit rid mid old m b key same =
    let r : m.room_id ≡ b.room_id = ground (arith, eq_iff m.room_id b.room_id) in
    let i : m.id ≡ b.message_id = ground (arith, eq_iff m.room_id b.room_id) in rw (r, i, same) refl

module _ (rid : String) (mid : ℕ) (old new : RequestState) (change : BindingRow → BindingRow)
    (in_room : (b : BindingRow) → (change b).room_id ≡ b.room_id)
    (of_message : (b : BindingRow) → (change b).message_id ≡ b.message_id)
    (sets : (b : BindingRow) → (change b).state ≡ new) where
  update-Agrees_one :
      (ms : List MessageRow) (b : BindingRow)
      → Agrees ms b
      → Agrees
          (update_where (hit_message rid mid old) (set_message_state new) ms)
          (if hit_binding rid mid old b then change b else b)
  update-Agrees_one ms b (m, e, same) =
      let q = is_message b.room_id b.message_id in
      let hits = same_hit rid mid old m b (find-holds q ms e) same in
      let found =
        find-update_where q (hit_message rid mid old) (set_message_state new) ms (λ x. refl) in
      elim (Bool-cases (hit_message rid mid old m)) [
        | inl hit ↦
            rw (hits, hit)
              (set_message_state new m, rw (in_room b, of_message b, found, e, hit) refl, sets b)
        | inr miss ↦ rw (hits, miss) (m, rw (found, e, miss) refl, same)
      ]

  pub update-Agrees :
      (ms : List MessageRow) (bs : List BindingRow)
      → All (Agrees ms) bs
      → All
          (Agrees (update_where (hit_message rid mid old) (set_message_state new) ms))
          (update_where (hit_binding rid mid old) change bs)
  update-Agrees ms [] h = tt
  update-Agrees ms (b ∷ bs) h = (update-Agrees_one ms b h.0, update-Agrees ms bs h.1)

-- A property of the rows that does not look at their states.
pub update-All {κ} :
    (P : MessageRow → Type κ) (rid : String) (mid : ℕ) (old new : RequestState)
    (ms : List MessageRow)
    → ((m : MessageRow) → P m → P (set_message_state new m))
    → All P ms
    → All P (update_where (hit_message rid mid old) (set_message_state new) ms)
update-All P rid mid old new [] keep h = tt
update-All P rid mid old new (m ∷ ms) keep h = (
  elim (Bool-cases (hit_message rid mid old m)) [
    | inl hit ↦ rw hit (keep m h.0)
    | inr miss ↦ rw miss h.0
  ],
  update-All P rid mid old new ms keep h.1,
)

pub Extends-snoc : (ms : List MessageRow) (m : MessageRow) → Extends ms (ms ++ m ∷ [])
Extends-snoc ms m q x e = find-append q ms (m ∷ []) e

pub Evolves-Extends : (a b c : List MessageRow) → Evolves a b → Extends b c → Evolves a c
Evolves-Extends a b c h k q key m e =
    let (t, found, move) = h q key m e in (t, k q (set_message_state t m) found, move)

pub Extends-Evolves : (a b c : List MessageRow) → Extends a b → Evolves b c → Evolves a c
Extends-Evolves a b c h k q key m e = k q key m (h q m e)

pub Evolves-refl : (ms : List MessageRow) → Evolves ms ms
Evolves-refl ms q key m e = (m.state, e, inl refl)

pub All-map {ℓ κ μ} :
    {A : Type ℓ} (P : A → Type κ) (Q : A → Type μ) (xs : List A)
    → ((x : A) → P x → Q x)
    → All P xs
    → All Q xs
All-map P Q [] f h = tt
All-map P Q (x ∷ xs) f h = (f x h.0, All-map P Q xs f h.1)

pub Agrees-Extends :
    (ms ns : List MessageRow) (bs : List BindingRow)
    → Extends ms ns
    → All (Agrees ms) bs
    → All (Agrees ns) bs
Agrees-Extends ms ns bs h a =
    All-map (Agrees ms) (Agrees ns) bs
      (λ b k. (k.0, h (is_message b.room_id b.message_id) k.0 k.1, k.2)) a

-- An id beyond those given names no message.
pub find_fresh :
    (rid : String) (k : ℕ) (ms : List MessageRow)
    → All (λ m. m.id ≤ k) ms
    → find (is_message rid (k + 1)) ms ≡ none
find_fresh rid k [] h = refl
find_fresh rid k (m ∷ ms) h = ground (arith, find_fresh rid k ms h.1)

-- The event that accepted a message is in the log.
abbrev pub IsLogged : List EventRow → MessageRow → Type 0
IsLogged es m = (e : EventRow) × (find (is_event m.room_id m.accepted_seq) es ≡ some e)

pub IsLogged-append :
    (ms : List MessageRow) (es fs : List EventRow)
    → All (IsLogged es) ms
    → All (IsLogged (es ++ fs)) ms
IsLogged-append ms es fs h =
    All-map (IsLogged es) (IsLogged (es ++ fs)) ms
      (λ m k. (k.0, find-append (is_event m.room_id m.accepted_seq) es fs k.1)) h
