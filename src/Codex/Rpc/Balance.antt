-- ===== src/Codex/Rpc/Balance.antt =====
-- internal/codex/jsonrpc.go: each call is waiting, or answered once, or withdrawn.
pub mod Steps
use mathlib.Core.Path.{subst}
use mathlib.Core.Option
use agent_room.Prelude.{
  ℕ, ◌+◌, ◌<◌, ◌≡◌, refl, sym, ap, ◌∙◌, ◌⊎◌, inl, inr, Bool, true, false, List, [], ◌∷◌, ◌++◌,
  Option, none, some, ◌==◌, ==_iff, if◌then◌else◌, length, length-append, All, find, find-holds,
  update_where, find-update_where, count, arith, Bool-cases, Option-cases,
}
use agent_room.Codex.Rpc.{
  RpcError, unknown_response_id, CallResult, answered, broken, Call, Client, is_call, change,
  pending,
}

abbrev pub bit : Bool → ℕ
bit true = 1
bit false = 0

-- How often the caller of a call has withdrawn it.
abbrev pub tally : ℕ → List ℕ → ℕ
tally id gone = count (λ x. x == id) gone

-- An answer of the server is passed on for a call with bytes on the wire alone.
abbrev pub Backing : ℕ → CallResult → Type 0
Backing written (answered r) = 0 < written
Backing written (broken e) = Unit

abbrev pub IsOver : Option RpcError → Call → Type 0
IsOver none k = Unit
IsOver (some e) k = k.listed ≡ false

-- A call fails because a response named it before a byte of it was written, or with the error that has
-- ended the connection.
abbrev pub Reason : Option RpcError → CallResult → Type 0
Reason terminal (answered r) = Unit
Reason terminal (broken e) = (e ≡ unknown_response_id) ⊎ (terminal ≡ some e)

pub record IsFair (gone : List ℕ) (terminal : Option RpcError) (id : ℕ) (k : Call) : Type 0 where
  -- The call is in the map, or it was sent one answer, or it was withdrawn: once in all.
  pub balanced : length k.mailbox + bit k.listed + tally id gone ≡ 1
  pub backed : All (Backing k.bytes_written) k.mailbox
  pub reasons : All (Reason terminal) k.mailbox
  -- The map is empty once the connection has ended.
  pub over : IsOver terminal k

abbrev pub FairAt : List ℕ → Option RpcError → ℕ → Option Call → Type 0
FairAt gone terminal id none = tally id gone ≡ 0
FairAt gone terminal id (some k) = IsFair gone terminal id k

abbrev pub Balanced : List ℕ → Client → Type 0
Balanced gone c = (id : ℕ) → FairAt gone c.terminal id (find (is_call id) c.calls)

pub empty_of_length : (xs : List CallResult) → length xs ≡ 0 → xs ≡ []
empty_of_length [] h = refl
empty_of_length (x ∷ xs) h = absurd (omega arith)

unlisted-IsOver : (terminal : Option RpcError) (k : Call) → k.listed ≡ false → IsOver terminal k
unlisted-IsOver none k off = tt
unlisted-IsOver (some e) k off = off

-- A call that is in the map, and what may become of it.
module _ {gone : List ℕ} {terminal : Option RpcError} {id : ℕ} {k : Call}
    (fair : IsFair gone terminal id k) (listed : k.listed ≡ true) where
  pub no_mail : k.mailbox ≡ []
  no_mail = empty_of_length k.mailbox (omega (arith, fair.balanced, ap bit listed))

  -- The connection has not ended.
  pub still_open : terminal ≡ none
  still_open = elim (Option-cases terminal) [
    | inl e ↦ e
    | inr (x, e) ↦ absurd (ground (arith, subst (λ t. IsOver t k) e fair.over))
  ]

  -- The answer is sent, and the connection may end with it.
  pub answer-IsFair :
      (after : Option RpcError) (r : CallResult) (k' : Call)
      → k'.mailbox ≡ k.mailbox ++ r ∷ []
      → k'.listed ≡ false
      → Backing k'.bytes_written r
      → Reason after r
      → IsFair gone after id k'
  answer-IsFair after r k' mail off backing reason = record {
    balanced = omega (
      arith,
      fair.balanced,
      ap bit listed,
      ap bit off,
      ap length mail,
      length-append k.mailbox (r ∷ []),
    );
    backed = rw (mail, no_mail) (backing, tt);
    reasons = rw (mail, no_mail) (reason, tt);
    over = unlisted-IsOver after k' off;
  }

  pub quiet-IsFair :
      (k' : Call) → k'.mailbox ≡ k.mailbox → k'.listed ≡ k.listed → IsFair gone terminal id k'
  quiet-IsFair k' mail same = record {
    balanced = omega (arith, fair.balanced, ap bit same, ap length mail);
    backed = rw (mail, no_mail) tt;
    reasons = rw (mail, no_mail) tt;
    over = rw still_open tt;
  }

  pub withdrawn-IsFair :
      (k' : Call) → k'.mailbox ≡ k.mailbox → k'.listed ≡ false → IsFair (id ∷ gone) terminal id k'
  withdrawn-IsFair k' mail off = record {
    balanced =
        ground
          (arith, fair.balanced, ap bit listed, ap bit off, ap length mail, (==_iff id id).1 refl);
    backed = rw (mail, no_mail) tt;
    reasons = rw (mail, no_mail) tt;
    over = rw still_open tt;
  }

-- The map holds a call: it is the one of its id, and listed.
pub pending-eq-some :
    (id : ℕ) (c : Client) {k : Call}
    → pending id c ≡ some k
    → (find (is_call id) c.calls ≡ some k) × (k.listed ≡ true)
unfolding pending
pending-eq-some id c {k} h = elim (Option-cases (find (is_call id) c.calls)) [
  | inl e ↦ absurd (ground (arith, rw (pending, e) at h))
  | inr (x, e) ↦ elim (Bool-cases x.listed) [
    | inl on ↦
        let same : x ≡ k = ground (arith, rw (pending, e, on) at h) in
        (e ∙ ap some same, subst (λ (z : Call). z.listed ≡ true) same on)
    | inr off ↦ absurd (ground (arith, rw (pending, e, off) at h))
  ]
]

-- One call is changed: the others are as they were.
pub change-Balanced :
    (gone gone' : List ℕ) (id : ℕ) (f : Call → Call) (c : Client) {k : Call}
    → ((x : Call) → (f x).id ≡ x.id)
    → ((j : ℕ) → (id == j) ≡ false → tally j gone' ≡ tally j gone)
    → find (is_call id) c.calls ≡ some k
    → IsFair gone' c.terminal id (f k)
    → Balanced gone c
    → Balanced gone' (change id f c)
change-Balanced gone gone' id f c {k} keep others found fair b j = elim (Bool-cases (id == j)) [
  | inl here ↦
      let same : id ≡ j = (==_iff id j).0 here in
      subst
        (λ z. FairAt gone' c.terminal z (find (is_call z) (update_where (is_call id) f c.calls)))
        same
        (rw
          (
            find-update_where (is_call id) (is_call id) f c.calls (λ x. rw keep),
            found,
            find-holds (is_call id) c.calls found,
          )
          fair)
  | inr other ↦
      rw (find-update_where (is_call j) (is_call id) f c.calls (λ x. rw keep))
        (elim (Option-cases (find (is_call j) c.calls)) [
          | inl e ↦ rw e (others j other ∙ (rw e at (b j)))
          | inr (x, e) ↦
              let hit = find-holds (is_call j) c.calls e in
              let miss : is_call id x ≡ false = ground arith in
              let before : IsFair gone c.terminal j x = rw e at (b j) in
              rw (e, miss)
                (record {
                  balanced = omega (arith, before.balanced, others j other);
                  backed = before.backed;
                  reasons = before.reasons;
                  over = before.over;
                })
        ])
]
