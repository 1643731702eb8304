-- ===== src/Codex/Rpc/Answers.antt =====
-- internal/codex/jsonrpc.go: what the callers may rely on, over all orders of the goroutines' steps.
use mathlib.Core.Path.{subst}
use agent_room.Prelude.{
  ℕ, ◌+◌, ◌<◌, ◌≡◌, refl, ap, sym, ◌∙◌, ◌⊎◌, inl, inr, true, false, List, [], ◌∷◌, ◌++◌,
  find-update_where, Option, none, some, length, All, find, arith, Bool-cases,
}
use agent_room.Codex.Rpc.{
  RpcError, unknown_response_id, CallResult, answer, answered, broken, Call, Client, Op, fail,
  is_call, pending, run, step, new_client, fail_all, fail_first, remove_pending, Response,
}
use agent_room.Codex.Rpc.Balance.{
  bit, tally, Backing, Reason, IsFair, FairAt, Balanced, pending-eq-some, still_open, no_mail,
}
use agent_room.Codex.Rpc.Balance.Steps.{run-Balanced, step-Balanced, new-Balanced}

-- A call of the client after a list of steps.
abbrev pub Known : List Op → ℕ → Call → Type 0
Known os id k = find (is_call id) (run os ([], new_client)).1.calls ≡ some k

abbrev pub withdrawals : List Op → ℕ → ℕ
withdrawals os id = tally id (run os ([], new_client)).0

fair :
    (os : List Op) (id : ℕ) {k : Call}
    → Known os id k
    → IsFair (run os ([], new_client)).0 (run os ([], new_client)).1.terminal id k
fair os id {k} h =
    subst (FairAt (run os ([], new_client)).0 (run os ([], new_client)).1.terminal id) h
      (run-Balanced os ([], new_client) new-Balanced id)

-- After any steps in any order, a call waits in the map with no answer sent, or it was sent one
-- answer and no more, or its caller has withdrawn it and it was sent none. So the channel of one
-- place never blocks the goroutine that sends.
pub run-answers :
    (os : List Op) (id : ℕ) (k : Call)
    → Known os id k
    → length k.mailbox + bit k.listed + withdrawals os id ≡ 1
run-answers os id k h = (fair os id h).balanced

backed-first :
    (n : ℕ) (xs : List CallResult) {r : Response}
    → All (Backing n) xs
    → xs ≡ answered r ∷ []
    → 0 < n
backed-first n [] h e = absurd (ground arith)
backed-first n (answered r ∷ xs) h e = h.0
backed-first n (broken e ∷ xs) h at = absurd (ground arith)

-- A response of the server is passed on to a caller only if bytes of its request were written, in
-- whichever order the response and the outcome of the write come.
pub run-backed :
    (os : List Op) (id : ℕ) (k : Call) (r : Response)
    → Known os id k
    → k.mailbox ≡ answered r ∷ []
    → 0 < k.bytes_written
run-backed os id k r h e = backed-first k.bytes_written k.mailbox (fair os id h).backed e

single : (xs : List CallResult) → length xs ≡ 1 → (r : CallResult) × (xs ≡ r ∷ [])
single [] h = absurd (omega arith)
single (x ∷ []) h = (x, refl)
single (x ∷ y ∷ xs) h = absurd (omega arith)

-- Whatever the goroutines have done in whatever order: a caller that has not withdrawn its call
-- before and cannot withdraw it now, because it is not in the map any more, has one answer on its
-- channel, so that the receive that follows does not wait.
pub remove_pending-answered :
    (os : List Op) (id : ℕ) (k : Call)
    → Known os id k
    → withdrawals os id ≡ 0
    → (remove_pending id (run os ([], new_client)).1).0 ≡ false
    → (r : CallResult) × (k.mailbox ≡ r ∷ [])
unfolding remove_pending pending
remove_pending-answered os id k h free refused = elim (Bool-cases k.listed) [
  | inl on ↦ absurd (ground (arith, rw (remove_pending, pending, h, on) at refused))
  | inr off ↦ single k.mailbox (omega (arith, (fair os id h).balanced, ap bit off, free))
]

-- The error that ends the connection: the first one.
abbrev pub first_error : Option RpcError → RpcError → RpcError
first_error none e = e
first_error (some first) e = first

-- What a caller may find on its channel once the connection has ended with the error `first`.
abbrev pub Explained : RpcError → CallResult → Type 0
Explained first (answered r) = Unit
Explained first (broken e) = (e ≡ unknown_response_id) ⊎ (e ≡ first)

-- The call that was waiting in the map has the error as its one answer.
abbrev pub IsTold : RpcError → Option Call → Call → Type 0
IsTold e none k = Unit
IsTold e (some waiting) k = k.mailbox ≡ broken e ∷ []

ended :
    (t : Option RpcError) (e : RpcError) (c : Client)
    → c.terminal ≡ t
    → (fail_first t e c).terminal ≡ some (first_error t e)
unfolding fail_first
ended (some first) e c h = h
ended none e c h = refl

Reason-Explained : (first : RpcError) (r : CallResult) → Reason (some first) r → Explained first r
Reason-Explained first (answered r) h = tt
Reason-Explained first (broken e) (inl h) = inl h
Reason-Explained first (broken e) (inr h) = let same : first ≡ e = ground arith in inr (sym same)

explained :
    (first : RpcError) (xs : List CallResult)
    → All (Reason (some first)) xs
    → length xs ≡ 1
    → (r : CallResult) × (xs ≡ r ∷ []) × Explained first r
explained first [] h one = absurd (omega arith)
explained first (x ∷ []) h one = (x, refl, Reason-Explained first x h.0)
explained first (x ∷ y ∷ xs) h one = absurd (omega arith)

-- A call that waits is sent the error.
waiting_broken :
    (t : Option RpcError) (e : RpcError) (id : ℕ) (c : Client) (k0 k : Call)
    → c.terminal ≡ t
    → t ≡ none
    → find (is_call id) c.calls ≡ some k0
    → k0.listed ≡ true
    → k0.mailbox ≡ []
    → find (is_call id) (fail_first t e c).calls ≡ some k
    → k.mailbox ≡ broken e ∷ []
unfolding fail_first
waiting_broken (some first) e id c k0 k over going found on empty h = absurd (ground arith)
waiting_broken none e id c k0 k over going found on empty h =
    let moved =
      find-update_where (is_call id) (λ (x : Call). x.listed) (answer (broken e)) c.calls
        (λ x. refl) in
    let same : answer (broken e) k0 ≡ k = ground (arith, rw (moved, found, on) at h) in
    ap (λ (x : Call). x.mailbox) (sym same) ∙ ap (λ m. m ++ broken e ∷ []) empty

-- Once the connection has failed, after any steps, no call waits. Each one that its caller has not
-- withdrawn was sent one answer and no more: a response, or the error unknown_response_id, or the
-- error that ended the connection, which is the first one. A call that was waiting when it failed is
-- sent that error.
pub fail_all-answers :
    (os : List Op) (e : RpcError) (id : ℕ) (k : Call)
    → find (is_call id) (fail_all e (run os ([], new_client)).1).calls ≡ some k
    → withdrawals os id ≡ 0
    → ((r : CallResult) × (k.mailbox ≡ r ∷ [])
        × Explained (first_error (run os ([], new_client)).1.terminal e) r)
      × IsTold e (pending id (run os ([], new_client)).1) k
unfolding fail_all step
fail_all-answers os e id k h free =
    let (gone, c) = run os ([], new_client) in
    let b : Balanced gone c = run-Balanced os ([], new_client) new-Balanced in
    let f : FairAt gone (fail_all e c).terminal id (find (is_call id) (fail_all e c).calls) =
      step-Balanced (fail e) gone c b id in
    let first = first_error c.terminal e in
    let at : (fail_all e c).terminal ≡ some first = ended c.terminal e c refl in
    let now : IsFair gone (some first) id k =
      subst (λ t. IsFair gone t id k) at (subst (FairAt gone (fail_all e c).terminal id) h f) in
    (
      explained first k.mailbox now.reasons (omega (arith, now.balanced, ap bit now.over, free)),
      told (pending id c) refl,
    )
  where
    told :
        (waiting : Option Call)
        → pending id (run os ([], new_client)).1 ≡ waiting
        → IsTold e waiting k
    told none there = tt
    told (some k0) there =
        let (gone, c) = run os ([], new_client) in
        let (found, on) = pending-eq-some id c there in
        let before : IsFair gone c.terminal id k0 =
          rw found at (run-Balanced os ([], new_client) new-Balanced id) in
        waiting_broken c.terminal e id c k0 k refl (still_open before on) found on
          (no_mail before on) h
