-- ===== src/Codex/Rpc/Balance/Steps.antt =====
-- internal/codex/jsonrpc.go: every step, in any order of the goroutines, keeps the calls balanced.
use mathlib.Core.Path.{subst}
use agent_room.Prelude.{
  ℕ, ◌+◌, ◌≡◌, refl, sym, ap, inl, inr, Bool, true, false, List, [], ◌∷◌, ◌++◌, Option, none, some,
  ◌==◌, ==_iff, if◌then◌else◌, find, find-append, find-append_none, find-holds, find-update_where,
  arith, Bool-cases, Option-cases,
}
use agent_room.Store.Wellformed.Messages.{All-map}
use agent_room.Codex.Rpc.{
  RpcError, unknown_response_id, invalid_wire_id, CallResult, answered, broken, Call, Client, Phase,
  pre_write, in_direct_write, write_done, phase_rejected, Response, is_call, change, answer,
  pending, max_id, register_pending, new_call, register_in, remove_found, begin_phase, begin_found,
  hold_back, deliver_found, outcome_found, fail_first, remove_pending, begin_pending_write,
  deliver_to, deliver_response, written_out, release_held, record_write_outcome, fail_all, Op,
  register, withdraw, begin, deliver, outcome, fail, step, run, new_client,
}
use agent_room.Codex.Rpc.Balance.{
  Backing, Reason, IsFair, Balanced, answer-IsFair, quiet-IsFair, withdrawn-IsFair, pending-eq-some,
  change-Balanced,
}

-- A call of the map is changed, and no caller withdraws.
settle :
    (gone : List ℕ) (id : ℕ) (f : Call → Call) (c : Client) {k : Call}
    → ((x : Call) → (f x).id ≡ x.id)
    → pending id c ≡ some k
    → (IsFair gone c.terminal id k → k.listed ≡ true → IsFair gone c.terminal id (f k))
    → Balanced gone c
    → Balanced gone (change id f c)
settle gone id f c {k} keep h fair b =
    let (found, listed) = pending-eq-some id c h in
    let before : IsFair gone c.terminal id k = rw found at (b id) in
    change-Balanced gone gone id f c keep (λ j other. refl) found (fair before listed) b

register-Balanced :
    (gone : List ℕ) (o : Option RpcError) (c : Client)
    → c.terminal ≡ o
    → Balanced gone c
    → Balanced gone (register_in o c).2
unfolding register_in
register-Balanced gone (some e) c over b = b
register-Balanced gone none c going b = elim (Bool-cases (c.next_id == max_id)) [
  | inl full ↦
      subst (λ x. Balanced gone (if x then (none, some invalid_wire_id, c) else grown).2) (sym full)
        b
  | inr room ↦
      subst (λ x. Balanced gone (if x then (none, some invalid_wire_id, c) else grown).2) (sym room)
        added
]
  where
    grown : Option ℕ × Option RpcError × Client
    grown = (
      some (c.next_id + 1),
      none,
      record c { next_id = c.next_id + 1; calls = c.calls ++ new_call (c.next_id + 1) ∷ [] },
    )

    added : Balanced gone grown.2
    added id = elim (Option-cases (find (is_call id) c.calls)) [
      | inr (k, e) ↦ rw (find-append (is_call id) c.calls _ e) (rw e at (b id))
      | inl e ↦
          rw (find-append_none (is_call id) c.calls (new_call (c.next_id + 1) ∷ []) e)
            (elim (Bool-cases (c.next_id + 1 == id)) [
              | inl here ↦ rw here (record {
                balanced = omega (arith, rw e at (b id));
                backed = tt;
                reasons = tt;
                over = rw going tt;
              })
              | inr other ↦ rw other (rw e at (b id))
            ])
    ]

withdraw-Balanced :
    (gone : List ℕ) (o : Option Call) (id : ℕ) (c : Client)
    → pending id c ≡ o
    → Balanced gone c
    → Balanced (if (remove_found o id c).0 then id ∷ gone else gone) (remove_found o id c).1
unfolding remove_found
withdraw-Balanced gone none id c e b = b
withdraw-Balanced gone (some k) id c e b =
    let (found, listed) = pending-eq-some id c e in
    let before : IsFair gone c.terminal id k = rw found at (b id) in
    change-Balanced gone (id ∷ gone) id (λ x. record x { listed = false }) c (λ x. refl)
      (λ j other. rw other refl) found (withdrawn-IsFair before listed _ refl refl) b

begin_phase-Balanced :
    (gone : List ℕ) (p : Phase) (id : ℕ) (c : Client) {k : Call}
    → pending id c ≡ some k
    → Balanced gone c
    → Balanced gone (begin_phase p id c).1
unfolding begin_phase
begin_phase-Balanced gone pre_write id c e b =
    settle gone id (λ k. record k { phase = in_direct_write }) c (λ x. refl) e
      (λ fair on. quiet-IsFair fair on _ refl refl) b
begin_phase-Balanced gone in_direct_write id c e b = b
begin_phase-Balanced gone write_done id c e b = b
begin_phase-Balanced gone phase_rejected id c e b = b

begin-Balanced :
    (gone : List ℕ) (o : Option Call) (id : ℕ) (c : Client)
    → pending id c ≡ o
    → Balanced gone c
    → Balanced gone (begin_found o id c).1
unfolding begin_found
begin-Balanced gone none id c e b = b
begin-Balanced gone (some k) id c e b = begin_phase-Balanced gone k.phase id c e b

hold_back-Balanced :
    (gone : List ℕ) (held : Option Response) (k : Call) (r : Response) (c : Client)
    → pending k.id c ≡ some k
    → Balanced gone c
    → Balanced gone (hold_back held k r c).1
unfolding hold_back
hold_back-Balanced gone (some held) k r c h b = b
hold_back-Balanced gone none k r c h b =
    settle gone k.id (λ k. record k { quarantined = some r }) c (λ x. refl) h
      (λ fair on. quiet-IsFair fair on _ refl refl) b

-- The answer to a call that is in the map.
answer-Balanced :
    (gone : List ℕ) (id : ℕ) (r : CallResult) (f : Call → Call) (c : Client) {k : Call}
    → ((x : Call) → (f x).id ≡ x.id)
    → pending id c ≡ some k
    → Backing (f k).bytes_written r
    → Reason c.terminal r
    → (f k).mailbox ≡ k.mailbox
    → Balanced gone c
    → Balanced gone (change id (λ x. answer r (f x)) c)
answer-Balanced gone id r f c keep h backing reason mail b =
    settle gone id (λ x. answer r (f x)) c keep h
      (λ fair on.
        answer-IsFair fair on c.terminal r _ (ap (λ m. m ++ r ∷ []) mail) refl backing reason)
      b

deliver_to-Balanced :
    (gone : List ℕ) (p : Phase) (k : Call) (r : Response) (c : Client)
    → pending k.id c ≡ some k
    → Balanced gone c
    → Balanced gone (deliver_to p k r c).1
unfolding deliver_to
deliver_to-Balanced gone pre_write k r c h b =
    answer-Balanced gone k.id (broken unknown_response_id)
      (λ k. record k { phase = phase_rejected }) c (λ x. refl) h tt (inl refl) refl b
deliver_to-Balanced gone in_direct_write k r c h b = hold_back-Balanced gone k.quarantined k r c h b
deliver_to-Balanced gone write_done k r c h b = elim (Bool-cases (k.bytes_written == 0)) [
  | inl e ↦ rw e (
      answer-Balanced gone k.id (broken unknown_response_id) (λ k. k) c (λ x. refl) h tt (inl refl)
        refl b)
  | inr e ↦
      rw e
        (answer-Balanced gone k.id (answered r) (λ k. k) c (λ x. refl) h (ground arith) tt refl b)
]
deliver_to-Balanced gone phase_rejected k r c h b = b

deliver_found-Balanced :
    (gone : List ℕ) (o : Option Call) (id : ℕ) (r : Response) (c : Client)
    → pending id c ≡ o
    → Balanced gone c
    → Balanced gone (deliver_found o r c).1
unfolding deliver_found
deliver_found-Balanced gone none id r c e b = b
deliver_found-Balanced gone (some k) id r c e b =
    let (found, listed) = pending-eq-some id c e in
    let named : k.id ≡ id = (==_iff k.id id).0 (find-holds (is_call id) c.calls found) in
    deliver_to-Balanced gone k.phase k r c (subst (λ z. pending z c ≡ some k) (sym named) e) b

deliver-Balanced :
    (gone : List ℕ) (key : Option ℕ) (r : Response) (c : Client)
    → Balanced gone c
    → Balanced gone (deliver_response key r c).1
unfolding deliver_response
deliver-Balanced gone none r c b = b
deliver-Balanced gone (some id) r c b = deliver_found-Balanced gone (pending id c) id r c refl b

release_held-Balanced :
    (gone : List ℕ) (held : Option Response) (id written : ℕ) (c : Client) {k : Call}
    → pending id c ≡ some k
    → Balanced gone c
    → Balanced gone (release_held held id written c).1
unfolding release_held
release_held-Balanced gone none id written c h b =
    settle gone id (written_out written) c (λ x. refl) h
      (λ fair on. quiet-IsFair fair on _ refl refl) b
release_held-Balanced gone (some r) id written c h b = elim (Bool-cases (written == 0)) [
  | inl e ↦ rw e (
      answer-Balanced gone id (broken unknown_response_id) (written_out written) c (λ x. refl) h tt
        (inl refl) refl b)
  | inr e ↦ rw e (
      answer-Balanced gone id (answered r) (written_out written) c (λ x. refl) h (ground arith) tt
        refl b)
]

outcome-Balanced :
    (gone : List ℕ) (o : Option Call) (id written : ℕ) (c : Client)
    → pending id c ≡ o
    → Balanced gone c
    → Balanced gone (outcome_found o id written c).1
unfolding outcome_found
outcome-Balanced gone none id written c e b = b
outcome-Balanced gone (some k) id written c e b =
    release_held-Balanced gone k.quarantined id written c e b

-- A reason given before the connection has ended stays one.
Reason-first : (e : RpcError) (r : CallResult) → Reason none r → Reason (some e) r
Reason-first e (answered r) h = tt
Reason-first e (broken x) (inl h) = inl h
Reason-first e (broken x) (inr h) = absurd (ground arith)

broken-IsFair :
    (gone : List ℕ) (id : ℕ) (e : RpcError) (k : Call) (b : Bool)
    → k.listed ≡ b
    → IsFair gone none id k
    → IsFair gone (some e) id (if b then answer (broken e) k else k)
broken-IsFair gone id e k true on fair =
    answer-IsFair fair on (some e) (broken e) (answer (broken e) k) refl refl tt (inr refl)
broken-IsFair gone id e k false off fair = record {
  balanced = fair.balanced;
  backed = fair.backed;
  reasons = All-map (Reason none) (Reason (some e)) k.mailbox (Reason-first e) fair.reasons;
  over = off;
}

fail_all-Balanced :
    (gone : List ℕ) (o : Option RpcError) (e : RpcError) (c : Client)
    → c.terminal ≡ o
    → Balanced gone c
    → Balanced gone (fail_first o e c)
unfolding fail_first
fail_all-Balanced gone (some first) e c over b = b
fail_all-Balanced gone none e c going b = λ id.
    rw
      (find-update_where (is_call id) (λ (k : Call). k.listed) (answer (broken e)) c.calls
        (λ x. refl))
      (elim (Option-cases (find (is_call id) c.calls)) [
        | inl miss ↦ rw miss (rw miss at (b id))
        | inr (k, found) ↦
            let before : IsFair gone c.terminal id k = rw found at (b id) in
            rw found (
              broken-IsFair gone id e k k.listed refl
                (subst (λ t. IsFair gone t id k) going before))
      ])

-- Any step of any goroutine, on any call, keeps the calls balanced.
pub step-Balanced :
    (o : Op) (gone : List ℕ) (c : Client)
    → Balanced gone c
    → Balanced (step o (gone, c)).0 (step o (gone, c)).1
unfolding step register_pending remove_pending begin_pending_write record_write_outcome fail_all
step-Balanced register gone c b = register-Balanced gone c.terminal c refl b
step-Balanced (withdraw id) gone c b = withdraw-Balanced gone (pending id c) id c refl b
step-Balanced (begin id) gone c b = begin-Balanced gone (pending id c) id c refl b
step-Balanced (deliver key r) gone c b = deliver-Balanced gone key r c b
step-Balanced (outcome id written) gone c b =
    outcome-Balanced gone (pending id c) id written c refl b
step-Balanced (fail e) gone c b = fail_all-Balanced gone c.terminal e c refl b

pub run-Balanced :
    (os : List Op) (s : List ℕ × Client) → Balanced s.0 s.1 → Balanced (run os s).0 (run os s).1
unfolding run
run-Balanced [] s b = b
run-Balanced (o ∷ os) s b = run-Balanced os (step o s) (step-Balanced o s.0 s.1 b)

pub new-Balanced : Balanced [] new_client
new-Balanced id = refl
