-- ===== src/Codex/Lines/Writing.antt =====
-- internal/codex/jsonrpc.go: what is known of a line that was written.
use agent_room.Prelude.{
  ℕ, ◌+◌, ◌-◌, ◌≤◌, ◌<◌, ◌≡◌, ◌≢◌, inl, inr, List, [], ◌∷◌, Option, none, some, ◌==◌, ltb, length,
  arith, Bool-cases,
}
use agent_room.Prelude.Int.{pos, negsuc}
use agent_room.Codex.Lines.{
  broken, Round, stopped, wrote, Written, ended, unfinished, after_round, write_loop, first_round,
  write_jsonl, max_line,
}

-- The count is within the line, and a write with no error has written it whole.
abbrev pub IsCounted : ℕ → Written → Type 0
IsCounted size (ended n none) = n ≡ size
IsCounted size (ended n (some e)) = n ≤ size
IsCounted size unfinished = Unit

after_round-IsCounted :
    (size total n : ℕ) (e : Option ℕ) (again : ℕ → Written)
    → total + n ≤ size
    → IsCounted size (again (total + n))
    → IsCounted size (after_round total n e again)
unfolding after_round
after_round-IsCounted size total n (some e) again fits h = fits
after_round-IsCounted size total n none again fits h = elim (Bool-cases (n == 0)) [
  | inl e ↦ rw e fits
  | inr e ↦ rw e h
]

write_loop-IsCounted :
    (size : ℕ) (rs : List Round) (total : ℕ)
    → total ≤ size
    → IsCounted size (write_loop size rs total)
unfolding write_loop
write_loop-IsCounted size [] total h = elim (Bool-cases (ltb total size)) [
  | inl e ↦ rw e tt
  | inr e ↦ rw e (ground arith)
]
write_loop-IsCounted size (stopped e ∷ rs) total h = elim (Bool-cases (ltb total size)) [
  | inl more ↦ rw more h
  | inr done ↦ rw done (ground arith)
]
write_loop-IsCounted size (wrote (negsuc n) e ∷ rs) total h = elim (Bool-cases (ltb total size)) [
  | inl more ↦ rw more h
  | inr done ↦ rw done (ground arith)
]
write_loop-IsCounted size (wrote (pos n) e ∷ rs) total h = elim (Bool-cases (ltb total size)) [
  | inr done ↦ rw done (ground arith)
  | inl more ↦ rw more (elim (Bool-cases (ltb (size - total) n)) [
    | inl over ↦ rw over (omega arith)
    | inr fits ↦
        let room : total + n ≤ size = ground arith in
        rw fits (
          after_round-IsCounted size total n e (write_loop size rs) room
            (write_loop-IsCounted size rs (total + n) room))
  ])
]

first_round-IsCounted :
    (begun : Option ℕ) (size : ℕ) (rs : List Round) → IsCounted size (first_round begun size rs)
unfolding first_round
first_round-IsCounted none size rs = write_loop-IsCounted size rs 0 (omega arith)
first_round-IsCounted (some e) size [] = write_loop-IsCounted size [] 0 (omega arith)
first_round-IsCounted (some e) size (stopped x ∷ rs) =
    write_loop-IsCounted size (stopped x ∷ rs) 0 (omega arith)
first_round-IsCounted (some e) size (wrote n w ∷ rs) = omega arith

-- Whatever the writer answers, the count that a write reports is within the line, its newline
-- included, and a write that reports no error has written the line whole.
pub write_jsonl-IsCounted :
    (gate begun : Option ℕ) (payload : List ℕ) (rs : List Round)
    → IsCounted (length payload + 1) (write_jsonl gate begun payload rs)
unfolding write_jsonl
write_jsonl-IsCounted gate begun payload rs = elim (Bool-cases (ltb max_line (length payload))) [
  | inl e ↦ rw e (omega arith)
  | inr e ↦ rw e (by_gate gate)
]
  where
    by_gate :
        (g : Option ℕ)
        → IsCounted (length payload + 1) (elim g as (λ x. Written) [
          | some e ↦ ended 0 (some (broken e))
          | none ↦ first_round begun (length payload + 1) rs
        ])
    by_gate none = first_round-IsCounted begun (length payload + 1) rs
    by_gate (some e) = omega arith

after_round-total :
    (total n : ℕ) (e : Option ℕ) (again : ℕ → Written)
    → (0 < n → again (total + n) ≢ unfinished)
    → after_round total n e again ≢ unfinished
unfolding after_round
after_round-total total n (some e) again h = λ k. cc
after_round-total total n none again h = elim (Bool-cases (n == 0)) [
  | inl e ↦ rw e (λ k. cc)
  | inr e ↦ rw e (h (ground arith))
]

write_loop_total :
    (size : ℕ) (rs : List Round) (total : ℕ)
    → size ≤ total + length rs
    → write_loop size rs total ≢ unfinished
unfolding write_loop
write_loop_total size [] total h = ground arith
write_loop_total size (stopped e ∷ rs) total h = ground arith
write_loop_total size (wrote (negsuc n) e ∷ rs) total h = ground arith
write_loop_total size (wrote (pos n) e ∷ rs) total h = elim (Bool-cases (ltb total size)) [
  | inr done ↦ rw done (λ k. cc)
  | inl more ↦ rw more (elim (Bool-cases (ltb (size - total) n)) [
    | inl over ↦ rw over (λ k. cc)
    | inr fits ↦ rw fits (
        after_round-total total n e (write_loop size rs)
          (λ p. write_loop_total size rs (total + n) (omega arith)))
  ])
]

-- The loop ends: as many answers of the writer as the line has bytes, its newline included, are
-- enough for any payload, and whatever they are.
pub write_jsonl_total :
    (gate begun : Option ℕ) (payload : List ℕ) (rs : List Round)
    → length payload + 1 ≤ length rs
    → write_jsonl gate begun payload rs ≢ unfinished
unfolding write_jsonl first_round
write_jsonl_total gate begun payload rs h = elim (Bool-cases (ltb max_line (length payload))) [
  | inl e ↦ rw e (λ k. cc)
  | inr e ↦ rw e (by_gate gate begun rs h)
]
  where
    by_gate :
        (g b : Option ℕ) (rs : List Round)
        → length payload + 1 ≤ length rs
        → (elim g as (λ x. Written) [
          | some e ↦ ended 0 (some (broken e))
          | none ↦ first_round b (length payload + 1) rs
        ])
          ≢ unfinished
    by_gate (some e) b rs h = λ k. cc
    by_gate none none rs h = write_loop_total (length payload + 1) rs 0 (omega arith)
    by_gate none (some e) [] h = absurd (omega arith)
    by_gate none (some e) (stopped x ∷ rs) h =
        write_loop_total (length payload + 1) (stopped x ∷ rs) 0 (omega arith)
    by_gate none (some e) (wrote n w ∷ rs) h = λ k. cc
