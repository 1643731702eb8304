-- ===== src/Codex/Tests.antt =====
-- The theorems on internal/codex at concrete inputs.
use agent_room.Prelude.{
  ◌+◌, ◌<◌, ◌≡◌, ◌≢◌, refl, false, List, [], ◌∷◌, ◌++◌, none, some, length, map, find, arith,
}
use agent_room.Prelude.Int.{pos}
use agent_room.Codex.Rpc
use agent_room.Codex.Rpc.{
  Op, register, withdraw, begin, deliver, outcome, fail, result, Call, CallResult, write_done,
  answered, broken, rpc_closed, RpcError, run, new_client, remove_pending, is_call, pending,
  fail_all,
}
use agent_room.Codex.Rpc.Balance.{bit}
use agent_room.Codex.Rpc.Answers.{
  Known, withdrawals, run-answers, run-backed, fail_all-answers, remove_pending-answered, Explained,
  IsTold, first_error,
}
use agent_room.Codex.Lines
use agent_room.Codex.Lines.{
  Round, wrote, Written, unfinished, write_jsonl, Line, read_line, line, newline,
}
use agent_room.Codex.Lines.Writing.{IsCounted, write_jsonl-IsCounted, write_jsonl_total}
use agent_room.Codex.Lines.Reading.{part, last_part, whole, read_line-whole}

-- The response comes before the outcome of the write is recorded.
abbrev early : List Op
early = register ∷ begin 1 ∷ deliver (some 1) (result "done") ∷ outcome 1 40 ∷ []

abbrev answered_call : Call
answered_call = record {
  id = 1;
  listed = false;
  phase = write_done;
  bytes_written = 40;
  quarantined = none;
  mailbox = answered (result "done") ∷ [];
}

early-Known : Known early 1 answered_call
unfolding run pending
early-Known = refl

early_kept : withdrawals early 1 ≡ 0
unfolding run pending
early_kept = refl

run-answers_example :
    length answered_call.mailbox + bit answered_call.listed + withdrawals early 1 ≡ 1
run-answers_example = run-answers early 1 answered_call early-Known

run-backed_example : 0 < answered_call.bytes_written
run-backed_example = run-backed early 1 answered_call (result "done") early-Known refl

early_gone : (remove_pending 1 (run early ([], new_client)).1).0 ≡ false
unfolding run remove_pending pending
early_gone = refl

remove_pending-answered_example : (r : CallResult) × (answered_call.mailbox ≡ r ∷ [])
remove_pending-answered_example =
    remove_pending-answered early 1 answered_call early-Known early_kept early_gone

-- The connection ends while a call is being written.
abbrev cut_off : List Op
cut_off = register ∷ begin 1 ∷ []

abbrev broken_call : Call
broken_call = record answered_call {
  phase = Rpc.in_direct_write;
  bytes_written = 0;
  mailbox = broken rpc_closed ∷ [];
}

cut_off-found :
    find (is_call 1) (fail_all rpc_closed (run cut_off ([], new_client)).1).calls ≡ some broken_call
unfolding run pending fail_all
cut_off-found = refl

cut_off_kept : withdrawals cut_off 1 ≡ 0
unfolding run pending
cut_off_kept = refl

fail_all-answers_example :
    ((r : CallResult) × (broken_call.mailbox ≡ r ∷ [])
      × Explained (first_error (run cut_off ([], new_client)).1.terminal rpc_closed) r)
    × IsTold rpc_closed (pending 1 (run cut_off ([], new_client)).1) broken_call
fail_all-answers_example =
    fail_all-answers cut_off rpc_closed 1 broken_call cut_off-found cut_off_kept

-- A writer that takes a byte at a time.
abbrev slow : List Round
slow = wrote (pos 1) none ∷ wrote (pos 1) none ∷ wrote (pos 1) none ∷ []

write_jsonl-IsCounted_example : IsCounted 3 (write_jsonl none none (b'{' ∷ b'}' ∷ []) slow)
write_jsonl-IsCounted_example = write_jsonl-IsCounted none none (b'{' ∷ b'}' ∷ []) slow

write_jsonl_total_example : write_jsonl none none (b'{' ∷ b'}' ∷ []) slow ≢ unfinished
write_jsonl_total_example = write_jsonl_total none none (b'{' ∷ b'}' ∷ []) slow (omega arith)

read_line-whole_example :
    read_line
      (λ bytes. false)
      []
      (map part ((b'{' ∷ []) ∷ (b'"' ∷ b'a' ∷ []) ∷ []) ++ last_part (b'}' ∷ []) ∷ [])
    ≡ whole (λ bytes. false) (b'{' ∷ b'"' ∷ b'a' ∷ b'}' ∷ []) []
unfolding Lines.ends_line
read_line-whole_example =
    read_line-whole (λ bytes. false) ((b'{' ∷ []) ∷ (b'"' ∷ b'a' ∷ []) ∷ []) (b'}' ∷ []) []
      (refl, (refl, tt))
