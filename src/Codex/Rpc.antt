-- ===== src/Codex/Rpc.antt =====
-- internal/codex/jsonrpc.go: the calls in flight of the JSON-RPC client. Each function is what one
-- goroutine does while it holds `stateMu`, with the send on the call's channel (of one place) that
-- follows it: the goroutine that takes a call out of the map is the only one to send to it.
pub mod Requests
pub mod Balance
pub mod Answers
use agent_room.Prelude.{
  ℕ, ◌+◌, ◌-◌, ◌^◌, Bool, true, false, not, ◌&&◌, ◌||◌, List, [], ◌∷◌, ◌++◌, Option, none, some,
  String, ◌==◌, if◌then◌else◌, find, update_where, map,
}

-- The errors that a call can return; `failed` is another terminal error of the connection.
pub data RpcError : Type 0 where
  invalid_wire_message invalid_wire_id unknown_response_id duplicate_server_request_id : RpcError
  server_request_busy rpc_closed canceled : RpcError
  failed : String → RpcError

-- `pendingPhase`.
pub data Phase : Type 0 where
  pre_write in_direct_write write_done phase_rejected : Phase

-- The result or the error that the server answers, as JSON texts.
pub data Response : Type 0 where
  result : String → Response
  rpc_error : String → Response

-- `callResult`.
pub data CallResult : Type 0 where
  answered : Response → CallResult
  broken : RpcError → CallResult

-- `pendingCall`, kept for good. The map `pending` holds those that are listed, each under the key of
-- its id, and `mailbox` is what was sent on the channel.
pub record Call : Type 0 where
  pub id : ℕ
  pub listed : Bool
  pub phase : Phase
  pub bytes_written : ℕ
  pub quarantined : Option Response
  pub mailbox : List CallResult

pub record Client : Type 0 where
  pub next_id : ℕ
  pub calls : List Call
  pub terminal : Option RpcError

abbrev pub new_client : Client
new_client = record { next_id = 0; calls = []; terminal = none }

abbrev pub is_call : ℕ → Call → Bool
is_call id k = k.id == id

abbrev pub change : ℕ → (Call → Call) → Client → Client
change id f c = record c { calls = update_where (is_call id) f c.calls }

-- The call leaves the map, and its answer is sent.
abbrev pub answer : CallResult → Call → Call
answer r k = record k { listed = false; mailbox = k.mailbox ++ r ∷ [] }

-- What the map holds under the key of an id.
unfoldable pub pending : ℕ → Client → Option Call
pending id c = elim (find (is_call id) c.calls) [
  | none ↦ none
  | some k ↦ if k.listed then some k else none
]

abbrev pub max_id : ℕ
max_id = 2 ^ 63 - 1

abbrev pub new_call : ℕ → Call
new_call id = record {
  id = id;
  listed = true;
  phase = pre_write;
  bytes_written = 0;
  quarantined = none;
  mailbox = [];
}

-- Each function comes with what it does with the value that it reads first.
unfoldable pub register_in : Option RpcError → Client → Option ℕ × Option RpcError × Client
register_in (some e) c = (none, some e, c)
register_in none c =
    let id = c.next_id + 1 in
    if c.next_id == max_id
    then (none, some invalid_wire_id, c)
    else (some id, none, record c { next_id = id; calls = c.calls ++ new_call id ∷ [] })

unfoldable pub register_pending : Client → Option ℕ × Option RpcError × Client
unfolding register_in
register_pending c = register_in c.terminal c

unfoldable pub remove_found : Option Call → ℕ → Client → Bool × Client
remove_found none id c = (false, c)
remove_found (some k) id c = (true, change id (λ k. record k { listed = false }) c)

unfoldable pub remove_pending : ℕ → Client → Bool × Client
unfolding remove_found
remove_pending id c = remove_found (pending id c) id c

-- The caller's own record of the call, which it holds outside of the map.
unfoldable pub is_rejected : ℕ → Client → Bool
is_rejected id c = elim (find (is_call id) c.calls) [
  | none ↦ false
  | some k ↦ elim k.phase [ phase_rejected ↦ true | _ ↦ false ]
]

unfoldable pub begin_phase : Phase → ℕ → Client → Option RpcError × Client
begin_phase pre_write id c = (none, change id (λ k. record k { phase = in_direct_write }) c)
begin_phase _ id c = (some invalid_wire_message, c)

unfoldable pub begin_found : Option Call → ℕ → Client → Option RpcError × Client
unfolding is_rejected begin_phase
begin_found none id c = (
  if is_rejected id c
      then some unknown_response_id
      else elim c.terminal [ none ↦ some rpc_closed | some e ↦ some e ],
  c,
)
begin_found (some k) id c = begin_phase k.phase id c

unfoldable pub begin_pending_write : ℕ → Client → Option RpcError × Client
unfolding begin_found
begin_pending_write id c = begin_found (pending id c) id c

-- A response while the write goes on is held back: a second one is refused.
unfoldable pub hold_back : Option Response → Call → Response → Client → Option RpcError × Client
hold_back (some held) k r c = (some unknown_response_id, c)
hold_back none k r c = (none, change k.id (λ k. record k { quarantined = some r }) c)

-- The switch on the phase of the call that a response names.
unfoldable pub deliver_to : Phase → Call → Response → Client → Option RpcError × Client
unfolding hold_back
deliver_to pre_write k r c = (
  some unknown_response_id,
  change k.id (λ k. answer (broken unknown_response_id) (record k { phase = phase_rejected })) c,
)
deliver_to in_direct_write k r c = hold_back k.quarantined k r c
deliver_to write_done k r c =
    if k.bytes_written == 0
    then (some unknown_response_id, change k.id (answer (broken unknown_response_id)) c)
    else (none, change k.id (answer (answered r)) c)
deliver_to phase_rejected k r c = (some invalid_wire_message, c)

unfoldable pub deliver_found : Option Call → Response → Client → Option RpcError × Client
unfolding deliver_to
deliver_found none r c = (some unknown_response_id, c)
deliver_found (some k) r c = deliver_to k.phase k r c

-- A key of another form than the client's own ids is not in the map: it has no id.
unfoldable pub deliver_response : Option ℕ → Response → Client → Option RpcError × Client
unfolding deliver_found
deliver_response none r c = (some unknown_response_id, c)
deliver_response (some id) r c = deliver_found (pending id c) r c

abbrev pub written_out : ℕ → Call → Call
written_out written k = record k { phase = write_done; bytes_written = written; quarantined = none }

-- The end of the write: a response that was held back is let through, if a byte was written.
unfoldable pub release_held : Option Response → ℕ → ℕ → Client → Option RpcError × Client
release_held none id written c = (none, change id (written_out written) c)
release_held (some r) id written c =
    if written == 0
    then (
      some unknown_response_id,
      change id (λ k. answer (broken unknown_response_id) (written_out written k)) c,
    )
    else (none, change id (λ k. answer (answered r) (written_out written k)) c)

unfoldable pub outcome_found : Option Call → ℕ → ℕ → Client → Option RpcError × Client
unfolding release_held
outcome_found none id written c = (none, c)
outcome_found (some k) id written c = release_held k.quarantined id written c

unfoldable pub record_write_outcome : ℕ → ℕ → Client → Option RpcError × Client
unfolding outcome_found
record_write_outcome id written c = outcome_found (pending id c) id written c

-- The first error ends the connection: every call in the map is sent it, and the map is emptied.
unfoldable pub fail_first : Option RpcError → RpcError → Client → Client
fail_first (some first) e c = c
fail_first none e c = record c {
  terminal = some e;
  calls = update_where (λ k. k.listed) (answer (broken e)) c.calls;
}

unfoldable pub fail_all : RpcError → Client → Client
unfolding fail_first
fail_all e c = fail_first c.terminal e c

-- The steps of the goroutines, in the order in which they take the lock.
pub data Op : Type 0 where
  register : Op
  withdraw : ℕ → Op
  begin : ℕ → Op
  deliver : Option ℕ → Response → Op
  outcome : (id written : ℕ) → Op
  fail : RpcError → Op

-- What a step leaves, with the calls that were withdrawn by their callers.
unfoldable pub step : Op → List ℕ × Client → List ℕ × Client
unfolding register_pending remove_pending begin_pending_write deliver_response record_write_outcome
    fail_all
step register (gone, c) = (gone, (register_pending c).2)
step (withdraw id) (gone, c) =
    (if (remove_pending id c).0 then id ∷ gone else gone, (remove_pending id c).1)
step (begin id) (gone, c) = (gone, (begin_pending_write id c).1)
step (deliver key r) (gone, c) = (gone, (deliver_response key r c).1)
step (outcome id written) (gone, c) = (gone, (record_write_outcome id written c).1)
step (fail e) (gone, c) = (gone, fail_all e c)

unfoldable pub run : List Op → List ℕ × Client → List ℕ × Client
unfolding step
run [] s = s
run (o ∷ os) s = run os (step o s)
