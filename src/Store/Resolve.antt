-- ===== src/Store/Resolve.antt =====
-- internal/store/recovery.go: `ResolveReview`, the transaction that takes a decision once.
use agent_room.Prelude.{
  ℕ, ◌+◌, Bool, true, false, not, ◌&&◌, ◌||◌, [], ◌∷◌, ◌++◌, Option, none, some, String, str_eq,
  ◌==◌, if◌then◌else◌, any, find,
}
use agent_room.Prelude.Int.{pos}
use agent_room.Result.{
  Result, ok, err, ◌>>=◌, ◌>>◌, guard, idempotency_conflict, invalid_input, message_not_found,
  stale_recovery,
}
use agent_room.Room.Types.{
  queued, completed, failed, needs_review, Actor, same_state, RecoveryAction, retry, skip, continue,
  RecoverInput, validate_recover,
}
use agent_room.Store.Tables.{
  note, recover, recovery_prompt, same_kind, plain, recovery, text_body, recovery_body, Canonical,
  accepted, recovery_accepted, recovery_retried, recovery_closed, MessageRow, EventRow, Database,
  is_client_message,
}
use agent_room.Store.Rows.{
  validate_room_id, require_actor, load_stored_message, allocate_seq, insert_event_at, append_event,
  contains,
}
use agent_room.Store.Accept.{Offer, insert_message, insert_binding}
use agent_room.Store.Lifecycle.{prompts}
use agent_room.Store.Recovery.{
  RetryCommand, RecoveryResult, reset_reviewed_prompt, reset_reviewed_control, terminalize_reviewed,
  retry_command, recovery_retry_state, is_link, inherit_task, linked_events, load_recovery_events,
}

module _ (hash : Canonical → String) where
  abbrev pub recovery_offer : Actor → RecoverInput → Offer
  recovery_offer actor input = record {
    actor = actor;
    client_message_id = input.client_message_id;
    kind = recover;
    body =
        recovery input.target_message_id input.action input.replacement_message_id
          input.instruction;
    payload_hash = hash (record {
      kind = recover;
      actor_uid = actor.uid;
      body =
          recovery_body input.target_message_id input.action input.replacement_message_id
            input.instruction;
    });
    initial = completed;
    binding = false;
    event_kind = "recovery/accepted";
    task_id = 0;
  }

  abbrev pub replacement_offer : Actor → String → String → Offer
  replacement_offer actor cid instruction = record {
    actor = actor;
    client_message_id = cid;
    kind = recovery_prompt;
    body = plain instruction;
    payload_hash = hash (record {
      kind = recovery_prompt;
      actor_uid = actor.uid;
      body = text_body instruction (pos 0);
    });
    initial = queued;
    binding = true;
    event_kind = "message/accepted";
    task_id = 0;
  }

  -- The prompt that replaces a message whose review is closed. Its client id is not taken, as it was
  -- looked up and differs from the decision's, so that the key of messages cannot refuse the row.
  unfoldable pub insert_recovery_prompt :
      String → Actor → String → String → ℕ → ℕ → Database → Result (EventRow × Database)
  insert_recovery_prompt rid actor cid instruction source now db = do
    (seq, db1) ← allocate_seq rid db
    let o = replacement_offer actor cid instruction
    let mid = db1.last_message_id + 1
    let db2 = insert_binding true rid o mid (insert_message rid o seq now db1)
    db3 ← inherit_task rid actor (find (is_link rid source) db2.task_messages) mid now db2
    insert_event_at rid seq actor.uid "message/accepted"
        (accepted cid mid recovery_prompt (plain instruction) queued) now db3

  -- The rows of a retry: a prompt is queued again, a control is to be sent again.
  unfoldable pub reset_target :
      String → String → MessageRow → Database → Result (Option RetryCommand × Database)
  reset_target rid target_id target db = elim (contains prompts target.kind) [
    | true ↦ do db' ← reset_reviewed_prompt rid target.id db; ok (none, db')
    | false ↦ do
      db' ← reset_reviewed_control rid target.id db
      command ← retry_command rid target_id target db'
      ok (some command, db')
  ]

  unfoldable pub retry_target :
      String → Actor → RecoverInput → MessageRow → ℕ → Database → Result (RecoveryResult × Database)
  unfolding reset_target
  retry_target rid actor input target now db = do
    (command, db1) ← reset_target rid input.target_message_id target db
    (event, db2) ←
        append_event rid actor.uid "recovery/retried"
          (recovery_retried input.target_message_id (recovery_retry_state target.kind)) now db1
    ok (record { duplicate = false; events = event ∷ []; retry = command }, db2)

  unfoldable pub close_target :
      String
      → Actor
      → RecoverInput
      → MessageRow
      → String
      → String
      → ℕ
      → Database
      → Result (EventRow × Database)
  close_target rid actor input target code kind now db = do
    db1 ← terminalize_reviewed rid target.id code now db
    append_event rid actor.uid kind (recovery_closed input.target_message_id failed code) now db1

  -- The `switch` on the action; the events are those that follow the acceptance.
  unfoldable pub act :
      RecoveryAction
      → String
      → Actor
      → RecoverInput
      → MessageRow
      → ℕ
      → Database
      → Result (RecoveryResult × Database)
  unfolding retry_target close_target insert_recovery_prompt
  act retry rid actor input target now db = retry_target rid actor input target now db
  act skip rid actor input target now db = do
    (event, db1) ← close_target rid actor input target "recovery-skipped" "recovery/skipped" now db
    ok (record { duplicate = false; events = event ∷ []; retry = none }, db1)
  act continue rid actor input target now db = do
    (event, db1) ←
        close_target rid actor input target "recovery-continued" "recovery/continued" now db
    (replacement, db2) ←
        insert_recovery_prompt rid actor input.replacement_message_id input.instruction target.id
          now db1
    ok (record { duplicate = false; events = event ∷ replacement ∷ []; retry = none }, db2)
  act (RecoveryAction.other _) rid actor input target now db = err invalid_input

  abbrev pub reviewed : Option MessageRow → Result MessageRow
  reviewed none = err message_not_found
  reviewed (some m) =
      if not (same_state m.state needs_review) || same_kind m.kind note || same_kind m.kind recover
      then err stale_recovery
      else ok m

  abbrev pub is_continue : RecoveryAction → Bool
  is_continue continue = true
  is_continue _ = false

  -- A decision seen for the first time.
  unfoldable pub resolve_new :
      String → Actor → RecoverInput → ℕ → Database → Result (RecoveryResult × Database)
  unfolding act
  resolve_new rid actor input now db = do
    require_actor rid actor db
    target ← reviewed (load_stored_message rid input.target_message_id db)
    guard
        (not (
          is_continue input.action
          && any (is_client_message rid input.replacement_message_id) db.messages))
        idempotency_conflict
    (seq, db1) ← allocate_seq rid db
    let mid = db1.last_message_id + 1
    (first, db2) ←
        insert_event_at rid seq actor.uid "recovery/accepted"
          (recovery_accepted input.client_message_id input.target_message_id input.action) now
          (insert_message rid (recovery_offer actor input) seq now db1)
    (result, db3) ← act input.action rid actor input target now db2
    let all_events = first ∷ result.events
    ok (
      record result { events = all_events },
      record db3 {
        recoveries =
            db3.recoveries
            ++ record {
              recovery_message_id = mid;
              room_id = rid;
              target_message_id = target.id;
              action = input.action;
            }
              ∷ [];
        recovery_events = db3.recovery_events ++ linked_events rid mid 0 all_events;
      },
    )

  -- The stored message is this decision.
  abbrev pub repeats_recovery : Actor → RecoverInput → MessageRow → Bool
  repeats_recovery actor input m =
      same_kind m.kind recover
      && m.actor_uid == actor.uid
      && str_eq m.payload_hash (recovery_offer actor input).payload_hash

  -- A decision taken before: the same one is answered with its events.
  unfoldable pub resolve_again :
      String → Actor → RecoverInput → MessageRow → Database → Result (RecoveryResult × Database)
  resolve_again rid actor input m db = do
    guard (repeats_recovery actor input m) idempotency_conflict
    events ← load_recovery_events rid m.id db
    ok (record { duplicate = true; events = events; retry = none }, db)

  unfoldable pub resolve_review :
      String → Actor → RecoverInput → ℕ → Database → Result (RecoveryResult × Database)
  unfolding resolve_new resolve_again load_stored_message
  resolve_review rid actor input now db = do
    validate_recover input
    validate_room_id rid
    elim (load_stored_message rid input.client_message_id db) [
      | some m ↦ resolve_again rid actor input m db
      | none ↦ resolve_new rid actor input now db
    ]
