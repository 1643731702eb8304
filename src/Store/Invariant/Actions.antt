-- ===== src/Store/Invariant/Actions.antt =====
-- What a decision does to a reviewed message keeps the database well formed.
use mathlib.Core.Path.{subst}
use agent_room.Prelude.{
  ℕ, ◌+◌, ◌≡◌, refl, inr, Bool, true, false, none, some, String, ◌==◌, count, find,
}
use agent_room.Result.{ok, ◌>>=◌, after_guards, stale_recovery}
use agent_room.Room.Types.{
  RequestState, queued, dispatching, failed, needs_review, Actor, RecoveryAction, retry, skip,
  continue, RecoverInput,
}
use agent_room.Store.Tables.{
  Canonical, MessageRow, BindingRow, Database, recovery_prompt, plain, accepted, recovery_retried,
}
use agent_room.Store.Rows.{
  allocate_seq, insert_event_at, append_event, contains, hit_message, hit_binding,
}
use agent_room.Store.Accept.{insert_message, insert_binding}
use agent_room.Store.Lifecycle.{prompts}
use agent_room.Store.Recovery.{
  leave_review, reset_reviewed_prompt, reset_reviewed_control, terminalize_reviewed, retry_command,
  recovery_retry_state, is_link, inherit_task, requeued_binding, redispatched_binding,
  failed_binding,
}
use agent_room.Store.Resolve.{
  reset_target, retry_target, close_target, insert_recovery_prompt, act, replacement_offer,
}
use agent_room.Store.Moves.{MayBecome, requeue, resend, close}
use agent_room.Store.Invariant.{
  IsWellFormed, Follows, Keeps, kept, refused, after, moved-Follows, append_event-Follows,
  append_event-Keeps, through, finally,
}
use agent_room.Store.Invariant.Steps.{inherit_task-SameLog, inserted-Follows}

leave_review-Follows :
    (rid : String) (mid : ℕ) (to : RequestState) (change : BindingRow → BindingRow) (db : Database)
    {db' : Database}
    → ((b : BindingRow) → (change b).room_id ≡ b.room_id)
    → ((b : BindingRow) → (change b).message_id ≡ b.message_id)
    → ((b : BindingRow) → (change b).state ≡ to)
    → MayBecome needs_review to
    → IsWellFormed db
    → leave_review rid mid to change db ≡ ok db'
    → Follows db db'
unfolding leave_review
leave_review-Follows rid mid to change db in_rid of_mid sets move w h =
    subst (Follows db)
      (after_guards (count (hit_message rid mid needs_review) db.messages == 1)
        (count (hit_binding rid mid needs_review) db.bindings == 1) stale_recovery stale_recovery h)
      (moved-Follows rid mid needs_review to change db in_rid of_mid sets move w)

module _ (hash : Canonical → String) where
  reset_target-Keeps :
      (rid target_id : String) (target : MessageRow) (db : Database)
      → IsWellFormed db
      → Keeps db (reset_target hash rid target_id target db)
  unfolding reset_target reset_reviewed_prompt reset_reviewed_control
  reset_target-Keeps rid target_id target db w = choose (contains prompts target.kind)
    where
      choose :
          (b : Bool)
          → Keeps db (elim b [
            | true ↦ reset_reviewed_prompt rid target.id db >>= λ db'. ok (none, db')
            | false ↦ reset_reviewed_control rid target.id db >>= λ db'.
                retry_command rid target_id target db' >>= λ command. ok (some command, db')
          ])
      choose true = after (reset_reviewed_prompt rid target.id db) λ db' e. kept none db' (
          leave_review-Follows rid target.id queued requeued_binding db (λ b. refl) (λ b. refl)
            (λ b. refl) (inr requeue) w e)
      choose false = after (reset_reviewed_control rid target.id db) λ db' e.
          after (retry_command rid target_id target db') λ command _. kept (some command) db' (
            leave_review-Follows rid target.id dispatching redispatched_binding db (λ b. refl)
              (λ b. refl) (λ b. refl) (inr resend) w e)

  retry_target-Keeps :
      (rid : String) (actor : Actor) (input : RecoverInput) (target : MessageRow) (now : ℕ)
      (db : Database)
      → IsWellFormed db
      → Keeps db (retry_target hash rid actor input target now db)
  unfolding retry_target
  retry_target-Keeps rid actor input target now db w =
      through (reset_target-Keeps rid input.target_message_id target db w) λ command db1 fs.
        let paid = recovery_retried input.target_message_id (recovery_retry_state target.kind) in
        after (append_event rid actor.uid "recovery/retried" paid now db1) λ q i.
          kept _ q.1 (append_event-Follows rid actor.uid "recovery/retried" paid now db db1 fs i)

  close_target-Keeps :
      (rid : String) (actor : Actor) (input : RecoverInput) (target : MessageRow)
      (code kind : String) (now : ℕ) (db : Database)
      → IsWellFormed db
      → Keeps db (close_target hash rid actor input target code kind now db)
  unfolding close_target terminalize_reviewed
  close_target-Keeps rid actor input target code kind now db w =
      after (terminalize_reviewed rid target.id code now db) λ db1 e.
        append_event-Keeps rid actor.uid kind _ now db db1 (
          leave_review-Follows rid target.id failed (failed_binding code now) db (λ b. refl)
            (λ b. refl) (λ b. refl) (inr close) w e)

  insert_recovery_prompt-Keeps :
      (rid : String) (actor : Actor) (cid instruction : String) (source now : ℕ) (old db : Database)
      → Follows old db
      → Keeps old (insert_recovery_prompt hash rid actor cid instruction source now db)
  unfolding insert_recovery_prompt
  insert_recovery_prompt-Keeps rid actor cid instruction source now old db fs =
      after (allocate_seq rid db) λ p a.
        let o = replacement_offer hash actor cid instruction in
        let mid = p.1.last_message_id + 1 in
        let db2 = insert_binding true rid o mid (insert_message rid o p.0 now p.1) in
        let paid = accepted cid mid recovery_prompt (plain instruction) queued in
        after (inherit_task rid actor (find (is_link rid source) db2.task_messages) mid now db2)
          λ db3 t.
            finally (insert_event_at rid p.0 actor.uid "message/accepted" paid now db3) λ e new i.
              inserted-Follows rid o true now p.0 db p.1 db3 new e "message/accepted" paid a
                (inherit_task-SameLog rid actor _ mid now db2 t) i fs

  pub act-Keeps :
      (action : RecoveryAction) (rid : String) (actor : Actor) (input : RecoverInput)
      (target : MessageRow) (now : ℕ) (db : Database)
      → IsWellFormed db
      → Keeps db (act hash action rid actor input target now db)
  unfolding act
  act-Keeps retry rid actor input target now db w =
      retry_target-Keeps rid actor input target now db w
  act-Keeps skip rid actor input target now db w =
      through
        (close_target-Keeps rid actor input target "recovery-skipped" "recovery/skipped" now db w)
        λ event db1 fs. kept _ db1 fs
  act-Keeps continue rid actor input target now db w =
      through
        (close_target-Keeps rid actor input target "recovery-continued" "recovery/continued" now db
          w)
        λ event db1 fs.
          through
            (insert_recovery_prompt-Keeps rid actor input.replacement_message_id input.instruction
              target.id now db db1 fs)
            λ replacement db2 fs'. kept _ db2 fs'
  act-Keeps (RecoveryAction.other _) rid actor input target now db w = refused _
