-- ===== src/Store/History/Steps.antt =====
-- A command, whichever it is, keeps the database well formed; so does a history.
use agent_room.Prelude.{ℕ, List, [], ◌∷◌, String}
use agent_room.Result.{Result}
use agent_room.Store.Tables.{Canonical, Database}
use agent_room.Store.Commands.{
  Command, initialize, submit, remark, direct, dispatch, end_control, fail, bind_turn, end_turn,
  send_to_review, resolve, set_status, flag_thread, attach_thread, record_item, open_connection,
  acknowledge, end_connection, end_stale_connections, commit, exec, run,
}
use agent_room.Store.Invariant.{IsWellFormed, Follows, Follows-refl, Keeps, kept, refused}
use agent_room.Store.Invariant.Lifecycle.{
  begin_dispatch-Keeps, finish_control-Keeps, fail_dispatch-Keeps, bind_running_turn-Keeps,
  finish_turn-Keeps, mark_needs_review-Keeps,
}
use agent_room.Store.Invariant.Accept.{
  accept_message-Keeps, append_note-Keeps, accept_control-Keeps,
}
use agent_room.Store.Invariant.Rooms.{
  set_room_status-Keeps, mark_thread_needs_repair-Keeps, bind_thread-Keeps, initialize_room-Keeps,
}
use agent_room.Store.Items.Once.{record_completed_item-Keeps}
use agent_room.Store.Invariant.Connections.{
  connected-Keeps, ack-Keeps, disconnected-Keeps, close_stale-Keeps,
}
use agent_room.Store.Invariant.Resolve.{resolve_review-Keeps}

commit-Follows {ℓ} :
    {A : Type ℓ} {db : Database} {r : Result (A × Database)}
    → IsWellFormed db
    → Keeps db r
    → Follows db (commit r db)
commit-Follows w (kept a new fs) = fs
commit-Follows w (refused e) = Follows-refl w

module _ (hash : Canonical → String) where
  -- Every command, at any time, leaves a well-formed database well formed; it changes the first
  -- message of each key in its state alone, by one move of the diagram at most, and adds events at
  -- the end of the log alone.
  pub exec-Follows :
      (c : Command) (now : ℕ) (db : Database) → IsWellFormed db → Follows db (exec hash c now db)
  unfolding exec
  exec-Follows (initialize seed) now db w = commit-Follows w (initialize_room-Keeps seed now db w)
  exec-Follows (submit rid actor input) now db w =
      commit-Follows w (accept_message-Keeps hash rid actor input now db w)
  exec-Follows (remark rid actor input) now db w =
      commit-Follows w (append_note-Keeps hash rid actor input now db w)
  exec-Follows (direct rid actor input) now db w =
      commit-Follows w (accept_control-Keeps hash rid actor input now db w)
  exec-Follows (dispatch rid cid) now db w = commit-Follows w (begin_dispatch-Keeps rid cid db w)
  exec-Follows (end_control rid cid s code digest) now db w =
      commit-Follows w (finish_control-Keeps rid cid s code digest now db w)
  exec-Follows (fail rid cid s code digest) now db w =
      commit-Follows w (fail_dispatch-Keeps rid cid s code digest now db w)
  exec-Follows (bind_turn rid cid turn) now db w =
      commit-Follows w (bind_running_turn-Keeps rid cid turn now db w)
  exec-Follows (end_turn rid turn s code digest) now db w =
      commit-Follows w (finish_turn-Keeps rid turn s code digest now db w)
  exec-Follows (send_to_review rid cid code digest) now db w =
      commit-Follows w (mark_needs_review-Keeps rid cid code digest now db w)
  exec-Follows (resolve rid actor input) now db w =
      commit-Follows w (resolve_review-Keeps hash rid actor input now db w)
  exec-Follows (set_status rid status) now db w =
      commit-Follows w (set_room_status-Keeps rid status now db w)
  exec-Follows (flag_thread rid code digest) now db w =
      commit-Follows w (mark_thread_needs_repair-Keeps rid code digest now db w)
  exec-Follows (attach_thread rid snapshot) now db w =
      commit-Follows w (bind_thread-Keeps rid snapshot now db w)
  exec-Follows (record_item json rid item) now db w =
      commit-Follows w (record_completed_item-Keeps json rid item now db w)
  exec-Follows (open_connection c) now db w = commit-Follows w (connected-Keeps c db w)
  exec-Follows (acknowledge id seq) now db w = commit-Follows w (ack-Keeps id seq db w)
  exec-Follows (end_connection id) now db w = commit-Follows w (disconnected-Keeps id now db w)
  exec-Follows (end_stale_connections rid) now db w =
      commit-Follows w (close_stale-Keeps rid now db w)

  pub run-IsWellFormed :
      (cs : List (Command × ℕ)) (db : Database) → IsWellFormed db → IsWellFormed (run hash cs db)
  unfolding run
  run-IsWellFormed [] db w = w
  run-IsWellFormed ((c, now) ∷ cs) db w =
      run-IsWellFormed cs (exec hash c now db) (exec-Follows c now db w).well_formed
