-- ===== src/Store/Commands.antt =====
-- internal/room/ports.go, internal/store/repository.go: the commands that change the database, as
-- data. Each runs in a transaction of its own; a history is a list of commands at their times.
use agent_room.Prelude.{ℕ, List, [], ◌∷◌, String}
use agent_room.Result.{Result}
use agent_room.Room.Types.{
  RequestState, RoomStatus, Actor, SubmitInput, ControlInput, RecoverInput, CompletedItem,
}
use agent_room.Store.Tables.{Canonical, ConnectionRow, Database}
use agent_room.Store.Rows.{transact}
use agent_room.Store.Accept.{accept_message, append_note, accept_control}
use agent_room.Store.Lifecycle.{
  begin_dispatch, finish_control, fail_dispatch, bind_running_turn, finish_turn, mark_needs_review,
}
use agent_room.Store.Rooms.{
  RoomSeed, ThreadSnapshot, initialize_room, set_room_status, mark_thread_needs_repair, bind_thread,
}
use agent_room.Store.Items.{Json, record_completed_item}
use agent_room.Store.Connections.{connected, ack, disconnected, close_stale}
use agent_room.Store.Resolve.{resolve_review}

pub data Command : Type 0 where
  initialize : RoomSeed → Command
  submit : String → Actor → SubmitInput → Command
  remark : String → Actor → SubmitInput → Command
  direct : String → Actor → ControlInput → Command
  dispatch : (room client_message : String) → Command
  end_control : (room client_message : String) → RequestState → (code digest : String) → Command
  fail : (room client_message : String) → RequestState → (code digest : String) → Command
  bind_turn : (room client_message turn : String) → Command
  end_turn : (room turn : String) → RequestState → (code digest : String) → Command
  send_to_review : (room client_message code digest : String) → Command
  resolve : String → Actor → RecoverInput → Command
  set_status : String → RoomStatus → Command
  flag_thread : (room code digest : String) → Command
  attach_thread : String → ThreadSnapshot → Command
  record_item : Json → (room : String) → CompletedItem → Command
  open_connection : ConnectionRow → Command
  acknowledge : String → ℕ → Command
  end_connection : String → Command
  end_stale_connections : String → Command

-- What a transaction leaves in the database.
abbrev pub commit {ℓ} : {A : Type ℓ} → Result (A × Database) → Database → Database
commit r db = (transact r db).1

module _ (hash : Canonical → String) where
  unfoldable pub exec : Command → ℕ → Database → Database
  exec (initialize seed) now db = commit (initialize_room seed now db) db
  exec (submit rid actor input) now db = commit (accept_message hash rid actor input now db) db
  exec (remark rid actor input) now db = commit (append_note hash rid actor input now db) db
  exec (direct rid actor input) now db = commit (accept_control hash rid actor input now db) db
  exec (dispatch rid cid) now db = commit (begin_dispatch rid cid db) db
  exec (end_control rid cid s code digest) now db =
      commit (finish_control rid cid s code digest now db) db
  exec (fail rid cid s code digest) now db = commit (fail_dispatch rid cid s code digest now db) db
  exec (bind_turn rid cid turn) now db = commit (bind_running_turn rid cid turn now db) db
  exec (end_turn rid turn s code digest) now db =
      commit (finish_turn rid turn s code digest now db) db
  exec (send_to_review rid cid code digest) now db =
      commit (mark_needs_review rid cid code digest now db) db
  exec (resolve rid actor input) now db = commit (resolve_review hash rid actor input now db) db
  exec (set_status rid status) now db = commit (set_room_status rid status now db) db
  exec (flag_thread rid code digest) now db =
      commit (mark_thread_needs_repair rid code digest now db) db
  exec (attach_thread rid snapshot) now db = commit (bind_thread rid snapshot now db) db
  exec (record_item json rid item) now db = commit (record_completed_item json rid item now db) db
  exec (open_connection c) now db = commit (connected c db) db
  exec (acknowledge id seq) now db = commit (ack id seq db) db
  exec (end_connection id) now db = commit (disconnected id now db) db
  exec (end_stale_connections rid) now db = commit (close_stale rid now db) db

  -- A history: each command with the time at which it runs.
  unfoldable pub run : List (Command × ℕ) → Database → Database
  run [] db = db
  run ((c, now) ∷ cs) db = run cs (exec c now db)

-- A new database file, before the room is created.
abbrev pub empty_database : Database
empty_database = record {
  rooms = [];
  members = [];
  roles = [];
  messages = [];
  last_message_id = 0;
  bindings = [];
  events = [];
  connections = [];
  tasks = [];
  task_messages = [];
  task_changes = [];
  recoveries = [];
  recovery_events = [];
}
