-- ===== src/Codex/Supervisor.antt =====
-- internal/codex/supervisor.go: the life of the agent's process. The process manager, the store of
-- checkpoints and the process itself are other code: what they answer is a record of values, and what
-- is asked of them is written down in order.
pub mod Cleanup
mod Tests
use agent_room.Prelude.{
  ℕ, ◌≤◌, Bool, true, false, not, ◌&&◌, ◌||◌, List, [], ◌∷◌, ◌++◌, Option, none, some, String,
  str_eq, ◌==◌, if◌then◌else◌, leb, any, all,
}
use agent_room.Prelude.Text.{is_blank, trim_space}

-- `RuntimeCheckpoint`: the state is a text.
pub record Checkpoint : Type 0 where
  pub state : String
  pub generation : String
  pub pid : ℕ
  pub pgid : ℕ
  pub process_start : String
  pub codex_version : String
  pub schema_sha256 : String

abbrev pub state_running : String
state_running = "running"

abbrev pub state_stopped : String
state_stopped = "stopped"

pub data SupervisorError : Type 0 where
  invalid_process_checkpoint process_identity_unknown previous_process_running : SupervisorError
  process_identity_mismatch unsupported_codex_version process_version process_start :
      SupervisorError
  generation_unavailable invalid_child checkpoint_persistence process_cleanup : SupervisorError
  project_root_not_absolute canceled adapter_failed initialize_failed incompatible_user_agent :
      SupervisorError

-- `ProcessManager.Match`: an error, or what the process table says.
pub data Match : Type 0 where
  match_failed process_absent process_matches process_mismatch match_other : Match

-- `*checkpoint == (room.RuntimeCheckpoint{})`, where the state is known to be empty.
abbrev pub is_zero_checkpoint : Checkpoint → Bool
is_zero_checkpoint c =
    str_eq c.generation ""
    && c.pid == 0
    && c.pgid == 0
    && str_eq c.process_start ""
    && str_eq c.codex_version ""
    && str_eq c.schema_sha256 ""

abbrev pub reap_match : Match → Option SupervisorError
reap_match match_failed = some process_identity_unknown
reap_match process_absent = none
reap_match process_matches = some previous_process_running
reap_match process_mismatch = some process_identity_mismatch
reap_match match_other = some process_identity_unknown

-- The ids cannot be those of a process that runs.
abbrev pub is_no_process : Checkpoint → Bool
is_no_process c =
    not (str_eq c.state state_running)
    || leb c.pid 1
    || leb c.pgid 1
    || is_blank c.generation
    || is_blank c.process_start

-- `ReapPrevious`: each error asks the owner for a repair. The match is asked for the identity that the
-- checkpoint holds.
unfoldable pub reap_previous : (Checkpoint → Match) → Option Checkpoint → Option SupervisorError
reap_previous match none = none
reap_previous match (some c) =
    if str_eq c.state ""
    then (if is_zero_checkpoint c then none else some invalid_process_checkpoint)
    else if str_eq c.state state_stopped
    then (if not (c.pid == 0) || not (c.pgid == 0) then some invalid_process_checkpoint else none)
    else if is_no_process c
    then some invalid_process_checkpoint
    else reap_match (match c)

abbrev pub stopped_checkpoint : Checkpoint → Checkpoint
stopped_checkpoint c = record c { state = state_stopped; pid = 0; pgid = 0 }

-- `validateChild`: the pipes and channels are there, and the identity is the generation's.
pub record Child : Type 0 where
  pub is_piped : Bool
  pub generation : String
  pub pid : ℕ
  pub pgid : ℕ
  pub start_identity : String

unfoldable pub valid_child : Option Child → String → Bool
valid_child none generation = false
valid_child (some c) generation = not (
    not c.is_piped
    || not (str_eq c.generation generation)
    || leb c.pid 1
    || leb c.pgid 1
    || is_blank c.start_identity)

-- What is asked of the process manager and of the store, in order.
pub data Effect : Type 0 where
  start_process stop_process close_pipes : Effect
  save : Checkpoint → Effect

-- The answers, in the order in which `Start` asks: `none` is no error.
pub record Answers : Type 0 where
  pub absolute : Bool
  pub cancelled : Bool
  pub version : Option String
  pub allowed : List String
  pub generation : Option String
  pub child : Option (Option Child)
  pub stopped : Bool
  pub saved_running : Bool
  pub adapted : Bool
  pub saved_stopped : Bool
  pub initialized : Bool
  pub user_agent : Bool
  pub schema : String

-- `ValidateCLI`.
unfoldable pub validate_cli : List String → String → Option String
validate_cli allowed output =
    if any (str_eq (trim_space output)) allowed then some (trim_space output) else none

abbrev pub running_checkpoint : String → String → String → Child → Checkpoint
running_checkpoint generation version schema c = record {
  state = state_running;
  generation = generation;
  pid = c.pid;
  pgid = c.pgid;
  process_start = c.start_identity;
  codex_version = version;
  schema_sha256 = schema;
}

-- The errors of `Start` (`errors.Join`), none where it gives a session, with what it has asked.
abbrev pub Started : Type 0
Started = List SupervisorError × List Effect

abbrev pub cleanup_error : Bool → List SupervisorError
cleanup_error stopped = if stopped then [] else process_cleanup ∷ []

-- `Stop` on a session that is stopped for the first time: the process is stopped, and then the
-- checkpoint says so, if the stop is proven.
unfoldable pub stop_session : Answers → Checkpoint → Started
stop_session a running =
    if not a.stopped then (process_cleanup ∷ [], close_pipes ∷ stop_process ∷ []) else (
      (if a.saved_stopped then [] else checkpoint_persistence ∷ []),
      close_pipes ∷ stop_process ∷ save (stopped_checkpoint running) ∷ [],
    )

-- The session is there: the agent is told about its client, and its answer is checked.
unfoldable pub initialize : Answers → Checkpoint → Started
unfolding stop_session
initialize a running =
    let e = if not a.initialized then initialize_failed ∷ [] else incompatible_user_agent ∷ [] in
    if a.initialized && a.user_agent
    then ([], [])
    else (e ++ (stop_session a running).0, (stop_session a running).1)

-- The adapter over the process's pipes.
unfoldable pub adapt : Answers → Checkpoint → Started
unfolding initialize
adapt a running =
    if a.adapted
    then initialize a running
    else if a.stopped
    then (
      adapter_failed ∷ (if a.saved_stopped then [] else checkpoint_persistence ∷ []),
      stop_process ∷ close_pipes ∷ save (stopped_checkpoint running) ∷ [],
    )
    else (adapter_failed ∷ process_cleanup ∷ [], stop_process ∷ close_pipes ∷ [])

-- The process runs, and this is stored before it is talked to.
unfoldable pub record_running : Answers → Checkpoint → Started
unfolding adapt
record_running a running =
    if a.saved_running then ((adapt a running).0, save running ∷ (adapt a running).1) else (
      checkpoint_persistence ∷ cleanup_error a.stopped,
      save running ∷ stop_process ∷ close_pipes ∷ [],
    )

-- The answer to the start of the process.
unfoldable pub check_child : Answers → String → String → Option Child → Started
unfolding record_running valid_child
check_child a version generation none = (invalid_child ∷ cleanup_error a.stopped, stop_process ∷ [])
check_child a version generation (some c) =
    if valid_child (some c) generation
    then record_running a (running_checkpoint generation version a.schema c)
    else (invalid_child ∷ cleanup_error a.stopped, stop_process ∷ [])

unfoldable pub start_child : Answers → String → String → Option (Option Child) → Started
unfolding check_child
start_child a version generation none = (process_start ∷ [], [])
start_child a version generation (some c) =
    let r = check_child a version generation c in (r.0, start_process ∷ r.1)

unfoldable pub start_generation : Answers → String → Option String → Started
unfolding start_child
start_generation a version none = (generation_unavailable ∷ [], [])
start_generation a version (some generation) = start_child a version generation a.child

unfoldable pub start_version : Answers → Option String → Started
unfolding start_generation
start_version a none = (unsupported_codex_version ∷ [], [])
start_version a (some version) = start_generation a version a.generation

unfoldable pub start_output : Answers → Option String → Started
unfolding start_version validate_cli
start_output a none = (process_version ∷ [], [])
start_output a (some output) = start_version a (validate_cli a.allowed output)

-- `Start`, with a sink for the checkpoints.
unfoldable pub start : Answers → Started
unfolding start_output
start a =
    if not a.absolute
    then (project_root_not_absolute ∷ [], [])
    else if a.cancelled
    then (canceled ∷ [], [])
    else start_output a a.version
