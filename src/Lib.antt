-- ===== src/Lib.antt =====
-- agent_room: a room in which the members of a team share one coding agent. A daemon keeps the
-- room's database; members connect, send prompts, notes and controls, and read the event log. This
-- library models the parts that decide what is stored and in which order, from the Go sources
-- under internal/.
--
-- Prelude            the names that every module uses: numbers, lists, texts (Go's `strings`)
-- Result             the sentinel errors of the packages, and fallible results
-- Room.Types         internal/room/types.go: states, inputs, validation
-- Room.Projection    internal/room/projection.go: the live items and their budget; Room.Budget has
--                    the proofs
-- Room.Live          the same file: the live items in order, and their removal
-- Room.Coordinator   internal/room/coordinator.go: the state of the room's writer, and its handlers
--                    (Dispatch: handleSubmit, dispatchNext; Control: handleControl, finishControl;
--                    Turns, Items: the cases of handleAgentEvent; Inputs: the loop of Run); Order and
--                    Announced have the proofs
-- Store.Tables       internal/store/schema: the tables as lists of rows, the database as a record
-- Store.Rows         internal/store/repository.go: queries and updates inside a transaction
-- Store.Checks       the validation of outcomes, error codes and digests
-- Store.Tasks        internal/store/tasks.go: the state of a task and the runs added to it
-- Store.Accept       AcceptMessage, AppendNote, AcceptControl and `accept`
-- Store.Lifecycle    BeginDispatch, FinishControl, FailDispatch, BindRunningTurn, FinishTurn,
--                    MarkNeedsReview
-- Store.Rooms        InitializeRoom, FindMember, SetRoomStatus, MarkThreadNeedsRepair, BindThread
-- Store.Items        RecordCompletedItem; Once and Later have the proofs
-- Store.Connections  Connected, Ack, Disconnected, CloseStale
-- Store.Queries      LatestSeq, Events
-- Store.Recovery, Store.Resolve
--                    internal/store/recovery.go: ResolveReview and what it calls
-- Store.Commands     the commands above as data, run one after the other in transactions
-- Store.Moves        the diagram of a message's states, as a relation
-- Store.Wellformed, Store.Invariant
--                    the invariant of the database and its preservation, command by command
-- Store.History      what holds after any list of commands
-- Store.Replies, Store.Told
--                    what the commands answer, and that the event of an answer is stored
-- Workgroup.Config, Workgroup.Plan
--                    internal/workgroup/config.go, plan.go: the agents' configuration, and the order
--                    of an explicit plan; Workgroup.Order, Complete, Promise and Members have the
--                    proofs
-- Workgroup.Execute  internal/workgroup/runtime.go: execute, the run of a plan step by step; its
--                    children Prior, Ending and Receipts have the proofs
-- Codex.Rpc          internal/codex/jsonrpc.go: the calls in flight of the agent's connection, as
--                    steps of its goroutines in any order; Balance and Answers have the proofs, and
--                    Requests the requests of the server
-- Codex.Lines        the same file: readJSONLLine and writeJSONL; Reading and Writing have the proofs
-- Codex.Supervisor   internal/codex/supervisor.go: ReapPrevious, Start, Stop; Cleanup has the proofs
-- Codex.Restart      internal/codex/runtime.go: the loop of run, phase by phase; Alone has the proofs
-- Codex.Ring         internal/codex/supervisor.go: boundedRing
-- Protocol           internal/protocol/envelope.go, framing.go: envelopes and their frames;
--                    Protocol.RoundTrip has the proofs
-- Daemon.Hub         internal/daemon/hub.go: the bounded queues; Daemon.Queue and Daemon.Delivery
--                    have the proofs
-- Daemon.Roster      the same file: Members; Sorted has the proofs
-- Daemon.Replay      internal/daemon/replay.go: the replay of the log; Daemon.Catchup and
--                    Daemon.Live have the proofs
--
-- A transaction is a function from a database to a result with a database; `transact` drops the
-- changes of one that fails, as a rollback does. Times are arguments (`nowUTC`), in nanoseconds.
-- The JSON and UTF-8 libraries under a frame are the parameter `Codec`, and a destination's answers
-- to writes a list. The strict checks of internal/protocol/validation.go on the text of an envelope
-- (repeated keys, keys in another case, unknown keys, a second value) are calls of the JSON decoder
-- and not modelled: the codec's `parse` stands for them together with the decoder. SHA-256 over a command's canonical JSON is the parameter `hash`; no law of it is
-- assumed.
-- The coordinator holds the database behind its repository, and each call of the repository is a
-- command of Store at a time of its own (`clock`). The agent is the record `Agent`, which answers each
-- call in view of all the calls before it; no law of it is assumed. What a step of a plan meets (the
-- runs' database, the context, the provider) is a record of answers, and so is what the start of the
-- process meets.
-- A recursion follows a list everywhere in the store, so no fuel is needed. The loop over the steps
-- of a plan runs once for each step, and the loop of a replay sends one event at least in each turn,
-- so that as many turns as numbers are missing are enough.
--
-- Not modelled: failures of the driver and cancelled contexts, the JSON of the payloads (they are
-- data types), the migrations, the command line, the windows and pages, and the clients of other
-- services, which are input and output or calls of other programs. The coordinator's recovery and its
-- private questions are not modelled either: its commands to resolve, to recover and to answer a
-- question, and the agent's report that it is ready again, are no inputs of Room.Coordinator. Of a
-- replay, the welcome, the snapshots and the timeout are left out, and a hub's closing of a
-- subscription is a function that says whether it is closed.
pub mod Prelude
pub mod Result
pub mod Codex
pub mod Daemon
pub mod Protocol
pub mod Room
pub mod Store
pub mod Workgroup
