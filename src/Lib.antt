-- ===== src/Lib.antt =====
-- A model of the agent runtime: the daemon that keeps agents, their context pages, their messages and
-- their turn on the model, and the theorems about it.
--
-- How the parts work together: an agent (internal/avp) mounts context pages that the store
-- (internal/cvm) keeps once per content, compresses and evicts; agents exchange references to pages
-- over the blackboard (internal/ipc); the scheduler (internal/scheduler) picks the agent whose turn it
-- is, by what it consumed, by the pages it shares with the last one and by resource pressure, labelled
-- by an evidence mode (internal/evidence); what happens is announced as events to the subscribers of a
-- hub (internal/events). Workers report to the registry (internal/worker); a model call goes through
-- the router (internal/llm) to a provider or its fallback; tasks wait for each other in a graph
-- (internal/dag), and faults are logged (internal/supervisor). The calls of the agents themselves come
-- in through one gateway (internal/syscall), which checks them, passes them to the store, the
-- blackboard, the router, a command or a callback, and records them. The HTTP server and the commands
-- wire these parts.
--
-- Files:
--   Base        shared notation; lists, association lists for Go's maps, a stable sort, Go's integers
--   Events      internal/events/hub.go: Hub, New, Subscribe, Publish; clocks and payloads
--   Cvm         internal/cvm/store.go: Cvm.Page a page and its codec, Cvm.Store the calls on pages and
--               page tables, Cvm.Sweep CompressColdPages, EvictColdPages and Stats; the other files
--               of the folder hold the proofs
--   Avp         internal/avp: types.go and manager.go; Avp.States validTransition, Avp.Transitions
--               Transition
--   Evidence    internal/evidence/evidence.go
--   Floats      Go's float64 as a parameter, and what a proof needs of its order
--   Scheduler   internal/scheduler/scheduler.go: Scheduler.Resources the scores, Scheduler.Choice the
--               policies, Scheduler.Charges ChargeTokens; Best and Totality hold the proofs
--   Blackboard  internal/ipc/blackboard.go
--   Registry    internal/worker/registry.go: Registry.Entry the state, Registry.Sweep the loop of
--               MarkHeartbeatLost; Keys and Heartbeats hold the proofs
--   Router      internal/llm/router.go: Router.Fallback Complete, Router.Routes selectProvider,
--               Router.Mock the mock provider
--   Dag         internal/dag/dag.go
--   Supervisor  internal/supervisor/supervisor.go: Record; Supervisor.Calls the interleaved calls,
--               Supervisor.Log holds the proof
--   Gateway     internal/syscall/gateway.go: Gateway Handle and execute, Gateway.State the gateway and
--               the world around it, Gateway.Args the readers of arguments, Gateway.Paths confinedPath
--               and what it uses of path/filepath, Gateway.Context, Gateway.Ipc, Gateway.Agents and
--               Gateway.Tools the calls; Cases, Follows, Sound, Handlers, Settle, Prepares, Exec, Audit,
--               Confine, Poll and Workspaces hold the proofs
--   Replay      internal/replay/replay.go: ReplayEvents; Replay.Verdict holds the proof
--   Checkpoint  internal/checkpoint/checkpoint.go: Save up to the writing, LoadLatest, RecoverAll;
--               Checkpoint.Latest and Checkpoint.Recovery hold the proofs
--   Capsule     internal/capsule/manager.go: Prepare, Freeze, Kill and Destroy; Capsule.Pids,
--               Capsule.Rounds and Capsule.Killed hold the proof
--
-- Correspondence: a Go function `FooBar` is `foo_bar`, a struct is a record with its fields, and an
-- operation under a lock is a function from the state to the state and its results. A map is an
-- association list whose order is the order in which `range` visits it. Sinks of events are the list of
-- what they were given. `time.Now` reads the argument `now`, a sequence of instants; SHA-256, gzip and
-- float64 are parameters, and what a theorem needs of them is a hypothesis of that theorem. A trace's
-- times and the listing of a directory are arguments too. Loops over lists are structural recursion, so
-- there is no fuel but for `decimal`, the digits of a number, whose bound is one more than the number.
-- Virtual runtimes and the timeout of a command wrap at 2 ^ 64; other counters are unbounded.
--
-- The gateway's callbacks, the workspace runtime, the directories, the commands, the transfer of a page
-- over shared memory and the JSON encodings are the fields of a record `World`: functions of what was
-- asked and of the log of all that was asked before. The files and signals of the capsules are a record
-- `System` of that kind. A call of the gateway runs alone in the model; the store and the gateway each
-- have their own sink.
--
-- Not modelled: the providers but the mock, the files of checkpoints and traces, workspaces, samplers;
-- the HTTP server, processes, sockets, shared memory and the kernel's interfaces, which are I/O;
-- experiments and reports.
mod Base
pub mod Events
pub mod Cvm
pub mod Avp
pub mod Evidence
pub mod Floats
pub mod Scheduler
pub mod Blackboard
pub mod Registry
pub mod Router
pub mod Dag
pub mod Supervisor
pub mod Gateway
pub mod Replay
pub mod Checkpoint
pub mod Capsule
