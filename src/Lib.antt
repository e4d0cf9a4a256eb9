-- ===== src/Lib.antt =====
-- Spinloop runs language-model engines on a fleet of machines and works a backlog of items on them.
-- This library models the program's core and proves what makes it correct.
--
-- The parts, and the files that model them:
--
-- - The orchestrator (internal/orchestrator) works the items of a file. `Orchestrator.Items` is
--   items.go: the parse, the validation, the file form and the order of admission.
--   `Orchestrator.Topology` is topology.go and `Orchestrator.Admit` is admit.go: which nodes match an
--   item, in which order, and whether the fleet's declared limits admit it. `Orchestrator.Store` is
--   state.go: the lock, the record beside the file and the recovery of a start.
--   `Orchestrator.WorkList` is worklist.go: the turn of the run's loop, the pass, the reap, the abort
--   markers and the interrupt; `Orchestrator.WorkList.Api` has Add, Remove, Abort, Retry and Join. A
--   run is a sequence of `Step`s in any order (`Orchestrator.WorkList.Steps`): each step is what one
--   holder of the list's lock does, or a turn of the loop.
-- - A node's daemon (internal/daemon) keeps one engine. `Daemon.Supervisor` is supervisor.go,
--   `Daemon.PtyLog` is ptylog.go, `Daemon.Tee` is tee.go, `Daemon.Activity` and `Daemon.Sampler` are
--   activity.go with readiness.go, `Daemon.History` is history.go, `Daemon.Speed` is speed.go
--   and `Daemon.Logs` is logs.go. `Daemon.Control` is what the daemon keeps around its engine: Push,
--   SetEngineKey, StartEngine and Status of daemon.go, with the BuildArgv of
--   cmd/spinloop/serve_daemon.go. `Daemon.Control.Api` is api.go: the handlers, the bearer token and
--   Listen; `Daemon.Control.Api.Query` has the Logs of fleet/client.go beside the handler it asks.
-- - The fleet's client side (internal/fleet) reads what the nodes answer, chooses the node that serves a
--   request, and wakes one where none does. `Fleet.Config` and `Fleet.Tags` are config.go: the entries,
--   the wake policy, the keys and SplitTag. `Fleet.Load` is its Load, its validation and
--   ForEnvironment, with IsEnvName and IsInstanceType of internal/cloud. `Fleet.Answer` is the status
--   reply of daemon/daemon.go and the result of a call of node.go. `Fleet.Endpoint` and `Fleet.Select`
--   are select.go: the address and the key of an engine, the ranking, Choose and Select.
--   `Fleet.Wakeable`, `Fleet.Waiting` and `Fleet.Wake` are wake.go: the order of the candidates, the wait for an engine, and Wake.
-- - The gateway (internal/gateway) answers requests for the whole fleet. `Gateway` is what gateway.go
--   holds, the shared reading and the bearer token; `Gateway.Models` is handleModels and what it lists;
--   `Gateway.Route` is handleCompletion with the wake of a node and its refusal; `Gateway.Topology` is
--   the reply that the orchestrator reads its `Orchestrator.Topology` from.
-- - The preset (internal/preset/preset.go) is `Preset`: the merge of layers, the flags and the choice of
--   a section; `Preset.Command` is FormatCommand with its quoting, and `Preset.Shell` says what a shell
--   reads as the words of a simple command, by POSIX's rules and apart from the code.
-- - A Spinloop file (internal/spinloop/spinloop.go) is `SpinloopFile`: the parser with its errors,
--   stripComment and Format.
-- - The commands (cmd/spinloop) put these together. `Command.Target` is target.go: which fleet a command
--   acts on. `Command.Route` is route.go: how a launch is routed through a fleet; and
--   `Command.Route.Preview` is the runFleetRoute of fleet.go, which reports it beforehand.
--
-- How the code is read:
--
-- - A method that changes state is a function from the state, a record, to the new state and its
--   result; an error is a constructor that carries what the message names. What runs under one lock is
--   one function. What an operation asks of the world is an argument: the launcher's answers, the
--   clock, whether a write or a call of the file system succeeds, the answer of a scrape, what the
--   YAML decoder makes of a file. Parsing of a time is a function that is an argument too.
-- - Go's int is `ℤ` where it may be negative, and ℕ where it counts. A Go map is a list of entries
--   that is read by `lookup`; no theorem depends on the order of the entries. A figure of the host or
--   of the engine is of any type: nothing here computes with one.
-- - A text is a native string where the code only compares it, cuts a tag or joins it, and a list of code
--   points (`Prelude.Text`) where the code reads it character by character. A scanner of lines has its
--   limit of 64 KB on one line.
-- - `Prelude.Sort` is the insertion sort that the source writes out in sortedForAdmission. Go's
--   sort.SliceStable is read as that sort too, which is what it runs on at most twenty elements; with
--   more it merges sorted blocks, which the model does not have.
-- - Each loop recurs on the list that it walks. The wait for an engine walks the turns before its
--   deadline, a list that may be of any length, and one turn more. Only the decimal digits of a number
--   are written with fuel, one more than the number, which has at most that many digits.
-- - What the code asks of the standard library's parsers of addresses, and of the nodes, is an argument:
--   `Parsers`, `Environment` and `Nodes` are records of functions; so are the tables of Unicode, in
--   strings.ToLower, TrimSpace and EqualFold, and unicode.ToLower. What the working directory and the
--   registry of environments hold is an argument of the commands. A wake gives the calls of StartWith
--   that it makes beside its result, in their order.
--
-- Not modelled: processes, signals, containers and the HTTP calls themselves; the daemon's metrics
-- reply and requests to it that overlap; the log records; the notices of the commands;
-- the cloud's control plane; the terminal views; the edits of other programs' settings; the waiting
-- between two turns; the coalescing of concurrent wakes, and the progress lines.
pub mod Prelude
pub mod Fleet
pub mod Orchestrator
pub mod Daemon
pub mod Command
pub mod Gateway
pub mod SpinloopFile
pub mod Preset
pub mod Examples
