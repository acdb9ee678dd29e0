-- ===== src/Lib.antt =====
-- The build server of cmd/builds and internal/: projects, a queue of builds, a local Docker runner and
-- remote agents that claim builds over HTTP, live logs, and notifications.
--
-- Prelude holds what all modules share. Models (internal/models) has the values and the rules on them.
-- Logbus (internal/logbus) is the in-memory hub of live logs: Channel and Topic model one subscriber
-- and one build's topic, Logbus the map of topics under its mutex, and the modules below are about
-- what a topic serves of its build's durable log.
--
-- Db (internal/db) is the store. Db.BuildLog is one build's log in its column and its chunks
-- (buildlogs.go), Db.Builds the statements on one row of builds (db.go and buildlogs.go) with
-- Db.Builds.Lifecycle and Db.Builds.Runs about their sequences, and Db.Queue the statements on the whole
-- table: create, claim, sweep and count. A statement or a transaction is one step, since the store has
-- one connection; the time between two of them is a second argument where a function reads the clock
-- twice.
--
-- Api.Events is the handler of a build's event stream (internal/api/api.go): one subscriber, whose
-- steps are what `select` receives together with what the store answers. Api.Events.Delivery and Loop
-- are about what each case delivers, Resume what a client gets over a reconnect, Complete what a terminal
-- status means, and Wire what the client reads: its parameter is what json.Marshal makes of some bytes.
--
-- Db.AgentStore is the table of agents (internal/db/agentstore.go): Columns is a row, Table
-- its statements, Rows reads a row after one, Pauses follows an operator's pause, Seen a sighting, Trimmed
-- a report that is too long. Models.Texts and Models.Report have the bounds on what a machine says of
-- itself (ClampText, ValidAgentName and Clamp of models.go); a text is the characters that Go reads in it.
--
-- Api.Claim is an agent's request for work (internal/api/agents.go and profiles.go) over Db, the registry
-- and the bus, one round per tick; Handed is about what is handed out, Waits about the end of the wait. The
-- rest of the server is a function between two statements.
--
-- Api.Agents has the requests that an agent makes for a build that it has claimed (internal/api/agents.go):
-- log uploads, heartbeats and the end. A handler is one function on the build's row and the bus, and takes
-- the operations of Db.Builds.Lifecycle that other requests run between its statements as arguments.
--
-- Db.Outbox is the queue of notifications (internal/db/notifications.go), with what becomes of a row in
-- Follows and Came, and its size in Pruned; Observed has what enters it and the save of an agent's
-- preferences (internal/db/agent_notifications.go). Notifications is the worker that delivers it (internal/notifications/
-- worker.go): Relay has the requests and the waits, Worker one notification and the sweep, and Backoff,
-- Posts and Sweeps are about them. The relay's answers are arguments.
--
-- Auth is the rate limit of logins and the choice of credentials (internal/auth/auth.go); Auth.Guesses
-- counts what the limit lets through.
--
-- Ws is the WebSocket code (internal/ws/ws.go): Ws.Frames the bytes of frames in both directions, with
-- Client and Server for the two round trips, Ws.Loop the server's answers to a client, and Ws.Ends that it
-- stops. A byte is a natural number; ReadLoop runs on fuel, and one round per byte and one more is enough.
--
-- Runner.Sink is the sink of a build's output (internal/runner/sink.go and scrubSecret of runner.go). It
-- appends to the stored log of Db.BuildLog and then publishes to the bus of Logbus; Runner.Sink.Keep and
-- Durable follow the bytes, Publish is about the calls that it makes on the bus.
--
-- Runner.Registry has the runner's fields under its mutex (internal/runner/runner.go), and Runner.Worker the
-- worker, the janitor and the requests of others on one row: a move is a locked section or a statement,
-- and the moves of a worker follow the phases of process and runBuild. Owned, Rows, Turns, Moves, Runs
-- and Alone are about the worker's hold on its build, Started, Doomed and Sticks about a cancel and a
-- shutdown; the claim handler's failing of a build that it cannot hand out (internal/api/agents.go) is two
-- moves of its own. Runner.Paths resolves the paths of a checkout. Api.Cancel is the handler of a cancel
-- (internal/api/api.go), with any moves between its statements.
--
-- Api.Intake has the requests that make builds (internal/api/api.go), over the store and the channel of
-- builds to run here: Signed is about whom the webhook serves, Queued and Stranded about builds that wait.
-- Startup is the recovery of that queue by cmd/builds/main.go, with Recovered and Waiting about the rows and Requeued
-- about the channel.
--
-- Poller is the poller of the projects' branches (internal/poller/poller.go) over the tables of Db.Queue;
-- Poller.Baseline follows the last polled commit, Poller.Once the builds that it queues.
--
-- Agents.Registry is the registry of agents (internal/agents/registry.go); Agents.Polls counts its open
-- claims.
--
-- Bytes and ids are natural numbers, byte offsets are unbounded (the program counts log bytes in a
-- 64-bit int), and a signed argument that the code tests for a sign is an integer. Instants are natural
-- numbers of nanoseconds. Loops that shrink a list run on fuel equal to its length.
--
-- Not modelled: the commands that runBuild runs and its mail, the agents' fleet page and the hub of page
-- updates, the capture and the text of notifications, and the tokens of sessions; and HTTP and TLS
-- plumbing, HTML templates, the SQL driver, Docker and git processes.
pub mod Agents
pub mod Api
pub mod Auth
pub mod Db
pub mod Logbus
pub mod Models
pub mod Notifications
pub mod Poller
pub mod Prelude
pub mod Runner
pub mod Startup
pub mod Ws
