-- ===== src/Lib.antt =====
-- HermesManager: the control plane that accepts agent tasks, checks them against a policy, starts an
-- agent on a runtime and collects the events that the agent reports. This library models its core.
--
-- The parts and the files that model them:
--
-- * internal/policy (Policy, Policy/FirstMatch, Policy/Visits, Policy/Reload): the rules and
--   `Engine.Evaluate`, `LoadFromFile`, `Reload`, `NewEngine`. A rule's conditions are a list in the
--   order of one visit of the Go map.
-- * internal/storage/store.go (Storage): the domain types, and the `Store` interface as the record
--   `Store W` of operations over a state `W`.
-- * internal/storage/postgres/store.go with internal/storage/migrations/001_init.up.sql (Postgres and
--   below): the queries as functions on four tables, with the constraints of the schema. Each call
--   meets one outcome of the network from the list `net` of the world: it goes through, it never
--   arrives (or the server refuses the statement), or it runs and its answer is lost; an empty list is a
--   network that fails nothing, and a server that takes every text of a statement. The listing queries
--   test the texts of their filter by the world's `admits`, and visit the rows in its order `scan`.
--   Postgres/Pool has `New` with the settings of the pool, `Migrate` and the notifications.
-- * internal/storage/postgres/health.go (Postgres/Retry, Postgres/Health): `WithRetry`, the background
--   ping and `WaitForReady`, which no other part calls.
-- * internal/runtime/runtime.go (Runtime, Runtime/Registry): the `Runtime` interface and the registry.
-- * internal/runtime/local/local.go (Runtime/Drivers/Local, Runtime/Drivers/Capacity): the driver that
--   starts a process on the host. `dispatch` is a call as a whole; Drivers/Capacity has the steps of calls
--   that overlap.
-- * internal/runtime/k8s/driver.go (Runtime/Drivers/Kubernetes and below): the driver that makes a
--   config map, a job and a secret. The Kubernetes API is the record `Client` of functions on the objects
--   of the namespace (World/Objects); what it promises is the record `Api` in Kubernetes/Served.
-- * internal/runtime/docker/docker.go (Runtime/Drivers/Docker, Api/TaskService/DockerStub): a stub.
-- * internal/skills/loader.go (Skills and below): `LoadFromDir`.
-- * internal/scheduler/scheduler.go (Scheduler and below): `Dispatch` and `SelectRuntime`.
-- * internal/api/taskservice.go (Api/TaskService and below): `CreateTask`, cut into its five numbered
--   steps.
-- * internal/api/router.go (Api/Events, Api/Tasks, Api/Skills, Api/Listing, Api/Pages, Api/Server,
--   Api/Response) and internal/api/auth.go (Api/Auth): the handlers and the middleware.
--   Api/Probes has the probes of internal/api/health.go, Api/Middleware the wrapper of
--   internal/api/middleware.go, Api/Routes the routes of `Handler` without that wrapper
--   and sequences of requests, and Api/Lifecycle a task from its creation to its end.
-- * internal/gateway/slack/verify.go (Gateway/Slack, Gateway/Slack/Fresh): the check of a Slack request's
--   signature and age; internal/gateway/slack/bot.go (Gateway/Slack/Bot and below): the commands.
-- * cmd/hermesmanager/main.go (Main, Main/Guarded): how `main` puts these together.
--
-- World holds what all calls read and change: the tables, the coming outcomes of database calls, the
-- bytes that crypto/rand will give, the clock, the host of the agents, and the objects in the Kubernetes
-- namespace. A function of the source that returns `(T, error)` is an `Exec World T`: it returns a value
-- or an error, and the world in both cases, since what was written before an error stays written. Prelude holds these types, the
-- association lists for Go maps and tables, and the error values, which keep what `%w` wraps.
-- Examples runs the program on small inputs.
--
-- How they interact: `handleCreateTask` calls `CreateTask`, which reads the skill, evaluates the policy,
-- writes the task and the hash of its token, and dispatches; `Dispatch` calls the driver and then the
-- store. The agent reports by `handleCreateEvent`, which verifies the token, stores the event, moves the
-- task and revokes the token.
--
-- Bounds: all loops are over lists, so no fuel is used. The round-robin counter wraps at 2 ^ 64. A
-- float64 of the policy is its bit pattern.
--
-- Parameters: sha256, strconv.FormatFloat, strconv.Quote, strconv.Atoi, time.Parse, strings.EqualFold
-- and the texts of libraries' errors (`Library`); the float64 quotients of the scheduler (`Floats`); the parsing of a timestamp, the way through float64
-- and HMAC (`SlackLibrary`); what pgx and the context say (`Surroundings`); the operating system's calls
-- (`Machine`); the Kubernetes API (`Client`); pgxpool (`Pgx`); reading and parsing the policy file and the
-- skill files (`Files`); net/http's multiplexer, decoding and the web pages (`Http`); the parsing of a Slack
-- form (`BotLibrary`). Hypotheses on drivers are the record `KeepsTables`, on the Kubernetes API the record `Api`, on the
-- multiplexer `IsMux`, on the order of float64 `IsOrder`.
--
-- Not modelled: JSON encoding, the other log lines, headers, Close, time that passes within one call, and interleavings inside one call (an operation runs as
-- a whole, but for the local driver's in Drivers/Capacity). Of nil slices and maps, those that a statement
-- sends are kept apart from empty ones: the lists of a skill, the parameters of a task and the payload of
-- an event. Of the main program, the flags, the listener and the shutdown are left out.
pub mod Prelude
pub mod Policy
pub mod Storage
pub mod World
pub mod Postgres
pub mod Runtime
pub mod Scheduler
pub mod Api
pub mod Skills
pub mod Gateway
pub mod Main
pub mod Examples
