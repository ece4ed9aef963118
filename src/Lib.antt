-- ===== src/Lib.antt =====
-- bdopsflow: a distributed platform that schedules tasks and runs SQL queries on data sources. A
-- scheduler (scheduler/) serves an HTTP API, keeps its tables in rqlite and shared state in Redis,
-- and elects a leader among its nodes; executors (executor/) run the tasks. This library models the
-- parts that decide who may do what, how many queries run at once, who leads, what becomes of the
-- executions of a task, and which worker runs it.
--
-- The parts, and the files that model them:
--
-- scheduler/internal/middleware/auth.go is `Middleware`: a request to a protected route passes the
-- authentication by JWT or API token, then `InjectUserRole`, then the guard of its route
-- (scheduler/cmd/routes.go). A gin handler is a function from a request and a context to an
-- outcome, which is the next context or a status; `chain` runs the handlers of a route in order.
-- `Middleware.Authentication` is about who is authenticated, `Middleware.Guards` about what a
-- request that reaches its handler has shown.
--
-- scheduler/internal/service/permission_service.go is `Permission`, which the guards call:
-- `has_permission` is HasPermission, `is_system_admin` IsSystemAdmin, and so on; `Permission.Roles`
-- has the inheritance of roles, HasAnyPermission and SwitchDomain. The database is the record
-- `PermissionDb` with one field for each SQL statement. The walk over the parents runs on fuel;
-- more fuel than there are roles that can be reached is enough, because the walk expands a role
-- once. Ids are natural numbers, and a number that is not positive stands for none.
--
-- scheduler/internal/service/instance_permission.go and scheduler/internal/datasource/permission.go
-- are `InstancePermission`: the permissions on one data source or webhook, with the types and their
-- inclusion in `InstancePermission.Types`. The tables are the record `Instances` over a state, with
-- the laws of COUNT and INSERT as the record `InstanceLaws`. HasDatasourcePermission and
-- HasWebhookPermission have the same steps, which are one definition with the differences as
-- arguments. The order in which Go ranges over a map is an argument.
--
-- scheduler/internal/handler/query_registry.go is `QueryRegistry`: the queries that run, by id,
-- with their status, the observers and a log of notices. A method holds the lock from start to end
-- and is one step.
--
-- scheduler/internal/datasource/concurrent.go is `Datasource.Concurrent`: the limits on running
-- queries, held as counters in Redis. An acquisition is a chain of commands, each of which is one
-- atomic step of the server; a permit is the closure that gives the counters back, with its
-- once-only flag. A journal has what happened to each key, the DECRs that failed and the numbers that
-- expired; `Concurrent.Ledger` reads a counter with it, and `Concurrent.Clients` is who calls.
-- scheduler/internal/datasource/circuit_breaker.go is `Datasource.CircuitBreaker`, the breaker in
-- front of a data source; the clock is an argument of each call.
--
-- scheduler/internal/service/task_service.go and execution_service.go are `Tasks`: the dispatch of
-- an execution, with `Tasks.Control` for triggers, retries, failures and cancellation, and
-- `Tasks.Recovery` for what a new leader does with running executions; `Tasks.Recovery.Dead` is
-- cleanupDeadTasks of cleanup_service.go. The database, Redis and the stream to the executors are
-- the record `Backend` over a state in `Tasks.Interface`; `Rows` has what its statements do to the
-- table of executions. A goroutine that the code starts is an effect, and its body a definition of
-- its own (`run_retry`).
--
-- scheduler/internal/grpcserver/server.go is `GrpcServer`: the state that it keeps for its
-- executors under one lock, and the report of a result, which updates the table of `Tasks`.
--
-- scheduler/internal/cron/cron_scheduler.go is `Cron`: the map of scheduled tasks against the table
-- of the cron package, a parameter with its laws in `Cron.Entries`; `Cron.TaskLock` has the Lua
-- scripts on the lock of a task as functions on the hash at its key, and `Cron.Firing` what happens
-- when a task is due.
--
-- scheduler/internal/datasource/manager.go is `Datasource.Manager`: the pooled driver of one data
-- source and its breaker. scheduler/internal/datasource/driver/hive_pool.go is
-- `Datasource.HivePool`, where a call that waits for a connection is a value that `resume` goes on
-- with, and scheduler/internal/datasource/driver/errors.go is `Datasource.Retry`, where an error
-- message is the set of texts that the code looks for in it.
--
-- scheduler/pkg/election/leader.go is `Election`: a node of the election as a record, one tick of
-- its loop as a function, the value that it stores as a list of bytes, and the callbacks as a log.
--
-- scheduler/pkg/lock/redis_lock.go is `Lock`: the three methods over the same commands of Redis.
--
-- executor/internal/pool/pool.go is `ExecutorPool`: the workers, the queue and the counters of an
-- executor, with one step for each thing that a goroutine does at its channels.
-- executor/internal/executor/task_executor.go is `Runner`: the tasks that run, where the goroutine of
-- a task takes three steps.
--
-- scheduler/internal/webhook/webhook.go is `Webhook`: `should_send_for_event`, `send` and
-- `send_with_retry` are shouldSendForEvent, Send and SendWithRetry, over a record of what the
-- encoder, the HTTP client and the clock do. The loop runs on the attempts that are left. A text is
-- a list of bytes. The scheduler's notifications go by SendWithSignature of
-- scheduler/internal/service/webhook.go instead, which is not modelled.
--
-- `Redis` has the commands that the scheduler sends to Redis as records of functions over a state
-- of the server, and the laws that the theorems need; `Prelude` has the shared tests, lists and
-- integers; `Tests` has the theorems at concrete inputs.
--
-- Bounds. Counters, ids, times and capacities are unbounded numbers, on the assumption that no
-- count comes near the bounds of int32 or int64; where the code multiplies durations (`renew_ttl`)
-- the product wraps around as an int64. Times are in seconds or in the unit of the duration that
-- they are compared with. A call reads the clock once. The loop of WithRetry runs on its number of
-- attempts, and the walk over roles on fuel; both are structural.
--
-- Not modelled: the audit middleware, which records a request on its way to the handler, the
-- listings and statistics of every service, the assignment of permissions to roles, the registry of
-- queries in Redis, the rows of webhooks, the registration of executors, the cleanup of stale
-- locks and of the tasks of offline executors, the requests and processes of the tasks, the drivers
-- apart from the Hive pool, the administration services, logging and metrics. They are SQL, network
-- and file operations for the most part; the registry of queries in Redis and the HTTP handlers of
-- queries have logic of their own that this library does not reach. Two goroutines that race inside
-- one call of the Hive pool or of the manager are not modelled: a call is one step there. The web
-- front end and generated code are left out.
mod Prelude
pub mod Redis
pub mod Datasource
pub mod ExecutorPool
pub mod Permission
pub mod InstancePermission
pub mod Middleware
pub mod QueryRegistry
pub mod Election
pub mod Lock
pub mod Tasks
pub mod Cron
pub mod GrpcServer
pub mod Runner
mod Tests
pub mod Webhook
