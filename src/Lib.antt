-- ===== src/Lib.antt =====
-- Queueway: a job queue with exchangeable brokers and stores.
--
-- A publisher saves a job in a store and hands it to a broker; the broker delivers it to the callback
-- that the engine wrapped round the user's handler; the callback keeps the job's record in step,
-- retries with a backoff, and moves a job that keeps failing to the dead letters. Recovery takes back
-- what a dead worker left behind. The dashboard shows the engine through the HTTP API. Paths below are
-- under packages/core/src, where they do not begin with packages.
--
-- Which file models what:
--   Base          shared names, tests, lists, and operations that may reject (`Exec`)
--   Types         types.ts
--   Store         store/IStore.ts (`Contract`), InMemoryStore.ts (`Memory`), SQLiteStore.ts
--                 (`Sqlite`), PostgreSQLStore.ts (`Postgres`); `Table` and `Listing` are what they share
--   Retry         retry/RetryManager.ts
--   Engine        Queueway.ts and dlq/DLQManager.ts: `World` is what an engine works on, `Delivery` the
--                 callback of `subscribe`, `Api` the other operations, `Lifecycle` its start and stop
--   Broker        broker/InMemoryBroker.ts (`Memory`), RedisBroker.ts (`Redis`) and RabbitMQBroker.ts
--                 (`RabbitMq`; its `Worker` is the engine, its queues and its timers as one system)
--   Auth          auth/AuthStore.ts (`Accounts`) and authRoutes.ts (`Credentials`, `Routes`),
--                 mailer.ts (`Mailer`)
--   Server        server/createServer.ts: the errors it recognises, and the routes behind the login;
--                 networkInfo.ts (`Network`)
--   Config        config/env.ts, and the levels of logging/Logger.ts; the logger is Monitoring/Logger
--   Cli           cli/lib/envFile.ts (`EnvFile`), detect.ts (`Detect`), dockerServices.ts (`Docker`),
--                 its compose file (`Compose`), setupPostgres.ts, setupBroker.ts, and commands/init.ts
--                 (`Init`); daemon.ts with commands/stop.ts, status.ts and the decisions of start.ts
--                 (`Daemon`); server-bootstrap.ts and commands/health.ts (`Serving`); `Machine` is what the
--                 setup calls outside
--   Monitoring    monitoring/HealthCheck.ts, and the watchdog of cli/commands/start.ts
--   Dashboard     packages/dashboard/src/app/page.tsx (`Views`, `Content`) and its forms under
--                 components/auth (`Forms`); `Entry` and `Refreshing` join them to the server's routes
--   Tests         concrete runs
--
-- How it is modelled. An async operation is a function from a world to what it settles to and the
-- world that it leaves; a rejection is a value. The engine is generic in its store: it takes the
-- operations (`IStore`) and its theorems the contract (`IsStore`), which each store is shown to keep.
-- The user's handler, what others do during a wait, and the broker's publish are parameters, so that a
-- theorem holds for all of them. A database is its tables, a clock and whether it can be reached;
-- an outage begins between two operations, not inside one. Ids and event names are texts, times are
-- milliseconds, and the data of a job is its JSON text, which the program never looks into. A limit on
-- a listing is a natural number. The in-memory store keeps values where the source keeps the caller's
-- object. A delivery follows every change that it makes to that object by an update with the same
-- values; a change of the record by somebody else during a delivery (a retry by hand) reaches the
-- object in the source and not in the model, so that on the in-memory broker with the in-memory store
-- the model stands for runs without one. The handlers of the in-memory broker share the job object, and
-- a failed attempt that one of them counts in it is seen by the next; the other brokers parse a copy
-- from each message. A handler of the user's leaves the object alone. A store says which new jobs it
-- takes: PostgreSQL refuses texts that are too long for their columns and data that is no JSONB, of
-- which the database is asked. Counted attempts stay below 2^31, the bound of their column. A
-- BRPOP may also reject with any error or return what is no JSON.
--
-- The HTTP API runs over an engine and a login storage, and an engine's error tells of itself by a
-- `Fault`, whose texts are the driver's. bcrypt and the lower-casing of an address are parameters, and
-- every random value is an argument, as is whether the DELETE of a used reset token succeeds, whose
-- error the source ignores. What JavaScript's RegExp says of a key with metacharacters is a parameter of
-- the .env file. A timer of the watchdog or of the RabbitMQ broker is a state, and each thing that may
-- happen to them is one step. RabbitMQ is what it says to each command on a channel
-- after those that it carried out; the channel keeps the commands, so that a theorem can speak of
-- their order. The dashboard's requests are handled by the model of the server, or end as a response of
-- any kind, or as no response.
--
-- The setup wizard is a tree: a call of something outside (a question, a command of Docker, a port, a
-- clock, a file) with a branch for each answer, and a run of it is the log of its calls. A menu may
-- answer anything; what the source does with an answer that it does not offer is kept.
--
-- Fuel. The waits of the setup take their rounds as fuel: a round pauses, so as many rounds as pauses fit
-- into the deadline, and one, are enough. Else only the nested publish of the in-memory broker needs
-- fuel; what the retry limit leaves of the attempts of the job is enough.
--
-- Not modelled: drivers and servers (sqlite3, pg, ioredis, amqplib, express), connection pools, the
-- frame of a mail, how a job file is found and required, the parsing of the command
-- line's options, the layout, the styles and the notices of the dashboard.
pub mod Base
pub mod Types
pub mod Store
pub mod Retry
pub mod Engine
pub mod Auth
pub mod Broker
pub mod Monitoring
pub mod Server
pub mod Config
pub mod Cli
pub mod Dashboard
pub mod Tests
