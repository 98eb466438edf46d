-- ===== src/Lib.antt =====
-- A model of the money-miner backend (money-miner-backend): a master server that manages miners,
-- swarm workers and observed payouts for many users, and the worker program that runs the mining
-- engines.
--
-- The parts, and the files that model them:
--
--   Store      internal/store/store.go. `Db` is the state of the database: one list of rows for
--              each table, the clock that `now()` reads, and a source of fresh ids. Each query is
--              a function on it; a query that fails leaves it as it was. Keys, CHECK constraints
--              and cascades of the schema are written into the queries that meet them. Db and
--              Types hold the state and the rows; Catalog, Miners, Runs, Metrics, Payouts,
--              Settings, Workers and Blocks the queries; Isolation, Lifecycle, Rollup and Ledger
--              proofs.
--   Swarm      internal/swarm. Code holds the text of join codes (GenerateCode, NormalizeCode),
--              Codes what codes.go does to the database (Create, Enroll, CheckCode, Revoke,
--              AuthenticateWorker), and Hub the state of hub.go, database included, with
--              Connections (HandleWS, register, unregister, supervise), Reports (handleMessage),
--              Assignment (Assign, AssignQueued), Control (CancelMiner, AllocationUpdate,
--              RevokeWorker), Stats (LiveStats) and Session (HandleWS as a whole). What the hub
--              sends, closes and publishes is recorded in the state, in order.
--   Api        internal/api. One function `handle_x` for each handler `handleX`, from the caller's
--              subject, the path values and the decoded body to a response and the new state of
--              the hub. Response has the envelope, Query the numbers of a query string, Pool the
--              guard on pool URLs; Wallets, Miners, Workers, Settings and Public the handlers.
--   Server     internal/api/server.go. The routes: Serve runs the handler of an authenticated call
--              behind the check of the token and the subject's limit, and the public routes behind
--              the limit by address; the route of the event stream is in Events; `cors` is the answer to an origin.
--   System     no file of its own: `Step` is all that happens to the hub and its database (a query,
--              a message, a connection, an assignment, a cancellation), Keys and Sound say when a
--              state is sound, and Queries, Hubs, Tenants and Handlers hold proofs.
--   Auth       internal/auth/auth.go. The cache of the realm's keys, Parse and the middleware.
--   RateLimit  internal/ratelimit/ratelimit.go. The map of token buckets, and ClientIP.
--   Wallet     internal/wallet/validate.go. The rules for addresses, each regular expression as
--              the shapes that it is an alternative of.
--   Poller     internal/payouts/poller.go. One round of polling, on the hub's state.
--   Events     internal/events/events.go. The broker with its buffered channels, and `Step`, all
--              that can happen to it. The hub and the handlers record what they publish and do not
--              run the broker. Stream is the event stream (handleEvents of internal/api) on it.
--   Engine     internal/engine. Engines of the three kinds as one record, ResolveBinary, Args the
--              command line of a miner (renderArgs, poolHostPort), and Stats the statistics.
--   Worker     cmd/worker/main.go. The messages of a session; Runs the sessions one after the other
--              with the greeting and the reporter (runSession, cmdRun), Jobs and Backoff what
--              engines and delays they have, and Enroll the command that enrolls.
--   Stratum    internal/stratum/client.go. The client's table of calls and the reading loop; Calls
--              has Call in its parts and `Step`, every order in which they can run; Dial reads an
--              endpoint.
--   Config     internal/config/config.go. Load, from an environment.
--   Boot       cmd/server/main.go, internal/metrics and the loop of the poller: how the server
--              starts, the test data, and the loops on tickers, with what others do between rounds.
--   Base       numbers, lists, maps, texts as bytes, and tables of rows with their lemmas.
--   Tests      runs on a small installation, and each theorem at concrete arguments.
--
-- How they meet: a handler calls the store through the database in the hub's state and then the
-- hub; the hub calls the store; the codes are redeemed against the same database; the poller
-- inserts payouts into it. A request goes through Server to a handler, and Server and the sessions
-- of workers are built from the steps of System. The worker's enroll command talks to the enroll
-- handler. Each query and each operation of the hub is one step. A transaction or a mutex makes
-- some of them so; others are several statements in the code (Assign, handleAck, handleMetrics,
-- CancelMiner, RevokeWorker, RollupOnce), and what other sessions do between those is not
-- modelled. For the gap between the query and the transaction of Enroll the model has a parameter
-- (`meanwhile`). The steps of System may come between those of a handler in any order.
--
-- Numbers: ids and subjects are natural numbers that are only compared, with 0 for the empty one.
-- Counters of shares, amounts of payouts and the numbers of stratum calls are integers; their
-- 64-bit overflow is not modelled. A duration is a signed number of nanoseconds, and the seconds
-- of a bare number in the environment wrap around at 64 bits.
-- Hash rates are natural numbers of a fixed unit, and averages are kept as a sum and a count. The
-- 32-bit columns of samples refuse what does not fit. The clock counts seconds, and the server and
-- the database share it.
--
-- Bounds: all loops are structural. The inner loop of GenerateCode runs on fuel, the number of bits
-- that wait, of which every round takes five. Loops on tickers run over the list of what happens
-- between their rounds.
--
-- Parameters: bcrypt, SHA-256 and hexadecimal writing (`Crypto`, with the one law that a hash
-- matches its text), pgcrypto's encryption, what jsonb makes of a value, the random source, URL
-- parsing and DNS (`Net`), the splitting of host and port, which connections accept a write and
-- whether a handshake succeeds, the pools' responses and those of the miners' own APIs, the
-- reading and writing of numbers, times and durations (`Readers` and others), the environment
-- (`Environment`), the file system (`Files`), the host of a worker (`Host`), the JWT library
-- (`Jwt`), the token bucket (`Buckets`), and the order in which Go walks a map.
--
-- Not modelled: HTTP, web sockets, TLS and JSON but for a pool's response; outages of the database
-- and contexts, but for the end of a stratum call and of an event stream; signals, the shutdown
-- and the retry of the key set; processes, hardware detection and the worker's files; the
-- browser's stub of a hasher; the frontend. White space and letter case are those of ASCII.
pub mod Api
pub mod Auth
pub mod Base
pub mod Boot
pub mod Config
pub mod Engine
pub mod Events
pub mod Poller
pub mod RateLimit
pub mod Server
pub mod Store
pub mod Stratum
pub mod Swarm
pub mod System
pub mod Tests
pub mod Wallet
pub mod Worker
