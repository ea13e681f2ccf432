-- ===== src/Lib.antt =====
-- The UTM track manager: a Go service that keeps the current tracks of aircraft, publishes their changes,
-- writes their history to Aerospike in batches, and answers HTTP queries on both.
--
-- How the parts interact: NATS delivers IPC messages (internal/service/event_process.go). A message is
-- decoded, and one that carries a track is converted (internal/service/track.go). The handlers change the
-- map of current tracks, publish an event, and put a history row into a channel; a goroutine drains that
-- channel in batches (internal/service/track_history.go). Jobs and HTTP handlers (internal/hapi) read the
-- map and the history.
--
-- The files, and the code that they model:
-- Prelude: tests, lists, int32 and int64 (`ℤ` with the truncation of Go's conversions), strings as bytes,
--   strconv and fmt for decimal numbers, Go's maps with int32 keys, and the ways a Go call ends:
--   `Checked` is a value or a panic; `Exec` also changes a state and may wait for ever in a channel send.
-- Track, Ipc: the records (pkg/pb, internal/model). Floats are bit patterns; a pointer is an `Option`.
-- Convert: `convertIpcTrackToTrack`, `getShapeStr` (internal/service/track.go).
-- Service: `MainService`, `New`, `publishEvent` (internal/service/main_service.go). `World` holds what is
--   not in the repository: the protobuf and JSON codecs, NATS, the order of `range`, the database client.
-- Tracks: `ReceiveNATSMsg`, `ProcessIpcEvent`, the three handlers, the queries and the broadcast job.
--   Each critical section of the mutex is one step; the steps of a handler that others may come
--   between are functions of their own.
-- Aerospike: the client's interface (`Client`) and its documented behaviour (`IsFaithful`), with an
--   implementation in memory that has it.
-- History: keys, bins, `InsertBatchTrackHistory`, `DeleteTrackHistory`, `FindByTrackId`
--   (internal/service/track_history.go).
-- Batch: `ProcessBatchHistory` as a run over the events of its `select`, with the state of its timer.
-- System: the running service (cmd/start.go): each message's handler in a goroutine of its own, next to
--   the batch loop, over one database. `Handler` is where a handler stands, `advance` brings it to where
--   it can be interrupted next, and `run_system` is a course of events that the scheduler chooses. `Rules`
--   is the relation that `advance` follows. `Alone` and `Sequential` are about a handler that nobody
--   interrupts, `Trace`, `Steps`, `Accounts` and `Rows` about the rows of the history, `Costs` and
--   `Termination` about the number of steps, `Drain`, `Quiet` and `Stored` about the way of the rows into
--   the database, `Courses` and `Races` about two messages on one track.
-- Pipeline: a track message from its handler through the batch loop to the database.
-- Hosts: `buildHosts`, `ensureNamespaceExists`, `EnsureSecondaryIndex` (internal/db/aerospikedb.go) and
--   `MigrateDB`.
--   `Connect` is `ConnectDatabase`.
-- Query: the search options of HTTP and gRPC (internal/service/util/util.go, internal/gapi/common).
-- Paths, Files: `path/filepath` on Unix, and internal/service/util/file.go over an operating system as a
--   parameter (`Os`), whose documented behaviour is `IsFileSystem`.
-- Sockets, Startup: the socket handlers and the calls of `runServer` (cmd/start.go).
-- Config: internal/config; `Rotation` is `rotateAtMidnight`. I18n: internal/i18n. Grpc: internal/gapi.
-- Hub: the websocket hub (internal/hapi/websocket/hub.go); a reachable state is one that the methods and
--   the cases of the loop bring about.
-- Server: `NewServer`, `InitI18n`, `Start`, `router.Init` and the routes (internal/hapi); echo stands for the
--   list of the calls that were made on it.
-- Http: the handlers' replies and the fields of the logging middleware and the metrics
--   (internal/hapi).
-- Arrays, Retry, Commands, Concurrency, Crypto: internal/service/util (array.go, compare.go, util.go,
--   type.go, concurrency.go, crypto.go). `RunAll` and `RunAllWithLimit` are moves of a pool that the scheduler
--   chooses; the end of a task, its send to `errCh` and the release of its slot are one move.
-- Transform: the float helpers, encoders and hashes of internal/service/util (transform_type.go, array.go,
--   util.go, crypto.go), over the standard library's functions.
-- Publisher: internal/mq. Indexes: `createIndex` (internal/service/main_service.go), which has no caller.
-- Tests: concrete inputs on which the theorems are applied.
--
-- Fuel: the digits of a number are printed with the number itself as fuel, and white space is trimmed with
-- the length of the text; each round takes at least one digit or byte, so both are enough. The searches
-- through folders take a number above the depth of the folders as fuel. All other loops are structural.
--
-- Not modelled: log lines, but those of `RunCommand` and of the middlewares; what only calls libraries
-- (cmd/root.go, cmd/tracer.go, the registration of the metrics); closing files, whose errors the code
-- drops; generated code. A call of the database is one step of the running service, also where it is
-- several requests.
pub mod Aerospike
pub mod Arrays
pub mod Batch
pub mod Commands
pub mod Concurrency
pub mod Config
pub mod Convert
pub mod Crypto
pub mod Files
pub mod Grpc
pub mod History
pub mod Hosts
pub mod Http
pub mod Hub
pub mod I18n
pub mod Indexes
pub mod Ipc
pub mod Paths
pub mod Pipeline
pub mod Prelude
pub mod Publisher
pub mod Query
pub mod Retry
pub mod Server
pub mod Service
pub mod Sockets
pub mod Startup
pub mod System
pub mod Tests
pub mod Track
pub mod Tracks
pub mod Transform
