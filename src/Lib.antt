-- ===== src/Lib.antt =====
-- FiberScope, a service that locates faults on optical fibres from OTDR traces: the Go backend of
-- backend/internal.
--
-- A trace is a list of samples. The algorithms smooth it, find its jumps, merge and classify them and
-- turn sample indices into metres; two event lists, of a baseline trace and of a current one, are
-- compared, and the differences give a case its estimated distance. A case runs through the states
-- draft, analyzing, pending_review, confirmed and closed; its services work on a SQL database through
-- gorm, in transactions that also write an audit entry, and conditional updates on the version and the
-- state of a case are the only lock.
--
-- Base: shared helpers. Base/Errors has the error values of backend/internal/service/auth_service.go
--   and the outcome of a Go call: a value, an error, or the panic of an index out of range.
-- Float: float64 as the parameter `Float64`, with IEEE behaviour that the code relies on as the named
--   laws `IsOrdered`, `IsRounded` and `IsMonotone`; Float/Fixed fills them by fixed-point numbers.
-- Constants: backend/internal/constants.
-- Algorithm: backend/internal/algorithm. Median, the median that denoise.go and detect.go write out;
--   Denoise, denoise.go; Distance, distance.go; Detect, detect.go; Compare, compare.go. The child
--   modules of each hold its theorems. A loop is a recursion on the list that it walks, so no fuel is
--   needed; `int` arguments are integers, and indices stay far from the width of a machine word.
-- Json, Model: JSON documents, the rows of backend/internal/model and the requests of
--   backend/internal/dto. A JSON column holds what it decodes to, a time is a number of nanoseconds.
-- Store: the database as the parameter `Engine`, which runs statements and transactions, and
--   `IsSound`, what the documentation of the database says of them: a statement fails and changes
--   nothing or does what it says, a transaction keeps its changes only if its body returns a value.
--   Each table numbers its rows by itself; the id of a new row is above those of the table.
--   Store/Laws has the rules for what a call leaves behind, Store/Memory a database in memory.
-- Repository: backend/internal/repository, each query given by what it does to the tables. Query and
--   Listing have what the queries share; Lists has the `List` of every repository; Case, Audit, Trace,
--   Event, Route and User have the rest of the file of that name.
-- Service: backend/internal/service. Errors, the constructors of application errors; Snapshot,
--   `snapshot` and `scrubSnapshot`; Document, the documents of audit entries; Case, Event, Route and
--   Trace, the services of those names; Auth, `Login` and `Parse`, with bcrypt and golang-jwt as the
--   parameter `Tokens` and its documented behaviour as `IsLawful`; Listing, `normalizePage` and the
--   `List` of every service.
-- Workflow: the writes of the case service as a step relation on the tables, in which the writes of
--   any number of clients come in any order, the laws of its histories, and the services' calls as
--   such writes.
--   Analyze (with Analysed and Recovered), Create and Review tie each service to these writes, Calls
--   ties runs of calls to them, and Audited ties them to the audit log. Effects says what a write leaves column by column, Compared
--   what the analysis compares.
-- Middleware: backend/internal/middleware. RateLimit, the limiter, whose mutex makes each request one
--   step; Chain, the handlers, as functions from what follows them and from the context and the server
--   to a reply.
-- Router: backend/internal/router, the chain of every endpoint; `serve` is what
--   backend/cmd/server/main.go puts before it. Gate, Guard, Routed and Access follow a request through
--   the chain, and Policy has the table of who may use what, written from the roles' duties.
-- Config: backend/internal/config.
-- Handler: backend/internal/handler, what all handlers share; Cases, Routes, Events, Traces (with the
--   audit handler) and Login have the handlers. Decoding and validation are the parameter `Binder`.
--   Handler/Confirm follows a confirmation from the request to the tables.
-- Tests: runs at concrete inputs.
--
-- Choices: sort.Slice and sort.Float64s are a stable insertion sort, one of the orders that they may
-- give to equal elements. The order of an object's keys, and the letters outside ASCII in a key, are
-- not modelled. Where the ordering of a listing leaves the order of rows open, the
-- engine chooses one with each query (`arranged`). A call whose error is dropped goes on. Interleavings
-- of clients are modelled between statements, not inside one.
--
-- A clock that a proof compares with is assumed not to run backwards where a theorem says so.
--
-- Not modelled: the table that gives the router its handlers (it takes any), the validation tags of the
-- requests, the access log, the seeding of accounts and the opening of the
-- database, the start and the shutdown of the server, and the web client.
pub mod Base
pub mod Float
pub mod Constants
pub mod Algorithm
pub mod Json
pub mod Model
pub mod Store
pub mod Service
pub mod Repository
pub mod Workflow
pub mod Middleware
pub mod Router
pub mod Config
pub mod Handler
pub mod Tests
