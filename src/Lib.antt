-- ===== src/Lib.antt =====
-- jetstream-router reads the Jetstream firehose on one goroutine, decodes the envelope of each
-- frame, and routes the event by (kind, collection, operation) to one of several routes, each
-- with a bounded queue, a pool of workers and a handler of its own. A cursor keeps the position
-- in the stream.
--
-- The parts, and the files that model them:
-- Event: internal/event/event.go. `decode` is `Decode`, `dedup_key` is `DedupKey`; the early
--   returns of `Decode` are `from_envelope` and `with_commit`.
-- PathMatch: `path.Match` of Go's library, which `routing` calls, byte by byte, with its errors.
-- Routing: internal/routing/routing.go. `new`, `route`, `matches`, `routes` and `collections`
--   are the functions of those names; a loop is a function by recursion over its list.
-- Handler.Window, Handler.Dedup, Handler.Throttle: internal/handler/state.go. A list element is
--   a pointer in the source; here it is named by the key of its entry, which never changes. Maps
--   are association lists, and `evicted` records the calls of `onEvict`. The loops that evict
--   have as much fuel as the list is long, and one more: every round removes an element.
-- Handler.Shard: internal/handler/shard.go. `observe` is `observe`, with the metrics that it
--   writes; the order in which `range` visits a map is the argument `visit`.
-- Handler.Alerts: the helpers of internal/handler/handler.go. Handler.Engagement,
--   Handler.SocialGraph, Handler.Retraction, Handler.Unrouted and Handler.Content:
--   internal/handler/engagement.go, socialgraph.go, retraction.go, default.go and content.go.
--   `handle` is `Handle`; its result holds the alerts that go to the sink, or the lines that are
--   logged. No `Handle` returns an error.
-- Route: internal/route/route.go. The channel is a list. `offer` is `Offer`, with the case of
--   its `select` as an argument; `process` is `process`, with what the handler does on each
--   attempt as an argument. It has as much fuel as attempts are configured, and one more.
--   Route.Pool: `start` is `Start`, `Turn` a step of a worker, `Life` what a started route goes
--   through in any order, and `drain` the end of `Drain`.
--   Route.Wire: `unmarshal` is the `UnmarshalJSON` of a route's configuration.
-- Cursor: internal/jetstream/cursor.go. `advance` takes what each compare-and-swap finds, and
--   `commit` where it fails or the process dies. Cursor.Steps: the steps of `Commit` between which
--   another goroutine can run; `Stride` is a step of one call, `Alone` a call beside which no other
--   runs, which does what `commit` does, and `Together` two calls that overlap.
-- Config: internal/config/config.go. `default_config` is `Default`, `validate` is `Validate`, and
--   `load` is `Load`; `unmarshal_duration` and `marshal_duration` are the JSON of `Duration`.
-- Dispatch: cmd/router/main.go. `build_routes`, `dispatch` and `wanted` (in `ingestConfig`).
--   Dispatch.Handlers: the map `handlers`, whose entries `serve` calls; the calls follow one another.
-- Program: cmd/router/main.go. `ingest_config` is `ingestConfig`, `boot` is `run` up to the start of
--   the ingestor, and `exit_code` what `main` exits with before that. Program.System: `run` from
--   there on. `Move` is a step of the ingestor, of a worker, or of `run` itself, which waits for the
--   ingestor, drains the routes in any order and commits; the steps come in any order. The final
--   `Commit` is one step where no other call is under way (`final_commit`); as long as
--   `maintenanceLoop`, which `run` does not wait for, has not returned, the final `Commit` can also
--   overlap with one of the loop, step by step (`overlaps`).
-- Obs: internal/obs/obs.go. The health of the process and the answers of the probes.
-- Ingest: internal/jetstream/ingest.go. `subscribe` is the cursor parameter of `subscribeURL`, and
--   Ingest.Request the whole of it; `read_frame` is a round of the loop of `connectAndRead`,
--   `refresh_lag` is `refreshLag`, and `disconnect` and `delay` are parts of `Run`. The clock is the
--   argument `since`.
--   Ingest.ErrorText: `errString`. The loop of `strings.ToValidUTF8` has as much fuel as the text
--   has bytes: every round takes one or more.
--   Ingest.Machine: `Step` is a step of `Run` or of `maintenanceLoop`, which come in any order;
--   each step has a clock and random numbers of its own, and `Run` (Ingest.Machine.Steps) is a
--   sequence of steps. `Commit` is one step there, and so are the reads of `refreshLag` and the two
--   stores of `SetReady`.
-- Common: shared types and lemmas. Tests: runs on concrete inputs.
--
-- `int` and `int64` are signed integers (Common.Int); the differences of times and the product of
-- the backoff wrap around at 64 bits. Lengths and counters of metrics are natural numbers. A string
-- is the list of its bytes.
--
-- Not modelled: the flags; the websocket, the ticker and the signals, which are steps that the
-- relations allow; metrics that nothing reads, the writing of logs and the HTTP server (internal/obs); the
-- parsing of JSON, which is an argument wherever it is used; and regular
-- expressions.
pub mod Common
pub mod Event
pub mod PathMatch
pub mod Routing
pub mod Handler
pub mod Route
pub mod Cursor
pub mod Config
pub mod Dispatch
pub mod Obs
pub mod Ingest
pub mod Program
pub mod Tests
