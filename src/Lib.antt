-- ===== src/Lib.antt =====
-- Verification library of the LibreMail bug-report ingest service.
--
-- The program. The app sends opt-in debug reports to a Worker. The Worker answers
-- POST /v1/reports (internal/ingest), hands the body to a sink that scrubs it (internal/scrub),
-- encrypts it (internal/crypto) and puts it into an object store under reports/pending/<id>
-- (internal/storage), which is an R2 bucket in the Worker.
-- The lifecycle Manager (internal/lifecycle) moves a report from pending to removed or published.
-- Maintainers list and remove pending reports over an authenticated admin API (internal/handler).
-- Two cron fires on Fridays reach internal/schedule, whose gate lets the one through that is 17:00
-- Central; its run lists the pending ids and hands them to the publisher (internal/publish), which
-- fetches, decrypts and formats each report, creates a GitHub issue through a client that paces and
-- retries, and marks the report published. Spans and log records go through internal/telemetry to an
-- OTLP collector, if one is set. The entry points that bind all this to the runtime are in worker.
--
-- How code becomes definitions. A Go method that mutates its receiver is a function of the state to
-- a result and the state it leaves (`Action` of Prelude.Outcome); an error is `err`. An interface of
-- the source is a record of such functions. Early returns are ifs, and what follows a call is a
-- function of its own by clauses on the call's result (`after_get`, `after_put`), named for the call.
-- A Go string is the list of its code points (Prelude.Text), a byte slice a list of numbers.
-- Names are the source's, in snake case.
--
-- Which file models which code:
--   Prelude     helpers: tests on numbers, lists, results, and the functions of `strings` in use.
--   Storage     internal/storage: Status (status.go), Store (the ObjectStore seam of store.go with
--               its laws), Memory (memory.go), Sink (sink.go, and the loading of the keyring in
--               worker_sink_wasm.go); Sink.Accepted puts the sink behind the ingest endpoint. R2 is
--               r2_wasm.go, with R2.Laws about its paging and R2.Refines about the seam.
--   Scrub       internal/scrub/scrub.go: Regex (the expressions, and the search for a match),
--               Replace (redactor, ReplaceAllString, apply), Classes and Rules (every rule and the
--               passes). Regex.Sound and Regex.Complete compare the search with what an expression
--               accepts, Regex.Matches with what it matches at a place, Regex.Clean is about texts
--               free of an expression, Replace.Change, Replace.Leftmost and Replace.Free about what
--               a rule changes, where, and what it leaves none of.
--   Telemetry   internal/telemetry: Data, Provider and Span (telemetry.go), Memory (memory.go), Otlp
--               (the wire types of otlp.go), Otlp.Headers (ParseHeaders), Otlp.Post (the requests).
--               Span.Once follows any calls on one span, Provider.Nested spans in spans,
--               Otlp.ReadBack reads the wire spans back, Otlp.Post.Delivered and Otlp.Post.Headers
--               are about the request of an export.
--   Worker      worker: Scheduled (scheduled_wasm.go; Weekly is about its two fires, Wiring about
--               buildPublish), Provider (telemetry_wasm.go), Backend
--               (admin.go, and WorkerSink.Store of internal/storage/worker_sink_wasm.go, which
--               Backend.Stored follows into the store).
--   Lifecycle   internal/lifecycle/lifecycle.go, over any store. Faults and Moves follow transitions
--               over a store of which every call may fail, before or after it took effect; Pending
--               is ListPending, Removal a move followed by a listing, InMemory the in-memory store.
--   Crypto      internal/crypto/frame.go: Keyring (NewKeyring, ParseKeyring), Primitive (the aead
--               seam, AES-256-GCM, with the laws of an authenticated cipher), Frame (Seal, Open,
--               KeyID); RoundTrip, Sound and Rejects are about the frame.
--   Schedule    internal/schedule/schedule.go: Calendar (the days of time.Time, counted from the
--               year 1), Gate (IsFriday1700Central and the Daylight rule), Weekly (Run,
--               LogPublisher), Observed (Run with its telemetry calls; Signals is about what it
--               exports).
--   Ingest      internal/ingest: Report (report.go), Sinks (sink.go), Serve and Outcome (ingest.go).
--   Handler     internal/handler: Admin (admin.go), Routes (handler.go and the patterns of
--               register).
--   Publish     internal/publish: Format (format.go), Client and Client.Requests (github.go), Batch
--               (publish.go), Batch.Wired (WithMarkPublished over the lifecycle), with what marking,
--               a run and one report do in Batch.Marks, Outcomes, Complete and Confirmed; Batch.Repo is
--               about ParseRepo.
--   Infra       infra/deploy.go: loadConfig and the bindings of the Worker; Bound compares them with
--               what the Worker reads.
-- A module Tests runs its component on concrete inputs.
--
-- How the parts meet. Lifecycle takes an ObjectStore as a parameter, and Storage.Memory.Laws fills
-- its laws. Handler.Admin takes an AdminBackend, which manager_backend fills with the lifecycle.
-- Storage.R2.Refines fills the same laws from those of a bucket. Worker.Backend fills an AdminBackend
-- with the lifecycle over the bucket, and Worker.Scheduled hands what it has built to Schedule.Weekly.
-- Telemetry.Provider takes an Exporter, which Telemetry.Memory and Telemetry.Otlp.Post fill.
-- Schedule.Weekly takes a lister and a publisher. Publish.Batch takes a Publisher, which
-- Publish.Batch.Wired fills with the lifecycle and an IssueCreator.
--
-- Parameters: code outside the repository. The AES-256-GCM primitive, random bytes, JSON and base64
-- coding, mime.ParseMediaType, RFC 3339 parsing, the clock, sleeping, jitter, strconv.ParseInt and
-- HTTP requests to GitHub. Their documented behaviour is a hypothesis where a theorem needs it:
-- StoreLaws, AeadLaws, ClockLaws, KeepsExported, BucketLaws. The bindings, events, secrets and
-- variables of the Workers runtime are parameters too. Of Go's `regexp` the part that the rules use is
-- modelled. Inside the sink, scrubbing is a parameter: any function on bytes, while Scrub is on runes.
--
-- Bounds. Instants of the gate are whole seconds since the zero time of Go, unbounded. Versions of
-- keys have 16 bits, a time.Duration of the client 64. The loop of do recurs on the attempts that
-- are left, max_attempts at its start, which is what the loop of the source counts to. The paging
-- loop of R2Store.List recurs on fuel, and more fuel than there are keys is enough, since a page that
-- is not the last holds a key. A decimal number has twenty digits at most, enough for 64 bits. All
-- other loops recur on a list.
--
-- Not modelled: what getSecret, await and NewR2Store of internal/storage and the providers of
-- AES-256-GCM of internal/crypto do with the JavaScript objects of the runtime, the telemetry calls of
-- the publisher (they observe only; of internal/ingest what the span and the log record hold is
-- modelled), cmd/devserver, and the cloud resources that deploy of infra declares.
-- Contexts are left out but for the check between two reports of a run and the error of a sleep.
mod Prelude
pub mod Crypto
pub mod Storage
pub mod Telemetry
pub mod Worker
pub mod Infra
pub mod Lifecycle
pub mod Publish
pub mod Scrub
pub mod Schedule
pub mod Ingest
pub mod Handler
