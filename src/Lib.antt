-- ===== src/Lib.antt =====
-- A verification of the web service template: its background job queue, its rate limiter, its
-- sessions, accounts and notes, its chat and its use of models, its configuration and migrations.
--
-- The program (paths from the root of the repository). Features live under internal/ (auth, user,
-- note, chat, triage) and use packages of internal/platform (queue, web, llm, systemone, config,
-- database, logging). cmd/api starts the HTTP server and the worker. A request passes the middlewares
-- and auth.LoadIdentity, then a handler of a feature; the handler calls a service, the service a
-- repository, and the repository PostgreSQL. Jobs go through internal/platform/queue, which adds
-- limits on runs, retries and schedules to PgQue, a queue in SQL.
--
-- Which file models what:
--   Base: shared helpers. Base/Strings, Base/Utf8, Base/Spaces and Base/Order treat Go strings as lists
--     of bytes (package unicode/utf8 and the functions of package strings that the code calls);
--     Base/Maps models a Go map as a list of entries; Base/Results is `(A, error)`.
--   Queue: internal/platform/queue. Queue/Names: queue.go (validName, errorText). Queue/Sql:
--     postgres.go; World has the tables, the state of PgQue and a list of faults, Statements the
--     statements and finishBatch, Transactions and Stored what they leave. Queue/Batch:
--     worker_batch.go (openBatch, runAll, handleBatch, backoff). Queue/Schedule: schedules of
--     worker_lead.go and sendSlot. Queue/Worker: the registrations of worker.go.
--     Queue/Worker/Due: RunDue and Send; Spends and Ends: proofs. Queue/Lead: Run, lead, tickLoop,
--     drain, tryLock and unlock, as the steps (System) of any number of workers; Invariant, Locks and
--     Exclusion: proofs.
--   Web/RateLimit: internal/platform/web/ratelimit.go; Address has the keys of clients.
--   Web/Stream: internal/platform/web/sse.go (Defs), and the functions of static/app.js that read an
--     event stream (Client); Blocks and Chunks: proofs.
--   Web/Recorder: statusRecorder of internal/platform/web/middleware.go.
--   Config: internal/platform/config/config.go; Regions: proofs.
--   App: internal/app/models.go; Served: proofs.
--   Database: internal/platform/database/migrate.go (Migrate); Files, Resume: proofs.
--   Chat: internal/chat (Defs); Shown: what the browser shows in the end.
--   Auth: internal/auth. Table: postgres.go; Service: service.go and middleware.go; Jobs: jobs.go,
--     with worker.go of internal/app; Newest, Older, Kept and Login: proofs.
--   User: internal/user. Table: postgres.go; Password: password.go; Service: service.go; Http:
--     http.go; Accounts and Login: proofs.
--   Note: internal/note. Table: note.go and postgres.go; Service: service.go; Cursors and Http:
--     http.go; Pages, Walk and Owners: proofs.
--   Llm: internal/platform/llm. Router: router.go, also that of internal/platform/systemone; Fake:
--     llm.go and fake.go; Lines, Anthropic and ChatCompletions: the adapters of hosted models, over
--     the lines of a response.
--   Triage: internal/triage. Decide: triage.go and service.go, with the types of
--     internal/platform/systemone; Sound: proofs.
--   The modules Examples hold tests and applications of the theorems.
--
-- How code becomes definitions. A function of the model has the name of the Go function. A method
-- that changes a table takes the rows and gives the rows after it. Fallible code gives an Outcome.
-- What comes from outside is an argument: the clock, the ids and tokens that are generated, random
-- numbers, the fields of a request. In Queue, each statement may work, fail, or work and lose its
-- answer; in the features a flag says that a statement fails. A transaction that fails leaves the
-- tables as they were. Handlers of messages are arbitrary functions that may fail or panic. PgQue,
-- PBKDF2, base64, mail.ParseAddress, strings.ToLower, lower() of PostgreSQL, the formatting of times,
-- the functions of net, net/netip and net/url, JSON and the providers of models are parameters, and
-- what a theorem needs of them is a hypothesis.
--
-- Bounds and fuel. Times and durations are numbers of nanoseconds without an upper bound; the code
-- stays below 2^63. The loop of DeleteExpired has fuel: one more than the number of expired
-- sessions is enough, which a result states. The walk through the pages of notes has fuel likewise.
-- Trimming and counting words take the length of the text as fuel; each step drops a byte at least.
-- A loop of RunDue has fuel: one more than the batches of PgQue is enough, which a result states. The
-- client's loop over a buffer takes the length of the buffer as fuel.
--
-- Not modelled: timers, sleeps and the wake channels of the worker, and the loop that calls
-- handleBatch until the context ends (the order in which workers and the server act is free instead);
-- logging, templates, routing and HTTP itself; the error page and the security headers; fake/uniform
-- and the adapter of typesafe, which are floating-point numbers and JSON; the replacement of invalid
-- UTF-8 by the decoder of the browser. Two requests do not
-- interleave inside one statement or transaction, as in the database.
mod Base
pub mod Web
pub mod Queue
pub mod Auth
pub mod Note
pub mod User
pub mod Llm
pub mod Triage
pub mod Config
pub mod App
pub mod Chat
pub mod Database
