-- ===== src/Lib.antt =====
-- The parliament worker (worker/src/parliament_worker), its durable state: the store of the graph
-- factory (graphrag/store.py and its parts), the ledger of reviews and model costs (review.py) and
-- the outbox of mail (mail_db.py).
--
-- The store is one SQLite database with three groups of tables. The factory loads source documents
-- as revisions (Sources), enqueues inference requests for them (Jobs), workers claim these under
-- leases and release them with results (Jobs, Job), and derived results are kept as versioned
-- artifacts (Artifacts). Before any HTTP call a wave of claimed jobs is reserved against the limits
-- of the factory (Execution); what the server answers is saved in one step (Receipts), a failed call
-- is put off, and a request of unknown acceptance pauses the factory until it is found (Recovery).
-- What depends on sources that have changed is found (Index) and retired together with its jobs
-- (Retirement). Questions are answered by batches of selections (Selection), whose newest attempts
-- count (Questions). The ledger bounds what a person approves in a day and what the model may cost in
-- a month (Ledger). Messages to users are queued by another service and sent by the worker, one
-- attempt each (Mail).
--
-- Base: tests on numbers and text, lists, the result of a call that may raise, tables as lists of
--   rows in insertion order with `UPDATE … WHERE`.
-- Value: store_schema.py, JSON values, labels, clock readings, the refusal of credentials.
-- States: store_schema.py, the state machine of a job (STATES, RUNNABLE, TRANSITIONS).
-- Job: store_schema.py, the job record, updated_job, require_lease and job_priority; store.py,
--   GraphStore._due.
-- Jobs: store.py (enqueue, enqueue_many, get_job, jobs, pending, update_job, claim, release,
--   checkpoint, update_leased), store_leases.py (renew_leases), store_bulk.py (its jobs).
-- Sources: store.py (put_source, put_sources, retire_source, sources, source_current,
--   observations), and in Sources/Observations source_observations.py.
-- Artifacts: store.py (put_artifact, get_artifact, artifacts, invalidate_artifact,
--   artifact_versions), store_bulk.py (stored_artifact_versions and its artifacts).
-- Retirement: store_bulk.py, retire_results.
-- Transactions: store_transactions.py, and GraphStore.batch of store.py: the transactions and the
--   savepoints that the operations above run in.
-- Status: status.py, summarize_latest and failed_keys_pending_recovery.
-- Packing: graphrag/job_codec.py, encode_job and decode_job: the text of a job in its row.
-- Selection: graphrag/claim_selection.py, selection_batches (and _batches of reduction.py) and, in
--   Selection/Choice, materialize_selection.
-- Questions: graphrag/question_jobs.py.
-- Index: graphrag/index.py, what is current (dependencies_current, routing_current,
--   children_current) and reconcile; in Index/Snapshot select_snapshot_artifacts.
-- Execution: graphrag/engine.py, the guards of Factory and _reservation; in Execution/Wave
--   execution.py, _prepare with _checkpoint_before_http and pause_unknown_acceptance of recovery.py;
--   in Execution/Deferral _error_fields and _inference_error.
-- Receipts: graphrag/receipts.py, save_receipts.
-- Recovery: graphrag/recovery.py, defer_, recover_ and drain_unknown_acceptance.
-- Ledger: review.py, ReviewLedger.
-- Mail: mail_db.py, MySqlMailOutbox (_locked, _eligible, _status, _prepare; in Mail/Delivery
--   _deliver, pending and run), and mail.py, PrivateSpool.write.
--
-- Each operation is the body of its transaction on the tables that it reads and writes: its result is
-- the new tables, or the error that it raises, after which the database is what it was, since the
-- transaction is rolled back. A `UNIQUE` constraint is an invariant of the tables. What a call
-- returns besides the tables stands before them in a pair.
--
-- Times are counts of one tick since the epoch; a reading that is handed in may also be negative or
-- not finite. Numbers in JSON values are integers, and
-- Python's == of decoded values holds True and 1 for equal (Value.equals). An object is its fields in
-- the order of the sorted keys of its canonical JSON, so that equality of canonical texts is equality of values. Amounts of
-- money are counts of one smallest unit, and a measured cost has its decimal text too.
-- Python's sort of the jobs is an insertion sort by the same
-- key, which is stable as well. Loops over a list are recursion on it, so that no fuel is needed;
-- the ten levels of children in Index/Snapshot are the code's own bound.
--
-- Parameters, which stand for code that is not this repository's: `digest` for SHA-256 over canonical
-- JSON, `json_bytes` for the length of a job's canonical JSON in UTF-8, `time` for the clock, `to_utc`
-- for the parser of ISO times (none for no time, some none for one without a zone). In Mail the
-- services `token_of`, `utc`, `sha256`, `compose` and `canonical_uuid` stand for the link, time, hash,
-- MIME text and parsed id of a message, which mail.py computes with Python's
-- parsers and email package. In Transactions the
-- content of the database is any type, with the length of its file. In Packing the JSON, zlib and
-- base64 libraries are functions whose documented behaviour is a hypothesis where it is needed; in
-- Selection `fits` says whether the request of a batch can be built, and `host_of` is the URL parser.
-- In Index `fingerprint` is SHA-256 of a JSON value. In Execution `second` is the number of ticks in
-- a second and `day` the UTC day of the moment. In Recovery a pass brings the client's answers and the
-- readings of the clock.
--
-- A job's metadata and an artifact's dependency are JSON objects, as every caller writes them; what
-- Python raises on other values of a context is an error of the model. In Execution a counter that
-- may go below zero is a pair of counts, and an operation of several transactions keeps what the
-- committed ones have written when a later one raises. reconcile, which reads in transactions of
-- their own before the one that retires, is one step in Index: the run without another write between.
--
-- Not modelled: SQLite, files and locks below a transaction, read-only transactions, the thread pool
-- of execute_tick and HTTP, prompts, the planning of extractions and communities, the adapters that
-- collect documents, the rendering of mail, and the command lines.
pub mod Base
pub mod Value
pub mod States
pub mod Job
pub mod Jobs
pub mod Sources
pub mod Artifacts
pub mod Retirement
pub mod Ledger
pub mod Mail
pub mod Packing
pub mod Questions
pub mod Index
pub mod Execution
pub mod Recovery
pub mod Receipts
pub mod Selection
pub mod Status
pub mod Transactions
