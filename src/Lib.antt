-- ===== src/Lib.antt =====
-- Burnly: a desktop application that collects the token usage of coding agents, reconciles it into
-- a local database, prices it, and uploads daily facts to a cloud account. The application is the
-- Rust crate src-tauri/ with a web front end in src/; this library models the core of
-- src-tauri/src/domain and src-tauri/src/application and proves it correct.
--
-- How the parts interact. A caller asks the refresh coordinator for a refresh
-- (Refresh/Coordinator.antt). It accepts one at a time and runs it on a worker, which goes through a
-- catalog of targets (Refresh/Target.antt). For each it plans a scope from the last successful import
-- (Refresh/Planner.antt, Refresh/RequestPlan.antt), asks a collector for records
-- (Collection/Request.antt), receives a validated result (Collection/Report.antt), fills in missing
-- prices (Pricing/GapFill.antt), reconciles the records, and adds the target's outcome to the
-- outcome of the run (Refresh/Outcome.antt, Refresh/Execution.antt). What daily targets committed becomes
-- an upload scope that is merged into the pending one (CollectSync/Scope.antt), and the exported
-- facts of a scope become batches of contract size (CollectSync/Wire.antt, CollectSync/Batch.antt). A worker
-- (CollectSync/Service) stores the batches of a scope as a generation of the outbox
-- (CollectSync/Store.antt), and pushes the pending ones to the cloud in the order of their revisions;
-- CollectSync/Lifecycle.antt is about when that worker runs. The tray asks for a summary of the stored
-- usage (Usage/TraySummary.antt).
--
-- Which file models which part:
--   Prelude              machine integers, `Result`, `Vec` and `str` operations, `i64` as ℤ
--   Domain/TokenUsage    TokenUsage::new of src-tauri/src/domain/usage.rs
--   Domain/Cost          CurrencyCode::new and the cost types of domain/usage.rs
--   Domain/Source        SourceKey of domain/source.rs
--   Domain/Identity      daily_source_key, session_source_key of domain/identity.rs
--   Collection/Request   application/collection/request.rs and descriptor.rs
--   Collection/Candidate application/collection/candidate.rs
--   Collection/Report    application/collection/result.rs
--   Pricing/Snapshot     PricingSnapshot::find of application/cost/snapshot.rs
--   Pricing/Calculator   calculate_cost, gap_fill_cost of application/cost/calculator.rs
--   Pricing/GapFill      gap_fill_daily, gap_fill_session of calculator.rs
--   Refresh/Planner      application/refresh/planner.rs
--   Refresh/Outcome      application/refresh/outcome.rs, with RefreshStatus of state.rs
--   Refresh/Coordinator  application/refresh/coordinator.rs
--   Refresh/Runs         application/reconciliation/run.rs
--   Refresh/Target       application/refresh/target.rs
--   Refresh/RequestPlan  application/refresh/request_plan.rs
--   Refresh/Execution    application/refresh/execution.rs
--   Reconciliation       infrastructure/database/reconciliation: mapping.rs, daily.rs, resolve_model of
--                        identity.rs and reconcile_daily of store.rs, on tables of migrations/0001_initial.sql
--   CollectSync/Scope    application/collect_sync/scope.rs, CommittedDailyUpload of service.rs
--   CollectSync/Wire     application/collect_sync/dto.rs and export.rs
--   CollectSync/Batch    application/collect_sync/batch.rs
--   CollectSync/Store    the tables and operations of infrastructure/database/collect_sync_store.rs, with
--                        the types of application/ports/collect_sync_store.rs
--   CollectSync/Service  application/collect_sync/service.rs: the worker, its step, the remote errors
--   CollectSync/Lifecycle  the shared fields, `kick` and the threads of service.rs
--   Collectors/UsageFold infrastructure/collectors/deepseek_harness/usage_fold.rs, with the
--                        event types of event_parser.rs
--   Collectors/Protobuf  infrastructure/collectors/antigravity/protobuf_usage.rs, with the record type of
--                        usage_extractor.rs
--   Usage/TraySummary    application/usage/tray_summary.rs; Usage/TraySummary/Query has the dates and
--                        the query
-- The child modules of a file hold its proofs, and the modules named Tests hold runs on concrete data.
--
-- How the code is read. A `u64`, `u32` or `u16` is a natural number with its bound or its wrap-around
-- written out, an `i64` is an integer, and text is its list of code points. A date and an instant are
-- positions in chrono's calendar and on its time line. A `HashMap` is a list of pairs and a `BTreeSet`
-- of texts a list without order. A mutable argument is an argument and a result. A panic is `none`,
-- or `panicked` in the worker. The coordinator's threads are a step relation, one step for each critical
-- section and for each event. The worker's ports answer by arbitrary functions of the calls made so far,
-- so that a theorem holds for every behaviour of the stores, the collectors and the clock.
--
-- Parameters. Floating-point arithmetic (Pricing/Float.antt), chrono's calendar, its printing, its
-- constant dates and its time stamps, `str::from_utf8`, the time-zone database, serde's JSON, SHA-256,
-- the drawing of UUIDs and the ids that SQLite chooses for new rows are parameters. Hypotheses on them
-- stand in the theorems that need them.
--
-- The upload store is a pair of tables; its operations return what they commit, or an error. SQLite
-- may fail in any transaction. The upload worker reads the fields that other threads write as
-- answers of its environment. In CollectSync/Lifecycle/Threads.antt each store to such a field is a
-- step, but for two that the file names, and what a test reads one field after the other need not be
-- what the fields hold together at any moment. A thread that ends gets any answer of
-- `has_work`.
--
-- Fuel. `pieces_from` of CollectSync/Batch/Chunks.antt runs on the length of the list, and each round takes
-- at least one element. `find_field` of Collectors/Protobuf.antt runs on the number of bytes, and each
-- round takes at least one. The loop of the upload worker has no bound in the code: `run_rounds` takes the
-- number of rounds to run, and theorems are about every number.
--
-- What is not modelled: the SQLite stores other than the upload outbox and the daily reconciliation,
-- the collectors' readers and parsers, the cloud and account clients, the tray, the updater, settings, diagnostics, the start-up code, the IPC
-- layer and the front end. The worker of the coordinator is modelled from its first port call to its
-- result; the baseline repair that follows it is not, but for its flag. Scopes that other threads merge
-- into the upload store while its worker runs a step are not modelled.
pub mod Prelude
pub mod Domain
pub mod Collection
pub mod Pricing
pub mod Refresh
pub mod Reconciliation
pub mod CollectSync
pub mod Collectors
pub mod Usage
