-- ===== src/Lib.antt =====
-- Verification library of ppg3's core, the crate `crates/ppg3-core`.
--
-- ppg3 runs graphs of jobs whose outputs stand in a content-addressed store. The scheduler
-- (`crates/ppg3-core/src/scheduler.rs`) validates a graph, loads it into a state behind a mutex, and
-- lets worker threads take ready jobs, run them outside the lock and apply their outcomes. An
-- outcome wakes the dependents of a job, spreads its failure, or merges the jobs that it has
-- generated into the running graph. The jobs share named resource pools
-- (`crates/ppg3-core/src/resources.rs`), whose capacities the validation looks at.
--
-- - Common: Boolean tests on numbers, list helpers, graph errors, and `Outcome`, the result of code
--   that returns, fails or panics.
-- - Table: maps as association lists with an entry for each key (`BTreeMap` and `HashMap`); Table/Count
--   counts entries.
-- - Job: `JobDef`, `InputRef`, `ExecTemplate`, `Retain` and `parent_ids` of `scheduler.rs`.
-- - Graph: `validate_and_index` and `detect_cycle`. The modules below it hold the edges that the code
--   collects (Links), the invariant of Kahn's loop (Kahn), acyclicity as a ranking (Acyclic), the
--   verdict on cycles (Verdict), and what a valid graph is (Valid, Accepts, Answers).
-- - Scheduler: `State` with `insert_job`, `mark_ready_if_pending`, `complete_success` and `fail_job`. Its
--   modules hold counts over parents (Tally), the invariant (Invariant), and what each function
--   does to it (Failing, Cascade, Marking, Waking, Finishing, Wires, Inserting).
-- - Worker: what `worker_loop` does under the lock, `apply_outcome`, and a run as a relation `Step`
--   between states with its closure `Reach`. Its modules prove the invariant of all runs (Steps,
--   Dispatch), a ranking of the running graph (Ranks), progress (Progress) and what holds of every
--   reachable state (Safety).
-- - Argv: `lower_argv`, `lower_token` and `resolve_placeholder`, of the part of `scheduler.rs` that
--   prepares a job; Argv/Templates reads a text as pieces around placeholders.
-- - Files: the files of an output, how they are hashed, and how they lose their write bits (`store.rs`).
-- - Disk: the directories of a store as maps, with their sizes and roots (`crates/ppg3-core/src/store.rs`).
-- - Store: lookup, publishing, roots, pins and the check of an entry (`store.rs`), over a disk.
-- - Gc: a run of the garbage collection (`crates/ppg3-core/src/gc.rs`) over a disk: Debris, Entries and Run
--   are the code, Phases what the phases keep, and the others what a run does.
-- - Lease: leases and intents (`crates/ppg3-core/src/lease.rs`); Lease/Protected joins them with Gc.
-- - StoreSet: several stores in their order (`crates/ppg3-core/src/storeset.rs`).
-- - Keys: `derive_key`, `build_env` and `missing_declared_outputs` of `scheduler.rs`.
-- - Canon: canonical JSON (`crates/ppg3-core/src/canon.rs`): Utf8, Text and Value are the validator,
--   Canonicalize is `canonicalize` and `input_key`, Grammar what a canonical document is. A position
--   is the bytes that are left; an offset in a message is left out.
-- - Pools: `Pools` and `Guard`; Pools/Threads runs any sequence of the calls, wake-ups and drops of
--   several threads.
--
-- The state behind a mutex is an argument and a result; a run's interleaving is the order of its
-- steps. Fields keep their names, but for `State::ready` (`queue`), `State::running` (`in_flight`) and
-- `RunReport::failed` (`failures`), whose names are those of constructors here.
--
-- Fuel: Kahn's loop (`visit`) has one unit more than there are jobs, since each job enters the queue at
-- most once; `fail_job` has one unit more than there are statuses, since each call below another
-- finds a job that had not ended and ends it; the loop of `lower_token` has one unit more than the
-- text has characters, since each round consumes two braces; `validate` has one unit more than twice
-- the document's bytes, since each loop takes two units for a byte. Amounts of a pool are `u64`, with a
-- panic where a sum or a difference leaves the type; the counters of the state are not bounded.
--
-- Parameters of Store, Canon and Keys: the hash `blake3_hex` (the crate `blake3`) and the bytes that
-- `serde_json` writes (in Store, of a content map). Calls of the file system do not fail; a
-- file's time and size are data of the disk. A garbage collection reads the clock anew for each file, at any times. No publisher dies
-- between its steps, so that the `chmod` of an entry that is there already changes nothing and is left
-- out. A violation's record is named by its key alone.
--
-- Not modelled: what a job does while it runs (`dispatch_job`: its calls of the store, the executor
-- and the callbacks), which is any outcome here; the views, explanations and the command line;
-- subdirectories and links among the files, file contents, the access rights of directories;
-- timestamps, the JSON form of the event log and its first and last event.
pub mod Common
pub mod Table
pub mod Pools
pub mod Job
pub mod Graph
pub mod Scheduler
pub mod Worker
pub mod Argv
pub mod Files
pub mod Disk
pub mod Gc
pub mod Store
pub mod Lease
pub mod StoreSet
pub mod Canon
pub mod Keys
