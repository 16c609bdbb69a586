-- ===== src/Worker.antt =====
-- The workers of `crates/ppg3-core/src/scheduler.rs`: what a worker does when it holds the lock, how the
-- outcome of a job is applied, and the runs that result, as a relation between states.
-- A job's own work (`dispatch_job`: store, executor, callbacks) runs outside the lock, and its
-- outcome is any value of `JobOutcome`. The order in which the workers take the lock is the order of
-- the steps. The lease's file is the list of the entries that it protects; a failed write of it is
-- ignored by the code and left out here.
use ppg.Common.{
  ℕ, zero, suc, ◌+◌, ◌-◌, ◌≡◌, Bool, true, false, ◌&&◌, ◌||◌, Option, none, some, List, [], ◌∷◌,
  ◌++◌, String, elem, if◌then◌else◌, leb, ◌=ℕ◌, Outcome, ok, err, panicked, GraphError, not,
}
use ppg.Table.{Table, get, insert}
use ppg.Job.{JobDef}
use ppg.Graph.{validate_and_index}
use ppg.Scheduler.{
  State, Status, ready, running, ContentEntry, CompletedInfo, Reason, invalid_expansion, message,
  FailedJob, RunEvent, job_started, job_finished, new, emit_event, insert_job, complete_success,
  fail_job,
}
pub mod Steps
pub mod Dispatch
pub mod Ranks
pub mod Progress
pub mod Safety
pub mod Samples

pub data JobOutcome : Type 0 where
  hit : String → String → Table ContentEntry → ℕ → JobOutcome
  built : String → String → Table ContentEntry → ℕ → JobOutcome
  in_process_done : JobOutcome
  graph_expanded : List JobDef → JobOutcome
  failed : Reason → Option FailedJob → JobOutcome

-- The state behind the mutex, and what the run's lease protects, if the run has a lease.
pub record Run : Type 0 where
  pub state : State
  pub lease : Option (List String)

-- `Lease::protect`, an entry at most once.
abbrev pub protect : String → Option (List String) → Option (List String)
protect oh none = none
protect oh (some ohs) = some (if elem oh ohs then ohs else ohs ++ oh ∷ [])

unfoldable pub insert_all : List JobDef → State → State
insert_all [] s = s
insert_all (j ∷ js) s = insert_all js (insert_job s j)

abbrev pub emit_finished : State → String → String → State
emit_finished s id outcome = emit_event s (job_finished id outcome s.total_jobs)

abbrev pub add_hit : State → String → State
add_hit s id = record s { report = record (s.report) { hits = s.report.hits ++ id ∷ [] } }

abbrev pub add_built : State → String → State
add_built s id = record s { report = record (s.report) { built = s.report.built ++ id ∷ [] } }

-- `job_entries` and `completed` for a job with a store entry.
abbrev pub add_entry : State → String → String → String → Table ContentEntry → ℕ → State
add_entry s id ik oh content store_idx = record s {
  report = record (s.report) { job_entries = insert id (ik, oh) s.report.job_entries };
  completed = insert id (record { oh = oh; content = content; store_idx = store_idx }) s.completed;
}

-- The verdict on an expansion. A panic of the validation does not happen (`validate_and_index`
-- always answers).
unfoldable pub expand : State → String → List JobDef → Outcome (Unit {0}) → State
expand s id new_jobs (ok _) =
    emit_finished (complete_success (add_built (insert_all new_jobs s) id) id) id "graph_expanded"
expand s id new_jobs (err e) = fail_job s id (invalid_expansion e) none
expand s id new_jobs panicked = s

unfoldable pub apply_outcome : Table ℕ → Run → String → JobOutcome → Run
unfolding expand insert_all
apply_outcome pools_cap r id (hit ik oh content store_idx) = record {
  state =
      emit_finished
        (complete_success (add_entry (add_hit r.state id) id ik oh content store_idx) id) id "hit";
  lease = protect oh r.lease;
}
apply_outcome pools_cap r id (built ik oh content store_idx) = record {
  state =
      emit_finished
        (complete_success (add_entry (add_built r.state id) id ik oh content store_idx) id) id
        "built";
  lease = protect oh r.lease;
}
apply_outcome pools_cap r id in_process_done = record r {
  state = emit_finished (complete_success (add_built r.state id) id) id "inprocess";
}
apply_outcome pools_cap r id (graph_expanded new_jobs) = record r {
  state = expand r.state id new_jobs (validate_and_index new_jobs r.state.jobs pools_cap);
}
apply_outcome pools_cap r id (failed reason detail) = record r {
  state = fail_job r.state id reason detail;
}

-- What a worker does when it has the lock.
pub data Action : Type 0 where
  leave wait : Action
  take : String → List String → Action

abbrev pub is_finished : State → Bool
is_finished s = leb s.total_jobs s.terminal && s.in_flight =ℕ 0

abbrev take_first : List String → Action
take_first [] = wait
take_first (id ∷ rest) = take id rest

unfoldable pub worker_action : Bool → State → Action
worker_action aborting s =
    if is_finished s || (aborting && s.in_flight =ℕ 0)
    then leave
    else if not aborting
    then take_first s.queue
    else wait

-- The job at the head of the queue is dispatched.
unfoldable pub start_job : State → String → List String → State
start_job s id rest =
    emit_event
      (record s { queue = rest; status = insert id running s.status; in_flight = s.in_flight + 1 })
      (job_started id)

-- The worker has the lock again, with the outcome of its job.
unfoldable pub finish_job : Table ℕ → Run → String → JobOutcome → Run
unfolding apply_outcome
finish_job pools_cap r id outcome =
    apply_outcome pools_cap
      (record r { state = record (r.state) { in_flight = r.state.in_flight - 1 } }) id outcome

-- The steps of a run: a worker takes a job, or a worker brings the outcome of its job.
pub data Step (pools_cap : Table ℕ) (r t : Run) : Type 0 where
  dispatched :
      (aborting : Bool) (id : String) (rest : List String)
      → worker_action aborting r.state ≡ take id rest
      → t ≡ record r { state = start_job r.state id rest }
      → Step pools_cap r t
  finished :
      (id : String) (outcome : JobOutcome)
      → get id r.state.status ≡ some running
      → t ≡ finish_job pools_cap r id outcome
      → Step pools_cap r t

abbrev pub start_run : List JobDef → Option (List RunEvent) → Option (List String) → Run
start_run jobs log lease = record {
  state = insert_all jobs (record new { event_log = log });
  lease = lease;
}

-- What a run can reach from a graph that the validation accepts.
pub data Reach (pools_cap : Table ℕ) (jobs : List JobDef) : Run → Type 0 where
  begin :
      (log : Option (List RunEvent)) (lease : Option (List String))
      → validate_and_index jobs [] pools_cap ≡ ok tt
      → {r : Run} → r ≡ start_run jobs log lease
      → Reach pools_cap jobs r
  next : {r t : Run} → Reach pools_cap jobs r → Step pools_cap r t → Reach pools_cap jobs t
