-- ===== src/Scheduler.antt =====
-- The running graph of `crates/ppg3-core/src/scheduler.rs`: its state, and the functions that insert
-- a job, mark it ready, complete it and fail it. The state behind the mutex is an argument and the
-- result of each function. `fail_job` recurs on fuel, one unit more than the graph has jobs.
-- Reasons are kept as the data that their texts are formatted from. The event log is the list of
-- events written, `none` where the run has no log; the timestamps are left out.
use ppg.Common.{
  ℕ, zero, suc, ◌+◌, ◌-◌, ◌≡◌, Bool, true, false, not, Option, none, some, List, [], ◌∷◌, ◌++◌,
  String, ◌==◌, if◌then◌else◌, ltb, ◌=ℕ◌, GraphError, length,
}
use ppg.Table.{Table, get, insert}
use ppg.Job.{JobDef, parent_ids}
use ppg.Graph.{children}
pub mod Tally
pub mod Invariant
pub mod Failing
pub mod Cascade
pub mod Marking
pub mod Waking
pub mod Finishing
pub mod Wires
pub mod Inserting

pub data Status : Type 0 where
  pending ready running done failed : Status

pub record ContentEntry : Type 0 where
  pub blake3 : String
  pub mode : String
  pub size : ℕ

pub record CompletedInfo : Type 0 where
  pub oh : String
  pub content : Table ContentEntry
  pub store_idx : ℕ

pub data Reason : Type 0 where
  upstream_failed : String → Reason
  invalid_expansion : GraphError → Reason
  message : String → Reason

-- `exit_code` and `runtime_ms` are kept as their texts.
pub record FailedJob : Type 0 where
  pub reason : Reason
  pub log_dir : Option String
  pub failure_log : Option String
  pub exit_code : Option String
  pub out_dir : Option String
  pub runtime_ms : Option String
  pub missing_outputs : List String

pub data RunEvent : Type 0 where
  job_started : String → RunEvent
  job_finished : String → String → ℕ → RunEvent
  job_failed : String → Reason → FailedJob → ℕ → RunEvent

pub record RunReport : Type 0 where
  pub built : List String
  pub hits : List String
  pub failures : Table Reason
  pub failed_details : Table FailedJob
  pub job_entries : Table (String × String)

pub record State : Type 0 where
  pub jobs : Table JobDef
  pub status : Table Status
  pub dependents : Table (List String)
  pub remaining_parents : Table ℕ
  pub queue : List String
  pub completed : Table CompletedInfo
  pub report : RunReport
  pub total_jobs : ℕ
  pub in_flight : ℕ
  pub terminal : ℕ
  pub event_log : Option (List RunEvent)

abbrev pub empty_report : RunReport
empty_report = record {
  built = [];
  hits = [];
  failures = [];
  failed_details = [];
  job_entries = [];
}

abbrev pub new : State
new = record {
  jobs = [];
  status = [];
  dependents = [];
  remaining_parents = [];
  queue = [];
  completed = [];
  report = empty_report;
  total_jobs = 0;
  in_flight = 0;
  terminal = 0;
  event_log = none;
}

-- Tests on what a status map holds for an id.
abbrev pub is_pending : Option Status → Bool
is_pending (some pending) = true
is_pending _ = false

abbrev pub is_ready : Option Status → Bool
is_ready (some ready) = true
is_ready _ = false

abbrev pub is_running : Option Status → Bool
is_running (some running) = true
is_running _ = false

abbrev pub is_done : Option Status → Bool
is_done (some done) = true
is_done _ = false

abbrev pub is_failed : Option Status → Bool
is_failed (some failed) = true
is_failed _ = false

-- `Some(Done) | Some(Failed)`
abbrev pub is_terminal : Option Status → Bool
is_terminal (some done) = true
is_terminal (some failed) = true
is_terminal _ = false

-- `Some(Pending) | Some(Ready)`
abbrev pub is_waiting : Option Status → Bool
is_waiting (some pending) = true
is_waiting (some ready) = true
is_waiting _ = false

abbrev pub emit_event : State → RunEvent → State
emit_event s event = record s {
  event_log = elim s.event_log [ none ↦ none | some log ↦ some (log ++ event ∷ []) ];
}

unfoldable pub mark_ready_if_pending : State → String → State
mark_ready_if_pending s id =
    if is_pending (get id s.status)
    then record s { status = insert id ready s.status; queue = s.queue ++ id ∷ [] }
    else s

-- `ready.retain(|x| x != id)`
unfoldable pub without : String → List String → List String
without id [] = []
without id (x ∷ xs) = let rest = without id xs in if x == id then rest else x ∷ rest

abbrev pub bare_detail : Reason → FailedJob
bare_detail reason = record {
  reason = reason;
  log_dir = none;
  failure_log = none;
  exit_code = none;
  out_dir = none;
  runtime_ms = none;
  missing_outputs = [];
}

abbrev pub detail_or : Reason → Option FailedJob → FailedJob
detail_or reason none = bare_detail reason
detail_or reason (some d) = d

-- The body of `fail_job` above its loop.
unfoldable pub set_failed : State → String → Reason → Option FailedJob → State
unfolding without
set_failed s id reason detail =
    let d = detail_or reason detail in
    let s' =
      emit_event (record s { status = insert id failed s.status })
        (job_failed id reason d s.total_jobs) in
    record s' {
      report = record (s'.report) {
        failures = insert id reason s.report.failures;
        failed_details = insert id d s.report.failed_details;
      };
      terminal = s.terminal + 1;
      queue = without id s.queue;
    }

-- The loop over the dependents; `fail` is the recursive call.
unfoldable pub fail_children : (State → String → State) → List String → State → State
fail_children fail [] s = s
fail_children fail (c ∷ cs) s =
    fail_children fail cs (elim (is_waiting (get c s.status)) [ true ↦ fail s c | false ↦ s ])

unfoldable pub fail_within : ℕ → State → String → Reason → Option FailedJob → State
unfolding set_failed fail_children
fail_within zero s id reason detail = s
fail_within (suc fuel) s id reason detail = elim (is_terminal (get id s.status)) [
  | true ↦ s
  | false ↦
      fail_children (λ t c. fail_within fuel t c (upstream_failed id) none)
        (children id s.dependents) (set_failed s id reason detail)
]

unfoldable pub fail_job : State → String → Reason → Option FailedJob → State
unfolding fail_within
fail_job s id reason detail = fail_within (suc (length s.status)) s id reason detail

-- The parents that a new job waits for, the first that has failed, and the new dependents.
pub record Wiring : Type 0 where
  pub remaining : ℕ
  pub failed_parent : Option String
  pub dependents : Table (List String)

abbrev pub first_failed : Option String → String → Option String
first_failed none p = some p
first_failed (some q) p = some q

abbrev pub wire_status : Wiring → String → Option Status → Wiring
wire_status w p (some done) = w
wire_status w p (some failed) = record w { failed_parent = first_failed w.failed_parent p }
wire_status w p _ = record w { remaining = w.remaining + 1 }

unfoldable pub wire_parent : Table Status → String → Wiring → String → Wiring
wire_parent status id w p =
    let w' = wire_status w p (get p status) in
    record w' { dependents = insert p (children p w'.dependents ++ id ∷ []) w'.dependents }

unfoldable pub wire_parents : Table Status → String → List String → Wiring → Wiring
unfolding wire_parent
wire_parents status id [] w = w
wire_parents status id (p ∷ ps) w = wire_parents status id ps (wire_parent status id w p)

-- The job as it stands in the maps before it is marked.
unfoldable pub add_job : State → JobDef → Wiring → State
add_job s j w = record s {
  dependents = w.dependents;
  jobs = insert j.id j s.jobs;
  remaining_parents = insert j.id w.remaining s.remaining_parents;
  status = insert j.id pending s.status;
  total_jobs = s.total_jobs + 1;
}

unfoldable pub insert_job : State → JobDef → State
unfolding wire_parents add_job fail_job mark_ready_if_pending
insert_job s j =
    let w =
      wire_parents s.status j.id (parent_ids j)
        (record { remaining = 0; failed_parent = none; dependents = s.dependents }) in
    elim w.failed_parent [
      | some fp ↦ fail_job (add_job s j w) j.id (upstream_failed fp) none
      | none ↦
          if w.remaining =ℕ 0 then mark_ready_if_pending (add_job s j w) j.id else add_job s j w
    ]

-- One dependent of a job that has completed.
unfoldable pub wake_child : State → String → State
unfolding mark_ready_if_pending
wake_child s c = elim (get c s.remaining_parents) [
  | none ↦ s
  | some rem ↦
      let left = if ltb 0 rem then rem - 1 else rem in
      let s' = record s { remaining_parents = insert c left s.remaining_parents } in
      if left =ℕ 0 then mark_ready_if_pending s' c else s'
]

unfoldable pub wake_children : List String → State → State
unfolding wake_child
wake_children [] s = s
wake_children (c ∷ cs) s = wake_children cs (wake_child s c)

unfoldable pub complete_success : State → String → State
unfolding wake_children
complete_success s id =
    wake_children (children id s.dependents)
      (record s { status = insert id done s.status; terminal = s.terminal + 1 })
