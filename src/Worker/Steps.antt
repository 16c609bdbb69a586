-- ===== src/Worker/Steps.antt =====
-- Every step of the workers of `crates/ppg3-core/src/scheduler.rs` keeps the invariant of the running
-- graph.
use ppg.Common.{
  zero_or_pos, ℕ, ◌-◌, ◌<◌, ◌≡◌, refl, ap, ◌∙◌, true, false, Option, none, some, List, [], ◌∷◌,
  ◌++◌, String, eq_iff, elem, arith, inl, inr, String-cases, All,
}
use ppg.Table.{Table, get, insert, contains_key, get-insert}
use ppg.Table.Count.{count, get_of_count_zero}
use ppg.Job.{JobDef}
use ppg.Graph.{validate_and_index, job_ids, index_jobs}
use ppg.Graph.Acyclic.{DistinctIds}
use ppg.Graph.Accepts.{validate_and_index-IsValid}
use ppg.Graph.Answers.{validate_and_index_answers}
use ppg.Scheduler.{
  State, RunReport, RunEvent, CompletedInfo, running, is_running, is_waiting, insert_job,
  complete_success, invalid_expansion,
}
use ppg.Scheduler.Invariant.{Core, counts, NoOrphan, Inv}
use ppg.Scheduler.Finishing.{IsFinishing, complete_success-Inv, fail_job-Inv}
use ppg.Scheduler.Inserting.{insert_job-Core, insert_job-jobs}
use ppg.Worker.{
  Run, JobOutcome, hit, built, in_process_done, graph_expanded, failed, insert_all, emit_finished,
  add_hit, add_built, add_entry, expand, apply_outcome, finish_job,
}

-- Inserting a list of jobs with new, distinct ids.
abbrev pub Inserted : List JobDef → ℕ → State → State → Type 0
Inserted js extra s t =
    Core t [] extra
    × NoOrphan t
    × ((k : String)
        → elem k (job_ids js) ≡ false
        → is_waiting (get k s.status) ≡ false
        → get k t.status ≡ get k s.status)
    × (t.jobs ≡ index_jobs s.jobs js)

still_absent :
    (j : JobDef) (m : Table JobDef) (js : List JobDef)
    → elem j.id (job_ids js) ≡ false
    → All (λ (k : JobDef). contains_key k.id m ≡ false) js
    → All (λ (k : JobDef). contains_key k.id (insert j.id j m) ≡ false) js
unfolding contains_key elem
still_absent j m [] e h = tt
still_absent j m (k ∷ js) e h = (
  ground (arith, get-insert k.id j.id j m, h.0, eq_iff j.id k.id, eq_iff k.id j.id),
  still_absent j m js (ground arith) h.1,
)

pub insert_all-Inserted :
    (js : List JobDef) (s : State) (extra : ℕ)
    → DistinctIds js
    → All (λ (j : JobDef). contains_key j.id s.jobs ≡ false) js
    → Core s [] extra
    → NoOrphan s
    → Inserted js extra s (insert_all js s)
unfolding insert_all index_jobs elem
insert_all-Inserted [] s extra d fresh h o = (h, o, λ k e w. refl, refl)
insert_all-Inserted (j ∷ js) s extra d fresh h o =
    let (h', o', kept) = insert_job-Core s j fresh.0 extra h o in
    let jobs' = insert_job-jobs s j fresh.0 extra h o in
    let fresh' : All (λ (k : JobDef). contains_key k.id (insert_job s j).jobs ≡ false) js =
      rw jobs' (still_absent j s.jobs js d.0 fresh.1) in
    let (h'', o'', kept', jobs'') =
      insert_all-Inserted js (insert_job s j) extra d.1 fresh' h' o' in
    (
      h'',
      o'',
      λ k e w.
          let same : get k (insert_job s j).status ≡ get k s.status =
            kept k (ground (arith, eq_iff j.id k)) w in
          kept' k (ground arith) (ap is_waiting same ∙ w) ∙ same,
      jobs'' ∙ ap (λ m. index_jobs m js) jobs',
    )

-- Changes outside the bookkeeping: the lists of the report, the completed jobs and the log.
abbrev pub restated : State → RunReport → Table CompletedInfo → Option (List RunEvent) → State
restated s report completed log = record s {
  report = record report { failures = s.report.failures; failed_details = s.report.failed_details };
  completed = completed;
  event_log = log;
}

module _ (s : State) (report : RunReport) (completed : Table CompletedInfo)
    (log : Option (List RunEvent)) where
  restated-Core :
      (rest : List String) (extra : ℕ)
      → Core s rest extra
      → Core (restated s report completed log) rest extra
  restated-Core rest extra h = record {
    base = record {
      same_ids = h.same_ids;
      distinct = h.distinct;
      wired = h.wired;
      started = h.started;
      queued = h.queued;
      terminal_count = h.terminal_count;
      running_count = h.running_count;
      total_count = h.total_count;
      reported = h.reported;
      detailed = h.detailed;
    };
    waits = h.waits;
  }

  pub restated-Inv : Inv s → Inv (restated s report completed log)
  restated-Inv v = record { core = restated-Core [] 0 v.core; no_orphan = v.no_orphan }

  restated-IsFinishing :
      (id : String) → IsFinishing s id → IsFinishing (restated s report completed log) id
  restated-IsFinishing id h = record {
    core = restated-Core [] 1 h.core;
    no_orphan = h.no_orphan;
    running_now = h.running_now;
  }

-- A finishing job with new lists completes; the log may grow after it.
completed_Inv :
    (s : State) (id : String) (report : RunReport) (completed : Table CompletedInfo)
    (log : Option (List RunEvent))
    → IsFinishing s id
    → Inv (complete_success (restated s report completed log) id)
completed_Inv s id report completed log h =
    complete_success-Inv (restated s report completed log) id
      (restated-IsFinishing s report completed log id h)

-- The same with the event that follows.
finished_Inv :
    (s : State) (id : String) (outcome : String) (report : RunReport)
    (completed : Table CompletedInfo)
    → IsFinishing s id
    → Inv (emit_finished (complete_success (restated s report completed s.event_log) id) id outcome)
finished_Inv s id outcome report completed h =
    let t : State = complete_success (restated s report completed s.event_log) id in
    restated-Inv t t.report t.completed (emit_finished t id outcome).event_log
      (completed_Inv s id report completed s.event_log h)

-- An id that the graph has is none of the new ones.
old_id :
    (id : String) (m : Table JobDef) (js : List JobDef)
    → contains_key id m ≡ true
    → All (λ (j : JobDef). contains_key j.id m ≡ false) js
    → elem id (job_ids js) ≡ false
unfolding elem
old_id id m [] known fresh = refl
old_id id m (j ∷ js) known fresh = elim (String-cases j.id id) [
  | inl same ↦ absurd (ground (arith, fresh.0, same.0))
  | inr other ↦ ground (arith, other.1, old_id id m js known fresh.1)
]

-- A job that is running was there before, so an insertion leaves it alone.
expanded_IsFinishing :
    (s : State) (id : String) (js : List JobDef)
    → DistinctIds js
    → All (λ (j : JobDef). contains_key j.id s.jobs ≡ false) js
    → IsFinishing s id
    → IsFinishing (insert_all js s) id
expanded_IsFinishing s id js d fresh h =
    let (core, orphan, kept, _) = insert_all-Inserted js s 1 d fresh h.core h.no_orphan in
    let known : contains_key id s.jobs ≡ true =
      h.core.same_ids id ∙ (unfold contains_key in ground (arith, h.running_now)) in
    record {
      core = core;
      no_orphan = orphan;
      running_now =
          kept id (old_id id s.jobs js known fresh) (ground (arith, h.running_now)) ∙ h.running_now;
    }

expand-Inv :
    (pools_cap : Table ℕ) (s : State) (id : String) (js : List JobDef)
    → IsFinishing s id
    → Inv (expand s id js (validate_and_index js s.jobs pools_cap))
unfolding expand
expand-Inv pools_cap s id js h = elim (validate_and_index_answers js s.jobs pools_cap) [
  | inl good ↦
      let v = validate_and_index-IsValid js s.jobs pools_cap good in
      let s' : State = insert_all js s in
      rw good (
        finished_Inv s' id "graph_expanded"
          (record (s'.report) { built = s'.report.built ++ id ∷ [] }) s'.completed
          (expanded_IsFinishing s id js v.distinct v.fresh h))
  | inr (e, bad) ↦ rw bad (fail_job-Inv s id h (invalid_expansion e) none)
]

-- Whatever the outcome of a job, applying it gives the invariant back.
pub apply_outcome-Inv :
    (pools_cap : Table ℕ) (r : Run) (id : String) (outcome : JobOutcome)
    → IsFinishing r.state id
    → Inv (apply_outcome pools_cap r id outcome).state
unfolding apply_outcome
apply_outcome-Inv pools_cap r id (hit ik oh content store_idx) h =
    let s : State = add_entry (add_hit r.state id) id ik oh content store_idx in
    finished_Inv r.state id "hit" s.report s.completed h
apply_outcome-Inv pools_cap r id (built ik oh content store_idx) h =
    let s : State = add_entry (add_built r.state id) id ik oh content store_idx in
    finished_Inv r.state id "built" s.report s.completed h
apply_outcome-Inv pools_cap r id in_process_done h =
    finished_Inv r.state id "inprocess" (add_built r.state id).report r.state.completed h
apply_outcome-Inv pools_cap r id (graph_expanded new_jobs) h =
    expand-Inv pools_cap r.state id new_jobs h
apply_outcome-Inv pools_cap r id (failed reason detail) h = fail_job-Inv r.state id h reason detail

-- Taking the lock again, a worker takes its job out of flight.
pub finish_IsFinishing :
    (s : State) (id : String)
    → Inv s
    → get id s.status ≡ some running
    → IsFinishing (record s { in_flight = s.in_flight - 1 }) id
finish_IsFinishing s id v e =
    let some_running : 0 < count (counts is_running) s.status =
      elim (zero_or_pos (count (counts is_running) s.status)) [
        | inl z ↦
            absurd (ground (arith, get_of_count_zero (counts is_running) id running s.status z e))
        | inr pos ↦ pos
      ] in
    record {
      core = record {
        base = record {
          same_ids = v.core.same_ids;
          distinct = v.core.distinct;
          wired = v.core.wired;
          started = v.core.started;
          queued = v.core.queued;
          terminal_count = v.core.terminal_count;
          running_count = omega (arith, v.core.running_count, some_running);
          total_count = v.core.total_count;
          reported = v.core.reported;
          detailed = v.core.detailed;
        };
        waits = v.core.waits;
      };
      no_orphan = v.no_orphan;
      running_now = e;
    }

pub finish_job-Inv :
    (pools_cap : Table ℕ) (r : Run) (id : String) (outcome : JobOutcome)
    → Inv r.state
    → get id r.state.status ≡ some running
    → Inv (finish_job pools_cap r id outcome).state
unfolding finish_job
finish_job-Inv pools_cap r id outcome v e =
    apply_outcome-Inv pools_cap
      (record r { state = record (r.state) { in_flight = r.state.in_flight - 1 } }) id outcome
      (finish_IsFinishing r.state id v e)
