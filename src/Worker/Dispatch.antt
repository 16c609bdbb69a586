-- ===== src/Worker/Dispatch.antt =====
-- A worker of `crates/ppg3-core/src/scheduler.rs` takes a job from the queue, and what holds in every
-- state that a run can reach.
use ppg.Common.{
  ℕ, ◌+◌, ◌≡◌, sym, ap, ◌∙◌, Bool, Option, some, List, [], ◌∷◌, String, ◌==◌, eq_iff, occurrences,
  bit, arith, if◌then◌else◌, ok,
}
use ppg.Table.{Table, get, contains_key, get-insert, insert-DistinctKeys}
use ppg.Table.Count.{count-insert, length-insert}
use ppg.Job.{JobDef}
use ppg.Graph.{validate_and_index}
use ppg.Graph.Accepts.{validate_and_index-IsValid}
use ppg.Scheduler.{State, RunEvent, ready, running, is_running, is_failed, is_terminal, new}
use ppg.Scheduler.Tally.{not_done, unfinished, failures_among, tally-insert_same}
use ppg.Scheduler.Invariant.{Base, parents_of, counts, Inv, new-Inv}
use ppg.Worker.{
  Run, start_job, worker_action, take, Step, dispatched, finished, start_run, Reach, begin, next,
}
use ppg.Worker.Steps.{insert_all-Inserted, restated-Inv, finish_job-Inv}

-- The action names the head of the queue.
pub queue_of_take :
    (aborting : Bool) (s : State) (id : String) (rest : List String)
    → worker_action aborting s ≡ take id rest
    → s.queue ≡ id ∷ rest
unfolding worker_action
queue_of_take aborting s id rest e = ground arith

module _ (s : State) (id : String) (rest : List String) (head : s.queue ≡ id ∷ rest)
    (v : Inv s) where
  head_occurs : (k : String) → occurrences k s.queue ≡ bit (id == k) + occurrences k rest
  unfolding occurrences
  head_occurs k = ap (occurrences k) head

  head_ready : get id s.status ≡ some ready
  head_ready = ground (arith, v.core.queued id, head_occurs id, eq_iff id id)

  abbrev started : State
  started = start_job s id rest

  status_started :
      (k : String) → get k started.status ≡ (if id == k then some running else get k s.status)
  unfolding start_job
  status_started k = get-insert k id running s.status

  unfinished_started : (ps : List String) → unfinished started.status ps ≡ unfinished s.status ps
  unfolding start_job
  unfinished_started ps =
      tally-insert_same not_done id running s.status ps (ground (arith, head_ready))

  failures_started :
      (ps : List String) → failures_among started.status ps ≡ failures_among s.status ps
  unfolding start_job
  failures_started ps =
      tally-insert_same is_failed id running s.status ps (ground (arith, head_ready))

  started-Base : Base started 0
  unfolding start_job contains_key
  started-Base = record {
    same_ids = λ k. ground (arith, v.core.same_ids k, status_started k, eq_iff id k, head_ready);
    distinct = insert-DistinctKeys id running s.status v.core.distinct;
    wired = v.core.wired;
    started = λ c e. ground (
      arith,
      status_started c,
      unfinished_started (parents_of s.jobs c),
      v.core.started c,
      eq_iff id c,
      head_ready,
    );
    queued = λ k.
        ground (arith, v.core.queued k, head_occurs k, status_started k, eq_iff id k, head_ready);
    terminal_count = ground (
      arith,
      v.core.terminal_count,
      head_ready,
      count-insert (counts is_terminal) id running s.status,
    );
    running_count = ground (
      arith,
      v.core.running_count,
      head_ready,
      count-insert (counts is_running) id running s.status,
    );
    total_count = ground (arith, v.core.total_count, head_ready, length-insert id running s.status);
    reported = λ k. ground (arith, v.core.reported k, status_started k, eq_iff id k, head_ready);
    detailed = λ k. ground (arith, v.core.detailed k, status_started k, eq_iff id k, head_ready);
  }

  pub start_job-Inv : Inv started
  unfolding start_job
  start_job-Inv = record {
    core = record {
      base = started-Base;
      waits = λ c p f. rw (unfinished_started (parents_of s.jobs c)) (
          v.core.waits c (ground (arith, status_started c))
            (sym (failures_started (parents_of s.jobs c)) ∙ f));
    };
    no_orphan = λ p c f e.
        ground
          (arith, status_started p, status_started c, v.no_orphan p c, eq_iff id c, head_ready);
  }

pub Step-Inv : (caps : Table ℕ) (r t : Run) → Step caps r t → Inv r.state → Inv t.state
Step-Inv caps r t (dispatched aborting id rest e eq) v =
    rw eq (start_job-Inv r.state id rest (queue_of_take aborting r.state id rest e) v)
Step-Inv caps r t (finished id outcome e eq) v = rw eq (finish_job-Inv caps r id outcome v e)

pub logged_new : (log : Option (List RunEvent)) → Inv (record new { event_log = log })
logged_new log = restated-Inv new new.report new.completed log new-Inv

pub start_Inv :
    (caps : Table ℕ) (jobs : List JobDef) (log : Option (List RunEvent))
    (lease : Option (List String))
    → validate_and_index jobs [] caps ≡ ok tt
    → Inv (start_run jobs log lease).state
start_Inv caps jobs log lease good =
    let v = validate_and_index-IsValid jobs [] caps good in
    let base : Inv (record new { event_log = log }) = logged_new log in
    let (core, orphan, kept, _) =
      insert_all-Inserted jobs (record new { event_log = log }) 0 v.distinct v.fresh base.core
        base.no_orphan in
    record { core = core; no_orphan = orphan }

-- Every state that a run reaches has the invariant.
pub Reach-Inv : (caps : Table ℕ) (jobs : List JobDef) {r : Run} → Reach caps jobs r → Inv r.state
Reach-Inv caps jobs (begin log lease good e) = rw e (start_Inv caps jobs log lease good)
Reach-Inv caps jobs (next {r} {t} reach step) = Step-Inv caps r t step (Reach-Inv caps jobs reach)
