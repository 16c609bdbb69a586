-- ===== src/Scheduler/Finishing.antt =====
-- The two ways in which a running job ends (`crates/ppg3-core/src/scheduler.rs`): `complete_success`
-- and `fail_job` take the state between a run and its outcome back to the invariant.
use ppg.Common.{
  ◌+◌, ◌<◌, ◌≡◌, refl, ap, ◌∙◌, Option, some, List, [], String, ◌==◌, eq_iff, occurrences, arith,
  if◌then◌else◌,
}
use ppg.Table.{get, insert, contains_key, get-insert, insert-DistinctKeys}
use ppg.Table.Count.{count-insert, length-insert}
use ppg.Graph.{children}
use ppg.Scheduler.{
  State, Reason, FailedJob, running, done, is_running, is_failed, is_terminal, complete_success,
  fail_job,
}
use ppg.Scheduler.Tally.{not_done, unfinished, failures_among, tally-insert_same, tally-insert_drop}
use ppg.Scheduler.Invariant.{Base, Core, parents_of, counts, NoOrphan, Inv}
use ppg.Scheduler.Cascade.{Falls, fail_job-Falls, Falls-NoOrphan}
use ppg.Scheduler.Waking.{wake_children-Core}

-- A job has run and is no longer in flight, and its outcome is still to be applied.
pub record IsFinishing (s : State) (id : String) : Type 0 where
  pub core : Core s [] 1
  pub no_orphan : NoOrphan s
  pub running_now : get id s.status ≡ some running

module _ (s : State) (id : String) (h : IsFinishing s id) where
  finished : State
  finished = record s { status = insert id done s.status; terminal = s.terminal + 1 }

  status_finished :
      (k : String) → get k finished.status ≡ (if id == k then some done else get k s.status)
  unfolding finished
  status_finished k = get-insert k id done s.status

  failures_finished :
      (ps : List String) → failures_among finished.status ps ≡ failures_among s.status ps
  unfolding finished
  failures_finished ps =
      tally-insert_same is_failed id done s.status ps (ground (arith, h.running_now))

  unfinished_finished :
      (ps : List String)
      → unfinished s.status ps ≡ unfinished finished.status ps + occurrences id ps
  unfolding finished
  unfinished_finished ps =
      tally-insert_drop not_done id done s.status ps (ground (arith, h.running_now)) refl

  finished-Base : Base finished 0
  unfolding finished contains_key
  finished-Base = record {
    same_ids =
        λ k. ground (arith, h.core.same_ids k, status_finished k, eq_iff id k, h.running_now);
    distinct = insert-DistinctKeys id done s.status h.core.distinct;
    wired = h.core.wired;
    started = λ c e. ground (
      arith,
      status_finished c,
      unfinished_finished (parents_of s.jobs c),
      h.core.started c,
      h.running_now,
      eq_iff id c,
    );
    queued = λ k. ground (arith, h.core.queued k, status_finished k, eq_iff id k, h.running_now);
    terminal_count = ground (
      arith,
      h.core.terminal_count,
      h.running_now,
      count-insert (counts is_terminal) id done s.status,
    );
    running_count = ground (
      arith,
      h.core.running_count,
      h.running_now,
      count-insert (counts is_running) id done s.status,
    );
    total_count = ground (arith, h.core.total_count, h.running_now, length-insert id done s.status);
    reported =
        λ k. ground (arith, h.core.reported k, status_finished k, eq_iff id k, h.running_now);
    detailed =
        λ k. ground (arith, h.core.detailed k, status_finished k, eq_iff id k, h.running_now);
  }

  finished-Core : Core finished (children id s.dependents) 0
  unfolding finished occurrences
  finished-Core = record {
    base = finished-Base;
    waits = λ c p f.
        let before : (get c s.remaining_parents
              ≡ some (unfinished s.status (parents_of s.jobs c) + 0))
            × (0 < unfinished s.status (parents_of s.jobs c) + 0) =
          h.core.waits c (ground (arith, status_finished c))
            (omega (arith, failures_finished (parents_of s.jobs c))) in
        let same : unfinished s.status (parents_of s.jobs c) + 0
            ≡ unfinished finished.status (parents_of s.jobs c)
              + occurrences c (children id s.dependents) =
          omega (arith, unfinished_finished (parents_of s.jobs c), h.core.wired id c) in
        (before.0 ∙ ap some same, omega (arith, same, before.1));
  }

  finished-NoOrphan : NoOrphan finished
  unfolding finished
  finished-NoOrphan p c f e =
      ground
        (arith, status_finished p, status_finished c, h.no_orphan p c, h.running_now, eq_iff id c)

  -- A job that ends well is done, and the jobs that waited for it alone are ready.
  pub complete_success-Inv : Inv (complete_success s id)
  unfolding complete_success finished
  complete_success-Inv =
      let (core, o) =
        wake_children-Core (children id s.dependents) finished 0 finished-Core finished-NoOrphan in
      record { core = core; no_orphan = o }

  -- A job that fails is failed, and so is every job that waits for it, directly or not.
  pub fail_job-Inv :
      (reason : Reason) (detail : Option FailedJob) → Inv (fail_job s id reason detail)
  fail_job-Inv reason detail =
      let falls : Falls [] 0 s id (fail_job s id reason detail) =
        fail_job-Falls [] 0 s id reason detail running h.running_now refl h.core in
      record {
        core = falls.0;
        no_orphan =
            Falls-NoOrphan [] 0 s id (fail_job s id reason detail) falls
              (λ p c ne. h.no_orphan p c);
      }
