-- ===== src/Scheduler/Invariant.antt =====
-- What holds of the running graph of `crates/ppg3-core/src/scheduler.rs` between its operations.
use ppg.Common.{
  ℕ, ◌+◌, ◌<◌, ◌≡◌, refl, Bool, true, false, Option, none, some, List, [], String, occurrences, bit,
  length, arith,
}
use ppg.Table.{Table, get, contains_key, DistinctKeys}
use ppg.Table.Count.{count}
use ppg.Job.{JobDef, parent_ids}
use ppg.Graph.{children}
use ppg.Scheduler.{
  State, Status, new, ready, running, done, is_pending, is_ready, is_running, is_failed,
  is_terminal, is_waiting,
}
use ppg.Scheduler.Tally.{unfinished, failures_among}

-- The parents that the inputs of a job name, none for an id that is no job.
abbrev pub parents_of : Table JobDef → String → List String
parents_of jobs c = elim (get c jobs) [ none ↦ [] | some j ↦ parent_ids j ]

-- Ready, running or done.
abbrev pub is_started : Option Status → Bool
is_started (some ready) = true
is_started (some running) = true
is_started (some done) = true
is_started _ = false

abbrev pub counts {ℓ} : {A : Type ℓ} → (Option A → Bool) → A → Bool
counts f v = f (some v)

-- The bookkeeping that does not speak of the waiting counts. `extra` running jobs are no longer in
-- flight.
pub record Base (s : State) (extra : ℕ) : Type 0 where
  -- The status map has the ids of the job map.
  pub same_ids : (k : String) → contains_key k s.jobs ≡ contains_key k s.status
  pub distinct : DistinctKeys s.status
  -- A job stands among the dependents of each of its parents, once for each input.
  pub wired :
      (p c : String) → occurrences c (children p s.dependents) ≡ occurrences p (parents_of s.jobs c)
  -- A job that is ready, running or done has only parents that are done.
  pub started :
      (c : String)
      → is_started (get c s.status) ≡ true
      → unfinished s.status (parents_of s.jobs c) ≡ 0
  -- The queue holds the ready jobs, each once.
  pub queued : (k : String) → occurrences k s.queue ≡ bit (is_ready (get k s.status))
  pub terminal_count : s.terminal ≡ count (counts is_terminal) s.status
  pub running_count : s.in_flight + extra ≡ count (counts is_running) s.status
  pub total_count : s.total_jobs ≡ length s.status
  -- The report names the failed jobs, with a detail for each.
  pub reported : (k : String) → contains_key k s.report.failures ≡ is_failed (get k s.status)
  pub detailed : (k : String) → contains_key k s.report.failed_details ≡ is_failed (get k s.status)

-- The bookkeeping of a state in which the jobs of `rest` have still to hear of a parent that is done.
pub record Core (s : State) (rest : List String) (extra : ℕ) : Type 0 where
  pub base : Base s extra
  pub open base use *
  -- A pending job counts the parents that are not done, and there is one.
  pub waits :
      (c : String)
      → is_pending (get c s.status) ≡ true
      → failures_among s.status (parents_of s.jobs c) ≡ 0
      → (get c s.remaining_parents
          ≡ some (unfinished s.status (parents_of s.jobs c) + occurrences c rest))
        × (0 < unfinished s.status (parents_of s.jobs c) + occurrences c rest)

-- No job waits for a parent that has failed.
abbrev pub NoOrphan : State → Type 0
NoOrphan s =
    (p c : String)
    → is_failed (get p s.status) ≡ true
    → 0 < occurrences p (parents_of s.jobs c)
    → is_waiting (get c s.status) ≡ false

-- The invariant between two critical sections, where no job is between its run and its outcome.
pub record Inv (s : State) : Type 0 where
  pub core : Core s [] 0
  pub no_orphan : NoOrphan s

pub new-Inv : Inv new
unfolding get contains_key occurrences
new-Inv = record {
  core = record {
    base = record {
      same_ids = λ k. refl;
      distinct = tt;
      wired = λ p c. refl;
      started = λ c h. absurd (ground arith);
      queued = λ k. refl;
      terminal_count = refl;
      running_count = omega arith;
      total_count = refl;
      reported = λ k. refl;
      detailed = λ k. refl;
    };
    waits = λ c h. absurd (ground arith);
  };
  no_orphan = λ p c h. absurd (ground arith);
}
