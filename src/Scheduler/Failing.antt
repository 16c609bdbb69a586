-- ===== src/Scheduler/Failing.antt =====
-- The first half of `fail_job` (`crates/ppg3-core/src/scheduler.rs`): one job is marked as failed.
use ppg.Common.{
  ℕ, ◌+◌, ◌<◌, ◌≡◌, refl, true, false, Option, some, List, [], ◌∷◌, String, ◌==◌, eq_iff,
  occurrences, bit, arith, if◌then◌else◌,
}
use ppg.Table.{Table, get, insert, contains_key, get-insert, insert-DistinctKeys}
use ppg.Table.Count.{count-insert, length-insert}
use ppg.Scheduler.{
  State, Status, Reason, FailedJob, failed, is_pending, is_running, is_failed, is_terminal,
  set_failed, without, detail_or,
}
use ppg.Scheduler.Tally.{
  not_done, unfinished, failures_among, tally-insert_same, tally-insert_raise,
}
use ppg.Scheduler.Invariant.{Base, Core, parents_of, counts}

pub occurrences-without :
    (k id : String) (xs : List String)
    → occurrences k (without id xs) ≡ (if id == k then 0 else occurrences k xs)
unfolding occurrences without
occurrences-without k id [] = ground arith
occurrences-without k id (x ∷ xs) =
    ground (arith, occurrences-without k id xs, eq_iff x id, eq_iff x k, eq_iff id k)

contains_key-insert {ℓ} :
    {V : Type ℓ} (k id : String) (v : V) (m : Table V)
    → contains_key k (insert id v m) ≡ (if id == k then true else contains_key k m)
unfolding contains_key
contains_key-insert k id v m = ground (arith, get-insert k id v m)

module _ (s : State) (id : String) (reason : Reason) (detail : Option FailedJob) (v : Status)
    (found : get id s.status ≡ some v) (live : is_terminal (some v) ≡ false) where
  abbrev after : State
  after = set_failed s id reason detail

  pub status_after :
      (k : String) → get k after.status ≡ (if id == k then some failed else get k s.status)
  unfolding set_failed
  status_after k = get-insert k id failed s.status

  unfinished_after : (ps : List String) → unfinished after.status ps ≡ unfinished s.status ps
  unfolding set_failed
  unfinished_after ps =
      tally-insert_same not_done id failed s.status ps (ground (arith, found, live))

  failures_after :
      (ps : List String)
      → failures_among after.status ps ≡ failures_among s.status ps + occurrences id ps
  unfolding set_failed
  failures_after ps =
      tally-insert_raise is_failed id failed s.status ps (ground (arith, found, live)) refl

  waits_after :
      (rest : List String) (extra : ℕ) (h : Core s rest extra) (c : String)
      → is_pending (get c after.status) ≡ true
      → failures_among after.status (parents_of s.jobs c) ≡ 0
      → (get c s.remaining_parents
          ≡ some (unfinished after.status (parents_of s.jobs c) + occurrences c rest))
        × (0 < unfinished after.status (parents_of s.jobs c) + occurrences c rest)
  waits_after rest extra h c p f =
      let before : failures_among s.status (parents_of s.jobs c) ≡ 0 =
        omega (arith, failures_after (parents_of s.jobs c)) in
      rw (unfinished_after (parents_of s.jobs c))
        (h.waits c (ground (arith, status_after c)) before)

  set_failed-Base : (extra : ℕ) → Base s (bit (is_running (some v)) + extra) → Base after extra
  unfolding set_failed contains_key
  set_failed-Base extra h = record {
    same_ids =
        λ k. ground (arith, h.same_ids k, get-insert k id failed s.status, eq_iff id k, found);
    distinct = insert-DistinctKeys id failed s.status h.distinct;
    wired = h.wired;
    started =
        λ c e. ground (arith, status_after c, unfinished_after (parents_of s.jobs c), h.started c);
    queued = λ k. ground (arith, h.queued k, status_after k, occurrences-without k id s.queue);
    terminal_count = ground (
      arith,
      h.terminal_count,
      found,
      live,
      count-insert (counts is_terminal) id failed s.status,
    );
    running_count =
        ground (
          arith,
          h.running_count,
          found,
          live,
          count-insert (counts is_running) id failed s.status,
        );
    total_count = ground (arith, h.total_count, found, length-insert id failed s.status);
    reported =
        λ k. ground (arith, h.reported k, status_after k, get-insert k id reason s.report.failures);
    detailed = λ k. ground (
      arith,
      h.detailed k,
      status_after k,
      get-insert k id (detail_or reason detail) s.report.failed_details,
    );
  }

  -- Marking a live job as failed keeps the bookkeeping; a running job leaves the running ones.
  pub set_failed-Core :
      (rest : List String) (extra : ℕ)
      → Core s rest (bit (is_running (some v)) + extra)
      → Core after rest extra
  unfolding set_failed contains_key
  set_failed-Core rest extra h = record {
    base = set_failed-Base extra h.base;
    waits = waits_after rest _ h;
  }
