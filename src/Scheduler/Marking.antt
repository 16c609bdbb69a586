-- ===== src/Scheduler/Marking.antt =====
-- `mark_ready_if_pending` of `crates/ppg3-core/src/scheduler.rs`: a job with no parent left to wait for.
use ppg.Common.{
  occurrences_snoc, ℕ, ◌+◌, ◌<◌, ◌≡◌, ◌≢◌, sym, ◌∙◌, true, some, List, [], ◌∷◌, ◌++◌, String, ◌==◌,
  eq_iff, occurrences, arith, if◌then◌else◌,
}
use ppg.Table.{get, insert, contains_key, get-insert, insert-DistinctKeys}
use ppg.Table.Count.{count-insert, length-insert}
use ppg.Scheduler.{
  State, pending, ready, is_pending, is_running, is_failed, is_terminal, mark_ready_if_pending,
}
use ppg.Scheduler.Tally.{not_done, unfinished, failures_among, tally-insert_same}
use ppg.Scheduler.Invariant.{Base, Core, parents_of, counts, NoOrphan}

abbrev pub Waits : State → List String → String → Type 0
Waits s rest c =
    (get c s.remaining_parents
      ≡ some (unfinished s.status (parents_of s.jobs c) + occurrences c rest))
    × (0 < unfinished s.status (parents_of s.jobs c) + occurrences c rest)

-- The counts of all pending jobs but one.
abbrev pub WaitsBut : State → List String → String → Type 0
WaitsBut s rest id =
    (c : String)
    → id ≢ c
    → is_pending (get c s.status) ≡ true
    → failures_among s.status (parents_of s.jobs c) ≡ 0
    → Waits s rest c

-- What marking a pending job as ready leaves.
module _ (s : State) (id : String) (found : get id s.status ≡ some pending) where
  marked : State
  marked = record s { status = insert id ready s.status; queue = s.queue ++ id ∷ [] }

  mark_ready_pending : mark_ready_if_pending s id ≡ marked
  unfolding mark_ready_if_pending marked
  mark_ready_pending = ground (arith, found)

  status_marked :
      (k : String) → get k marked.status ≡ (if id == k then some ready else get k s.status)
  unfolding marked
  status_marked k = get-insert k id ready s.status

  unfinished_marked : (ps : List String) → unfinished marked.status ps ≡ unfinished s.status ps
  unfolding marked
  unfinished_marked ps = tally-insert_same not_done id ready s.status ps (ground (arith, found))

  failures_marked :
      (ps : List String) → failures_among marked.status ps ≡ failures_among s.status ps
  unfolding marked
  failures_marked ps = tally-insert_same is_failed id ready s.status ps (ground (arith, found))

  marked-Base :
      (extra : ℕ)
      → unfinished s.status (parents_of s.jobs id) ≡ 0
      → Base s extra
      → Base marked extra
  unfolding marked contains_key
  marked-Base extra z h = record {
    same_ids = λ k. ground (arith, h.same_ids k, status_marked k, eq_iff id k, found);
    distinct = insert-DistinctKeys id ready s.status h.distinct;
    wired = h.wired;
    started = λ c e. ground (
      arith,
      status_marked c,
      unfinished_marked (parents_of s.jobs c),
      h.started c,
      eq_iff id c,
      z,
    );
    queued = λ k.
        ground
          (arith, h.queued k, status_marked k, occurrences_snoc k id s.queue, eq_iff id k, found);
    terminal_count =
        ground
          (arith, h.terminal_count, found, count-insert (counts is_terminal) id ready s.status);
    running_count =
        ground (arith, h.running_count, found, count-insert (counts is_running) id ready s.status);
    total_count = ground (arith, h.total_count, found, length-insert id ready s.status);
    reported = λ k. ground (arith, h.reported k, status_marked k, eq_iff id k, found);
    detailed = λ k. ground (arith, h.detailed k, status_marked k, eq_iff id k, found);
  }

  marked-Waits :
      (rest : List String)
      → WaitsBut s rest id
      → (c : String) → is_pending (get c marked.status) ≡ true
      → failures_among marked.status (parents_of s.jobs c) ≡ 0
      → Waits marked rest c
  unfolding marked
  marked-Waits rest w c p f = rw (unfinished_marked (parents_of s.jobs c)) (
      w c (λ e. ground (arith, status_marked c, eq_iff id c, p))
        (ground (arith, status_marked c, p)) (sym (failures_marked (parents_of s.jobs c)) ∙ f))

  marked-NoOrphan : NoOrphan s → NoOrphan marked
  unfolding marked
  marked-NoOrphan h p c f e =
      ground (arith, status_marked p, status_marked c, h p c, h p id, eq_iff id c, found)

-- A pending job whose parents are all done is marked as ready.
pub mark_ready-Core :
    (s : State) (id : String) (rest : List String) (extra : ℕ)
    → get id s.status ≡ some pending
    → unfinished s.status (parents_of s.jobs id) ≡ 0
    → Base s extra
    → WaitsBut s rest id
    → NoOrphan s
    → Core (mark_ready_if_pending s id) rest extra × NoOrphan (mark_ready_if_pending s id)
mark_ready-Core s id rest extra found z h w o = rw (mark_ready_pending s id found) (
  record {
    base = marked-Base s id found extra z h;
    waits = unfold marked in marked-Waits s id found rest w;
  },
  marked-NoOrphan s id found o,
)
