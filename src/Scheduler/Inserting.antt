-- ===== src/Scheduler/Inserting.antt =====
-- `insert_job` of `crates/ppg3-core/src/scheduler.rs` keeps the invariant, in the initial load and when
-- a graph job is expanded while others run.
use ppg.Common.{
  zero_or_pos, ℕ, ◌+◌, ◌<◌, ◌≡◌, ◌≢◌, refl, sym, ap, subst, ◌∙◌, true, false, none, some, List, [],
  String, ◌==◌, eq_iff, occurrences, arith, if◌then◌else◌, Option-cases, inl, inr, String-cases,
}
use ppg.Table.{get, insert, contains_key, get-insert, insert-DistinctKeys}
use ppg.Table.Count.{count-insert, length-insert}
use ppg.Job.{JobDef, parent_ids}
use ppg.Graph.{children}
use ppg.Scheduler.{
  State, upstream_failed, pending, ready, is_pending, is_running, is_failed, is_terminal,
  is_waiting, Wiring, wire_parents, add_job, insert_job, mark_ready_if_pending, fail_job,
}
use ppg.Scheduler.Tally.{not_done, unfinished, failures_among, tally-insert_same, tally-pos}
use ppg.Scheduler.Invariant.{Base, Core, parents_of, is_started, counts, NoOrphan}
use ppg.Scheduler.Cascade.{Falls, fail_job-Falls, Falls-NoOrphan}
use ppg.Scheduler.Marking.{mark_ready-Core}
use ppg.Scheduler.Wires.{Wired, wire_parents-Wired, unfinished_split}

abbrev wiring : State → JobDef → Wiring
wiring s j =
    wire_parents s.status j.id (parent_ids j)
      (record { remaining = 0; failed_parent = none; dependents = s.dependents })

module _ (s : State) (j : JobDef) (fresh : contains_key j.id s.jobs ≡ false) (extra : ℕ)
    (h : Core s [] extra) (o : NoOrphan s) where
  abbrev added : State
  added = add_job s j (wiring s j)

  wired :
      Wired s.status j.id
        (parent_ids j)
        (record { remaining = 0; failed_parent = none; dependents = s.dependents })
        (wiring s j)
  wired = wire_parents-Wired s.status j.id (parent_ids j) _

  no_status : get j.id s.status ≡ none
  unfolding contains_key
  no_status = ground (arith, h.same_ids j.id)

  no_job : get j.id s.jobs ≡ none
  unfolding contains_key
  no_job = ground arith

  status_added :
      (k : String) → get k added.status ≡ (if j.id == k then some pending else get k s.status)
  unfolding add_job
  status_added k = get-insert k j.id pending s.status

  parents_added :
      (c : String)
      → parents_of added.jobs c ≡ (if j.id == c then parent_ids j else parents_of s.jobs c)
  unfolding add_job
  parents_added c = ground (arith, get-insert c j.id j s.jobs)

  unfinished_added : (ps : List String) → unfinished added.status ps ≡ unfinished s.status ps
  unfolding add_job
  unfinished_added ps =
      tally-insert_same not_done j.id pending s.status ps (ground (arith, no_status))

  failures_added : (ps : List String) → failures_among added.status ps ≡ failures_among s.status ps
  unfolding add_job
  failures_added ps =
      tally-insert_same is_failed j.id pending s.status ps (ground (arith, no_status))

  occurrences_none : (p : String) → occurrences p (parents_of s.jobs j.id) ≡ 0
  unfolding occurrences
  occurrences_none p = ground (arith, no_job)

  wired_added :
      (p c : String)
      → occurrences c (children p added.dependents) ≡ occurrences p (parents_of added.jobs c)
  unfolding add_job
  wired_added p c = elim (String-cases j.id c) [
    | inl same ↦ rw (← same.0) (
        ground (
          arith,
          wired.linked p j.id,
          h.wired p j.id,
          occurrences_none p,
          get-insert j.id j.id j s.jobs,
          eq_iff j.id j.id,
        ))
    | inr other ↦ ground (arith, wired.linked p c, h.wired p c, get-insert c j.id j s.jobs, other.1)
  ]

  started_added :
      (c : String)
      → is_started (get c added.status) ≡ true
      → unfinished added.status (parents_of added.jobs c) ≡ 0
  started_added c e = elim (String-cases j.id c) [
    | inl same ↦ absurd (ground (arith, status_added c, same.1))
    | inr other ↦
        let same_parents : parents_of added.jobs c ≡ parents_of s.jobs c =
          parents_added c ∙ (rw other.1) in
        ap (unfinished added.status) same_parents
        ∙ (unfinished_added (parents_of s.jobs c)
            ∙ h.started c (ground (arith, status_added c, other.1)))
  ]

  added-Base : Base added extra
  added-Base = record {
    same_ids = λ k.
        unfold add_job contains_key in
        ground
          (arith, h.same_ids k, get-insert k j.id j s.jobs, get-insert k j.id pending s.status);
    distinct = unfold add_job in insert-DistinctKeys j.id pending s.status h.distinct;
    wired = wired_added;
    started = started_added;
    queued =
        λ k. unfold add_job in ground (arith, h.queued k, status_added k, eq_iff j.id k, no_status);
    terminal_count =
        unfold add_job in
        ground (
          arith,
          h.terminal_count,
          no_status,
          count-insert (counts is_terminal) j.id pending s.status,
        );
    running_count =
        unfold add_job in
        ground (
          arith,
          h.running_count,
          no_status,
          count-insert (counts is_running) j.id pending s.status,
        );
    total_count =
        unfold add_job in
        ground (arith, h.total_count, no_status, length-insert j.id pending s.status);
    reported = λ k.
        unfold add_job in ground (arith, h.reported k, status_added k, eq_iff j.id k, no_status);
    detailed = λ k.
        unfold add_job in ground (arith, h.detailed k, status_added k, eq_iff j.id k, no_status);
  }

  added_pending : get j.id added.status ≡ some pending
  added_pending = ground (arith, status_added j.id, eq_iff j.id j.id)

  own_parents : parents_of added.jobs j.id ≡ parent_ids j
  own_parents = ground (arith, parents_added j.id, eq_iff j.id j.id)

  -- The counts of the jobs that were there are as before.
  others_wait :
      (c : String)
      → j.id ≢ c
      → is_pending (get c added.status) ≡ true
      → failures_among added.status (parents_of added.jobs c) ≡ 0
      → (get c added.remaining_parents
          ≡ some (unfinished added.status (parents_of added.jobs c) + occurrences c []))
        × (0 < unfinished added.status (parents_of added.jobs c) + occurrences c [])
  others_wait c ne p f =
      let same_parents : parents_of added.jobs c ≡ parents_of s.jobs c =
        ground (arith, parents_added c, eq_iff j.id c) in
      let same_count : unfinished added.status (parents_of added.jobs c)
          ≡ unfinished s.status (parents_of s.jobs c) =
        ap (unfinished added.status) same_parents ∙ unfinished_added (parents_of s.jobs c) in
      let no_failure : failures_among s.status (parents_of s.jobs c) ≡ 0 =
        sym (failures_added (parents_of s.jobs c))
        ∙ (ap (failures_among added.status) (sym same_parents) ∙ f) in
      let (count_of, pos) = h.waits c (ground (arith, status_added c, eq_iff j.id c)) no_failure in
      (
        unfold add_job in
            ground (
              arith,
              get-insert c j.id (wiring s j).remaining s.remaining_parents,
              eq_iff j.id c,
              same_count,
              count_of,
            ),
        omega (arith, same_count, pos),
      )

  others_not_orphans :
      (p c : String)
      → j.id ≢ c
      → is_failed (get p added.status) ≡ true
      → 0 < occurrences p (parents_of added.jobs c)
      → is_waiting (get c added.status) ≡ false
  others_not_orphans p c ne f e =
      let same_parents : parents_of added.jobs c ≡ parents_of s.jobs c =
        ground (arith, parents_added c, eq_iff j.id c) in
      let before : 0 < occurrences p (parents_of s.jobs c) = rw (sym same_parents) e in
      ground (
        arith,
        status_added p,
        status_added c,
        eq_iff j.id c,
        o p c (ground (arith, status_added p)) before,
      )

  -- The three ends of `insert_job`.
  insert_failed :
      (fp : String)
      → (wiring s j).failed_parent ≡ some fp
      → insert_job s j ≡ fail_job added j.id (upstream_failed fp) none
  insert_failed fp e = unfold insert_job in rw (e, insert_job)

  insert_ready :
      (wiring s j).failed_parent ≡ none
      → (wiring s j).remaining ≡ 0
      → insert_job s j ≡ mark_ready_if_pending added j.id
  insert_ready e z = unfold insert_job in rw (e, insert_job) (rw z refl)

  insert_waits :
      (wiring s j).failed_parent ≡ none → 0 < (wiring s j).remaining → insert_job s j ≡ added
  insert_waits e pos = unfold insert_job in rw (e, insert_job) (ground arith)

  status_ready :
      (k : String)
      → get k (mark_ready_if_pending added j.id).status
        ≡ (if j.id == k then some ready else get k added.status)
  unfolding mark_ready_if_pending
  status_ready k = ground (arith, added_pending, get-insert k j.id ready added.status)

  -- The waiting count of a job with a failed parent is never looked at.
  failing_Core : (fp : String) → (wiring s j).failed_parent ≡ some fp → Core added [] extra
  failing_Core fp e = record {
    base = added-Base;
    waits = λ c p f. elim (String-cases j.id c) [
      | inr other ↦ others_wait c other.0 p f
      | inl same ↦
          let mine : failures_among added.status (parent_ids j) ≡ 0 =
            subst (λ ps. failures_among added.status ps ≡ 0) own_parents
              (subst (λ k. failures_among added.status (parents_of added.jobs k) ≡ 0) (sym same.0)
                f) in
          absurd (ground (arith, wired.failing, e, mine, failures_added (parent_ids j)))
    ];
  }

  -- Where no parent has failed, the new job's count is right and it is no orphan.
  module _ (good : (wiring s j).failed_parent ≡ none) where
    none_failed : failures_among s.status (parent_ids j) ≡ 0
    none_failed = ground (arith, wired.failing, good)

    own_count : (wiring s j).remaining ≡ unfinished added.status (parents_of added.jobs j.id)
    own_count = omega (
      arith,
      wired.counted,
      unfinished_split s.status (parent_ids j),
      none_failed,
      unfinished_added (parent_ids j),
      ap (unfinished added.status) own_parents,
    )

    added-NoOrphan : NoOrphan added
    added-NoOrphan p c f e = elim (String-cases j.id c) [
      | inr other ↦ others_not_orphans p c other.0 f e
      | inl same ↦
          let own : 0 < occurrences p (parent_ids j) =
            subst (λ ps. 0 < occurrences p ps) own_parents
              (subst (λ k. 0 < occurrences p (parents_of added.jobs k)) (sym same.0) e) in
          let was : is_failed (get p s.status) ≡ true = ground (arith, status_added p) in
          absurd (omega (arith, none_failed, tally-pos is_failed s.status p (parent_ids j) own was))
    ]

    waiting-Core : 0 < (wiring s j).remaining → Core added [] extra
    waiting-Core pos = record {
      base = added-Base;
      waits = λ c p f. elim (String-cases j.id c) [
        | inr other ↦ others_wait c other.0 p f
        | inl same ↦ rw (← same.0) (
          unfold add_job occurrences in
              ground (
                arith,
                get-insert j.id j.id (wiring s j).remaining s.remaining_parents,
                eq_iff j.id j.id,
                own_count,
              ),
          omega (arith, own_count, pos),
        )
      ];
    }

  -- A job that was not there is inserted: the invariant stays, and no job that does not wait is
  -- touched.
  pub insert_job-Core :
      Core (insert_job s j) [] extra
      × NoOrphan (insert_job s j)
      × ((k : String)
          → j.id ≢ k
          → is_waiting (get k s.status) ≡ false
          → get k (insert_job s j).status ≡ get k s.status)
  insert_job-Core = elim (Option-cases (wiring s j).failed_parent) [
    | inr (fp, e) ↦
        let falls : Falls [] extra added j.id (fail_job added j.id (upstream_failed fp) none) =
          fail_job-Falls [] extra added j.id (upstream_failed fp) none pending added_pending refl
            (subst (λ n. Core added [] n) (omega arith) (failing_Core fp e)) in
        rw (insert_failed fp e) (
          falls.0,
          Falls-NoOrphan [] extra added j.id _ falls others_not_orphans,
          λ k ne w.
              falls.5 k (λ q. ne (sym q)) (ground (arith, status_added k, eq_iff j.id k))
              ∙ (ground (arith, status_added k, eq_iff j.id k)),
        )
    | inl good ↦ elim (zero_or_pos (wiring s j).remaining) [
      | inl z ↦
          let (core, orphan) =
            mark_ready-Core added j.id [] extra added_pending (sym (own_count good) ∙ z) added-Base
              others_wait (added-NoOrphan good) in
          rw (insert_ready good z)
            (core, orphan, λ k ne w. ground (arith, status_ready k, status_added k, eq_iff j.id k))
      | inr pos ↦ rw (insert_waits good pos) (
        waiting-Core good pos,
        added-NoOrphan good,
        λ k ne w. ground (arith, status_added k, eq_iff j.id k),
      )
    ]
  ]

  -- The job map after the insertion.
  pub insert_job-jobs : (insert_job s j).jobs ≡ insert j.id j s.jobs
  insert_job-jobs = elim (Option-cases (wiring s j).failed_parent) [
    | inr (fp, e) ↦
        let falls : Falls [] extra added j.id (fail_job added j.id (upstream_failed fp) none) =
          fail_job-Falls [] extra added j.id (upstream_failed fp) none pending added_pending refl
            (subst (λ n. Core added [] n) (omega arith) (failing_Core fp e)) in
        rw (insert_failed fp e) (falls.1 ∙ (unfold add_job in refl))
    | inl good ↦ elim (zero_or_pos (wiring s j).remaining) [
      | inl z ↦
          rw (insert_ready good z)
            (unfold mark_ready_if_pending add_job in ground (arith, added_pending))
      | inr pos ↦ rw (insert_waits good pos) (unfold add_job in refl)
    ]
  ]
