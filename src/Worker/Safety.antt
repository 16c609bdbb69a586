-- ===== src/Worker/Safety.antt =====
-- What every run of `crates/ppg3-core/src/scheduler.rs` guarantees of the order of its jobs, of the spread
-- of failures and of its report.
use ppg.Common.{
  zero_or_pos, ℕ, ◌+◌, ◌<◌, ◌≡◌, refl, ap, ◌∙◌, Bool, true, false, Option, some, List, [], String,
  ◌==◌, eq_iff, occurrences, bit, arith, Bool-cases, Option-cases, ◌⊎◌, inl, inr, String-cases,
}
use ppg.Table.{Table, get, contains_key}
use ppg.Table.Count.{count, get_of_count_zero}
use ppg.Job.{JobDef}
use ppg.Scheduler.{
  State, Status, ready, running, done, is_done, is_failed, is_waiting, Reason, FailedJob, fail_job,
}
use ppg.Scheduler.Tally.{not_done, tally-pos}
use ppg.Scheduler.Invariant.{parents_of, is_started, counts, Inv}
use ppg.Scheduler.Cascade.{is_live, live, count_split, fail_job-Falls}
use ppg.Scheduler.Finishing.{IsFinishing, fail_job-Inv}
use ppg.Worker.{Run, worker_action, leave, take, is_finished, Reach}
use ppg.Worker.Dispatch.{Reach-Inv, queue_of_take}

-- Only a job has parents.
known_of_parent :
    (jobs : Table JobDef) (p c : String)
    → 0 < occurrences p (parents_of jobs c)
    → contains_key c jobs ≡ true
unfolding contains_key occurrences
known_of_parent jobs p c o = ground arith

finished_of_leave : (s : State) → worker_action false s ≡ leave → is_finished s ≡ true
unfolding worker_action
finished_of_leave s e = ground arith

status_of_known :
    (s : State) (id : String)
    → Inv s
    → contains_key id s.jobs ≡ true
    → (w : Status) × (get id s.status ≡ some w)
unfolding contains_key
status_of_known s id v known = elim (Option-cases (get id s.status)) [
  | inl miss ↦ absurd (ground (arith, v.core.same_ids id))
  | inr found ↦ found
]

parent_done :
    (s : State) (p c : String)
    → Inv s
    → is_started (get c s.status) ≡ true
    → 0 < occurrences p (parents_of s.jobs c)
    → is_done (get p s.status) ≡ true
parent_done s p c v e o = elim (Bool-cases (is_done (get p s.status))) [
  | inl d ↦ d
  | inr d ↦ absurd (
      omega (
        arith,
        v.core.started c e,
        tally-pos not_done s.status p (parents_of s.jobs c) o (ground (arith, d)),
      ))
]

-- A job that a worker takes is ready, stands in the queue once only, and every job that its inputs
-- name is done.
pub dispatch_in_order :
    (caps : Table ℕ) (jobs : List JobDef) (r : Run) (aborting : Bool) (id : String)
    (rest : List String)
    → Reach caps jobs r
    → worker_action aborting r.state ≡ take id rest
    → (get id r.state.status ≡ some ready)
      × (occurrences id rest ≡ 0)
      × ((p : String)
          → (is_done (get p r.state.status) ≡ true)
            ⊎ (occurrences p (parents_of r.state.jobs id) ≡ 0))
dispatch_in_order caps jobs r aborting id rest reach e =
    let v = Reach-Inv caps jobs reach in
    let split : occurrences id r.state.queue ≡ bit (id == id) + occurrences id rest =
      ap (occurrences id) (queue_of_take aborting r.state id rest e)
      ∙ (unfold occurrences in refl) in
    let now : get id r.state.status ≡ some ready =
      ground (arith, v.core.queued id, split, eq_iff id id) in
    (
      now,
      ground (arith, v.core.queued id, split, eq_iff id id),
      λ p. elim (zero_or_pos (occurrences p (parents_of r.state.jobs id))) [
        | inl z ↦ inr z
        | inr o ↦ inl (parent_done r.state p id v (ground (arith, now)) o)
      ],
    )

-- In every reachable state a job with a failed parent has failed too.
pub failure_reaches_dependents :
    (caps : Table ℕ) (jobs : List JobDef) (r : Run) (p c : String)
    → Reach caps jobs r
    → get p r.state.status ≡ some Status.failed
    → 0 < occurrences p (parents_of r.state.jobs c)
    → get c r.state.status ≡ some Status.failed
failure_reaches_dependents caps jobs r p c reach f o =
    let s = r.state in
    let v = Reach-Inv caps jobs reach in
    let known : contains_key c s.jobs ≡ true = known_of_parent s.jobs p c o in
    elim (Bool-cases (is_started (get c s.status))) [
      | inl on ↦ absurd (ground (arith, parent_done s p c v on o, f))
      | inr off ↦
          unfold contains_key in
          ground (arith, v.no_orphan p c (ground (arith, f)) o, v.core.same_ids c, known)
    ]

-- A worker that leaves an unaborted run leaves nothing in flight and no job of the graph unsettled:
-- each is done or failed.
pub leave_when_settled :
    (caps : Table ℕ) (jobs : List JobDef) (r : Run) (id : String)
    → Reach caps jobs r
    → worker_action false r.state ≡ leave
    → contains_key id r.state.jobs ≡ true
    → (r.state.in_flight ≡ 0)
      × ((get id r.state.status ≡ some done) ⊎ (get id r.state.status ≡ some Status.failed))
unfolding worker_action
leave_when_settled caps jobs r id reach e known =
    let s = r.state in
    let v = Reach-Inv caps jobs reach in
    let finished_now : is_finished s ≡ true = finished_of_leave s e in
    let none_live : count (counts is_live) s.status ≡ 0 =
      ground (arith, v.core.total_count, v.core.terminal_count, count_split s.status) in
    let (w, there) = status_of_known s id v known in
    let ended : is_live (some w) ≡ false =
      get_of_count_zero (counts is_live) id w s.status none_live there in
    (ground arith, ground (arith, there))

-- A running job that fails: the invariant holds again, the job has failed, a job that was done,
-- failed or running is as it was, and the graph has lost at least one live job.
pub fail_job_outcome :
    (s : State) (id : String) (reason : Reason) (detail : Option FailedJob)
    → IsFinishing s id
    → Inv (fail_job s id reason detail)
      × (is_failed (get id (fail_job s id reason detail).status) ≡ true)
      × (live (fail_job s id reason detail) < live s)
      × ((k : String)
          → (k ≡ id)
            ⊎ (is_waiting (get k s.status) ≡ true)
            ⊎ (get k (fail_job s id reason detail).status ≡ get k s.status))
fail_job_outcome s id reason detail h =
    let (core, jobs, deps, down, gone, kept, closed) =
      fail_job-Falls [] 0 s id reason detail running h.running_now refl h.core in
    (
      fail_job-Inv s id h reason detail,
      gone,
      down,
      λ k. elim (String-cases k id) [
        | inl same ↦ inl same.0
        | inr other ↦ elim (Bool-cases (is_waiting (get k s.status))) [
          | inl w ↦ inr (inl w)
          | inr w ↦ inr (inr (kept k other.0 w))
        ]
      ],
    )
