-- ===== src/Worker/Progress.antt =====
-- No run of `crates/ppg3-core/src/scheduler.rs` gets stuck: while jobs are left, one of them is running
-- or can be taken.
use ppg.Common.{
  ℕ, zero, suc, ◌+◌, ◌-◌, ◌≤◌, ◌<◌, ◌≡◌, ◌≢◌, refl, ap, ◌∙◌, true, false, Option, none, List, [],
  ◌∷◌, String, occurrences, arith, Bool-cases, inl, inr,
}
use ppg.Table.{Table, get, insert, contains_key}
use ppg.Table.Count.{count, get_of_count_zero, count_zero}
use ppg.Job.{JobDef}
use ppg.Graph.{children, validate_and_index}
use ppg.Graph.Accepts.{validate_and_index-IsValid}
use ppg.Graph.Answers.{validate_and_index_answers}
use ppg.Scheduler.{
  State, Status, pending, ready, running, done, is_pending, is_ready, is_running, is_done,
  is_failed, is_terminal, is_waiting, new, mark_ready_if_pending, wake_child, wake_children,
  complete_success, fail_job, invalid_expansion,
}
use ppg.Scheduler
use ppg.Scheduler.Tally.{not_done, tally-member}
use ppg.Scheduler.Invariant.{parents_of, counts, Inv}
use ppg.Scheduler.Finishing.{IsFinishing}
use ppg.Scheduler.Cascade.{is_live, count_split, fail_job-Falls}
use ppg.Scheduler.Waking.{no_failures}
use ppg.Worker.{
  Run, JobOutcome, hit, built, in_process_done, graph_expanded, failed, expand, apply_outcome,
  start_job, finish_job, worker_action, wait, Step, dispatched, finished, Reach, begin, next,
}
use ppg.Worker.Steps.{insert_all-Inserted, finish_IsFinishing}
use ppg.Worker.Dispatch.{Reach-Inv, logged_new}
use ppg.Worker.Ranks.{HasRank, HasRank-none, merged_HasRank}

-- Completing a job does not change the graph.
wake_child-jobs : (s : State) (c : String) → (wake_child s c).jobs ≡ s.jobs
unfolding wake_child
wake_child-jobs s c = ground arith

wake_children-jobs : (cs : List String) (s : State) → (wake_children cs s).jobs ≡ s.jobs
unfolding wake_children
wake_children-jobs [] s = refl
wake_children-jobs (c ∷ cs) s = wake_children-jobs cs (wake_child s c) ∙ wake_child-jobs s c

complete_success-jobs : (s : State) (id : String) → (complete_success s id).jobs ≡ s.jobs
unfolding complete_success
complete_success-jobs s id =
    wake_children-jobs (children id s.dependents)
      (record s { status = insert id done s.status; terminal = s.terminal + 1 })

fail_job-jobs :
    (s : State) (id : String) (reason : Scheduler.Reason) (detail : Option Scheduler.FailedJob)
    → IsFinishing s id
    → (fail_job s id reason detail).jobs ≡ s.jobs
fail_job-jobs s id reason detail h =
    (fail_job-Falls [] 0 s id reason detail running h.running_now refl h.core).1

-- In a state with the invariant and ranks where nothing runs and nothing is queued, every job has
-- come to its end.
module _ (s : State) (v : Inv s) (h : HasRank s.jobs) (idle : s.in_flight ≡ 0)
    (empty : s.queue ≡ []) where
  parent_not_done :
      (c : String)
      → is_pending (get c s.status) ≡ true
      → (p : String) × (0 < occurrences p (parents_of s.jobs c))
        × (not_done (get p s.status) ≡ true)
        × (is_failed (get p s.status) ≡ false)
  unfolding occurrences
  parent_not_done c e =
      let (count_of, pos) = v.core.waits c e (no_failures s c v.no_orphan (ground arith)) in
      let (p, o, nd) = tally-member not_done s.status (parents_of s.jobs c) (omega (arith, pos)) in
      (p, o, nd, ground (arith, v.no_orphan p c))

  not_ready : (k : String) → is_ready (get k s.status) ≡ false
  unfolding occurrences
  not_ready k = ground (arith, v.core.queued k, ap (occurrences k) empty)

  not_running : (k : String) → is_running (get k s.status) ≡ false
  not_running k =
      ground (arith, v.core.running_count, get_of_count_zero (counts is_running) k running s.status)

  ended :
      (bound : ℕ) (k : String)
      → h.rank k < bound
      → contains_key k s.jobs ≡ true
      → is_terminal (get k s.status) ≡ true
  ended zero k lt known = absurd (omega arith)
  ended (suc bound) k lt known = elim (Bool-cases (is_pending (get k s.status))) [
    | inr other ↦
        unfold contains_key in ground (arith, not_ready k, not_running k, v.core.same_ids k)
    | inl waits ↦
        let (p, o, nd, nf) = parent_not_done k waits in
        let (lower, there) = h.up p k o in
        absurd (ground (arith, ended bound p (omega arith) there))
  ]

  all_ended : s.total_jobs ≤ s.terminal
  all_ended =
      let none_live : count (counts is_live) s.status ≡ 0 =
        count_zero (counts is_live) s.status v.core.distinct λ k w e. ground (
          arith,
          ended (suc (h.rank k)) k (omega arith)
              (v.core.same_ids k ∙ (unfold contains_key in rw (e, contains_key))),
        ) in
      omega (arith, v.core.total_count, v.core.terminal_count, count_split s.status, none_live)

expand-HasRank :
    (pools_cap : Table ℕ) (s : State) (id : String) (js : List JobDef)
    → IsFinishing s id
    → HasRank s.jobs
    → HasRank (expand s id js (validate_and_index js s.jobs pools_cap)).jobs
unfolding expand
expand-HasRank pools_cap s id js h ranks = elim (validate_and_index_answers js s.jobs pools_cap) [
  | inl good ↦
      let v = validate_and_index-IsValid js s.jobs pools_cap good in
      let (_, _, _, jobs) = insert_all-Inserted js s 1 v.distinct v.fresh h.core h.no_orphan in
      rw good (rw complete_success-jobs (rw jobs (merged_HasRank s.jobs js pools_cap v ranks)))
  | inr (e, bad) ↦ rw bad (rw (fail_job-jobs s id (invalid_expansion e) none h) ranks)
]

apply_outcome-HasRank :
    (pools_cap : Table ℕ) (r : Run) (id : String) (outcome : JobOutcome)
    → IsFinishing r.state id
    → HasRank r.state.jobs
    → HasRank (apply_outcome pools_cap r id outcome).state.jobs
unfolding apply_outcome
apply_outcome-HasRank pools_cap r id (graph_expanded js) h ranks =
    expand-HasRank pools_cap r.state id js h ranks
apply_outcome-HasRank pools_cap r id (failed reason detail) h ranks =
    rw (fail_job-jobs r.state id reason detail h) ranks
apply_outcome-HasRank pools_cap r id (hit ik oh content store_idx) h ranks =
    rw complete_success-jobs ranks
apply_outcome-HasRank pools_cap r id (built ik oh content store_idx) h ranks =
    rw complete_success-jobs ranks
apply_outcome-HasRank pools_cap r id in_process_done h ranks = rw complete_success-jobs ranks

Step-HasRank :
    (caps : Table ℕ) (r t : Run)
    → Step caps r t
    → Inv r.state
    → HasRank r.state.jobs
    → HasRank t.state.jobs
Step-HasRank caps r t (dispatched aborting id rest e eq) v ranks = rw eq (unfold start_job in ranks)
Step-HasRank caps r t (finished id outcome e eq) v ranks = rw eq (
    unfold finish_job in
    apply_outcome-HasRank caps
      (record r { state = record (r.state) { in_flight = r.state.in_flight - 1 } }) id outcome
      (finish_IsFinishing r.state id v e) ranks)

pub Reach-HasRank :
    (caps : Table ℕ) (jobs : List JobDef) {r : Run} → Reach caps jobs r → HasRank r.state.jobs
Reach-HasRank caps jobs (begin log lease good e) =
    let v = validate_and_index-IsValid jobs [] caps good in
    let base : Inv (record new { event_log = log }) = logged_new log in
    let (_, _, _, eq) =
      insert_all-Inserted jobs (record new { event_log = log }) 0 v.distinct v.fresh base.core
        base.no_orphan in
    rw e (rw eq (merged_HasRank [] jobs caps v HasRank-none))
Reach-HasRank caps jobs (next {r} {t} reach step) =
    Step-HasRank caps r t step (Reach-Inv caps jobs reach) (Reach-HasRank caps jobs reach)

-- A worker that finds nothing in flight and is not told to abort either takes a job or leaves: it
-- never waits for a wake-up that nobody is left to send.
pub no_deadlock :
    (caps : Table ℕ) (jobs : List JobDef) (r : Run)
    → Reach caps jobs r
    → r.state.in_flight ≡ 0
    → worker_action false r.state ≢ wait
unfolding worker_action
no_deadlock caps jobs r reach idle e =
    let v = Reach-Inv caps jobs reach in
    let empty : r.state.queue ≡ [] = ground arith in
    ground (arith, all_ended r.state v (Reach-HasRank caps jobs reach) idle empty)
