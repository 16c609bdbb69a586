-- ===== src/Worker/Samples.antt =====
-- A run of the diamond graph whose first job fails, step by step.
use ppg.Common.{
  ◌-◌, ◌<◌, ◌≡◌, ◌≢◌, refl, true, false, none, some, [], ◌∷◌, String, occurrences, elem, arith, ◌⊎◌,
}
use ppg.Table.{get, insert, contains_key}
use ppg.Job.{parent_ids}
use ppg.Graph.Samples.{diamond, diamond_accepted, cores}
use ppg.Scheduler.{
  State, Status, done, running, ready, is_done, is_failed, is_waiting, message, fail_job,
  insert_job, complete_success,
}
use ppg.Scheduler.Invariant.{parents_of, Inv}
use ppg.Scheduler.Finishing.{IsFinishing}
use ppg.Scheduler.Cascade.{live}
use ppg.Worker.{
  Run, failed, worker_action, leave, wait, take, Reach, begin, next, dispatched, finished,
  start_run, start_job, finish_job, insert_all,
}
use ppg.Worker.Dispatch.{Reach-Inv}
use ppg.Worker.Steps.{finish_IsFinishing}
use ppg.Worker.Progress.{no_deadlock}
use ppg.Worker.Safety.{
  dispatch_in_order, failure_reaches_dependents, leave_when_settled, fail_job_outcome,
}

code : Unit {0}
unfolding worker_action start_job finish_job insert_all insert_job fail_job complete_success get
    insert contains_key parent_ids elem
code = tt

abbrev first : Run
first = start_run diamond none (some [])

abbrev second : Run
second = record first { state = start_job first.state "a" [] }

abbrev third : Run
third = finish_job cores second "a" (failed (message "exit code 1") none)

first-Reach : Reach cores diamond first
first-Reach = begin none (some []) diamond_accepted refl

first_take : worker_action false first.state ≡ take "a" []
unfolding code
first_take = refl

second_running : get "a" second.state.status ≡ some running
unfolding code
second_running = refl

second-Reach : Reach cores diamond second
second-Reach = next first-Reach (dispatched false "a" [] first_take refl)

third-Reach : Reach cores diamond third
third-Reach =
    next second-Reach (finished "a" (failed (message "exit code 1") none) second_running refl)

third_failed : get "a" third.state.status ≡ some Status.failed
unfolding code
third_failed = refl

third_leave : worker_action false third.state ≡ leave
unfolding code
third_leave = refl

-- After the first job succeeds both of its children are queued, in the order of the job list.
success_wakes : (complete_success second.state "a").queue ≡ "b" ∷ "c" ∷ []
unfolding code
success_wakes = refl

Reach-Inv_example : Inv third.state
Reach-Inv_example = Reach-Inv cores diamond third-Reach

dispatch_in_order_example :
    (get "a" first.state.status ≡ some ready)
    × (occurrences "a" [] ≡ 0)
    × ((p : String)
        → (is_done (get p first.state.status) ≡ true)
          ⊎ (occurrences p (parents_of first.state.jobs "a") ≡ 0))
dispatch_in_order_example =
    dispatch_in_order cores diamond first false "a" [] first-Reach first_take

b_parent : 0 < occurrences "a" (parents_of third.state.jobs "b")
unfolding code occurrences
b_parent = omega arith

failure_reaches_dependents_example : get "b" third.state.status ≡ some Status.failed
failure_reaches_dependents_example =
    failure_reaches_dependents cores diamond third "a" "b" third-Reach third_failed b_parent

d_known : contains_key "d" third.state.jobs ≡ true
unfolding code
d_known = refl

leave_when_settled_example :
    (third.state.in_flight ≡ 0)
    × ((get "d" third.state.status ≡ some done) ⊎ (get "d" third.state.status ≡ some Status.failed))
leave_when_settled_example =
    leave_when_settled cores diamond third "d" third-Reach third_leave d_known

first_idle : first.state.in_flight ≡ 0
unfolding code
first_idle = refl

no_deadlock_example : worker_action false first.state ≢ wait
no_deadlock_example = no_deadlock cores diamond first first-Reach first_idle

abbrev landing : State
landing = record (second.state) { in_flight = second.state.in_flight - 1 }

landing-IsFinishing : IsFinishing landing "a"
landing-IsFinishing =
    finish_IsFinishing second.state "a" (Reach-Inv cores diamond second-Reach) second_running

fail_job_outcome_example :
    Inv (fail_job landing "a" (message "exit code 1") none)
    × (is_failed (get "a" (fail_job landing "a" (message "exit code 1") none).status) ≡ true)
    × (live (fail_job landing "a" (message "exit code 1") none) < live landing)
    × ((k : String)
        → (k ≡ "a")
          ⊎ (is_waiting (get k landing.status) ≡ true)
          ⊎ (get k (fail_job landing "a" (message "exit code 1") none).status
              ≡ get k landing.status))
fail_job_outcome_example =
    fail_job_outcome landing "a" (message "exit code 1") none landing-IsFinishing
