-- ===== src/Graph/Answers.antt =====
-- `validate_and_index` of `crates/ppg3-core/src/scheduler.rs` always answers: it panics on no graph.
use ppg.Common.{
  ℕ, ◌≡◌, refl, Option, none, some, List, [], ◌∷◌, String, arith, ltb, Outcome, ok, err, ◌>>◌,
  Bool-cases, Option-cases, ◌⊎◌, inl, inr, GraphError, duplicate_id, already_exists, unknown_job,
  in_process_input, job_unknown_pool, job_over_capacity, cycle_detected, elem,
}
use ppg.Table.{Table, get, contains_key}
use ppg.Job.{JobDef, InputRef, ExecTemplate, argv, in_process, parent_id}
use ppg.Graph.{
  check_ids, check_jobs, check_inputs, check_parent, check_template, check_resources, index_jobs,
  find_parent, validate_and_index,
}
use ppg.Graph.Verdict.{detect_cycle_verdict}
use ppg.Graph.Valid.{check_ids-distinct}

-- The id loop and the job loop end in a verdict.
abbrev Answers : Outcome (Unit {0}) → Type 0
Answers r = (r ≡ ok tt) ⊎ ((e : GraphError) × (r ≡ err e))

>>-Answers : (m k : Outcome (Unit {0})) → Answers m → Answers k → Answers (m >> k)
>>-Answers m k (inl e) k' = rw e k'
>>-Answers m k (inr (e, bad)) k' = inr (e, rw bad)

check_ids-Answers :
    (seen : List String) (existing : Table JobDef) (js : List JobDef)
    → Answers (check_ids seen existing js)
unfolding check_ids
check_ids-Answers seen existing [] = inl refl
check_ids-Answers seen existing (j ∷ js) = elim (Bool-cases (elem j.id seen)) [
  | inl twice ↦ inr (duplicate_id j.id, rw twice)
  | inr new ↦ elim (Bool-cases (contains_key j.id existing)) [
    | inl old ↦ inr (already_exists j.id, rw new (rw old refl))
    | inr fresh ↦ rw new (rw fresh (check_ids-Answers (j.id ∷ seen) existing js))
  ]
]

check_parent-Answers :
    (existing new_by_id : Table JobDef) (id : String) (pid : Option String)
    → Answers (check_parent existing new_by_id id pid)
unfolding check_parent
check_parent-Answers existing new_by_id id none = inl refl
check_parent-Answers existing new_by_id id (some p) =
    elim (Option-cases (find_parent existing new_by_id p)) [
      | inl miss ↦ inr (unknown_job id p, rw (miss, check_parent))
      | inr (parent, found) ↦ template id p parent.exec_template (rw (found, check_parent))
    ]
  where
    template :
        (id p : String) (t : ExecTemplate)
        → {r : Outcome (Unit {0})} → r ≡ check_template id p t
        → Answers r
    template id p in_process e = inr (in_process_input id p, e)
    template id p (argv _ _) e = inl e

check_inputs-Answers :
    (existing new_by_id : Table JobDef) (id : String) (inputs : Table InputRef)
    → Answers (check_inputs existing new_by_id id inputs)
unfolding check_inputs
check_inputs-Answers existing new_by_id id [] = inl refl
check_inputs-Answers existing new_by_id id ((name, r) ∷ inputs) =
    >>-Answers _ _ (check_parent-Answers existing new_by_id id (parent_id r))
      (check_inputs-Answers existing new_by_id id inputs)

check_resources-Answers :
    (caps : Table ℕ) (id : String) (r : Table ℕ) → Answers (check_resources caps id r)
unfolding check_resources
check_resources-Answers caps id [] = inl refl
check_resources-Answers caps id ((pool, amount) ∷ r) = elim (Option-cases (get pool caps)) [
  | inl miss ↦ inr (job_unknown_pool id pool, ground arith)
  | inr (cap, found) ↦ elim (Bool-cases (ltb cap amount)) [
    | inl over ↦ inr (job_over_capacity id amount pool cap, ground arith)
    | inr fits ↦ elim (check_resources-Answers caps id r) [
      | inl good ↦ inl (ground arith)
      | inr (e, bad) ↦ inr (e, ground arith)
    ]
  ]
]

check_jobs-Answers :
    (existing new_by_id : Table JobDef) (caps : Table ℕ) (js : List JobDef)
    → Answers (check_jobs existing new_by_id caps js)
unfolding check_jobs
check_jobs-Answers existing new_by_id caps [] = inl refl
check_jobs-Answers existing new_by_id caps (j ∷ js) =
    >>-Answers _ _ (check_inputs-Answers existing new_by_id j.id j.inputs) (
      >>-Answers _ _ (check_resources-Answers caps j.id j.resources)
        (check_jobs-Answers existing new_by_id caps js))

-- The validation of any list of jobs against any graph ends in acceptance or in a graph error.
pub validate_and_index_answers :
    (new_jobs : List JobDef) (existing : Table JobDef) (caps : Table ℕ)
    → (validate_and_index new_jobs existing caps ≡ ok tt)
      ⊎ ((e : GraphError) × (validate_and_index new_jobs existing caps ≡ err e))
unfolding validate_and_index
validate_and_index_answers new_jobs existing caps = elim (check_ids-Answers [] existing new_jobs) [
  | inr (e, bad) ↦ inr (e, rw bad)
  | inl good ↦ rw good (
      >>-Answers _ _ (check_jobs-Answers existing (index_jobs [] new_jobs) caps new_jobs)
        (elim (detect_cycle_verdict new_jobs (check_ids-distinct existing new_jobs good).0) [
          | inl (acyclic, accepted) ↦ inl accepted
          | inr (cyclic, refused) ↦ inr (cycle_detected, refused)
        ]))
]
