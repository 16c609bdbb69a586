-- ===== src/Graph.antt =====
-- The static validation of a job graph: `validate_and_index` and `detect_cycle` of
-- `crates/ppg3-core/src/scheduler.rs`.
-- Kahn's loop takes fuel, one round more than there are jobs. The ready ids enter the first queue
-- in the order in which the map of in-degrees lists them, which Rust leaves open.
use ppg.Common.{
  ℕ, zero, suc, ◌+◌, ◌-◌, ◌≡◌, Bool, true, false, not, Option, none, some, List, [], ◌∷◌, ◌++◌,
  String, ◌==◌, if◌then◌else◌, ltb, ◌=ℕ◌, GraphError, duplicate_id, already_exists, unknown_job,
  in_process_input, job_unknown_pool, job_over_capacity, cycle_detected, Outcome, ok, err, panicked,
  ◌>>=◌, ◌>>◌, length, elem,
}
use ppg.Table.{Table, get, insert, contains_key}
use ppg.Job.{JobDef, InputRef, ExecTemplate, argv, in_process, parent_id, parent_ids}
pub mod Links
pub mod Kahn
pub mod Acyclic
pub mod Verdict
pub mod Valid
pub mod Accepts
pub mod Answers
pub mod Samples

-- The first loop: no id twice, and none that the running graph has.
unfoldable pub check_ids : List String → Table JobDef → List JobDef → Outcome (Unit {0})
check_ids seen existing [] = ok tt
check_ids seen existing (j ∷ js) =
    if elem j.id seen
    then err (duplicate_id j.id)
    else if contains_key j.id existing
    then err (already_exists j.id)
    else check_ids (j.id ∷ seen) existing js

-- `new_jobs.iter().map(|j| (j.id.as_str(), j)).collect()`
unfoldable pub index_jobs : Table JobDef → List JobDef → Table JobDef
index_jobs m [] = m
index_jobs m (j ∷ js) = index_jobs (insert j.id j m) js

-- The parent job, among the existing jobs first.
unfoldable pub find_parent : Table JobDef → Table JobDef → String → Option JobDef
find_parent existing new_by_id pid = elim (get pid existing) [
  | none ↦ get pid new_by_id
  | some p ↦ some p
]

unfoldable pub check_template : String → String → ExecTemplate → Outcome (Unit {0})
check_template id pid in_process = err (in_process_input id pid)
check_template id pid (argv _ _) = ok tt

unfoldable pub check_parent :
    Table JobDef → Table JobDef → String → Option String → Outcome (Unit {0})
unfolding find_parent check_template
check_parent existing new_by_id id none = ok tt
check_parent existing new_by_id id (some pid) = elim (find_parent existing new_by_id pid) [
  | none ↦ err (unknown_job id pid)
  | some parent ↦ check_template id pid parent.exec_template
]

unfoldable pub check_inputs :
    Table JobDef → Table JobDef → String → Table InputRef → Outcome (Unit {0})
unfolding check_parent
check_inputs existing new_by_id id [] = ok tt
check_inputs existing new_by_id id ((name, r) ∷ inputs) = do
  check_parent existing new_by_id id (parent_id r)
  check_inputs existing new_by_id id inputs

unfoldable pub check_resources : Table ℕ → String → Table ℕ → Outcome (Unit {0})
check_resources pools_cap id [] = ok tt
check_resources pools_cap id ((pool, amount) ∷ resources) = elim (get pool pools_cap) [
  | none ↦ err (job_unknown_pool id pool)
  | some cap ↦
      if ltb cap amount
      then err (job_over_capacity id amount pool cap)
      else check_resources pools_cap id resources
]

unfoldable pub check_jobs : Table JobDef → Table JobDef → Table ℕ → List JobDef → Outcome (Unit {0})
unfolding check_inputs check_resources
check_jobs existing new_by_id pools_cap [] = ok tt
check_jobs existing new_by_id pools_cap (j ∷ js) = do
  check_inputs existing new_by_id j.id j.inputs
  check_resources pools_cap j.id j.resources
  check_jobs existing new_by_id pools_cap js

-- The children of a job, and how many parents each job waits for.
pub record Edges : Type 0 where
  pub adj : Table (List String)
  pub indeg : Table ℕ

abbrev pub children : String → Table (List String) → List String
children id adj = elim (get id adj) [ none ↦ [] | some cs ↦ cs ]

unfoldable pub zero_degrees : Table ℕ → List JobDef → Table ℕ
zero_degrees m [] = m
zero_degrees m (j ∷ js) = zero_degrees (insert j.id 0 m) js

-- `adj.entry(pid).or_default().push(id)` and `*indeg.get_mut(&id).unwrap() += 1`
unfoldable pub add_edge : String → String → Edges → Outcome Edges
add_edge pid id e = elim (get id e.indeg) [
  | none ↦ panicked
  | some d ↦ ok (record {
    adj = insert pid (children pid e.adj ++ id ∷ []) e.adj;
    indeg = insert id (d + 1) e.indeg;
  })
]

unfoldable pub add_parents : List String → String → List String → Edges → Outcome Edges
unfolding add_edge
add_parents ids id [] e = ok e
add_parents ids id (pid ∷ pids) e =
    if elem pid ids
    then (do e' ← add_edge pid id e; add_parents ids id pids e')
    else add_parents ids id pids e

unfoldable pub add_jobs : List String → List JobDef → Edges → Outcome Edges
unfolding add_parents
add_jobs ids [] e = ok e
add_jobs ids (j ∷ js) e = do e' ← add_parents ids j.id (parent_ids j) e; add_jobs ids js e'

-- The keys with no parent left.
unfoldable pub no_parents : Table ℕ → List String
no_parents [] = []
no_parents ((id, zero) ∷ m) = id ∷ no_parents m
no_parents ((id, suc d) ∷ m) = no_parents m

-- `for c in children`: the in-degree of each goes down by one, and at zero it is queued.
unfoldable pub lower : List String → Table ℕ → List String → Outcome (Table ℕ × List String)
lower [] indeg queue = ok (indeg, queue)
lower (c ∷ cs) indeg queue = elim (get c indeg) [
  | none ↦ panicked
  | some zero ↦ panicked
  | some (suc zero) ↦ lower cs (insert c 0 indeg) (queue ++ c ∷ [])
  | some (suc (suc d)) ↦ lower cs (insert c (suc d) indeg) queue
]

-- `while let Some(n) = queue.pop_front()`, and the number of visited ids.
unfoldable pub visit : ℕ → Table (List String) → Table ℕ → List String → ℕ → Outcome ℕ
unfolding lower
visit zero adj indeg queue visited = panicked
visit (suc fuel) adj indeg [] visited = ok visited
visit (suc fuel) adj indeg (n ∷ queue) visited = do
  (indeg', queue') ← lower (children n adj) indeg queue
  visit fuel adj indeg' queue' (visited + 1)

abbrev pub job_ids : List JobDef → List String
job_ids [] = []
job_ids (j ∷ js) = j.id ∷ job_ids js

abbrev pub verdict : ℕ → List JobDef → Outcome (Unit {0})
verdict visited jobs = if visited =ℕ length jobs then ok tt else err cycle_detected

unfoldable pub detect_cycle : List JobDef → Outcome (Unit {0})
unfolding add_jobs visit zero_degrees no_parents
detect_cycle jobs = do
  edges ← add_jobs (job_ids jobs) jobs (record { adj = []; indeg = zero_degrees [] jobs })
  visited ← visit (suc (length jobs)) edges.adj edges.indeg (no_parents edges.indeg) 0
  verdict visited jobs

unfoldable pub validate_and_index : List JobDef → Table JobDef → Table ℕ → Outcome (Unit {0})
unfolding check_ids check_jobs index_jobs detect_cycle
validate_and_index new_jobs existing_jobs pools_cap = do
  check_ids [] existing_jobs new_jobs
  check_jobs existing_jobs (index_jobs [] new_jobs) pools_cap new_jobs
  detect_cycle new_jobs
