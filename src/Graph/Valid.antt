-- ===== src/Graph/Valid.antt =====
-- What `validate_and_index` of `crates/ppg3-core/src/scheduler.rs` accepts.
use ppg.Common.{
  ℕ, ◌≡◌, ◌≢◌, refl, false, Option, none, some, List, [], ◌∷◌, String, ◌==◌, eq_iff, arith,
  if◌then◌else◌, ok, inl, inr, elem, All, All-map, String-cases,
}
use ppg.Table.{Table, get, insert, contains_key, get-insert}
use ppg.Pools.Requests.{Fits}
use ppg.Job.{JobDef, in_process, parent_ids}
use ppg.Graph.{check_ids, index_jobs, job_ids}
use ppg.Graph.Links.{edges}
use ppg.Graph.Acyclic.{IsAcyclic, DistinctIds}

-- The job of a list that has the id, if one has.
unfoldable pub find_job : String → List JobDef → Option JobDef
find_job k [] = none
find_job k (j ∷ js) = if j.id == k then some j else find_job k js

-- A job that produces a store entry: among the existing jobs, or else among the new ones.
unfoldable pub owner : Table JobDef → List JobDef → String → Option JobDef
owner existing new_jobs p = elim (get p existing) [ none ↦ find_job p new_jobs | some j ↦ some j ]

abbrev pub HasEntry : Table JobDef → List JobDef → String → Type 0
HasEntry existing new_jobs p =
    (parent : JobDef) × (owner existing new_jobs p ≡ some parent)
    × (parent.exec_template ≢ in_process)

-- A graph that may be merged into the running one.
pub record IsValid (new_jobs : List JobDef) (existing : Table JobDef) (caps : Table ℕ)
    : Type 0 where
  pub distinct : DistinctIds new_jobs
  pub fresh : All (λ (j : JobDef). contains_key j.id existing ≡ false) new_jobs
  pub parents : All (λ (j : JobDef). All (HasEntry existing new_jobs) (parent_ids j)) new_jobs
  pub resources : All (λ (j : JobDef). Fits caps j.resources) new_jobs
  pub acyclic : IsAcyclic (edges (job_ids new_jobs) new_jobs)

-- The id loop.
Unseen : List String → Table JobDef → List JobDef → Type 0
Unseen seen existing js =
    DistinctIds js
    × All (λ (j : JobDef). contains_key j.id existing ≡ false) js
    × All (λ (j : JobDef). elem j.id seen ≡ false) js

unseen_cons :
    (k : String) (seen : List String) (js : List JobDef)
    → All (λ (j : JobDef). elem j.id (k ∷ seen) ≡ false) js
    → (elem k (job_ids js) ≡ false) × All (λ (j : JobDef). elem j.id seen ≡ false) js
unfolding elem
unseen_cons k seen [] h = (refl, tt)
unseen_cons k seen (j ∷ js) h =
    let (out, rest) = unseen_cons k seen js h.1 in
    (ground (arith, h.0, eq_iff k j.id, eq_iff j.id k), (ground (arith, h.0), rest))

unseen_snoc :
    (k : String) (seen : List String) (js : List JobDef)
    → elem k (job_ids js) ≡ false
    → All (λ (j : JobDef). elem j.id seen ≡ false) js
    → All (λ (j : JobDef). elem j.id (k ∷ seen) ≡ false) js
unfolding elem
unseen_snoc k seen [] out h = tt
unseen_snoc k seen (j ∷ js) out h =
    (ground (arith, h.0, eq_iff k j.id, eq_iff j.id k), unseen_snoc k seen js (ground arith) h.1)

check_ids-Unseen :
    (seen : List String) (existing : Table JobDef) (js : List JobDef)
    → check_ids seen existing js ≡ ok tt
    → Unseen seen existing js
unfolding check_ids Unseen
check_ids-Unseen seen existing [] h = (tt, tt, tt)
check_ids-Unseen seen existing (j ∷ js) h =
    let (d, fresh, out) = check_ids-Unseen (j.id ∷ seen) existing js (ground arith) in
    let (new, rest) = unseen_cons j.id seen js out in
    ((new, d), (ground arith, fresh), (ground arith, rest))

Unseen-check_ids :
    (seen : List String) (existing : Table JobDef) (js : List JobDef)
    → Unseen seen existing js
    → check_ids seen existing js ≡ ok tt
unfolding check_ids Unseen
Unseen-check_ids seen existing [] h = refl
Unseen-check_ids seen existing (j ∷ js) ((new, d), (f, fresh), (o, out)) =
    ground (
      arith,
      Unseen-check_ids (j.id ∷ seen) existing js (d, fresh, unseen_snoc j.id seen js new out),
    )

pub check_ids-distinct :
    (existing : Table JobDef) (js : List JobDef)
    → check_ids [] existing js ≡ ok tt
    → DistinctIds js × All (λ (j : JobDef). contains_key j.id existing ≡ false) js
unfolding Unseen
check_ids-distinct existing js h =
    let (d, fresh, _) = check_ids-Unseen [] existing js h in (d, fresh)

pub distinct-check_ids :
    (existing : Table JobDef) (js : List JobDef)
    → DistinctIds js
    → All (λ (j : JobDef). contains_key j.id existing ≡ false) js
    → check_ids [] existing js ≡ ok tt
unfolding Unseen elem
distinct-check_ids existing js d fresh =
    Unseen-check_ids [] existing js (d, fresh, All-map js fresh (λ j _. refl))

find_job-none : (k : String) (js : List JobDef) → elem k (job_ids js) ≡ false → find_job k js ≡ none
unfolding find_job elem
find_job-none k [] h = refl
find_job-none k (j ∷ js) h = ground (arith, find_job-none k js)

-- The map by id finds what a search through the list finds.
pub get-index_jobs :
    (k : String) (m : Table JobDef) (js : List JobDef)
    → DistinctIds js
    → get k (index_jobs m js) ≡ elim (find_job k js) [ none ↦ get k m | some j ↦ some j ]
unfolding index_jobs find_job elem
get-index_jobs k m [] d = refl
get-index_jobs k m (j ∷ js) d = elim (String-cases j.id k) [
  | inl same ↦ ground (
    arith,
    get-index_jobs k (insert j.id j m) js d.1,
    get-insert k j.id j m,
    same.1,
    find_job-none k js (rw (← same.0) d.0),
  )
  | inr other ↦
      ground (arith, get-index_jobs k (insert j.id j m) js d.1, get-insert k j.id j m, other.1)
]
