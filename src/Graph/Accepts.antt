-- ===== src/Graph/Accepts.antt =====
-- `validate_and_index` of `crates/ppg3-core/src/scheduler.rs` accepts the valid graphs and no other,
-- and the resource pools accept every job of a graph that it accepts.
use ppg.Common.{
  ℕ, ◌≡◌, refl, some, List, [], ◌∷◌, String, arith, ok, >>-eq-ok, Option-cases, inl, inr, All,
  All-map, All-zip,
}
use ppg.Table.{Table, get}
use ppg.Pools
use ppg.Pools.Requests.{Fits, Fits-validate}
use ppg.Job.{JobDef, InputRef, job, job_subset, leaf, file, parent_ids, input_parents}
use ppg.Graph.{
  check_ids, check_jobs, check_inputs, check_parent, check_resources, index_jobs, find_parent,
  detect_cycle, validate_and_index,
}
use ppg.Graph.Acyclic.{DistinctIds}
use ppg.Graph.Verdict.{detect_cycle_verdict}
use ppg.Graph.Valid.{
  HasEntry, owner, IsValid, check_ids-distinct, distinct-check_ids, get-index_jobs,
}

module _ (existing : Table JobDef) (new_jobs : List JobDef) (d : DistinctIds new_jobs) where
  find_parent-eq-owner :
      (p : String) → find_parent existing (index_jobs [] new_jobs) p ≡ owner existing new_jobs p
  unfolding find_parent owner get
  find_parent-eq-owner p = ground (arith, get-index_jobs p [] new_jobs d)

  check_parent-HasEntry :
      (id p : String)
      → check_parent existing (index_jobs [] new_jobs) id (some p) ≡ ok tt
      → HasEntry existing new_jobs p
  unfolding check_parent
  check_parent-HasEntry id p h = elim (Option-cases (owner existing new_jobs p)) [
    | inl miss ↦ ground (arith, find_parent-eq-owner p)
    | inr (parent, found) ↦ (parent, found, λ bad. ground (arith, find_parent-eq-owner p))
  ]

  HasEntry-check_parent :
      (id p : String)
      → HasEntry existing new_jobs p
      → check_parent existing (index_jobs [] new_jobs) id (some p) ≡ ok tt
  unfolding check_parent
  HasEntry-check_parent id p (parent, found, entry) = ground (arith, find_parent-eq-owner p)

  check_inputs-HasEntry :
      (id : String) (inputs : Table InputRef)
      → check_inputs existing (index_jobs [] new_jobs) id inputs ≡ ok tt
      → All (HasEntry existing new_jobs) (input_parents inputs)
  unfolding input_parents check_inputs
  check_inputs-HasEntry id [] h = tt
  check_inputs-HasEntry id ((name, job p) ∷ inputs) h =
      let (here, rest) = >>-eq-ok _ _ h in
      (check_parent-HasEntry id p here, check_inputs-HasEntry id inputs rest)
  check_inputs-HasEntry id ((name, job_subset p names) ∷ inputs) h =
      let (here, rest) = >>-eq-ok _ _ h in
      (check_parent-HasEntry id p here, check_inputs-HasEntry id inputs rest)
  check_inputs-HasEntry id ((name, leaf hash) ∷ inputs) h = check_inputs-HasEntry id inputs h
  check_inputs-HasEntry id ((name, file hash source) ∷ inputs) h = check_inputs-HasEntry id inputs h

  HasEntry-check_inputs :
      (id : String) (inputs : Table InputRef)
      → All (HasEntry existing new_jobs) (input_parents inputs)
      → check_inputs existing (index_jobs [] new_jobs) id inputs ≡ ok tt
  unfolding input_parents check_inputs
  HasEntry-check_inputs id [] h = refl
  HasEntry-check_inputs id ((name, job p) ∷ inputs) h =
      rw (HasEntry-check_parent id p h.0) (HasEntry-check_inputs id inputs h.1)
  HasEntry-check_inputs id ((name, job_subset p names) ∷ inputs) h =
      rw (HasEntry-check_parent id p h.0) (HasEntry-check_inputs id inputs h.1)
  HasEntry-check_inputs id ((name, leaf hash) ∷ inputs) h = HasEntry-check_inputs id inputs h
  HasEntry-check_inputs id ((name, file hash source) ∷ inputs) h = HasEntry-check_inputs id inputs h

check_resources-Fits :
    (caps : Table ℕ) (id : String) (r : Table ℕ) → check_resources caps id r ≡ ok tt → Fits caps r
unfolding check_resources
check_resources-Fits caps id [] h = tt
check_resources-Fits caps id ((pool, amount) ∷ r) h = elim (Option-cases (get pool caps)) [
  | inl e ↦ ground arith
  | inr (cap, e) ↦ ((cap, e, ground arith), check_resources-Fits caps id r (ground arith))
]

Fits-check_resources :
    (caps : Table ℕ) (id : String) (r : Table ℕ) → Fits caps r → check_resources caps id r ≡ ok tt
unfolding check_resources
Fits-check_resources caps id [] h = refl
Fits-check_resources caps id ((pool, amount) ∷ r) ((cap, e, le), fits) =
    ground (arith, Fits-check_resources caps id r fits)

module _ (existing : Table JobDef) (new_jobs : List JobDef) (caps : Table ℕ)
    (d : DistinctIds new_jobs) where
  abbrev GoodJob : JobDef → Type 0
  GoodJob j = All (HasEntry existing new_jobs) (parent_ids j) × Fits caps j.resources

  check_jobs-GoodJob :
      (js : List JobDef)
      → check_jobs existing (index_jobs [] new_jobs) caps js ≡ ok tt
      → All GoodJob js
  unfolding check_jobs parent_ids
  check_jobs-GoodJob [] h = tt
  check_jobs-GoodJob (j ∷ js) h =
      let (inputs, more) =
        >>-eq-ok (check_inputs existing (index_jobs [] new_jobs) j.id j.inputs) _ h in
      let (resources, rest) = >>-eq-ok (check_resources caps j.id j.resources) _ more in
      (
        (
          check_inputs-HasEntry existing new_jobs d j.id j.inputs inputs,
          check_resources-Fits caps j.id j.resources resources,
        ),
        check_jobs-GoodJob js rest,
      )

  GoodJob-check_jobs :
      (js : List JobDef)
      → All GoodJob js
      → check_jobs existing (index_jobs [] new_jobs) caps js ≡ ok tt
  unfolding check_jobs parent_ids
  GoodJob-check_jobs [] h = refl
  GoodJob-check_jobs (j ∷ js) ((parents, fits), rest) =
      rw (HasEntry-check_inputs existing new_jobs d j.id j.inputs parents)
        (rw (Fits-check_resources caps j.id j.resources fits) (GoodJob-check_jobs js rest))

-- An accepted graph is valid: no id twice or in the running graph, every parent a job with a store
-- entry, every request within the pools' capacities, and no cycle among the new jobs.
pub validate_and_index-IsValid :
    (new_jobs : List JobDef) (existing : Table JobDef) (caps : Table ℕ)
    → validate_and_index new_jobs existing caps ≡ ok tt
    → IsValid new_jobs existing caps
unfolding validate_and_index
validate_and_index-IsValid new_jobs existing caps h =
    let (ids, more) = >>-eq-ok (check_ids [] existing new_jobs) _ h in
    let (jobs, last) =
      >>-eq-ok (check_jobs existing (index_jobs [] new_jobs) caps new_jobs) _ more in
    let (d, fresh) = check_ids-distinct existing new_jobs ids in
    let good = check_jobs-GoodJob existing new_jobs caps d new_jobs jobs in
    record {
      distinct = d;
      fresh = fresh;
      parents = All-map new_jobs good (λ j g. g.0);
      resources = All-map new_jobs good (λ j g. g.1);
      acyclic = elim (detect_cycle_verdict new_jobs d) [
        | inl (acyclic, accepted) ↦ acyclic
        | inr (cyclic, refused) ↦ absurd (ground arith)
      ];
    }

-- A valid graph is accepted.
pub IsValid-validate_and_index :
    (new_jobs : List JobDef) (existing : Table JobDef) (caps : Table ℕ)
    → IsValid new_jobs existing caps
    → validate_and_index new_jobs existing caps ≡ ok tt
unfolding validate_and_index
IsValid-validate_and_index new_jobs existing caps v =
    let jobs : check_jobs existing (index_jobs [] new_jobs) caps new_jobs ≡ ok tt =
      GoodJob-check_jobs existing new_jobs caps v.distinct new_jobs
        (All-zip _ _ new_jobs v.parents v.resources) in
    let ids : check_ids [] existing new_jobs ≡ ok tt =
      distinct-check_ids existing new_jobs v.distinct v.fresh in
    let last : detect_cycle new_jobs ≡ ok tt = elim (detect_cycle_verdict new_jobs v.distinct) [
      | inl (acyclic, accepted) ↦ accepted
      | inr (cyclic, refused) ↦ absurd (cyclic v.acyclic)
    ] in
    rw ids (rw jobs last)

-- The pools of a run have the capacities that the graph was validated against, so no job of an
-- accepted graph is turned away by `Pools::acquire` as a definition error.
pub validated_resources :
    (new_jobs : List JobDef) (existing : Table JobDef) (caps : Table ℕ)
    → validate_and_index new_jobs existing caps ≡ ok tt
    → All (λ (j : JobDef). Pools.validate (Pools.new caps).capacity j.resources ≡ ok tt) new_jobs
unfolding Pools.new
validated_resources new_jobs existing caps h =
    All-map new_jobs (validate_and_index-IsValid new_jobs existing caps h).resources
      (λ j fits. Fits-validate caps j.resources fits)
