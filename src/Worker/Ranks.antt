-- ===== src/Worker/Ranks.antt =====
-- The running graph of `crates/ppg3-core/src/scheduler.rs` stays free of cycles, also where a graph job
-- adds jobs to it: every job has a rank above the ranks of its parents.
use ppg.Common.{
  ℕ, suc, ◌+◌, ◌≤◌, ◌<◌, ◌≡◌, refl, sym, ap, subst, ◌∙◌, true, false, none, some, List, [], ◌∷◌,
  String, ◌==◌, eq_iff, occurrences, elem, arith, if◌then◌else◌, Bool-cases, Option-cases, inl, inr,
  String-cases, All,
}
use ppg.Table.{Table, get, contains_key}
use ppg.Job.{JobDef, parent_ids}
use ppg.Graph.{job_ids, index_jobs}
use ppg.Graph.Links.{edges, edges_to, links, links-append}
use ppg.Graph.Acyclic.{rank_of_links}
use ppg.Graph.Valid.{find_job, owner, HasEntry, IsValid, get-index_jobs}
use ppg.Scheduler.Invariant.{parents_of}

-- Ranks below a bound, with every parent a job of a lower rank.
pub record HasRank (jobs : Table JobDef) : Type 0 where
  pub rank : String → ℕ
  pub bound : ℕ
  pub below : (k : String) → contains_key k jobs ≡ true → rank k < bound
  pub up :
      (p c : String)
      → 0 < occurrences p (parents_of jobs c)
      → (rank p < rank c) × (contains_key p jobs ≡ true)

pub HasRank-none : HasRank []
unfolding get contains_key occurrences
HasRank-none = record {
  rank = λ k. 0;
  bound = 0;
  below = λ k h. absurd (ground arith);
  up = λ p c h. absurd (omega arith);
}

-- Membership by search.
All_find :
    (P : JobDef → Type 0) (k : String) (js : List JobDef) {j : JobDef}
    → find_job k js ≡ some j
    → All P js
    → P j
unfolding find_job
All_find P k [] e h = cc
All_find P k (i ∷ js) {j} e h = elim (Bool-cases (i.id == k)) [
  | inl here ↦ let same : i ≡ j = ground arith in subst P same h.0
  | inr there ↦ All_find P k js (ground arith) h.1
]

id_of_find : (k : String) (js : List JobDef) {j : JobDef} → find_job k js ≡ some j → j.id ≡ k
unfolding find_job
id_of_find k [] e = cc
id_of_find k (i ∷ js) {j} e = elim (String-cases i.id k) [
  | inl same ↦
      let found : i ≡ j = ground (arith, same.1) in ap (λ (x : JobDef). x.id) (sym found) ∙ same.0
  | inr other ↦ id_of_find k js {j = j} (ground (arith, other.1))
]

All_occurs :
    (P : String → Type 0) (p : String) (ps : List String) → 0 < occurrences p ps → All P ps → P p
unfolding occurrences
All_occurs P p [] o h = absurd (omega arith)
All_occurs P p (q ∷ ps) o h = elim (String-cases q p) [
  | inl same ↦ subst P same.0 h.0
  | inr other ↦ All_occurs P p ps (ground (arith, other.1)) h.1
]

elem_find :
    (k : String) (js : List JobDef)
    → elem k (job_ids js) ≡ elim (find_job k js) [ none ↦ false | some _ ↦ true ]
unfolding find_job elem
elem_find k [] = refl
elem_find k (j ∷ js) = ground (arith, elem_find k js)

links_to_occurs :
    (ids : List String) (id p : String) (ps : List String)
    → elem p ids ≡ true
    → occurrences p ps ≤ links p id (edges_to ids id ps)
unfolding occurrences edges_to
links_to_occurs ids id p [] h = omega arith
links_to_occurs ids id p (q ∷ ps) h =
    ground (arith, links_to_occurs ids id p ps h, eq_iff q p, eq_iff id id)

-- A parent among the ids gives an edge to the job that a search finds.
links_of_find :
    (ids : List String) (p c : String) (js : List JobDef) {j : JobDef}
    → elem p ids ≡ true
    → find_job c js ≡ some j
    → occurrences p (parent_ids j) ≤ links p c (edges ids js)
unfolding find_job edges
links_of_find ids p c [] h e = cc
links_of_find ids p c (i ∷ js) {j} h e = elim (String-cases i.id c) [
  | inl same ↦
      let found : i ≡ j = ground (arith, same.1) in
      let mine : occurrences p (parent_ids i) ≤ links p i.id (edges_to ids i.id (parent_ids i)) =
        links_to_occurs ids i.id p (parent_ids i) h in
      ground (
        arith,
        mine,
        found,
        same.0,
        ap (λ (k : JobDef). occurrences p (parent_ids k)) found,
        ap (λ (k : String). links p k (edges_to ids i.id (parent_ids i))) same.0,
        links-append p c (edges_to ids i.id (parent_ids i)) (edges ids js),
      )
  | inr other ↦ ground (
    arith,
    links_of_find ids p c js {j = j} h (ground (arith, other.1)),
    links-append p c (edges_to ids i.id (parent_ids i)) (edges ids js),
  )
]

-- A bound on the ranks of the new ids.
highest : (String → ℕ) → List String → ℕ
highest rank [] = 0
highest rank (k ∷ ks) = suc (rank k) + highest rank ks

lt_highest :
    (rank : String → ℕ) (k : String) (ks : List String)
    → elem k ks ≡ true
    → rank k < highest rank ks
unfolding highest elem
lt_highest rank k [] h = absurd (ground arith)
lt_highest rank k (j ∷ ks) h = elim (String-cases j k) [
  | inl same ↦ omega (arith, ap rank same.0)
  | inr other ↦ omega (arith, lt_highest rank k ks (ground (arith, other.1)))
]

module _ (jobs : Table JobDef) (js : List JobDef) (caps : Table ℕ) (v : IsValid js jobs caps)
    (h : HasRank jobs) where
  merged : Table JobDef
  merged = index_jobs jobs js

  get-merged :
      (k : String) → get k merged ≡ elim (find_job k js) [ none ↦ get k jobs | some j ↦ some j ]
  unfolding merged
  get-merged k = get-index_jobs k jobs js v.distinct

  merged_rank : String → ℕ
  merged_rank k = if elem k (job_ids js) then h.bound + v.acyclic.0 k else h.rank k

  -- No id is both old and new.
  old_or_new : (k : String) → contains_key k jobs ≡ true → find_job k js ≡ none
  old_or_new k known = elim (Option-cases (find_job k js)) [
    | inl miss ↦ miss
    | inr (j, found) ↦ absurd (
        ground (
          arith,
          All_find (λ i. contains_key i.id jobs ≡ false) k js found v.fresh,
          id_of_find k js found,
        ))
  ]

  is_old : (k : String) → contains_key k jobs ≡ true → elem k (job_ids js) ≡ false
  is_old k known = elem_find k js ∙ (rw (old_or_new k known))

  -- The parents of a new job: an old job, or a new one below it.
  new_parent :
      (p c : String) (j : JobDef)
      → find_job c js ≡ some j
      → 0 < occurrences p (parent_ids j)
      → (merged_rank p < merged_rank c) × (contains_key p merged ≡ true)
  unfolding merged_rank owner contains_key
  new_parent p c j found o =
      let c_new : elem c (job_ids js) ≡ true = elem_find c js ∙ (rw found) in
      let (parent, owned, entry) : HasEntry jobs js p =
        All_occurs (HasEntry jobs js) p (parent_ids j) o
          (All_find (λ i. All (HasEntry jobs js) (parent_ids i)) c js found v.parents) in
      elim (Option-cases (get p jobs)) [
        | inr (q, known) ↦
            let there : contains_key p jobs ≡ true = ground (arith, known) in
            let p_old : elem p (job_ids js) ≡ false = is_old p there in
            let lower : h.rank p < h.bound = h.below p there in
            (
              ground (arith, p_old, c_new, lower),
              ground (arith, get-merged p, known, old_or_new p there),
            )
        | inl missing ↦
            let p_found : find_job p js ≡ some parent = ground (arith, owned, missing) in
            let p_new : elem p (job_ids js) ≡ true = elem_find p js ∙ (rw p_found) in
            let edge : 0 < links p c (edges (job_ids js) js) =
              omega (arith, o, links_of_find (job_ids js) p c js {j = j} p_new found) in
            let lower : v.acyclic.0 p < v.acyclic.0 c =
              rank_of_links v.acyclic.0 (edges (job_ids js) js) p c v.acyclic.1 edge in
            (ground (arith, p_new, c_new, lower), ground (arith, get-merged p, p_found))
      ]

  old_parent :
      (p c : String)
      → find_job c js ≡ none
      → 0 < occurrences p (parents_of jobs c)
      → (merged_rank p < merged_rank c) × (contains_key p merged ≡ true)
  unfolding merged_rank contains_key
  old_parent p c miss o =
      let (lower, known) = h.up p c o in
      let p_old : elem p (job_ids js) ≡ false = is_old p known in
      let c_old : elem c (job_ids js) ≡ false = elem_find c js ∙ (rw miss) in
      (ground (arith, p_old, c_old, lower), ground (arith, get-merged p, old_or_new p known, known))

  merged_up :
      (p c : String)
      → 0 < occurrences p (parents_of merged c)
      → (merged_rank p < merged_rank c) × (contains_key p merged ≡ true)
  merged_up p c o = elim (Option-cases (find_job c js)) [
    | inr (j, found) ↦
        let same : parents_of merged c ≡ parent_ids j = ground (arith, get-merged c, found) in
        new_parent p c j found (subst (λ ps. 0 < occurrences p ps) same o)
    | inl miss ↦
        let same : parents_of merged c ≡ parents_of jobs c = ground (arith, get-merged c, miss) in
        old_parent p c miss (subst (λ ps. 0 < occurrences p ps) same o)
  ]

  merged_below :
      (k : String)
      → contains_key k merged ≡ true
      → merged_rank k < h.bound + (highest v.acyclic.0 (job_ids js) + 1)
  unfolding merged_rank contains_key
  merged_below k known = elim (Bool-cases (elem k (job_ids js))) [
    | inl new ↦ ground (arith, new, lt_highest v.acyclic.0 k (job_ids js) new)
    | inr old ↦
        let was : contains_key k jobs ≡ true =
          unfold contains_key in ground (arith, get-merged k, elem_find k js, old, known) in
        ground (arith, old, h.below k was)
  ]

  -- A valid expansion of a ranked graph has ranks again.
  pub merged_HasRank : HasRank (index_jobs jobs js)
  unfolding merged
  merged_HasRank = record {
    rank = merged_rank;
    bound = h.bound + (highest v.acyclic.0 (job_ids js) + 1);
    below = merged_below;
    up = merged_up;
  }
