-- ===== src/Graph/Verdict.antt =====
-- `detect_cycle` of `crates/ppg3-core/src/scheduler.rs` from its initial tables to its verdict.
use ppg.Common.{
  zero_or_pos, ℕ, zero, suc, ◌+◌, ◌≤◌, ◌<◌, ◌≡◌, refl, ◌∙◌, true, false, ◌||◌, List, [], ◌∷◌,
  String, eq_iff, arith, ◌=ℕ◌, ok, err, cycle_detected, Bool-cases, Option-cases, ◌⊎◌, inl, inr,
  bit, elem, occurrences, length, All, All-map,
}
use ppg.Table.{
  Table, get, insert, contains_key, get-insert, DistinctKeys, insert-DistinctKeys, get_absent,
}
use ppg.Table.Count.{count, get_of_count_zero, count_zero, length-insert}
use ppg.Job.{JobDef}
use ppg.Graph.{Edges, children, zero_degrees, no_parents, detect_cycle, job_ids, verdict}
use ppg.Graph.Links.{Edge, edges, links, incoming, degree, add_jobs-Adds, links_inside}
use ppg.Graph.Kahn.{opened, is_zero, positive, Holds, visit-Visited}
use ppg.Graph.Acyclic.{
  IsAcyclic, DistinctIds, position, All-of_links, rank_of_links, incoming_of_links, open_link,
  position_lt,
}

-- Every id has its entry, and every entry is zero.
abbrev pub AllZero : List JobDef → Table ℕ → Type 0
AllZero jobs m =
    ((k : String) → degree k m ≡ 0)
    × All (λ (j : JobDef). contains_key j.id m ≡ true) jobs
    × DistinctKeys m

zero_degrees-degree :
    (m : Table ℕ) (jobs : List JobDef)
    → ((k : String) → degree k m ≡ 0)
    → (k : String) → degree k (zero_degrees m jobs) ≡ 0
unfolding zero_degrees
zero_degrees-degree m [] h k = h k
zero_degrees-degree m (j ∷ js) h k =
    zero_degrees-degree (insert j.id 0 m) js (λ i. ground (arith, get-insert i j.id 0 m, h i)) k

zero_degrees-DistinctKeys :
    (m : Table ℕ) (jobs : List JobDef) → DistinctKeys m → DistinctKeys (zero_degrees m jobs)
unfolding zero_degrees
zero_degrees-DistinctKeys m [] d = d
zero_degrees-DistinctKeys m (j ∷ js) d =
    zero_degrees-DistinctKeys (insert j.id 0 m) js (insert-DistinctKeys j.id 0 m d)

zero_degrees-contains :
    (k : String) (m : Table ℕ) (jobs : List JobDef)
    → contains_key k (zero_degrees m jobs) ≡ (contains_key k m || elem k (job_ids jobs))
unfolding zero_degrees contains_key elem
zero_degrees-contains k m [] = ground arith
zero_degrees-contains k m (j ∷ js) =
    ground (arith, zero_degrees-contains k (insert j.id 0 m) js, get-insert k j.id 0 m)

elem_ids : (jobs : List JobDef) → All (λ (j : JobDef). elem j.id (job_ids jobs) ≡ true) jobs
unfolding elem
elem_ids [] = tt
elem_ids (j ∷ js) =
    (ground (arith, eq_iff j.id j.id), All-map js (elem_ids js) (λ k h. ground arith))

still_fresh :
    (i : String) (m : Table ℕ) (jobs : List JobDef)
    → elem i (job_ids jobs) ≡ false
    → All (λ (j : JobDef). contains_key j.id m ≡ false) jobs
    → All (λ (j : JobDef). contains_key j.id (insert i 0 m) ≡ false) jobs
unfolding contains_key elem
still_fresh i m [] e h = tt
still_fresh i m (j ∷ js) e h = (
  ground (arith, get-insert j.id i 0 m, h.0, eq_iff i j.id, eq_iff j.id i),
  still_fresh i m js (ground arith) h.1,
)

length-zero_degrees :
    (m : Table ℕ) (jobs : List JobDef)
    → DistinctIds jobs
    → All (λ (j : JobDef). contains_key j.id m ≡ false) jobs
    → length (zero_degrees m jobs) ≡ length m + length jobs
unfolding zero_degrees contains_key
length-zero_degrees m [] d fresh = omega arith
length-zero_degrees m (j ∷ js) d fresh = ground (
  arith,
  length-zero_degrees (insert j.id 0 m) js d.1 (still_fresh j.id m js d.0 fresh.1),
  length-insert j.id 0 m,
)

-- The first queue holds the keys whose entry is zero.
occurrences-no_parents :
    (c : String) (m : Table ℕ)
    → DistinctKeys m
    → occurrences c (no_parents m) ≡ bit (is_zero (get c m))
unfolding no_parents occurrences get
occurrences-no_parents c [] d = refl
occurrences-no_parents c ((k, zero) ∷ m) d =
    ground (arith, occurrences-no_parents c m d.1, eq_iff k c, get_absent k m d.0)
occurrences-no_parents c ((k, suc n) ∷ m) d =
    ground (arith, occurrences-no_parents c m d.1, eq_iff k c, get_absent k m d.0)

length-no_parents : (m : Table ℕ) → length (no_parents m) + count positive m ≡ length m
unfolding no_parents
length-no_parents [] = refl
length-no_parents ((k, zero) ∷ m) = omega (arith, length-no_parents m)
length-no_parents ((k, suc n) ∷ m) = omega (arith, length-no_parents m)

opened_none : (c : String) (es : List Edge) → opened [] c es ≡ incoming c es
unfolding elem
opened_none c [] = refl
opened_none c ((p', c') ∷ es) = ground (arith, opened_none c es)

-- The state in which the loop starts.
Holds-start :
    (es : List Edge) (indeg : Table ℕ)
    → ((c : String) → degree c indeg ≡ incoming c es)
    → DistinctKeys indeg
    → Holds es [] [] indeg (no_parents indeg) 0
unfolding occurrences
Holds-start es indeg counted d = record {
  degrees = λ c. omega (arith, counted c, opened_none c es);
  settled = λ c. omega (arith, occurrences-no_parents c indeg d);
  total = omega (arith, length-no_parents indeg);
  ordered = tt;
  distinct = d;
}

-- What is left of the loop: the final tables, and the number of visited ids against that of jobs.
abbrev pub Finished : List JobDef → ℕ → Type 0
Finished jobs n =
    (visited : List String) × (indeg : Table ℕ) × Holds (edges (job_ids jobs) jobs) visited [] indeg
      [] n
    × ((p c : String)
        → 0 < links p c (edges (job_ids jobs) jobs)
        → (contains_key p indeg ≡ true) × (contains_key c indeg ≡ true))
    × (length indeg ≡ length jobs)

contains_of_degree : (k : String) (m : Table ℕ) → 0 < degree k m → contains_key k m ≡ true
unfolding contains_key
contains_of_degree k m h = ground arith

no_keys :
    (jobs : List JobDef)
    → All (λ (j : JobDef). contains_key j.id (let m : Table ℕ = [] in m) ≡ false) jobs
unfolding contains_key get
no_keys [] = tt
no_keys (j ∷ js) = (refl, no_keys js)

no_children : (p c : String) → occurrences c (children p []) ≡ 0
unfolding occurrences get
no_children p c = refl

-- The loops run to their end, whatever the jobs are, as long as no id stands twice.
detect_cycle-Finished :
    (jobs : List JobDef)
    → DistinctIds jobs
    → (n : ℕ) × (detect_cycle jobs ≡ verdict n jobs) × Finished jobs n
unfolding detect_cycle
detect_cycle-Finished jobs d =
    let ids : List String = job_ids jobs in
    let es : List Edge = edges ids jobs in
    let start : Edges = record { adj = []; indeg = zero_degrees [] jobs } in
    let has_id : (k : String) → contains_key k start.indeg ≡ elem k ids =
      λ k. zero_degrees-contains k [] jobs ∙ (unfold contains_key get in refl) in
    let (e, eq, a) =
      add_jobs-Adds ids jobs start (All-map jobs (elem_ids jobs) (λ j h. has_id j.id ∙ h)) in
    let degrees : (c : String) → degree c e.indeg ≡ incoming c es =
      λ c. omega (arith, a.counted c, zero_degrees-degree [] jobs (λ k. unfold get in refl) c) in
    let distinct : DistinctKeys e.indeg = a.distinct (zero_degrees-DistinctKeys [] jobs tt) in
    let size : length e.indeg ≡ length jobs =
      a.same_length ∙ (length-zero_degrees [] jobs d (no_keys jobs) ∙ (omega arith)) in
    let (visited, indeg, n, eq', h, keys, len) =
      visit-Visited es e.adj (λ p c. omega (arith, a.linked p c, no_children p c))
        (suc (length jobs)) [] e.indeg (no_parents e.indeg) 0
        (omega (arith, length-no_parents e.indeg, size))
        (Holds-start es e.indeg degrees distinct) in
    (
      n,
      rw eq (rw eq' refl),
      (
        visited,
        indeg,
        h,
        (λ p c l. (
          keys p ∙ (a.same_keys p ∙ (has_id p ∙ links_inside ids jobs p c l)),
          keys c
              ∙ contains_of_degree c e.indeg
                  (omega (arith, degrees c, incoming_of_links p c es, l)),
        )),
        len ∙ size,
      ),
    )

-- An entry that is there, and whose degree is zero, counts as settled.
settled_of_degree :
    (k : String) (m : Table ℕ) → contains_key k m ≡ true → degree k m ≡ 0 → is_zero (get k m) ≡ true
unfolding contains_key
settled_of_degree k m known z = ground arith

elem_pos : (k : String) (xs : List String) → 0 < occurrences k xs → elem k xs ≡ true
unfolding elem occurrences
elem_pos k [] h = absurd (omega arith)
elem_pos k (x ∷ xs) h = ground (arith, elem_pos k xs)

module _ (es : List Edge) (visited : List String) (indeg : Table ℕ) (n : ℕ)
    (h : Holds es visited [] indeg [] n)
    (inside : (p c : String)
      → 0 < links p c es
      → (contains_key p indeg ≡ true) × (contains_key c indeg ≡ true)) where
  once : (k : String) → occurrences k visited ≤ 1
  unfolding occurrences
  once k = ground (arith, h.settled k)

  visited_of_degree :
      (k : String) → contains_key k indeg ≡ true → degree k indeg ≡ 0 → elem k visited ≡ true
  unfolding occurrences
  visited_of_degree k known z =
      elem_pos k visited (ground (arith, h.settled k, settled_of_degree k indeg known z))

  -- Where no degree is left, the visits' order ranks the graph.
  ranks : ((k : String) → degree k indeg ≡ 0) → IsAcyclic es
  ranks zero_all = (
    λ k. position k visited,
    All-of_links (λ p c. position p visited < position c visited) es
        λ p c l.
          (position_lt es visited p c h.ordered once l
            (visited_of_degree c (inside p c l).1 (zero_all c))).1,
  )

  -- Where the graph has a rank, no degree is left.
  no_degree :
      (rank : String → ℕ)
      → All (λ (e : Edge). rank e.0 < rank e.1) es
      → (bound : ℕ) (c : String) → rank c < bound
      → degree c indeg ≡ 0
  no_degree rank up zero c lt = absurd (omega arith)
  no_degree rank up (suc bound) c lt = elim (zero_or_pos (degree c indeg)) [
    | inl z ↦ z
    | inr pos ↦
        let (p, l, out) =
          open_link visited c es (unfold occurrences in omega (arith, h.degrees c, pos)) in
        let below : rank p < rank c = rank_of_links rank es p c up l in
        let z : degree p indeg ≡ 0 = no_degree rank up bound p (omega arith) in
        absurd (ground (arith, visited_of_degree p (inside p c l).0 z))
  ]

  degree_of_count : count positive indeg ≡ 0 → (k : String) → degree k indeg ≡ 0
  degree_of_count z k = elim (Option-cases (get k indeg)) [
    | inl miss ↦ ground arith
    | inr (zero, e) ↦ ground arith
    | inr (suc d, e) ↦ ground (arith, get_of_count_zero positive k (suc d) indeg z e)
  ]

  count_of_degree : ((k : String) → degree k indeg ≡ 0) → count positive indeg ≡ 0
  count_of_degree all = count_zero positive indeg h.distinct (λ k v e. ground (arith, all k))

-- `detect_cycle` decides acyclicity. On jobs with distinct ids it accepts exactly when the ids can
-- be ranked so that each parent, if it is one of the jobs, stands below its child; otherwise its
-- answer is the cycle error. It never panics and never runs out of fuel.
pub detect_cycle_verdict :
    (jobs : List JobDef)
    → DistinctIds jobs
    → (IsAcyclic (edges (job_ids jobs) jobs) × (detect_cycle jobs ≡ ok tt))
      ⊎ ((¬ IsAcyclic (edges (job_ids jobs) jobs)) × (detect_cycle jobs ≡ err cycle_detected))
detect_cycle_verdict jobs d =
    let es : List Edge = edges (job_ids jobs) jobs in
    let (n, eq, (visited, indeg, h, inside, len)) = detect_cycle-Finished jobs d in
    elim (Bool-cases (n =ℕ length jobs)) [
      | inl all_seen ↦ inl (
        ranks es visited indeg n h inside
            (degree_of_count es visited indeg n h inside (ground (arith, h.total, len))),
        ground (arith, eq),
      )
      | inr some_left ↦ inr (
        (λ acyclic.
            let (rank, up) = acyclic in
            ground (
              arith,
              h.total,
              len,
              count_of_degree es visited indeg n h inside (λ k.
                  no_degree es visited indeg n h inside rank up (suc (rank k)) k (omega arith)),
            )),
        ground (arith, eq),
      )
    ]
