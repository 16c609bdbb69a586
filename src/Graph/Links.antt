-- ===== src/Graph/Links.antt =====
-- The edges of a job graph as a list of pairs, and what the first half of `detect_cycle` builds from
-- them (`crates/ppg3-core/src/scheduler.rs`).
use ppg.Common.{
  occurrences-append, ℕ, ◌<◌, ◌+◌, ◌≡◌, refl, ◌∙◌, true, ◌&&◌, none, some, List, [], ◌∷◌, ◌++◌,
  String, ◌==◌, eq_iff, arith, if◌then◌else◌, Outcome, ok, Bool-cases, Option-cases, inl, inr, bit,
  elem, occurrences, length, All, All-map,
}
use ppg.Table.{Table, get, insert, contains_key, get-insert, DistinctKeys, insert-DistinctKeys}
use ppg.Table.Count.{length-insert}
use ppg.Job.{JobDef, parent_ids}
use ppg.Graph.{Edges, children, add_edge, add_parents, add_jobs}

-- A parent and its child, once for each input of the child that names the parent.
abbrev pub Edge : Type 0
Edge = String × String

unfoldable pub edges_to : List String → String → List String → List Edge
edges_to ids id [] = []
edges_to ids id (pid ∷ pids) =
    if elem pid ids then (pid, id) ∷ edges_to ids id pids else edges_to ids id pids

unfoldable pub edges : List String → List JobDef → List Edge
edges ids [] = []
edges ids (j ∷ js) = edges_to ids j.id (parent_ids j) ++ edges ids js

-- How many edges join two ids, and how many end in an id.
abbrev pub links : String → String → List Edge → ℕ
links p c [] = 0
links p c ((p', c') ∷ es) = bit (p' == p && c' == c) + links p c es

abbrev pub incoming : String → List Edge → ℕ
incoming c [] = 0
incoming c ((p', c') ∷ es) = bit (c' == c) + incoming c es

pub links-append :
    (p c : String) (es fs : List Edge) → links p c (es ++ fs) ≡ links p c es + links p c fs
links-append p c [] fs = omega arith
links-append p c ((p', c') ∷ es) fs = omega (arith, links-append p c es fs)

incoming-append :
    (c : String) (es fs : List Edge) → incoming c (es ++ fs) ≡ incoming c es + incoming c fs
incoming-append c [] fs = omega arith
incoming-append c ((p', c') ∷ es) fs = omega (arith, incoming-append c es fs)

occurrences_one : (k c : String) → occurrences k (c ∷ []) ≡ bit (c == k)
unfolding occurrences
occurrences_one k c = omega arith

abbrev pub degree : String → Table ℕ → ℕ
degree c indeg = elim (get c indeg) [ none ↦ 0 | some d ↦ d ]

-- What a part of the loop promises: no panic, each edge of the list added once, no id more.
pub record Added (before after : Edges) (es : List Edge) : Type 0 where
  pub linked :
      (p c : String)
      → occurrences c (children p after.adj) ≡ occurrences c (children p before.adj) + links p c es
  pub counted : (c : String) → degree c after.indeg ≡ degree c before.indeg + incoming c es
  pub same_keys : (k : String) → contains_key k after.indeg ≡ contains_key k before.indeg
  pub same_length : length after.indeg ≡ length before.indeg
  pub distinct : DistinctKeys before.indeg → DistinctKeys after.indeg

abbrev pub Adds : Edges → List Edge → Outcome Edges → Type 0
Adds before es r = (after : Edges) × (r ≡ ok after) × Added before after es

add_edge-Adds :
    (p c : String) (e : Edges)
    → contains_key c e.indeg ≡ true
    → Adds e ((p, c) ∷ []) (add_edge p c e)
unfolding add_edge contains_key
add_edge-Adds p c e known = elim (Option-cases (get c e.indeg)) [
  | inl miss ↦ ground arith
  | inr (d, found) ↦
      let after : Edges = record {
        adj = insert p (children p e.adj ++ c ∷ []) e.adj;
        indeg = insert c (d + 1) e.indeg;
      } in
      (
        after,
        ground arith,
        record {
          linked = λ p' c'. ground (
            arith,
            get-insert p' p (children p e.adj ++ c ∷ []) e.adj,
            occurrences-append c' (children p e.adj) (c ∷ []),
            occurrences_one c' c,
            eq_iff p p',
          );
          counted = λ c'. ground (arith, get-insert c' c (d + 1) e.indeg, eq_iff c c');
          same_keys = λ k. ground (arith, get-insert k c (d + 1) e.indeg, eq_iff c k);
          same_length = ground (arith, length-insert c (d + 1) e.indeg);
          distinct = insert-DistinctKeys c (d + 1) e.indeg;
        },
      )
]

Added-trans :
    {a b c : Edges} (es fs : List Edge) → Added a b es → Added b c fs → Added a c (es ++ fs)
Added-trans es fs x y = record {
  linked = λ p k. omega (arith, x.linked p k, y.linked p k, links-append p k es fs);
  counted = λ k. omega (arith, x.counted k, y.counted k, incoming-append k es fs);
  same_keys = λ k. y.same_keys k ∙ x.same_keys k;
  same_length = y.same_length ∙ x.same_length;
  distinct = λ d. y.distinct (x.distinct d);
}

Added-none : (e : Edges) → Added e e []
Added-none e = record {
  linked = λ p k. omega arith;
  counted = λ k. omega arith;
  same_keys = λ k. refl;
  same_length = refl;
  distinct = λ d. d;
}

add_parents-Adds :
    (ids : List String) (c : String) (pids : List String) (e : Edges)
    → contains_key c e.indeg ≡ true
    → Adds e (edges_to ids c pids) (add_parents ids c pids e)
unfolding add_parents edges_to
add_parents-Adds ids c [] e known = (e, refl, Added-none e)
add_parents-Adds ids c (p ∷ pids) e known = elim (Bool-cases (elem p ids)) [
  | inr outside ↦ rw outside (add_parents-Adds ids c pids e known)
  | inl inside ↦
      let (e', eq, a) = add_edge-Adds p c e known in
      let (e'', eq', a') = add_parents-Adds ids c pids e' (a.same_keys c ∙ known) in
      rw inside (rw eq (e'', eq', Added-trans ((p, c) ∷ []) (edges_to ids c pids) a a'))
]

-- Adding the jobs' parents to a map that has every job's id adds the edges of the graph.
pub add_jobs-Adds :
    (ids : List String) (jobs : List JobDef) (e : Edges)
    → All (λ (j : JobDef). contains_key j.id e.indeg ≡ true) jobs
    → Adds e (edges ids jobs) (add_jobs ids jobs e)
unfolding add_jobs edges
add_jobs-Adds ids [] e known = (e, refl, Added-none e)
add_jobs-Adds ids (j ∷ js) e known =
    let (e', eq, a) = add_parents-Adds ids j.id (parent_ids j) e known.0 in
    let (e'', eq', a') =
      add_jobs-Adds ids js e' (All-map js known.1 (λ k h. a.same_keys k.id ∙ h)) in
    rw eq (e'', eq', Added-trans (edges_to ids j.id (parent_ids j)) (edges ids js) a a')

links_to_inside :
    (ids : List String) (id : String) (pids : List String) (p c : String)
    → 0 < links p c (edges_to ids id pids)
    → elem p ids ≡ true
unfolding edges_to
links_to_inside ids id [] p c h = absurd (omega arith)
links_to_inside ids id (q ∷ pids) p c h =
    ground (arith, links_to_inside ids id pids p c, eq_iff q p)

-- Both ends of an edge are ids of the graph: a parent outside it is passed over.
pub links_inside :
    (ids : List String) (jobs : List JobDef) (p c : String)
    → 0 < links p c (edges ids jobs)
    → elem p ids ≡ true
unfolding edges
links_inside ids [] p c h = absurd (omega arith)
links_inside ids (j ∷ js) p c h = ground (
  arith,
  links-append p c (edges_to ids j.id (parent_ids j)) (edges ids js),
  links_to_inside ids j.id (parent_ids j) p c,
  links_inside ids js p c,
)
