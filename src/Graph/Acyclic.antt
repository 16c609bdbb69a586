-- ===== src/Graph/Acyclic.antt =====
-- What the outcome of `detect_cycle` (`crates/ppg3-core/src/scheduler.rs`) says of the job graph: it
-- decides whether the jobs can be ranked with every parent below its children.
use ppg.Common.{
  ℕ, suc, ◌≤◌, ◌<◌, ◌≡◌, true, false, not, ◌&&◌, List, [], ◌∷◌, String, ◌==◌, eq_iff, arith,
  if◌then◌else◌, Bool-cases, inl, inr, elem, occurrences, length, All, String-cases,
}
use ppg.Job.{JobDef}
use ppg.Graph.{job_ids}
use ppg.Graph.Links.{Edge, links, incoming}
use ppg.Graph.Kahn.{opened, IsOrdered, elem_of_occurrences}

-- A rank for every id that puts each parent below its child.
abbrev pub IsAcyclic : List Edge → Type 0
IsAcyclic es = (rank : String → ℕ) × All (λ (e : Edge). rank e.0 < rank e.1) es

abbrev pub DistinctIds : List JobDef → Type 0
DistinctIds [] = Unit
DistinctIds (j ∷ js) = (elem j.id (job_ids js) ≡ false) × DistinctIds js

-- The position of an id in a list, counted from its end.
pub position : String → List String → ℕ
position k [] = 0
position k (x ∷ xs) = if x == k then suc (length xs) else position k xs

position-le : (k : String) (xs : List String) → position k xs ≤ length xs
unfolding position
position-le k [] = omega arith
position-le k (x ∷ xs) = ground (arith, position-le k xs)

-- A link is an edge of the list, and the other way round.
pub All-of_links :
    (P : String → String → Type 0) (es : List Edge)
    → ((p c : String) → 0 < links p c es → P p c)
    → All (λ (e : Edge). P e.0 e.1) es
All-of_links P [] h = tt
All-of_links P ((p', c') ∷ es) h = (
  h p' c' (ground (arith, eq_iff p' p', eq_iff c' c')),
  All-of_links P es (λ p c l. h p c (omega (arith, l))),
)

pub rank_of_links :
    (rank : String → ℕ) (es : List Edge) (p c : String)
    → All (λ (e : Edge). rank e.0 < rank e.1) es
    → 0 < links p c es
    → rank p < rank c
rank_of_links rank [] p c h l = absurd (omega arith)
rank_of_links rank ((p', c') ∷ es) p c h l =
    ground (arith, eq_iff p' p, eq_iff c' c, rank_of_links rank es p c h.1)

pub incoming_of_links : (p c : String) (es : List Edge) → links p c es ≤ incoming c es
incoming_of_links p c [] = omega arith
incoming_of_links p c ((p', c') ∷ es) = ground (arith, incoming_of_links p c es)

-- A link whose parent was not visited keeps its child open.
opened_of_links :
    (visited : List String) (p c : String) (es : List Edge)
    → elem p visited ≡ false
    → links p c es ≤ opened visited c es
opened_of_links visited p c [] h = omega arith
opened_of_links visited p c ((p', c') ∷ es) h =
    ground (arith, opened_of_links visited p c es h, eq_iff p' p)

pub open_link :
    (visited : List String) (c : String) (es : List Edge)
    → 0 < opened visited c es
    → (p : String) × (0 < links p c es) × (elem p visited ≡ false)
open_link visited c [] h = absurd (omega arith)
open_link visited c ((p', c') ∷ es) h = elim (Bool-cases (c' == c && not (elem p' visited))) [
  | inl here ↦ (p', ground (arith, eq_iff p' p'), ground arith)
  | inr there ↦
      let (p, l, out) = open_link visited c es (ground arith) in (p, omega (arith, l), out)
]

-- In an order that names no id twice, a visited child has a lower parent.
pub position_lt :
    (es : List Edge) (xs : List String) (p c : String)
    → IsOrdered es xs
    → ((k : String) → occurrences k xs ≤ 1)
    → 0 < links p c es
    → elem c xs ≡ true
    → (elem p xs ≡ true) × (position p xs < position c xs)
unfolding elem occurrences position
position_lt es [] p c o once l h = absurd (ground arith)
position_lt es (x ∷ xs) p c o once l h = elim (String-cases x c) [
  | inl same ↦ elim (Bool-cases (elem p xs)) [
    | inr out ↦ absurd (ground (arith, opened_of_links xs p c es out, same.0, o.0))
    | inl below ↦ ground (
      arith,
      position-le p xs,
      same.0,
      same.1,
      eq_iff x p,
      once x,
      elem_of_occurrences x xs,
      eq_iff x x,
    )
  ]
  | inr other ↦
      let (below, lt) =
        position_lt es xs p c o.1 (λ k. omega (arith, once k)) l (ground (arith, other.1)) in
      ground (arith, other.1, eq_iff x p, once p, elem_of_occurrences p xs)
]
