-- ===== src/Graph/Kahn.antt =====
-- The loop of `detect_cycle` (`crates/ppg3-core/src/scheduler.rs`): what it keeps, and that it ends
-- within its fuel and without a panic.
use ppg.Common.{
  occurrences_snoc, ℕ, zero, suc, ◌+◌, ◌<◌, ◌≡◌, refl, ◌∙◌, Bool, true, false, not, ◌&&◌, Option,
  none, some, List, [], ◌∷◌, ◌++◌, String, ◌==◌, eq_iff, arith, Outcome, ok, Option-cases, ◌⊎◌, inl,
  inr, bit, elem, occurrences, length, length-append,
}
use ppg.Table.{Table, get, insert, contains_key, get-insert, DistinctKeys, insert-DistinctKeys}
use ppg.Table.Count.{count, count-insert, length-insert}
use ppg.Graph.{children, lower, visit}
use ppg.Graph.Links.{Edge, links, degree}

-- The edges into an id from parents that were not visited.
abbrev pub opened : List String → String → List Edge → ℕ
opened visited c [] = 0
opened visited c ((p', c') ∷ es) = bit (c' == c && not (elem p' visited)) + opened visited c es

-- Each id stands after the parents of all its edges; the list has the newest id first.
abbrev pub IsOrdered : List Edge → List String → Type 0
IsOrdered es [] = Unit
IsOrdered es (x ∷ xs) = (opened xs x es ≡ 0) × IsOrdered es xs

abbrev pub is_zero : Option ℕ → Bool
is_zero none = false
is_zero (some zero) = true
is_zero (some (suc d)) = false

abbrev pub positive : ℕ → Bool
positive zero = false
positive (suc d) = true

pub elem_of_occurrences : (k : String) (xs : List String) → occurrences k xs ≡ 0 → elem k xs ≡ false
unfolding elem occurrences
elem_of_occurrences k [] h = refl
elem_of_occurrences k (x ∷ xs) h = ground (arith, elem_of_occurrences k xs)

opened_visit :
    (x c : String) (visited : List String) (es : List Edge)
    → elem x visited ≡ false
    → opened visited c es ≡ opened (x ∷ visited) c es + links x c es
unfolding elem
opened_visit x c visited [] new = omega arith
opened_visit x c visited ((p', c') ∷ es) new =
    ground (arith, opened_visit x c visited es new, eq_iff x p', eq_iff p' x)

-- The state of the loop, where `rest` are the children that the inner loop has still to lower.
pub record Holds (es : List Edge) (visited rest : List String) (indeg : Table ℕ)
    (queue : List String) (n : ℕ) : Type 0 where
  pub degrees : (c : String) → degree c indeg ≡ opened visited c es + occurrences c rest
  pub settled :
      (c : String) → occurrences c visited + occurrences c queue ≡ bit (is_zero (get c indeg))
  pub total : n + length queue + count positive indeg ≡ length indeg
  pub ordered : IsOrdered es visited
  pub distinct : DistinctKeys indeg

abbrev SameKeys : Table ℕ → Table ℕ → Type 0
SameKeys m m' = (k : String) → contains_key k m ≡ contains_key k m'

abbrev Lowered : List Edge → List String → ℕ → Table ℕ → Outcome (Table ℕ × List String) → Type 0
Lowered es visited n indeg r =
    (indeg' : Table ℕ) × (queue' : List String) × (r ≡ ok (indeg', queue'))
    × Holds es visited [] indeg' queue' n
    × SameKeys indeg' indeg
    × (length indeg' ≡ length indeg)

-- A positive degree is one, or more than one.
degree_cases :
    (c : String) (m : Table ℕ)
    → 0 < degree c m
    → (get c m ≡ some 1) ⊎ ((d : ℕ) × (get c m ≡ some (suc (suc d))))
degree_cases c m h = elim (Option-cases (get c m)) [
  | inl e ↦ absurd (ground arith)
  | inr (zero, e) ↦ absurd (ground arith)
  | inr (suc zero, e) ↦ inl e
  | inr (suc (suc d), e) ↦ inr (d, e)
]

-- One child whose last open edge goes is queued; any other only has its degree lowered.
Holds-queue :
    (es : List Edge) (visited cs : List String) (c : String) (indeg : Table ℕ) (queue : List String)
    (n : ℕ)
    → get c indeg ≡ some 1
    → Holds es visited (c ∷ cs) indeg queue n
    → Holds es visited cs (insert c 0 indeg) (queue ++ c ∷ []) n
unfolding occurrences
Holds-queue es visited cs c indeg queue n e h = record {
  degrees = λ k. ground (arith, h.degrees k, get-insert k c 0 indeg, eq_iff c k);
  settled = λ k.
      ground (arith, h.settled k, get-insert k c 0 indeg, eq_iff c k, occurrences_snoc k c queue);
  total = ground (
    arith,
    h.total,
    count-insert positive c 0 indeg,
    length-insert c 0 indeg,
    length-append queue (c ∷ []),
  );
  ordered = h.ordered;
  distinct = insert-DistinctKeys c 0 indeg h.distinct;
}

Holds-lower :
    (es : List Edge) (visited cs : List String) (c : String) (d : ℕ) (indeg : Table ℕ)
    (queue : List String) (n : ℕ)
    → get c indeg ≡ some (suc (suc d))
    → Holds es visited (c ∷ cs) indeg queue n
    → Holds es visited cs (insert c (suc d) indeg) queue n
unfolding occurrences
Holds-lower es visited cs c d indeg queue n e h = record {
  degrees = λ k. ground (arith, h.degrees k, get-insert k c (suc d) indeg, eq_iff c k);
  settled = λ k. ground (arith, h.settled k, get-insert k c (suc d) indeg, eq_iff c k);
  total =
      ground (arith, h.total, count-insert positive c (suc d) indeg, length-insert c (suc d) indeg);
  ordered = h.ordered;
  distinct = insert-DistinctKeys c (suc d) indeg h.distinct;
}

insert-SameKeys :
    (c : String) (v w : ℕ) (m : Table ℕ) → get c m ≡ some w → SameKeys (insert c v m) m
unfolding contains_key
insert-SameKeys c v w m e k = ground (arith, get-insert k c v m, eq_iff c k)

lower-Lowered :
    (es : List Edge) (visited cs : List String) (indeg : Table ℕ) (queue : List String) (n : ℕ)
    → Holds es visited cs indeg queue n
    → Lowered es visited n indeg (lower cs indeg queue)
unfolding lower
lower-Lowered es visited [] indeg queue n h = (indeg, queue, refl, h, λ k. refl, refl)
lower-Lowered es visited (c ∷ cs) indeg queue n h =
    elim (degree_cases c indeg (unfold occurrences in ground (arith, h.degrees c, eq_iff c c))) [
      | inl e ↦
          let (indeg', queue', eq, h', keys, len) =
            lower-Lowered es visited cs (insert c 0 indeg) (queue ++ c ∷ []) n
              (Holds-queue es visited cs c indeg queue n e h) in
          (
            indeg',
            queue',
            ground arith,
            h',
            λ k. keys k ∙ insert-SameKeys c 0 1 indeg e k,
            ground (arith, length-insert c 0 indeg),
          )
      | inr (d, e) ↦
          let (indeg', queue', eq, h', keys, len) =
            lower-Lowered es visited cs (insert c (suc d) indeg) queue n
              (Holds-lower es visited cs c d indeg queue n e h) in
          (
            indeg',
            queue',
            ground arith,
            h',
            λ k. keys k ∙ insert-SameKeys c (suc d) (suc (suc d)) indeg e k,
            ground (arith, length-insert c (suc d) indeg),
          )
    ]

-- The loop's end: every id that it could reach is visited, and the queue is empty.
abbrev pub Visited : List Edge → Table ℕ → Outcome ℕ → Type 0
Visited es indeg r =
    (visited : List String) × (indeg' : Table ℕ) × (n : ℕ) × (r ≡ ok n)
    × Holds es visited [] indeg' [] n
    × SameKeys indeg' indeg
    × (length indeg' ≡ length indeg)

-- Taking an id from the queue leaves its edges to be lowered.
Holds-pop :
    (es : List Edge) (visited : List String) (x : String) (cs : List String) (indeg : Table ℕ)
    (queue : List String) (n : ℕ)
    → ((c : String) → occurrences c cs ≡ links x c es)
    → Holds es visited [] indeg (x ∷ queue) n
    → Holds es (x ∷ visited) cs indeg queue (n + 1)
unfolding occurrences
Holds-pop es visited x cs indeg queue n linked h =
    let alone : occurrences x visited ≡ 0 = ground (arith, h.settled x, eq_iff x x) in
    let new : elem x visited ≡ false = elem_of_occurrences x visited alone in
    record {
      degrees = λ c. omega (arith, h.degrees c, linked c, opened_visit x c visited es new);
      settled = λ c. omega (arith, h.settled c);
      total = omega (arith, h.total);
      ordered = (ground (arith, h.degrees x, h.settled x, eq_iff x x), h.ordered);
      distinct = h.distinct;
    }

pub visit-Visited :
    (es : List Edge) (adj : Table (List String))
    → ((p c : String) → occurrences c (children p adj) ≡ links p c es)
    → (fuel : ℕ) (visited : List String) (indeg : Table ℕ) (queue : List String) (n : ℕ)
    → length queue + count positive indeg < fuel
    → Holds es visited [] indeg queue n
    → Visited es indeg (visit fuel adj indeg queue n)
unfolding visit
visit-Visited es adj linked zero visited indeg queue n f h = absurd (omega arith)
visit-Visited es adj linked (suc fuel) visited indeg [] n f h =
    (visited, indeg, n, refl, h, λ k. refl, refl)
visit-Visited es adj linked (suc fuel) visited indeg (x ∷ queue) n f h =
    let (indeg', queue', eq, h', keys, len) =
      lower-Lowered es (x ∷ visited) (children x adj) indeg queue (n + 1)
        (Holds-pop es visited x (children x adj) indeg queue n (linked x) h) in
    let (visited', indeg'', m, eq', h'', keys', len') =
      visit-Visited es adj linked fuel (x ∷ visited) indeg' queue' (n + 1)
        (omega (arith, h.total, h'.total)) h' in
    (visited', indeg'', m, rw eq eq', h'', λ k. keys' k ∙ keys k, len' ∙ len)
