-- ===== src/Common/Lists.antt =====
-- Lists measured by native numbers, and predicates on lists by recursion.
use Prim.Native.Nat.{ℕ, zero, suc, ◌+◌}
use mathlib.Core.Path.{◌≡◌, refl, ap}
use mathlib.Core.Logic.{inl, inr}
use mathlib.Core.Option.{Option, none, some}
use Prim.Native.String.{String}
use mathlib.Core.Bool.{Bool, true, false, ◌||◌, ◌&&◌}
use text.Mathlib.Text.{◌==◌}
use ppg.Common.Tests.{String-cases, Option-cases, Bool-cases, bit, if◌then◌else◌}
use mathlib.Core.List.{List, [], ◌∷◌, ◌++◌}
use native.Mathlib.Omega.{arith}

module _ {ℓ} {A : Type ℓ} where
  abbrev pub length : List A → ℕ
  length [] = 0
  length (x ∷ xs) = suc (length xs)

  pub length-append : (xs ys : List A) → length (xs ++ ys) ≡ length xs + length ys
  length-append [] ys = omega arith
  length-append (x ∷ xs) ys = omega (arith, length-append xs ys)

  abbrev pub All {κ} : (A → Type κ) → List A → Type κ
  All P [] = Unit
  All P (x ∷ xs) = P x × All P xs

module _ {ℓ} {A : Type ℓ} where
  -- The element at a position, and the list without it.
  abbrev pub with_head : A → Option (A × List A) → Option (A × List A)
  with_head x none = none
  with_head x (some (y, ys)) = some (y, x ∷ ys)

  unfoldable pub take_at : ℕ → List A → Option (A × List A)
  take_at i [] = none
  take_at zero (x ∷ xs) = some (x, xs)
  take_at (suc i) (x ∷ xs) = with_head x (take_at i xs)

  pub take_at-All {κ} :
      (P : A → Type κ) (i : ℕ) (xs : List A) {y : A} {ys : List A}
      → take_at i xs ≡ some (y, ys)
      → All P xs
      → P y × All P ys
  unfolding take_at
  take_at-All P i [] e h = cc
  take_at-All P zero (x ∷ xs) e h = ground arith
  take_at-All P (suc i) (x ∷ xs) e h = elim (Option-cases (take_at i xs)) [
    | inl miss ↦ ground arith
    | inr ((z, zs), found) ↦ ground (arith, take_at-All P i xs found h.1)
  ]

-- `contains` on a list or a set of texts, and how often a text stands in a list.
unfoldable pub elem : String → List String → Bool
elem k [] = false
elem k (x ∷ xs) = x == k || elem k xs

unfoldable pub occurrences : String → List String → ℕ
occurrences k [] = 0
occurrences k (x ∷ xs) = bit (x == k) + occurrences k xs

pub All-map {ℓ κ μ} :
    {A : Type ℓ} {P : A → Type κ} {Q : A → Type μ} (xs : List A)
    → All P xs
    → ((x : A) → P x → Q x)
    → All Q xs
All-map [] h f = tt
All-map (x ∷ xs) h f = (f x h.0, All-map xs h.1 f)

pub All-zip {ℓ κ μ} :
    {A : Type ℓ} (P : A → Type κ) (Q : A → Type μ) (xs : List A)
    → All P xs
    → All Q xs
    → All (λ x. P x × Q x) xs
All-zip P Q [] h k = tt
All-zip P Q (x ∷ xs) h k = ((h.0, k.0), All-zip P Q xs h.1 k.1)

pub occurrences-append :
    (k : String) (xs ys : List String)
    → occurrences k (xs ++ ys) ≡ occurrences k xs + occurrences k ys
unfolding occurrences
occurrences-append k [] ys = omega arith
occurrences-append k (x ∷ xs) ys = omega (arith, occurrences-append k xs ys)

pub occurrences_snoc :
    (k x : String) (xs : List String)
    → occurrences k (xs ++ x ∷ []) ≡ occurrences k xs + bit (x == k)
unfolding occurrences
occurrences_snoc k x xs = omega (arith, occurrences-append k xs (x ∷ []))

pub occurrences_cons :
    (k c : String) (cs : List String) → occurrences k (c ∷ cs) ≡ bit (c == k) + occurrences k cs
unfolding occurrences
occurrences_cons k c cs = refl

-- A loop over a list whose body changes a state, and one that breaks off once a test passes.
module _ {ℓ κ} {A : Type ℓ} {S : Type κ} where
  abbrev pub each : (A → S → S) → List A → S → S
  each f [] s = s
  each f (x ∷ xs) s = each f xs (f x s)

  abbrev pub each_until : (S → Bool) → (A → S → S) → List A → S → S
  each_until ends f [] s = s
  each_until ends f (x ∷ xs) s =
      let rest = each_until ends f xs (f x s) in if ends s then s else rest

  pub each-keeps {μ} :
      (P : S → Type μ) (f : A → S → S) (xs : List A) (s : S)
      → ((x : A) (s : S) → P s → P (f x s))
      → P s
      → P (each f xs s)
  each-keeps P f [] s h p = p
  each-keeps P f (x ∷ xs) s h p = each-keeps P f xs (f x s) h (h x s p)

  pub each_until-keeps {μ} :
      (P : S → Type μ) (ends : S → Bool) (f : A → S → S) (xs : List A) (s : S)
      → ((x : A) (s : S) → P s → P (f x s))
      → P s
      → P (each_until ends f xs s)
  each_until-keeps P ends f [] s h p = p
  each_until-keeps P ends f (x ∷ xs) s h p = elim (Bool-cases (ends s)) [
    | inl e ↦ rw e p
    | inr e ↦ rw e (each_until-keeps P ends f xs (f x s) h (h x s p))
  ]

-- The stable sort by a test for less or equal, and the elements that pass a test.
module _ {ℓ} {A : Type ℓ} where
  abbrev pub sort_in : (A → A → Bool) → A → List A → List A
  sort_in le x [] = x ∷ []
  sort_in le x (y ∷ ys) = let rest = sort_in le x ys in if le x y then x ∷ (y ∷ ys) else y ∷ rest

  abbrev pub sort_by : (A → A → Bool) → List A → List A
  sort_by le [] = []
  sort_by le (x ∷ xs) = sort_in le x (sort_by le xs)

  abbrev pub select : (A → Bool) → List A → List A
  select p [] = []
  select p (x ∷ xs) = let rest = select p xs in if p x then x ∷ rest else rest

module _ {ℓ κ μ ν} {A : Type ℓ} {S : Type κ} where
  -- A loop keeps what each round keeps that is for an element with the property.
  pub each-keeps_All :
      (P : A → Type μ) (Q : S → Type ν) (f : A → S → S) (xs : List A) (s : S)
      → ((x : A) (s : S) → P x → Q s → Q (f x s))
      → All P xs
      → Q s
      → Q (each f xs s)
  each-keeps_All P Q f [] s h a q = q
  each-keeps_All P Q f (x ∷ xs) s h a q = each-keeps_All P Q f xs (f x s) h a.1 (h x s a.0 q)

  pub each_until-keeps_All :
      (P : A → Type μ) (Q : S → Type ν) (ends : S → Bool) (f : A → S → S) (xs : List A) (s : S)
      → ((x : A) (s : S) → P x → Q s → Q (f x s))
      → All P xs
      → Q s
      → Q (each_until ends f xs s)
  each_until-keeps_All P Q ends f [] s h a q = q
  each_until-keeps_All P Q ends f (x ∷ xs) s h a q = elim (Bool-cases (ends s)) [
    | inl e ↦ rw e q
    | inr e ↦ rw e (each_until-keeps_All P Q ends f xs (f x s) h a.1 (h x s a.0 q))
  ]

module _ {ℓ κ} {A : Type ℓ} (P : A → Type κ) where
  sort_in-All : (le : A → A → Bool) (x : A) (ys : List A) → P x → All P ys → All P (sort_in le x ys)
  sort_in-All le x [] p a = (p, tt)
  sort_in-All le x (y ∷ ys) p a = elim (Bool-cases (le x y)) [
    | inl e ↦ rw e (p, a)
    | inr e ↦ rw e (a.0, sort_in-All le x ys p a.1)
  ]

  pub sort_by-All : (le : A → A → Bool) (xs : List A) → All P xs → All P (sort_by le xs)
  sort_by-All le [] a = tt
  sort_by-All le (x ∷ xs) a = sort_in-All le x (sort_by le xs) a.0 (sort_by-All le xs a.1)

  pub select-All : (q : A → Bool) (xs : List A) → All P xs → All P (select q xs)
  select-All q [] a = tt
  select-All q (x ∷ xs) a = elim (Bool-cases (q x)) [
    | inl e ↦ rw e (a.0, select-All q xs a.1)
    | inr e ↦ rw e (select-All q xs a.1)
  ]

-- What is selected passes the test.
pub select-passes {ℓ} :
    {A : Type ℓ} (q : A → Bool) (xs : List A) → All (λ x. q x ≡ true) (select q xs)
select-passes q [] = tt
select-passes q (x ∷ xs) = elim (Bool-cases (q x)) [
  | inl e ↦ rw e (e, select-passes q xs)
  | inr e ↦ rw e (select-passes q xs)
]

pub elem-append : (k : String) (xs ys : List String) → elem k (xs ++ ys) ≡ (elem k xs || elem k ys)
unfolding elem
elem-append k [] ys = refl
elem-append k (x ∷ xs) ys = ground (arith, elem-append k xs ys)

-- Sorting keeps the members, and a selection has those that pass.
elem-sort_in :
    (le : String → String → Bool) (k x : String) (ys : List String)
    → elem k (sort_in le x ys) ≡ (x == k || elem k ys)
unfolding elem
elem-sort_in le k x [] = refl
elem-sort_in le k x (y ∷ ys) = ground (arith, elem-sort_in le k x ys)

pub elem-sort_by :
    (le : String → String → Bool) (k : String) (xs : List String)
    → elem k (sort_by le xs) ≡ elem k xs
unfolding elem
elem-sort_by le k [] = refl
elem-sort_by le k (x ∷ xs) =
    ground (arith, elem-sort_in le k x (sort_by le xs), elem-sort_by le k xs)

pub elem-select :
    (q : String → Bool) (k : String) (xs : List String) → elem k (select q xs) ≡ (q k && elem k xs)
unfolding elem
elem-select q k [] = ground arith
elem-select q k (x ∷ xs) = elim (String-cases x k) [
  | inl same ↦ ground (arith, elem-select q k xs, same.1, ap q same.0)
  | inr other ↦ ground (arith, elem-select q k xs, other.1)
]

-- `Vec::push`
abbrev pub push {ℓ} : {A : Type ℓ} → A → List A → List A
push x xs = xs ++ x ∷ []

-- The element at a position, and the elements before it.
module _ {ℓ} {A : Type ℓ} where
  abbrev pub get_elem? : List A → ℕ → Option A
  get_elem? [] i = none
  get_elem? (x ∷ xs) zero = some x
  get_elem? (x ∷ xs) (suc i) = get_elem? xs i

  abbrev pub take : ℕ → List A → List A
  take zero xs = []
  take (suc i) [] = []
  take (suc i) (x ∷ xs) = x ∷ take i xs
