-- ===== src/Table.antt =====
-- Maps with text keys (`HashMap<String, V>`, `BTreeMap<String, V>`) as association lists.
-- The list's order is the map's order of iteration. `insert` writes over the entry of a key that is
-- there, as Rust's `insert` does, and puts a new key last.
use ppg.Common.{
  elem, ◌≡◌, ◌≢◌, refl, sym, Bool, true, false, Option, none, some, List, [], ◌∷◌, String, ◌==◌,
  eq_iff, arith, if◌then◌else◌, inl, inr, String-cases,
}
pub mod Count

abbrev pub Table {ℓ} : Type ℓ → Type ℓ
Table V = List (String × V)

module _ {ℓ} {V : Type ℓ} where
  unfoldable pub get : String → Table V → Option V
  get k [] = none
  get k ((j, v) ∷ m) = if j == k then some v else get k m

  unfoldable pub insert : String → V → Table V → Table V
  insert k v [] = (k, v) ∷ []
  insert k v ((j, w) ∷ m) = if j == k then (j, v) ∷ m else (j, w) ∷ insert k v m

  unfoldable pub contains_key : String → Table V → Bool
  contains_key k m = elim (get k m) [ none ↦ false | some _ ↦ true ]

  -- What a map holds after an insertion.
  pub get-insert :
      (j k : String) (v : V) (m : Table V)
      → get j (insert k v m) ≡ (if k == j then some v else get j m)
  unfolding get insert
  get-insert j k v [] = refl
  get-insert j k v ((i, w) ∷ m) =
      ground (arith, eq_iff i k, eq_iff i j, eq_iff k j, get-insert j k v m)

-- The keys of a `BTreeMap` are distinct.
module _ {ℓ} {V : Type ℓ} where
  abbrev pub IsAbsent : String → Table V → Type 0
  IsAbsent k [] = Unit
  IsAbsent k ((j, v) ∷ m) = (j ≢ k) × IsAbsent k m

  abbrev pub DistinctKeys : Table V → Type 0
  DistinctKeys [] = Unit
  DistinctKeys ((j, v) ∷ m) = IsAbsent j m × DistinctKeys m

  pub get_absent : (k : String) (m : Table V) → IsAbsent k m → get k m ≡ none
  unfolding get
  get_absent k [] h = refl
  get_absent k ((j, v) ∷ m) h = elim (String-cases j k) [
    | inl e ↦ absurd (h.0 e.0)
    | inr e ↦ rw e.1 (get_absent k m h.1)
  ]

  IsAbsent-insert :
      (i k : String) (v : V) (m : Table V) → i ≢ k → IsAbsent k m → IsAbsent k (insert i v m)
  unfolding insert
  IsAbsent-insert i k v [] ne h = (ne, tt)
  IsAbsent-insert i k v ((j, w) ∷ m) ne h = elim (String-cases j i) [
    | inl e ↦ rw e.1 h
    | inr e ↦ rw e.1 (h.0, IsAbsent-insert i k v m ne h.1)
  ]

  pub insert-DistinctKeys :
      (k : String) (v : V) (m : Table V) → DistinctKeys m → DistinctKeys (insert k v m)
  unfolding insert
  insert-DistinctKeys k v [] d = (tt, tt)
  insert-DistinctKeys k v ((j, w) ∷ m) d = elim (String-cases j k) [
    | inl e ↦ rw e.1 d
    | inr e ↦ rw e.1 (IsAbsent-insert k j v m (λ p. e.0 (sym p)) d.0, insert-DistinctKeys k v m d.1)
  ]

  -- A key that the rest of the map holds is not the head's.
  pub get_tail :
      (k j : String) (v w : V) (m : Table V)
      → IsAbsent j m
      → get k m ≡ some w
      → get k ((j, v) ∷ m) ≡ some w
  unfolding get
  get_tail k j v w m h e = elim (String-cases j k) [
    | inl same ↦ ground (arith, same.0, get_absent j m h)
    | inr other ↦ rw other.1 e
  ]

-- Taking a key out (`remove`), and the keys.
module _ {ℓ} {V : Type ℓ} where
  unfoldable pub remove : String → Table V → Table V
  remove k [] = []
  remove k ((j, v) ∷ m) = let rest = remove k m in if j == k then rest else (j, v) ∷ rest

  abbrev pub keys : Table V → List String
  keys [] = []
  keys ((j, v) ∷ m) = j ∷ keys m

  pub get-remove :
      (j k : String) (m : Table V) → get j (remove k m) ≡ (if k == j then none else get j m)
  unfolding get remove
  get-remove j k [] = ground arith
  get-remove j k ((i, w) ∷ m) = ground (arith, eq_iff i k, eq_iff i j, eq_iff k j, get-remove j k m)

  -- The keys are what a map holds.
  pub elem-keys : (k : String) (m : Table V) → elem k (keys m) ≡ contains_key k m
  unfolding elem get contains_key
  elem-keys k [] = refl
  elem-keys k ((j, v) ∷ m) = ground (arith, elem-keys k m)
