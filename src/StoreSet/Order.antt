-- ===== src/StoreSet/Order.antt =====
-- Which store answers: `lookup` and `write_store` of `crates/ppg3-core/src/storeset.rs`.
use ppg.Common.{
  ℕ, suc, ◌≡◌, refl, Bool, true, false, not, Option, none, some, List, [], ◌∷◌, String, ◌==◌,
  Result, success, failure, arith, Bool-cases, inl, inr, ◌⊎◌, All, get_elem?, take,
}
use ppg.Disk.{Manifest}
use ppg.Store.{Store, StoreError, lookup}
use ppg.StoreSet.{
  store_is_read_only, no_store_named, no_writable_store, renumber, lookup_first, find_store,
  write_store, check_writable,
}

abbrev pub Misses : ℕ → String → Store → Type 0
Misses now ik s = (lookup now s ik).0 ≡ success none

abbrev pub Hit : ℕ → String → List Store → ℕ → Manifest → Type 0
Hit now ik stores i m =
    (s : Store) × (get_elem? stores i ≡ some s)
    × ((lookup now s ik).0 ≡ success (some m))
    × All (Misses now ik) (take i stores)

answers :
    (r : Result StoreError (Option Manifest))
    → ((e : StoreError) × (r ≡ failure e))
      ⊎ (r ≡ success none)
      ⊎ ((m : Manifest) × (r ≡ success (some m)))
answers (failure e) = inl (e, refl)
answers (success none) = inr (inl refl)
answers (success (some m)) = inr (inr (m, refl))

renumber_hit :
    (r : Result StoreError (Option (ℕ × Manifest))) (i : ℕ) (m : Manifest)
    → renumber r ≡ success (some (i, m))
    → (j : ℕ) × (i ≡ suc j) × (r ≡ success (some (j, m)))
renumber_hit (failure e) i m h = ground arith
renumber_hit (success none) i m h = ground arith
renumber_hit (success (some (j, n))) i m h = (j, ground arith, ground arith)

-- A hit comes from the first store that does not miss: the store of the number given hits with that
-- manifest, and every store before it misses.
pub lookup_first-Hit :
    (now : ℕ) (stores : List Store) (ik : String) (i : ℕ) (m : Manifest)
    → lookup_first now stores ik ≡ success (some (i, m))
    → Hit now ik stores i m
unfolding lookup_first
lookup_first-Hit now [] ik i m h = ground arith
lookup_first-Hit now (s ∷ stores) ik i m h = elim (answers (lookup now s ik).0) [
  | inl (e, q) ↦ absurd (ground arith)
  | inr (inr (n, q)) ↦
      let zeroth : i ≡ 0 = ground arith in
      let same : n ≡ m = ground arith in rw zeroth (s, refl, ground arith, tt)
  | inr (inl q) ↦
      let (j, up, rest) = renumber_hit (lookup_first now stores ik) i m (ground arith) in
      let (t, at, hits, misses) = lookup_first-Hit now stores ik j m rest in
      rw up (t, at, hits, (q, misses))
]

-- The store that is found passes, and the ones before it do not; where none is found, none passes.
abbrev pub Found : (Store → Bool) → List Store → Store → Type 0
Found p stores s =
    (i : ℕ) × (get_elem? stores i ≡ some s) × (p s ≡ true) × All (λ t. p t ≡ false) (take i stores)

find_store_cases :
    (p : Store → Bool) (stores : List Store)
    → ((s : Store) × (find_store p stores ≡ some s) × Found p stores s)
      ⊎ ((find_store p stores ≡ none) × All (λ t. p t ≡ false) stores)
unfolding find_store
find_store_cases p [] = inr (refl, tt)
find_store_cases p (s ∷ stores) = elim (Bool-cases (p s)) [
  | inl e ↦ inl (s, rw e refl, (0, refl, e, tt))
  | inr e ↦ elim (find_store_cases p stores) [
    | inl (t, q, (i, at, passes, before)) ↦ inl (t, rw e q, (suc i, at, passes, (e, before)))
    | inr (q, none_passes) ↦ inr (rw e q, (e, none_passes))
  ]
]

writable_cases :
    (name : String) (s : Store)
    → ((s.readonly ≡ false) × (check_writable name (some s) ≡ success s))
      ⊎ ((s.readonly ≡ true) × (check_writable name (some s) ≡ failure (store_is_read_only name)))
writable_cases name s = elim (Bool-cases s.readonly) [
  | inl e ↦ inr (e, rw e refl)
  | inr e ↦ inl (e, rw e refl)
]

-- The store to publish into under a name: the first store of that name if it can be written, the
-- read-only error if it cannot, and the error of an unknown name if no store has it.
pub write_store_named :
    (stores : List Store) (name : String)
    → ((s : Store) × Found (λ t. t.name == name) stores s
        × (((s.readonly ≡ false) × (write_store stores (some name) ≡ success s))
            ⊎ ((s.readonly ≡ true)
                × (write_store stores (some name) ≡ failure (store_is_read_only name)))))
      ⊎ (All (λ t. (t.name == name) ≡ false) stores
          × (write_store stores (some name) ≡ failure (no_store_named name)))
unfolding write_store
write_store_named stores name = elim (find_store_cases (λ t. t.name == name) stores) [
  | inl (s, e, found) ↦ inl (s, found, rw e (writable_cases name s))
  | inr (e, none_found) ↦ inr (none_found, rw e refl)
]

-- The store to publish into without a name: the first that can be written, or an error where none can.
pub write_store_unnamed :
    (stores : List Store)
    → ((s : Store) × Found (λ t. not t.readonly) stores s × (write_store stores none ≡ success s))
      ⊎ (All (λ t. not t.readonly ≡ false) stores
          × (write_store stores none ≡ failure no_writable_store))
unfolding write_store
write_store_unnamed stores = elim (find_store_cases (λ t. not t.readonly) stores) [
  | inl (s, e, found) ↦ inl (s, found, rw e refl)
  | inr (e, none_found) ↦ inr (none_found, rw e refl)
]
