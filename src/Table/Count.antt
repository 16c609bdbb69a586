-- ===== src/Table/Count.antt =====
-- Counting the entries of a map whose value passes a test, and how an insertion changes the count.
use ppg.Common.{
  ℕ, ◌+◌, ◌≤◌, ◌≡◌, refl, ap, eq_refl, false, Bool, false, Option, none, some, [], ◌∷◌, String,
  ◌==◌, arith, bit, length, inl, inr, Bool-cases,
}
use ppg.Table.{Table, get, insert, DistinctKeys, get_tail}

module _ {ℓ} {V : Type ℓ} (p : V → Bool) where
  abbrev pub count : Table V → ℕ
  count [] = 0
  count ((k, v) ∷ m) = bit (p v) + count m

  -- What an entry that may be missing adds to the count.
  abbrev pub weight : Option V → ℕ
  weight none = 0
  weight (some v) = bit (p v)

  -- An insertion takes the old value's weight out and puts the new one's in.
  pub count-insert :
      (k : String) (v : V) (m : Table V)
      → count (insert k v m) + weight (get k m) ≡ count m + bit (p v)
  unfolding get insert
  count-insert k v [] = omega arith
  count-insert k v ((j, w) ∷ m) = elim (Bool-cases (j == k)) [
    | inl e ↦ rw e (omega arith)
    | inr e ↦ rw e (omega (arith, count-insert k v m))
  ]

  -- Where nothing passes, no value that the map holds does.
  pub get_of_count_zero :
      (k : String) (v : V) (m : Table V) → count m ≡ 0 → get k m ≡ some v → p v ≡ false
  unfolding get
  get_of_count_zero k v [] z h = ground arith
  get_of_count_zero k v ((j, w) ∷ m) z h = ground (arith, get_of_count_zero k v m)

  pub count-le-length : (m : Table V) → count m ≤ length m
  count-le-length [] = omega arith
  count-le-length ((k, v) ∷ m) = ground (arith, count-le-length m)

module _ {ℓ} {V : Type ℓ} where
  -- The number of entries after an insertion.
  pub length-insert :
      (k : String) (v : V) (m : Table V)
      → length (insert k v m) ≡ elim (get k m) [ none ↦ length m + 1 | some _ ↦ length m ]
  unfolding get insert
  length-insert k v [] = omega arith
  length-insert k v ((j, w) ∷ m) = ground (arith, length-insert k v m)

module _ {ℓ} {V : Type ℓ} (p : V → Bool) where
  -- Where no value that the map holds passes, nothing is counted.
  pub count_zero :
      (m : Table V)
      → DistinctKeys m
      → ((k : String) (v : V) → get k m ≡ some v → p v ≡ false)
      → count p m ≡ 0
  count_zero [] d h = refl
  count_zero ((j, w) ∷ m) d h =
      let here : p w ≡ false = h j w (unfold get in rw (eq_refl j)) in
      omega (arith, ap bit here, count_zero m d.1 (λ k v e. h k v (get_tail k j w v m d.0 e)))
