-- ===== src/Pools/Requests.antt =====
-- What `deduct` and `credit` of `crates/ppg3-core/src/resources.rs` do to the units of each pool.
use ppg.Common.{
  ℕ, ◌+◌, ◌-◌, ◌≤◌, ◌≡◌, refl, ◌∙◌, true, some, [], ◌∷◌, String, ◌==◌, arith, if◌then◌else◌, ok,
  Option-cases, inl, inr, eq_iff,
}
use ppg.Table.{Table, get, insert, contains_key, get-insert, IsAbsent, DistinctKeys, get_absent}
use ppg.Pools.{validate, units, can_satisfy, deduct, credit, u64_max}

-- Every pool that is named is there, and has the capacity.
abbrev pub Fits : Table ℕ → Table ℕ → Type 0
Fits capacity [] = Unit
Fits capacity ((name, amount) ∷ rest) =
    ((cap : ℕ) × (get name capacity ≡ some cap) × (amount ≤ cap)) × Fits capacity rest

-- `validate` accepts exactly the requests that fit.
pub validate-Fits : (capacity r : Table ℕ) → validate capacity r ≡ ok tt → Fits capacity r
unfolding validate
validate-Fits capacity [] h = tt
validate-Fits capacity ((name, amount) ∷ rest) h = elim (Option-cases (get name capacity)) [
  | inl e ↦ ground arith
  | inr (cap, e) ↦ ((cap, e, ground arith), validate-Fits capacity rest (ground arith))
]

pub Fits-validate : (capacity r : Table ℕ) → Fits capacity r → validate capacity r ≡ ok tt
unfolding validate
Fits-validate capacity [] h = refl
Fits-validate capacity ((name, amount) ∷ rest) ((cap, e, le), fits) =
    ground (arith, Fits-validate capacity rest fits)

-- The same keys.
abbrev pub SameKeys : Table ℕ → Table ℕ → Type 0
SameKeys m m' = (k : String) → contains_key k m ≡ contains_key k m'

units-insert :
    (k name : String) (v : ℕ) (m : Table ℕ)
    → units k (insert name v m) ≡ (if name == k then v else units k m)
units-insert k name v m = ground (arith, get-insert k name v m)

pub units_cons :
    (k name : String) (v : ℕ) (m : Table ℕ)
    → units k ((name, v) ∷ m) ≡ (if name == k then v else units k m)
unfolding get
units_cons k name v m = ground arith

insert-SameKeys :
    (name : String) (v w : ℕ) (m : Table ℕ) → get name m ≡ some w → SameKeys (insert name v m) m
unfolding contains_key
insert-SameKeys name v w m e k = ground (arith, get-insert k name v m, eq_iff name k)

can_satisfy-insert :
    (name : String) (v : ℕ) (m r : Table ℕ)
    → IsAbsent name r
    → can_satisfy (insert name v m) r ≡ can_satisfy m r
unfolding can_satisfy
can_satisfy-insert name v m [] h = refl
can_satisfy-insert name v m ((k, a) ∷ r) h =
    ground (arith, get-insert k name v m, eq_iff name k, can_satisfy-insert name v m r h.1, h.0)

-- What `deduct` promises: no panic, the units of each request taken out, and no pool added.
abbrev pub Deducted : Table ℕ → Table ℕ → Type 0
Deducted available r =
    (after : Table ℕ) × (deduct available r ≡ ok after)
    × ((k : String) → units k after + units k r ≡ units k available)
    × SameKeys after available

available_of_fits :
    (name : String) (cap : ℕ) (m capacity : Table ℕ)
    → SameKeys m capacity
    → get name capacity ≡ some cap
    → (v : ℕ) × (get name m ≡ some v)
unfolding contains_key
available_of_fits name cap m capacity same e = elim (Option-cases (get name m)) [
  | inl none_here ↦ ground (arith, same name)
  | inr found ↦ found
]

-- A request that fits, that names each pool once and that the pools can satisfy is deducted.
pub deduct-Deducted :
    (capacity available r : Table ℕ)
    → SameKeys available capacity
    → Fits capacity r
    → DistinctKeys r
    → can_satisfy available r ≡ true
    → Deducted available r
unfolding deduct
deduct-Deducted capacity available [] same fits d h =
    (available, refl, λ k. unfold get in omega arith, λ k. refl)
deduct-Deducted capacity available ((name, a) ∷ r) same ((cap, e, le), fits) (fresh, d) h =
    let (v, found) = available_of_fits name cap available capacity same e in
    let after_one : Table ℕ = insert name (v - a) available in
    let enough : a ≤ v = unfold can_satisfy in ground arith in
    let rest : can_satisfy after_one r ≡ true =
      can_satisfy-insert name (v - a) available r fresh ∙ (unfold can_satisfy in ground arith) in
    let (after, eq, taken, keys) =
      deduct-Deducted capacity after_one r
        (λ k. insert-SameKeys name (v - a) v available found k ∙ same k) fits d rest in
    (
      after,
      ground arith,
      λ k. ground (
        arith,
        taken k,
        units-insert k name (v - a) available,
        units_cons k name a r,
        eq_iff name k,
        get_absent name r fresh,
      ),
      λ k. keys k ∙ insert-SameKeys name (v - a) v available found k,
    )

-- What `credit` promises: no panic, the units of each amount put back, and no pool added.
abbrev pub Credited : Table ℕ → Table ℕ → Type 0
Credited available r =
    (after : Table ℕ) × (credit available r ≡ ok after)
    × ((k : String) → units k after ≡ units k available + units k r)
    × SameKeys after available

-- Amounts that fit, each pool named once, are credited where no sum passes `u64_max`.
pub credit-Credited :
    (capacity available r : Table ℕ)
    → SameKeys available capacity
    → Fits capacity r
    → DistinctKeys r
    → ((k : String) → units k available + units k r ≤ u64_max)
    → Credited available r
unfolding credit
credit-Credited capacity available [] same fits d small =
    (available, refl, λ k. unfold get in omega arith, λ k. refl)
credit-Credited capacity available ((name, a) ∷ r) same ((cap, e, le), fits) (fresh, d) small =
    let (v, found) = available_of_fits name cap available capacity same e in
    let after_one : Table ℕ = insert name (v + a) available in
    let sum_at : (k : String)
        → units k after_one + units k r ≡ units k available + units k ((name, a) ∷ r) =
      λ k. ground (
        arith,
        units-insert k name (v + a) available,
        units_cons k name a r,
        eq_iff name k,
        get_absent name r fresh,
      ) in
    let room : v + a ≤ u64_max =
      ground (arith, small name, units_cons name name a r, eq_iff name name) in
    let (after, eq, put_back, keys) =
      credit-Credited capacity after_one r
        (λ k. insert-SameKeys name (v + a) v available found k ∙ same k) fits d
        (λ k. omega (arith, sum_at k, small k)) in
    (
      after,
      ground arith,
      λ k. omega (arith, put_back k, sum_at k),
      λ k. keys k ∙ insert-SameKeys name (v + a) v available found k,
    )
