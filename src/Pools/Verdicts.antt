-- ===== src/Pools/Verdicts.antt =====
-- When `try_acquire` of `crates/ppg3-core/src/resources.rs` grants a request, when it refuses one and
-- when it rejects one, and what a release gives back.
use ppg.Common.{
  ℕ, ◌+◌, ◌≤◌, ◌≡◌, refl, ◌∙◌, true, none, some, List, [], ◌∷◌, String, arith, eq_iff, ok, err,
  GraphError, Bool-cases, inl, inr, ◌⊎◌, take_at, take_at-All,
}
use ppg.Table.{Table, get, DistinctKeys, get_absent}
use ppg.Pools.{Pools, Guard, units, can_satisfy, acquire_round, try_acquire, release, u64_max}
use ppg.Pools.Requests.{
  Fits, validate-Fits, Fits-validate, SameKeys, deduct-Deducted, credit-Credited, units_cons,
}
use ppg.Pools.Threads.{System, wake, step, Inv, validate_cases, sum_held}

-- Every pool has the units that are asked of it.
abbrev pub Covers : Table ℕ → Table ℕ → Type 0
Covers available r = (k : String) → units k r ≤ units k available

units-le_of_IsAbsent :
    (name : String) (a : ℕ) (available r : Table ℕ)
    → Covers available ((name, a) ∷ r)
    → (get name r ≡ none)
    → Covers available r
units-le_of_IsAbsent name a available r h fresh k =
    ground (arith, h k, units_cons k name a r, eq_iff name k)

can_satisfy-Covers : (available r : Table ℕ) → can_satisfy available r ≡ true → Covers available r
unfolding can_satisfy
can_satisfy-Covers available [] h k = unfold get in omega arith
can_satisfy-Covers available ((name, a) ∷ r) h k =
    ground
      (arith, units_cons k name a r, eq_iff name k, can_satisfy-Covers available r (ground arith) k)

Covers-can_satisfy :
    (available r : Table ℕ) → DistinctKeys r → Covers available r → can_satisfy available r ≡ true
unfolding can_satisfy
Covers-can_satisfy available [] d h = refl
Covers-can_satisfy available ((name, a) ∷ r) (fresh, d) h = ground (
  arith,
  h name,
  units_cons name name a r,
  eq_iff name name,
  Covers-can_satisfy available r d
      (units-le_of_IsAbsent name a available r h (get_absent name r fresh)),
)

Fits-Covers : (capacity r : Table ℕ) → Fits capacity r → Covers capacity r
Fits-Covers capacity [] h k = unfold get in omega arith
Fits-Covers capacity ((name, a) ∷ r) ((cap, e, le), fits) k =
    ground (arith, units_cons k name a r, eq_iff name k, Fits-Covers capacity r fits k)

-- The three verdicts of `try_acquire`, for pools that have kept their keys and a request that names
-- each pool once. Either the request does not fit the capacities, and the answer is an error; or it
-- fits and is covered, and it is granted, with its units taken out of every pool at once; or it
-- fits and some pool is short, and there is no guard and the pools are as they were.
pub try_acquire_verdict :
    (p : Pools) (r : Table ℕ)
    → SameKeys p.available p.capacity
    → DistinctKeys r
    → ((¬ Fits p.capacity r) × ((e : GraphError) × (try_acquire p r ≡ err e)))
      ⊎ (Fits p.capacity r
          × Covers p.available r
          × ((after : Table ℕ) × (try_acquire p r
                ≡ ok (some (record { amounts = r }), record p { available = after }))
              × ((k : String) → units k after + units k r ≡ units k p.available)))
      ⊎ (Fits p.capacity r × (¬ Covers p.available r) × (try_acquire p r ≡ ok (none, p)))
unfolding try_acquire acquire_round
try_acquire_verdict p r same d = elim (validate_cases p.capacity r) [
  | inr (e, bad) ↦
      inl ((λ fits. ground (arith, Fits-validate p.capacity r fits)), (e, ground arith))
  | inl good ↦
      let fits = validate-Fits p.capacity r good in
      elim (Bool-cases (can_satisfy p.available r)) [
        | inl room ↦
            let (after, eq, taken, keys) =
              deduct-Deducted p.capacity p.available r same fits d room in
            inr (inl (fits, can_satisfy-Covers p.available r room, (after, ground arith, taken)))
        | inr no_room ↦ inr (
            inr (
              fits,
              (λ covers. ground (arith, Covers-can_satisfy p.available r d covers)),
              ground arith,
            ))
      ]
]

-- A granted request, released at once, leaves every pool with the units that it had.
pub release-try_acquire :
    (p q : Pools) (r : Table ℕ) (g : Guard)
    → SameKeys p.available p.capacity
    → Covers p.capacity p.available
    → ((k : String) → units k p.capacity ≤ u64_max)
    → DistinctKeys r
    → try_acquire p r ≡ ok (some g, q)
    → (after : Pools) × (release q g ≡ ok after)
      × (after.capacity ≡ p.capacity)
      × ((k : String) → units k after.available ≡ units k p.available)
unfolding try_acquire acquire_round release
release-try_acquire p q r g same below small d e = elim (validate_cases p.capacity r) [
  | inr (bad, e') ↦ ground arith
  | inl good ↦ elim (Bool-cases (can_satisfy p.available r)) [
    | inr no_room ↦ ground arith
    | inl room ↦
        let fits = validate-Fits p.capacity r good in
        let (less, eq, taken, keys) = deduct-Deducted p.capacity p.available r same fits d room in
        let (after, eq', put_back, _) =
          credit-Credited p.capacity less r (λ k. keys k ∙ same k) fits d
            (λ k. omega (arith, taken k, below k, small k)) in
        (
          record { capacity = p.capacity; available = after },
          ground arith,
          refl,
          λ k. omega (arith, put_back k, taken k),
        )
  ]
]

-- No waiter is stuck: once nothing is held, whichever waiting thread looks next gets its guard.
pub wake_when_idle :
    (s : System) (i : ℕ) (r : Table ℕ) (rest : List (Table ℕ))
    → Inv s
    → s.held ≡ []
    → take_at i s.blocked ≡ some (r, rest)
    → (t : System) × (step s (wake i) ≡ ok t)
      × (t.held ≡ (record { amounts = r }) ∷ [])
      × (t.blocked ≡ rest)
unfolding step acquire_round
wake_when_idle s i r rest v idle found =
    let ((fits, d), others) = take_at-All _ i s.blocked found v.waiters in
    let free : (k : String) → sum_held k s.held ≡ 0 = λ k. ground arith in
    let covers : Covers s.pools.available r =
      λ k. omega (arith, Fits-Covers s.pools.capacity r fits k, v.conserved k, free k) in
    let room : can_satisfy s.pools.available r ≡ true =
      Covers-can_satisfy s.pools.available r d covers in
    let (after, eq, taken, keys) =
      deduct-Deducted s.pools.capacity s.pools.available r v.same_keys fits d room in
    (
      record {
        pools = record { capacity = s.pools.capacity; available = after };
        held = (record { amounts = r }) ∷ [];
        blocked = rest;
      },
      ground arith,
      refl,
      refl,
    )
