-- ===== src/Pools/Threads.antt =====
-- Threads that share the pools of `crates/ppg3-core/src/resources.rs`, as a sequence of events under
-- the pools' lock: a call of `acquire` that passes its validation and starts to wait, one round of a
-- waiting thread's loop, a call of `try_acquire`, and the drop of a guard.
use ppg.Common.{
  ℕ, zero, suc, ◌+◌, ◌≤◌, ◌≡◌, refl, ◌∙◌, Option, none, some, List, [], ◌∷◌, String, arith, Outcome,
  ok, err, panicked, ◌>>=◌, All, take_at, take_at-All, Option-cases, Bool-cases, inl, inr, ◌⊎◌,
  GraphError, unknown_pool, over_capacity, ltb,
}
use ppg.Table.{Table, get, DistinctKeys}
use ppg.Pools.{
  Pools, Guard, new, validate, units, can_satisfy, acquire_round, try_acquire, release, u64_max,
}
use ppg.Pools.Requests.{Fits, validate-Fits, SameKeys, deduct-Deducted, credit-Credited}

pub record System : Type 0 where
  pub pools : Pools
  -- The guards that are alive, and the requests of the threads that wait in `acquire`.
  pub held : List Guard
  pub blocked : List (Table ℕ)

pub data Event : Type 0 where
  call : Table ℕ → Event
  wake : ℕ → Event
  try_call : Table ℕ → Event
  drop_guard : ℕ → Event

abbrev pub start : Table ℕ → System
start capacity = record { pools = new capacity; held = []; blocked = [] }

-- What a granted or a refused round leaves: a granted thread holds its guard, any other waits on.
granted : System → List (Table ℕ) → Outcome (Option Guard × Pools) → Outcome System
granted s blocked (ok (some g, p)) = ok (record { pools = p; held = g ∷ s.held; blocked = blocked })
granted s blocked (ok (none, p)) = ok (record s { pools = p })
granted s blocked (err e) = ok s
granted s blocked panicked = panicked

called : System → Table ℕ → Outcome (Unit {0}) → Outcome System
called s r (ok _) = ok (record s { blocked = r ∷ s.blocked })
called s r (err e) = ok s
called s r panicked = panicked

released : System → List Guard → Outcome Pools → Outcome System
released s held (ok p) = ok (record s { pools = p; held = held })
released s held (err e) = ok s
released s held panicked = panicked

woken : System → Option (Table ℕ × List (Table ℕ)) → Outcome System
woken s none = ok s
woken s (some (r, rest)) = granted s rest (acquire_round s.pools r)

dropped : System → Option (Guard × List Guard) → Outcome System
dropped s none = ok s
dropped s (some (g, rest)) = released s rest (release s.pools g)

unfoldable pub step : System → Event → Outcome System
unfolding granted called released woken dropped
step s (call r) = called s r (validate s.pools.capacity r)
step s (wake i) = woken s (take_at i s.blocked)
step s (try_call r) = granted s s.blocked (try_acquire s.pools r)
step s (drop_guard i) = dropped s (take_at i s.held)

unfoldable pub run : System → List Event → Outcome System
run s [] = ok s
run s (e ∷ es) = do t ← step s e; run t es

abbrev pub sum_held : String → List Guard → ℕ
sum_held k [] = 0
sum_held k (g ∷ gs) = units k g.amounts + sum_held k gs

-- A request as the code makes it: a `BTreeMap` names each pool once.
abbrev pub HasDistinctKeys : Event → Type 0
HasDistinctKeys (call r) = DistinctKeys r
HasDistinctKeys (try_call r) = DistinctKeys r
HasDistinctKeys _ = Unit

abbrev pub IsRequest : Table ℕ → Table ℕ → Type 0
IsRequest capacity r = Fits capacity r × DistinctKeys r

-- In every pool what is free and what the guards hold add up to the capacity.
pub record Inv (s : System) : Type 0 where
  pub same_keys : SameKeys s.pools.available s.pools.capacity
  pub conserved :
      (k : String) → units k s.pools.available + sum_held k s.held ≡ units k s.pools.capacity
  pub small : (k : String) → units k s.pools.capacity ≤ u64_max
  pub guards : All (λ (g : Guard). IsRequest s.pools.capacity g.amounts) s.held
  pub waiters : All (IsRequest s.pools.capacity) s.blocked

pub start-Inv :
    (capacity : Table ℕ) → ((k : String) → units k capacity ≤ u64_max) → Inv (start capacity)
unfolding new
start-Inv capacity small = record {
  same_keys = λ k. refl;
  conserved = λ k. omega arith;
  small = small;
  guards = tt;
  waiters = tt;
}

-- A step that ends well, in a state that keeps the invariant and the capacities.
abbrev pub Keeps : Outcome System → Type 0
Keeps r = (t : System) × (r ≡ ok t) × Inv t

granted-Keeps :
    (s : System) (r : Table ℕ) (blocked : List (Table ℕ))
    → Inv s
    → IsRequest s.pools.capacity r
    → All (IsRequest s.pools.capacity) blocked
    → Keeps (granted s blocked (acquire_round s.pools r))
unfolding granted acquire_round
granted-Keeps s r blocked v (fits, distinct) waiting =
    elim (Bool-cases (can_satisfy s.pools.available r)) [
      | inr no_room ↦ (s, ground arith, v)
      | inl room ↦
          let (after, eq, taken, keys) =
            deduct-Deducted s.pools.capacity s.pools.available r v.same_keys fits distinct room in
          let t : System = record {
            pools = record { capacity = s.pools.capacity; available = after };
            held = record { amounts = r } ∷ s.held;
            blocked = blocked;
          } in
          (
            t,
            ground arith,
            record {
              same_keys = λ k. keys k ∙ v.same_keys k;
              conserved = λ k. omega (arith, taken k, v.conserved k);
              small = v.small;
              guards = ((fits, distinct), v.guards);
              waiters = waiting;
            },
          )
    ]

sum_held-take_at :
    (k : String) (i : ℕ) (gs : List Guard) {g : Guard} {rest : List Guard}
    → take_at i gs ≡ some (g, rest)
    → sum_held k gs ≡ units k g.amounts + sum_held k rest
unfolding take_at
sum_held-take_at k i [] e = cc
sum_held-take_at k zero (x ∷ gs) e = ground arith
sum_held-take_at k (suc i) (x ∷ gs) e = elim (Option-cases (take_at i gs)) [
  | inl miss ↦ ground arith
  | inr ((g', gs'), found) ↦ ground (arith, sum_held-take_at k i gs found)
]

dropped-Keeps : (s : System) (i : ℕ) → Inv s → Keeps (dropped s (take_at i s.held))
unfolding dropped released release
dropped-Keeps s i v = elim (Option-cases (take_at i s.held)) [
  | inl miss ↦ (s, ground arith, v)
  | inr ((g, rest), found) ↦
      let ((fits, distinct), others) = take_at-All _ i s.held found v.guards in
      let held_sum : (k : String) → sum_held k s.held ≡ units k g.amounts + sum_held k rest =
        λ k. sum_held-take_at k i s.held found in
      let (after, eq, put_back, keys) =
        credit-Credited s.pools.capacity s.pools.available g.amounts v.same_keys fits distinct
          (λ k. omega (arith, held_sum k, v.conserved k, v.small k)) in
      let t : System = record {
        pools = record { capacity = s.pools.capacity; available = after };
        held = rest;
        blocked = s.blocked;
      } in
      (
        t,
        ground arith,
        record {
          same_keys = λ k. keys k ∙ v.same_keys k;
          conserved = λ k. omega (arith, put_back k, held_sum k, v.conserved k);
          small = v.small;
          guards = others;
          waiters = v.waiters;
        },
      )
]

-- Validation ends in a verdict and never in a panic.
pub validate_cases :
    (capacity r : Table ℕ)
    → (validate capacity r ≡ ok tt) ⊎ ((e : GraphError) × (validate capacity r ≡ err e))
unfolding validate
validate_cases capacity [] = inl refl
validate_cases capacity ((name, a) ∷ r) = elim (Option-cases (get name capacity)) [
  | inl miss ↦ inr (unknown_pool name, ground arith)
  | inr (cap, found) ↦ elim (Bool-cases (ltb cap a)) [
    | inl over ↦ inr (over_capacity name a cap, ground arith)
    | inr fits ↦ elim (validate_cases capacity r) [
      | inl good ↦ inl (ground arith)
      | inr (e, bad) ↦ inr (e, ground arith)
    ]
  ]
]

step-Keeps : (s : System) (e : Event) → HasDistinctKeys e → Inv s → Keeps (step s e)
unfolding step try_acquire
step-Keeps s (call r) d v = elim (validate_cases s.pools.capacity r) [
  | inl good ↦ (
    record s { blocked = r ∷ s.blocked },
    ground arith,
    record {
      same_keys = v.same_keys;
      conserved = v.conserved;
      small = v.small;
      guards = v.guards;
      waiters = ((validate-Fits s.pools.capacity r good, d), v.waiters);
    },
  )
  | inr (e, bad) ↦ (s, ground arith, v)
]
step-Keeps s (wake i) d v = elim (Option-cases (take_at i s.blocked)) [
  | inl miss ↦ (s, ground arith, v)
  | inr ((r, rest), found) ↦
      let (fit, others) = take_at-All _ i s.blocked found v.waiters in
      let (t, eq, inv) = granted-Keeps s r rest v fit others in (t, ground arith, inv)
]
step-Keeps s (try_call r) d v = elim (validate_cases s.pools.capacity r) [
  | inl good ↦
      let (t, eq, inv) =
        granted-Keeps s r s.blocked v (validate-Fits s.pools.capacity r good, d) v.waiters in
      (t, ground arith, inv)
  | inr (e, bad) ↦ (s, ground arith, v)
]
step-Keeps s (drop_guard i) d v = dropped-Keeps s i v

-- From a state with the invariant, and for any sequence of calls, rounds and drops in which each
-- request names a pool at most once: no panic happens, and the invariant holds at the end.
pub run-Keeps : (s : System) (es : List Event) → All HasDistinctKeys es → Inv s → Keeps (run s es)
unfolding run
run-Keeps s [] d v = (s, refl, v)
run-Keeps s (e ∷ es) d v =
    let (t, eq, inv) = step-Keeps s e d.0 v in
    let (u, eq', inv') = run-Keeps t es d.1 inv in (u, ground arith, inv')
