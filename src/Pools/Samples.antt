-- ===== src/Pools/Samples.antt =====
-- Small pools, and what the operations do on them.
use ppg.Common.{
  ℕ, ◌≤◌, ◌≡◌, ◌⊎◌, All, refl, none, some, List, [], ◌∷◌, String, arith, ok, err, unknown_pool,
  over_capacity, eq_iff, take_at, GraphError, ◌+◌,
}
use ppg.Table.{Table, get, insert, contains_key}
use ppg.Pools.{
  Pools, new, validate, units, can_satisfy, deduct, credit, acquire_round, try_acquire, release,
  u64_max,
}
use ppg.Pools.Requests.{Fits}
use ppg.Pools.Threads.{
  System, Event, call, wake, drop_guard, start, start-Inv, step, run, HasDistinctKeys, run-Keeps,
  Keeps, Inv,
}
use ppg.Pools.Verdicts.{Covers, try_acquire_verdict, release-try_acquire, wake_when_idle}

abbrev two_pools : Table ℕ
two_pools = ("cores", 4) ∷ ("mem", 10) ∷ []

abbrev wide : Table ℕ
wide = ("cores", 3) ∷ ("mem", 1) ∷ []

abbrev narrow : Table ℕ
narrow = ("cores", 2) ∷ []

code : Unit {0}
unfolding try_acquire acquire_round release validate can_satisfy deduct credit new get insert step
    run contains_key take_at
code = tt

small : (k : String) → units k two_pools ≤ u64_max
unfolding get
small k = ground arith

unknown_is_error : try_acquire (new two_pools) (("gpu", 1) ∷ []) ≡ err (unknown_pool "gpu")
unfolding code
unknown_is_error = refl

too_much_is_error :
    try_acquire (new two_pools) (("cores", 5) ∷ []) ≡ err (over_capacity "cores" 5 4)
unfolding code
too_much_is_error = refl

-- The second thread waits until the first one's guard is dropped.
abbrev hand_over : List Event
hand_over = call wide ∷ call narrow ∷ wake 1 ∷ wake 0 ∷ drop_guard 0 ∷ wake 0 ∷ []

hand_over_runs :
    run (start two_pools) hand_over
    ≡ ok (record {
      pools = record { capacity = two_pools; available = ("cores", 2) ∷ ("mem", 10) ∷ [] };
      held = (record { amounts = narrow }) ∷ [];
      blocked = [];
    })
unfolding code
hand_over_runs = refl

hand_over_distinct : All HasDistinctKeys hand_over
hand_over_distinct = ground (arith, eq_iff "cores" "mem")

run-Keeps_example : Keeps (run (start two_pools) hand_over)
run-Keeps_example =
    run-Keeps (start two_pools) hand_over hand_over_distinct (start-Inv two_pools small)

try_acquire_verdict_example :
    ((¬ Fits two_pools wide) × ((e : GraphError) × (try_acquire (new two_pools) wide ≡ err e)))
    ⊎ (Fits two_pools wide
        × Covers two_pools wide
        × ((after : Table ℕ) × (try_acquire (new two_pools) wide
              ≡ ok (
                some (record { amounts = wide }),
                record { capacity = two_pools; available = after },
              ))
            × ((k : String) → units k after + units k wide ≡ units k two_pools)))
    ⊎ (Fits two_pools wide
        × (¬ Covers two_pools wide)
        × (try_acquire (new two_pools) wide ≡ ok (none, new two_pools)))
unfolding new
try_acquire_verdict_example =
    try_acquire_verdict (new two_pools) wide (λ k. refl) (ground (arith, eq_iff "cores" "mem"))

abbrev after_wide : Pools
after_wide = record { capacity = two_pools; available = ("cores", 1) ∷ ("mem", 9) ∷ [] }

wide_granted : try_acquire (new two_pools) wide ≡ ok (some (record { amounts = wide }), after_wide)
unfolding code
wide_granted = refl

release-try_acquire_example :
    (after : Pools) × (release after_wide (record { amounts = wide }) ≡ ok after)
    × (after.capacity ≡ two_pools)
    × ((k : String) → units k after.available ≡ units k two_pools)
unfolding new
release-try_acquire_example =
    release-try_acquire (new two_pools) after_wide wide (record { amounts = wide }) (λ k. refl)
      (λ k. omega arith) small (ground (arith, eq_iff "cores" "mem")) wide_granted

abbrev one_waiter : System
one_waiter = record { pools = new two_pools; held = []; blocked = wide ∷ [] }

one_waiter-Inv : Inv one_waiter
unfolding new get
one_waiter-Inv = record {
  same_keys = λ k. refl;
  conserved = λ k. omega arith;
  small = small;
  guards = tt;
  waiters = (
    (((4, refl, omega arith), ((10, refl, omega arith), tt)), ground (arith, eq_iff "cores" "mem")),
    tt,
  );
}

wake_when_idle_example :
    (t : System) × (step one_waiter (wake 0) ≡ ok t)
    × (t.held ≡ (record { amounts = wide }) ∷ [])
    × (t.blocked ≡ [])
unfolding take_at
wake_when_idle_example = wake_when_idle one_waiter 0 wide [] one_waiter-Inv refl refl
