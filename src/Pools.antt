-- ===== src/Pools.antt =====
-- Named resource pools: `crates/ppg3-core/src/resources.rs`.
-- The contents of the pools' mutex are an argument and a result of each operation, and a guard is
-- the amounts that it holds. Amounts are `u64`: a sum past `u64_max` and a difference below zero
-- are panics, and so is the `unwrap` of a pool that is not there.
use ppg.Common.{
  ℕ, ◌+◌, ◌-◌, ◌^◌, ◌≤◌, ◌≡◌, Bool, true, false, ◌&&◌, Option, none, some, List, [], ◌∷◌, String,
  if◌then◌else◌, ltb, leb, GraphError, unknown_pool, over_capacity, Outcome, ok, err, panicked,
  ◌>>=◌, ◌>>◌, All,
}
use ppg.Table.{Table, get, insert, contains_key}
pub mod Requests
pub mod Threads
pub mod Verdicts
pub mod Samples

abbrev pub u64_max : ℕ
u64_max = 2 ^ 64 - 1

pub record Pools : Type 0 where
  pub capacity : Table ℕ
  pub available : Table ℕ

pub record Guard : Type 0 where
  pub amounts : Table ℕ

unfoldable pub new : Table ℕ → Pools
new capacity = record { capacity = capacity; available = capacity }

unfoldable pub validate : Table ℕ → Table ℕ → Outcome (Unit {0})
validate capacity [] = ok tt
validate capacity ((name, amount) ∷ rest) = elim (get name capacity) [
  | none ↦ err (unknown_pool name)
  | some cap ↦
      if ltb cap amount then err (over_capacity name amount cap) else validate capacity rest
]

-- `available.get(name).copied().unwrap_or(0)`
abbrev pub units : String → Table ℕ → ℕ
units name pool = elim (get name pool) [ none ↦ 0 | some v ↦ v ]

unfoldable pub can_satisfy : Table ℕ → Table ℕ → Bool
can_satisfy available [] = true
can_satisfy available ((name, amount) ∷ rest) =
    leb amount (units name available) && can_satisfy available rest

-- `for (name, amount) in requests { *available.get_mut(name).unwrap() -= amount; }`
unfoldable pub deduct : Table ℕ → Table ℕ → Outcome (Table ℕ)
deduct available [] = ok available
deduct available ((name, amount) ∷ rest) = elim (get name available) [
  | none ↦ panicked
  | some v ↦ if ltb v amount then panicked else deduct (insert name (v - amount) available) rest
]

-- `if let Some(slot) = available.get_mut(name) { *slot += amount; }`, for each amount
unfoldable pub credit : Table ℕ → Table ℕ → Outcome (Table ℕ)
credit available [] = ok available
credit available ((name, amount) ∷ rest) = elim (get name available) [
  | none ↦ credit available rest
  | some v ↦
      if ltb u64_max (v + amount)
      then panicked
      else credit (insert name (v + amount) available) rest
]

-- One round of the loop in `acquire`, under the lock: a guard, or none where the thread waits.
unfoldable pub acquire_round : Pools → Table ℕ → Outcome (Option Guard × Pools)
acquire_round p requests =
    if can_satisfy p.available requests
    then (do
      available ← deduct p.available requests
      ok (some (record { amounts = requests }), record p { available = available }))
    else ok (none, p)

unfoldable pub try_acquire : Pools → Table ℕ → Outcome (Option Guard × Pools)
try_acquire p requests = do validate p.capacity requests; acquire_round p requests

-- `drop` of a guard. The early return for no amounts is the first clause of `credit`.
unfoldable pub release : Pools → Guard → Outcome Pools
release p guard = do
  available ← credit p.available guard.amounts
  ok (record p { available = available })
