-- ===== src/Gc/Budget.antt =====
-- The budget sweep of `crates/ppg3-core/src/gc.rs`: where it ends, and what a run takes for the size.
use ppg.Common.{ℕ, ◌+◌, ◌≡◌, ◌<◌, ◌≤◌, Bool, true, false, none, some, [], ◌∷◌, elem, arith}
use ppg.Table.{get, remove, contains_key}
use ppg.Disk.{absent, Disk, Entry, empty_disk, entries_size}
use ppg.Gc.{GcPolicy, default, Machine}
use ppg.Gc.Debris.{sweep_orphan_logs}
use ppg.Gc.Entries.{rooted}
use ppg.Gc.Run.{
  before_roots, clean_debris, reset_pins, sweep_dangling, unrooted, sweep_entries, measure, run,
}

abbrev pub sized_entry : ℕ → Bool → Entry
sized_entry size evict_ok = record {
  manifest = absent;
  files = [];
  size = size;
  evict_ok = evict_ok;
  atime = 0;
}

-- An entry that is marked for eviction and one that is not, neither rooted.
abbrev pub two_entries : ℕ → ℕ → Disk
two_entries x y = record empty_disk {
  entries = ("a", sized_entry x true) ∷ ("b", sized_entry y false) ∷ [];
}

abbrev pub with_budget : ℕ → Bool → GcPolicy
with_budget budget dry = record {
  level = default;
  max_size = some budget;
  min_age_ms = none;
  evict_logs = false;
  dry_run = dry;
}

-- A run counts the bytes of the entries marked for eviction twice: they are no longer on the disk when
-- its size is taken, and are subtracted from it. A store of a marked entry of `x` bytes and an unmarked
-- one of `y`, more than the budget by at most `x`, is left over its budget, although the entry that is
-- left may go; the dry run of the same policy reports that it goes.
pub budget_missed :
    (m : Machine) (x y budget : ℕ)
    → budget < y
    → y ≤ budget + x
    → (entries_size (run m (with_budget budget false) (two_entries x y)).disk.entries ≡ y)
      × (elem "b" (run m (with_budget budget true) (two_entries x y)).report.removed_entries ≡ true)
unfolding run before_roots clean_debris reset_pins sweep_dangling unrooted sweep_entries
    sweep_orphan_logs measure get remove contains_key elem rooted
budget_missed m x y budget over near = (ground arith, ground arith)
