-- ===== src/Gc/Samples.antt =====
-- Small disks, and what runs of `crates/ppg3-core/src/gc.rs` do to them.
use ppg.Common.{ℕ, ◌≡◌, refl, Bool, true, false, none, some, [], ◌∷◌, elem, arith, if◌then◌else◌}
use ppg.Table.{get, remove, keys, contains_key}
use ppg.Disk.{absent, Disk, Entry, LeaseNode, empty_disk, entries_size}
use ppg.Gc.{GcPolicy, GcLevel, reset, Machine, has_json_extension, parse_staging_name}
use ppg.Gc.Debris.{sweep_orphan_logs, clean_lease, clear_pin}
use ppg.Gc.Entries.{rooted}
use ppg.Gc.Roots.{IsRooted, by_lease}
use ppg.Gc.Run.{
  before_roots, clean_debris, reset_pins, sweep_dangling, unrooted, sweep_entries, measure, run,
}
use ppg.Gc.Dry.{dry_run-disk}
use ppg.Gc.Kept.{rooted_entry_stays}
use ppg.Gc.Report.{report_tells_removed}
use ppg.Gc.Budget.{two_entries, with_budget, budget_missed}
use ppg.Gc.Aggressive.{aggressive_leaves_rooted}

running : Unit {0}
unfolding run before_roots clean_debris reset_pins sweep_dangling unrooted sweep_entries
    sweep_orphan_logs measure get remove contains_key elem rooted has_json_extension
    parse_staging_name clean_lease clear_pin
running = tt

abbrev here : Machine
here = record { hostname = "h"; pid_alive = λ _. false; clock = λ _. 10_000_000 }

abbrev policy : GcLevel → Bool → GcPolicy
policy level dry = record {
  level = level;
  max_size = some 10;
  min_age_ms = none;
  evict_logs = false;
  dry_run = dry;
}

abbrev plain_entry : ℕ → Bool → Entry
plain_entry size evict_ok = record {
  manifest = absent;
  files = [];
  size = size;
  evict_ok = evict_ok;
  atime = 0;
}

abbrev lease : LeaseNode
lease = record { mtime = 9_000_000; protects = some ("a" ∷ []) }

abbrev leased : Disk
leased = record empty_disk {
  entries = ("a", plain_entry 20 false) ∷ ("b", plain_entry 30 false) ∷ [];
  pins = ("p", "b") ∷ [];
  leases = ("r.json", lease) ∷ [];
}

parsed : parse_staging_name "my-host-12-af3" ≡ some ("my-host", 12)
unfolding running
parsed = refl

swept : keys (run here (policy reset false) leased).disk.entries ≡ "a" ∷ []
unfolding running
swept = refl

lease-IsRooted : IsRooted here (policy reset false) leased "a"
unfolding running
lease-IsRooted = by_lease "r.json" lease ("a" ∷ []) refl refl refl refl refl refl

rooted_entry_stays_example :
    get "a" (run here (policy reset false) leased).disk.entries ≡ get "a" leased.entries
rooted_entry_stays_example = rooted_entry_stays here (policy reset false) leased "a" lease-IsRooted

dry_run-disk_example : (run here (policy reset true) leased).disk ≡ leased
dry_run-disk_example = dry_run-disk here (policy reset true) leased refl

report_tells_removed_example : get "b" (run here (policy reset false) leased).disk.entries ≡ (
    if elem "b" (run here (policy reset false) leased).report.removed_entries
    then none
    else get "b" leased.entries)
report_tells_removed_example = report_tells_removed here (policy reset false) leased "b" refl

a_left : get "a" (run here (policy reset false) leased).disk.entries ≡ some (plain_entry 20 false)
unfolding running
a_left = refl

aggressive_leaves_rooted_example :
    elem "a" (rooted here (before_roots here (policy reset false) leased).disk) ≡ true
aggressive_leaves_rooted_example =
    aggressive_leaves_rooted here (policy reset false) leased "a" (plain_entry 20 false) refl refl
      a_left

-- The marked entry of 20 bytes goes, and the other, of 30, stays over a budget of 10.
budget_missed_example :
    (entries_size (run here (with_budget 10 false) (two_entries 20 30)).disk.entries ≡ 30)
    × (elem "b" (run here (with_budget 10 true) (two_entries 20 30)).report.removed_entries ≡ true)
budget_missed_example = budget_missed here 20 30 10 (omega arith) (omega arith)
