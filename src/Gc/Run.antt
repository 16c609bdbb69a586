-- ===== src/Gc/Run.antt =====
-- A whole run: `run` of `crates/ppg3-core/src/gc.rs`, phase by phase.
use ppg.Common.{◌-◌, not, List, [], String, if◌then◌else◌, elem, each, sort_by, select}
use ppg.Table.{keys}
use ppg.Disk.{Disk}
use ppg.Gc.{
  GcPolicy, GcLevel, failed_only, minimal, default, aggressive, reset, at_least, empty_report,
  Machine, Sweep,
}
use ppg.Gc.Debris.{
  clean_stale_staging, clean_stale_leases, clean_stale_intents, clean_violations, clear_pins,
  clean_dangling_inputs, sweep_orphan_logs,
}
use ppg.Gc.Entries.{
  rooted, evict_marked, sweep_entry, default_budget_sweep, total_store_size, bulk_store_size,
  text_le,
}

-- Phase A: debris.
unfoldable pub clean_debris : Machine → GcPolicy → Sweep → Sweep
unfolding clean_stale_staging clean_stale_leases clean_stale_intents clean_violations
clean_debris m p s =
    clean_violations m p
      (clean_stale_intents m p (clean_stale_leases m p (clean_stale_staging m p s)))

unfoldable pub reset_pins : GcPolicy → Sweep → Sweep
unfolding clear_pins
reset_pins p s = if at_least p.level reset then clear_pins p s else s

-- Phase B.
unfoldable pub sweep_dangling : GcPolicy → Sweep → Sweep
unfolding clean_dangling_inputs
sweep_dangling p s = if at_least p.level minimal then clean_dangling_inputs p s else s

-- The entries that are not rooted.
unfoldable pub unrooted : List String → Disk → List String
unrooted roots d = select (λ oh. not (elem oh roots)) (keys d.entries)

-- Phase C: the entries marked for eviction.
unfoldable pub marked_of : GcPolicy → List String → Disk → List String
marked_of p candidates d = if at_least p.level minimal then evict_marked d candidates else []

unfoldable pub sweep_marked : GcPolicy → List String → Sweep → Sweep
unfolding sweep_entry
sweep_marked p marked s = each (sweep_entry p) marked s

-- Phase D: the other entries that are not rooted.
unfoldable pub sweep_by_level : Machine → GcPolicy → GcLevel → List String → Sweep → Sweep
unfolding default_budget_sweep sweep_entry
sweep_by_level m p failed_only candidates s = s
sweep_by_level m p minimal candidates s = s
sweep_by_level m p default candidates s =
    default_budget_sweep m p candidates (total_store_size s.disk - s.report.bytes_freed) s
sweep_by_level m p aggressive candidates s = each (sweep_entry p) (sort_by text_le candidates) s
sweep_by_level m p reset candidates s = each (sweep_entry p) (sort_by text_le candidates) s

-- Phases C and D, for the candidates.
unfoldable pub sweep_entries : Machine → GcPolicy → List String → Sweep → Sweep
unfolding marked_of sweep_marked sweep_by_level
sweep_entries m p candidates s =
    let marked = marked_of p candidates s.disk in
    sweep_by_level m p p.level (select (λ oh. not (elem oh marked)) candidates)
      (sweep_marked p marked s)

-- What the roots are computed from.
unfoldable pub before_roots : Machine → GcPolicy → Disk → Sweep
unfolding clean_debris reset_pins
before_roots m p d =
    reset_pins p (clean_debris m p (record { disk = d; report = empty_report p.dry_run }))

unfoldable pub measure : GcPolicy → Sweep → Sweep
measure p s = record s {
  report = record (s.report) {
    remaining_size = bulk_store_size s.disk - (if p.dry_run then s.report.bytes_freed else 0);
  };
}

unfoldable pub run : Machine → GcPolicy → Disk → Sweep
unfolding before_roots rooted sweep_dangling unrooted sweep_entries sweep_orphan_logs measure
run m p d =
    let s = before_roots m p d in
    let s' = sweep_dangling p s in
    measure p (sweep_orphan_logs m p (sweep_entries m p (unrooted (rooted m s.disk) s'.disk) s'))
