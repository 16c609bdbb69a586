-- ===== src/Gc/Dry.antt =====
-- A dry run of `run` of `crates/ppg3-core/src/gc.rs` leaves the disk as it is.
use ppg.Common.{◌≡◌, refl, true, List, [], ◌∷◌, String, arith, All}
use ppg.Disk.{Disk}
use ppg.Gc.{GcPolicy, Machine, Sweep}
use ppg.Gc.Debris.{
  clean_staging, clean_lease, clean_intent, clean_violation, clear_pin, clean_input,
  sweep_orphan_log, sweep_orphan_logs,
}
use ppg.Gc.Entries.{sweep_entry, evict_log, Budget, LogPath}
use ppg.Gc.Phases.{
  clean_debris-keeps, reset_pins-keeps, sweep_dangling-keeps, sweep_orphan_logs-keeps,
  sweep_entries-keeps,
}
use ppg.Gc.Run.{clean_debris, reset_pins, sweep_dangling, sweep_entries, before_roots, measure, run}

module _ (m : Machine) (p : GcPolicy) (dry : p.dry_run ≡ true) (d : Disk) where
  abbrev Same : Sweep → Type 0
  Same s = s.disk ≡ d

  abbrev SameBudget : Budget → Type 0
  SameBudget b = b.sweep.disk ≡ d

  clean_staging-Same : (name : String) (s : Sweep) → Same s → Same (clean_staging m p name s)
  unfolding clean_staging
  clean_staging-Same name s h = ground arith

  clean_lease-Same : (name : String) (s : Sweep) → Same s → Same (clean_lease m p name s)
  unfolding clean_lease
  clean_lease-Same name s h = ground arith

  clean_intent-Same : (name : String) (s : Sweep) → Same s → Same (clean_intent m p name s)
  unfolding clean_intent
  clean_intent-Same name s h = ground arith

  clean_violation-Same : (name : String) (s : Sweep) → Same s → Same (clean_violation m p name s)
  unfolding clean_violation
  clean_violation-Same name s h = ground arith

  clear_pin-Same : (name : String) (s : Sweep) → Same s → Same (clear_pin p name s)
  unfolding clear_pin
  clear_pin-Same name s h = ground arith

  clean_input-Same : (name : String) (s : Sweep) → Same s → Same (clean_input p name s)
  unfolding clean_input
  clean_input-Same name s h = ground arith

  sweep_orphan_log-Same : (name : String) (s : Sweep) → Same s → Same (sweep_orphan_log m p name s)
  unfolding sweep_orphan_log
  sweep_orphan_log-Same name s h = ground arith

  sweep_entry-Same : (oh : String) (s : Sweep) → Same s → Same (sweep_entry p oh s)
  unfolding sweep_entry
  sweep_entry-Same oh s h = ground arith

  evict_log-Same : (path : LogPath) (b : Budget) → SameBudget b → SameBudget (evict_log m p path b)
  unfolding evict_log
  evict_log-Same path b h = ground arith

  names-All : (xs : List String) → All (λ (x : String). Unit {0}) xs
  names-All [] = tt
  names-All (x ∷ xs) = (tt, names-All xs)

  start-Same : (s : Sweep) → Same s → Same (reset_pins p (clean_debris m p s))
  start-Same s h = reset_pins-keeps m p Same _ clear_pin-Same (
      clean_debris-keeps m p Same s clean_staging-Same clean_lease-Same clean_intent-Same
        clean_violation-Same h)

  end-Same :
      (candidates : List String) (s : Sweep)
      → Same s
      → Same (sweep_orphan_logs m p (sweep_entries m p candidates (sweep_dangling p s)))
  end-Same candidates s h = sweep_orphan_logs-keeps m p Same _ sweep_orphan_log-Same (
      sweep_entries-keeps m p (λ oh. Unit {0}) Same (λ oh s' a h'. sweep_entry-Same oh s' h')
        evict_log-Same candidates _ (names-All candidates)
        (sweep_dangling-keeps m p Same s clean_input-Same h))

-- A dry run, at any level, with any budget, leaves the disk as it is.
pub dry_run-disk : (m : Machine) (p : GcPolicy) (d : Disk) → p.dry_run ≡ true → (run m p d).disk ≡ d
unfolding run measure before_roots
dry_run-disk m p d dry = end-Same m p dry d _ _ (start-Same m p dry d _ refl)
