-- ===== src/Gc/Report.antt =====
-- What the report of a run of `crates/ppg3-core/src/gc.rs` says of the entries, and what the aggressive
-- levels leave.
use ppg.Common.{
  ◌≡◌, refl, false, Option, none, some, List, [], ◌∷◌, ◌++◌, String, elem, elem-append, arith,
  Bool-cases, inl, inr, if◌then◌else◌, All,
}
use ppg.Table.{get, get-remove}
use ppg.Disk.{Disk}
use ppg.Gc.{GcPolicy, empty_report, Machine, Sweep}
use ppg.Gc.Debris.{
  clean_staging, clean_lease, clean_intent, clean_violation, clear_pin, clean_input,
  sweep_orphan_log,
}
use ppg.Gc.Entries.{
  rooted, sweep_entry, remove_entry_and_logs, drop_logs, entry_input_key, evict_log, Budget,
  LogPath,
}
use ppg.Gc.Phases.{
  clean_debris-keeps, reset_pins-keeps, sweep_dangling-keeps, sweep_orphan_logs-keeps,
  sweep_entries-keeps,
}
use ppg.Gc.Kept.{sweep_entry-entries}
use ppg.Gc.Run.{before_roots, clean_debris, sweep_dangling, unrooted, sweep_entries, measure, run}

drop_logs-removed :
    (ik : Option String) (s : Sweep)
    → (drop_logs ik s).report.removed_entries ≡ s.report.removed_entries
drop_logs-removed none s = refl
drop_logs-removed (some ik) s = ground arith

sweep_entry-removed :
    (p : GcPolicy) (x : String) (s : Sweep)
    → (sweep_entry p x s).report.removed_entries ≡ s.report.removed_entries ++ x ∷ []
unfolding sweep_entry remove_entry_and_logs
sweep_entry-removed p x s = elim (Bool-cases p.dry_run) [
  | inl e ↦ rw e refl
  | inr e ↦ rw e (drop_logs-removed (entry_input_key (get x s.disk.entries)) _)
]

-- An entry is there unless the report says that it has gone.
module _ (m : Machine) (p : GcPolicy) (d : Disk) (oh : String) where
  abbrev Told : Sweep → Type 0
  Told s =
      get oh s.disk.entries ≡ (if elem oh s.report.removed_entries then none else get oh d.entries)

  module _ (wet : p.dry_run ≡ false) where
    sweep_entry-Told : (x : String) (s : Sweep) → Told s → Told (sweep_entry p x s)
    sweep_entry-Told x s h =
        rw (sweep_entry-removed p x s, sweep_entry-entries p x s)
          (unfold elem in
            ground (
              arith,
              wet,
              get-remove oh x s.disk.entries,
              elem-append oh s.report.removed_entries (x ∷ []),
            ))

  clean_staging-Told : (name : String) (s : Sweep) → Told s → Told (clean_staging m p name s)
  unfolding clean_staging
  clean_staging-Told name s h = ground arith

  clean_lease-Told : (name : String) (s : Sweep) → Told s → Told (clean_lease m p name s)
  unfolding clean_lease
  clean_lease-Told name s h = ground arith

  clean_intent-Told : (name : String) (s : Sweep) → Told s → Told (clean_intent m p name s)
  unfolding clean_intent
  clean_intent-Told name s h = ground arith

  clean_violation-Told : (name : String) (s : Sweep) → Told s → Told (clean_violation m p name s)
  unfolding clean_violation
  clean_violation-Told name s h = ground arith

  clear_pin-Told : (name : String) (s : Sweep) → Told s → Told (clear_pin p name s)
  unfolding clear_pin
  clear_pin-Told name s h = ground arith

  clean_input-Told : (name : String) (s : Sweep) → Told s → Told (clean_input p name s)
  unfolding clean_input
  clean_input-Told name s h = ground arith

  sweep_orphan_log-Told : (name : String) (s : Sweep) → Told s → Told (sweep_orphan_log m p name s)
  unfolding sweep_orphan_log
  sweep_orphan_log-Told name s h = ground arith

  evict_log-Told : (path : LogPath) (b : Budget) → Told b.sweep → Told (evict_log m p path b).sweep
  unfolding evict_log
  evict_log-Told path b h = ground arith

  names-All : (xs : List String) → All (λ (x : String). Unit {0}) xs
  names-All [] = tt
  names-All (x ∷ xs) = (tt, names-All xs)

  run-Told : p.dry_run ≡ false → Told (run m p d)
  unfolding run measure before_roots
  run-Told wet =
      let s0 : Sweep = record { disk = d; report = empty_report p.dry_run } in
      let s1 = clean_debris m p s0 in
      let s2 = before_roots m p d in
      let s3 = sweep_dangling p s2 in
      let candidates = unrooted (rooted m s2.disk) s3.disk in
      sweep_orphan_logs-keeps m p Told (sweep_entries m p candidates s3) sweep_orphan_log-Told (
        sweep_entries-keeps m p (λ x. Unit {0}) Told (λ x s a h. sweep_entry-Told wet x s h)
          evict_log-Told candidates s3 (names-All candidates)
          (sweep_dangling-keeps m p Told s2 clean_input-Told (
            reset_pins-keeps m p Told s1 clear_pin-Told (
              clean_debris-keeps m p Told s0 clean_staging-Told clean_lease-Told clean_intent-Told
                clean_violation-Told (unfold elem in refl)))))

-- After a run that is not dry, an entry of the store is still there, unchanged, exactly when the report
-- does not list it as removed.
pub report_tells_removed :
    (m : Machine) (p : GcPolicy) (d : Disk) (oh : String)
    → p.dry_run ≡ false
    → get oh (run m p d).disk.entries
      ≡ (if elem oh (run m p d).report.removed_entries then none else get oh d.entries)
report_tells_removed m p d oh wet = run-Told m p d oh wet
