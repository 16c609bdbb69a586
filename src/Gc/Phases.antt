-- ===== src/Gc/Phases.antt =====
-- What each round of a run of `crates/ppg3-core/src/gc.rs` keeps, its phases and the run keep.
use ppg.Common.{
  ℕ, List, [], ◌∷◌, String, each-keeps, each-keeps_All, each_until-keeps, each_until-keeps_All,
  Option-cases, inl, inr, Bool-cases, All, sort_by, sort_by-All, select-All, ltb, ◌&&◌,
}
use ppg.Table.{Table, keys}
use ppg.Disk.{Disk, Entry}
use ppg.Gc.{
  GcPolicy, GcLevel, failed_only, minimal, default, aggressive, reset, at_least, Machine, Sweep,
}
use ppg.Gc.Debris.{
  clean_staging, clean_lease, clean_intent, clean_violation, clear_pin, clean_input,
  sweep_orphan_log, clean_stale_staging, clean_stale_leases, clean_stale_intents, clean_violations,
  clear_pins, clean_dangling_inputs, sweep_orphan_logs,
}
use ppg.Gc.Entries.{
  sweep_entry, evict_log, evict_entry, Budget, evict_logs_to, evict_lru, default_budget_sweep,
  collect_log_leaf_dirs, LogPath, with_atimes, atime_le, mtime_le, within_budget, in_grace, text_le,
  is_evictable,
}
use ppg.Gc.Run.{
  clean_debris, reset_pins, sweep_dangling, marked_of, sweep_marked, sweep_by_level, sweep_entries,
}

module _ {ℓ} (m : Machine) (p : GcPolicy) (Q : Sweep → Type ℓ) where
  abbrev pub KeptBy : (String → Sweep → Sweep) → Type ℓ
  KeptBy f = (name : String) (s : Sweep) → Q s → Q (f name s)

  -- Phase A.
  pub clean_debris-keeps :
      (s : Sweep)
      → KeptBy (clean_staging m p)
      → KeptBy (clean_lease m p)
      → KeptBy (clean_intent m p)
      → KeptBy (clean_violation m p)
      → Q s
      → Q (clean_debris m p s)
  unfolding clean_debris clean_stale_staging clean_stale_leases clean_stale_intents clean_violations
  clean_debris-keeps s a b c d q =
      let s1 = clean_stale_staging m p s in
      let s2 = clean_stale_leases m p s1 in
      let s3 = clean_stale_intents m p s2 in
      each-keeps Q (clean_violation m p) (keys s3.disk.violations) s3 d (
        each-keeps Q (clean_intent m p) (keys s2.disk.intents) s2 c (
          each-keeps Q (clean_lease m p) (keys s1.disk.leases) s1 b
            (each-keeps Q (clean_staging m p) (keys s.disk.staging) s a q)))

  pub reset_pins-keeps : (s : Sweep) → KeptBy (clear_pin p) → Q s → Q (reset_pins p s)
  unfolding reset_pins clear_pins
  reset_pins-keeps s a q = elim (Bool-cases (at_least p.level reset)) [
    | inl e ↦ rw e (each-keeps Q (clear_pin p) (keys s.disk.pins) s a q)
    | inr e ↦ rw e q
  ]

  -- Phase B.
  pub sweep_dangling-keeps : (s : Sweep) → KeptBy (clean_input p) → Q s → Q (sweep_dangling p s)
  unfolding sweep_dangling clean_dangling_inputs
  sweep_dangling-keeps s a q = elim (Bool-cases (at_least p.level minimal)) [
    | inl e ↦ rw e (each-keeps Q (clean_input p) (keys s.disk.inputs) s a q)
    | inr e ↦ rw e q
  ]

  -- Phase E.
  pub sweep_orphan_logs-keeps :
      (s : Sweep) → KeptBy (sweep_orphan_log m p) → Q s → Q (sweep_orphan_logs m p s)
  unfolding sweep_orphan_logs
  sweep_orphan_logs-keeps s a q = each-keeps Q (sweep_orphan_log m p) (keys s.disk.logs) s a q

-- Phases C and D, where a round on an entry keeps what it keeps if the entry has a property.
module _ {ℓ κ} (m : Machine) (p : GcPolicy) (P : String → Type κ) (Q : Sweep → Type ℓ)
    (entry : (oh : String) (s : Sweep) → P oh → Q s → Q (sweep_entry p oh s))
    (build : (path : LogPath) (b : Budget) → Q b.sweep → Q (evict_log m p path b).sweep) where
  abbrev QBudget : Budget → Type ℓ
  QBudget b = Q b.sweep

  abbrev PPair : String × ℕ → Type κ
  PPair x = P x.0

  with_atimes-All :
      (entries : Table Entry) (ohs : List String) → All P ohs → All PPair (with_atimes entries ohs)
  with_atimes-All entries [] a = tt
  with_atimes-All entries (oh ∷ ohs) a = (a.0, with_atimes-All entries ohs a.1)

  evict_entry-keeps :
      (x : String × ℕ) (b : Budget) → PPair x → QBudget b → QBudget (evict_entry m p x b)
  unfolding evict_entry
  evict_entry-keeps (oh, atime) b a q = elim (Bool-cases (in_grace m p atime)) [
    | inl e ↦ rw e q
    | inr e ↦ rw e (entry oh b.sweep a q)
  ]

  evict_logs_to-keeps : (budget : ℕ) (b : Budget) → QBudget b → QBudget (evict_logs_to m p budget b)
  unfolding evict_logs_to
  evict_logs_to-keeps budget b q = elim (Bool-cases (ltb budget b.total_size && p.evict_logs)) [
    | inl e ↦ rw e (
        each_until-keeps QBudget (within_budget budget) (evict_log m p)
          (sort_by mtime_le (collect_log_leaf_dirs b.sweep.disk.logs)) b build q)
    | inr e ↦ rw e q
  ]

  evict_lru-keeps :
      (budget : ℕ) (candidates : List String) (b : Budget)
      → All P candidates
      → QBudget b
      → QBudget (evict_lru m p budget candidates b)
  unfolding evict_lru
  evict_lru-keeps budget candidates b a q = elim (Bool-cases (ltb budget b.total_size)) [
    | inl e ↦ rw e (
        each_until-keeps_All PPair QBudget (within_budget budget) (evict_entry m p)
          (sort_by atime_le (with_atimes b.sweep.disk.entries candidates)) b evict_entry-keeps
          (sort_by-All PPair atime_le _ (with_atimes-All b.sweep.disk.entries candidates a)) q)
    | inr e ↦ rw e q
  ]

  pub default_budget_sweep-keeps :
      (candidates : List String) (total : ℕ) (s : Sweep)
      → All P candidates
      → Q s
      → Q (default_budget_sweep m p candidates total s)
  unfolding default_budget_sweep
  default_budget_sweep-keeps candidates total s a q = elim (Option-cases p.max_size) [
    | inl e ↦ rw (e, default_budget_sweep) q
    | inr (budget, e) ↦
        rw (e, default_budget_sweep)
          (evict_lru-keeps budget candidates _ a
            (evict_logs_to-keeps budget (record { total_size = total; sweep = s }) q))
  ]

  pub sweep_by_level-keeps :
      (level : GcLevel) (candidates : List String) (s : Sweep)
      → All P candidates
      → Q s
      → Q (sweep_by_level m p level candidates s)
  unfolding sweep_by_level
  sweep_by_level-keeps failed_only candidates s a q = q
  sweep_by_level-keeps minimal candidates s a q = q
  sweep_by_level-keeps default candidates s a q = default_budget_sweep-keeps candidates _ s a q
  sweep_by_level-keeps aggressive candidates s a q =
      each-keeps_All P Q (sweep_entry p) (sort_by text_le candidates) s entry
        (sort_by-All P text_le candidates a) q
  sweep_by_level-keeps reset candidates s a q =
      each-keeps_All P Q (sweep_entry p) (sort_by text_le candidates) s entry
        (sort_by-All P text_le candidates a) q

  marked_of-All :
      (candidates : List String) (d : Disk) → All P candidates → All P (marked_of p candidates d)
  unfolding marked_of
  marked_of-All candidates d a = elim (Bool-cases (at_least p.level minimal)) [
    | inl e ↦ rw e (sort_by-All P text_le _ (select-All P (is_evictable d) candidates a))
    | inr e ↦ rw e tt
  ]

  pub sweep_entries-keeps :
      (candidates : List String) (s : Sweep)
      → All P candidates
      → Q s
      → Q (sweep_entries m p candidates s)
  unfolding sweep_entries sweep_marked
  sweep_entries-keeps candidates s a q =
      sweep_by_level-keeps p.level _ _ (select-All P _ candidates a) (
        each-keeps_All P Q (sweep_entry p) (marked_of p candidates s.disk) s entry
          (marked_of-All candidates s.disk a) q)
