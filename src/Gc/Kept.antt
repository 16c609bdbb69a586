-- ===== src/Gc/Kept.antt =====
-- Which entries a run of `crates/ppg3-core/src/gc.rs` keeps, and which it removes.
use ppg.Common.{
  ◌≡◌, refl, ap, ◌∙◌, true, false, not, Option, none, some, List, String, ◌==◌, eq_iff, elem, arith,
  Bool-cases, inl, inr, if◌then◌else◌, All, All-map, select, select-passes,
}
use ppg.Table.{get, remove, get-remove, keys}
use ppg.Disk.{Disk, Entry}
use ppg.Gc.{GcPolicy, Machine, Sweep}
use ppg.Gc.Debris.{clean_input, sweep_orphan_log, sweep_orphan_logs}
use ppg.Gc.Entries.{
  rooted, sweep_entry, remove_entry_and_logs, drop_logs, entry_input_key, evict_log, Budget,
  LogPath,
}
use ppg.Gc.Phases.{sweep_dangling-keeps, sweep_orphan_logs-keeps, sweep_entries-keeps}
use ppg.Gc.Roots.{IsRooted, Intact-rooted, before_roots-Intact}
use ppg.Gc.Run.{before_roots, sweep_dangling, unrooted, sweep_entries, measure, run}

drop_logs-entries :
    (ik : Option String) (s : Sweep) → (drop_logs ik s).disk.entries ≡ s.disk.entries
drop_logs-entries none s = refl
drop_logs-entries (some ik) s = ground arith

-- What a round leaves of the entries.
pub sweep_entry-entries :
    (p : GcPolicy) (x : String) (s : Sweep)
    → (sweep_entry p x s).disk.entries
      ≡ (if p.dry_run then s.disk.entries else remove x s.disk.entries)
unfolding sweep_entry remove_entry_and_logs
sweep_entry-entries p x s = elim (Bool-cases p.dry_run) [
  | inl e ↦ rw e refl
  | inr e ↦ rw e (ap (remove x) (drop_logs-entries (entry_input_key (get x s.disk.entries)) _))
]

-- The rounds that touch no entry.
module _ (m : Machine) (p : GcPolicy) where
  pub input_entries :
      (name : String) (s : Sweep) → (clean_input p name s).disk.entries ≡ s.disk.entries
  unfolding clean_input
  input_entries name s = ground arith

  pub orphan_entries :
      (name : String) (s : Sweep) → (sweep_orphan_log m p name s).disk.entries ≡ s.disk.entries
  unfolding sweep_orphan_log
  orphan_entries name s = ground arith

  pub log_entries :
      (path : LogPath) (b : Budget)
      → (evict_log m p path b).sweep.disk.entries ≡ b.sweep.disk.entries
  unfolding evict_log
  log_entries path b = ground arith

-- Where no candidate is the entry, the sweeps leave it.
module _ (m : Machine) (p : GcPolicy) (oh : String) (v : Option Entry) where
  abbrev There : Sweep → Type 0
  There s = get oh s.disk.entries ≡ v

  abbrev Other : String → Type 0
  Other x = (x == oh) ≡ false

  sweep_entry-There : (x : String) (s : Sweep) → Other x → There s → There (sweep_entry p x s)
  sweep_entry-There x s a h =
      ground (arith, sweep_entry-entries p x s, get-remove oh x s.disk.entries)

  sweeps-There :
      (candidates : List String) (s : Sweep)
      → All Other candidates
      → There s
      → There (sweep_orphan_logs m p (sweep_entries m p candidates s))
  sweeps-There candidates s a h =
      sweep_orphan_logs-keeps m p There _ (λ name t q. ap (get oh) (orphan_entries m p name t) ∙ q)
        (sweep_entries-keeps m p Other There sweep_entry-There
          (λ path b q. ap (get oh) (log_entries m p path b) ∙ q) candidates s a h)

  dangling-There : (s : Sweep) → There s → There (sweep_dangling p s)
  dangling-There s h =
      sweep_dangling-keeps m p There s (λ name t q. ap (get oh) (input_entries m p name t) ∙ q) h

unrooted-Other :
    (roots : List String) (d : Disk) (oh : String)
    → elem oh roots ≡ true
    → All (λ (x : String). (x == oh) ≡ false) (unrooted roots d)
unfolding unrooted
unrooted-Other roots d oh h =
    All-map (select (λ x. not (elem x roots)) (keys d.entries))
      (select-passes (λ x. not (elem x roots)) (keys d.entries)) (λ x q. other x (q))
  where
    other : (x : String) → not (elem x roots) ≡ true → (x == oh) ≡ false
    other x q = elim (Bool-cases (x == oh)) [
      | inr e ↦ e
      | inl e ↦ absurd (ground (arith, ap (λ (k : String). elem k roots) ((eq_iff x oh).0 e)))
    ]

-- No run of the garbage collection, at any level and with any budget, touches an entry that a
-- generation lists, that a lease protects that is stale neither when the leases are swept nor when
-- the roots are computed, or that a pin names below the level that clears the pins.
pub rooted_entry_stays :
    (m : Machine) (p : GcPolicy) (d : Disk) (oh : String)
    → IsRooted m p d oh
    → get oh (run m p d).disk.entries ≡ get oh d.entries
unfolding run measure
rooted_entry_stays m p d oh r =
    let s = before_roots m p d in
    let intact = before_roots-Intact m p d in
    sweeps-There m p oh (get oh d.entries) _ (sweep_dangling p s)
      (unrooted-Other (rooted m s.disk) (sweep_dangling p s).disk oh
        (Intact-rooted m p d s oh intact r))
      (dangling-There m p oh (get oh d.entries) s (ap (get oh) intact.same_entries))
