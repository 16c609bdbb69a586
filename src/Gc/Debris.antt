-- ===== src/Gc/Debris.antt =====
-- The sweeps of debris, dangling links, pins and orphan logs of `crates/ppg3-core/src/gc.rs`. Each is a
-- loop over the names in a directory; a name's node is read from the disk in its round.
use ppg.Common.{
  ℕ, ◌+◌, ◌*◌, Bool, not, ◌&&◌, ◌||◌, none, some, [], ◌∷◌, ◌++◌, String, ◌==◌, if◌then◌else◌, each,
}
use ppg.Table.{get, contains_key, remove, keys}
use ppg.Disk.{Debris, LogDir, idle_past, resolves, link_target, builds_size}
use ppg.Gc.{
  GcPolicy, aggressive, at_least, Machine, at_staging, at_lease, at_intent, at_violation, at_orphan,
  Sweep, change, parse_staging_name, has_json_extension,
}

-- Half an hour and a day.
abbrev pub lease_stale_after : ℕ
lease_stale_after = 30 * 60 * 1000

abbrev pub intent_stale_after : ℕ
intent_stale_after = 30 * 60 * 1000

abbrev pub staging_cross_host_stale_after : ℕ
staging_cross_host_stale_after = 24 * 60 * 60 * 1000

abbrev pub violation_stale_after : ℕ
violation_stale_after = 24 * 60 * 60 * 1000

unfoldable pub is_stale_staging : Machine → String → Debris → Bool
unfolding parse_staging_name
is_stale_staging m name d = elim (parse_staging_name name) [
  | none ↦ idle_past (m.clock (at_staging name)) d.mtime staging_cross_host_stale_after
  | some (host, pid) ↦
      if host == m.hostname
      then not (m.pid_alive pid)
      else idle_past (m.clock (at_staging name)) d.mtime staging_cross_host_stale_after
]

abbrev pub drop_staging : GcPolicy → String → Debris → Sweep → Sweep
drop_staging p name d s = record {
  disk = change p s.disk (record (s.disk) { staging = remove name s.disk.staging });
  report = record (s.report) {
    removed_staging = s.report.removed_staging ++ name ∷ [];
    bytes_freed = s.report.bytes_freed + d.size;
  };
}

unfoldable pub clean_staging : Machine → GcPolicy → String → Sweep → Sweep
unfolding is_stale_staging
clean_staging m p name s = elim (get name s.disk.staging) [
  | none ↦ s
  | some d ↦
      if name == "violations" || not d.is_dir || not (is_stale_staging m name d)
      then s
      else drop_staging p name d s
]

unfoldable pub clean_stale_staging : Machine → GcPolicy → Sweep → Sweep
clean_stale_staging m p s = each (clean_staging m p) (keys s.disk.staging) s

abbrev pub drop_lease : GcPolicy → String → Sweep → Sweep
drop_lease p name s = record {
  disk = change p s.disk (record (s.disk) { leases = remove name s.disk.leases });
  report = record (s.report) { removed_leases = s.report.removed_leases ++ name ∷ [] };
}

unfoldable pub clean_lease : Machine → GcPolicy → String → Sweep → Sweep
clean_lease m p name s = elim (get name s.disk.leases) [
  | none ↦ s
  | some l ↦
      if has_json_extension name && idle_past (m.clock (at_lease name)) l.mtime lease_stale_after
      then drop_lease p name s
      else s
]

unfoldable pub clean_stale_leases : Machine → GcPolicy → Sweep → Sweep
clean_stale_leases m p s = each (clean_lease m p) (keys s.disk.leases) s

abbrev pub drop_intent : GcPolicy → String → Sweep → Sweep
drop_intent p name s = record {
  disk = change p s.disk (record (s.disk) { intents = remove name s.disk.intents });
  report = record (s.report) { removed_intents = s.report.removed_intents ++ name ∷ [] };
}

unfoldable pub clean_intent : Machine → GcPolicy → String → Sweep → Sweep
clean_intent m p name s = elim (get name s.disk.intents) [
  | none ↦ s
  | some mtime ↦
      if has_json_extension name && idle_past (m.clock (at_intent name)) mtime intent_stale_after
      then drop_intent p name s
      else s
]

unfoldable pub clean_stale_intents : Machine → GcPolicy → Sweep → Sweep
clean_stale_intents m p s = each (clean_intent m p) (keys s.disk.intents) s

abbrev pub drop_violation : GcPolicy → String → Sweep → Sweep
drop_violation p name s = record {
  disk = change p s.disk (record (s.disk) { violations = remove name s.disk.violations });
  report = record (s.report) { removed_violations = s.report.removed_violations ++ name ∷ [] };
}

unfoldable pub clean_violation : Machine → GcPolicy → String → Sweep → Sweep
clean_violation m p name s = elim (get name s.disk.violations) [
  | none ↦ s
  | some d ↦
      if at_least p.level aggressive
        || idle_past (m.clock (at_violation name)) d.mtime violation_stale_after
      then drop_violation p name s
      else s
]

unfoldable pub clean_violations : Machine → GcPolicy → Sweep → Sweep
clean_violations m p s = each (clean_violation m p) (keys s.disk.violations) s

unfoldable pub clear_pin : GcPolicy → String → Sweep → Sweep
clear_pin p name s = record {
  disk = change p s.disk (record (s.disk) { pins = remove name s.disk.pins });
  report = record (s.report) { removed_pins = s.report.removed_pins ++ name ∷ [] };
}

unfoldable pub clear_pins : GcPolicy → Sweep → Sweep
clear_pins p s = each (clear_pin p) (keys s.disk.pins) s

abbrev pub drop_input : GcPolicy → String → Sweep → Sweep
drop_input p name s = record {
  disk = change p s.disk (record (s.disk) { inputs = remove name s.disk.inputs });
  report = record (s.report) {
    removed_dangling_inputs = s.report.removed_dangling_inputs ++ name ∷ [];
  };
}

-- What is no symbolic link stays.
unfoldable pub clean_input : GcPolicy → String → Sweep → Sweep
clean_input p name s = elim (link_target (get name s.disk.inputs)) [
  | none ↦ s
  | some oh ↦ if contains_key oh s.disk.entries then s else drop_input p name s
]

unfoldable pub clean_dangling_inputs : GcPolicy → Sweep → Sweep
clean_dangling_inputs p s = each (clean_input p) (keys s.disk.inputs) s

abbrev pub drop_log : GcPolicy → String → LogDir → Sweep → Sweep
drop_log p ik d s = record {
  disk = change p s.disk (record (s.disk) { logs = remove ik s.disk.logs });
  report = record (s.report) {
    removed_logs = s.report.removed_logs ++ ik ∷ [];
    bytes_freed = s.report.bytes_freed + builds_size d.builds;
  };
}

unfoldable pub sweep_orphan_log : Machine → GcPolicy → String → Sweep → Sweep
sweep_orphan_log m p ik s = elim (get ik s.disk.logs) [
  | none ↦ s
  | some d ↦
      if not d.is_dir
        || resolves (link_target (get ik s.disk.inputs)) s.disk.entries
        || not (idle_past (m.clock (at_orphan ik)) d.mtime lease_stale_after)
      then s
      else drop_log p ik d s
]

unfoldable pub sweep_orphan_logs : Machine → GcPolicy → Sweep → Sweep
sweep_orphan_logs m p s = each (sweep_orphan_log m p) (keys s.disk.logs) s
