-- ===== src/Gc/Entries.antt =====
-- The sweeps of entries of `crates/ppg3-core/src/gc.rs`, and a whole run.
-- An entry's size and last use are read from the disk in its round.
use Prim.Native.String.{compare}
use text.Mathlib.Text.{is_le}
use ppg.Common.{
  ℕ, ◌+◌, ◌-◌, Bool, false, not, ◌&&◌, Option, none, some, List, [], ◌∷◌, ◌++◌, String,
  if◌then◌else◌, ltb, leb, each_until, sort_by, select,
}
use ppg.Table.{Table, get, remove, insert}
use ppg.Disk.{
  Disk, Entry, manifest_of, LeaseNode, LogLeaf, LogDir, idle_past, entry_size, entries_size,
  logs_size, debris_size, root_ohs, pin_ohs,
}
use ppg.Gc.{
  GcPolicy, Machine, Reading, at_root, at_budget, at_eviction, Sweep, change, log_rel,
  has_json_extension,
}
use ppg.Gc.Debris.{lease_stale_after}

abbrev pub text_le : String → String → Bool
text_le a b = is_le (compare a b)

-- `entry_input_key`
abbrev pub entry_input_key : Option Entry → Option String
entry_input_key none = none
entry_input_key (some e) = elim (manifest_of e.manifest) [ none ↦ none | some m ↦ some m.input_key ]

abbrev pub is_log_dir : Option LogDir → Bool
is_log_dir none = false
is_log_dir (some d) = d.is_dir

abbrev pub drop_logs : Option String → Sweep → Sweep
drop_logs none s = s
drop_logs (some ik) s =
    if is_log_dir (get ik s.disk.logs)
    then record {
      disk = record (s.disk) { logs = remove ik s.disk.logs };
      report = record (s.report) { removed_logs = s.report.removed_logs ++ ik ∷ [] };
    }
    else s

unfoldable pub remove_entry : String → Sweep → Sweep
remove_entry oh s = record s { disk = record (s.disk) { entries = remove oh s.disk.entries } }

unfoldable pub remove_entry_and_logs : String → Sweep → Sweep
unfolding remove_entry
remove_entry_and_logs oh s = remove_entry oh (drop_logs (entry_input_key (get oh s.disk.entries)) s)

-- The body of the three loops that remove entries.
unfoldable pub sweep_entry : GcPolicy → String → Sweep → Sweep
unfolding remove_entry_and_logs
sweep_entry p oh s =
    let s' = record s {
      report = record (s.report) {
        bytes_freed = s.report.bytes_freed + entry_size (get oh s.disk.entries);
        removed_entries = s.report.removed_entries ++ oh ∷ [];
      };
    } in
    if p.dry_run then s' else remove_entry_and_logs oh s'

-- `live_protected_ohs`: what the leases protect that are not stale and can be read.
abbrev pub protected_by : (Reading → ℕ) → String → LeaseNode → List String
protected_by clock name l =
    if has_json_extension name && not (idle_past (clock (at_root name)) l.mtime lease_stale_after)
    then (elim l.protects [ none ↦ [] | some ohs ↦ ohs ])
    else []

unfoldable pub live_protected_ohs : (Reading → ℕ) → Table LeaseNode → List String
live_protected_ohs clock [] = []
live_protected_ohs clock ((name, l) ∷ rest) =
    protected_by clock name l ++ live_protected_ohs clock rest

unfoldable pub rooted : Machine → Disk → List String
unfolding live_protected_ohs
rooted m d = root_ohs d.roots ++ (pin_ohs d.pins ++ live_protected_ohs m.clock d.leases)

abbrev pub is_evictable : Disk → String → Bool
is_evictable d oh = elim (get oh d.entries) [ none ↦ false | some e ↦ e.evict_ok ]

abbrev pub evict_marked : Disk → List String → List String
evict_marked d candidates = sort_by text_le (select (is_evictable d) candidates)

-- What a budget sweep changes: the size that is left, and the sweep.
pub record Budget : Type 0 where
  pub total_size : ℕ
  pub sweep : Sweep

-- The directories of single builds, with the key that they belong to.
pub record LogPath : Type 0 where
  pub ik : String
  pub build : String
  pub mtime : ℕ

abbrev pub build_paths : String → Table LogLeaf → List LogPath
build_paths ik [] = []
build_paths ik ((name, leaf) ∷ rest) =
    (record { ik = ik; build = name; mtime = leaf.mtime }) ∷ build_paths ik rest

unfoldable pub collect_log_leaf_dirs : Table LogDir → List LogPath
collect_log_leaf_dirs [] = []
collect_log_leaf_dirs ((ik, d) ∷ rest) = build_paths ik d.builds ++ collect_log_leaf_dirs rest

abbrev pub builds_of : Option LogDir → Table LogLeaf
builds_of none = []
builds_of (some d) = d.builds

abbrev pub leaf_size : Option LogLeaf → ℕ
leaf_size none = 0
leaf_size (some leaf) = leaf.size

-- The directory that loses a build has that time as its own.
abbrev pub drop_build : ℕ → LogPath → Table LogDir → Table LogDir
drop_build now path logs = elim (get path.ik logs) [
  | none ↦ logs
  | some d ↦ insert path.ik (record d { mtime = now; builds = remove path.build d.builds }) logs
]

unfoldable pub evict_log : Machine → GcPolicy → LogPath → Budget → Budget
evict_log m p path b =
    let s = b.sweep in
    let size = leaf_size (get path.build (builds_of (get path.ik s.disk.logs))) in
    record {
      total_size = b.total_size - size;
      sweep = record {
        disk = change p s.disk (record (s.disk) {
          logs = drop_build (m.clock (at_eviction path.ik path.build)) path s.disk.logs;
        });
        report = record (s.report) {
          bytes_freed = s.report.bytes_freed + size;
          removed_logs = s.report.removed_logs ++ log_rel path.ik path.build ∷ [];
        };
      };
    }

abbrev pub within_budget : ℕ → Budget → Bool
within_budget budget b = leb b.total_size budget

abbrev pub mtime_le : LogPath → LogPath → Bool
mtime_le a b = leb a.mtime b.mtime

unfoldable pub evict_logs_to : Machine → GcPolicy → ℕ → Budget → Budget
unfolding evict_log collect_log_leaf_dirs
evict_logs_to m p budget b =
    if ltb budget b.total_size && p.evict_logs
    then each_until (within_budget budget) (evict_log m p)
        (sort_by mtime_le (collect_log_leaf_dirs b.sweep.disk.logs)) b
    else b

abbrev pub atime_of : Option Entry → ℕ
atime_of none = 0
atime_of (some e) = e.atime

-- An entry with the time of its last use.
abbrev pub with_atimes : Table Entry → List String → List (String × ℕ)
with_atimes entries [] = []
with_atimes entries (oh ∷ ohs) = (oh, atime_of (get oh entries)) ∷ with_atimes entries ohs

abbrev pub atime_le : String × ℕ → String × ℕ → Bool
atime_le a b = leb a.1 b.1

-- `now_ms.saturating_sub(atime) < min_age`
abbrev pub in_grace : Machine → GcPolicy → ℕ → Bool
in_grace m p atime = elim p.min_age_ms [
  | none ↦ false
  | some min_age ↦ ltb (m.clock at_budget) (atime + min_age)
]

unfoldable pub evict_entry : Machine → GcPolicy → String × ℕ → Budget → Budget
unfolding sweep_entry
evict_entry m p (oh, atime) b = if in_grace m p atime then b else record {
  total_size = b.total_size - entry_size (get oh b.sweep.disk.entries);
  sweep = sweep_entry p oh b.sweep;
}

unfoldable pub evict_lru : Machine → GcPolicy → ℕ → List String → Budget → Budget
unfolding evict_entry
evict_lru m p budget candidates b =
    if ltb budget b.total_size
    then each_until (within_budget budget) (evict_entry m p)
        (sort_by atime_le (with_atimes b.sweep.disk.entries candidates)) b
    else b

unfoldable pub default_budget_sweep : Machine → GcPolicy → List String → ℕ → Sweep → Sweep
unfolding evict_logs_to evict_lru
default_budget_sweep m p candidates total_size s = elim p.max_size [
  | none ↦ s
  | some budget ↦
      (evict_lru m p budget candidates
        (evict_logs_to m p budget (record { total_size = total_size; sweep = s }))).sweep
]

abbrev pub total_store_size : Disk → ℕ
total_store_size d = entries_size d.entries + logs_size d.logs

abbrev pub bulk_store_size : Disk → ℕ
bulk_store_size d = total_store_size d + (debris_size d.staging + debris_size d.violations)
