-- ===== src/Gc.antt =====
-- The garbage collection of a store: `crates/ppg3-core/src/gc.rs`.
-- A run has the lock for itself, so that nothing else changes the disk. A sum of sizes stays in `u64`.
use Prim.Native.Char.{code}
use Prim.Native.String.{◌++◌}
use ppg.Common.{
  ℕ, zero, suc, ◌+◌, ◌-◌, ◌*◌, ◌^◌, Bool, true, false, not, ◌&&◌, ◌||◌, Option, none, some, List,
  [], ◌∷◌, String, ◌==◌, if◌then◌else◌, ltb, leb, ◌=ℕ◌,
}
use ppg.Disk.{Disk}
pub mod Debris
pub mod Entries
pub mod Run
pub mod Phases
pub mod Dry
pub mod Roots
pub mod Kept
pub mod Report
pub mod Aggressive
pub mod Budget
pub mod Samples

pub data GcLevel : Type 0 where
  failed_only minimal default aggressive reset : GcLevel

abbrev pub rank : GcLevel → ℕ
rank failed_only = 0
rank minimal = 1
rank default = 2
rank aggressive = 3
rank reset = 4

-- `level >= GcLevel::X`
abbrev pub at_least : GcLevel → GcLevel → Bool
at_least level x = leb (rank x) (rank level)

-- `min_age_ms` is not negative.
pub record GcPolicy : Type 0 where
  pub level : GcLevel
  pub max_size : Option ℕ
  pub min_age_ms : Option ℕ
  pub evict_logs : Bool
  pub dry_run : Bool

pub record GcReport : Type 0 where
  pub removed_entries : List String
  pub removed_logs : List String
  pub removed_dangling_inputs : List String
  pub removed_staging : List String
  pub removed_leases : List String
  pub removed_intents : List String
  pub removed_violations : List String
  pub removed_pins : List String
  pub bytes_freed : ℕ
  pub remaining_size : ℕ
  pub dry_run : Bool

abbrev pub empty_report : Bool → GcReport
empty_report dry_run = record {
  removed_entries = [];
  removed_logs = [];
  removed_dangling_inputs = [];
  removed_staging = [];
  removed_leases = [];
  removed_intents = [];
  removed_violations = [];
  removed_pins = [];
  bytes_freed = 0;
  remaining_size = 0;
  dry_run = dry_run;
}

-- What a run reads the clock for, with the file's name: to sweep it, to count it among the roots, for
-- the budget's grace, or as the kernel does when a directory loses a build.
pub data Reading : Type 0 where
  at_staging at_lease at_intent at_violation at_root at_orphan : String → Reading
  at_budget : Reading
  at_eviction : String → String → Reading

-- The machine that a run is on: its name, its living processes, and its clock at each reading.
pub record Machine : Type 0 where
  pub hostname : String
  pub pid_alive : ℕ → Bool
  pub clock : Reading → ℕ

-- The disk and the report, as a run changes them.
pub record Sweep : Type 0 where
  pub disk : Disk
  pub report : GcReport

-- `if !policy.dry_run { .. }` around a change of the disk.
abbrev pub change : GcPolicy → Disk → Disk → Disk
change p before after = if p.dry_run then before else after

-- `rsplit` once: what stands before the last character of a code, and behind it.
unfoldable pub rsplit_at : ℕ → String → Option (String × String)
rsplit_at n String.[] = none
rsplit_at n (String.◌∷◌ c s) = elim (rsplit_at n s) [
  | some (a, b) ↦ some (String.◌∷◌ c a, b)
  | none ↦ if code c =ℕ n then some (String.[], s) else none
]

-- `str::parse::<u32>`: digits, behind one `+` at most, and no overflow.
abbrev pub u32_max : ℕ
u32_max = 2 ^ 32 - 1

unfoldable pub parse_digits : ℕ → String → Option ℕ
parse_digits n String.[] = some n
parse_digits n (String.◌∷◌ c s) =
    let rest = parse_digits (10 * n + (code c - b'0')) s in
    if ltb (code c) b'0' || ltb b'9' (code c) || ltb u32_max (10 * n + (code c - b'0'))
    then none
    else rest

unfoldable pub parse_u32 : String → Option ℕ
unfolding parse_digits
parse_u32 String.[] = none
parse_u32 (String.◌∷◌ c String.[]) = parse_digits 0 (String.◌∷◌ c String.[])
parse_u32 (String.◌∷◌ c s) =
    if code c =ℕ b'+' then parse_digits 0 s else parse_digits 0 (String.◌∷◌ c s)

-- `<host>-<pid>-<rand>`, from the right.
unfoldable pub parse_staging_name : String → Option (String × ℕ)
unfolding rsplit_at parse_u32
parse_staging_name name = elim (rsplit_at b'-' name) [
  | none ↦ none
  | some (front, rand) ↦ elim (rsplit_at b'-' front) [
    | none ↦ none
    | some (host, pid) ↦ elim (parse_u32 pid) [ none ↦ none | some n ↦ some (host, n) ]
  ]
]

-- `path.extension() == Some("json")`: a name of dots alone in front has no extension.
unfoldable pub has_json_extension : String → Bool
unfolding rsplit_at
has_json_extension name = elim (rsplit_at b'.' name) [
  | none ↦ false
  | some (stem, extension) ↦ not (stem == "") && extension == "json"
]

-- A build's directory, from `logs/`.
abbrev pub log_rel : String → String → String
log_rel ik build = ik ++ ("/" ++ build)
