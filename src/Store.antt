-- ===== src/Store.antt =====
-- The store: `crates/ppg3-core/src/store.rs`. An operation's result is an answer and the disk that it leaves,
-- also where the answer is an error.
-- Parameters: `blake3_hex`, of the crate `blake3`, and `content_bytes`, the canonical JSON of a
-- content map, which `serde_json` writes.
use ppg.Common.{
  ℕ, ◌+◌, ◌≡◌, Bool, true, false, not, ◌&&◌, ◌||◌, Option, none, some, List, [], ◌∷◌, ◌++◌, String,
  ◌==◌, if◌then◌else◌, ◌=ℕ◌, elem, select, sort_by, Result, success, failure, length,
}
use ppg.Table.{Table, get, insert, contains_key, remove, keys}
use ppg.Job.{Json}
use ppg.Scheduler.{ContentEntry}
use ppg.Files.{FileNode}
use ppg.Disk.{
  absent, unreadable, readable, manifest_of, Disk, Entry, Manifest, BuiltInfo, Debris, link_target,
}
use ppg.Gc.Entries.{text_le}
pub mod Publish
pub mod Grows
pub mod RoundTrip
pub mod Verify
pub mod Violation
pub mod Verified
pub mod Rooted
pub mod Samples

pub record Store : Type 0 where
  pub name : String
  pub readonly : Bool
  pub disk : Disk

pub record Staging : Type 0 where
  pub name : String
  pub files : Table FileNode
  pub size : ℕ

-- The report of a violation: the names of its files, the bytes of changed files left out.
pub record DiffReport : Type 0 where
  pub added : List String
  pub removed : List String
  pub changed : List String

pub data StoreError : Type 0 where
  read_only_store : String → StoreError
  not_a_link : String → StoreError
  dangling_link : String → String → StoreError
  unreadable_manifest : String → StoreError
  differing_content : String → StoreError
  determinism_violation : String → DiffReport → StoreError
  no_such_entry : String → StoreError

pub data PublishOutcome : Type 0 where
  published dedup_hit : String → PublishOutcome

abbrev pub outcome_oh : PublishOutcome → String
outcome_oh (published oh) = oh
outcome_oh (dedup_hit oh) = oh

-- An answer and the disk.
abbrev pub Answer : Type 0 → Type 0
Answer A = Result StoreError A × Disk

infixl 10 ◌>>=◌
abbrev pub ◌>>=◌ : {A B : Type 0} → Answer A → (A → Disk → Answer B) → Answer B
(success a, d) >>= k = k a d
(failure e, d) >>= k = (failure e, d)

unfoldable pub ensure_writable : Store → Result StoreError (Unit {0})
ensure_writable s = if s.readonly then failure (read_only_store s.name) else success tt

abbrev pub if_writable : {A : Type 0} → Store → Answer A → Answer A
if_writable s a = elim (ensure_writable s) [ failure e ↦ (failure e, s.disk) | success _ ↦ a ]

-- `read_manifest` of an entry.
unfoldable pub read_manifest : String → Disk → Result StoreError Manifest
read_manifest oh d = elim (get oh d.entries) [
  | none ↦ failure (unreadable_manifest oh)
  | some e ↦ elim (manifest_of e.manifest) [
    | none ↦ failure (unreadable_manifest oh)
    | some m ↦ success m
  ]
]

-- A hit writes the time into `.atime`.
abbrev pub touch : ℕ → String → Entry → Disk → Disk
touch now oh e d = record d { entries = insert oh (record e { atime = now }) d.entries }

unfoldable pub load : ℕ → String → String → Disk → Option Entry → Answer (Option Manifest)
load now ik oh d none = (failure (dangling_link ik oh), d)
load now ik oh d (some e) = elim e.manifest [
  | absent ↦ (failure (dangling_link ik oh), d)
  | unreadable ↦ (failure (unreadable_manifest oh), d)
  | readable m ↦ (success (some m), touch now oh e d)
]

unfoldable pub lookup_link : ℕ → String → Disk → Option (Option String) → Answer (Option Manifest)
unfolding load
lookup_link now ik d none = (success none, d)
lookup_link now ik d (some none) = (failure (not_a_link ik), d)
lookup_link now ik d (some (some oh)) = load now ik oh d (get oh d.entries)

unfoldable pub lookup : ℕ → Store → String → Answer (Option Manifest)
unfolding lookup_link
lookup now s ik = lookup_link now ik s.disk (get ik s.disk.inputs)

-- The names of the files that differ.
abbrev pub same_file : ContentEntry → ContentEntry → Bool
same_file a b = a.blake3 == b.blake3 && (a.mode == b.mode && a.size =ℕ b.size)

abbrev pub is_changed : ContentEntry → Option ContentEntry → Bool
is_changed new none = false
is_changed new (some old) = not (same_file old new)

abbrev pub absent_from : Table ContentEntry → String → Bool
absent_from t path = not (contains_key path t)

abbrev pub changed_files : Table ContentEntry → Table ContentEntry → List String
changed_files old [] = []
changed_files old ((path, new) ∷ rest) =
    let more = changed_files old rest in if is_changed new (get path old) then path ∷ more else more

unfoldable pub diff_report : Manifest → Manifest → DiffReport
diff_report old new = record {
  added = sort_by text_le (select (absent_from old.content) (keys new.content));
  removed = sort_by text_le (select (absent_from new.content) (keys old.content));
  changed = sort_by text_le (changed_files old.content new.content);
}

-- What a step of publishing writes under `staging/violations/`.
abbrev pub quarantine : String → ℕ → Disk → Disk
quarantine name now d = record d {
  violations = insert name (record { is_dir = true; mtime = now; size = 0 }) d.violations;
}
