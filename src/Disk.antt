-- ===== src/Disk.antt =====
-- What a store holds on disk: the directories of `crates/ppg3-core/src/store.rs`, as maps.
-- A symbolic link `../entries/<oh>` is the name `<oh>`. A time is in milliseconds, and is when the
-- file was last changed. Calls of the file system do not fail: what the code does when they
-- report an error is left out.
use ppg.Common.{ℕ, ◌+◌, ◌-◌, Bool, false, Option, none, some, List, [], ◌∷◌, ◌++◌, String, ltb}
use ppg.Table.{Table, contains_key}
use ppg.Job.{Json}
use ppg.Scheduler.{ContentEntry}
use ppg.Files.{FileNode}

pub record BuiltInfo : Type 0 where
  pub start_ms : ℕ
  pub end_ms : ℕ
  pub host : String
  pub sandboxed : Bool
  pub ppg3_version : String
  pub retain_evict : Bool

pub record Manifest : Type 0 where
  pub ppg3_manifest_version : ℕ
  pub input_key : String
  pub key_document : Json
  pub content : Table ContentEntry
  pub output_hash : String
  pub built : BuiltInfo
  pub job_view_name : Option String

-- A manifest's file: it is not there, cannot be read as one, or can.
pub data ManifestFile : Type 0 where
  absent unreadable : ManifestFile
  readable : Manifest → ManifestFile

abbrev pub manifest_of : ManifestFile → Option Manifest
manifest_of absent = none
manifest_of unreadable = none
manifest_of (readable m) = some m

-- `entries/<oh>`: its manifest's file, its files, their bytes, whether it has the marker of an evictable entry, and its `.atime`.
pub record Entry : Type 0 where
  pub manifest : ManifestFile
  pub files : Table FileNode
  pub size : ℕ
  pub evict_ok : Bool
  pub atime : ℕ

-- A directory or a file of `staging/` or of `staging/violations/`.
pub record Debris : Type 0 where
  pub is_dir : Bool
  pub mtime : ℕ
  pub size : ℕ

-- A file of `leases/`: what it protects, if it can be read.
pub record LeaseNode : Type 0 where
  pub mtime : ℕ
  pub protects : Option (List String)

pub record LogLeaf : Type 0 where
  pub mtime : ℕ
  pub size : ℕ

-- `logs/<ik>`, with a directory for each build.
pub record LogDir : Type 0 where
  pub is_dir : Bool
  pub mtime : ℕ
  pub builds : Table LogLeaf

pub record Disk : Type 0 where
  pub entries : Table Entry
  -- `none` is anything but a symbolic link.
  pub inputs : Table (Option String)
  -- The entries of each generation of each project, the generation's number as its text.
  pub roots : Table (Table (List String))
  pub pins : Table String
  pub leases : Table LeaseNode
  pub intents : Table ℕ
  pub staging : Table Debris
  pub violations : Table Debris
  pub logs : Table LogDir

abbrev pub empty_disk : Disk
empty_disk = record {
  entries = [];
  inputs = [];
  roots = [];
  pins = [];
  leases = [];
  intents = [];
  staging = [];
  violations = [];
  logs = [];
}

-- `symlink_metadata(..).is_symlink()` and `exists()` of `inputs/<ik>`.
abbrev pub link_target : Option (Option String) → Option String
link_target none = none
link_target (some target) = target

abbrev pub resolves : Option String → Table Entry → Bool
resolves none entries = false
resolves (some oh) entries = contains_key oh entries

-- `collect_symlinked_ohs` of `roots/` and of `pins/`.
abbrev pub generation_ohs : Table (List String) → List String
generation_ohs [] = []
generation_ohs ((generation, ohs) ∷ rest) = ohs ++ generation_ohs rest

abbrev pub root_ohs : Table (Table (List String)) → List String
root_ohs [] = []
root_ohs ((project, generations) ∷ rest) = generation_ohs generations ++ root_ohs rest

abbrev pub pin_ohs : Table String → List String
pin_ohs [] = []
pin_ohs ((name, oh) ∷ rest) = oh ∷ pin_ohs rest

-- `dir_size`
abbrev pub entry_size : Option Entry → ℕ
entry_size none = 0
entry_size (some e) = e.size

abbrev pub entries_size : Table Entry → ℕ
entries_size [] = 0
entries_size ((oh, e) ∷ rest) = e.size + entries_size rest

abbrev pub builds_size : Table LogLeaf → ℕ
builds_size [] = 0
builds_size ((name, leaf) ∷ rest) = leaf.size + builds_size rest

abbrev pub logs_size : Table LogDir → ℕ
logs_size [] = 0
logs_size ((ik, d) ∷ rest) = builds_size d.builds + logs_size rest

abbrev pub debris_size : Table Debris → ℕ
debris_size [] = 0
debris_size ((name, d) ∷ rest) = d.size + debris_size rest

-- `idle_past`, and `is_stale`, at a reading of the clock.
abbrev pub idle_past : ℕ → ℕ → ℕ → Bool
idle_past now mtime duration = ltb duration (now - mtime)
