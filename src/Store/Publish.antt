-- ===== src/Store/Publish.antt =====
-- Publishing into a store, its roots, pins and checks: `crates/ppg3-core/src/store.rs`.
-- The lock that a publisher shares keeps only the garbage collection out; two publishers interleave
-- by steps. A `rename` onto a name that is taken is the case of an entry that is there.
use ppg.Common.{
  ℕ, Bool, true, false, Option, none, some, List, [], ◌∷◌, ◌++◌, String, ◌==◌, if◌then◌else◌, elem,
  Result, success, failure,
}
use ppg.Table.{Table, get, insert, contains_key, remove}
use ppg.Job.{Json}
use ppg.Scheduler.{ContentEntry}
use ppg.Files.{hash_content, lock_files}
use ppg.Disk.{readable, Disk, Entry, Manifest, BuiltInfo}
use ppg.Store.{
  Store, Staging, StoreError, not_a_link, differing_content, determinism_violation, no_such_entry,
  PublishOutcome, published, dedup_hit, Answer, ◌>>=◌, if_writable, read_manifest, diff_report,
  quarantine, same_file,
}

abbrev pub manifest_version : ℕ
manifest_version = 1

-- Step 6. A name that is taken by anything but a link cannot be read as one.
unfoldable pub compare_link :
    ℕ → String → String → PublishOutcome → String → Disk → Answer PublishOutcome
unfolding read_manifest diff_report
compare_link now ik oh tentative existing d =
    if existing == oh then (success tentative, d) else elim (read_manifest existing d) [
      | failure e ↦ (failure e, d)
      | success old ↦ elim (read_manifest oh d) [
        | failure e ↦ (failure e, d)
        | success new ↦
            (failure (determinism_violation ik (diff_report old new)), quarantine ik now d)
      ]
    ]

unfoldable pub resolve_link :
    ℕ → String → String → PublishOutcome → Disk → Option (Option String) → Answer PublishOutcome
unfolding compare_link
resolve_link now ik oh tentative d none =
    (success tentative, record d { inputs = insert ik (some oh) d.inputs })
resolve_link now ik oh tentative d (some none) = (failure (not_a_link ik), d)
resolve_link now ik oh tentative d (some (some existing)) =
    compare_link now ik oh tentative existing d

unfoldable pub resolve_input_symlink :
    ℕ → String → String → PublishOutcome → Disk → Answer PublishOutcome
unfolding resolve_link
resolve_input_symlink now ik oh tentative d = resolve_link now ik oh tentative d (get ik d.inputs)

module _ (blake3_hex : String → String) (content_bytes : Table ContentEntry → String) where
  unfoldable pub output_hash : Table ContentEntry → String
  output_hash content = blake3_hex (content_bytes content)

  -- Step 2.
  unfoldable pub build_manifest :
      String → Table ContentEntry → Json → BuiltInfo → Option String → Manifest
  unfolding output_hash
  build_manifest ik content key_document built job_view_name = record {
    ppg3_manifest_version = manifest_version;
    input_key = ik;
    key_document = key_document;
    content = content;
    output_hash = output_hash content;
    built = built;
    job_view_name = job_view_name;
  }

  -- Step 5: the staging directory becomes the entry, its files no longer writable, or is compared with the
  -- one that is there. No publisher dies between its steps, so that the files of an entry that is there
  -- are not writable either, and the second `chmod` is left out.
  unfoldable pub promote : ℕ → Staging → Manifest → String → Disk → Disk
  unfolding lock_files
  promote now staging m oh d = record d {
    entries =
        insert oh
          (record {
            manifest = readable m;
            files = lock_files staging.files;
            size = staging.size;
            evict_ok = m.built.retain_evict;
            atime = now;
          })
          d.entries;
    staging = remove staging.name d.staging;
  }

  abbrev pub discard : Staging → Disk → Disk
  discard staging d = record d { staging = remove staging.name d.staging }

  unfoldable pub resolve_entry : ℕ → Staging → Manifest → String → Disk → Answer PublishOutcome
  unfolding promote read_manifest
  resolve_entry now staging m oh d =
      if contains_key oh d.entries
      then elim (read_manifest oh d) [
        | failure e ↦ (failure e, d)
        | success existing ↦
            if content_bytes existing.content == content_bytes m.content
            then (success (dedup_hit oh), discard staging d)
            else (failure (differing_content oh), discard staging d)
      ]
      else (success (published oh), promote now staging m oh d)

  unfoldable pub publish :
      ℕ → Store → Staging → String → Json → BuiltInfo → Option String → Answer PublishOutcome
  unfolding build_manifest resolve_entry resolve_input_symlink hash_content
  publish now s staging ik key_document built job_view_name =
      let m = build_manifest ik (hash_content staging.files) key_document built job_view_name in
      if_writable s (
        resolve_entry now staging m m.output_hash s.disk >>= λ tentative d.
        resolve_input_symlink now ik m.output_hash tentative d)

unfoldable pub alias_input : ℕ → Store → String → String → Answer PublishOutcome
unfolding resolve_input_symlink
alias_input now s ik oh = if_writable s (
    if contains_key oh s.disk.entries
    then resolve_input_symlink now ik oh (dedup_hit oh) s.disk
    else (failure (no_such_entry oh), s.disk))

-- The roots of a generation: a link for each entry, one that is there left alone.
abbrev pub add_link : String → List String → List String
add_link oh ohs = if elem oh ohs then ohs else ohs ++ oh ∷ []

abbrev pub add_links : List String → List String → List String
add_links [] ohs = ohs
add_links (oh ∷ more) ohs = add_links more (add_link oh ohs)

abbrev pub generations_of : Option (Table (List String)) → Table (List String)
generations_of none = []
generations_of (some gs) = gs

abbrev pub ohs_of : Option (List String) → List String
ohs_of none = []
ohs_of (some ohs) = ohs

unfoldable pub with_root : String → String → List String → Disk → Disk
with_root project_id generation ohs d =
    let gs = generations_of (get project_id d.roots) in
    record d {
      roots =
          insert project_id (insert generation (add_links ohs (ohs_of (get generation gs))) gs)
            d.roots;
    }

unfoldable pub add_root : Store → String → String → List String → Answer (Unit {0})
unfolding with_root
add_root s project_id generation ohs =
    if_writable s (success tt, with_root project_id generation ohs s.disk)

unfoldable pub remove_root : Store → String → String → Answer (Unit {0})
remove_root s project_id generation = if_writable s (
  success tt,
  record (s.disk) {
    roots = elim (get project_id s.disk.roots) [
      | none ↦ s.disk.roots
      | some gs ↦ insert project_id (remove generation gs) s.disk.roots
    ];
  },
)

unfoldable pub pin : Store → String → String → Answer (Unit {0})
pin s name oh = if_writable s (success tt, record (s.disk) { pins = insert name oh s.disk.pins })

-- What a check of an entry finds wrong.
pub data Mismatch : Type 0 where
  missing_file changed_file unexpected_file : String → Mismatch
  wrong_output_hash : String → Mismatch

abbrev pub check_file : String → ContentEntry → Option ContentEntry → List Mismatch
check_file path expected none = missing_file path ∷ []
check_file path expected (some a) = if same_file a expected then [] else changed_file path ∷ []

unfoldable pub check_files : Table ContentEntry → Table ContentEntry → List Mismatch
check_files actual [] = []
check_files actual ((path, expected) ∷ rest) =
    check_file path expected (get path actual) ++ check_files actual rest

unfoldable pub unexpected_files : Table ContentEntry → Table ContentEntry → List Mismatch
unexpected_files content [] = []
unexpected_files content ((path, a) ∷ rest) =
    let more = unexpected_files content rest in
    if contains_key path content then more else unexpected_file path ∷ more

abbrev pub check_hash : String → String → List Mismatch
check_hash oh hash = if hash == oh then [] else wrong_output_hash hash ∷ []

unfoldable pub mismatches_of : String → Entry → Manifest → List Mismatch
unfolding check_files unexpected_files hash_content
mismatches_of oh e m =
    let actual = hash_content e.files in
    check_files actual m.content
    ++ (unexpected_files m.content actual ++ check_hash oh m.output_hash)

pub record VerifyReport : Type 0 where
  pub oh : String
  pub path : String
  pub sandboxed : Bool
  pub ok : Bool
  pub mismatches : List Mismatch

abbrev pub no_mismatch : List Mismatch → Bool
no_mismatch [] = true
no_mismatch (x ∷ xs) = false

-- The check of the entry that stands at the path.
unfoldable pub verify_entry : String → String → Disk → Result StoreError VerifyReport
unfolding read_manifest mismatches_of
verify_entry path oh d = elim (get oh d.entries) [
  | none ↦ failure (no_such_entry oh)
  | some e ↦ elim (read_manifest oh d) [
    | failure x ↦ failure x
    | success m ↦ success (record {
      oh = oh;
      path = path;
      sandboxed = m.built.sandboxed;
      ok = no_mismatch (mismatches_of oh e m);
      mismatches = mismatches_of oh e m;
    })
  ]
]
