-- ===== src/Store/Verified.antt =====
-- A fresh entry of a store (`crates/ppg3-core/src/store.rs`) passes its check until its files change.
use ppg.Common.{
  ℕ, ◌≡◌, ◌↔◌, refl, ap, sym, ◌∙◌, true, false, Option, none, some, String, eq_refl, arith, success,
  Bool-cases, Option-cases, String-cases, inl, inr,
}
use ppg.Table.{Table, get, insert, contains_key, get-insert, DistinctKeys}
use ppg.Job.{Json}
use ppg.Scheduler.{ContentEntry}
use ppg.Files.{FileNode, hash_content, lock_files, hash_content-lock_files, lock_files-DistinctKeys}
use ppg.Disk.{readable, Disk, Entry, Manifest, BuiltInfo}
use ppg.Store.{Store, Staging, PublishOutcome, published, read_manifest}
use ppg.Store.Publish.{
  compare_link, resolve_link, resolve_input_symlink, build_manifest, promote, resolve_entry,
  publish, VerifyReport, verify_entry,
}
use ppg.Store.Grows.{resolve_input_symlink-Grows}
use ppg.Store.RoundTrip.{publish_parts}
use ppg.Store.Verify.{Agrees, verify_entry_verdict, hash_content-DistinctKeys}
use ppg.Store.Violation.{placed_disk}

-- The link step does not change the outcome.
outcome_same :
    (now : ℕ) (ik oh : String) (t o : PublishOutcome) (d : Disk)
    → (resolve_input_symlink now ik oh t d).0 ≡ success o
    → t ≡ o
unfolding resolve_input_symlink resolve_link compare_link read_manifest
outcome_same now ik oh t o d h = elim (Option-cases (get ik d.inputs)) [
  | inl e ↦ ground (arith, e)
  | inr (none, e) ↦ absurd (ground (arith, e))
  | inr (some x, e) ↦ elim (String-cases x oh) [
    | inl same ↦ ground (arith, e, same.1)
    | inr other ↦ absurd (ground (arith, e, other.1))
  ]
]

-- The entry with other files.
abbrev pub with_files : String → Table FileNode → Disk → Disk
with_files oh files d = elim (get oh d.entries) [
  | none ↦ d
  | some e ↦ record d { entries = insert oh (record e { files = files }) d.entries }
]

with_files-get :
    (oh : String) (files : Table FileNode) (d : Disk) (e : Entry)
    → get oh d.entries ≡ some e
    → get oh (with_files oh files d).entries ≡ some (record e { files = files })
with_files-get oh files d e h =
    rw (h, with_files)
      (ground (arith, get-insert oh oh (record e { files = files }) d.entries, eq_refl oh))

module _ (blake3_hex : String → String) (content_bytes : Table ContentEntry → String) where
  -- The answer `published` is only given for a name that was free.
  published_fresh :
      (now : ℕ) (staging : Staging) (m : Manifest) (oh x : String) (d : Disk)
      → (resolve_entry blake3_hex content_bytes now staging m oh d).0 ≡ success (published x)
      → contains_key oh d.entries ≡ false
  unfolding resolve_entry read_manifest
  published_fresh now staging m oh x d h = elim (Bool-cases (contains_key oh d.entries)) [
    | inl e ↦ absurd (ground (arith, e, h))
    | inr e ↦ e
  ]

  module _ (now : ℕ) (s : Store) (staging : Staging) (ik : String) (key_document : Json)
      (built : BuiltInfo) (view : Option String) where
    abbrev m : Manifest
    m =
        build_manifest blake3_hex content_bytes ik (hash_content staging.files) key_document built
          view

    abbrev after : Disk
    after = (publish blake3_hex content_bytes now s staging ik key_document built view).1

    abbrev placed_entry : Entry
    placed_entry = record {
      manifest = readable m;
      files = lock_files staging.files;
      size = staging.size;
      evict_ok = m.built.retain_evict;
      atime = now;
    }

    published_entry :
        (x : String)
        → (publish blake3_hex content_bytes now s staging ik key_document built view).0
          ≡ success (published x)
        → get m.output_hash after.entries ≡ some placed_entry
    unfolding promote
    published_entry x h =
        let oh = m.output_hash in
        let step = resolve_entry blake3_hex content_bytes now staging m oh s.disk in
        let (a, one, two, disk) =
          publish_parts blake3_hex content_bytes now s staging ik key_document built view
            (published x) h in
        let fresh =
          published_fresh now staging m oh x s.disk
            (one ∙ ap success (outcome_same now ik oh a (published x) step.1 two)) in
        let placed : get oh step.1.entries ≡ some placed_entry =
          ap (λ (d : Disk). get oh d.entries)
            (placed_disk blake3_hex content_bytes now staging m oh s.disk fresh)
          ∙ ground (arith, get-insert oh oh placed_entry s.disk.entries, eq_refl oh) in
        ap (λ (d : Disk). get oh d.entries) disk
        ∙ (resolve_input_symlink-Grows now ik oh a step.1).0 oh placed_entry placed

    -- An entry that publishing has placed passes its check. When its files are replaced by any
    -- others, the check passes exactly where hashing these finds what hashing the staging directory
    -- found. The paths of the files are distinct in both.
    pub verify_entry-publish :
        (path x : String) (files : Table FileNode)
        → DistinctKeys staging.files
        → DistinctKeys files
        → (publish blake3_hex content_bytes now s staging ik key_document built view).0
          ≡ success (published x)
        → ((r : VerifyReport) × ((verify_entry path m.output_hash after ≡ success r)
              × (r.ok ≡ true)))
          × ((r : VerifyReport) × ((verify_entry path m.output_hash
                    (with_files m.output_hash files after)
                  ≡ success r)
                × ((r.ok ≡ true) ↔ Agrees (hash_content files) (hash_content staging.files))))
    verify_entry-publish path x files distinct distinct' h =
        let oh = m.output_hash in
        let entry = published_entry x h in
        let content : DistinctKeys m.content =
          unfold build_manifest in hash_content-DistinctKeys staging.files distinct in
        let same : m.content ≡ hash_content staging.files = unfold build_manifest in refl in
        let changed : Entry = record placed_entry { files = files } in
        let changed_there : get oh (with_files oh files after).entries ≡ some changed =
          with_files-get oh files after placed_entry entry in
        let (r, (e, (_, (_, (_, (_, verdict)))))) =
          verify_entry_verdict path oh after placed_entry m entry refl content
            (lock_files-DistinctKeys staging.files distinct) in
        let (r', (e', (_, (_, (_, (_, verdict')))))) =
          verify_entry_verdict path oh (with_files oh files after) changed m changed_there refl
            content distinct' in
        (
          (
            r,
            (
              e,
              verdict.1 (λ k. ap (get k) (hash_content-lock_files staging.files ∙ sym same), refl),
            ),
          ),
          (
            r',
            (
              e',
              (
                λ ok k. (verdict'.0 ok).0 k ∙ ap (get k) same,
                λ agree. verdict'.1 (λ k. agree k ∙ ap (get k) (sym same), refl),
              ),
            ),
          ),
        )
