-- ===== src/Store/RoundTrip.antt =====
-- What is published into a store (`crates/ppg3-core/src/store.rs`) is found again, and what is built twice
-- with different outputs is refused.
use ppg.Common.{
  ℕ, ◌≡◌, refl, ap, ◌∙◌, Option, none, some, String, eq_iff, eq_refl, arith, success, failure,
  Bool-cases, Option-cases, inl, inr, String-cases,
}
use ppg.Table.{Table, get, contains_key, get-insert}
use ppg.Job.{Json}
use ppg.Scheduler.{ContentEntry}
use ppg.Files.{hash_content, lock_files}
use ppg.Disk.{
  absent, unreadable, readable, manifest_of, ManifestFile, Disk, Entry, Manifest, BuiltInfo,
}
use ppg.Store.{
  Store, Staging, PublishOutcome, Answer, ◌>>=◌, ensure_writable, read_manifest, lookup,
  lookup_link, load,
}
use ppg.Store.Publish.{
  compare_link, resolve_link, resolve_input_symlink, build_manifest, promote, resolve_entry,
  publish,
}
use ppg.Store.Grows.{resolve_input_symlink-Grows}

readable-manifest_of : (f : ManifestFile) (m : Manifest) → manifest_of f ≡ some m → f ≡ readable m
readable-manifest_of absent m e = ground (arith, e)
readable-manifest_of unreadable m e = ground (arith, e)
readable-manifest_of (readable n) m e = ground (arith, e)

-- A link to an entry whose manifest has content that is written as the given bytes.
abbrev pub Held : (Table ContentEntry → String) → String → String → Disk → Type 0
Held content_bytes ik bytes d =
    (oh : String) × (e : Entry) × (m : Manifest) × (get ik d.inputs ≡ some (some oh))
    × (get oh d.entries ≡ some e)
    × (e.manifest ≡ readable m)
    × (content_bytes m.content ≡ bytes)

lookup-Held :
    (content_bytes : Table ContentEntry → String) (now : ℕ) (s : Store) (ik bytes : String)
    → Held content_bytes ik bytes s.disk
    → (m : Manifest) × ((lookup now s ik).0 ≡ success (some m)) × (content_bytes m.content ≡ bytes)
unfolding lookup lookup_link load
lookup-Held content_bytes now s ik bytes (oh, e, m, link, entry, manifest, same) =
    (m, rw (link, lookup_link) (rw (entry, load) (rw (manifest, load) refl)), same)

-- A link step that succeeds leaves the link.
linked_after :
    (now : ℕ) (ik oh : String) (t o : PublishOutcome) (d : Disk)
    → (resolve_input_symlink now ik oh t d).0 ≡ success o
    → get ik (resolve_input_symlink now ik oh t d).1.inputs ≡ some (some oh)
unfolding resolve_input_symlink resolve_link compare_link
linked_after now ik oh t o d h = elim (Option-cases (get ik d.inputs)) [
  | inl e ↦ ground (arith, get-insert ik ik (some oh) d.inputs, eq_refl ik)
  | inr (none, e) ↦ absurd (ground arith)
  | inr (some x, e) ↦ elim (String-cases x oh) [
    | inl same ↦ ground (arith, same.1, same.0)
    | inr other ↦ absurd (ground (arith, other.1))
  ]
]

module _ (blake3_hex : String → String) (content_bytes : Table ContentEntry → String) where
  -- An entry step that succeeds leaves an entry with the content.
  entry_after :
      (now : ℕ) (staging : Staging) (m : Manifest) (oh : String) (d : Disk) (o : PublishOutcome)
      → (resolve_entry blake3_hex content_bytes now staging m oh d).0 ≡ success o
      → (e : Entry) × (m' : Manifest) × (get oh
            (resolve_entry blake3_hex content_bytes now staging m oh d).1.entries
          ≡ some e)
        × (e.manifest ≡ readable m')
        × (content_bytes m'.content ≡ content_bytes m.content)
  unfolding resolve_entry promote read_manifest contains_key
  entry_after now staging m oh d o h = elim (Option-cases (get oh d.entries)) [
    | inl e ↦ (
      record {
        manifest = readable m;
        files = lock_files staging.files;
        size = staging.size;
        evict_ok = m.built.retain_evict;
        atime = now;
      },
      m,
      ground (
        arith,
        get-insert oh oh
            (record {
              manifest = readable m;
              files = lock_files staging.files;
              size = staging.size;
              evict_ok = m.built.retain_evict;
              atime = now;
            })
            d.entries,
        eq_refl oh,
      ),
      refl,
      refl,
    )
    | inr (e, q) ↦ elim (Option-cases (manifest_of e.manifest)) [
      | inl none_there ↦ absurd (ground arith)
      | inr (m', r) ↦ (
        e,
        m',
        ground arith,
        readable-manifest_of e.manifest m' r,
        ground (arith, eq_iff (content_bytes m'.content) (content_bytes m.content)),
      )
    ]
  ]

  bind_parts :
      (r : Answer PublishOutcome) (k : PublishOutcome → Disk → Answer PublishOutcome)
      (o : PublishOutcome)
      → (r >>= k).0 ≡ success o
      → (a : PublishOutcome) × (r.0 ≡ success a)
        × ((k a r.1).0 ≡ success o)
        × ((r >>= k).1 ≡ (k a r.1).1)
  bind_parts (success a, d) k o h = (a, refl, h, refl)
  bind_parts (failure e, d) k o h = ground arith

  -- Publishing that succeeds is the two steps, both with success.
  pub publish_parts :
      (now : ℕ) (s : Store) (staging : Staging) (ik : String) (key_document : Json)
      (built : BuiltInfo) (view : Option String) (o : PublishOutcome)
      → (publish blake3_hex content_bytes now s staging ik key_document built view).0 ≡ success o
      → let m =
          build_manifest blake3_hex content_bytes ik
            (hash_content staging.files)
            key_document
            built
            view in
        let step = resolve_entry blake3_hex content_bytes now staging m m.output_hash s.disk in
        (a : PublishOutcome) × (step.0 ≡ success a)
        × ((resolve_input_symlink now ik m.output_hash a step.1).0 ≡ success o)
        × ((publish blake3_hex content_bytes now s staging ik key_document built view).1
            ≡ (resolve_input_symlink now ik m.output_hash a step.1).1)
  unfolding publish ensure_writable
  publish_parts now s staging ik key_document built view o h = elim (Bool-cases s.readonly) [
    | inl e ↦ absurd (ground arith)
    | inr e ↦
        let m =
          build_manifest blake3_hex content_bytes ik (hash_content staging.files) key_document built
            view in
        let step = resolve_entry blake3_hex content_bytes now staging m m.output_hash s.disk in
        rw e (
          bind_parts step (λ a d. resolve_input_symlink now ik m.output_hash a d) o
            (rw (rw e at h)))
  ]

  publish-Held :
      (now : ℕ) (s : Store) (staging : Staging) (ik : String) (key_document : Json)
      (built : BuiltInfo) (view : Option String) (o : PublishOutcome)
      → (publish blake3_hex content_bytes now s staging ik key_document built view).0 ≡ success o
      → Held content_bytes ik
          (content_bytes (hash_content staging.files))
          (publish blake3_hex content_bytes now s staging ik key_document built view).1
  publish-Held now s staging ik key_document built view o h =
      let m =
        build_manifest blake3_hex content_bytes ik (hash_content staging.files) key_document built
          view in
      let step = resolve_entry blake3_hex content_bytes now staging m m.output_hash s.disk in
      let (a, one, two, disk) = publish_parts now s staging ik key_document built view o h in
      let (e, m', there, manifest, same) = entry_after now staging m m.output_hash s.disk a one in
      let grows = resolve_input_symlink-Grows now ik m.output_hash a step.1 in
      (
        m.output_hash,
        e,
        m',
        ap (λ (d : Disk). get ik d.inputs) disk ∙ linked_after now ik m.output_hash a o step.1 two,
        ap (λ (d : Disk). get m.output_hash d.entries) disk ∙ grows.0 m.output_hash e there,
        manifest,
        same ∙ (unfold build_manifest in refl),
      )

  -- Where publishing succeeds, the next lookup of the same key is a hit, and its content is written as
  -- the same canonical bytes as that of the staging directory.
  pub lookup-publish :
      (now later : ℕ) (s : Store) (staging : Staging) (ik : String) (key_document : Json)
      (built : BuiltInfo) (view : Option String) (o : PublishOutcome)
      → (publish blake3_hex content_bytes now s staging ik key_document built view).0 ≡ success o
      → (m : Manifest) × ((lookup later
            (record s {
              disk = (publish blake3_hex content_bytes now s staging ik key_document built view).1;
            })
            ik).0
          ≡ success (some m))
        × (content_bytes m.content ≡ content_bytes (hash_content staging.files))
  lookup-publish now later s staging ik key_document built view o h =
      lookup-Held content_bytes later
        (record s {
          disk = (publish blake3_hex content_bytes now s staging ik key_document built view).1;
        })
        ik (content_bytes (hash_content staging.files))
        (publish-Held now s staging ik key_document built view o h)
