-- ===== src/Store/Violation.antt =====
-- When publishing into a store (`crates/ppg3-core/src/store.rs`) reports that a key has two outputs, and what
-- its report says.
use ppg.Common.{
  ℕ, ◌≡◌, ◌≢◌, ◌↔◌, ◌⊎◌, refl, ap, sym, subst, ◌∙◌, Bool, true, false, not, Option, none, some, [],
  ◌∷◌, String, eq_iff, eq_refl, arith, Result, success, failure, elem, elem-sort_by, elem-select,
  select, sort_by, Option-cases, Bool-cases, String-cases, inl, inr,
}
use ppg.Table.{
  Table, get, contains_key, get-insert, keys, elem-keys, DistinctKeys, get_absent, IsAbsent,
}
use ppg.Gc.Entries.{text_le}
use ppg.Job.{Json}
use ppg.Scheduler.{ContentEntry}
use ppg.Files.{hash_content, lock_files}
use ppg.Disk.{readable, Disk, Manifest, BuiltInfo}
use ppg.Store.{
  Store, Staging, DiffReport, StoreError, determinism_violation, PublishOutcome, Answer, ◌>>=◌,
  ensure_writable, read_manifest, diff_report, same_file, absent_from, is_changed, changed_files,
}
use ppg.Store.Publish.{
  compare_link, resolve_link, resolve_input_symlink, build_manifest, promote, resolve_entry,
  publish,
}
use ppg.Store.Grows.{resolve_entry-disk}
use ppg.Store.Verify.{same_file-≡, same_file_refl, hash_content-DistinctKeys}

-- The report lists the paths that only the new content has, those that only the old one has, and those that
-- both have with different files.
abbrev pub IsDifference : DiffReport → Table ContentEntry → Table ContentEntry → Type 0
IsDifference r old new =
    (path : String)
    → ((elem path r.added ≡ true)
        ↔ ((get path old ≡ none) × ((b : ContentEntry) × (get path new ≡ some b))))
      × (((elem path r.removed ≡ true)
            ↔ ((get path new ≡ none) × ((a : ContentEntry) × (get path old ≡ some a))))
          × ((elem path r.changed ≡ true) ↔ (
              (a : ContentEntry) × ((b : ContentEntry) × ((get path old ≡ some a)
                  × ((get path new ≡ some b) × (a ≢ b)))))))

-- The paths of one map that are not in another.
only_in :
    (s t : Table ContentEntry) (path : String)
    → (elem path (sort_by text_le (select (absent_from s) (keys t))) ≡ true)
      ↔ ((get path s ≡ none) × ((b : ContentEntry) × (get path t ≡ some b)))
unfolding contains_key
only_in s t path =
    let listed =
      elem-sort_by text_le path (select (absent_from s) (keys t))
      ∙ elem-select (absent_from s) path (keys t) in
    let there = elem-keys path t in
    (
      λ h. elim (Option-cases (get path t)) [
        | inl e ↦ ground (arith, h, listed, there, e)
        | inr (b, e) ↦ elim (Option-cases (get path s)) [
          | inl e' ↦ (e', (b, e))
          | inr (a, e') ↦ ground (arith, h, listed, there, e')
        ]
      ],
      λ h. ground (arith, listed, there, h.0, h.1.1),
    )

abbrev differs : Option ContentEntry → Option ContentEntry → Bool
differs (some a) (some b) = not (same_file a b)
differs _ _ = false

differs-none : (o : Option ContentEntry) → differs o none ≡ false
differs-none none = refl
differs-none (some a) = refl

differs-some : (o : Option ContentEntry) (b : ContentEntry) → is_changed b o ≡ differs o (some b)
differs-some none b = refl
differs-some (some a) b = refl

elem-changed_files :
    (path : String) (old new : Table ContentEntry)
    → DistinctKeys new
    → elem path (changed_files old new) ≡ differs (get path old) (get path new)
unfolding elem get
elem-changed_files path old [] d = sym (differs-none (get path old))
elem-changed_files path old ((j, y) ∷ rest) d = elim (String-cases j path) [
  | inl same ↦
      let absent = get_absent path rest (subst (λ x. IsAbsent x rest) same.0 d.0) in
      ground (
        arith,
        same.1,
        ap (λ x. get x old) same.0,
        differs-some (get j old) y,
        elem-changed_files path old rest d.1,
        absent,
        differs-none (get path old),
      )
  | inr other ↦ ground (arith, other.1, elem-changed_files path old rest d.1)
]

differs_lem :
    (o p : Option ContentEntry)
    → (differs o p ≡ true)
      ↔ ((a : ContentEntry) × ((b : ContentEntry) × ((o ≡ some a) × ((p ≡ some b) × (a ≢ b)))))
differs_lem none p = (λ h. ground (arith, h), λ (a, (b, (e, (e', n)))). ground (arith, e))
differs_lem (some a) none = (λ h. ground (arith, h), λ (a', (b, (e, (e', n)))). ground (arith, e'))
differs_lem (some a) (some b) = (
  λ h. (a, (b, (refl, (refl, λ e. ground (arith, h, same_file_refl a, ap (same_file a) e))))),
  λ (a', (b', (e, (e', n)))). elim (Bool-cases (same_file a b)) [
    | inr f ↦ rw f refl
    | inl t ↦
        let first : a ≡ a' = ground (arith, e) in
        let second : b ≡ b' = ground (arith, e') in
        absurd (n (sym first ∙ (same_file-≡ a b t ∙ second)))
  ],
)

diff_report-IsDifference :
    (old new : Manifest)
    → DistinctKeys new.content
    → IsDifference (diff_report old new) old.content new.content
unfolding diff_report
diff_report-IsDifference old new d path =
    let changed =
      elem-sort_by text_le path (changed_files old.content new.content)
      ∙ elem-changed_files path old.content new.content d in
    let verdict = differs_lem (get path old.content) (get path new.content) in
    (
      only_in old.content new.content path,
      (
        only_in new.content old.content path,
        (λ h. verdict.0 (sym changed ∙ h), λ h. changed ∙ verdict.1 h),
      ),
    )

-- The link step: where it reports a violation, its report is the difference of the two manifests.
read_cases :
    (x : Result StoreError Manifest)
    → ((e : StoreError) × (x ≡ failure e)) ⊎ ((m : Manifest) × (x ≡ success m))
read_cases (success m) = inr (m, refl)
read_cases (failure e) = inl (e, refl)

read_manifest-violation :
    (oh k : String) (report : DiffReport) (d : Disk)
    → read_manifest oh d ≢ failure (determinism_violation k report)
unfolding read_manifest
read_manifest-violation oh k report d = λ h. ground (arith, h)

link_violation :
    (now : ℕ) (ik oh k : String) (t : PublishOutcome) (report : DiffReport) (d : Disk)
    → (resolve_input_symlink now ik oh t d).0 ≡ failure (determinism_violation k report)
    → (old : String) × (old_manifest : Manifest) × (new_manifest : Manifest) × (k ≡ ik)
      × (get ik d.inputs ≡ some (some old))
      × (old ≢ oh)
      × (read_manifest old d ≡ success old_manifest)
      × (read_manifest oh d ≡ success new_manifest)
      × (report ≡ diff_report old_manifest new_manifest)
      × ((resolve_input_symlink now ik oh t d).1.entries ≡ d.entries)
unfolding resolve_input_symlink resolve_link compare_link
link_violation now ik oh k t report d h = elim (Option-cases (get ik d.inputs)) [
  | inl e ↦ absurd (ground (arith, e))
  | inr (none, e) ↦ absurd (ground (arith, e))
  | inr (some old, e) ↦ elim (String-cases old oh) [
    | inl same ↦ absurd (ground (arith, e, same.1))
    | inr other ↦ elim (read_cases (read_manifest old d)) [
      | inl (x, r) ↦ absurd (ground (arith, e, other.1, r, read_manifest-violation old k report d))
      | inr (a, r) ↦ elim (read_cases (read_manifest oh d)) [
        | inl (x, q) ↦
            absurd (ground (arith, e, other.1, r, q, read_manifest-violation oh k report d))
        | inr (b, q) ↦ (
          old,
          a,
          b,
          ground (arith, e, other.1, r, q),
          e,
          other.0,
          r,
          q,
          ground (arith, e, other.1, r, q),
          ground (arith, e, other.1, r, q),
        )
      ]
    ]
  ]
]

bind_failure :
    (r : Answer PublishOutcome) (k : PublishOutcome → Disk → Answer PublishOutcome) (x : StoreError)
    → (r >>= k).0 ≡ failure x
    → (r.0 ≡ failure x)
      ⊎ ((a : PublishOutcome) × ((r.0 ≡ success a)
            × (((k a r.1).0 ≡ failure x) × ((r >>= k).1 ≡ (k a r.1).1))))
bind_failure (success a, d) k x h = inr (a, (refl, (h, refl)))
bind_failure (failure e, d) k x h = inl h

-- Every content map that can be read has distinct paths, as every `BTreeMap` has.
abbrev pub DistinctPaths : Disk → Type 0
DistinctPaths d =
    (oh : String) (m : Manifest) → read_manifest oh d ≡ success m → DistinctKeys m.content

read_manifest-entries :
    (oh : String) (d d' : Disk) → d'.entries ≡ d.entries → read_manifest oh d' ≡ read_manifest oh d
unfolding read_manifest
read_manifest-entries oh d d' same = rw same refl

pub success-≡ :
    (m n : Manifest) → ◌≡◌ {A = Result StoreError Manifest} (success m) (success n) → m ≡ n
success-≡ m n e =
    ap (λ (r : Result StoreError Manifest). elim r [ success x ↦ x | failure _ ↦ m ]) e

module _ (blake3_hex : String → String) (content_bytes : Table ContentEntry → String) where
  step_violation :
      (now : ℕ) (staging : Staging) (m : Manifest) (oh k : String) (report : DiffReport) (d : Disk)
      → (resolve_entry blake3_hex content_bytes now staging m oh d).0
        ≢ failure (determinism_violation k report)
  unfolding resolve_entry
  step_violation now staging m oh k report d h = elim (Bool-cases (contains_key oh d.entries)) [
    | inr e ↦ ground (arith, e, h)
    | inl e ↦ elim (read_cases (read_manifest oh d)) [
      | inl (x, r) ↦ ground (arith, e, h, r, read_manifest-violation oh k report d)
      | inr (a, r) ↦ ground (arith, e, h, r)
    ]
  ]

  placed_manifest :
      (now : ℕ) (staging : Staging) (m : Manifest) (oh : String) (d : Disk)
      → read_manifest oh (promote blake3_hex content_bytes now staging m oh d) ≡ success m
  unfolding promote read_manifest
  placed_manifest now staging m oh d = ground (
    arith,
    get-insert oh oh
        (record {
          manifest = readable m;
          files = lock_files staging.files;
          size = staging.size;
          evict_ok = m.built.retain_evict;
          atime = now;
        })
        d.entries,
    eq_refl oh,
  )

  pub placed_disk :
      (now : ℕ) (staging : Staging) (m : Manifest) (oh : String) (d : Disk)
      → contains_key oh d.entries ≡ false
      → (resolve_entry blake3_hex content_bytes now staging m oh d).1
        ≡ promote blake3_hex content_bytes now staging m oh d
  unfolding resolve_entry
  placed_disk now staging m oh d e = rw e refl

  -- What the entry step leaves under the new name: the manifest of this build, or one that is written alike.
  step_manifest :
      (now : ℕ) (staging : Staging) (m : Manifest) (oh : String) (d : Disk) (a : PublishOutcome)
      → DistinctPaths d
      → DistinctKeys m.content
      → (resolve_entry blake3_hex content_bytes now staging m oh d).0 ≡ success a
      → (n : Manifest) × ((read_manifest oh
              (resolve_entry blake3_hex content_bytes now staging m oh d).1
            ≡ success n)
          × (DistinctKeys n.content × (content_bytes n.content ≡ content_bytes m.content)))
  unfolding resolve_entry promote
  step_manifest now staging m oh d a paths distinct h =
      elim (Bool-cases (contains_key oh d.entries)) [
        | inr e ↦ (
          m,
          (
            ap (read_manifest oh) (placed_disk now staging m oh d e)
                ∙ placed_manifest now staging m oh d,
            (distinct, refl),
          ),
        )
        | inl e ↦ elim (read_cases (read_manifest oh d)) [
          | inl (x, r) ↦ absurd (ground (arith, e, h, r))
          | inr (n, r) ↦ (
            n,
            (
              elim ((resolve_entry-disk blake3_hex content_bytes now staging m oh d).1) [
                | inl same ↦
                    read_manifest-entries oh d
                      (resolve_entry blake3_hex content_bytes now staging m oh d).1 same
                    ∙ r
                | inr (fresh, new) ↦ absurd (ground (arith, e, fresh))
              ],
              (
                paths oh n r,
                ground (arith, e, h, r, eq_iff (content_bytes n.content) (content_bytes m.content)),
              ),
            ),
          )
        ]
      ]

  -- An entry that was there before is read as before.
  step_reads :
      (now : ℕ) (staging : Staging) (m : Manifest) (oh old : String) (d : Disk)
      → old ≢ oh
      → read_manifest old (resolve_entry blake3_hex content_bytes now staging m oh d).1
        ≡ read_manifest old d
  unfolding read_manifest
  step_reads now staging m oh old d other =
      elim ((resolve_entry-disk blake3_hex content_bytes now staging m oh d).1) [
        | inl same ↦
            read_manifest-entries old d
              (resolve_entry blake3_hex content_bytes now staging m oh d).1 same
        | inr (fresh, (e, new)) ↦
            ground (arith, ap (get old) new, get-insert old oh e d.entries, eq_iff oh old)
      ]

  -- Where publishing answers with a violation, the key is the one published, its memo link named
  -- another entry before, whose manifest could be read; the entry of the new output is there, its
  -- content written like that of the staging directory; and the report lists exactly the paths that
  -- one of the two contents lacks and those where they differ. The paths of each content map are
  -- distinct.
  pub publish_violation :
      (now : ℕ) (s : Store) (staging : Staging) (ik : String) (key_document : Json)
      (built : BuiltInfo) (view : Option String) (k : String) (report : DiffReport)
      → DistinctKeys staging.files
      → DistinctPaths s.disk
      → (publish blake3_hex content_bytes now s staging ik key_document built view).0
        ≡ failure (determinism_violation k report)
      → let oh =
          (build_manifest blake3_hex content_bytes ik
            (hash_content staging.files)
            key_document
            built
            view).output_hash in
        (k ≡ ik)
        × ((old : String) × ((old_manifest : Manifest) × ((new_manifest : Manifest) × ((get ik
                      s.disk.inputs
                    ≡ some (some old))
                  × ((old ≢ oh)
                      × ((read_manifest old s.disk ≡ success old_manifest)
                          × ((read_manifest oh
                                  (publish blake3_hex content_bytes now s staging ik key_document
                                    built view).1
                                ≡ success new_manifest)
                              × ((content_bytes new_manifest.content
                                    ≡ content_bytes (hash_content staging.files))
                                  × IsDifference report old_manifest.content
                                      new_manifest.content))))))))
  unfolding publish ensure_writable
  publish_violation now s staging ik key_document built view k report files paths h =
      elim (Bool-cases s.readonly) [
        | inl e ↦ absurd (ground (arith, e, h))
        | inr e ↦
            let m =
              build_manifest blake3_hex content_bytes ik (hash_content staging.files) key_document
                built view in
            let step = resolve_entry blake3_hex content_bytes now staging m m.output_hash s.disk in
            elim (bind_failure step (λ a d. resolve_input_symlink now ik m.output_hash a d)
              (determinism_violation k report) (rw e at h)) [
                | inl bad ↦ absurd (step_violation now staging m m.output_hash k report s.disk bad)
                | inr (a, (one, (two, disk))) ↦
                    let oh = m.output_hash in
                    let distinct : DistinctKeys m.content =
                      unfold build_manifest in hash_content-DistinctKeys staging.files files in
                    let (n, (there, (fresh, alike))) =
                      step_manifest now staging m oh s.disk a paths distinct one in
                    let (old, first, second, key, link, other, r, q, told, same) =
                      link_violation now ik oh k a report step.1 two in
                    let found : n ≡ second = success-≡ n second (sym there ∙ q) in
                    let after =
                      ap (read_manifest oh) disk
                      ∙ (read_manifest-entries oh step.1
                            (resolve_input_symlink now ik oh a step.1).1 same
                          ∙ there) in
                    rw e (
                      key,
                      (
                        old,
                        (
                          first,
                          (
                            n,
                            (
                              sym (
                                    ap (get ik)
                                      (resolve_entry-disk blake3_hex content_bytes now staging m oh
                                        s.disk).0)
                                  ∙ link,
                              (
                                other,
                                (
                                  sym (step_reads now staging m oh old s.disk other) ∙ r,
                                  (
                                    after,
                                    (
                                      alike ∙ (unfold build_manifest in refl),
                                      subst (λ x. IsDifference x first.content n.content)
                                          (sym (told ∙ ap (diff_report first) (sym found)))
                                          (diff_report-IsDifference first n fresh),
                                    ),
                                  ),
                                ),
                              ),
                            ),
                          ),
                        ),
                      ),
                    )
              ]
      ]
