-- ===== src/Store/Grows.antt =====
-- Publishing into a store (`crates/ppg3-core/src/store.rs`) only adds: no entry and no link is changed.
use ppg.Common.{
  ℕ, ◌≡◌, refl, sym, ap, ◌∙◌, true, false, Option, none, some, String, ◌==◌, eq_iff, eq_refl, arith,
  if◌then◌else◌, success, failure, Bool-cases, Option-cases, inl, inr, ◌⊎◌,
}
use ppg.Table.{Table, get, insert, contains_key, get-insert}
use ppg.Job.{Json}
use ppg.Scheduler.{ContentEntry}
use ppg.Files.{hash_content, lock_files}
use ppg.Disk.{readable, Disk, Entry, Manifest, BuiltInfo}
use ppg.Store.{Store, Staging, PublishOutcome, Answer, ◌>>=◌, ensure_writable}
use ppg.Store.Publish.{
  compare_link, resolve_link, resolve_input_symlink, build_manifest, promote, resolve_entry,
  publish,
}

-- Whatever one disk holds as an entry or a link, the other holds too.
abbrev pub Grows : Disk → Disk → Type 0
Grows d d' =
    ((oh : String) (e : Entry) → get oh d.entries ≡ some e → get oh d'.entries ≡ some e)
    × ((ik : String) (x : Option String) → get ik d.inputs ≡ some x → get ik d'.inputs ≡ some x)

pub Grows-refl : (d : Disk) → Grows d d
Grows-refl d = (λ oh e h. h, λ ik x h. h)

Grows-trans : (c d e : Disk) → Grows c d → Grows d e → Grows c e
Grows-trans c d e (a, b) (a', b') = (λ k x h. a' k x (a k x h), λ k x h. b' k x (b k x h))

-- No link is without its entry.
abbrev pub IsLinked : Disk → Type 0
IsLinked d = (ik oh : String) → get ik d.inputs ≡ some (some oh) → contains_key oh d.entries ≡ true

compare_link-disk :
    (now : ℕ) (ik oh : String) (o : PublishOutcome) (existing : String) (d : Disk)
    → ((compare_link now ik oh o existing d).1.entries ≡ d.entries)
      × ((compare_link now ik oh o existing d).1.inputs ≡ d.inputs)
unfolding compare_link
compare_link-disk now ik oh o existing d = (ground arith, ground arith)

-- The link step: the entries stay, and the link is new or nothing changes.
resolve_input_symlink-disk :
    (now : ℕ) (ik oh : String) (o : PublishOutcome) (d : Disk)
    → ((resolve_input_symlink now ik oh o d).1.entries ≡ d.entries)
      × (((resolve_input_symlink now ik oh o d).1.inputs ≡ d.inputs)
          ⊎ ((get ik d.inputs ≡ none)
              × ((resolve_input_symlink now ik oh o d).1.inputs ≡ insert ik (some oh) d.inputs)))
unfolding resolve_input_symlink resolve_link
resolve_input_symlink-disk now ik oh o d = elim (Option-cases (get ik d.inputs)) [
  | inl e ↦ rw (e, resolve_link) (refl, inr (refl, refl))
  | inr (none, e) ↦ rw (e, resolve_link) (refl, inl refl)
  | inr (some existing, e) ↦
      rw (e, resolve_link)
        (
          (compare_link-disk now ik oh o existing d).0,
          inl (compare_link-disk now ik oh o existing d).1,
        )
]

link_kept :
    (ik k oh : String) (x : Option String) (t : Table (Option String))
    → get ik t ≡ none
    → get k t ≡ some x
    → get k (insert ik (some oh) t) ≡ some x
link_kept ik k oh x t a h = get-insert k ik (some oh) t ∙ (elim (Bool-cases (ik == k)) [
  | inl e ↦ absurd (ground (arith, ap (λ (j : String). get j t) ((eq_iff ik k).0 e)))
  | inr e ↦ rw e h
])

pub resolve_input_symlink-Grows :
    (now : ℕ) (ik oh : String) (o : PublishOutcome) (d : Disk)
    → Grows d (resolve_input_symlink now ik oh o d).1
resolve_input_symlink-Grows now ik oh o d =
    let (same, link) = resolve_input_symlink-disk now ik oh o d in
    (
      λ k e h. ap (get k) same ∙ h,
      λ k x h. elim link [
        | inl e ↦ ap (get k) e ∙ h
        | inr (fresh, e) ↦ ap (get k) e ∙ link_kept ik k oh x d.inputs fresh h
      ],
    )

pub resolve_input_symlink-IsLinked :
    (now : ℕ) (ik oh : String) (o : PublishOutcome) (d : Disk)
    → contains_key oh d.entries ≡ true
    → IsLinked d
    → IsLinked (resolve_input_symlink now ik oh o d).1
resolve_input_symlink-IsLinked now ik oh o d there h k x =
    let (same, link) = resolve_input_symlink-disk now ik oh o d in
    λ e. ap (contains_key x) same ∙ (elim link [
      | inl stays ↦ h k x (sym (ap (get k) stays) ∙ e)
      | inr (fresh, new) ↦
          let found : (if ik == k then some (some oh) else get k d.inputs) ≡ some (some x) =
            sym (get-insert k ik (some oh) d.inputs) ∙ (sym (ap (get k) new) ∙ e) in
          elim (Bool-cases (ik == k)) [
            | inl q ↦
                let same_oh : oh ≡ x = ground (arith, q, found) in
                ap (λ (y : String). contains_key y d.entries) (sym same_oh) ∙ there
            | inr q ↦ h k x (ground (arith, q, found))
          ]
    ])

-- The entry step.
module _ (blake3_hex : String → String) (content_bytes : Table ContentEntry → String) where
  pub resolve_entry-disk :
      (now : ℕ) (staging : Staging) (m : Manifest) (oh : String) (d : Disk)
      → ((resolve_entry blake3_hex content_bytes now staging m oh d).1.inputs ≡ d.inputs)
        × (((resolve_entry blake3_hex content_bytes now staging m oh d).1.entries ≡ d.entries)
            ⊎ ((contains_key oh d.entries ≡ false)
                × ((e : Entry) × ((resolve_entry blake3_hex content_bytes now staging m oh
                        d).1.entries
                      ≡ insert oh e d.entries))))
  unfolding resolve_entry promote
  resolve_entry-disk now staging m oh d = elim (Bool-cases (contains_key oh d.entries)) [
    | inl e ↦ rw e (ground arith, inl (ground arith))
    | inr e ↦ rw e (refl, inr (refl, (_, refl)))
  ]

  entry_kept :
      (oh k : String) (e x : Entry) (t : Table Entry)
      → contains_key oh t ≡ false
      → get k t ≡ some x
      → get k (insert oh e t) ≡ some x
  unfolding contains_key
  entry_kept oh k e x t a h = get-insert k oh e t ∙ (elim (Bool-cases (oh == k)) [
    | inl q ↦ absurd (ground (arith, ap (λ (j : String). get j t) ((eq_iff oh k).0 q)))
    | inr q ↦ rw q h
  ])

  resolve_entry-Grows :
      (now : ℕ) (staging : Staging) (m : Manifest) (oh : String) (d : Disk)
      → Grows d (resolve_entry blake3_hex content_bytes now staging m oh d).1
  resolve_entry-Grows now staging m oh d =
      let (links, entries) = resolve_entry-disk now staging m oh d in
      (
        λ k e h. elim entries [
          | inl same ↦ ap (get k) same ∙ h
          | inr (fresh, (e', new)) ↦ ap (get k) new ∙ entry_kept oh k e' e d.entries fresh h
        ],
        λ k x h. ap (get k) links ∙ h,
      )

  -- Whatever the answer is, the entry is there after the step.
  resolve_entry-there :
      (now : ℕ) (staging : Staging) (m : Manifest) (oh : String) (d : Disk)
      → contains_key oh (resolve_entry blake3_hex content_bytes now staging m oh d).1.entries ≡ true
  unfolding resolve_entry promote contains_key
  resolve_entry-there now staging m oh d = ground (
    arith,
    get-insert oh oh
        (record {
          manifest = readable m;
          files = lock_files staging.files;
          size = staging.size;
          evict_ok = m.built.retain_evict;
          atime = now;
        })
        d.entries,
    eq_refl oh,
  )

  Grows-contains :
      (d d' : Disk) (k : String)
      → Grows d d'
      → contains_key k d.entries ≡ true
      → contains_key k d'.entries ≡ true
  unfolding contains_key
  Grows-contains d d' k g h = elim (Option-cases (get k d.entries)) [
    | inl e ↦ absurd (ground arith)
    | inr (e, q) ↦ ground (arith, g.0 k e q)
  ]

  resolve_entry-IsLinked :
      (now : ℕ) (staging : Staging) (m : Manifest) (oh : String) (d : Disk)
      → IsLinked d
      → IsLinked (resolve_entry blake3_hex content_bytes now staging m oh d).1
  resolve_entry-IsLinked now staging m oh d h k x e =
      Grows-contains d (resolve_entry blake3_hex content_bytes now staging m oh d).1 x
        (resolve_entry-Grows now staging m oh d)
        (h k x (sym (ap (get k) (resolve_entry-disk now staging m oh d).0) ∙ e))

  bind_disk :
      (P : Disk → Type 0) (r : Answer PublishOutcome)
      (k : PublishOutcome → Disk → Answer PublishOutcome)
      → P r.1
      → ((o : PublishOutcome) → P (k o r.1).1)
      → P (r >>= k).1
  bind_disk P (success o, d) k h f = f o
  bind_disk P (failure e, d) k h f = h

  -- Publishing, whatever its answer is, leaves every entry and every memo link of the store as it was.
  pub publish-Grows :
      (now : ℕ) (s : Store) (staging : Staging) (ik : String) (key_document : Json)
      (built : BuiltInfo) (view : Option String)
      → Grows s.disk (publish blake3_hex content_bytes now s staging ik key_document built view).1
  unfolding publish ensure_writable
  publish-Grows now s staging ik key_document built view = elim (Bool-cases s.readonly) [
    | inl e ↦ rw e (Grows-refl s.disk)
    | inr e ↦
        let m =
          build_manifest blake3_hex content_bytes ik (hash_content staging.files) key_document built
            view in
        let step = resolve_entry blake3_hex content_bytes now staging m m.output_hash s.disk in
        let first = resolve_entry-Grows now staging m m.output_hash s.disk in
        rw e (
          bind_disk (Grows s.disk) step (λ o d. resolve_input_symlink now ik m.output_hash o d)
            first
            λ o.
              Grows-trans s.disk step.1 (resolve_input_symlink now ik m.output_hash o step.1).1
                first (resolve_input_symlink-Grows now ik m.output_hash o step.1))
  ]

  -- In a store without a dangling link, publishing leaves none, whatever its answer is.
  pub publish-IsLinked :
      (now : ℕ) (s : Store) (staging : Staging) (ik : String) (key_document : Json)
      (built : BuiltInfo) (view : Option String)
      → IsLinked s.disk
      → IsLinked (publish blake3_hex content_bytes now s staging ik key_document built view).1
  unfolding publish ensure_writable
  publish-IsLinked now s staging ik key_document built view h = elim (Bool-cases s.readonly) [
    | inl e ↦ rw e h
    | inr e ↦
        let m =
          build_manifest blake3_hex content_bytes ik (hash_content staging.files) key_document built
            view in
        let step = resolve_entry blake3_hex content_bytes now staging m m.output_hash s.disk in
        let first = resolve_entry-IsLinked now staging m m.output_hash s.disk h in
        rw e (
          bind_disk IsLinked step (λ o d. resolve_input_symlink now ik m.output_hash o d) first
            λ o.
              resolve_input_symlink-IsLinked now ik m.output_hash o step.1
                (resolve_entry-there now staging m m.output_hash s.disk) first)
  ]
