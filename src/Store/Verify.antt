-- ===== src/Store/Verify.antt =====
-- What the check of an entry (`crates/ppg3-core/src/store.rs`) says of its files.
use ppg.Common.{
  ◌≡◌, ◌↔◌, refl, ap, sym, subst, ◌∙◌, true, ◌&&◌, some, List, [], ◌∷◌, ◌++◌, String, eq_iff,
  eq_refl, arith, success, All, All-map, Option-cases, Bool-cases, String-cases, inl, inr,
}
use ppg.Table.{Table, get, contains_key, IsAbsent, DistinctKeys, get_tail}
use ppg.Scheduler.{ContentEntry}
use ppg.Files.{FileNode, hash_content}
use ppg.Disk.{readable, Disk, Entry, Manifest}
use ppg.Store.{read_manifest, same_file}
use ppg.Store.Publish.{
  Mismatch, check_file, check_files, unexpected_files, check_hash, mismatches_of, no_mismatch,
  VerifyReport, verify_entry,
}

entry-≡ : (a b : ContentEntry) → a.blake3 ≡ b.blake3 → a.mode ≡ b.mode → a.size ≡ b.size → a ≡ b
entry-≡ a b p q r = λ i. record { blake3 = p i; mode = q i; size = r i }

pub same_file-≡ : (a b : ContentEntry) → same_file a b ≡ true → a ≡ b
same_file-≡ a b e =
    entry-≡ a b (ground (arith, e, eq_iff a.blake3 b.blake3))
      (ground (arith, e, eq_iff a.mode b.mode)) (ground (arith, e))

pub same_file_refl : (a : ContentEntry) → same_file a a ≡ true
same_file_refl a = ground (arith, eq_refl a.blake3, eq_refl a.mode)

no_mismatch-append :
    (xs ys : List Mismatch) → no_mismatch (xs ++ ys) ≡ (no_mismatch xs && no_mismatch ys)
no_mismatch-append [] ys = refl
no_mismatch-append (x ∷ xs) ys = refl

abbrev pub Finds : Table ContentEntry → String × ContentEntry → Type 0
Finds t x = get x.0 t ≡ some x.1

abbrev Has : Table ContentEntry → String × ContentEntry → Type 0
Has t x = contains_key x.0 t ≡ true

-- Every file of a map with distinct keys is found.
pub Finds-All : (t : Table ContentEntry) → DistinctKeys t → All (Finds t) t
unfolding get
Finds-All [] d = tt
Finds-All ((path, x) ∷ rest) (fresh, d) = (
  ground (arith, eq_refl path),
  All-map rest (Finds-All rest d) (λ y h. get_tail y.0 path x y.1 rest fresh h),
)

-- What holds of all files holds of one that is found.
All-get :
    (P : String × ContentEntry → Type 0) (t : Table ContentEntry) (k : String) (x : ContentEntry)
    → All P t
    → get k t ≡ some x
    → P (k, x)
unfolding get
All-get P [] k x h e = ground (arith, e)
All-get P ((j, y) ∷ t) k x h e = elim (String-cases j k) [
  | inl same ↦
      let found : some y ≡ some x = rw same.1 at e in
      let first : y ≡ x = ground (arith, found) in
      subst (λ a. P (k, a)) first (subst (λ a. P (a, y)) same.0 h.0)
  | inr other ↦ All-get P t k x h.1 (rw other.1 at e)
]

check_file-Finds :
    (actual : Table ContentEntry) (path : String) (x : ContentEntry)
    → no_mismatch (check_file path x (get path actual)) ≡ true
    → get path actual ≡ some x
check_file-Finds actual path x e = elim (Option-cases (get path actual)) [
  | inl n ↦ ground (arith, e, n)
  | inr (a, n) ↦ elim (Bool-cases (same_file a x)) [
    | inl s ↦ n ∙ ap some (same_file-≡ a x s)
    | inr s ↦ ground (arith, e, n, s)
  ]
]

check_files-All :
    (actual content : Table ContentEntry)
    → no_mismatch (check_files actual content) ≡ true
    → All (Finds actual) content
unfolding check_files
check_files-All actual [] e = tt
check_files-All actual ((path, x) ∷ rest) e =
    let split =
      no_mismatch-append (check_file path x (get path actual)) (check_files actual rest) in
    (
      check_file-Finds actual path x (ground (arith, e, split)),
      check_files-All actual rest (ground (arith, e, split)),
    )

All-check_files :
    (actual content : Table ContentEntry)
    → All (Finds actual) content
    → no_mismatch (check_files actual content) ≡ true
unfolding check_files
All-check_files actual [] h = refl
All-check_files actual ((path, x) ∷ rest) h =
    ground (arith, h.0, same_file_refl x, All-check_files actual rest h.1)

unexpected_files-All :
    (content actual : Table ContentEntry)
    → no_mismatch (unexpected_files content actual) ≡ true
    → All (Has content) actual
unfolding unexpected_files
unexpected_files-All content [] e = tt
unexpected_files-All content ((path, a) ∷ rest) e = elim (Bool-cases (contains_key path content)) [
  | inl c ↦ (c, unexpected_files-All content rest (ground (arith, e, c)))
  | inr c ↦ ground (arith, e, c)
]

All-unexpected_files :
    (content actual : Table ContentEntry)
    → All (Has content) actual
    → no_mismatch (unexpected_files content actual) ≡ true
unfolding unexpected_files
All-unexpected_files content [] h = refl
All-unexpected_files content ((path, a) ∷ rest) h =
    ground (arith, h.0, All-unexpected_files content rest h.1)

-- The files are those of the content, each with its hash, its mode and its size.
abbrev pub Agrees : Table ContentEntry → Table ContentEntry → Type 0
Agrees actual content = (path : String) → get path actual ≡ get path content

found-Agrees :
    (actual content : Table ContentEntry)
    → All (Finds actual) content
    → All (Has content) actual
    → Agrees actual content
unfolding contains_key
found-Agrees actual content h g path = elim (Option-cases (get path content)) [
  | inr (x, e) ↦ All-get (Finds actual) content path x h e ∙ sym e
  | inl e ↦ elim (Option-cases (get path actual)) [
    | inl n ↦ n ∙ sym e
    | inr (a, n) ↦ absurd (ground (arith, All-get (Has content) actual path a g n, e))
  ]
]

Agrees-found :
    (actual content : Table ContentEntry)
    → DistinctKeys content
    → DistinctKeys actual
    → Agrees actual content
    → All (Finds actual) content × All (Has content) actual
unfolding contains_key
Agrees-found actual content d d' h = (
  All-map content (Finds-All content d) (λ x e. h x.0 ∙ e),
  All-map actual (Finds-All actual d') (λ x e. ground (arith, sym (h x.0) ∙ e)),
)

hash_content-IsAbsent :
    (path : String) (files : Table FileNode)
    → IsAbsent path files
    → IsAbsent path (hash_content files)
unfolding hash_content
hash_content-IsAbsent path [] h = tt
hash_content-IsAbsent path ((k, f) ∷ files) h = (h.0, hash_content-IsAbsent path files h.1)

pub hash_content-DistinctKeys :
    (files : Table FileNode) → DistinctKeys files → DistinctKeys (hash_content files)
unfolding hash_content
hash_content-DistinctKeys [] d = tt
hash_content-DistinctKeys ((k, f) ∷ files) d =
    (hash_content-IsAbsent k files d.0, hash_content-DistinctKeys files d.1)

mismatches_lem :
    (oh : String) (e : Entry) (m : Manifest)
    → DistinctKeys m.content
    → DistinctKeys e.files
    → (no_mismatch (mismatches_of oh e m) ≡ true)
      ↔ (Agrees (hash_content e.files) m.content × (m.output_hash ≡ oh))
unfolding mismatches_of
mismatches_lem oh e m d d' =
    let actual = hash_content e.files in
    let wrong = check_files actual m.content in
    let extra = unexpected_files m.content actual in
    let split = no_mismatch-append wrong (extra ++ check_hash oh m.output_hash) in
    let split' = no_mismatch-append extra (check_hash oh m.output_hash) in
    (
      λ h. (
        found-Agrees actual m.content (check_files-All actual m.content (ground (arith, h, split)))
            (unexpected_files-All m.content actual (ground (arith, h, split, split'))),
        ground (arith, h, split, split', eq_iff m.output_hash oh),
      ),
      λ h.
          let found = Agrees-found actual m.content d (hash_content-DistinctKeys e.files d') h.0 in
          ground (
            arith,
            split,
            split',
            All-check_files actual m.content found.0,
            All-unexpected_files m.content actual found.1,
            eq_iff m.output_hash oh,
            h.1,
          ),
    )

-- The check of an entry whose manifest can be read, with distinct paths in the manifest and among
-- its files, succeeds with a report of its name, its place and whether it was built in a sandbox. It
-- is ok exactly when it lists no mismatch, and exactly when hashing the files of the entry finds
-- what the manifest says, file by file, and the manifest names the entry.
pub verify_entry_verdict :
    (path oh : String) (d : Disk) (e : Entry) (m : Manifest)
    → get oh d.entries ≡ some e
    → e.manifest ≡ readable m
    → DistinctKeys m.content
    → DistinctKeys e.files
    → (r : VerifyReport) × ((verify_entry path oh d ≡ success r)
        × ((r.oh ≡ oh)
            × ((r.path ≡ path)
                × ((r.sandboxed ≡ m.built.sandboxed)
                    × ((r.ok ≡ no_mismatch r.mismatches)
                        × ((r.ok ≡ true)
                            ↔ (Agrees (hash_content e.files) m.content × (m.output_hash ≡ oh))))))))
unfolding verify_entry read_manifest
verify_entry_verdict path oh d e m there file distinct distinct' = (
  record {
    oh = oh;
    path = path;
    sandboxed = m.built.sandboxed;
    ok = no_mismatch (mismatches_of oh e m);
    mismatches = mismatches_of oh e m;
  },
  (
    rw (there, verify_entry) (rw (there, read_manifest) (rw file refl)),
    (refl, (refl, (refl, (refl, mismatches_lem oh e m distinct distinct')))),
  ),
)
