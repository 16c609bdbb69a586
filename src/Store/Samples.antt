-- ===== src/Store/Samples.antt =====
-- A small store, and what is published into it (`crates/ppg3-core/src/store.rs`), leased and collected.
use ppg.Common.{
  ◌↔◌, ◌∙◌, sym, ap, subst, String-cases, inl, inr, ◌≡◌, ◌≢◌, refl, true, false, not, none, some,
  List, [], ◌∷◌, String, ◌==◌, elem, arith, success, failure, ◌⊎◌, All,
}
use ppg.Table.{Table, DistinctKeys, get, insert, contains_key}
use ppg.Job.{null}
use ppg.Scheduler.{ContentEntry}
use ppg.Files.{Mode, FileNode, hash_content, content_entry, lock_files}
use ppg.Disk.{readable, Disk, Entry, Manifest, BuiltInfo, LeaseNode, empty_disk}
use ppg.Gc.{GcPolicy, GcLevel, default, reset, Machine}
use ppg.Gc.Run.{run}
use ppg.Store.{
  Store, Staging, determinism_violation, published, ensure_writable, read_manifest, lookup,
  diff_report,
}
use ppg.Store.Publish.{
  build_manifest, publish, add_root, pin, verify_entry, output_hash, resolve_entry, promote,
  VerifyReport, no_mismatch, resolve_input_symlink, compare_link,
}
use ppg.Store.Grows.{Grows, IsLinked, publish-Grows, publish-IsLinked}
use ppg.Store.RoundTrip.{lookup-publish}
use ppg.Store.Verify.{Agrees, verify_entry_verdict}
use ppg.Store.Violation.{DistinctPaths, IsDifference, success-≡, publish_violation}
use ppg.Store.Verified.{with_files, verify_entry-publish}
use ppg.Store.Rooted.{add_root_outlives_gc, pin_outlives_gc}
use ppg.StoreSet.{lookup_first, write_store, no_store_named, store_is_read_only, no_writable_store}
use ppg.StoreSet.Order.{Hit, Found, lookup_first-Hit, write_store_named, write_store_unnamed}
use ppg.Lease.{create, protect}
use ppg.Lease.Protected.{protect_outlives_gc}

running : Unit {0}
unfolding publish resolve_entry promote resolve_input_symlink compare_link hash_content
    content_entry lock_files diff_report build_manifest output_hash lookup get insert contains_key
    ensure_writable read_manifest add_root pin create protect elem lookup_first write_store
running = tt

-- Stand-ins for the hash and for the canonical bytes.
abbrev hash : String → String
hash s = s

abbrev bytes : Table ContentEntry → String
bytes [] = "{}"
bytes ((path, _) ∷ _) = path

abbrev info : BuiltInfo
info = record {
  start_ms = 1;
  end_ms = 2;
  host = "h";
  sandboxed = true;
  ppg3_version = "0";
  retain_evict = false;
}

-- Mode 0644.
abbrev open_mode : Mode
open_mode = record {
  special = 0;
  user = record { readable = true; writable = true; executable = false };
  group = record { readable = true; writable = false; executable = false };
  others = record { readable = true; writable = false; executable = false };
}

abbrev file : FileNode
file = record { blake3 = "b"; mode = open_mode; size = 3 }

abbrev staged : String → Staging
staged path = record { name = "s"; files = (path, file) ∷ []; size = 9 }

abbrev base : Store
base = record { name = "main"; readonly = false; disk = empty_disk }

abbrev full : Store
full = record base { disk = (publish hash bytes 7 base (staged "x") "ik" null info none).1 }

first_published :
    (publish hash bytes 7 base (staged "x") "ik" null info none).0 ≡ success (published "x")
unfolding running
first_published = refl

publish-Grows_example :
    Grows full.disk (publish hash bytes 8 full (staged "y") "ik" null info none).1
publish-Grows_example = publish-Grows hash bytes 8 full (staged "y") "ik" null info none

base-IsLinked : IsLinked base.disk
unfolding get
base-IsLinked ik oh h = ground arith

publish-IsLinked_example : IsLinked (publish hash bytes 7 base (staged "x") "ik" null info none).1
publish-IsLinked_example =
    publish-IsLinked hash bytes 7 base (staged "x") "ik" null info none base-IsLinked

lookup-publish_example :
    (m : Manifest) × ((lookup 9
        (record base { disk = (publish hash bytes 7 base (staged "x") "ik" null info none).1 })
        "ik").0
      ≡ success (some m))
    × (bytes m.content ≡ bytes (hash_content (staged "x").files))
lookup-publish_example =
    lookup-publish hash bytes 7 9 base (staged "x") "ik" null info none (published "x")
      first_published

abbrev staged_manifest : String → Manifest
staged_manifest path =
    build_manifest hash bytes "ik" (hash_content (staged path).files) null info none

full_link : get "ik" full.disk.inputs ≡ some (some "x")
unfolding running
full_link = refl

full_manifest : read_manifest "x" full.disk ≡ success (staged_manifest "x")
unfolding running
full_manifest = refl

y_fresh :
    contains_key (output_hash hash bytes (hash_content (staged "y").files)) full.disk.entries
    ≡ false
unfolding running
y_fresh = refl

built_twice :
    (publish hash bytes 8 full (staged "y") "ik" null info none).0
    ≡ failure (determinism_violation "ik" (diff_report (staged_manifest "x") (staged_manifest "y")))
unfolding running
built_twice = refl

report_lists :
    diff_report (staged_manifest "x") (staged_manifest "y")
    ≡ record { added = "y" ∷ []; removed = "x" ∷ []; changed = [] }
unfolding running
report_lists = refl

content_x : DistinctKeys (staged_manifest "x").content
unfolding running
content_x = (tt, tt)

full-DistinctPaths : DistinctPaths full.disk
unfolding running
full-DistinctPaths oh m h = elim (String-cases "x" oh) [
  | inl same ↦
      let read_x : read_manifest oh full.disk ≡ success (staged_manifest "x") =
        ap (λ k. read_manifest k full.disk) (sym same.0) ∙ full_manifest in
      subst (λ (n : Manifest). DistinctKeys n.content)
        (success-≡ (staged_manifest "x") m (sym read_x ∙ h)) content_x
  | inr other ↦ ground (arith, other.1, h)
]

publish_violation_example :
    ◌≡◌ {A = String} "ik" "ik"
    × ((old : String) × ((old_manifest : Manifest) × ((new_manifest : Manifest) × ((get "ik"
                  full.disk.inputs
                ≡ some (some old))
              × ((old ≢ (staged_manifest "y").output_hash)
                  × ((read_manifest old full.disk ≡ success old_manifest)
                      × ((read_manifest
                              (staged_manifest "y").output_hash
                              (publish hash bytes 8 full (staged "y") "ik" null info none).1
                            ≡ success new_manifest)
                          × ((bytes new_manifest.content ≡ bytes (hash_content (staged "y").files))
                              × IsDifference
                                  (diff_report (staged_manifest "x") (staged_manifest "y"))
                                  old_manifest.content
                                  new_manifest.content))))))))
publish_violation_example =
    publish_violation hash bytes 8 full (staged "y") "ik" null info none "ik"
      (diff_report (staged_manifest "x") (staged_manifest "y")) (tt, tt) full-DistinctPaths
      built_twice

abbrev fresh_entry : Entry
fresh_entry = record {
  manifest = readable (staged_manifest "x");
  files = lock_files (staged "x").files;
  size = 9;
  evict_ok = false;
  atime = 7;
}

locked_x : DistinctKeys fresh_entry.files
unfolding running
locked_x = (tt, tt)

entry_x : get "x" full.disk.entries ≡ some fresh_entry
unfolding running
entry_x = refl

verify_entry_verdict_example :
    (r : VerifyReport) × ((verify_entry "/s/v1/entries/x" "x" full.disk ≡ success r)
      × ((r.oh ≡ "x")
          × ((r.path ≡ "/s/v1/entries/x")
              × ((r.sandboxed ≡ (staged_manifest "x").built.sandboxed)
                  × ((r.ok ≡ no_mismatch r.mismatches)
                      × ((r.ok ≡ true) ↔ (
                          Agrees (hash_content fresh_entry.files) (staged_manifest "x").content
                          × ((staged_manifest "x").output_hash ≡ "x"))))))))
verify_entry_verdict_example =
    verify_entry_verdict "/s/v1/entries/x" "x" full.disk fresh_entry (staged_manifest "x") entry_x
      refl content_x locked_x

verify_entry-publish_example :
    ((r : VerifyReport) × ((verify_entry "/e" (staged_manifest "x").output_hash full.disk
          ≡ success r)
        × (r.ok ≡ true)))
    × ((r : VerifyReport) × ((verify_entry "/e"
              (staged_manifest "x").output_hash
              (with_files (staged_manifest "x").output_hash [] full.disk)
            ≡ success r)
          × ((r.ok ≡ true) ↔ Agrees (hash_content []) (hash_content (staged "x").files))))
verify_entry-publish_example =
    verify_entry-publish hash bytes 7 base (staged "x") "ik" null info none "/e" "x" [] (tt, tt) tt
      first_published

abbrev here : Machine
here = record { hostname = "h"; pid_alive = λ _. false; clock = λ _. 1_000_000 }

abbrev policy : GcLevel → GcPolicy
policy level = record {
  level = level;
  max_size = some 0;
  min_age_ms = none;
  evict_logs = true;
  dry_run = false;
}

root_added : (add_root full "p" "1" ("x" ∷ [])).0 ≡ success tt
unfolding running
root_added = refl

x_listed : elem "x" ("x" ∷ []) ≡ true
unfolding elem
x_listed = refl

add_root_outlives_gc_example :
    get "x" (run here (policy reset) (add_root full "p" "1" ("x" ∷ [])).1).disk.entries
    ≡ get "x" full.disk.entries
add_root_outlives_gc_example =
    add_root_outlives_gc full "p" "1" "x" ("x" ∷ []) here (policy reset) root_added x_listed

pinned : (pin full "n" "x").0 ≡ success tt
unfolding running
pinned = refl

pin_outlives_gc_example :
    get "x" (run here (policy default) (pin full "n" "x").1).disk.entries
    ≡ get "x" full.disk.entries
pin_outlives_gc_example = pin_outlives_gc full "n" "x" here (policy default) pinned refl

abbrev leased : Disk
leased = record (full.disk) { leases = create 10 "r" [] }

abbrev with_x : Table LeaseNode
with_x = ("r.json", record { mtime = 20; protects = some ("x" ∷ []) }) ∷ []

x_protected : protect 20 "r" "x" leased.leases ≡ success with_x
unfolding running
x_protected = refl

protect_outlives_gc_example :
    get "x" (run here (policy reset) (record leased { leases = with_x })).disk.entries
    ≡ get "x" leased.entries
protect_outlives_gc_example =
    protect_outlives_gc 20 "r" "x" leased with_x here (policy reset) refl x_protected (omega arith)
      (omega arith)

abbrev stores : List Store
stores = (record { name = "ro"; readonly = true; disk = empty_disk }) ∷ full ∷ []

second_hits : lookup_first 9 stores "ik" ≡ success (some (1, staged_manifest "x"))
unfolding running
second_hits = refl

lookup_first-Hit_example : Hit 9 "ik" stores 1 (staged_manifest "x")
lookup_first-Hit_example = lookup_first-Hit 9 stores "ik" 1 (staged_manifest "x") second_hits

write_store_named_example :
    ((s : Store) × Found (λ t. t.name == "ro") stores s
      × (((s.readonly ≡ false) × (write_store stores (some "ro") ≡ success s))
          ⊎ ((s.readonly ≡ true)
              × (write_store stores (some "ro") ≡ failure (store_is_read_only "ro")))))
    ⊎ (All (λ t. (t.name == "ro") ≡ false) stores
        × (write_store stores (some "ro") ≡ failure (no_store_named "ro")))
write_store_named_example = write_store_named stores "ro"

write_store_unnamed_example :
    ((s : Store) × Found (λ t. not t.readonly) stores s × (write_store stores none ≡ success s))
    ⊎ (All (λ t. not t.readonly ≡ false) stores
        × (write_store stores none ≡ failure no_writable_store))
write_store_unnamed_example = write_store_unnamed stores
