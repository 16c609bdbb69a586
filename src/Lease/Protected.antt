-- ===== src/Lease/Protected.antt =====
-- A protected entry (`crates/ppg3-core/src/lease.rs`), or one of a registered generation, outlives the
-- garbage collection (`crates/ppg3-core/src/gc.rs`).
use Prim.Native.Char.{Char, code}
use Prim.Native.String.{◌++◌}
use text.Mathlib.TextLemmas.{nil-append, cons-append}
use ppg.Common.{
  ℕ, ◌+◌, ◌≤◌, ◌≡◌, refl, true, false, none, some, List, [], ◌∷◌, String, ◌==◌, eq_refl, elem,
  elem-append, arith, success, Bool-cases, Option-cases, inl, inr,
}
use ppg.Table.{Table, get, get-insert}
use ppg.Disk.{Disk, LeaseNode}
use ppg.Gc.{Machine, at_lease, at_root, GcPolicy, rsplit_at, has_json_extension}
use ppg.Gc.Debris.{lease_stale_after}
use ppg.Gc.Roots.{by_lease}
use ppg.Gc.Kept.{rooted_entry_stays}
use ppg.Gc.Run.{run}
use ppg.Lease.{file_of, rewrite, protect, add_once}

rsplit_here :
    (c : Char) (t : String)
    → rsplit_at (code c) t ≡ none
    → rsplit_at (code c) (String.◌∷◌ c t) ≡ some (String.[], t)
unfolding rsplit_at
rsplit_here c t h = ground arith

rsplit_at-append :
    (c : Char) (s t : String)
    → rsplit_at (code c) t ≡ none
    → rsplit_at (code c) (s ++ String.◌∷◌ c t) ≡ some (s, t)
unfolding rsplit_at
rsplit_at-append c String.[] t h = rw nil-append (rsplit_here c t h)
rsplit_at-append c (String.◌∷◌ d s) t h = rw cons-append (ground (arith, rsplit_at-append c s t h))

-- The file of a run with an id has the extension.
file_of-json :
    (run_id : String) → (run_id == "") ≡ false → has_json_extension (file_of run_id) ≡ true
unfolding has_json_extension
file_of-json run_id h =
    let split : rsplit_at b'.' (run_id ++ ".json") ≡ some (run_id, "json") =
      rsplit_at-append "." run_id "json" (unfold rsplit_at in refl) in
    rw (split, has_json_extension) (ground (arith, h))

add_once-elem : (oh : String) (ohs : List String) → elem oh (add_once oh ohs) ≡ true
unfolding elem
add_once-elem oh ohs = elim (Bool-cases (elem oh ohs)) [
  | inl e ↦ ground (arith, e)
  | inr e ↦ ground (arith, e, elem-append oh ohs (oh ∷ []), eq_refl oh)
]

-- What `protect` leaves in the lease's file.
protect-file :
    (now : ℕ) (run_id oh : String) (leases after : Table LeaseNode)
    → protect now run_id oh leases ≡ success after
    → (ohs : List String) × (get (file_of run_id) after
        ≡ some (record { mtime = now; protects = some ohs }))
      × (elem oh ohs ≡ true)
unfolding protect rewrite
protect-file now run_id oh leases after h = elim (Option-cases (get (file_of run_id) leases)) [
  | inl e ↦ absurd (ground arith)
  | inr (l, e) ↦ elim (Option-cases l.protects) [
    | inl q ↦ absurd (ground arith)
    | inr (ohs, q) ↦ (
      add_once oh ohs,
      ground (
        arith,
        get-insert (file_of run_id) (file_of run_id)
            (record { mtime = now; protects = some (add_once oh ohs) }) leases,
        eq_refl (file_of run_id),
      ),
      add_once-elem oh ohs,
    )
  ]
]

-- An entry that the lease of a run with an id that is not empty has been made to protect is
-- untouched by any garbage collection, at any level, that has looked at the lease's file, for the
-- sweep of leases and for the roots, no later than the time of staleness after it.
pub protect_outlives_gc :
    (now : ℕ) (run_id oh : String) (d : Disk) (leases : Table LeaseNode) (m : Machine)
    (p : GcPolicy)
    → (run_id == "") ≡ false
    → protect now run_id oh d.leases ≡ success leases
    → m.clock (at_lease (file_of run_id)) ≤ now + lease_stale_after
    → m.clock (at_root (file_of run_id)) ≤ now + lease_stale_after
    → get oh (run m p (record d { leases = leases })).disk.entries ≡ get oh d.entries
protect_outlives_gc now run_id oh d leases m p named h soon soon' =
    let (ohs, file, there) = protect-file now run_id oh d.leases leases h in
    rooted_entry_stays m p (record d { leases = leases }) oh
      (by_lease (file_of run_id) (record { mtime = now; protects = some ohs }) ohs file
        (file_of-json run_id named) (ground arith) (ground arith) refl there)
