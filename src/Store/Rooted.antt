-- ===== src/Store/Rooted.antt =====
-- An entry that a generation registers as a root, or that is pinned (`crates/ppg3-core/src/store.rs`),
-- outlives the garbage collection (`crates/ppg3-core/src/gc.rs`).
use ppg.Common.{
  ◌≡◌, refl, ap, ◌∙◌, true, false, ◌||◌, List, [], ◌∷◌, String, ◌==◌, eq_iff, eq_refl, elem,
  elem-append, arith, success, Bool-cases, inl, inr,
}
use ppg.Table.{get, insert, get-insert}
use ppg.Disk.{Disk}
use ppg.Gc.{Machine, GcPolicy, reset, at_least}
use ppg.Gc.Roots.{IsRooted, by_generation, by_pin}
use ppg.Gc.Kept.{rooted_entry_stays}
use ppg.Gc.Run.{run}
use ppg.Store.{Store, ensure_writable}
use ppg.Store.Publish.{add_root, with_root, add_links, add_link, generations_of, ohs_of, pin}

add_link-elem :
    (k oh : String) (ohs : List String) → elem k (add_link oh ohs) ≡ (oh == k || elem k ohs)
unfolding elem
add_link-elem k oh ohs = elim (Bool-cases (elem oh ohs)) [
  | inr e ↦ ground (arith, e, elem-append k ohs (oh ∷ []))
  | inl e ↦ elim (Bool-cases (oh == k)) [
    | inl q ↦ ground (arith, e, q, ap (λ (x : String). elem x ohs) ((eq_iff oh k).0 q))
    | inr q ↦ ground (arith, e, q)
  ]
]

add_links-elem :
    (k : String) (more ohs : List String)
    → elem k (add_links more ohs) ≡ (elem k more || elem k ohs)
unfolding elem
add_links-elem k [] ohs = refl
add_links-elem k (oh ∷ more) ohs =
    ground (arith, add_links-elem k more (add_link oh ohs), add_link-elem k oh ohs)

with_root-IsRooted :
    (m : Machine) (p : GcPolicy) (d : Disk) (project generation oh : String) (ohs : List String)
    → elem oh ohs ≡ true
    → IsRooted m p (with_root project generation ohs d) oh
with_root-IsRooted m p d project generation oh ohs h =
    let gs = generations_of (get project d.roots) in
    let all = add_links ohs (ohs_of (get generation gs)) in
    by_generation project generation (insert generation all gs) all
      (unfold with_root in
        ground
          (arith, get-insert project project (insert generation all gs) d.roots, eq_refl project))
      (ground (arith, get-insert generation generation all gs, eq_refl generation))
      (ground (arith, h, add_links-elem oh ohs (ohs_of (get generation gs))))

-- Where registering a generation's roots succeeds, no garbage collection at any level touches the
-- entries that it names.
pub add_root_outlives_gc :
    (s : Store) (project generation oh : String) (ohs : List String) (m : Machine) (p : GcPolicy)
    → (add_root s project generation ohs).0 ≡ success tt
    → elem oh ohs ≡ true
    → get oh (run m p (add_root s project generation ohs).1).disk.entries ≡ get oh s.disk.entries
unfolding add_root ensure_writable
add_root_outlives_gc s project generation oh ohs m p good h = elim (Bool-cases s.readonly) [
  | inl e ↦ absurd (ground arith)
  | inr e ↦ rw e (
      rooted_entry_stays m p (with_root project generation ohs s.disk) oh
        (with_root-IsRooted m p s.disk project generation oh ohs h)
      ∙ (unfold with_root in refl))
]

-- Where pinning succeeds, no garbage collection below the level that clears the pins touches the entry.
pub pin_outlives_gc :
    (s : Store) (name oh : String) (m : Machine) (p : GcPolicy)
    → (pin s name oh).0 ≡ success tt
    → at_least p.level reset ≡ false
    → get oh (run m p (pin s name oh).1).disk.entries ≡ get oh s.disk.entries
unfolding pin ensure_writable
pin_outlives_gc s name oh m p good level = elim (Bool-cases s.readonly) [
  | inl e ↦ absurd (ground arith)
  | inr e ↦ rw e (
      rooted_entry_stays m p (record (s.disk) { pins = insert name oh s.disk.pins }) oh
        (by_pin name (ground (arith, get-insert name name oh s.disk.pins, eq_refl name)) level))
]
