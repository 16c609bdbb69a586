-- ===== src/Gc/Roots.antt =====
-- The roots of a run of `crates/ppg3-core/src/gc.rs`, and that the phases before they are computed lose
-- none.
use ppg.Common.{
  ℕ, ◌≡◌, refl, ap, ◌∙◌, true, false, some, List, [], ◌∷◌, ◌++◌, String, eq_iff, elem, elem-append,
  arith, Bool-cases, inl, inr,
}
use ppg.Table.{Table, get, get-remove}
use ppg.Disk.{Disk, LeaseNode, idle_past, generation_ohs, root_ohs, pin_ohs}
use ppg.Gc.{
  GcPolicy, reset, at_least, empty_report, Machine, Reading, at_lease, at_root, Sweep,
  has_json_extension,
}
use ppg.Gc.Debris.{
  lease_stale_after, clean_staging, clean_lease, clean_intent, clean_violation, clear_pin,
}
use ppg.Gc.Entries.{rooted, live_protected_ohs, protected_by}
use ppg.Gc.Phases.{clean_debris-keeps, reset_pins-keeps}
use ppg.Gc.Run.{before_roots, clean_debris, reset_pins}

-- An entry that a generation lists, that a pin names while pins count, or that a lease protects that is
-- stale neither when leases are swept nor when the roots are computed.
pub data IsRooted (m : Machine) (p : GcPolicy) (d : Disk) (oh : String) : Type 0 where
  by_generation :
      (project generation : String) (generations : Table (List String)) (ohs : List String)
      → get project d.roots ≡ some generations
      → get generation generations ≡ some ohs
      → elem oh ohs ≡ true
      → IsRooted m p d oh
  by_pin :
      (name : String)
      → get name d.pins ≡ some oh
      → at_least p.level reset ≡ false
      → IsRooted m p d oh
  by_lease :
      (name : String) (l : LeaseNode) (ohs : List String)
      → get name d.leases ≡ some l
      → has_json_extension name ≡ true
      → idle_past (m.clock (at_lease name)) l.mtime lease_stale_after ≡ false
      → idle_past (m.clock (at_root name)) l.mtime lease_stale_after ≡ false
      → l.protects ≡ some ohs
      → elem oh ohs ≡ true
      → IsRooted m p d oh

elem-generation_ohs :
    (oh generation : String) (gs : Table (List String)) (ohs : List String)
    → get generation gs ≡ some ohs
    → elem oh ohs ≡ true
    → elem oh (generation_ohs gs) ≡ true
unfolding get
elem-generation_ohs oh generation [] ohs e h = ground arith
elem-generation_ohs oh generation ((g, xs) ∷ gs) ohs e h =
    ground (arith, elem-append oh xs (generation_ohs gs), elem-generation_ohs oh generation gs ohs)

elem-root_ohs :
    (oh project : String) (ps : Table (Table (List String))) (gs : Table (List String))
    → get project ps ≡ some gs
    → elem oh (generation_ohs gs) ≡ true
    → elem oh (root_ohs ps) ≡ true
unfolding get
elem-root_ohs oh project [] gs e h = ground arith
elem-root_ohs oh project ((q, hs) ∷ ps) gs e h =
    ground (arith, elem-append oh (generation_ohs hs) (root_ohs ps), elem-root_ohs oh project ps gs)

elem-pin_ohs :
    (oh name : String) (ps : Table String) → get name ps ≡ some oh → elem oh (pin_ohs ps) ≡ true
unfolding get elem
elem-pin_ohs oh name [] e = ground arith
elem-pin_ohs oh name ((n, x) ∷ ps) e = ground (arith, eq_iff x oh, elem-pin_ohs oh name ps)

elem-live_protected :
    (clock : Reading → ℕ) (oh name : String) (ls : Table LeaseNode) (l : LeaseNode)
    (ohs : List String)
    → get name ls ≡ some l
    → has_json_extension name ≡ true
    → idle_past (clock (at_root name)) l.mtime lease_stale_after ≡ false
    → l.protects ≡ some ohs
    → elem oh ohs ≡ true
    → elem oh (live_protected_ohs clock ls) ≡ true
unfolding get live_protected_ohs
elem-live_protected clock oh name [] l ohs e j i q h = ground arith
elem-live_protected clock oh name ((n, x) ∷ ls) l ohs e j i q h = ground (
  arith,
  eq_iff n name,
  elem-append oh (protected_by clock n x) (live_protected_ohs clock ls),
  elem-live_protected clock oh name ls l ohs,
)

-- What the roots are computed from: they are there before the sweeps begin.
pub record Intact (m : Machine) (p : GcPolicy) (d : Disk) (s : Sweep) : Type 0 where
  pub same_entries : s.disk.entries ≡ d.entries
  pub same_roots : s.disk.roots ≡ d.roots
  pub same_pins : at_least p.level reset ≡ false → s.disk.pins ≡ d.pins
  pub live_leases :
      (name : String) (l : LeaseNode)
      → get name d.leases ≡ some l
      → idle_past (m.clock (at_lease name)) l.mtime lease_stale_after ≡ false
      → get name s.disk.leases ≡ some l

pub Intact-rooted :
    (m : Machine) (p : GcPolicy) (d : Disk) (s : Sweep) (oh : String)
    → Intact m p d s
    → IsRooted m p d oh
    → elem oh (rooted m s.disk) ≡ true
unfolding rooted
Intact-rooted m p d s oh h (by_generation project generation gs ohs e e' i) = ground (
  arith,
  elem-append oh (root_ohs s.disk.roots)
      (pin_ohs s.disk.pins ++ live_protected_ohs m.clock s.disk.leases),
  elem-root_ohs oh project s.disk.roots gs (ap (get project) h.same_roots ∙ e)
      (elem-generation_ohs oh generation gs ohs e' i),
)
Intact-rooted m p d s oh h (by_pin name e level) = ground (
  arith,
  elem-append oh (root_ohs s.disk.roots)
      (pin_ohs s.disk.pins ++ live_protected_ohs m.clock s.disk.leases),
  elem-append oh (pin_ohs s.disk.pins) (live_protected_ohs m.clock s.disk.leases),
  elem-pin_ohs oh name s.disk.pins (ap (get name) (h.same_pins level) ∙ e),
)
Intact-rooted m p d s oh h (by_lease name l ohs e j i i' q k) = ground (
  arith,
  elem-append oh (root_ohs s.disk.roots)
      (pin_ohs s.disk.pins ++ live_protected_ohs m.clock s.disk.leases),
  elem-append oh (pin_ohs s.disk.pins) (live_protected_ohs m.clock s.disk.leases),
  elem-live_protected m.clock oh name s.disk.leases l ohs (h.live_leases name l e i) j i' q k,
)

module _ (m : Machine) (p : GcPolicy) (d : Disk) where
  -- A round that touches none of the four directories.
  Intact-same :
      (s t : Sweep)
      → t.disk.entries ≡ s.disk.entries
      → t.disk.roots ≡ s.disk.roots
      → t.disk.pins ≡ s.disk.pins
      → t.disk.leases ≡ s.disk.leases
      → Intact m p d s
      → Intact m p d t
  Intact-same s t a b c e h = record {
    same_entries = a ∙ h.same_entries;
    same_roots = b ∙ h.same_roots;
    same_pins = λ level. c ∙ h.same_pins level;
    live_leases = λ name l f i. ap (get name) e ∙ h.live_leases name l f i;
  }

  clean_staging-Intact :
      (name : String) (s : Sweep) → Intact m p d s → Intact m p d (clean_staging m p name s)
  clean_staging-Intact name s h =
      unfold clean_staging in
      Intact-same s (clean_staging m p name s) (ground arith) (ground arith) (ground arith)
        (ground arith) h

  clean_intent-Intact :
      (name : String) (s : Sweep) → Intact m p d s → Intact m p d (clean_intent m p name s)
  clean_intent-Intact name s h =
      unfold clean_intent in
      Intact-same s (clean_intent m p name s) (ground arith) (ground arith) (ground arith)
        (ground arith) h

  clean_violation-Intact :
      (name : String) (s : Sweep) → Intact m p d s → Intact m p d (clean_violation m p name s)
  clean_violation-Intact name s h =
      unfold clean_violation in
      Intact-same s (clean_violation m p name s) (ground arith) (ground arith) (ground arith)
        (ground arith) h

  -- Only a stale lease goes.
  lease_stays :
      (name k : String) (s : Sweep) (l : LeaseNode)
      → get k s.disk.leases ≡ some l
      → idle_past (m.clock (at_lease k)) l.mtime lease_stale_after ≡ false
      → get k (clean_lease m p name s).disk.leases ≡ some l
  unfolding clean_lease
  lease_stays name k s l e i = ground (arith, get-remove k name s.disk.leases, eq_iff name k)

  clean_lease-Intact :
      (name : String) (s : Sweep) → Intact m p d s → Intact m p d (clean_lease m p name s)
  clean_lease-Intact name s h = record {
    same_entries = unfold clean_lease in ground (arith, h.same_entries);
    same_roots = unfold clean_lease in ground (arith, h.same_roots);
    same_pins = λ level. unfold clean_lease in ground (arith, h.same_pins level);
    live_leases = λ k l e i. lease_stays name k s l (h.live_leases k l e i) i;
  }

  clear_pin-Intact :
      at_least p.level reset ≡ true
      → (name : String) (s : Sweep) → Intact m p d s
      → Intact m p d (clear_pin p name s)
  clear_pin-Intact level name s h = record {
    same_entries = unfold clear_pin in ground (arith, h.same_entries);
    same_roots = unfold clear_pin in ground (arith, h.same_roots);
    same_pins = λ level'. absurd (ground (arith, level, level'));
    live_leases = λ k l e i. unfold clear_pin in ground (arith, h.live_leases k l e i);
  }

  no_reset : (s : Sweep) → at_least p.level reset ≡ false → reset_pins p s ≡ s
  unfolding reset_pins
  no_reset s e = rw e refl

  pub before_roots-Intact : Intact m p d (before_roots m p d)
  before_roots-Intact =
      let fresh : Sweep = record { disk = d; report = empty_report p.dry_run } in
      let start : Intact m p d fresh = record {
        same_entries = refl;
        same_roots = refl;
        same_pins = λ _. refl;
        live_leases = λ k l e i. e;
      } in
      let debris : Intact m p d (clean_debris m p fresh) =
        clean_debris-keeps m p (Intact m p d) fresh clean_staging-Intact clean_lease-Intact
          clean_intent-Intact clean_violation-Intact start in
      elim (Bool-cases (at_least p.level reset)) [
        | inl e ↦
            unfold before_roots in
            reset_pins-keeps m p (Intact m p d) (clean_debris m p fresh) (clear_pin-Intact e) debris
        | inr e ↦ unfold before_roots in rw (no_reset (clean_debris m p fresh) e) debris
      ]
