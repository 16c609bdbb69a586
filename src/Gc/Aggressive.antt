-- ===== src/Gc/Aggressive.antt =====
-- What a run of `crates/ppg3-core/src/gc.rs` leaves at the levels that sweep every unrooted entry.
use ppg.Common.{
  ◌≡◌, sym, ap, ◌∙◌, Bool, true, false, not, ◌&&◌, none, some, List, [], ◌∷◌, String, ◌==◌, elem,
  elem-sort_by, elem-select, arith, Bool-cases, inl, inr, sort_by, each, each-keeps,
}
use ppg.Table.{Table, get, get-remove, keys, contains_key, elem-keys}
use ppg.Disk.{Disk, Entry}
use ppg.Gc.{
  GcPolicy, GcLevel, failed_only, minimal, default, aggressive, reset, at_least, Machine, Sweep,
}
use ppg.Gc.Entries.{rooted, sweep_entry, text_le}
use ppg.Gc.Phases.{sweep_orphan_logs-keeps}
use ppg.Gc.Kept.{sweep_entry-entries, orphan_entries}
use ppg.Gc.Run.{
  before_roots, sweep_dangling, unrooted, marked_of, sweep_marked, sweep_by_level, sweep_entries,
  measure, run,
}

module _ (m : Machine) (p : GcPolicy) (wet : p.dry_run ≡ false) (oh : String) where
  abbrev Gone : Sweep → Type 0
  Gone s = get oh s.disk.entries ≡ none

  sweep_entry-Gone : (x : String) (s : Sweep) → Gone s → Gone (sweep_entry p x s)
  sweep_entry-Gone x s h =
      ground (arith, wet, sweep_entry-entries p x s, get-remove oh x s.disk.entries)

  sweeps_Gone : (xs : List String) (s : Sweep) → Gone s → Gone (each (sweep_entry p) xs s)
  sweeps_Gone xs s h = each-keeps Gone (sweep_entry p) xs s sweep_entry-Gone h

  -- A sweep of a list removes what the list has.
  listed_Gone :
      (xs : List String) (s : Sweep) → elem oh xs ≡ true → Gone (each (sweep_entry p) xs s)
  unfolding elem
  listed_Gone [] s h = ground arith
  listed_Gone (x ∷ xs) s h = elim (Bool-cases (x == oh)) [
    | inl e ↦
        sweeps_Gone xs (sweep_entry p x s)
          (ground (arith, wet, e, sweep_entry-entries p x s, get-remove oh x s.disk.entries))
    | inr e ↦ listed_Gone xs (sweep_entry p x s) (ground arith)
  ]

  by_level_Gone :
      (level : GcLevel) (xs : List String) (s : Sweep)
      → at_least level aggressive ≡ true
      → elem oh xs ≡ true
      → Gone (sweep_by_level m p level xs s)
  unfolding sweep_by_level
  by_level_Gone failed_only xs s l h = ground arith
  by_level_Gone minimal xs s l h = ground arith
  by_level_Gone default xs s l h = ground arith
  by_level_Gone aggressive xs s l h =
      listed_Gone (sort_by text_le xs) s (elem-sort_by text_le oh xs ∙ h)
  by_level_Gone reset xs s l h = listed_Gone (sort_by text_le xs) s (elem-sort_by text_le oh xs ∙ h)

  level_keeps_Gone :
      (level : GcLevel) (xs : List String) (s : Sweep)
      → at_least level aggressive ≡ true
      → Gone s
      → Gone (sweep_by_level m p level xs s)
  unfolding sweep_by_level
  level_keeps_Gone failed_only xs s l h = ground arith
  level_keeps_Gone minimal xs s l h = ground arith
  level_keeps_Gone default xs s l h = ground arith
  level_keeps_Gone aggressive xs s l h = sweeps_Gone (sort_by text_le xs) s h
  level_keeps_Gone reset xs s l h = sweeps_Gone (sort_by text_le xs) s h

  entries_keep_Gone :
      (candidates : List String) (s : Sweep)
      → at_least p.level aggressive ≡ true
      → Gone s
      → Gone (sweep_entries m p candidates s)
  unfolding sweep_entries sweep_marked
  entries_keep_Gone candidates s l g =
      level_keeps_Gone p.level _ (each (sweep_entry p) (marked_of p candidates s.disk) s) l
        (sweeps_Gone (marked_of p candidates s.disk) s g)

  candidate_Gone :
      (candidates : List String) (s : Sweep)
      → at_least p.level aggressive ≡ true
      → elem oh candidates ≡ true
      → Gone (sweep_entries m p candidates s)
  unfolding sweep_entries sweep_marked
  candidate_Gone candidates s l h =
      let marked = marked_of p candidates s.disk in
      elim (Bool-cases (elem oh marked)) [
        | inl e ↦
            level_keeps_Gone p.level _ (each (sweep_entry p) marked s) l (listed_Gone marked s e)
        | inr e ↦
            by_level_Gone p.level _ (each (sweep_entry p) marked s) l
              (elem-select (λ x. not (elem x marked)) oh candidates ∙ (ground arith))
      ]

some-none : {e : Entry} {b : Bool} → some e ≡ none → b ≡ true
some-none h = ground arith

unlisted : (r b : Bool) → (not r && b) ≡ false → r ≡ false → b ≡ false
unlisted r b h e = ground arith

not_held : (oh : String) (t : Table Entry) → contains_key oh t ≡ false → get oh t ≡ none
unfolding contains_key
not_held oh t h = ground arith

-- After a run that is not dry, at a level that sweeps every unrooted entry, only entries are left that
-- are rooted once the debris and, at the last level, the pins have gone.
pub aggressive_leaves_rooted :
    (m : Machine) (p : GcPolicy) (d : Disk) (oh : String) (e : Entry)
    → p.dry_run ≡ false
    → at_least p.level aggressive ≡ true
    → get oh (run m p d).disk.entries ≡ some e
    → elem oh (rooted m (before_roots m p d).disk) ≡ true
unfolding unrooted
aggressive_leaves_rooted m p d oh e wet l there =
    let s = before_roots m p d in
    let t = sweep_dangling p s in
    let roots = rooted m s.disk in
    let candidates = unrooted roots t.disk in
    let listed : elem oh candidates ≡ (not (elem oh roots) && contains_key oh t.disk.entries) =
      elem-select (λ x. not (elem x roots)) oh (keys t.disk.entries)
      ∙ ap (λ (b : Bool). not (elem oh roots) && b) (elem-keys oh t.disk.entries) in
    let swept : Gone m p wet oh (sweep_entries m p candidates t)
        → get oh (run m p d).disk.entries ≡ none =
      λ g.
        unfold run measure in
        sweep_orphan_logs-keeps m p (Gone m p wet oh) (sweep_entries m p candidates t)
          (λ name v h. ap (get oh) (orphan_entries m p name v) ∙ h) g in
    elim (Bool-cases (elem oh roots)) [
      | inl r ↦ r
      | inr r ↦ elim (Bool-cases (elem oh candidates)) [
        | inl c ↦ some-none (sym there ∙ swept (candidate_Gone m p wet oh candidates t l c))
        | inr c ↦ some-none (
            sym there
            ∙ swept (
                entries_keep_Gone m p wet oh candidates t l
                  (not_held oh t.disk.entries (unlisted (elem oh roots) _ (sym listed ∙ c) r))))
      ]
    ]
