-- ===== src/Scheduler/Tally.antt =====
-- How many parents in a list have a status of some kind, and how a change of one status moves that
-- number (`crates/ppg3-core/src/scheduler.rs`).
use ppg.Common.{
  ℕ, ◌+◌, ◌<◌, ◌≡◌, refl, Bool, true, false, not, Option, some, List, [], ◌∷◌, String, eq_iff,
  arith, bit, occurrences, Bool-cases, inl, inr,
}
use ppg.Table.{Table, get, insert, get-insert}
use ppg.Scheduler.{Status, is_done, is_failed}

unfoldable pub tally : (Option Status → Bool) → Table Status → List String → ℕ
tally f m [] = 0
tally f m (p ∷ ps) = bit (f (get p m)) + tally f m ps

abbrev pub not_done : Option Status → Bool
not_done o = not (is_done o)

-- Parents that are not done, and parents that have failed.
abbrev pub unfinished : Table Status → List String → ℕ
unfinished = tally not_done

abbrev pub failures_among : Table Status → List String → ℕ
failures_among = tally is_failed

module _ (f : Option Status → Bool) (k : String) (v : Status) (m : Table Status) where
  pub tally-insert_same :
      (ps : List String) → f (get k m) ≡ f (some v) → tally f (insert k v m) ps ≡ tally f m ps
  unfolding tally
  tally-insert_same [] e = refl
  tally-insert_same (p ∷ ps) e =
      ground (arith, tally-insert_same ps e, get-insert p k v m, eq_iff k p)

  pub tally-insert_drop :
      (ps : List String)
      → f (get k m) ≡ true
      → f (some v) ≡ false
      → tally f m ps ≡ tally f (insert k v m) ps + occurrences k ps
  unfolding tally occurrences
  tally-insert_drop [] e e' = refl
  tally-insert_drop (p ∷ ps) e e' =
      ground (arith, tally-insert_drop ps e e', get-insert p k v m, eq_iff k p, eq_iff p k)

  pub tally-insert_raise :
      (ps : List String)
      → f (get k m) ≡ false
      → f (some v) ≡ true
      → tally f (insert k v m) ps ≡ tally f m ps + occurrences k ps
  unfolding tally occurrences
  tally-insert_raise [] e e' = refl
  tally-insert_raise (p ∷ ps) e e' =
      ground (arith, tally-insert_raise ps e e', get-insert p k v m, eq_iff k p, eq_iff p k)

-- A parent of the kind is counted.
pub tally-pos :
    (f : Option Status → Bool) (m : Table Status) (p : String) (ps : List String)
    → 0 < occurrences p ps
    → f (get p m) ≡ true
    → 0 < tally f m ps
unfolding tally occurrences
tally-pos f m p [] h e = absurd (omega arith)
tally-pos f m p (q ∷ ps) h e = ground (arith, tally-pos f m p ps, eq_iff q p)

-- A positive count has a parent that is counted.
pub tally-member :
    (f : Option Status → Bool) (m : Table Status) (ps : List String)
    → 0 < tally f m ps
    → (p : String) × (0 < occurrences p ps) × (f (get p m) ≡ true)
unfolding tally occurrences
tally-member f m [] h = absurd (omega arith)
tally-member f m (q ∷ ps) h = elim (Bool-cases (f (get q m))) [
  | inl here ↦ (q, ground (arith, eq_iff q q), here)
  | inr there ↦ let (p, l, e) = tally-member f m ps (ground arith) in (p, omega (arith, l), e)
]
