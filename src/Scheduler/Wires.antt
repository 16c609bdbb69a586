-- ===== src/Scheduler/Wires.antt =====
-- The loop over the parents in `insert_job` of `crates/ppg3-core/src/scheduler.rs`: what it counts and
-- what it links.
use ppg.Common.{
  occurrences-append, ◌+◌, ◌≡◌, Bool, true, false, ◌||◌, Option, none, some, List, [], ◌∷◌, ◌++◌,
  String, ◌==◌, eq_iff, occurrences, arith, if◌then◌else◌, ltb,
}
use ppg.Table.{Table, get-insert}
use ppg.Graph.{children}
use ppg.Scheduler.{Status, is_failed, Wiring, wire_parent, wire_parents}
use ppg.Scheduler.Tally.{tally, unfinished, failures_among}
use ppg.Scheduler.Cascade.{is_live}

abbrev pub is_some : Option String → Bool
is_some none = false
is_some (some _) = true

-- What the loop over the parents has found and written.
pub record Wired (status : Table Status) (id : String) (ps : List String) (w w' : Wiring)
    : Type 0 where
  pub counted : w'.remaining ≡ w.remaining + tally is_live status ps
  pub failing :
      is_some w'.failed_parent ≡ (is_some w.failed_parent || ltb 0 (failures_among status ps))
  pub linked :
      (p c : String)
      → occurrences c (children p w'.dependents)
        ≡ occurrences c (children p w.dependents) + (if id == c then occurrences p ps else 0)

wire_parent-Wired :
    (status : Table Status) (id p : String) (w : Wiring)
    → Wired status id (p ∷ []) w (wire_parent status id w p)
unfolding wire_parent tally occurrences
wire_parent-Wired status id p w = record {
  counted = ground arith;
  failing = ground arith;
  linked = λ q c. ground (
    arith,
    get-insert q p (children p w.dependents ++ id ∷ []) w.dependents,
    occurrences-append c (children p w.dependents) (id ∷ []),
    eq_iff p q,
    eq_iff id c,
  );
}

tally_cons :
    (f : Option Status → Bool) (m : Table Status) (p : String) (ps : List String)
    → tally f m (p ∷ ps) ≡ tally f m (p ∷ []) + tally f m ps
unfolding tally
tally_cons f m p ps = omega arith

occurrences_cons :
    (k p : String) (ps : List String)
    → occurrences k (p ∷ ps) ≡ occurrences k (p ∷ []) + occurrences k ps
unfolding occurrences
occurrences_cons k p ps = omega arith

pub wire_parents-Wired :
    (status : Table Status) (id : String) (ps : List String) (w : Wiring)
    → Wired status id ps w (wire_parents status id ps w)
unfolding wire_parents
wire_parents-Wired status id [] w =
    unfold tally occurrences in
    record { counted = omega arith; failing = ground arith; linked = λ p c. ground arith }
wire_parents-Wired status id (p ∷ ps) w =
    let a = wire_parent-Wired status id p w in
    let b = wire_parents-Wired status id ps (wire_parent status id w p) in
    record {
      counted = omega (arith, a.counted, b.counted, tally_cons is_live status p ps);
      failing = ground (arith, a.failing, b.failing, tally_cons is_failed status p ps);
      linked = λ q c. ground (arith, a.linked q c, b.linked q c, occurrences_cons q p ps);
    }

-- A parent that is not done is live or has failed.
pub unfinished_split :
    (m : Table Status) (ps : List String)
    → unfinished m ps ≡ tally is_live m ps + failures_among m ps
unfolding tally
unfinished_split m [] = omega arith
unfinished_split m (p ∷ ps) = ground (arith, unfinished_split m ps)
