-- ===== src/Scheduler/Waking.antt =====
-- `complete_success` of `crates/ppg3-core/src/scheduler.rs`: a job that completes wakes the jobs that
-- waited for it alone.
use ppg.Common.{
  occurrences_cons, zero_or_pos, ℕ, zero, suc, ◌+◌, ◌≤◌, ◌≡◌, refl, ◌∙◌, true, false, Option, none,
  some, List, [], ◌∷◌, String, eq_iff, occurrences, arith, Bool-cases, Option-cases, ◌⊎◌, inl, inr,
  String-cases,
}
use ppg.Table.{Table, get, insert, get-insert}
use ppg.Scheduler.{
  State, Status, pending, is_pending, is_failed, is_waiting, mark_ready_if_pending, wake_child,
  wake_children,
}
use ppg.Scheduler.Tally.{unfinished, failures_among, tally-member}
use ppg.Scheduler.Invariant.{Base, Core, parents_of, NoOrphan}
use ppg.Scheduler.Marking.{Waits, WaitsBut, mark_ready-Core}

-- A job that waits has no parent that failed.
pub no_failures :
    (s : State) (c : String)
    → NoOrphan s
    → is_waiting (get c s.status) ≡ true
    → failures_among s.status (parents_of s.jobs c) ≡ 0
no_failures s c o w = elim (zero_or_pos (failures_among s.status (parents_of s.jobs c))) [
  | inl z ↦ z
  | inr pos ↦
      let (p, e, f) = tally-member is_failed s.status (parents_of s.jobs c) pos in
      absurd (ground (arith, o p c f e))
]

pending_eq : (o : Option Status) → is_pending o ≡ true → o ≡ some pending
pending_eq o h = ground arith

-- The counts of the other jobs do not see one job's turn.
WaitsBut-turn :
    (s : State) (c : String) (rest : List String) (left : ℕ)
    → ((k : String)
        → is_pending (get k s.status) ≡ true
        → failures_among s.status (parents_of s.jobs k) ≡ 0
        → Waits s (c ∷ rest) k)
    → WaitsBut (record s { remaining_parents = insert c left s.remaining_parents }) rest c
WaitsBut-turn s c rest left w k ne p f =
    let (count_of, pos) = w k p f in
    let same : occurrences k (c ∷ rest) ≡ occurrences k rest =
      ground (arith, occurrences_cons k c rest, eq_iff c k) in
    (ground (arith, get-insert k c left s.remaining_parents, eq_iff c k), omega arith)

-- A job that is not pending has its count lowered, and nothing else changes.
idle_turn :
    (s : State) (c : String)
    → is_pending (get c s.status) ≡ false
    → (left : ℕ)
    → mark_ready_if_pending (record s { remaining_parents = insert c left s.remaining_parents }) c
      ≡ record s { remaining_parents = insert c left s.remaining_parents }
unfolding mark_ready_if_pending
idle_turn s c e left = rw e

with_count-Base :
    (s : State) (extra : ℕ) (m : Table ℕ)
    → Base s extra
    → Base (record s { remaining_parents = m }) extra
with_count-Base s extra m h = record {
  same_ids = h.same_ids;
  distinct = h.distinct;
  wired = h.wired;
  started = h.started;
  queued = h.queued;
  terminal_count = h.terminal_count;
  running_count = h.running_count;
  total_count = h.total_count;
  reported = h.reported;
  detailed = h.detailed;
}

-- Where the job whose turn it is is not pending, the counts of the others are all there is.
WaitsBut-all :
    (s : State) (rest : List String) (c : String)
    → is_pending (get c s.status) ≡ false
    → WaitsBut s rest c
    → (k : String) → is_pending (get k s.status) ≡ true
    → failures_among s.status (parents_of s.jobs k) ≡ 0
    → Waits s rest k
WaitsBut-all s rest c e w k p f = elim (String-cases c k) [
  | inl same ↦ absurd (ground (arith, same.0))
  | inr other ↦ w k other.0 p f
]

abbrev counted : State → String → ℕ → State
counted s c left = record s { remaining_parents = insert c left s.remaining_parents }

wake_missing : (s : State) (c : String) → get c s.remaining_parents ≡ none → wake_child s c ≡ s
unfolding wake_child
wake_missing s c e = rw (e, wake_child)

wake_last :
    (s : State) (c : String) (rem : ℕ)
    → get c s.remaining_parents ≡ some rem
    → rem ≤ 1
    → wake_child s c ≡ mark_ready_if_pending (counted s c 0) c
unfolding wake_child
wake_last s c zero e h = rw (e, wake_child)
wake_last s c (suc zero) e h = rw (e, wake_child)
wake_last s c (suc (suc n)) e h = absurd (omega arith)

wake_lower :
    (s : State) (c : String) (n : ℕ)
    → get c s.remaining_parents ≡ some (suc (suc n))
    → wake_child s c ≡ counted s c (suc n)
unfolding wake_child
wake_lower s c n e = rw (e, wake_child) (ground arith)

-- A job that is not pending only has its count lowered, if it has one.
wake_idle :
    (s : State) (c : String)
    → is_pending (get c s.status) ≡ false
    → (wake_child s c ≡ s) ⊎ ((left : ℕ) × (wake_child s c ≡ counted s c left))
wake_idle s c idle = elim (Option-cases (get c s.remaining_parents)) [
  | inl miss ↦ inl (wake_missing s c miss)
  | inr (zero, e) ↦ inr (0, wake_last s c 0 e (omega arith) ∙ idle_turn s c idle 0)
  | inr (suc zero, e) ↦ inr (0, wake_last s c 1 e (omega arith) ∙ idle_turn s c idle 0)
  | inr (suc (suc n), e) ↦ inr (suc n, wake_lower s c n e)
]

idle_child-Core :
    (s : State) (c : String) (rest : List String) (extra : ℕ)
    → is_pending (get c s.status) ≡ false
    → Core s (c ∷ rest) extra
    → NoOrphan s
    → Core (wake_child s c) rest extra × NoOrphan (wake_child s c)
idle_child-Core s c rest extra idle h o = elim (wake_idle s c idle) [
  | inl e ↦ rw e (
    record {
      base = h.base;
      waits = WaitsBut-all s rest c idle λ k ne p f.
          let (count_of, pos) = h.waits k p f in
          (
            ground (arith, occurrences_cons k c rest, eq_iff c k),
            ground (arith, occurrences_cons k c rest, eq_iff c k),
          );
    },
    o,
  )
  | inr (left, e) ↦ rw e (
    record {
      base = with_count-Base s extra _ h.base;
      waits = WaitsBut-all (counted s c left) rest c idle (WaitsBut-turn s c rest left h.waits);
    },
    o,
  )
]

-- A pending job whose turn it is becomes ready, or waits on for the parents that are left.
pending_child-Core :
    (s : State) (c : String) (rest : List String) (extra n : ℕ)
    → is_pending (get c s.status) ≡ true
    → unfinished s.status (parents_of s.jobs c) + occurrences c rest ≡ n
    → get c s.remaining_parents ≡ some (suc n)
    → Core s (c ∷ rest) extra
    → NoOrphan s
    → Core (wake_child s c) rest extra × NoOrphan (wake_child s c)
pending_child-Core s c rest extra zero turn left e h o = rw (wake_last s c 1 e (omega arith)) (
    mark_ready-Core (counted s c 0) c rest extra (pending_eq _ turn) (omega (arith, left))
      (with_count-Base s extra _ h.base) (WaitsBut-turn s c rest 0 h.waits) o)
pending_child-Core s c rest extra (suc n) turn left e h o = rw (wake_lower s c n e) (
  record {
    base = with_count-Base s extra _ h.base;
    waits = λ k p f. elim (String-cases c k) [
      | inl same ↦ rw (← same.0) (
        ground (arith, get-insert c c (suc n) s.remaining_parents, eq_iff c c, left),
        omega (arith, left),
      )
      | inr other ↦ WaitsBut-turn s c rest (suc n) h.waits k other.0 p f
    ];
  },
  o,
)

-- One turn of the loop over the dependents.
pub wake_child-Core :
    (s : State) (c : String) (rest : List String) (extra : ℕ)
    → Core s (c ∷ rest) extra
    → NoOrphan s
    → Core (wake_child s c) rest extra × NoOrphan (wake_child s c)
wake_child-Core s c rest extra h o = elim (Bool-cases (is_pending (get c s.status))) [
  | inr idle ↦ idle_child-Core s c rest extra idle h o
  | inl turn ↦
      let (found, pos) = h.waits c turn (no_failures s c o (ground arith)) in
      pending_child-Core s c rest extra
        (unfinished s.status (parents_of s.jobs c) + occurrences c rest) turn refl
        (ground (arith, found, occurrences_cons c c rest, eq_iff c c)) h o
]

pub wake_children-Core :
    (cs : List String) (s : State) (extra : ℕ)
    → Core s cs extra
    → NoOrphan s
    → Core (wake_children cs s) [] extra × NoOrphan (wake_children cs s)
unfolding wake_children
wake_children-Core [] s extra h o = (h, o)
wake_children-Core (c ∷ cs) s extra h o =
    let (h', o') = wake_child-Core s c cs extra h o in wake_children-Core cs _ extra h' o'
