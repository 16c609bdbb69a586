-- ===== src/Scheduler/Cascade.antt =====
-- The cascade of `fail_job` (`crates/ppg3-core/src/scheduler.rs`): how a failure spreads to the jobs
-- that wait for it, and that the fuel is enough.
use ppg.Common.{
  ℕ, zero, suc, ◌+◌, ◌≤◌, ◌<◌, ◌≡◌, ◌≢◌, refl, sym, ap, subst, ◌∙◌, Bool, true, false, not, Option,
  none, some, List, [], ◌∷◌, String, ◌==◌, eq_iff, occurrences, bit, length, arith, if◌then◌else◌,
  Bool-cases, inl, inr, String-cases,
}
use ppg.Table.{Table, get}
use ppg.Table.Count.{count, count-insert, count-le-length}
use ppg.Job.{JobDef}
use ppg.Graph.{children}
use ppg.Scheduler.{
  State, Status, Reason, FailedJob, upstream_failed, pending, ready, running, done, failed,
  is_running, is_failed, is_terminal, is_waiting, set_failed, fail_children, fail_within, fail_job,
}
use ppg.Scheduler.Invariant.{Core, parents_of, counts, NoOrphan}
use ppg.Scheduler.Failing.{set_failed-Core, status_after}

abbrev pub is_live : Option Status → Bool
is_live o = not (is_terminal o)

-- A status is live or terminal.
pub count_split :
    (m : Table Status) → count (counts is_live) m + count (counts is_terminal) m ≡ length m
count_split [] = refl
count_split ((k, v) ∷ m) = ground (arith, count_split m)

-- How many jobs are neither done nor failed.
abbrev pub live : State → ℕ
live s = count (counts is_live) s.status

-- What failing jobs does to the rest: the graph stays, only jobs that wait change their status, and
-- no job waits for one that has failed on the way.
pub record Spreads (s t : State) : Type 0 where
  pub jobs : t.jobs ≡ s.jobs
  pub dependents : t.dependents ≡ s.dependents
  pub settled : (k : String) → is_waiting (get k s.status) ≡ false → get k t.status ≡ get k s.status
  pub fewer : live t ≤ live s
  pub closed :
      (p c : String)
      → is_failed (get p t.status) ≡ true
      → is_failed (get p s.status) ≡ false
      → 0 < occurrences p (parents_of s.jobs c)
      → is_waiting (get c t.status) ≡ false

pub Spreads-refl : (s : State) → Spreads s s
Spreads-refl s = record {
  jobs = refl;
  dependents = refl;
  settled = λ k h. refl;
  fewer = omega arith;
  closed = λ p c f g. absurd (ground arith);
}

parents_same :
    (jobs jobs' : Table JobDef) (c : String) → jobs' ≡ jobs → parents_of jobs' c ≡ parents_of jobs c
parents_same jobs jobs' c e = ap (λ m. parents_of m c) e

Spreads-trans : {s t u : State} → Spreads s t → Spreads t u → Spreads s u
Spreads-trans {s} {t} {u} a b = record {
  jobs = b.jobs ∙ a.jobs;
  dependents = b.dependents ∙ a.dependents;
  settled = λ k h. b.settled k (ground (arith, a.settled k h)) ∙ a.settled k h;
  fewer = omega (arith, a.fewer, b.fewer);
  closed = λ p c f g e. elim (Bool-cases (is_failed (get p t.status))) [
    | inl before ↦
        let settled_at : is_waiting (get c t.status) ≡ false = a.closed p c before g e in
        ap is_waiting (b.settled c settled_at) ∙ settled_at
    | inr later ↦ b.closed p c f later (rw (parents_same s.jobs t.jobs c a.jobs) e)
  ];
}

-- The jobs of a list no longer wait.
abbrev NoneWaits : List String → State → Type 0
NoneWaits cs t = (c : String) → 0 < occurrences c cs → is_waiting (get c t.status) ≡ false

abbrev Spread : List String → ℕ → State → State → Type 0
Spread rest extra s t = Core t rest extra × Spreads s t

module _ (rest : List String) (extra bound : ℕ) (fail : State → String → State)
    (one : (s : State) (c : String)
      → is_waiting (get c s.status) ≡ true
      → Core s rest extra
      → live s ≤ bound
      → Spread rest extra s (fail s c) × (is_waiting (get c (fail s c).status) ≡ false)) where
  child-Spread :
      (s : State) (c : String)
      → Core s rest extra
      → live s ≤ bound
      → let t : State = elim (is_waiting (get c s.status)) [ true ↦ fail s c | false ↦ s ] in
        Spread rest extra s t × (is_waiting (get c t.status) ≡ false)
  child-Spread s c h l = elim (Bool-cases (is_waiting (get c s.status))) [
    | inl w ↦ rw w (one s c w h l)
    | inr w ↦ rw w ((h, Spreads-refl s), w)
  ]

  children-Spread :
      (cs : List String) (s : State)
      → Core s rest extra
      → live s ≤ bound
      → Spread rest extra s (fail_children fail cs s) × NoneWaits cs (fail_children fail cs s)
  unfolding fail_children occurrences
  children-Spread [] s h l = ((h, Spreads-refl s), λ c o. absurd (omega arith))
  children-Spread (c ∷ cs) s h l =
      let ((h', sp), w) = child-Spread s c h l in
      let ((h'', sp'), ws) = children-Spread cs _ h' (omega (arith, sp.fewer)) in
      (
        (h'', Spreads-trans sp sp'),
        λ k o. elim (String-cases c k) [
          | inl same ↦ rw (← same.0) (ap is_waiting (sp'.settled c w) ∙ w)
          | inr other ↦ ws k (ground (arith, other.1))
        ],
      )

-- One failure: the mark, and then the cascade to the children.
abbrev pub Falls : List String → ℕ → State → String → State → Type 0
Falls rest extra s id t =
    Core t rest extra
    × (t.jobs ≡ s.jobs)
    × (t.dependents ≡ s.dependents)
    × (live t < live s)
    × (is_failed (get id t.status) ≡ true)
    × ((k : String)
        → k ≢ id
        → is_waiting (get k s.status) ≡ false
        → get k t.status ≡ get k s.status)
    × ((p c : String)
        → is_failed (get p t.status) ≡ true
        → is_failed (get p s.status) ≡ false
        → 0 < occurrences p (parents_of s.jobs c)
        → is_waiting (get c t.status) ≡ false)

live-set_failed :
    (s : State) (id : String) (reason : Reason) (detail : Option FailedJob) (v : Status)
    → get id s.status ≡ some v
    → is_terminal (some v) ≡ false
    → live (set_failed s id reason detail) + 1 ≡ live s
unfolding set_failed
live-set_failed s id reason detail v found l =
    ground (arith, found, l, count-insert (counts is_live) id failed s.status)

-- A live job is marked, and then its children are visited.
fail_within_live :
    (fuel : ℕ) (s : State) (id : String) (reason : Reason) (detail : Option FailedJob)
    → is_terminal (get id s.status) ≡ false
    → fail_within (suc fuel) s id reason detail
      ≡ fail_children
          (λ t c. fail_within fuel t c (upstream_failed id) none)
          (children id s.dependents)
          (set_failed s id reason detail)
unfolding fail_within
fail_within_live fuel s id reason detail e = rw (e, fail_within)

module _ (rest : List String) (extra : ℕ) where
  abbrev Within : ℕ → Type 0
  Within fuel =
      (s : State) (c : String) (reason : Reason) (detail : Option FailedJob)
      → is_waiting (get c s.status) ≡ true
      → Core s rest extra
      → live s < fuel
      → Spread rest extra s (fail_within fuel s c reason detail)
        × (is_waiting (get c (fail_within fuel s c reason detail).status) ≡ false)

  fail-Falls :
      (fuel : ℕ) (within : Within fuel) (s : State) (id : String) (reason : Reason)
      (detail : Option FailedJob) (v : Status)
      → get id s.status ≡ some v
      → is_terminal (some v) ≡ false
      → Core s rest (bit (is_running (some v)) + extra)
      → live s ≤ fuel
      → Falls rest extra s id (fail_within (suc fuel) s id reason detail)
  unfolding set_failed
  fail-Falls fuel within s id reason detail v found l h lt =
      let s' : State = set_failed s id reason detail in
      let h' : Core s' rest extra = set_failed-Core s id reason detail v found l rest extra h in
      let down : live s' + 1 ≡ live s = live-set_failed s id reason detail v found l in
      let ((core, sp), none_waits) =
        children-Spread rest extra (live s') (λ t c. fail_within fuel t c (upstream_failed id) none)
          (λ t c w k lt'. within t c (upstream_failed id) none w k (omega (arith, down, lt', lt)))
          (children id s.dependents) s' h' (omega arith) in
      let status' : (k : String)
          → get k s'.status ≡ (if id == k then some failed else get k s.status) =
        λ k. status_after s id reason detail v found l k in
      let id_failed = sp.settled id (ground (arith, status' id, eq_iff id id)) in
      rw (fail_within_live fuel s id reason detail (ground (arith, found, l))) (
        core,
        sp.jobs,
        sp.dependents,
        omega (arith, sp.fewer, down),
        ground (arith, id_failed, status' id, eq_iff id id),
        (λ k ne w.
            sp.settled k (ground (arith, status' k, eq_iff id k))
            ∙ (ground (arith, status' k, eq_iff id k))),
        (λ p c f g e. elim (String-cases id p) [
          | inl same ↦ none_waits c (ground (arith, h.wired p c, same.0))
          | inr other ↦ sp.closed p c f (ground (arith, status' p, other.1)) e
        ]),
      )

  waiting_status :
      (o : Option Status)
      → is_waiting o ≡ true
      → (v : Status) × (o ≡ some v) × (is_terminal (some v) ≡ false) × (is_running (some v) ≡ false)
  waiting_status (some pending) w = (pending, refl, refl, refl)
  waiting_status (some ready) w = (ready, refl, refl, refl)
  waiting_status (some running) w = absurd (ground arith)
  waiting_status (some done) w = absurd (ground arith)
  waiting_status (some failed) w = absurd (ground arith)
  waiting_status none w = absurd (ground arith)

  -- A waiting job fails within as much fuel as there are live jobs.
  within : (fuel : ℕ) → Within fuel
  within zero s c reason detail w h lt = absurd (omega arith)
  within (suc fuel) s c reason detail w h lt =
      let (v, found, l, idle) = waiting_status (get c s.status) w in
      let h' : Core s rest (bit (is_running (some v)) + extra) =
        subst (λ e. Core s rest e) (ground (arith, idle)) h in
      let (core, jobs, deps, down, gone, kept, closed) =
        fail-Falls fuel (within fuel) s c reason detail v found l h' (omega (arith, lt)) in
      let not_waiting : is_waiting (get c (fail_within (suc fuel) s c reason detail).status)
          ≡ false =
        ground (arith, gone) in
      (
        (
          core,
          record {
            jobs = jobs;
            dependents = deps;
            settled = λ k e. kept k (λ p. ground (arith, p, w)) e;
            fewer = omega (arith, down);
            closed = closed;
          },
        ),
        not_waiting,
      )

  -- `fail_job` of a live job, with the fuel that it takes.
  pub fail_job-Falls :
      (s : State) (id : String) (reason : Reason) (detail : Option FailedJob) (v : Status)
      → get id s.status ≡ some v
      → is_terminal (some v) ≡ false
      → Core s rest (bit (is_running (some v)) + extra)
      → Falls rest extra s id (fail_job s id reason detail)
  unfolding fail_job
  fail_job-Falls s id reason detail v found l h =
      fail-Falls (length s.status) (within (length s.status)) s id reason detail v found l h
        (count-le-length (counts is_live) s.status)

-- After a failure no job waits for a failed parent, if before it at most the failing job did.
pub Falls-NoOrphan :
    (rest : List String) (extra : ℕ) (s : State) (id : String) (t : State)
    → Falls rest extra s id t
    → ((p c : String)
        → id ≢ c
        → is_failed (get p s.status) ≡ true
        → 0 < occurrences p (parents_of s.jobs c)
        → is_waiting (get c s.status) ≡ false)
    → NoOrphan t
Falls-NoOrphan rest extra s id t (core, jobs, deps, down, gone, kept, closed) o p c f e =
    let edge : 0 < occurrences p (parents_of s.jobs c) =
      rw (sym (parents_same s.jobs t.jobs c jobs)) e in
    elim (String-cases id c) [
      | inl same ↦ rw (← same.0) (ground (arith, gone))
      | inr other ↦ elim (Bool-cases (is_failed (get p s.status))) [
        | inr later ↦ closed p c f later edge
        | inl before ↦
            let settled_at : is_waiting (get c s.status) ≡ false = o p c other.0 before edge in
            ap is_waiting (kept c (λ q. other.0 (sym q)) settled_at) ∙ settled_at
      ]
    ]
