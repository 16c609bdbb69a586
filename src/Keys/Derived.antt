-- ===== src/Keys/Derived.antt =====
-- What the input key of a job and its environment depend on: `derive_key` and `build_env` of
-- `crates/ppg3-core/src/scheduler.rs`.
use Prim.Native.String.{◌++◌}
use ppg.Common.{
  ◌∙◌, ◌==◌, map, if◌then◌else◌, ℕ, Bool, true, Option, none, some, List, [], ◌∷◌, ◌≡◌, ◌≢◌, refl,
  ap, subst, ◌⊎◌, String, elem, Result, success, failure, All, arith, inl, inr, String-cases,
  Option-cases,
}
use ppg.Table.{Table, keys, get, insert, get-insert, DistinctKeys, get_absent, IsAbsent}
use ppg.Job.{
  Json, InputRef, job, job_subset, leaf, file, ExecTemplate, Retain, JobDef, parent_id, prepend,
  input_parents, parent_ids,
}
use ppg.Scheduler.{CompletedInfo}
use ppg.Canon.Utf8.{Bytes}
use ppg.Canon.Canonicalize.{◌>>=◌}
use ppg.Keys.{
  input_digest, input_digests, key_document, derive_key, insert_env, join_paths, baseline_env,
  build_env,
}

insert_env-get :
    (k : String) (declared env : Table String)
    → DistinctKeys declared
    → get k (insert_env declared env) ≡ elim (get k declared) [ none ↦ get k env | some v ↦ some v ]
unfolding insert_env get
insert_env-get k [] env d = refl
insert_env-get k ((j, v) ∷ m) env d = elim (String-cases j k) [
  | inl e ↦
      rw
        (
          insert_env-get k m (insert j v env) d.1,
          get_absent k m (subst (λ x. IsAbsent x m) e.0 d.0),
          get-insert k j v env,
          e.1,
        )
        refl
  | inr e ↦ rw (insert_env-get k m (insert j v env) d.1) (elim (Option-cases (get k m)) [
    | inl n ↦ rw (n, e.1) (rw (get-insert k j v env, e.1) refl)
    | inr (w, n) ↦ rw (n, e.1) refl
  ])
]

-- With the files that a job mounts given by their content alone.
unfoldable pub hashes_only : Table InputRef → Table InputRef
hashes_only [] = []
hashes_only ((name, file hash source) ∷ inputs) = (name, leaf hash) ∷ hashes_only inputs
hashes_only ((name, job id) ∷ inputs) = (name, job id) ∷ hashes_only inputs
hashes_only ((name, job_subset id names) ∷ inputs) =
    (name, job_subset id names) ∷ hashes_only inputs
hashes_only ((name, leaf hash) ∷ inputs) = (name, leaf hash) ∷ hashes_only inputs

-- No result.
unfoldable Fails {ℓ κ} : {E : Type κ} {A : Type ℓ} → Result E A → Type (ℓ ⊔ κ)
Fails {A = A} x = (a : A) → x ≢ success a

Fails->>= {ℓ ℓ' κ} :
    {E : Type κ} {A : Type ℓ} {B : Type ℓ'} (x : Result E A) (k : A → Result E B)
    → Fails x
    → Fails (x >>= k)
unfolding Fails
Fails->>= (success a) k h b e = absurd (h a refl)
Fails->>= (failure x) k h b e = ground (arith, e)

Fails-next {ℓ ℓ' κ} :
    {E : Type κ} {A : Type ℓ} {B : Type ℓ'} (x : Result E A) (k : A → Result E B)
    → ((a : A) → Fails (k a))
    → Fails (x >>= k)
unfolding Fails
Fails-next (success a) k h b e = h a b e
Fails-next (failure x) k h b e = ground (arith, e)

named_first :
    (p : String) (o : Option String) (ids : List String)
    → elem p (prepend o ids) ≡ true
    → (o ≡ some p) ⊎ (elem p ids ≡ true)
unfolding elem
named_first p none ids e = inr e
named_first p (some q) ids e = elim (String-cases q p) [
  | inl h ↦ inl (ap some h.0)
  | inr h ↦ inr (ground (arith, e, h.1))
]

module _ (blake3_hex : Bytes → String) (to_vec : Json → Result String Bytes) where
  -- The digests read the outputs of the parents alone, and of a file its hash.
  input_digests-hashes_only :
      (id : String) (c d : Table CompletedInfo) (inputs : Table InputRef)
      → All (λ p. get p c ≡ get p d) (input_parents inputs)
      → input_digests blake3_hex to_vec id d (hashes_only inputs)
        ≡ input_digests blake3_hex to_vec id c inputs
  unfolding input_digests input_digest hashes_only input_parents
  input_digests-hashes_only id c d [] h = refl
  input_digests-hashes_only id c d ((name, file hash source) ∷ inputs) h =
      rw (input_digests-hashes_only id c d inputs h) refl
  input_digests-hashes_only id c d ((name, leaf hash) ∷ inputs) h =
      rw (input_digests-hashes_only id c d inputs h) refl
  input_digests-hashes_only id c d ((name, job p) ∷ inputs) h =
      rw (h.0, input_digests-hashes_only id c d inputs h.1) refl
  input_digests-hashes_only id c d ((name, job_subset p names) ∷ inputs) h =
      rw (h.0, input_digests-hashes_only id c d inputs h.1) refl

  digest-Fails :
      (id p name : String) (c : Table CompletedInfo) (r : InputRef)
      → parent_id r ≡ some p
      → get p c ≡ none
      → Fails (input_digest blake3_hex to_vec id c name r)
  unfolding input_digest Fails
  digest-Fails id p name c (job q) e n =
      let h : q ≡ p = ground (arith, e) in rw (h, n) (λ a x. ground (arith, x))
  digest-Fails id p name c (job_subset q names) e n =
      let h : q ≡ p = ground (arith, e) in rw (h, n) (λ a x. ground (arith, x))
  digest-Fails id p name c (leaf hash) e n = ground (arith, e)
  digest-Fails id p name c (file hash source) e n = ground (arith, e)

  digests-Fails :
      (id p : String) (c : Table CompletedInfo) (inputs : Table InputRef)
      → elem p (input_parents inputs) ≡ true
      → get p c ≡ none
      → Fails (input_digests blake3_hex to_vec id c inputs)
  unfolding input_digests input_parents elem
  digests-Fails id p c [] e n = ground (arith, e)
  digests-Fails id p c ((name, r) ∷ inputs) e n =
      elim (named_first p (parent_id r) (input_parents inputs) e) [
        | inl h ↦
            Fails->>= (input_digest blake3_hex to_vec id c name r) _
              (digest-Fails id p name c r h n)
        | inr h ↦ Fails-next (input_digest blake3_hex to_vec id c name r) _ λ v.
            Fails->>= (input_digests blake3_hex to_vec id c inputs) _
              (digests-Fails id p c inputs h n)
      ]

  -- The key document and the input key of a job do not depend on where its mounted files lie, on what is
  -- recorded of jobs other than its parents, or on its resources, store, retention, view, pin, kind and
  -- command.
  pub derive_key-hashes_only :
      (j : JobDef) (c d : Table CompletedInfo) (resources : Table ℕ) (store_target : Option String)
      (retain : Retain) (exec_template : ExecTemplate) (view : Table String)
      (fixed_output : Option String) (graph_job : Bool)
      → All (λ p. get p c ≡ get p d) (parent_ids j)
      → derive_key blake3_hex to_vec
          (record j {
            inputs = hashes_only j.inputs;
            resources = resources;
            store_target = store_target;
            retain = retain;
            exec_template = exec_template;
            view = view;
            fixed_output = fixed_output;
            graph_job = graph_job;
          })
          d
        ≡ derive_key blake3_hex to_vec j c
  unfolding derive_key parent_ids key_document
  derive_key-hashes_only j c d resources store_target retain exec_template view fixed_output
        graph_job h =
      rw (input_digests-hashes_only j.id c d j.inputs h) refl

  -- A job with a parent of which no output is recorded gets no key.
  pub derive_key-Fails :
      (j : JobDef) (p : String) (c : Table CompletedInfo)
      → elem p (parent_ids j) ≡ true
      → get p c ≡ none
      → (key : Json × String) → derive_key blake3_hex to_vec j c ≢ success key
  unfolding derive_key parent_ids Fails
  derive_key-Fails j p c e n =
      Fails->>= (input_digests blake3_hex to_vec j.id c j.inputs) _
        (digests-Fails j.id p c j.inputs e n)

-- The `bin` directories of the tools, with colons between them.
abbrev pub search_path : Table String → String
search_path [] = ""
search_path ((name, hash) ∷ []) = "/ppg/tools/" ++ (name ++ "/bin")
search_path ((name, hash) ∷ t ∷ tools) =
    ("/ppg/tools/" ++ (name ++ "/bin")) ++ (":" ++ search_path (t ∷ tools))

-- What a job sees that declares nothing.
abbrev pub standard_value : Table String → String → Option String
standard_value tools k =
    if "PATH" == k
    then some (search_path tools)
    else if "HOME" == k
    then some "/tmp"
    else if "TMPDIR" == k
    then some "/tmp"
    else if "TZ" == k
    then some "UTC"
    else if "LC_ALL" == k
    then some "C.UTF-8"
    else if "SOURCE_DATE_EPOCH" == k
    then some "0"
    else none

join_paths-keys :
    (tools : Table String)
    → join_paths (map (λ n. "/ppg/tools/" ++ (n ++ "/bin")) (keys tools)) ≡ search_path tools
join_paths-keys [] = refl
join_paths-keys ((name, hash) ∷ []) = refl
join_paths-keys ((name, hash) ∷ t ∷ tools) =
    ap (λ rest. ("/ppg/tools/" ++ (name ++ "/bin")) ++ (":" ++ rest)) (join_paths-keys (t ∷ tools))

baseline_env-get :
    (k : String) (tools : Table String) → get k (baseline_env tools) ≡ standard_value tools k
unfolding get insert
baseline_env-get k tools = rw (join_paths-keys tools) refl

-- Where the names of the declared environment are distinct, a job's environment holds what the job
-- declares; of the names that it does not declare, PATH has the tools' directories, HOME and TMPDIR
-- are /tmp, TZ is UTC, LC_ALL is C.UTF-8, SOURCE_DATE_EPOCH is 0, and no other is set.
pub build_env-get :
    (j : JobDef) (k : String)
    → DistinctKeys j.env
    → get k (build_env j) ≡ elim (get k j.env) [ none ↦ standard_value j.tools k | some v ↦ some v ]
unfolding build_env
build_env-get j k d =
    insert_env-get k j.env (baseline_env j.tools) d
    ∙ ap (λ (o : Option String). elim (get k j.env) [ none ↦ o | some v ↦ some v ])
        (baseline_env-get k j.tools)
