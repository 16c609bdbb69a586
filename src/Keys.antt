-- ===== src/Keys.antt =====
-- The input key and the environment of a job, and the outputs it has left out: `derive_key`, `build_env` and
-- `missing_declared_outputs` of `crates/ppg3-core/src/scheduler.rs`.
-- An object's fields stand in the order in which they are put; `canonicalize` sorts them. Messages of an
-- error are kept as the data that they are formatted from.
use Prim.Native.String.{◌++◌}
use ppg.Common.{
  ℕ, Bool, true, false, not, ◌&&◌, ◌||◌, Option, none, some, List, [], ◌∷◌, String, Result, success,
  failure, select, map, each,
}
use ppg.Table.{Table, get, insert, contains_key, keys}
use ppg.Job.{
  Json, text, unsigned, array, object, Items, nil, cons, Fields, end, field, InputRef, job,
  job_subset, leaf, file, JobDef,
}
use ppg.Canon.Utf8.{Bytes, CanonError}
use ppg.Canon.Canonicalize.{◌>>=◌, canonicalize, input_key}
use ppg.Scheduler.{CompletedInfo, ContentEntry}
use ppg.Argv.{strip_prefix}
pub mod Derived
pub mod Samples

-- `no_verdict` stands for a validator whose fuel does not suffice.
pub data KeyError : Type 0 where
  no_recorded_output : String → String → KeyError
  missing_file : String → String → String → String → KeyError
  no_canonical_form : String → CanonError → KeyError
  no_subset_form : CanonError → KeyError
  no_input_key : String → CanonError → KeyError
  no_verdict : KeyError

-- The fields of an object whose values are texts.
unfoldable pub text_fields : Table String → Fields
text_fields [] = end
text_fields ((k, v) ∷ m) = field k (text v) (text_fields m)

unfoldable pub text_items : List String → Items
text_items [] = nil
text_items (x ∷ xs) = cons (text x) (text_items xs)

abbrev pub key_version : ℕ
key_version = 1

abbrev pub find_parent : String → String → Option CompletedInfo → Result KeyError CompletedInfo
find_parent job_id id none = failure (no_recorded_output job_id id)
find_parent job_id id (some c) = success c

-- The files of a subset input, with the hash of each.
unfoldable pub subset_hashes :
    String
    → String
    → String
    → Table ContentEntry
    → List String
    → Table String
    → Result KeyError (Table String)
subset_hashes job_id name id content [] m = success m
subset_hashes job_id name id content (n ∷ names) m = elim (get n content) [
  | none ↦ failure (missing_file job_id name n id)
  | some e ↦ subset_hashes job_id name id content names (insert n e.blake3 m)
]

module _ (blake3_hex : Bytes → String) (to_vec : Json → Result String Bytes) where
  unfoldable pub canonical_bytes : (CanonError → KeyError) → Json → Result KeyError Bytes
  unfolding canonicalize
  canonical_bytes on_error doc = elim (canonicalize to_vec doc) [
    | success b ↦ success b
    | failure e ↦ failure (on_error e)
  ]

  -- What an input adds to the key document.
  unfoldable pub input_digest :
      String → Table CompletedInfo → String → InputRef → Result KeyError String
  unfolding subset_hashes canonical_bytes text_fields
  input_digest job_id completed name (leaf hash) = success hash
  input_digest job_id completed name (file hash source) = success hash
  input_digest job_id completed name (job id) =
      find_parent job_id id (get id completed) >>= λ c. success c.oh
  input_digest job_id completed name (job_subset id names) =
      find_parent job_id id (get id completed) >>= λ c.
      subset_hashes job_id name id c.content names [] >>= λ m.
      canonical_bytes no_subset_form (object (text_fields m)) >>= λ b. success (blake3_hex b)

  unfoldable pub input_digests :
      String → Table CompletedInfo → Table InputRef → Result KeyError (Table String)
  unfolding input_digest
  input_digests job_id completed [] = success []
  input_digests job_id completed ((name, r) ∷ inputs) =
      input_digest job_id completed name r >>= λ v.
      input_digests job_id completed inputs >>= λ m. success ((name, v) ∷ m)

  unfoldable pub key_document : JobDef → Table String → Json
  unfolding text_fields text_items
  key_document j inputs = object (
      field "ppg3_key_version" (unsigned key_version) (
        field "job_recipe" (text j.recipe) (
          field "inputs" (object (text_fields inputs)) (
            field "tools" (object (text_fields j.tools)) (
              field "runtime" j.runtime (
                field "env" (object (text_fields j.env))
                  (field "outputs_declared" (array (text_items j.outputs_declared)) end)))))))

  unfoldable pub key_of : String → Bytes → Result KeyError String
  unfolding input_key
  key_of job_id b = elim (input_key blake3_hex b) [
    | none ↦ failure no_verdict
    | some (success ik) ↦ success ik
    | some (failure e) ↦ failure (no_input_key job_id e)
  ]

  unfoldable pub derive_key : JobDef → Table CompletedInfo → Result KeyError (Json × String)
  unfolding input_digests key_document canonical_bytes key_of
  derive_key j completed = input_digests j.id completed j.inputs >>= λ inputs.
      canonical_bytes (no_canonical_form j.id) (key_document j inputs) >>= λ b.
      key_of j.id b >>= λ ik. success (key_document j inputs, ik)

-- `join(":")`
abbrev pub join_paths : List String → String
join_paths [] = ""
join_paths (p ∷ []) = p
join_paths (p ∷ q ∷ ps) = p ++ (":" ++ join_paths (q ∷ ps))

abbrev pub baseline_env : Table String → Table String
baseline_env tools = insert "SOURCE_DATE_EPOCH" "0" (
    insert "LC_ALL" "C.UTF-8" (
      insert "TZ" "UTC" (
        insert "TMPDIR" "/tmp" (
          insert "HOME" "/tmp" (
            insert "PATH" (join_paths (map (λ n. "/ppg/tools/" ++ (n ++ "/bin")) (keys tools)))
              [])))))

unfoldable pub insert_env : Table String → Table String → Table String
insert_env [] env = env
insert_env ((k, v) ∷ declared) env = insert_env declared (insert k v env)

unfoldable pub build_env : JobDef → Table String
unfolding insert_env
build_env j = insert_env j.env (baseline_env j.tools)

-- `k.starts_with(&prefix)` for the directory of a name.
abbrev pub is_below : String → String → Bool
is_below name k = elim (strip_prefix (name ++ "/") k) [ none ↦ false | some _ ↦ true ]

unfoldable pub any_below : String → List String → Bool
any_below name [] = false
any_below name (k ∷ ks) = is_below name k || any_below name ks

unfoldable pub missing_declared_outputs : JobDef → Table ContentEntry → List String
unfolding any_below
missing_declared_outputs j content =
    select (λ name. not (contains_key name content) && not (any_below name (keys content)))
      j.outputs_declared
