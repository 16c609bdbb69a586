-- ===== src/Keys/Samples.antt =====
-- A job with its key and its environment.
use ppg.Common.{
  true, false, none, some, [], ◌∷◌, ◌≡◌, ◌≢◌, refl, String, Result, success, failure, elem, All,
}
use ppg.Table.{Table, insert, get, contains_key}
use ppg.Argv.{strip_prefix}
use ppg.Job.{
  Json, null, job, job_subset, file, argv, in_process, default, evict, JobDef, parent_ids,
}
use ppg.Canon.Utf8.{Bytes}
use ppg.Scheduler.{CompletedInfo, ContentEntry}
use ppg.Keys.{no_recorded_output, derive_key, build_env, missing_declared_outputs}
use ppg.Keys.Derived.{hashes_only, derive_key-hashes_only, derive_key-Fails, build_env-get}

abbrev merge : JobDef
merge = record {
  id = "merge";
  recipe = "cat";
  inputs =
      ("left", job "split")
      ∷ ("part", job_subset "split" ("a" ∷ []))
      ∷ ("table", file "f00d" "/data/table")
      ∷ [];
  tools = ("cat", "/store/cat") ∷ [];
  runtime = null;
  env = ("TZ", "CET") ∷ [];
  outputs_declared = "out" ∷ "logs" ∷ [];
  resources = [];
  store_target = none;
  retain = default;
  exec_template = argv [] false;
  view = [];
  fixed_output = none;
  graph_job = false;
}

abbrev entry : String → ContentEntry
entry hash = record { blake3 = hash; mode = "0644"; size = 1 }

abbrev parent : CompletedInfo
parent = record { oh = "aa"; content = ("a", entry "a1") ∷ ("b", entry "b1") ∷ []; store_idx = 0 }

abbrev after_split : Table CompletedInfo
after_split = ("split", parent) ∷ []

abbrev after_both : Table CompletedInfo
after_both = ("other", parent) ∷ ("split", parent) ∷ []

abbrev hash : Bytes → String
hash b = "hash"

-- An object without fields.
abbrev to_vec : Json → Result String Bytes
to_vec doc = success (b'{' ∷ b'}' ∷ [])

no_parent : derive_key hash to_vec merge [] ≡ failure (no_recorded_output "merge" "split")
unfolding derive_key get
no_parent = refl

logs_missing :
    missing_declared_outputs merge (("out", entry "o1") ∷ ("logs2/x", entry "x1") ∷ [])
    ≡ "logs" ∷ []
unfolding missing_declared_outputs get contains_key strip_prefix
logs_missing = refl

directory_counts :
    missing_declared_outputs merge (("out", entry "o1") ∷ ("logs/x", entry "x1") ∷ []) ≡ []
unfolding missing_declared_outputs get contains_key strip_prefix
directory_counts = refl

same_parents : All (λ p. get p after_split ≡ get p after_both) (parent_ids merge)
unfolding parent_ids get
same_parents = (refl, (refl, tt))

names_split : elem "split" (parent_ids merge) ≡ true
unfolding parent_ids elem
names_split = refl

derive_key-hashes_only_example :
    derive_key hash to_vec
      (record merge {
        inputs = hashes_only merge.inputs;
        resources = ("cpu", 2) ∷ [];
        store_target = some "local";
        retain = evict;
        exec_template = in_process;
        view = ("v", "out") ∷ [];
        fixed_output = none;
        graph_job = true;
      })
      after_both
    ≡ derive_key hash to_vec merge after_split
derive_key-hashes_only_example =
    derive_key-hashes_only hash to_vec merge after_split after_both (("cpu", 2) ∷ []) (some "local")
      evict in_process (("v", "out") ∷ []) none true same_parents

derive_key-Fails_example : derive_key hash to_vec merge [] ≢ success (null, "")
unfolding get
derive_key-Fails_example = derive_key-Fails hash to_vec merge "split" [] names_split refl (null, "")

build_env-get_example : get "SOURCE_DATE_EPOCH" (build_env merge) ≡ some "0"
unfolding get
build_env-get_example = build_env-get merge "SOURCE_DATE_EPOCH" (tt, tt)

zone_declared : get "TZ" (build_env merge) ≡ some "CET"
unfolding build_env get insert
zone_declared = refl
