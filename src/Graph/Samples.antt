-- ===== src/Graph/Samples.antt =====
-- Small job graphs, and what the validation says of them.
use ppg.Common.{
  ℕ, ◌≡◌, refl, GraphError, false, none, List, [], ◌∷◌, String, ok, err, duplicate_id,
  already_exists, unknown_job, job_unknown_pool, cycle_detected, ◌⊎◌, All, elem,
}
use ppg.Table.{Table, get, insert, contains_key}
use ppg.Pools
use ppg.Job.{JobDef, null, InputRef, job, job_subset, leaf, argv, default, parent_ids}
use ppg.Graph.{detect_cycle, validate_and_index}
use ppg.Graph.Links.{edges}
use ppg.Graph.Acyclic.{IsAcyclic}
use ppg.Graph.Verdict.{detect_cycle_verdict}
use ppg.Graph.Valid.{IsValid}
use ppg.Graph.Answers.{validate_and_index_answers}
use ppg.Graph.Accepts.{validate_and_index-IsValid, IsValid-validate_and_index, validated_resources}

abbrev pub plain_job : String → Table InputRef → JobDef
plain_job id inputs = record {
  id = id;
  recipe = "r";
  inputs = inputs;
  tools = [];
  runtime = null;
  env = [];
  outputs_declared = [];
  resources = ("cores", 2) ∷ [];
  store_target = none;
  retain = default;
  exec_template = argv [] false;
  view = [];
  fixed_output = none;
  graph_job = false;
}

-- A diamond, the last job first.
abbrev pub diamond : List JobDef
diamond =
    plain_job "d" (("x", job "b") ∷ ("y", job_subset "c" ("o" ∷ [])) ∷ [])
    ∷ plain_job "b" (("x", job "a") ∷ [])
    ∷ plain_job "c" (("x", job "a") ∷ ("z", job "a") ∷ [])
    ∷ plain_job "a" (("p", leaf "h") ∷ [])
    ∷ []

abbrev pub cores : Table ℕ
cores = ("cores", 4) ∷ []

abbrev looping : List JobDef
looping = plain_job "a" (("x", job "b") ∷ []) ∷ plain_job "b" (("x", job "a") ∷ []) ∷ []

code : Unit {0}
unfolding validate_and_index detect_cycle get insert contains_key elem parent_ids
code = tt

pub diamond_accepted : validate_and_index diamond [] cores ≡ ok tt
unfolding code
diamond_accepted = refl

looping_refused : validate_and_index looping [] cores ≡ err cycle_detected
unfolding code
looping_refused = refl

refusals :
    (validate_and_index (plain_job "a" [] ∷ plain_job "a" [] ∷ []) [] cores
      ≡ err (duplicate_id "a"))
    × (validate_and_index (plain_job "a" [] ∷ []) (("a", plain_job "a" []) ∷ []) cores
        ≡ err (already_exists "a"))
    × (validate_and_index (plain_job "a" (("x", job "z") ∷ []) ∷ []) [] cores
        ≡ err (unknown_job "a" "z"))
    × (validate_and_index (plain_job "a" [] ∷ []) [] [] ≡ err (job_unknown_pool "a" "cores"))
unfolding code
refusals = (refl, refl, refl, refl)

detect_cycle_verdict_example :
    (IsAcyclic (edges ("a" ∷ "b" ∷ []) looping) × (detect_cycle looping ≡ ok tt))
    ⊎ ((¬ IsAcyclic (edges ("a" ∷ "b" ∷ []) looping)) × (detect_cycle looping ≡ err cycle_detected))
unfolding elem
detect_cycle_verdict_example = detect_cycle_verdict looping (refl, (refl, tt))

validate_and_index-IsValid_example : IsValid diamond [] cores
validate_and_index-IsValid_example = validate_and_index-IsValid diamond [] cores diamond_accepted

IsValid-validate_and_index_example : validate_and_index diamond [] cores ≡ ok tt
IsValid-validate_and_index_example =
    IsValid-validate_and_index diamond [] cores
      (validate_and_index-IsValid diamond [] cores diamond_accepted)

validated_resources_example :
    All (λ (j : JobDef). Pools.validate (Pools.new cores).capacity j.resources ≡ ok tt) diamond
validated_resources_example = validated_resources diamond [] cores diamond_accepted

validate_and_index_answers_example :
    (validate_and_index looping [] cores ≡ ok tt)
    ⊎ ((e : GraphError) × (validate_and_index looping [] cores ≡ err e))
validate_and_index_answers_example = validate_and_index_answers looping [] cores
