-- ===== src/Job.antt =====
-- The scheduler's job definitions: the public types of `crates/ppg3-core/src/scheduler.rs`.
-- `serde_json::Value` is the type `Json`; a number that is neither an `i64` nor a `u64` is kept as
-- its text.
use ppg.Common.{ℕ, Bool, Option, none, some, List, [], ◌∷◌, String}
use ppg.Table.{Table}

mutual
  pub data Json : Type 0 where
    null : Json
    bool : Bool → Json
    unsigned : ℕ → Json
    -- `negative n` is -(n + 1).
    negative : ℕ → Json
    float : String → Json
    text : String → Json
    array : Items → Json
    object : Fields → Json

  pub data Items : Type 0 where
    nil : Items
    cons : Json → Items → Items

  pub data Fields : Type 0 where
    end : Fields
    field : String → Json → Fields → Fields

pub data InputRef : Type 0 where
  job : String → InputRef
  job_subset : String → List String → InputRef
  leaf : String → InputRef
  -- A host file: its content hash and its path.
  file : String → String → InputRef

pub data ExecTemplate : Type 0 where
  argv : List String → Bool → ExecTemplate
  in_process : ExecTemplate

pub data Retain : Type 0 where
  default : Retain
  evict : Retain
  pin : String → Retain

pub record JobDef : Type 0 where
  pub id : String
  pub recipe : String
  pub inputs : Table InputRef
  pub tools : Table String
  pub runtime : Json
  pub env : Table String
  pub outputs_declared : List String
  pub resources : Table ℕ
  pub store_target : Option String
  pub retain : Retain
  pub exec_template : ExecTemplate
  pub view : Table String
  pub fixed_output : Option String
  pub graph_job : Bool

-- The job that an input names, if it names one.
abbrev pub parent_id : InputRef → Option String
parent_id (job id) = some id
parent_id (job_subset id names) = some id
parent_id (leaf hash) = none
parent_id (file hash source) = none

abbrev pub prepend : Option String → List String → List String
prepend none ids = ids
prepend (some id) ids = id ∷ ids

unfoldable pub input_parents : Table InputRef → List String
input_parents [] = []
input_parents ((name, r) ∷ inputs) = prepend (parent_id r) (input_parents inputs)

unfoldable pub parent_ids : JobDef → List String
unfolding input_parents
parent_ids j = input_parents j.inputs
