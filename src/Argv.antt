-- ===== src/Argv.antt =====
-- The lowering of a job's argument list: `lower_argv`, `lower_token` and `resolve_placeholder` of
-- `crates/ppg3-core/src/scheduler.rs`.
-- The loop of `lower_token` takes fuel, one unit more than the text has characters. Messages of an
-- error are kept as the data that they are formatted from.
use Prim.Native.Char.{code}
use Prim.Native.String.{◌++◌}
use ppg.Common.{
  ℕ, zero, suc, ◌+◌, ◌≡◌, Bool, true, false, Option, none, some, List, [], ◌∷◌, String, ◌==◌,
  if◌then◌else◌, ◌=ℕ◌, elem,
}
use ppg.Table.{Table, get, contains_key}
use ppg.Job.{JobDef, InputRef, job, job_subset, leaf, file}
use ppg.Scheduler.{CompletedInfo, ContentEntry}
pub mod Templates
pub mod Samples

pub data LowerError : Type 0 where
  unknown_input : String → String → LowerError
  leaf_input : String → String → LowerError
  no_completed_info : String → LowerError
  undeclared_output : String → String → LowerError
  unknown_tool : String → String → LowerError

-- `out_of_fuel` stands for a loop that has not ended.
pub data Lowered {ℓ} (A : Type ℓ) : Type ℓ where
  lowered : A → Lowered A
  refused : LowerError → Lowered A
  out_of_fuel : Lowered A

infixl 10 ◌>>=◌
abbrev pub ◌>>=◌ {ℓ ℓ'} : {A : Type ℓ} {B : Type ℓ'} → Lowered A → (A → Lowered B) → Lowered B
lowered a >>= k = k a
refused e >>= k = refused e
out_of_fuel >>= k = out_of_fuel

abbrev pub characters : String → ℕ
characters String.[] = 0
characters (String.◌∷◌ c s) = suc (characters s)

-- `str::find` of a character, as the text before it and the text behind it.
unfoldable pub split_at : ℕ → String → Option (String × String)
split_at n String.[] = none
split_at n (String.◌∷◌ c s) =
    if code c =ℕ n
    then some (String.[], s)
    else elim (split_at n s) [ none ↦ none | some (a, b) ↦ some (String.◌∷◌ c a, b) ]

-- `str::strip_prefix`
unfoldable pub strip_prefix : String → String → Option String
strip_prefix String.[] s = some s
strip_prefix (String.◌∷◌ c p) String.[] = none
strip_prefix (String.◌∷◌ c p) (String.◌∷◌ d s) = if code c =ℕ code d then strip_prefix p s else none

-- A parent with exactly one file is its file, any other its directory.
abbrev pub content_path : String → Table ContentEntry → String
content_path name ((only, _) ∷ []) = "/ppg/in/" ++ (name ++ ("/" ++ only))
content_path name _ = "/ppg/in/" ++ name

unfoldable pub parent_path : String → String → Table CompletedInfo → Lowered (Option String)
parent_path name id completed = elim (get id completed) [
  | none ↦ refused (no_completed_info id)
  | some c ↦ lowered (some (content_path name c.content))
]

unfoldable pub input_path :
    JobDef → String → Table CompletedInfo → Option InputRef → Lowered (Option String)
unfolding parent_path
input_path j name completed none = refused (unknown_input j.id name)
input_path j name completed (some (leaf _)) = refused (leaf_input j.id name)
input_path j name completed (some (file _ _)) = lowered (some ("/ppg/in/" ++ name))
input_path j name completed (some (job_subset id (_ ∷ []))) = lowered (some ("/ppg/in/" ++ name))
input_path j name completed (some (job_subset id _)) = parent_path name id completed
input_path j name completed (some (job id)) = parent_path name id completed

unfoldable pub output_path : JobDef → String → Lowered (Option String)
output_path j name =
    if elem name j.outputs_declared
    then lowered (some ("/ppg/out/" ++ name))
    else refused (undeclared_output j.id name)

unfoldable pub tool_path : JobDef → String → Lowered (Option String)
tool_path j name =
    if contains_key name j.tools
    then lowered (some ("/ppg/tools/" ++ name))
    else refused (unknown_tool j.id name)

unfoldable pub resolve_placeholder : String → JobDef → Table CompletedInfo → Lowered (Option String)
unfolding input_path output_path tool_path strip_prefix
resolve_placeholder token j completed =
    if token == "out" then lowered (some "/ppg/out") else elim (strip_prefix "in:" token) [
      | some name ↦ input_path j name completed (get name j.inputs)
      | none ↦ elim (strip_prefix "out:" token) [
        | some name ↦ output_path j name
        | none ↦ elim (strip_prefix "tool:" token) [
          | some name ↦ tool_path j name
          | none ↦ lowered none
        ]
      ]
    ]

-- What stands in the result for a token: its value, or the token again in its braces.
abbrev pub shown : String → Option String → String
shown token (some v) = v
shown token none = "{" ++ (token ++ "}")

-- `while let Some(start) = rest.find('{')`, with `out` and `rest`.
unfoldable pub lower_from : ℕ → JobDef → Table CompletedInfo → String → String → Lowered String
unfolding split_at resolve_placeholder
lower_from zero j completed out rest = out_of_fuel
lower_from (suc fuel) j completed out rest = elim (split_at b'{' rest) [
  | none ↦ lowered (out ++ rest)
  | some (before, behind) ↦ elim (split_at b'}' behind) [
    | none ↦ lowered (out ++ rest)
    | some (token, rest') ↦ resolve_placeholder token j completed >>= λ v.
        lower_from fuel j completed (out ++ (before ++ shown token v)) rest'
  ]
]

unfoldable pub lower_token : String → JobDef → Table CompletedInfo → Lowered String
unfolding lower_from
lower_token s j completed = lower_from (suc (characters s)) j completed String.[] s

unfoldable pub lower_argv : List String → JobDef → Table CompletedInfo → Lowered (List String)
unfolding lower_token
lower_argv [] j completed = lowered []
lower_argv (s ∷ argv_template) j completed = lower_token s j completed >>= λ t.
    lower_argv argv_template j completed >>= λ ts. lowered (t ∷ ts)
