-- ===== src/Argv/Samples.antt =====
-- Runs of `lower_token` on small texts.
use ppg.Common.{◌≡◌, refl, List, [], ◌∷◌, String, inr}
use ppg.Table.{get}
use ppg.Job.{leaf}
use ppg.Graph.Samples.{plain_job}
use ppg.Argv.{lowered, refused, leaf_input, lower_token, split_at, lower_argv}
use ppg.Argv.Templates.{render, value, IsTemplate, lower_token-value}

abbrev pieces : List (String × String)
pieces = ("--to=", "out") ∷ (" ", "braces") ∷ []

lowering_code : Unit {0}
unfolding lower_token split_at
lowering_code = tt

written :
    lower_token "--to={out} {braces}{" (plain_job "a" []) [] ≡ lowered "--to=/ppg/out {braces}{"
unfolding lowering_code
written = refl

params_have_no_path :
    lower_argv ("x" ∷ "{in:p}" ∷ []) (plain_job "a" (("p", leaf "h") ∷ [])) []
    ≡ refused (leaf_input "a" "p")
unfolding lowering_code lower_argv get
params_have_no_path = refl

pieces-IsTemplate : IsTemplate pieces "{"
unfolding lowering_code
pieces-IsTemplate = (refl, refl, (refl, refl, inr ("", "", refl, refl)))

lower_token-value_example :
    lower_token (render pieces "{") (plain_job "a" []) []
    ≡ value (plain_job "a" []) [] "" pieces "{"
lower_token-value_example = lower_token-value pieces "{" (plain_job "a" []) [] pieces-IsTemplate
