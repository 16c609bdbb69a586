-- ===== src/Argv/Templates.antt =====
-- What `lower_token` of `crates/ppg3-core/src/scheduler.rs` does to a text, by its placeholders.
use Prim.Native.Char.{Char, code}
use Prim.Native.String.{◌++◌}
use text.Mathlib.TextLemmas.{nil-append, cons-append}
use ppg.Common.{
  ℕ, zero, suc, ◌+◌, ◌≡◌, refl, ap, ◌∙◌, ◌⊎◌, inl, inr, ◌<◌, ◌≤◌, Option, none, some, List, [], ◌∷◌,
  length, String, arith,
}
use ppg.Table.{Table}
use ppg.Job.{JobDef}
use ppg.Scheduler.{CompletedInfo}
use ppg.Argv.{
  Lowered, lowered, refused, out_of_fuel, ◌>>=◌, characters, split_at, resolve_placeholder, shown,
  lower_from, lower_token,
}

-- A text as pieces, each a literal and the token of the placeholder behind it, and a tail.
abbrev pub render : List (String × String) → String → String
render [] tail = tail
render ((literal, token) ∷ pieces) tail = literal ++ ("{" ++ (token ++ ("}" ++ render pieces tail)))

-- The tail has no brace that opens and closes.
abbrev pub IsTail : String → Type 0
IsTail tail =
    (split_at b'{' tail ≡ none)
    ⊎ ((before : String) × (behind : String) × (split_at b'{' tail ≡ some (before, behind))
        × (split_at b'}' behind ≡ none))

abbrev pub IsTemplate : List (String × String) → String → Type 0
IsTemplate [] tail = IsTail tail
IsTemplate ((literal, token) ∷ pieces) tail =
    (split_at b'{' literal ≡ none) × (split_at b'}' token ≡ none) × IsTemplate pieces tail

-- The value of the pieces, from left to right.
abbrev pub value :
    JobDef → Table CompletedInfo → String → List (String × String) → String → Lowered String
value j completed out [] tail = lowered (out ++ tail)
value j completed out ((literal, token) ∷ pieces) tail =
    resolve_placeholder token j completed >>= λ v.
    value j completed (out ++ (literal ++ shown token v)) pieces tail

one-append : (c : Char) (s : String) → String.◌∷◌ c String.[] ++ s ≡ String.◌∷◌ c s
one-append c s = cons-append c String.[] s ∙ ap (String.◌∷◌ c) (nil-append s)

split_here : (c : Char) (s : String) → split_at (code c) (String.◌∷◌ c s) ≡ some (String.[], s)
unfolding split_at
split_here c s = ground arith

-- A text without a character, and then that character.
split_at-append :
    (c : Char) (a s : String)
    → split_at (code c) a ≡ none
    → split_at (code c) (a ++ (String.◌∷◌ c String.[] ++ s)) ≡ some (a, s)
unfolding split_at
split_at-append c String.[] s e = rw (nil-append, one-append) (split_here c s)
split_at-append c (String.◌∷◌ d a) s e = rw (cons-append) (ground (arith, split_at-append c a s))

characters-append : (a b : String) → characters (a ++ b) ≡ characters a + characters b
characters-append String.[] b = rw nil-append (omega arith)
characters-append (String.◌∷◌ c a) b = rw cons-append (omega (arith, characters-append a b))

-- Each piece is longer than the fuel that its round takes.
pieces_fit :
    (pieces : List (String × String)) (tail : String)
    → length pieces ≤ characters (render pieces tail)
pieces_fit [] tail = omega arith
pieces_fit ((literal, token) ∷ pieces) tail =
    let behind : String = token ++ ("}" ++ render pieces tail) in
    omega (
      arith,
      pieces_fit pieces tail,
      characters-append literal ("{" ++ behind),
      characters-append "{" behind,
      characters-append token ("}" ++ render pieces tail),
      characters-append "}" (render pieces tail),
    )

round_lem :
    (fuel : ℕ) (j : JobDef) (completed : Table CompletedInfo) (out literal token rest : String)
    → split_at b'{' literal ≡ none
    → split_at b'}' token ≡ none
    → lower_from (suc fuel) j completed out (literal ++ ("{" ++ (token ++ ("}" ++ rest)))) ≡ (
        resolve_placeholder token j completed >>= λ v.
        lower_from fuel j completed (out ++ (literal ++ shown token v)) rest)
unfolding lower_from
round_lem fuel j completed out literal token rest a b =
    let opened : split_at b'{' (literal ++ ("{" ++ (token ++ ("}" ++ rest))))
        ≡ some (literal, token ++ ("}" ++ rest)) =
      split_at-append "{" literal (token ++ ("}" ++ rest)) a in
    let closed : split_at b'}' (token ++ ("}" ++ rest)) ≡ some (token, rest) =
      split_at-append "}" token rest b in
    rw (opened, lower_from) (rw (closed) refl)

bind_ext :
    (r : Lowered (Option String)) (f g : Option String → Lowered String)
    → ((v : Option String) → f v ≡ g v)
    → (r >>= f) ≡ (r >>= g)
bind_ext (lowered v) f g h = h v
bind_ext (refused e) f g h = refl
bind_ext out_of_fuel f g h = refl

lower_from-tail :
    (fuel : ℕ) (j : JobDef) (completed : Table CompletedInfo) (out tail : String)
    → IsTail tail
    → lower_from (suc fuel) j completed out tail ≡ lowered (out ++ tail)
unfolding lower_from
lower_from-tail fuel j completed out tail (inl e) = rw (e, lower_from) refl
lower_from-tail fuel j completed out tail (inr (before, behind, e, e')) =
    rw (e, lower_from) (rw e' refl)

lower_from-value :
    (pieces : List (String × String)) (tail : String) (fuel : ℕ) (j : JobDef)
    (completed : Table CompletedInfo) (out : String)
    → IsTemplate pieces tail
    → length pieces < fuel
    → lower_from fuel j completed out (render pieces tail) ≡ value j completed out pieces tail
lower_from-value pieces tail zero j completed out t h = absurd (omega arith)
lower_from-value [] tail (suc fuel) j completed out t h =
    lower_from-tail fuel j completed out tail t
lower_from-value ((literal, token) ∷ pieces) tail (suc fuel) j completed out (a, b, t) h =
    round_lem fuel j completed out literal token (render pieces tail) a b
    ∙ bind_ext (resolve_placeholder token j completed) _ _ λ v.
      lower_from-value pieces tail fuel j completed (out ++ (literal ++ shown token v)) t
        (omega arith)

-- A text of pieces, each a literal without an opening brace and a token without a closing one, and a
-- tail without a pair of braces, is lowered to the literals and the values of the tokens in their
-- order, then the tail, or to the first error of a token. A token that is no placeholder stays in its
-- braces. The loop ends within its fuel.
pub lower_token-value :
    (pieces : List (String × String)) (tail : String) (j : JobDef) (completed : Table CompletedInfo)
    → IsTemplate pieces tail
    → lower_token (render pieces tail) j completed ≡ value j completed "" pieces tail
unfolding lower_token
lower_token-value pieces tail j completed t =
    lower_from-value pieces tail (suc (characters (render pieces tail))) j completed "" t
      (omega (arith, pieces_fit pieces tail))
