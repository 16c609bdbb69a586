-- ===== src/Canon/Heads.antt =====
-- How the values of `crates/ppg3-core/src/canon.rs` start and end, and what `parse_value` does there.
use ppg.Common.{ℕ, suc, ◌≤◌, true, false, none, ◌∷◌, ◌≡◌, refl, arith, ltb}
use ppg.Canon.Utf8.{Bytes, Parsed, read, ◌>>=◌}
use ppg.Canon.Text.{expect}
use ppg.Canon.Value.{
  Start, brace, bracket, quote, start, start_of, starts_key, closes, parse_value, parse_elements,
  parse_members,
}
use ppg.Canon.Grammar.{
  Json, null, boolean, number, text, array, object, Elements, no_elements, element, Members,
  no_members, member, SpellsText, Spells, SpellsRest, SpellsMembers,
}
use ppg.Canon.Accepts.{ends_value, closes-numeral, expect-head}

pub start-≡ : (d : ℕ) (s : Bytes) (k : Start) → d ≤ 256 → start_of s ≡ k → start d s ≡ k
start-≡ d s k le e = let p : ltb 256 d ≡ false = ground arith in rw p e

pub read->>= {ℓ ℓ'} :
    {A : Type ℓ} {B : Type ℓ'} (p : Parsed A) (k : A → Bytes → Parsed B) (a : A) (s : Bytes)
    (x : Parsed B)
    → p ≡ read a s
    → k a s ≡ x
    → (p >>= k) ≡ x
read->>= p k a s x e h = rw e h

-- What `parse_value` does with an opening bracket that is not closed at once.
pub array_step :
    (fuel d : ℕ) (s s' r : Bytes)
    → s ≡ b'[' ∷ s'
    → d ≤ 256
    → closes b']' s' ≡ none
    → parse_elements fuel d s' ≡ read tt r
    → parse_value (suc fuel) d s ≡ read tt r
unfolding parse_value
array_step fuel d s s' r p le c e =
    rw (start-≡ d s bracket le (rw p refl), parse_value)
      (read->>= (expect b'[' s) _ tt s' _ (rw p (expect-head b'[' s')) (rw c e))

pub object_step :
    (fuel d : ℕ) (s s' r : Bytes)
    → s ≡ b'{' ∷ s'
    → d ≤ 256
    → closes b'}' s' ≡ none
    → parse_members fuel d none s' ≡ read tt r
    → parse_value (suc fuel) d s ≡ read tt r
unfolding parse_value
object_step fuel d s s' r p le c e =
    rw (start-≡ d s brace le (rw p refl), parse_value)
      (read->>= (expect b'{' s) _ tt s' _ (rw p (expect-head b'{' s')) (rw c e))

-- No value starts with a closing bracket.
pub closes-Spells : (v : Json) (s r : Bytes) → Spells v s r → closes b']' s ≡ none
unfolding Spells SpellsText
closes-Spells null s r p = rw p refl
closes-Spells (boolean true) s r p = rw p refl
closes-Spells (boolean false) s r p = rw p refl
closes-Spells (number minus n) s r (ds, (p, (q, w))) = rw p (closes-numeral minus ds r q)
closes-Spells (text t) s r (s', (p, h)) = rw p refl
closes-Spells (array no_elements) s r p = rw p refl
closes-Spells (array (element v es)) s r (s', (p, h)) = rw p refl
closes-Spells (object no_members) s r p = rw p refl
closes-Spells (object (member k v ms)) s r (s', (p, h)) = rw p refl

pub closes-SpellsText :
    (t s r : Bytes) → SpellsText t s r → (closes b'}' s ≡ none) × (starts_key s ≡ true)
unfolding SpellsText
closes-SpellsText t s r (s', (p, h)) = (rw p refl, rw p refl)

pub starts-SpellsText : (t s r : Bytes) → SpellsText t s r → start_of s ≡ quote
unfolding SpellsText
starts-SpellsText t s r (s', (p, h)) = rw p refl

pub ends-SpellsRest : (es : Elements) (s r : Bytes) → SpellsRest es s r → ends_value s ≡ true
unfolding SpellsRest
ends-SpellsRest no_elements s r p = rw p refl
ends-SpellsRest (element v es) s r (s', (p, h)) = rw p refl

pub ends-SpellsMembers : (ms : Members) (s r : Bytes) → SpellsMembers ms s r → ends_value s ≡ true
unfolding SpellsMembers
ends-SpellsMembers no_members s r p = rw p refl
ends-SpellsMembers (member k v ms) s r (s', (p, h)) = rw p refl
