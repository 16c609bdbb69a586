-- ===== src/Canon/Complete.antt =====
-- That `validate` of `crates/ppg3-core/src/canon.rs` accepts every canonical document.
use ppg.Common.{
  ℕ, zero, suc, ◌+◌, ◌*◌, ◌≤◌, true, false, Option, none, some, [], ◌∷◌, ◌≡◌, refl, ap, length,
  arith, success, ◌↔◌,
}
use ppg.Canon.Utf8.{Bytes, Parsed, read, invalid, expected_separator, ◌>>=◌, is_utf8}
use ppg.Canon.Text.{expect, strip, parse_lit, parse_string}
use ppg.Canon.Value.{
  brace, bracket, quote, letter_t, letter_f, letter_n, digit, in_order, separator, more, closed,
  neither, parse_value, parse_elements, parse_members, validate_bytes,
}
use ppg.Canon.Progress.{Advances-length, parse_string-Advances}
use ppg.Canon.Terminates.{parse_value-Advances}
use ppg.Canon.Grammar.{
  Json, null, boolean, number, text, array, object, Elements, no_elements, element, Members,
  no_members, member, SpellsText, Spells, SpellsRest, SpellsMembers, Ascending, Canonical,
  CanonicalElements, CanonicalMembers,
}
use ppg.Canon.Accepts.{
  ends_value, parse_string-SpellsText, parse_number-numeral, start_of-numeral, expect-head,
}
use ppg.Canon.Sound.{validate_sound}
use ppg.Canon.Heads.{
  start-≡, read->>=, array_step, object_step, closes-Spells, closes-SpellsText, starts-SpellsText,
  ends-SpellsRest, ends-SpellsMembers,
}

ValueComplete : ℕ → Type 0
ValueComplete fuel =
    (d : ℕ) (v : Json) (s r : Bytes)
    → Spells v s r
    → Canonical d v
    → ends_value r ≡ true
    → 2 * length s + 1 ≤ fuel
    → parse_value fuel d s ≡ read tt r

ElementsComplete : ℕ → Type 0
ElementsComplete fuel =
    (d : ℕ) (v : Json) (es : Elements) (s q r : Bytes)
    → Spells v s q
    → SpellsRest es q r
    → Canonical (d + 1) v
    → CanonicalElements (d + 1) es
    → 2 * length s + 2 ≤ fuel
    → parse_elements fuel d s ≡ read tt r

MembersComplete : ℕ → Type 0
MembersComplete fuel =
    (d : ℕ) (prev : Option Bytes) (k : Bytes) (v : Json) (ms : Members) (s p q r : Bytes)
    → SpellsText k s (b':' ∷ p)
    → Spells v p q
    → SpellsMembers ms q r
    → in_order prev k ≡ true
    → Ascending k ms
    → Canonical (d + 1) v
    → CanonicalMembers (d + 1) ms
    → 2 * length s + 2 ≤ fuel
    → parse_members fuel d prev s ≡ read tt r

value-Complete :
    (fuel : ℕ) → ElementsComplete fuel → MembersComplete fuel → ValueComplete (suc fuel)
unfolding ElementsComplete MembersComplete ValueComplete Spells Canonical parse_value parse_lit
    strip expect
value-Complete fuel els mems d null s r p c h le =
    rw (start-≡ d s letter_n c (rw p refl), parse_value) (rw (p, parse_lit) refl)
value-Complete fuel els mems d (boolean true) s r p c h le =
    rw (start-≡ d s letter_t c (rw p refl), parse_value) (rw (p, parse_lit) refl)
value-Complete fuel els mems d (boolean false) s r p c h le =
    rw (start-≡ d s letter_f c (rw p refl), parse_value) (rw (p, parse_lit) refl)
value-Complete fuel els mems d (number minus n) s r (ds, (p, (q, w))) (c, lt) h le =
    rw (start-≡ d s digit c (rw p (start_of-numeral minus ds r q)), parse_value)
      (rw p (parse_number-numeral minus ds r q h (rw w lt)))
value-Complete fuel els mems d (text t) s r x c h le =
    rw (start-≡ d s quote c (starts-SpellsText t s r x), parse_value)
      (rw (parse_string-SpellsText fuel t s r x (omega arith)) refl)
value-Complete fuel els mems d (array no_elements) s r p (c, x) h le =
    rw (start-≡ d s bracket c (rw p refl), parse_value)
      (read->>= (expect b'[' s) _ tt (b']' ∷ r) _ (rw p (expect-head b'[' (b']' ∷ r))) refl)
value-Complete fuel els mems d (array (element v es)) s r (s', (p, (q, (x, y)))) (c, (cv, ces)) h
      le =
    array_step fuel d s s' r p c (closes-Spells v s' q x)
      (els d v es s' q r x y cv ces (omega (arith, ap length p)))
value-Complete fuel els mems d (object no_members) s r p c h le =
    rw (start-≡ d s brace c (rw p refl), parse_value)
      (read->>= (expect b'{' s) _ tt (b'}' ∷ r) _ (rw p (expect-head b'{' (b'}' ∷ r))) refl)
value-Complete fuel els mems d (object (member k v ms)) s r (s', (p, (m, (t, (q, (x, y))))))
      (c, (asc, (cv, cms))) h le =
    object_step fuel d s s' r p c (closes-SpellsText k s' (b':' ∷ m) t).0
      (mems d none k v ms s' m q r t x y refl asc cv cms (omega (arith, ap length p)))

after_element :
    (fuel d : ℕ) (es : Elements) (q r : Bytes)
    → ElementsComplete fuel
    → SpellsRest es q r
    → CanonicalElements (d + 1) es
    → 2 * length q ≤ fuel
    → elim (separator b']' q) [
      | more r' ↦ parse_elements fuel d r'
      | closed r' ↦ read tt r'
      | neither ↦ invalid expected_separator
    ]
      ≡ read tt r
unfolding ElementsComplete SpellsRest CanonicalElements
after_element fuel d no_elements q r els p c le = rw p refl
after_element fuel d (element v es) q r els (s', (p, (q', (x, y)))) (cv, ces) le =
    rw p (els d v es s' q' r x y cv ces (omega (arith, ap length p)))

-- What `parse_members` does behind a member.
abbrev behind_member : ℕ → ℕ → Bytes → Bytes → Parsed (Unit {0})
behind_member fuel d key q = elim (separator b'}' q) [
  | more r' ↦ parse_members fuel d (some key) r'
  | closed r' ↦ read tt r'
  | neither ↦ invalid expected_separator
]

after_member :
    (fuel d : ℕ) (key : Bytes) (ms : Members) (q r : Bytes)
    → MembersComplete fuel
    → SpellsMembers ms q r
    → Ascending key ms
    → CanonicalMembers (d + 1) ms
    → 2 * length q ≤ fuel
    → behind_member fuel d key q ≡ read tt r
unfolding MembersComplete SpellsMembers Ascending CanonicalMembers
after_member fuel d key no_members q r mems p asc c le = rw p refl
after_member fuel d key (member k v ms) q r mems (s', (p, (m, (t, (q', (x, y)))))) (above, asc)
      (cv, cms) le =
    rw p (mems d (some key) k v ms s' m q' r t x y above asc cv cms (omega (arith, ap length p)))

elements-Complete :
    (fuel : ℕ) → ValueComplete fuel → ElementsComplete fuel → ElementsComplete (suc fuel)
unfolding ValueComplete ElementsComplete parse_elements
elements-Complete fuel value els d v es s q r x y cv ces le =
    let e : parse_value fuel (d + 1) s ≡ read tt q =
      value (d + 1) v s q x cv (ends-SpellsRest es q r y) (omega arith) in
    let lt =
      Advances-length (length s) (parse_value fuel (d + 1) s) tt q
        (parse_value-Advances fuel (d + 1) s (omega arith)) e in
    rw (e, parse_elements) (after_element fuel d es q r els y ces (omega (arith, lt)))

members-Complete :
    (fuel : ℕ) → ValueComplete fuel → MembersComplete fuel → MembersComplete (suc fuel)
unfolding ValueComplete MembersComplete parse_members
members-Complete fuel value mems d prev k v ms s p q r t x y above asc cv cms le =
    let text_read = parse_string-SpellsText fuel k s (b':' ∷ p) t (omega arith) in
    let lt =
      Advances-length (length s) (parse_string fuel s) k (b':' ∷ p)
        (parse_string-Advances fuel s (omega arith)) text_read in
    let e : parse_value fuel (d + 1) p ≡ read tt q =
      value (d + 1) v p q x cv (ends-SpellsMembers ms q r y) (omega (arith, lt)) in
    let lt' =
      Advances-length (length p) (parse_value fuel (d + 1) p) tt q
        (parse_value-Advances fuel (d + 1) p (omega (arith, lt))) e in
    rw ((closes-SpellsText k s (b':' ∷ p) t).1, parse_members)
      (read->>= (parse_string fuel s) _ k (b':' ∷ p) _ text_read (
        rw above (
          read->>= (expect b':' (b':' ∷ p))
            (λ _ r'. parse_value fuel (d + 1) r' >>= λ _ r''. behind_member fuel d k r'') tt p _
            (expect-head b':' p)
            (read->>= (parse_value fuel (d + 1) p) (λ _ r''. behind_member fuel d k r'') tt q _ e
              (after_member fuel d k ms q r mems y asc cms (omega (arith, lt, lt')))))))

all-Complete : (fuel : ℕ) → ValueComplete fuel × (ElementsComplete fuel × MembersComplete fuel)
unfolding ValueComplete ElementsComplete MembersComplete
all-Complete zero = (
  λ d v s r x c h le. ground arith,
  (
    λ d v es s q r x y cv ces le. ground arith,
    λ d prev k v ms s p q r t x y above asc cv cms le. ground arith,
  ),
)
all-Complete (suc fuel) =
    let rest = all-Complete fuel in
    (
      value-Complete fuel rest.1.0 rest.1.1,
      (elements-Complete fuel rest.0 rest.1.0, members-Complete fuel rest.0 rest.1.1),
    )

validate_complete :
    (s : Bytes) (v : Json)
    → is_utf8 s ≡ true
    → Spells v s []
    → Canonical 0 v
    → validate_bytes s ≡ some (success tt)
unfolding validate_bytes ValueComplete
validate_complete s v u x c =
    rw (u, validate_bytes)
      (rw ((all-Complete (2 * length s + 1)).0 0 v s [] x c refl (omega arith)) refl)

-- The validator accepts exactly the bytes that are UTF-8 and spell a canonical tree, all of them: one
-- nested no deeper than 256, its numbers integers in their range without zeros in front, the keys of
-- every object strictly ascending, without blanks. The characters of a text are those of the loop in
-- parse_string.
pub validate_iff :
    (s : Bytes)
    → (validate_bytes s ≡ some (success tt))
      ↔ ((is_utf8 s ≡ true) × ((v : Json) × (Spells v s [] × Canonical 0 v)))
validate_iff s = (validate_sound s, λ h. validate_complete s h.1.0 h.0 h.1.1.0 h.1.1.1)
