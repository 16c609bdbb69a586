-- ===== src/Canon/Sound.antt =====
-- That `validate` of `crates/ppg3-core/src/canon.rs` accepts canonical documents only.
use ppg.Common.{
  ℕ, zero, suc, ◌+◌, ◌*◌, ◌≤◌, Bool, true, false, Option, none, some, [], ◌∷◌, ◌≡◌, refl, ap, sym,
  subst, ◌∙◌, length, arith, inl, inr, Bool-cases, ltb, success,
}
use ppg.Canon.Utf8.{Bytes, Parsed, read, invalid, out_of_fuel, is_utf8}
use ppg.Canon.Text.{expect, parse_lit, parse_string}
use ppg.Canon.Value.{
  Start, too_deep, brace, bracket, quote, letter_t, letter_f, letter_n, digit, space, other,
  nothing, start, in_order, starts_key, parse_number, parse_value, parse_elements, parse_members,
  whole, validate_bytes,
}
use ppg.Canon.Grammar.{
  Json, null, boolean, number, text, array, object, Elements, no_elements, element, Members,
  no_members, member, SpellsText, Spells, SpellsRest, SpellsMembers, Ascending, Canonical,
  CanonicalElements, CanonicalMembers,
}
use ppg.Canon.Reads.{
  Ensures, Ensures->>=, Ensures-map, Ensures-bool, expect-Ensures, closes-Ensures,
  separator-Ensures, parse_lit-Ensures, parse_string-Ensures, parse_number-Ensures,
}

abbrev is_shallow : Start → Bool
is_shallow too_deep = false
is_shallow _ = true

start-deep : (d : ℕ) (s : Bytes) → ltb 256 d ≡ true → start d s ≡ too_deep
start-deep d s p = rw p refl

start-depth : (d : ℕ) (s : Bytes) (k : Start) → start d s ≡ k → is_shallow k ≡ true → d ≤ 256
start-depth d s k e h = elim (Bool-cases (ltb 256 d)) [
  | inl p ↦ ground (arith, subst (λ x. is_shallow x ≡ true) (sym e ∙ start-deep d s p) h)
  | inr p ↦ ground (arith, p)
]

-- A value that has been read at the depth `d`.
record IsRead (d : ℕ) (s r : Bytes) : Type 0 where
  value : Json
  spelled : Spells value s r
  canonical : Canonical d value

-- Elements, at least one, up to the closing bracket.
record AreElements (d : ℕ) (s r : Bytes) : Type 0 where
  first : Json
  others : Elements
  mid : Bytes
  first_spelled : Spells first s mid
  others_spelled : SpellsRest others mid r
  first_canonical : Canonical d first
  others_canonical : CanonicalElements d others

-- Members, at least one, up to the closing brace, the first key above the one before it.
record AreMembers (d : ℕ) (prev : Option Bytes) (s r : Bytes) : Type 0 where
  key : Bytes
  first : Json
  others : Members
  colon : Bytes
  mid : Bytes
  key_spelled : SpellsText key s (b':' ∷ colon)
  first_spelled : Spells first colon mid
  others_spelled : SpellsMembers others mid r
  key_above : in_order prev key ≡ true
  others_above : Ascending key others
  first_canonical : Canonical d first
  others_canonical : CanonicalMembers d others

ValueSound : ℕ → Type 0
ValueSound fuel = (d : ℕ) (s : Bytes) → Ensures (λ _ r. IsRead d s r) (parse_value fuel d s)

ElementsSound : ℕ → Type 0
ElementsSound fuel =
    (d : ℕ) (s : Bytes) → Ensures (λ _ r. AreElements (d + 1) s r) (parse_elements fuel d s)

MembersSound : ℕ → Type 0
MembersSound fuel =
    (d : ℕ) (prev : Option Bytes) (s : Bytes)
    → Ensures (λ _ r. AreMembers (d + 1) prev s r) (parse_members fuel d prev s)

value-Sound :
    (fuel d : ℕ) (s : Bytes)
    → ElementsSound fuel
    → MembersSound fuel
    → (k : Start) → start d s ≡ k
    → Ensures (λ _ r. IsRead d s r) (parse_value (suc fuel) d s)
unfolding ElementsSound MembersSound parse_value Ensures Spells Canonical
value-Sound fuel d s els mems too_deep e = rw (e, parse_value) tt
value-Sound fuel d s els mems brace e =
    rw (e, parse_value)
      (Ensures->>= _ _ (expect b'{' s) _ (expect-Ensures b'{' s) λ _ r p.
        closes-Ensures _ b'}' r _ (λ r'. read tt r')
          (Ensures-map _ _ (parse_members fuel d none r) (mems d none r) λ _ r' m. record {
            value = object (member m.key m.first m.others);
            spelled =
                (r, (p, (m.colon, (m.key_spelled, (m.mid, (m.first_spelled, m.others_spelled))))));
            canonical = (
              start-depth d s brace e refl,
              (m.others_above, (m.first_canonical, m.others_canonical)),
            );
          })
          (λ r' q. record {
            value = object no_members;
            spelled = p ∙ ap (λ x. b'{' ∷ x) q;
            canonical = start-depth d s brace e refl;
          }))
value-Sound fuel d s els mems bracket e =
    rw (e, parse_value)
      (Ensures->>= _ _ (expect b'[' s) _ (expect-Ensures b'[' s) λ _ r p.
        closes-Ensures _ b']' r _ (λ r'. read tt r')
          (Ensures-map _ _ (parse_elements fuel d r) (els d r) λ _ r' m. record {
            value = array (element m.first m.others);
            spelled = (r, (p, (m.mid, (m.first_spelled, m.others_spelled))));
            canonical = (start-depth d s bracket e refl, (m.first_canonical, m.others_canonical));
          })
          (λ r' q. record {
            value = array no_elements;
            spelled = p ∙ ap (λ x. b'[' ∷ x) q;
            canonical = (start-depth d s bracket e refl, tt);
          }))
value-Sound fuel d s els mems quote e =
    rw (e, parse_value)
      (Ensures->>= _ _ (parse_string fuel s) _ (parse_string-Ensures fuel s)
        λ t r p. record { value = text t; spelled = p; canonical = start-depth d s quote e refl })
value-Sound fuel d s els mems letter_t e =
    rw (e, parse_value)
      (Ensures-map _ _ (parse_lit (b't' ∷ b'r' ∷ b'u' ∷ b'e' ∷ []) s)
        (parse_lit-Ensures (b't' ∷ b'r' ∷ b'u' ∷ b'e' ∷ []) s)
        λ _ r p. record {
          value = boolean true;
          spelled = p;
          canonical = start-depth d s letter_t e refl;
        })
value-Sound fuel d s els mems letter_f e =
    rw (e, parse_value)
      (Ensures-map _ _ (parse_lit (b'f' ∷ b'a' ∷ b'l' ∷ b's' ∷ b'e' ∷ []) s)
        (parse_lit-Ensures (b'f' ∷ b'a' ∷ b'l' ∷ b's' ∷ b'e' ∷ []) s)
        λ _ r p. record {
          value = boolean false;
          spelled = p;
          canonical = start-depth d s letter_f e refl;
        })
value-Sound fuel d s els mems letter_n e =
    rw (e, parse_value)
      (Ensures-map _ _ (parse_lit (b'n' ∷ b'u' ∷ b'l' ∷ b'l' ∷ []) s)
        (parse_lit-Ensures (b'n' ∷ b'u' ∷ b'l' ∷ b'l' ∷ []) s)
        λ _ r p. record { value = null; spelled = p; canonical = start-depth d s letter_n e refl })
value-Sound fuel d s els mems digit e =
    rw (e, parse_value)
      (Ensures-map _ _ (parse_number s) (parse_number-Ensures s) λ _ r (minus, (n, (p, lt))).
        record {
          value = number minus n;
          spelled = p;
          canonical = (start-depth d s digit e refl, lt);
        })
value-Sound fuel d s els mems space e = rw (e, parse_value) tt
value-Sound fuel d s els mems other e = rw (e, parse_value) tt
value-Sound fuel d s els mems nothing e = rw (e, parse_value) tt

elements-Sound : (fuel : ℕ) → ValueSound fuel → ElementsSound fuel → ElementsSound (suc fuel)
unfolding ValueSound ElementsSound parse_elements Ensures SpellsRest CanonicalElements
elements-Sound fuel value els d s =
    Ensures->>= _ _ (parse_value fuel (d + 1) s) _ (value (d + 1) s) λ _ r v.
      separator-Ensures _ b']' r (λ r'. parse_elements fuel d r') (λ r'. read tt r') _
        (λ r' p. Ensures-map _ _ (parse_elements fuel d r') (els d r') λ _ r'' m. record {
          first = v.value;
          others = element m.first m.others;
          mid = r;
          first_spelled = v.spelled;
          others_spelled = (r', (p, (m.mid, (m.first_spelled, m.others_spelled))));
          first_canonical = v.canonical;
          others_canonical = (m.first_canonical, m.others_canonical);
        })
        (λ r' p. record {
          first = v.value;
          others = no_elements;
          mid = r;
          first_spelled = v.spelled;
          others_spelled = p;
          first_canonical = v.canonical;
          others_canonical = tt;
        })
        tt

members-Sound : (fuel : ℕ) → ValueSound fuel → MembersSound fuel → MembersSound (suc fuel)
unfolding ValueSound MembersSound parse_members Ensures SpellsMembers CanonicalMembers Ascending
members-Sound fuel value mems d prev s = Ensures-bool _ (starts_key s) _ _ tt λ _.
    Ensures->>= _ _ (parse_string fuel s) _ (parse_string-Ensures fuel s) λ key r k.
      Ensures-bool _ (in_order prev key) _ _ tt λ above.
        Ensures->>= _ _ (expect b':' r) _ (expect-Ensures b':' r) λ _ r' c.
          Ensures->>= _ _ (parse_value fuel (d + 1) r') _ (value (d + 1) r') λ _ r'' v.
            separator-Ensures _ b'}' r'' (λ q. parse_members fuel d (some key) q) (λ q. read tt q) _
              (λ q p.
                Ensures-map _ _ (parse_members fuel d (some key) q) (mems d (some key) q) λ _ q' m.
                  record {
                    key = key;
                    first = v.value;
                    others = member m.key m.first m.others;
                    colon = r';
                    mid = r'';
                    key_spelled = subst (λ x. SpellsText key s x) c k;
                    first_spelled = v.spelled;
                    others_spelled = (
                      q,
                      (p, (m.colon, (m.key_spelled, (m.mid, (m.first_spelled, m.others_spelled))))),
                    );
                    key_above = above;
                    others_above = (m.key_above, m.others_above);
                    first_canonical = v.canonical;
                    others_canonical = (m.first_canonical, m.others_canonical);
                  })
              (λ q p. record {
                key = key;
                first = v.value;
                others = no_members;
                colon = r';
                mid = r'';
                key_spelled = subst (λ x. SpellsText key s x) c k;
                first_spelled = v.spelled;
                others_spelled = p;
                key_above = above;
                others_above = tt;
                first_canonical = v.canonical;
                others_canonical = tt;
              })
              tt

all-Sound : (fuel : ℕ) → ValueSound fuel × (ElementsSound fuel × MembersSound fuel)
unfolding ValueSound ElementsSound MembersSound Ensures parse_value parse_elements parse_members
all-Sound zero = (λ d s. tt, (λ d s. tt, λ d prev s. tt))
all-Sound (suc fuel) =
    let rest = all-Sound fuel in
    (
      λ d s. value-Sound fuel d s rest.1.0 rest.1.1 (start d s) refl,
      (elements-Sound fuel rest.0 rest.1.0, members-Sound fuel rest.0 rest.1.1),
    )

whole-IsRead :
    (s : Bytes) (p : Parsed (Unit {0}))
    → Ensures (λ _ r. IsRead 0 s r) p
    → whole p ≡ some (success tt)
    → IsRead 0 s []
unfolding Ensures
whole-IsRead s (read a []) h e = h
whole-IsRead s (read a (b ∷ r)) h e = ground (arith, e)
whole-IsRead s (invalid x) h e = ground (arith, e)
whole-IsRead s out_of_fuel h e = ground (arith, e)

-- Whatever the validator accepts is UTF-8 and spells a canonical tree.
pub validate_sound :
    (s : Bytes)
    → validate_bytes s ≡ some (success tt)
    → (is_utf8 s ≡ true) × ((v : Json) × (Spells v s [] × Canonical 0 v))
unfolding validate_bytes ValueSound
validate_sound s e = elim (Bool-cases (is_utf8 s)) [
  | inl u ↦
      let v =
        whole-IsRead s (parse_value (2 * length s + 1) 0 s) ((all-Sound (2 * length s + 1)).0 0 s)
          (rw (u, validate_bytes) at e) in
      (u, (v.value, (v.spelled, v.canonical)))
  | inr u ↦ ground (arith, rw (u, validate_bytes) at e)
]
