-- ===== src/Canon/Accepts.antt =====
-- That the parsers of strings and numbers of `crates/ppg3-core/src/canon.rs` read what is spelled.
use ppg.Common.{
  ℕ, zero, suc, ◌+◌, ◌*◌, ◌-◌, ◌≤◌, ◌<◌, Bool, true, false, ◌&&◌, ◌||◌, none, [], ◌∷◌, ◌≡◌, refl,
  ap, ◌++◌, length, arith, inl, inr, Bool-cases, ◌=ℕ◌,
}
use ppg.Canon.Utf8.{Bytes, read, is_digit}
use ppg.Canon.Text.{expect, string_round, parse_chars, parse_string}
use ppg.Canon.Value.{
  span_digits, number_digits, is_float, check_range, finish_number, parse_number, digit, start_of,
  closes,
}
use ppg.Canon.Progress.{Advances-length, string_round-Advances}
use ppg.Canon.Reads.{=ℕ-≡}
use ppg.Canon.Grammar.{
  decimal, all_digits, no_bytes, numeral, sign, Chars, quote, char, SpellsText, magnitude_bound,
}

-- What may stand behind a value.
abbrev pub ends_value : Bytes → Bool
ends_value [] = true
ends_value (b ∷ r) = b =ℕ b',' || (b =ℕ b']' || b =ℕ b'}')

parse_chars-Chars :
    (fuel : ℕ) (out s t r : Bytes)
    → Chars out s t r
    → length s < fuel
    → parse_chars fuel out s ≡ read t r
unfolding parse_chars
parse_chars-Chars zero out s t r h lt = ground arith
parse_chars-Chars (suc fuel) out s t r (quote e) lt = rw (e, parse_chars) refl
parse_chars-Chars (suc fuel) out s t r (char {c = c} {s' = s'} e rest) lt =
    rw (e, parse_chars)
      (parse_chars-Chars fuel (out ++ c) s' t r rest (
        omega (arith, Advances-length (length s) (string_round s) _ _ (string_round-Advances s) e)))

pub parse_string-SpellsText :
    (fuel : ℕ) (t s r : Bytes) → SpellsText t s r → length s ≤ fuel → parse_string fuel s ≡ read t r
unfolding SpellsText parse_string expect
parse_string-SpellsText fuel t s r (s', (p, h)) le =
    rw p (parse_chars-Chars fuel [] s' t r h (omega (arith, ap length p)))

both : (a b : Bool) → (a && b) ≡ true → (a ≡ true) × (b ≡ true)
both true true e = (refl, refl)
both true false e = ground (arith, e)
both false b e = ground (arith, e)

ends_value-is_digit : (b : ℕ) (r : Bytes) → ends_value (b ∷ r) ≡ true → is_digit b ≡ false
ends_value-is_digit b r h = ground arith

span_digits-all :
    (n : ℕ) (ds r : Bytes)
    → all_digits ds ≡ true
    → ends_value r ≡ true
    → span_digits n (ds ++ r) ≡ record { value = decimal n ds; rest = r }
unfolding span_digits all_digits decimal
span_digits-all n [] [] e h = refl
span_digits-all n [] (b ∷ r) e h = rw (ends_value-is_digit b r h, span_digits) refl
span_digits-all n (b ∷ ds) r e h =
    let (p, q) = both (is_digit b) (all_digits ds) e in
    rw (p, span_digits) (span_digits-all (10 * n + (b - b'0')) ds r q h)

no_bytes-[] : (s : Bytes) → no_bytes s ≡ true → s ≡ []
no_bytes-[] [] e = refl
no_bytes-[] (b ∷ s) e = ground (arith, e)

number_digits-numeral :
    (ds r : Bytes)
    → numeral ds ≡ true
    → ends_value r ≡ true
    → number_digits (ds ++ r) ≡ read (decimal 0 ds) r
unfolding number_digits numeral all_digits decimal span_digits
number_digits-numeral [] r e h = ground arith
number_digits-numeral (b ∷ ds) r e h = elim (Bool-cases (b =ℕ b'0')) [
  | inl p ↦ rw (=ℕ-≡ b b'0' p, no_bytes-[] ds (rw (p, numeral) at e)) refl
  | inr p ↦
      let (q, q') = both (is_digit b) (all_digits ds) (rw (p, numeral) at e) in
      rw (p, q, span_digits) (rw (span_digits-all (0 + (b - b'0')) ds r q' h) refl)
]

is_float-ends_value : (r : Bytes) → ends_value r ≡ true → is_float r ≡ false
is_float-ends_value [] h = refl
is_float-ends_value (b ∷ r) h = ground arith

check_range-bound :
    (minus : Bool) (n : ℕ) (r : Bytes)
    → n < magnitude_bound minus
    → check_range minus n r ≡ read tt r
check_range-bound true n r lt = ground arith
check_range-bound false n r lt = ground arith

finish_number-numeral :
    (minus : Bool) (ds r : Bytes)
    → numeral ds ≡ true
    → ends_value r ≡ true
    → decimal 0 ds < magnitude_bound minus
    → finish_number minus (ds ++ r) ≡ read tt r
unfolding finish_number
finish_number-numeral minus ds r e h lt =
    rw (finish_number, number_digits-numeral ds r e h)
      (rw (is_float-ends_value r h) (check_range-bound minus (decimal 0 ds) r lt))

-- A numeral starts with a digit.
numeral-head : (b : ℕ) (ds : Bytes) → numeral (b ∷ ds) ≡ true → is_digit b ≡ true
unfolding numeral all_digits
numeral-head b ds e = elim (Bool-cases (b =ℕ b'0')) [
  | inl p ↦ ground (arith, p)
  | inr p ↦ (both (is_digit b) (all_digits ds) (rw (p, numeral) at e)).0
]

digit-plain : (b : ℕ) → is_digit b ≡ true → (b =ℕ b'-') ≡ false
digit-plain b e = ground arith

digit-start : (b : ℕ) → is_digit b ≡ true → start_of (b ∷ []) ≡ digit
digit-start b e = ground arith

pub parse_number-numeral :
    (minus : Bool) (ds r : Bytes)
    → numeral ds ≡ true
    → ends_value r ≡ true
    → decimal 0 ds < magnitude_bound minus
    → parse_number (sign minus (ds ++ r)) ≡ read tt r
unfolding parse_number numeral
parse_number-numeral true ds r e h lt = finish_number-numeral true ds r e h lt
parse_number-numeral false [] r e h lt = ground (arith, e)
parse_number-numeral false (b ∷ ds) r e h lt =
    rw (digit-plain b (numeral-head b ds e)) (finish_number-numeral false (b ∷ ds) r e h lt)

pub start_of-numeral :
    (minus : Bool) (ds r : Bytes) → numeral ds ≡ true → start_of (sign minus (ds ++ r)) ≡ digit
unfolding numeral
start_of-numeral true ds r e = refl
start_of-numeral false [] r e = ground arith
start_of-numeral false (b ∷ ds) r e = digit-start b (numeral-head b ds e)

digit-open : (b : ℕ) → is_digit b ≡ true → (b =ℕ b']') ≡ false
digit-open b e = ground arith

pub closes-numeral :
    (minus : Bool) (ds r : Bytes) → numeral ds ≡ true → closes b']' (sign minus (ds ++ r)) ≡ none
unfolding numeral
closes-numeral true ds r e = refl
closes-numeral false [] r e = ground (arith, e)
closes-numeral false (b ∷ ds) r e = rw (digit-open b (numeral-head b ds e)) refl

pub expect-head : (c : ℕ) (s : Bytes) → expect c (c ∷ s) ≡ read tt s
unfolding expect
expect-head c s = ground arith
