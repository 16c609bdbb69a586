-- ===== src/Canon/Terminates.antt =====
-- That `validate` of `crates/ppg3-core/src/canon.rs` comes to an end.
use ppg.Common.{
  ℕ, zero, suc, ◌+◌, ◌*◌, ◌-◌, ◌^◌, ◌≤◌, ◌<◌, Bool, true, false, Option, none, some, [], ◌∷◌, ◌≡◌,
  ◌≢◌, refl, length, arith, inl, inr, Bool-cases, ltb, leb, ◌=ℕ◌,
}
use ppg.Canon.Utf8.{Bytes, Parsed, read, invalid, out_of_fuel, is_digit, is_utf8}
use ppg.Canon.Text.{expect, parse_string}
use ppg.Canon.Value.{
  span_digits, number_digits, is_float, check_range, finish_number, parse_number, Start, start,
  separator, more, closed, neither, too_deep, brace, bracket, quote, letter_t, letter_f, letter_n,
  digit, space, other, nothing, closes, in_order, starts_key, parse_value, parse_elements,
  parse_members, whole, validate_bytes,
}
use ppg.Canon.Progress.{
  Advances, Advances->>=, Advances-≤, Advances-if, Advances-both, expect-Advances,
  parse_lit-Advances, parse_string-Advances,
}

span_digits-length : (n : ℕ) (s : Bytes) → length (span_digits n s).rest ≤ length s
unfolding span_digits
span_digits-length n [] = omega arith
span_digits-length n (b ∷ s) = elim (Bool-cases (is_digit b)) [
  | inl e ↦ rw (e, span_digits) (ground (arith, span_digits-length (10 * n + (b - b'0')) s))
  | inr e ↦ rw (e, span_digits) (omega arith)
]

number_digits-Advances : (s : Bytes) → Advances (length s) (number_digits s)
unfolding Advances number_digits span_digits
number_digits-Advances [] = tt
number_digits-Advances (b ∷ s) = Advances-both _ (b =ℕ b'0') _ _ (omega arith) (
    Advances-if _ (is_digit b) _ _
      (λ e. rw (e, span_digits) (ground (arith, span_digits-length (10 * 0 + (b - b'0')) s)))
      (λ _. tt))

check_range-Advances :
    (minus : Bool) (n v : ℕ) (s : Bytes) → length s < n → Advances n (check_range minus v s)
unfolding Advances
check_range-Advances true n v s lt = Advances-both _ (leb v (2 ^ 63)) _ _ lt tt
check_range-Advances false n v s lt = Advances-both _ (ltb v (2 ^ 64)) _ _ lt tt

finish_number-Advances : (minus : Bool) (s : Bytes) → Advances (length s) (finish_number minus s)
unfolding Advances finish_number
finish_number-Advances minus s =
    Advances->>= _ (number_digits s) _ (number_digits-Advances s)
      λ v r h. Advances-both _ (is_float r) _ _ tt (check_range-Advances minus _ v r h)

parse_number-Advances : (s : Bytes) → Advances (length s) (parse_number s)
unfolding Advances parse_number
parse_number-Advances [] = tt
parse_number-Advances (b ∷ s) =
    Advances-both _ (b =ℕ b'-') _ _
      (Advances-≤ (length s) _ _ (omega arith) (finish_number-Advances true s))
      (finish_number-Advances false (b ∷ s))

Advances-bool {ℓ} :
    {A : Type ℓ} (n : ℕ) (b : Bool) (p q : Parsed A)
    → Advances n p
    → Advances n q
    → Advances n (elim b [ false ↦ p | true ↦ q ])
Advances-bool n false p q h k = h
Advances-bool n true p q h k = k

Advances-closes {ℓ} :
    {A : Type ℓ} (close : ℕ) (s : Bytes) (p : Parsed A) (q : Bytes → Parsed A) (n : ℕ)
    → Advances n p
    → ((r : Bytes) → length r < length s → Advances n (q r))
    → Advances n (elim (closes close s) [ some r ↦ q r | none ↦ p ])
Advances-closes close [] p q n h k = h
Advances-closes close (b ∷ s) p q n h k = elim (Bool-cases (b =ℕ close)) [
  | inl e ↦ rw e (k s (omega arith))
  | inr e ↦ rw e h
]

Advances-separator {ℓ} :
    {A : Type ℓ} (close : ℕ) (s : Bytes) (p q : Bytes → Parsed A) (x : Parsed A) (n : ℕ)
    → ((r : Bytes) → length r < length s → Advances n (p r))
    → ((r : Bytes) → length r < length s → Advances n (q r))
    → Advances n x
    → Advances n (elim (separator close s) [ more r ↦ p r | closed r ↦ q r | neither ↦ x ])
Advances-separator close [] p q x n h k f = f
Advances-separator close (b ∷ s) p q x n h k f = elim (Bool-cases (b =ℕ b',')) [
  | inl e ↦ rw e (h s (omega arith))
  | inr e ↦
      rw e
        (elim (Bool-cases (b =ℕ close)) [ inl e' ↦ rw e' (k s (omega arith)) | inr e' ↦ rw e' f ])
]

-- With this fuel the three loops come to an end: two for a byte, one for a value, two for a sequence.
ValueRuns : ℕ → Type 0
ValueRuns fuel =
    (depth : ℕ) (s : Bytes)
    → 2 * length s + 1 ≤ fuel
    → Advances (length s) (parse_value fuel depth s)

ElementsRun : ℕ → Type 0
ElementsRun fuel =
    (depth : ℕ) (s : Bytes)
    → 2 * length s + 2 ≤ fuel
    → Advances (length s) (parse_elements fuel depth s)

MembersRun : ℕ → Type 0
MembersRun fuel =
    (depth : ℕ) (prev : Option Bytes) (s : Bytes)
    → 2 * length s + 2 ≤ fuel
    → Advances (length s) (parse_members fuel depth prev s)

value-Runs :
    (fuel depth : ℕ) (s : Bytes)
    → 2 * length s + 1 ≤ suc fuel
    → ElementsRun fuel
    → MembersRun fuel
    → (k : Start) → start depth s ≡ k
    → Advances (length s) (parse_value (suc fuel) depth s)
unfolding ElementsRun MembersRun Advances parse_value
value-Runs fuel depth s le els mems too_deep e = rw (e, parse_value) tt
value-Runs fuel depth s le els mems brace e =
    rw (e, parse_value)
      (Advances->>= _ (expect b'{' s) _ (expect-Advances b'{' s) λ _ r h.
        Advances-closes b'}' r _ (λ r'. read tt r') _
          (Advances-≤ (length r) _ _ (omega arith) (mems depth none r (omega arith)))
          (λ r' h'. omega arith))
value-Runs fuel depth s le els mems bracket e =
    rw (e, parse_value)
      (Advances->>= _ (expect b'[' s) _ (expect-Advances b'[' s) λ _ r h.
        Advances-closes b']' r _ (λ r'. read tt r') _
          (Advances-≤ (length r) _ _ (omega arith) (els depth r (omega arith)))
          (λ r' h'. omega arith))
value-Runs fuel depth s le els mems quote e =
    rw (e, parse_value)
      (Advances->>= _ (parse_string fuel s) _ (parse_string-Advances fuel s (omega arith))
        λ _ r h. h)
value-Runs fuel depth s le els mems letter_t e =
    rw (e, parse_value) (parse_lit-Advances b't' (b'r' ∷ b'u' ∷ b'e' ∷ []) s)
value-Runs fuel depth s le els mems letter_f e =
    rw (e, parse_value) (parse_lit-Advances b'f' (b'a' ∷ b'l' ∷ b's' ∷ b'e' ∷ []) s)
value-Runs fuel depth s le els mems letter_n e =
    rw (e, parse_value) (parse_lit-Advances b'n' (b'u' ∷ b'l' ∷ b'l' ∷ []) s)
value-Runs fuel depth s le els mems digit e = rw (e, parse_value) (parse_number-Advances s)
value-Runs fuel depth s le els mems space e = rw (e, parse_value) tt
value-Runs fuel depth s le els mems other e = rw (e, parse_value) tt
value-Runs fuel depth s le els mems nothing e = rw (e, parse_value) tt

elements-Run : (fuel : ℕ) → ValueRuns fuel → ElementsRun fuel → ElementsRun (suc fuel)
unfolding ValueRuns ElementsRun parse_elements Advances
elements-Run fuel value els depth s le =
    Advances->>= _ (parse_value fuel (depth + 1) s) _ (value (depth + 1) s (omega arith)) λ _ r h.
      Advances-separator b']' r (λ r'. parse_elements fuel depth r') (λ r'. read tt r') _ _
        (λ r' h'. Advances-≤ (length r') _ _ (omega arith) (els depth r' (omega arith)))
        (λ r' h'. omega arith) tt

members-Run : (fuel : ℕ) → ValueRuns fuel → MembersRun fuel → MembersRun (suc fuel)
unfolding ValueRuns MembersRun parse_members Advances
members-Run fuel value mems depth prev s le = Advances-bool _ (starts_key s) _ _ tt (
    Advances->>= _ (parse_string fuel s) _ (parse_string-Advances fuel s (omega arith)) λ key r h.
      Advances-bool _ (in_order prev key) _ _ tt (
        Advances->>= _ (expect b':' r) _
          (Advances-≤ (length r) _ _ (omega arith) (expect-Advances b':' r))
          λ _ r' h'.
            Advances->>= _ (parse_value fuel (depth + 1) r') _
              (Advances-≤ (length r') _ _ (omega arith) (value (depth + 1) r' (omega arith)))
              λ _ r'' h''.
                Advances-separator b'}' r'' (λ q. parse_members fuel depth (some key) q)
                  (λ q. read tt q) _ _
                  (λ q g.
                    Advances-≤ (length q) _ _ (omega arith) (mems depth (some key) q (omega arith)))
                  (λ q g. omega arith) tt))

all-Run : (fuel : ℕ) → ValueRuns fuel × (ElementsRun fuel × MembersRun fuel)
unfolding ValueRuns ElementsRun MembersRun
all-Run zero =
    (λ depth s le. ground arith, (λ depth s le. ground arith, λ depth prev s le. ground arith))
all-Run (suc fuel) =
    let rest = all-Run fuel in
    (
      λ depth s le. value-Runs fuel depth s le rest.1.0 rest.1.1 (start depth s) refl,
      (elements-Run fuel rest.0 rest.1.0, members-Run fuel rest.0 rest.1.1),
    )

pub parse_value-Advances :
    (fuel d : ℕ) (s : Bytes) → 2 * length s + 1 ≤ fuel → Advances (length s) (parse_value fuel d s)
unfolding ValueRuns
parse_value-Advances fuel d s le = (all-Run fuel).0 d s le

whole-Advances : (n : ℕ) (p : Parsed (Unit {0})) → Advances n p → whole p ≢ none
unfolding Advances
whole-Advances n (read a s) h = λ e. ground (arith, e)
whole-Advances n (invalid x) h = λ e. ground (arith, e)
whole-Advances n out_of_fuel h = λ e. h

-- The validator gives a verdict on every sequence of bytes: the fuel of twice its length and one is enough for
-- its recursion and its loops.
pub validate_decides : (s : Bytes) → validate_bytes s ≢ none
unfolding validate_bytes
validate_decides s = elim (Bool-cases (is_utf8 s)) [
  | inl e ↦
      rw (validate_bytes, e)
        (whole-Advances _ _ (parse_value-Advances (2 * length s + 1) 0 s (omega arith)))
  | inr e ↦ rw (validate_bytes, e) (λ p. ground (arith, p))
]
