-- ===== src/Canon/Reads.antt =====
-- What the parsers of `crates/ppg3-core/src/canon.rs` below `parse_value` read.
use ppg.Common.{
  ℕ, zero, suc, ◌+◌, ◌*◌, ◌-◌, ◌^◌, ◌<◌, Bool, true, false, Option, none, some, [], ◌∷◌, ◌≡◌, refl,
  ap, subst, ◌∙◌, ◌++◌, arith, inl, inr, Option-cases, Bool-cases, ltb, leb, ◌=ℕ◌, if◌then◌else◌,
}
use ppg.Canon.Utf8.{Bytes, Parsed, read, invalid, out_of_fuel, ◌>>=◌, is_digit}
use ppg.Canon.Text.{expect, strip, parse_lit, string_round, parse_chars, parse_string}
use ppg.Canon.Value.{
  span_digits, number_digits, is_float, check_range, finish_number, parse_number, closes, separator,
  more, closed, neither,
}
use ppg.Canon.Grammar.{
  decimal, all_digits, numeral, sign, Chars, quote, char, SpellsText, magnitude_bound,
}

-- Whatever the parser reads has the property.
unfoldable pub Ensures {ℓ ℓ'} : {A : Type ℓ} → (A → Bytes → Type ℓ') → Parsed A → Type ℓ'
Ensures Q (read a s) = Q a s
Ensures Q (invalid e) = Unit
Ensures Q out_of_fuel = Unit

pub Ensures->>= {ℓ ℓ' κ κ'} :
    {A : Type ℓ} {B : Type ℓ'} (Q : A → Bytes → Type κ) (R : B → Bytes → Type κ') (p : Parsed A)
    (k : A → Bytes → Parsed B)
    → Ensures Q p
    → ((a : A) (s : Bytes) → Q a s → Ensures R (k a s))
    → Ensures R (p >>= k)
unfolding Ensures
Ensures->>= Q R (read a s) k h f = f a s h
Ensures->>= Q R (invalid e) k h f = tt
Ensures->>= Q R out_of_fuel k h f = tt

pub Ensures-map {ℓ κ} :
    {A : Type ℓ} (Q R : A → Bytes → Type κ) (p : Parsed A)
    → Ensures Q p
    → ((a : A) (s : Bytes) → Q a s → R a s)
    → Ensures R p
unfolding Ensures
Ensures-map Q R (read a s) h f = f a s h
Ensures-map Q R (invalid e) h f = tt
Ensures-map Q R out_of_fuel h f = tt

-- What is read is what the parser reads.
pub Ensures-itself {ℓ} : {A : Type ℓ} (p : Parsed A) → Ensures (λ a s. p ≡ read a s) p
unfolding Ensures
Ensures-itself (read a s) = refl
Ensures-itself (invalid e) = tt
Ensures-itself out_of_fuel = tt

pub Ensures-if {ℓ κ} :
    {A : Type ℓ} (Q : A → Bytes → Type κ) (b : Bool) (p q : Parsed A)
    → (b ≡ true → Ensures Q p)
    → (b ≡ false → Ensures Q q)
    → Ensures Q (if b then p else q)
Ensures-if Q true p q h k = h refl
Ensures-if Q false p q h k = k refl

pub Ensures-bool {ℓ κ} :
    {A : Type ℓ} (Q : A → Bytes → Type κ) (b : Bool) (e : Parsed A) (p : Parsed A)
    → Ensures Q e
    → (b ≡ true → Ensures Q p)
    → Ensures Q (elim b [ false ↦ e | true ↦ p ])
Ensures-bool Q true e p h k = k refl
Ensures-bool Q false e p h k = h

pub =ℕ-≡ : (a b : ℕ) → (a =ℕ b) ≡ true → a ≡ b
=ℕ-≡ a b e = ground arith

head-≡ : (a b : ℕ) (s : Bytes) → (a =ℕ b) ≡ true → a ∷ s ≡ b ∷ s
head-≡ a b s e = ap (λ x. x ∷ s) (=ℕ-≡ a b e)

pub expect-Ensures : (c : ℕ) (s : Bytes) → Ensures (λ _ r. s ≡ c ∷ r) (expect c s)
unfolding Ensures expect
expect-Ensures c [] = tt
expect-Ensures c (b ∷ s) = Ensures-if _ (b =ℕ c) _ _ (λ e. head-≡ b c s e) (λ _. tt)

pub closes-Ensures {ℓ κ} :
    {A : Type ℓ} (Q : A → Bytes → Type κ) (close : ℕ) (s : Bytes) (p : Parsed A)
    (q : Bytes → Parsed A)
    → Ensures Q p
    → ((r : Bytes) → s ≡ close ∷ r → Ensures Q (q r))
    → Ensures Q (elim (closes close s) [ some r ↦ q r | none ↦ p ])
closes-Ensures Q close [] p q h k = h
closes-Ensures Q close (b ∷ s) p q h k = elim (Bool-cases (b =ℕ close)) [
  | inl e ↦ rw e (k s (head-≡ b close s e))
  | inr e ↦ rw e h
]

pub separator-Ensures {ℓ κ} :
    {A : Type ℓ} (Q : A → Bytes → Type κ) (close : ℕ) (s : Bytes) (p q : Bytes → Parsed A)
    (x : Parsed A)
    → ((r : Bytes) → s ≡ b',' ∷ r → Ensures Q (p r))
    → ((r : Bytes) → s ≡ close ∷ r → Ensures Q (q r))
    → Ensures Q x
    → Ensures Q (elim (separator close s) [ more r ↦ p r | closed r ↦ q r | neither ↦ x ])
separator-Ensures Q close [] p q x h k f = f
separator-Ensures Q close (b ∷ s) p q x h k f = elim (Bool-cases (b =ℕ b',')) [
  | inl e ↦ rw e (h s (head-≡ b b',' s e))
  | inr e ↦ rw e (elim (Bool-cases (b =ℕ close)) [
    | inl e' ↦ rw e' (k s (head-≡ b close s e'))
    | inr e' ↦ rw e' f
  ])
]

strip-≡ : (lit s rest : Bytes) → strip lit s ≡ some rest → s ≡ lit ++ rest
unfolding strip
strip-≡ [] s rest e = ground arith
strip-≡ (a ∷ lit) [] rest e = ground arith
strip-≡ (a ∷ lit) (b ∷ s) rest e = elim (Bool-cases (a =ℕ b)) [
  | inl p ↦ ground (arith, strip-≡ lit s rest, =ℕ-≡ a b p)
  | inr p ↦ ground arith
]

pub parse_lit-Ensures : (lit s : Bytes) → Ensures (λ _ r. s ≡ lit ++ r) (parse_lit lit s)
unfolding Ensures parse_lit
parse_lit-Ensures lit s = elim (Option-cases (strip lit s)) [
  | inl e ↦ rw (e, parse_lit) tt
  | inr (rest, e) ↦ rw (e, parse_lit) (strip-≡ lit s rest e)
]

round-Chars :
    (out s : Bytes) (piece : Option Bytes) (r : Bytes) (k : Bytes → Bytes → Parsed Bytes)
    → string_round s ≡ read piece r
    → ((c q : Bytes) → Ensures (λ t r'. Chars (out ++ c) q t r') (k c q))
    → Ensures (λ t r'. Chars out s t r') (elim piece [ none ↦ read out r | some c ↦ k c r ])
unfolding Ensures
round-Chars out s none r k e h = quote e
round-Chars out s (some c) r k e h = Ensures-map _ _ (k c r) (h c r) λ t r' rest. char e rest

parse_chars-Ensures :
    (fuel : ℕ) (out s : Bytes) → Ensures (λ t r. Chars out s t r) (parse_chars fuel out s)
unfolding Ensures parse_chars
parse_chars-Ensures zero out s = tt
parse_chars-Ensures (suc fuel) out s =
    Ensures->>= _ _ (string_round s) _ (Ensures-itself (string_round s)) λ piece r e.
      round-Chars out s piece r (λ c q. parse_chars fuel (out ++ c) q) e
        λ c q. parse_chars-Ensures fuel (out ++ c) q

pub parse_string-Ensures :
    (fuel : ℕ) (s : Bytes) → Ensures (λ t r. SpellsText t s r) (parse_string fuel s)
unfolding SpellsText parse_string Ensures
parse_string-Ensures fuel s = Ensures->>= _ _ (expect b'"' s) _ (expect-Ensures b'"' s) λ _ r e.
    Ensures-map _ _ (parse_chars fuel [] r) (parse_chars-Ensures fuel [] r) λ t q c. (r, (e, c))

-- `s` starts with a numeral that stands for `n`, before `r`.
abbrev Numeral : Bytes → ℕ → Bytes → Type 0
Numeral s n r = (ds : Bytes) × ((s ≡ ds ++ r) × ((numeral ds ≡ true) × (decimal 0 ds ≡ n)))

span_digits-≡ :
    (n : ℕ) (s : Bytes)
    → (ds : Bytes) × ((s ≡ ds ++ (span_digits n s).rest)
        × ((all_digits ds ≡ true) × (decimal n ds ≡ (span_digits n s).value)))
unfolding span_digits all_digits decimal
span_digits-≡ n [] = ([], (refl, (refl, refl)))
span_digits-≡ n (b ∷ s) = elim (Bool-cases (is_digit b)) [
  | inl e ↦
      rw (e, span_digits)
        (let (ds, (p, (q, w))) = span_digits-≡ (10 * n + (b - b'0')) s in
          (b ∷ ds, (ap (λ x. b ∷ x) p, (rw (e, q) refl, w))))
  | inr e ↦ rw (e, span_digits) ([], (refl, (refl, refl)))
]

number_digits-Ensures : (s : Bytes) → Ensures (λ n r. Numeral s n r) (number_digits s)
unfolding Ensures number_digits span_digits numeral decimal all_digits
number_digits-Ensures [] = tt
number_digits-Ensures (b ∷ s) =
    Ensures-if _ (b =ℕ b'0') _ _ (λ e. (b'0' ∷ [], (head-≡ b b'0' s e, (refl, refl))))
      (λ e.
        Ensures-if _ (is_digit b) _ _
          (λ e'.
            rw (e', span_digits)
              (let (ds, (p, (q, w))) = span_digits-≡ (10 * 0 + (b - b'0')) s in
                (b ∷ ds, (ap (λ x. b ∷ x) p, (rw (e, e', q) refl, w)))))
          (λ _. tt))

check_range-Ensures :
    (minus : Bool) (n : ℕ) (s : Bytes)
    → Ensures (λ _ r. (s ≡ r) × (n < magnitude_bound minus)) (check_range minus n s)
unfolding Ensures
check_range-Ensures true n s =
    Ensures-if _ (leb n (2 ^ 63)) _ _ (λ e. (refl, ground (arith, e))) (λ _. tt)
check_range-Ensures false n s =
    Ensures-if _ (ltb n (2 ^ 64)) _ _ (λ e. (refl, ground (arith, e))) (λ _. tt)

finish_number-Ensures :
    (minus : Bool) (s : Bytes)
    → Ensures
        (λ _ r. (n : ℕ) × (Numeral s n r × (n < magnitude_bound minus)))
        (finish_number minus s)
unfolding Ensures finish_number
finish_number-Ensures minus s =
    Ensures->>= _ _ (number_digits s) _ (number_digits-Ensures s) λ n r numeral.
      Ensures-if _ (is_float r) _ _ (λ _. tt)
        λ _.
          Ensures-map _ _ (check_range minus n r) (check_range-Ensures minus n r)
            λ _ r' (e, lt). (n, (subst (λ x. Numeral s n x) e numeral, lt))

-- A number's sign, its numeral and its range.
pub parse_number-Ensures :
    (s : Bytes)
    → Ensures
        (λ _ r.
          (minus : Bool) × ((n : ℕ) × (((ds : Bytes) × ((s ≡ sign minus (ds ++ r))
                  × ((numeral ds ≡ true) × (decimal 0 ds ≡ n))))
              × (n < magnitude_bound minus))))
        (parse_number s)
unfolding Ensures parse_number
parse_number-Ensures [] = tt
parse_number-Ensures (b ∷ s) =
    Ensures-if _ (b =ℕ b'-') _ _
      (λ e.
        Ensures-map _ _ (finish_number true s) (finish_number-Ensures true s)
          λ _ r (n, ((ds, (p, q)), lt)).
            (true, (n, ((ds, (head-≡ b b'-' s e ∙ ap (λ x. b'-' ∷ x) p, q)), lt))))
      (λ _.
        Ensures-map _ _ (finish_number false (b ∷ s)) (finish_number-Ensures false (b ∷ s))
          λ _ r (n, (q, lt)). (false, (n, (q, lt))))
