-- ===== src/Canon/Progress.antt =====
-- That the parsers of strings and numbers move forward: `crates/ppg3-core/src/canon.rs`.
use ppg.Common.{
  subst, ℕ, zero, suc, ◌+◌, ◌≤◌, ◌<◌, Bool, true, false, Option, none, some, [], ◌∷◌, ◌≡◌, refl,
  ◌++◌, length, take, if◌then◌else◌, ◌=ℕ◌, ltb, inl, inr, arith, Option-cases,
}
use ppg.Canon.Utf8.{Bytes, Parsed, read, invalid, out_of_fuel, ◌>>=◌, within, lead, is_utf8}
use ppg.Canon.Text.{
  expect, strip, parse_lit, from_hex, parse_hex4, low_surrogate, unicode_escape, escape,
  expect_surrogate, short_escape, skip, plain_char, string_round, parse_chars, parse_string,
}

-- The parser does not run out of fuel, and where it has read something, fewer than `n` bytes are left.
unfoldable pub Advances {ℓ} : {A : Type ℓ} → ℕ → Parsed A → Type 0
Advances n (read a s) = length s < n
Advances n (invalid e) = Unit {0}
Advances n out_of_fuel = ⊥

pub Advances-length {ℓ} :
    {A : Type ℓ} (n : ℕ) (p : Parsed A) (a : A) (s : Bytes)
    → Advances n p
    → p ≡ read a s
    → length s < n
unfolding Advances
Advances-length n p a s h e = subst (Advances n) e h

pub Advances->>= {ℓ ℓ'} :
    {A : Type ℓ} {B : Type ℓ'} (n : ℕ) (p : Parsed A) (k : A → Bytes → Parsed B)
    → Advances n p
    → ((a : A) (s : Bytes) → length s < n → Advances n (k a s))
    → Advances n (p >>= k)
unfolding Advances
Advances->>= n (read a s) k h f = f a s h
Advances->>= n (invalid e) k h f = tt
Advances->>= n out_of_fuel k h f = h

pub Advances-≤ {ℓ} : {A : Type ℓ} (m n : ℕ) (p : Parsed A) → m ≤ n → Advances m p → Advances n p
unfolding Advances
Advances-≤ m n (read a s) le h = omega arith
Advances-≤ m n (invalid e) le h = tt
Advances-≤ m n out_of_fuel le h = h

pub Advances-if {ℓ} :
    {A : Type ℓ} (n : ℕ) (b : Bool) (p q : Parsed A)
    → (b ≡ true → Advances n p)
    → (b ≡ false → Advances n q)
    → Advances n (if b then p else q)
Advances-if n true p q h k = h refl
Advances-if n false p q h k = k refl

-- A test that only picks among what advances.
pub Advances-both {ℓ} :
    {A : Type ℓ} (n : ℕ) (b : Bool) (p q : Parsed A)
    → Advances n p
    → Advances n q
    → Advances n (if b then p else q)
Advances-both n b p q h k = Advances-if n b p q (λ _. h) (λ _. k)

pub Advances-option {ℓ ℓ'} :
    {A : Type ℓ} {B : Type ℓ'} (n : ℕ) (o : Option B) (p : Parsed A) (k : B → Parsed A)
    → Advances n p
    → ((b : B) → Advances n (k b))
    → Advances n (elim o [ none ↦ p | some b ↦ k b ])
Advances-option n none p k h f = h
Advances-option n (some b) p k h f = f b

pub expect-Advances : (c : ℕ) (s : Bytes) → Advances (length s) (expect c s)
unfolding Advances expect
expect-Advances c [] = tt
expect-Advances c (b ∷ s) = Advances-both _ (b =ℕ c) (read tt s) _ (omega arith) tt

strip-length : (lit s rest : Bytes) → strip lit s ≡ some rest → length s ≡ length lit + length rest
unfolding strip
strip-length [] s rest e = ground arith
strip-length (a ∷ lit) [] rest e = ground arith
strip-length (a ∷ lit) (b ∷ s) rest e = ground (arith, strip-length lit s rest)

pub parse_lit-Advances : (a : ℕ) (lit s : Bytes) → Advances (length s) (parse_lit (a ∷ lit) s)
unfolding Advances parse_lit
parse_lit-Advances a lit s = elim (Option-cases (strip (a ∷ lit) s)) [
  | inl e ↦ rw (e, parse_lit) tt
  | inr (rest, e) ↦ rw (e, parse_lit) (ground (arith, strip-length (a ∷ lit) s rest e))
]

pub parse_hex4-Advances : (s : Bytes) → Advances (length s) (parse_hex4 s)
unfolding Advances parse_hex4
parse_hex4-Advances [] = tt
parse_hex4-Advances (a ∷ []) = tt
parse_hex4-Advances (a ∷ b ∷ []) = tt
parse_hex4-Advances (a ∷ b ∷ c ∷ []) = tt
parse_hex4-Advances (a ∷ b ∷ c ∷ d ∷ s) =
    Advances-both _ (is_utf8 (a ∷ b ∷ c ∷ d ∷ [])) _ _
      (Advances-option _ (from_hex (a ∷ b ∷ c ∷ d ∷ [])) _ (λ v. read v s) tt (λ v. omega arith)) tt

expect_surrogate-Advances : (c : ℕ) (s : Bytes) → Advances (length s) (expect_surrogate c s)
unfolding Advances
expect_surrogate-Advances c [] = tt
expect_surrogate-Advances c (b ∷ s) = Advances-both _ (b =ℕ c) (read tt s) _ (omega arith) tt

low_surrogate-Advances : (cp : ℕ) (s : Bytes) → Advances (length s) (low_surrogate cp s)
unfolding Advances low_surrogate
low_surrogate-Advances cp s =
    Advances->>= _ (expect_surrogate b'\\' s) _ (expect_surrogate-Advances b'\\' s) λ _ r h.
      Advances->>= _ (expect_surrogate b'u' r) _
        (Advances-≤ (length r) (length s) _ (omega arith) (expect_surrogate-Advances b'u' r))
        λ _ r' h'.
          Advances->>= _ (parse_hex4 r') _
            (Advances-≤ (length r') (length s) _ (omega arith) (parse_hex4-Advances r'))
            λ low r'' h''. Advances-both _ (within 0xDC00 0xDFFF low) _ _ h'' tt

unicode_escape-Advances : (s : Bytes) → Advances (length s) (unicode_escape s)
unfolding Advances unicode_escape
unicode_escape-Advances s = Advances->>= _ (parse_hex4 s) _ (parse_hex4-Advances s) λ cp r h.
    Advances-both _ (within 0xD800 0xDBFF cp) _ _
      (Advances-≤ (length r) (length s) _ (omega arith) (low_surrogate-Advances cp r))
      (Advances-both _ (within 0xDC00 0xDFFF cp) _ _ tt h)

escape-Advances : (s : Bytes) → Advances (length s) (escape s)
unfolding Advances escape
escape-Advances [] = tt
escape-Advances (b ∷ s) = elim (Option-cases (short_escape b)) [
  | inl e ↦
      rw (e, escape)
        (Advances-both _ (b =ℕ b'u') _ _
          (Advances-≤ (length s) _ _ (omega arith) (unicode_escape-Advances s)) tt)
  | inr (c, e) ↦ rw (e, escape) (omega arith)
]

skip-length : (n : ℕ) (s : Bytes) → length (skip n s) ≤ length s
skip-length zero s = omega arith
skip-length (suc n) [] = omega arith
skip-length (suc n) (b ∷ s) = ground (arith, skip-length n s)

plain_char-Advances : (b : ℕ) (s : Bytes) → Advances (suc (length s)) (plain_char b s)
unfolding Advances plain_char
plain_char-Advances b s =
    Advances-both _ (is_utf8 (b ∷ s)) _ _
      (Advances-option _ (lead b) _ (λ u. read (b ∷ take u.pending s) (skip u.pending s)) tt
        (λ u. ground (arith, skip-length u.pending s)))
      tt

pub string_round-Advances : (s : Bytes) → Advances (length s) (string_round s)
unfolding Advances string_round
string_round-Advances [] = tt
string_round-Advances (b ∷ s) = Advances-both _ (b =ℕ b'"') _ _ (omega arith) (
    Advances-both _ (b =ℕ b'\\') _ _
      (Advances->>= _ (escape s) _ (Advances-≤ (length s) _ _ (omega arith) (escape-Advances s))
        (λ c r h. h))
      (Advances-both _ (ltb b 0x20) _ _ tt (
        Advances->>= _ (plain_char b s) _
          (Advances-≤ (suc (length s)) _ _ (omega arith) (plain_char-Advances b s)) (λ c r h. h))))

parse_chars-Advances :
    (fuel : ℕ) (out s : Bytes) → length s < fuel → Advances (length s) (parse_chars fuel out s)
unfolding Advances parse_chars
parse_chars-Advances zero out s lt = ground arith
parse_chars-Advances (suc fuel) out s lt =
    Advances->>= _ (string_round s) _ (string_round-Advances s) λ piece r h.
      Advances-option _ piece (read out r) _ h λ c.
        Advances-≤ (length r) _ _ (omega arith)
          (parse_chars-Advances fuel (out ++ c) r (omega arith))

pub parse_string-Advances :
    (fuel : ℕ) (s : Bytes) → length s ≤ fuel → Advances (length s) (parse_string fuel s)
unfolding parse_string
parse_string-Advances fuel s le =
    Advances->>= _ (expect b'"' s) _ (expect-Advances b'"' s) λ _ r h.
      Advances-≤ (length r) _ _ (omega arith) (parse_chars-Advances fuel [] r (omega arith))
