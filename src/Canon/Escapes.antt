-- ===== src/Canon/Escapes.antt =====
-- The digits of a Unicode escape, `parse_hex4` of `crates/ppg3-core/src/canon.rs`.
use ppg.Common.{ℕ, true, some, [], ◌∷◌, ◌≡◌, refl, arith, ltb}
use ppg.Canon.Utf8.{Bytes, is_utf8, utf8_from, lead, continues}
use ppg.Canon.Text.{hex_digit, from_hex, hex_from, parse_hex4}

hex_digit-small : (b x : ℕ) → hex_digit b ≡ some x → ltb b 0x80 ≡ true
hex_digit-small b x e = ground arith

lead-ascii : (b : ℕ) → ltb b 0x80 ≡ true → lead b ≡ continues 0 0x80 0xBF
unfolding lead
lead-ascii b e = rw e refl

utf8_from-ascii :
    (b : ℕ) (s : Bytes)
    → ltb b 0x80 ≡ true
    → utf8_from 0 0x80 0xBF (b ∷ s) ≡ utf8_from 0 0x80 0xBF s
unfolding utf8_from
utf8_from-ascii b s e = rw (lead-ascii b e, utf8_from) refl

is_utf8-ascii :
    (a b c d : ℕ)
    → ltb a 0x80 ≡ true
    → ltb b 0x80 ≡ true
    → ltb c 0x80 ≡ true
    → ltb d 0x80 ≡ true
    → is_utf8 (a ∷ b ∷ c ∷ d ∷ []) ≡ true
unfolding is_utf8 utf8_from
is_utf8-ascii a b c d ea eb ec ed =
    rw
      (
        is_utf8,
        utf8_from-ascii a (b ∷ c ∷ d ∷ []) ea,
        utf8_from-ascii b (c ∷ d ∷ []) eb,
        utf8_from-ascii c (d ∷ []) ec,
        utf8_from-ascii d [] ed,
      )
      refl

-- A plus sign before three hexadecimal digits of a Unicode escape is read as the digit zero would be.
pub parse_hex4-plus :
    (b c d x y z : ℕ) (s : Bytes)
    → hex_digit b ≡ some x
    → hex_digit c ≡ some y
    → hex_digit d ≡ some z
    → parse_hex4 (b'+' ∷ b ∷ c ∷ d ∷ s) ≡ parse_hex4 (b'0' ∷ b ∷ c ∷ d ∷ s)
unfolding parse_hex4 from_hex hex_from
parse_hex4-plus b c d x y z s eb ec ed =
    let small = hex_digit-small in
    rw (is_utf8-ascii b'+' b c d refl (small b x eb) (small c y ec) (small d z ed), eb, ec, ed) refl
