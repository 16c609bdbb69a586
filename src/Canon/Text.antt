-- ===== src/Canon/Text.antt =====
-- Strings of canonical JSON: `parse_string` and `parse_hex4` of `crates/ppg3-core/src/canon.rs`.
-- Positions are the bytes that are left; the loop takes fuel.
use ppg.Common.{
  ℕ, zero, suc, ◌+◌, ◌-◌, ◌*◌, Option, none, some, [], ◌∷◌, ◌++◌, if◌then◌else◌, ltb, ◌=ℕ◌, take,
}
use ppg.Canon.Utf8.{
  Bytes, Parsed, ◌>>=◌, within, is_digit, lead, is_utf8, encode_utf8, invalid_utf8, expected,
  expected_literal, unterminated_string, control_character, invalid_escape, truncated_escape,
  bad_escape, bad_hex_digits, expected_low_surrogate, invalid_low_surrogate, unpaired_low_surrogate,
  read, invalid, out_of_fuel,
}

unfoldable pub expect : ℕ → Bytes → Parsed (Unit {0})
expect c [] = invalid (expected c)
expect c (b ∷ s) = if b =ℕ c then read tt s else invalid (expected c)

unfoldable pub strip : Bytes → Bytes → Option Bytes
strip [] s = some s
strip (a ∷ lit) [] = none
strip (a ∷ lit) (b ∷ s) = let rest = strip lit s in if a =ℕ b then rest else none

unfoldable pub parse_lit : Bytes → Bytes → Parsed (Unit {0})
unfolding strip
parse_lit lit s = elim (strip lit s) [
  | none ↦ invalid (expected_literal lit)
  | some rest ↦ read tt rest
]

-- `u32::from_str_radix(s, 16)`, which takes a plus sign in front.
abbrev pub hex_digit : ℕ → Option ℕ
hex_digit b =
    if is_digit b
    then some (b - b'0')
    else if within b'a' b'f' b
    then some (b - b'a' + 10)
    else if within b'A' b'F' b
    then some (b - b'A' + 10)
    else none

unfoldable pub hex_from : ℕ → Bytes → Option ℕ
hex_from n [] = some n
hex_from n (b ∷ s) = elim (hex_digit b) [ none ↦ none | some d ↦ hex_from (16 * n + d) s ]

unfoldable pub from_hex : Bytes → Option ℕ
unfolding hex_from
from_hex [] = none
from_hex (b ∷ []) = hex_from 0 (b ∷ [])
from_hex (b ∷ c ∷ s) = if b =ℕ b'+' then hex_from 0 (c ∷ s) else hex_from 0 (b ∷ c ∷ s)

unfoldable pub parse_hex4 : Bytes → Parsed ℕ
unfolding from_hex is_utf8
parse_hex4 (a ∷ b ∷ c ∷ d ∷ s) =
    if is_utf8 (a ∷ b ∷ c ∷ d ∷ [])
    then elim (from_hex (a ∷ b ∷ c ∷ d ∷ [])) [ none ↦ invalid bad_hex_digits | some v ↦ read v s ]
    else invalid bad_escape
parse_hex4 _ = invalid truncated_escape

-- A low surrogate must follow: a backslash, a `u`, and its digits.
abbrev pub expect_surrogate : ℕ → Bytes → Parsed (Unit {0})
expect_surrogate c [] = invalid expected_low_surrogate
expect_surrogate c (b ∷ s) = if b =ℕ c then read tt s else invalid expected_low_surrogate

unfoldable pub low_surrogate : ℕ → Bytes → Parsed Bytes
unfolding parse_hex4 encode_utf8
low_surrogate cp s = expect_surrogate b'\\' s >>= λ _ r. expect_surrogate b'u' r >>= λ _ r'.
    parse_hex4 r' >>= λ low r''.
    if within 0xDC00 0xDFFF low
    then read (encode_utf8 (0x10000 + 0x400 * (cp - 0xD800) + (low - 0xDC00))) r''
    else invalid invalid_low_surrogate

unfoldable pub unicode_escape : Bytes → Parsed Bytes
unfolding parse_hex4 low_surrogate encode_utf8
unicode_escape s = parse_hex4 s >>= λ cp r.
    if within 0xD800 0xDBFF cp
    then low_surrogate cp r
    else if within 0xDC00 0xDFFF cp
    then invalid unpaired_low_surrogate
    else read (encode_utf8 cp) r

-- The character of a short escape.
abbrev pub short_escape : ℕ → Option ℕ
short_escape b =
    if b =ℕ b'"'
    then some b'"'
    else if b =ℕ b'\\'
    then some b'\\'
    else if b =ℕ b'/'
    then some b'/'
    else if b =ℕ b'b'
    then some 0x08
    else if b =ℕ b'f'
    then some 0x0C
    else if b =ℕ b'n'
    then some b'\n'
    else if b =ℕ b'r'
    then some b'\r'
    else if b =ℕ b't'
    then some b'\t'
    else none

unfoldable pub escape : Bytes → Parsed Bytes
unfolding unicode_escape
escape [] = invalid invalid_escape
escape (b ∷ s) = elim (short_escape b) [
  | some c ↦ read (c ∷ []) s
  | none ↦ if b =ℕ b'u' then unicode_escape s else invalid invalid_escape
]

abbrev pub skip : ℕ → Bytes → Bytes
skip zero s = s
skip (suc n) [] = []
skip (suc n) (b ∷ s) = skip n s

-- `rest.chars().next()`, of bytes that are UTF-8.
unfoldable pub plain_char : ℕ → Bytes → Parsed Bytes
unfolding is_utf8
plain_char b s =
    if is_utf8 (b ∷ s)
    then elim (lead b) [
      | none ↦ invalid invalid_utf8
      | some u ↦ read (b ∷ take u.pending s) (skip u.pending s)
    ]
    else invalid invalid_utf8

-- One round of the loop in `parse_string`: the bytes of a character, or `none` at the closing quote.
unfoldable pub string_round : Bytes → Parsed (Option Bytes)
unfolding escape plain_char
string_round [] = invalid unterminated_string
string_round (b ∷ s) =
    if b =ℕ b'"'
    then read none s
    else if b =ℕ b'\\'
    then (escape s >>= λ c r. read (some c) r)
    else if ltb b 0x20
    then invalid control_character
    else (plain_char b s >>= λ c r. read (some c) r)

unfoldable pub parse_chars : ℕ → Bytes → Bytes → Parsed Bytes
unfolding string_round
parse_chars zero out s = out_of_fuel
parse_chars (suc fuel) out s = string_round s >>= λ piece r. elim piece [
  | none ↦ read out r
  | some c ↦ parse_chars fuel (out ++ c) r
]

unfoldable pub parse_string : ℕ → Bytes → Parsed Bytes
unfolding expect parse_chars
parse_string fuel s = expect b'"' s >>= λ _ r. parse_chars fuel [] r
