-- ===== src/Canon/Utf8.antt =====
-- Texts in the validator of canonical JSON: `crates/ppg3-core/src/canon.rs`, UTF-8 and what a parser returns.
-- The parser's position is the list of the bytes that are left. Messages of an error are kept as
-- data, their byte offset left out. What the standard library does (`from_utf8`, `from_str_radix`,
-- `char::from_u32` with `String::push`) is written out from its documentation.
use ppg.Common.{
  String, ℕ, zero, suc, ◌+◌, ◌/◌, ◌%◌, Bool, true, false, ◌&&◌, ◌||◌, Option, none, some, List, [],
  ◌∷◌, if◌then◌else◌, ltb, leb, ◌=ℕ◌,
}

abbrev pub Bytes : Type 0
Bytes = List ℕ

pub data CanonError : Type 0 where
  invalid_utf8 : CanonError
  trailing_bytes : CanonError
  not_serialized : String → CanonError
  expected : ℕ → CanonError
  nesting_too_deep : CanonError
  unexpected_whitespace unexpected_byte unexpected_end : CanonError
  expected_literal : Bytes → CanonError
  expected_key : CanonError
  keys_not_sorted : Bytes → Bytes → CanonError
  expected_separator : CanonError
  unterminated_string : CanonError
  control_character : CanonError
  invalid_escape : CanonError
  truncated_escape bad_escape bad_hex_digits : CanonError
  expected_low_surrogate invalid_low_surrogate unpaired_low_surrogate : CanonError
  invalid_number : CanonError
  float_not_allowed : CanonError
  out_of_i64_range out_of_u64_range : CanonError

-- What a parser has read, with the bytes that are left.
pub data Parsed {ℓ} (A : Type ℓ) : Type ℓ where
  read : A → Bytes → Parsed A
  invalid : CanonError → Parsed A
  out_of_fuel : Parsed A

infixl 10 ◌>>=◌
abbrev pub ◌>>=◌ {ℓ ℓ'} : {A : Type ℓ} {B : Type ℓ'} → Parsed A → (A → Bytes → Parsed B) → Parsed B
read a s >>= k = k a s
invalid e >>= k = invalid e
out_of_fuel >>= k = out_of_fuel

abbrev pub max_depth : ℕ
max_depth = 256

-- `lo..=hi` contains the byte.
abbrev pub within : ℕ → ℕ → ℕ → Bool
within lo hi b = leb lo b && leb b hi

abbrev pub is_digit : ℕ → Bool
is_digit b = within b'0' b'9' b

-- `std::str::from_utf8`: how many bytes of a character are still to come, and the range of the next.
pub record Utf8State : Type 0 where
  pub pending : ℕ
  pub lo : ℕ
  pub hi : ℕ

abbrev pub no_char : Option Utf8State
no_char = none

abbrev pub continues : ℕ → ℕ → ℕ → Option Utf8State
continues n lo hi = some (record { pending = n; lo = lo; hi = hi })

unfoldable pub lead : ℕ → Option Utf8State
lead b =
    if ltb b 0x80
    then continues 0 0x80 0xBF
    else if within 0xC2 0xDF b
    then continues 1 0x80 0xBF
    else if b =ℕ 0xE0
    then continues 2 0xA0 0xBF
    else if b =ℕ 0xED
    then continues 2 0x80 0x9F
    else if within 0xE1 0xEF b
    then continues 2 0x80 0xBF
    else if b =ℕ 0xF0
    then continues 3 0x90 0xBF
    else if within 0xF1 0xF3 b
    then continues 3 0x80 0xBF
    else if b =ℕ 0xF4
    then continues 3 0x80 0x8F
    else no_char

unfoldable pub utf8_from : ℕ → ℕ → ℕ → Bytes → Bool
unfolding lead
utf8_from zero lo hi [] = true
utf8_from (suc n) lo hi [] = false
utf8_from zero lo hi (b ∷ s) = elim (lead b) [
  | none ↦ false
  | some u ↦ utf8_from u.pending u.lo u.hi s
]
utf8_from (suc n) lo hi (b ∷ s) =
    let rest = utf8_from n 0x80 0xBF s in if within lo hi b then rest else false

unfoldable pub is_utf8 : Bytes → Bool
unfolding utf8_from
is_utf8 s = utf8_from 0 0x80 0xBF s

-- The bytes of a code point that is no surrogate.
unfoldable pub encode_utf8 : ℕ → Bytes
encode_utf8 c =
    if ltb c 0x80
    then c ∷ []
    else if ltb c 0x800
    then (0xC0 + c / 0x40) ∷ (0x80 + c % 0x40) ∷ []
    else if ltb c 0x10000
    then (0xE0 + c / 0x1000) ∷ (0x80 + c / 0x40 % 0x40) ∷ (0x80 + c % 0x40) ∷ []
    else (0xF0 + c / 0x40000)
      ∷ (0x80 + c / 0x1000 % 0x40)
      ∷ (0x80 + c / 0x40 % 0x40)
      ∷ (0x80 + c % 0x40)
      ∷ []

-- The order of texts by their bytes: the first is below the second.
unfoldable pub bytes_lt : Bytes → Bytes → Bool
bytes_lt s [] = false
bytes_lt [] (b ∷ t) = true
bytes_lt (a ∷ s) (b ∷ t) = ltb a b || (a =ℕ b && bytes_lt s t)
