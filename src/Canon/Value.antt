-- ===== src/Canon/Value.antt =====
-- Values of canonical JSON and `validate`: `crates/ppg3-core/src/canon.rs`. The recursion takes fuel,
-- as do the loops.
use ppg.Common.{
  ℕ, zero, suc, ◌+◌, ◌-◌, ◌*◌, ◌^◌, Bool, true, false, ◌||◌, Option, none, some, [], ◌∷◌,
  if◌then◌else◌, ltb, leb, ◌=ℕ◌, Result, success, failure, length,
}
use ppg.Canon.Utf8.{
  Bytes, CanonError, Parsed, ◌>>=◌, within, is_digit, is_utf8, bytes_lt, max_depth, invalid_utf8,
  trailing_bytes, nesting_too_deep, unexpected_whitespace, unexpected_byte, unexpected_end,
  expected_key, keys_not_sorted, expected_separator, invalid_number, float_not_allowed,
  out_of_i64_range, out_of_u64_range, read, invalid, out_of_fuel,
}
use ppg.Canon.Text.{expect, parse_lit, parse_string}

-- The digits in front, and their value.
pub record Digits : Type 0 where
  pub value : ℕ
  pub rest : Bytes

unfoldable pub span_digits : ℕ → Bytes → Digits
span_digits n [] = record { value = n; rest = [] }
span_digits n (b ∷ s) =
    let more = span_digits (10 * n + (b - b'0')) s in
    if is_digit b then more else record { value = n; rest = b ∷ s }

unfoldable pub number_digits : Bytes → Parsed ℕ
unfolding span_digits
number_digits [] = invalid invalid_number
number_digits (b ∷ s) =
    if b =ℕ b'0'
    then read 0 s
    else if is_digit b
    then (let d = span_digits 0 (b ∷ s) in read d.value d.rest)
    else invalid invalid_number

abbrev pub is_float : Bytes → Bool
is_float [] = false
is_float (b ∷ s) = b =ℕ b'.' || (b =ℕ b'e' || b =ℕ b'E')

-- The text must fit: `i64` behind a minus sign, else `u64`.
abbrev pub check_range : Bool → ℕ → Bytes → Parsed (Unit {0})
check_range true v s = if leb v (2 ^ 63) then read tt s else invalid out_of_i64_range
check_range false v s = if ltb v (2 ^ 64) then read tt s else invalid out_of_u64_range

unfoldable pub finish_number : Bool → Bytes → Parsed (Unit {0})
unfolding number_digits
finish_number minus s = number_digits s >>= λ v r.
    if is_float r then invalid float_not_allowed else check_range minus v r

unfoldable pub parse_number : Bytes → Parsed (Unit {0})
unfolding finish_number
parse_number [] = invalid invalid_number
parse_number (b ∷ s) = if b =ℕ b'-' then finish_number true s else finish_number false (b ∷ s)

-- How a value starts.
pub data Start : Type 0 where
  too_deep brace bracket quote letter_t letter_f letter_n digit space other nothing : Start

abbrev pub is_space : ℕ → Bool
is_space b = within 9 13 b || (b =ℕ 32 || (b =ℕ 0x85 || b =ℕ 0xA0))

abbrev pub start_byte : ℕ → Start
start_byte b =
    if b =ℕ b'{'
    then brace
    else if b =ℕ b'['
    then bracket
    else if b =ℕ b'"'
    then quote
    else if b =ℕ b't'
    then letter_t
    else if b =ℕ b'f'
    then letter_f
    else if b =ℕ b'n'
    then letter_n
    else if b =ℕ b'-' || is_digit b
    then digit
    else if is_space b
    then space
    else other

abbrev pub start_of : Bytes → Start
start_of [] = nothing
start_of (b ∷ s) = start_byte b

abbrev pub start : ℕ → Bytes → Start
start depth s = if ltb max_depth depth then too_deep else start_of s

-- What stands behind an element or a member.
pub data Separator : Type 0 where
  more closed : Bytes → Separator
  neither : Separator

abbrev pub separator : ℕ → Bytes → Separator
separator close [] = neither
separator close (b ∷ s) = if b =ℕ b',' then more s else if b =ℕ close then closed s else neither

-- The closing byte, at once.
abbrev pub closes : ℕ → Bytes → Option Bytes
closes close [] = none
closes close (b ∷ s) = if b =ℕ close then some s else none

abbrev pub in_order : Option Bytes → Bytes → Bool
in_order none key = true
in_order (some p) key = bytes_lt p key

abbrev pub starts_key : Bytes → Bool
starts_key [] = false
starts_key (b ∷ s) = b =ℕ b'"'

unfoldable mutual
  unfolding parse_string parse_lit parse_number expect

  pub parse_value : ℕ → ℕ → Bytes → Parsed (Unit {0})
  parse_value zero depth s = out_of_fuel
  parse_value (suc fuel) depth s = elim (start depth s) [
    | too_deep ↦ invalid nesting_too_deep
    | brace ↦
        (expect b'{' s >>= λ _ r. elim (closes b'}' r) [
          | some r' ↦ read tt r'
          | none ↦ parse_members fuel depth none r
        ])
    | bracket ↦
        (expect b'[' s >>= λ _ r. elim (closes b']' r) [
          | some r' ↦ read tt r'
          | none ↦ parse_elements fuel depth r
        ])
    | quote ↦ (parse_string fuel s >>= λ _ r. read tt r)
    | letter_t ↦ parse_lit (b't' ∷ b'r' ∷ b'u' ∷ b'e' ∷ []) s
    | letter_f ↦ parse_lit (b'f' ∷ b'a' ∷ b'l' ∷ b's' ∷ b'e' ∷ []) s
    | letter_n ↦ parse_lit (b'n' ∷ b'u' ∷ b'l' ∷ b'l' ∷ []) s
    | digit ↦ parse_number s
    | space ↦ invalid unexpected_whitespace
    | other ↦ invalid unexpected_byte
    | nothing ↦ invalid unexpected_end
  ]

  pub parse_elements : ℕ → ℕ → Bytes → Parsed (Unit {0})
  parse_elements zero depth s = out_of_fuel
  parse_elements (suc fuel) depth s = parse_value fuel (depth + 1) s >>= λ _ r.
      elim (separator b']' r) [
        | more r' ↦ parse_elements fuel depth r'
        | closed r' ↦ read tt r'
        | neither ↦ invalid expected_separator
      ]

  pub parse_members : ℕ → ℕ → Option Bytes → Bytes → Parsed (Unit {0})
  parse_members zero depth prev s = out_of_fuel
  parse_members (suc fuel) depth prev s = elim (starts_key s) [
    | false ↦ invalid expected_key
    | true ↦ parse_string fuel s >>= λ key r. elim (in_order prev key) [
      | false ↦ invalid (keys_not_sorted key (elim prev [ none ↦ [] | some p ↦ p ]))
      | true ↦ expect b':' r >>= λ _ r'. parse_value fuel (depth + 1) r' >>= λ _ r''.
          elim (separator b'}' r'') [
            | more q ↦ parse_members fuel depth (some key) q
            | closed q ↦ read tt q
            | neither ↦ invalid expected_separator
          ]
    ]
  ]

abbrev pub at_end : Bytes → Result CanonError (Unit {0})
at_end [] = success tt
at_end (b ∷ s) = failure trailing_bytes

-- `none` where the fuel does not suffice.
abbrev pub whole : Parsed (Unit {0}) → Option (Result CanonError (Unit {0}))
whole (read _ s) = some (at_end s)
whole (invalid e) = some (failure e)
whole out_of_fuel = none

unfoldable pub validate_bytes : Bytes → Option (Result CanonError (Unit {0}))
unfolding is_utf8 parse_value
validate_bytes s =
    if is_utf8 s then whole (parse_value (2 * length s + 1) 0 s) else some (failure invalid_utf8)
