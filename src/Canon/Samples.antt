-- ===== src/Canon/Samples.antt =====
-- Documents for the validator of canonical JSON, `crates/ppg3-core/src/canon.rs`, and what it says of them.
use ppg.Common.{◌↔◌, true, none, some, [], ◌∷◌, ◌≡◌, ◌≢◌, refl, success, failure}
use ppg.Canon.Utf8.{
  is_utf8, Bytes, bytes_lt, keys_not_sorted, float_not_allowed, trailing_bytes,
  unexpected_whitespace, out_of_u64_range,
}
use ppg.Job.{null, unsigned, array, object, nil, cons, end, field}
use ppg.Canon.Canonicalize.{canon_value}
use ppg.Canon.Text.{parse_hex4}
use ppg.Canon.Value.{validate_bytes}
use ppg.Canon.Terminates.{validate_decides}
use ppg.Canon.Grammar.{Json, Spells, Canonical}
use ppg.Canon.Complete.{validate_iff}
use ppg.Canon.Escapes.{parse_hex4-plus}

-- {"a":[1,-2],"b":"x"}
abbrev sorted_object : Bytes
sorted_object =
    b'{' ∷ b'"' ∷ b'a' ∷ b'"' ∷ b':' ∷ b'[' ∷ b'1' ∷ b',' ∷ b'-' ∷ b'2' ∷ b']' ∷ b',' ∷ b'"' ∷ b'b'
    ∷ b'"' ∷ b':' ∷ b'"' ∷ b'x' ∷ b'"' ∷ b'}' ∷ []

-- {"a":1,"a":1}
abbrev repeated_key : Bytes
repeated_key =
    b'{' ∷ b'"' ∷ b'a' ∷ b'"' ∷ b':' ∷ b'1' ∷ b',' ∷ b'"' ∷ b'a' ∷ b'"' ∷ b':' ∷ b'1' ∷ b'}' ∷ []

sorted_object_valid : validate_bytes sorted_object ≡ some (success tt)
unfolding validate_bytes bytes_lt
sorted_object_valid = refl

repeated_key_refused :
    validate_bytes repeated_key ≡ some (failure (keys_not_sorted (b'a' ∷ []) (b'a' ∷ [])))
unfolding validate_bytes bytes_lt
repeated_key_refused = refl

-- 1.0 and 01 and [1, 2]
float_refused : validate_bytes (b'1' ∷ b'.' ∷ b'0' ∷ []) ≡ some (failure float_not_allowed)
unfolding validate_bytes bytes_lt
float_refused = refl

leading_zero_refused : validate_bytes (b'0' ∷ b'1' ∷ []) ≡ some (failure trailing_bytes)
unfolding validate_bytes bytes_lt
leading_zero_refused = refl

blank_refused :
    validate_bytes (b'[' ∷ b'1' ∷ b',' ∷ 32 ∷ b'2' ∷ b']' ∷ [])
    ≡ some (failure unexpected_whitespace)
unfolding validate_bytes bytes_lt
blank_refused = refl

-- 18446744073709551616 is 2 ^ 64.
too_large_refused :
    validate_bytes (
      b'1' ∷ b'8' ∷ b'4' ∷ b'4' ∷ b'6' ∷ b'7' ∷ b'4' ∷ b'4' ∷ b'0' ∷ b'7' ∷ b'3' ∷ b'7' ∷ b'0'
      ∷ b'9' ∷ b'5' ∷ b'5' ∷ b'1' ∷ b'6' ∷ b'1' ∷ b'6' ∷ [])
    ≡ some (failure out_of_u64_range)
unfolding validate_bytes bytes_lt
too_large_refused = refl

-- "é" as it is, and as an escape.
accent_valid : validate_bytes (b'"' ∷ 0xC3 ∷ 0xA9 ∷ b'"' ∷ []) ≡ some (success tt)
unfolding validate_bytes bytes_lt
accent_valid = refl

escape_valid :
    validate_bytes (b'"' ∷ b'\\' ∷ b'u' ∷ b'0' ∷ b'0' ∷ b'e' ∷ b'9' ∷ b'"' ∷ []) ≡ some (success tt)
unfolding validate_bytes bytes_lt
escape_valid = refl

validate_decides_example : validate_bytes sorted_object ≢ none
validate_decides_example = validate_decides sorted_object

parse_hex4-plus_example :
    parse_hex4 (b'+' ∷ b'0' ∷ b'4' ∷ b'1' ∷ b'"' ∷ [])
    ≡ parse_hex4 (b'0' ∷ b'0' ∷ b'4' ∷ b'1' ∷ b'"' ∷ [])
parse_hex4-plus_example = parse_hex4-plus b'0' b'4' b'1' 0 4 1 (b'"' ∷ []) refl refl refl

validate_iff_example :
    (validate_bytes sorted_object ≡ some (success tt))
    ↔ ((is_utf8 sorted_object ≡ true) × ((v : Json) × (Spells v sorted_object [] × Canonical 0 v)))
validate_iff_example = validate_iff sorted_object

-- {"b":1,"a":[null]} by its keys.
fields_sorted :
    canon_value 0 (object (field "b" (unsigned 1) (field "a" (array (cons null nil)) end)))
    ≡ success (object (field "a" (array (cons null nil)) (field "b" (unsigned 1) end)))
unfolding canon_value
fields_sorted = refl
