-- ===== src/Canon/Canonicalize.antt =====
-- `canonicalize`, `canon_value` and `input_key` of `crates/ppg3-core/src/canon.rs`. What `serde_json` writes and
-- the hash are parameters. Texts are ordered as their UTF-8 bytes are, which is the order of their
-- characters.
use Prim.Native.String.{compare}
use Prim.Native.Nat.{Ordering}
use ppg.Common.{
  ℕ, ◌+◌, Bool, true, false, Option, none, some, [], ◌∷◌, String, Result, success, failure, ltb,
  sort_by,
}
use ppg.Table.{Table}
use ppg.Job.{
  Json, null, bool, unsigned, negative, float, text, array, object, Items, nil, cons, Fields, end,
  field,
}
use ppg.Canon.Utf8.{
  Bytes, CanonError, float_not_allowed, nesting_too_deep, not_serialized, max_depth,
}
use ppg.Canon.Value.{validate_bytes}

infixl 10 ◌>>=◌
abbrev pub ◌>>=◌ {ℓ ℓ' κ} :
    {E : Type κ} {A : Type ℓ} {B : Type ℓ'} → Result E A → (A → Result E B) → Result E B
success a >>= k = k a
failure e >>= k = failure e

abbrev not_above : {V : Type 0} → String × V → String × V → Bool
not_above a b = elim (compare a.0 b.0) [ Ordering.gt ↦ false | _ ↦ true ]

-- The fields in the order of their keys, or the first error in that order.
unfoldable pub in_sequence : Table (Result CanonError Json) → Result CanonError Fields
in_sequence [] = success end
in_sequence ((k, r) ∷ m) = r >>= λ v. in_sequence m >>= λ fs. success (field k v fs)

abbrev pub sorted : Table (Result CanonError Json) → Result CanonError Json
unfolding in_sequence
sorted m = in_sequence (sort_by not_above m) >>= λ fs. success (object fs)

unfoldable mutual
  unfolding in_sequence

  pub canon_value : ℕ → Json → Result CanonError Json
  canon_value d null = elim (ltb max_depth d) [
    | true ↦ failure nesting_too_deep
    | false ↦ success null
  ]
  canon_value d (bool b) = elim (ltb max_depth d) [
    | true ↦ failure nesting_too_deep
    | false ↦ success (bool b)
  ]
  canon_value d (unsigned n) = elim (ltb max_depth d) [
    | true ↦ failure nesting_too_deep
    | false ↦ success (unsigned n)
  ]
  canon_value d (negative n) = elim (ltb max_depth d) [
    | true ↦ failure nesting_too_deep
    | false ↦ success (negative n)
  ]
  canon_value d (float x) = elim (ltb max_depth d) [
    | true ↦ failure nesting_too_deep
    | false ↦ failure float_not_allowed
  ]
  canon_value d (text t) = elim (ltb max_depth d) [
    | true ↦ failure nesting_too_deep
    | false ↦ success (text t)
  ]
  canon_value d (array xs) = elim (ltb max_depth d) [
    | true ↦ failure nesting_too_deep
    | false ↦ canon_items (d + 1) xs >>= λ ys. success (array ys)
  ]
  canon_value d (object fs) = elim (ltb max_depth d) [
    | true ↦ failure nesting_too_deep
    | false ↦ sorted (canon_fields (d + 1) fs)
  ]

  pub canon_items : ℕ → Items → Result CanonError Items
  canon_items d nil = success nil
  canon_items d (cons v xs) =
      canon_value d v >>= λ w. canon_items d xs >>= λ ys. success (cons w ys)

  pub canon_fields : ℕ → Fields → Table (Result CanonError Json)
  canon_fields d end = []
  canon_fields d (field k v fs) = (k, canon_value d v) ∷ canon_fields d fs

abbrev serialized : Result String Bytes → Result CanonError Bytes
serialized (success b) = success b
serialized (failure e) = failure (not_serialized e)

unfoldable pub canonicalize : (Json → Result String Bytes) → Json → Result CanonError Bytes
unfolding canon_value
canonicalize to_vec v = canon_value 0 v >>= λ w. serialized (to_vec w)

-- `none` where the validator's fuel does not suffice.
unfoldable pub input_key : (Bytes → String) → Bytes → Option (Result CanonError String)
unfolding validate_bytes
input_key blake3_hex b = elim (validate_bytes b) [
  | none ↦ none
  | some (success _) ↦ some (success (blake3_hex b))
  | some (failure e) ↦ some (failure e)
]
