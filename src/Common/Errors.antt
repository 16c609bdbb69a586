-- ===== src/Common/Errors.antt =====
-- The results of fallible code: `crates/ppg3-core/src/error.rs` and panics.
-- The message texts of an `Error::Graph` are kept as the data that they are formatted from.
use Prim.Native.Nat.{ℕ}
use Prim.Native.String.{String}
use mathlib.Core.Path.{◌≡◌, refl}

pub data GraphError : Type 0 where
  duplicate_id : String → GraphError
  already_exists : String → GraphError
  unknown_job : String → String → GraphError
  in_process_input : String → String → GraphError
  unknown_pool : String → GraphError
  over_capacity : String → ℕ → ℕ → GraphError
  job_unknown_pool : String → String → GraphError
  job_over_capacity : String → ℕ → String → ℕ → GraphError
  cycle_detected : GraphError

-- `panicked` stands for an `unwrap` of `None`, and for an arithmetic overflow.
pub data Outcome {ℓ} (A : Type ℓ) : Type ℓ where
  ok : A → Outcome A
  err : GraphError → Outcome A
  panicked : Outcome A

infixl 5 ◌>>=◌ ◌>>◌
abbrev pub ◌>>=◌ {ℓ κ} : {A : Type ℓ} {B : Type κ} → Outcome A → (A → Outcome B) → Outcome B
ok a >>= f = f a
err e >>= f = err e
panicked >>= f = panicked

abbrev pub ◌>>◌ {ℓ} : {B : Type ℓ} → Outcome (Unit {0}) → Outcome B → Outcome B
m >> k = m >>= λ _. k

-- Inversion of a sequence that succeeds.
pub >>-eq-ok {ℓ} :
    {B : Type ℓ} (m : Outcome (Unit {0})) (k : Outcome B) {b : B}
    → (m >> k) ≡ ok b
    → (m ≡ ok tt) × (k ≡ ok b)
>>-eq-ok (ok tt) k h = (refl, h)
>>-eq-ok (err e) k h = cc
>>-eq-ok panicked k h = cc

-- The result of fallible code whose errors are of its own type.
pub data Result {ℓ κ} (E : Type ℓ) (A : Type κ) : Type (ℓ ⊔ κ) where
  success : A → Result E A
  failure : E → Result E A
