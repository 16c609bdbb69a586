-- ===== src/StoreSet.antt =====
-- Stores in their order: `crates/ppg3-core/src/storeset.rs`.
use ppg.Common.{
  ℕ, zero, suc, ◌+◌, ◌≡◌, refl, sym, ap, ◌∙◌, Bool, true, false, not, ◌||◌, Option, none, some,
  List, [], ◌∷◌, String, ◌==◌, eq_iff, if◌then◌else◌, Result, success, failure, arith, Bool-cases,
  inl, inr, ◌⊎◌, All,
}
use ppg.Disk.{Disk, Manifest}
use ppg.Store.{Store, StoreError, lookup}
pub mod Order

pub data SetError : Type 0 where
  no_store_named : String → SetError
  store_is_read_only : String → SetError
  no_writable_store : SetError

abbrev pub renumber :
    Result StoreError (Option (ℕ × Manifest)) → Result StoreError (Option (ℕ × Manifest))
renumber (failure e) = failure e
renumber (success none) = success none
renumber (success (some (i, m))) = success (some (suc i, m))

-- The first hit with the store's number. A lookup also changes the disk that it hits; the disks are
-- left out here.
unfoldable pub lookup_first : ℕ → List Store → String → Result StoreError (Option (ℕ × Manifest))
lookup_first now [] ik = success none
lookup_first now (s ∷ stores) ik =
    let rest = lookup_first now stores ik in
    elim (lookup now s ik).0 [
      | failure e ↦ failure e
      | success none ↦ renumber rest
      | success (some m) ↦ success (some (0, m))
    ]

unfoldable pub find_store : (Store → Bool) → List Store → Option Store
find_store p [] = none
find_store p (s ∷ stores) = let rest = find_store p stores in if p s then some s else rest

abbrev pub check_writable : String → Option Store → Result SetError Store
check_writable name none = failure (no_store_named name)
check_writable name (some s) = if s.readonly then failure (store_is_read_only name) else success s

abbrev pub or_no_writable : Option Store → Result SetError Store
or_no_writable none = failure no_writable_store
or_no_writable (some s) = success s

unfoldable pub write_store : List Store → Option String → Result SetError Store
unfolding find_store
write_store stores (some name) = check_writable name (find_store (λ s. s.name == name) stores)
write_store stores none = or_no_writable (find_store (λ s. not s.readonly) stores)
