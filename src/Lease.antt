-- ===== src/Lease.antt =====
-- Leases and intents: `crates/ppg3-core/src/lease.rs`. A directory is the map of its files, and a file's
-- time is that of its last write. A lease's file is written whole, by a rename.
use Prim.Native.Char.{code}
use Prim.Native.String.{◌++◌}
use ppg.Common.{
  ℕ, ◌+◌, ◌-◌, Bool, true, false, not, ◌||◌, Option, none, some, List, [], ◌∷◌, String, ◌==◌,
  if◌then◌else◌, elem, Result, success, failure, push,
}
use ppg.Table.{Table, get, insert, contains_key, remove}
use ppg.Disk.{LeaseNode, idle_past}
use ppg.Scheduler.{without}
use ppg.Gc.Debris.{intent_stale_after}
pub mod Protected

pub data LeaseError : Type 0 where
  missing_file unreadable_file : String → LeaseError

abbrev pub file_of : String → String
file_of id = id ++ ".json"

-- `Lease::create`, also over a file of the same run.
unfoldable pub create : ℕ → String → Table LeaseNode → Table LeaseNode
create now run_id leases =
    insert (file_of run_id) (record { mtime = now; protects = some [] }) leases

-- `read`, and then a write of the file with a new time.
unfoldable pub rewrite :
    ℕ → String → (List String → List String) → Table LeaseNode → Result LeaseError (Table LeaseNode)
rewrite now run_id f leases = elim (get (file_of run_id) leases) [
  | none ↦ failure (missing_file (file_of run_id))
  | some l ↦ elim l.protects [
    | none ↦ failure (unreadable_file (file_of run_id))
    | some ohs ↦
        success (insert (file_of run_id) (record { mtime = now; protects = some (f ohs) }) leases)
  ]
]

unfoldable pub heartbeat : ℕ → String → Table LeaseNode → Result LeaseError (Table LeaseNode)
unfolding rewrite
heartbeat now run_id leases = rewrite now run_id (λ ohs. ohs) leases

-- An entry is protected once.
abbrev pub add_once : String → List String → List String
add_once oh ohs = if elem oh ohs then ohs else push oh ohs

unfoldable pub protect : ℕ → String → String → Table LeaseNode → Result LeaseError (Table LeaseNode)
unfolding rewrite
protect now run_id oh leases = rewrite now run_id (add_once oh) leases

unfoldable pub unprotect :
    ℕ → String → String → Table LeaseNode → Result LeaseError (Table LeaseNode)
unfolding rewrite without
unprotect now run_id oh leases = rewrite now run_id (without oh) leases

-- `drop` of a lease.
unfoldable pub drop : String → Table LeaseNode → Table LeaseNode
drop run_id leases = remove (file_of run_id) leases

-- Intents: of their files, only the time is looked at.
unfoldable pub create_intent : ℕ → String → Table ℕ → Table ℕ
create_intent now ik intents = insert (file_of ik) now intents

unfoldable pub heartbeat_intent : ℕ → String → Table ℕ → Result LeaseError (Table ℕ)
heartbeat_intent now ik intents =
    if contains_key (file_of ik) intents
    then success (insert (file_of ik) now intents)
    else failure (missing_file (file_of ik))

unfoldable pub release_intent : String → Table ℕ → Table ℕ
release_intent ik intents = remove (file_of ik) intents

unfoldable pub has_fresh_intent : ℕ → String → Table ℕ → Bool
has_fresh_intent now ik intents = elim (get (file_of ik) intents) [
  | none ↦ false
  | some mtime ↦ not (idle_past now mtime intent_stale_after)
]
