-- ===== src/Files.antt =====
-- The files of a staging directory or an entry: `hash_staging_content` and `chmod_recursive` of
-- `crates/ppg3-core/src/store.rs`. A directory is the map of its regular files by their paths; links and other
-- nodes, which hashing refuses, are left out.
use Prim.Native.String.{◌++◌}
use ppg.Common.{ℕ, zero, suc, ◌+◌, ◌*◌, ◌≡◌, refl, ap, Bool, false, [], ◌∷◌, String, bit}
use ppg.Table.{Table, IsAbsent, DistinctKeys}
use ppg.Scheduler.{ContentEntry}

-- The bits of a mode: three of each class, and those above, as a number.
pub record Access : Type 0 where
  pub readable : Bool
  pub writable : Bool
  pub executable : Bool

pub record Mode : Type 0 where
  pub special : ℕ
  pub user : Access
  pub group : Access
  pub others : Access

pub record FileNode : Type 0 where
  pub blake3 : String
  pub mode : Mode
  pub size : ℕ

-- `mode & !0o222`
abbrev pub unwritable : Access → Access
unwritable a = record a { writable = false }

abbrev pub without_write : Mode → Mode
without_write m = record m {
  user = unwritable m.user;
  group = unwritable m.group;
  others = unwritable m.others;
}

abbrev pub digit_text : ℕ → String
digit_text zero = "0"
digit_text (suc zero) = "1"
digit_text (suc (suc zero)) = "2"
digit_text (suc (suc (suc zero))) = "3"
digit_text (suc (suc (suc (suc zero)))) = "4"
digit_text (suc (suc (suc (suc (suc zero))))) = "5"
digit_text (suc (suc (suc (suc (suc (suc zero)))))) = "6"
digit_text _ = "7"

abbrev pub access_text : Access → String
access_text a = digit_text (4 * bit a.readable + (2 * bit a.writable + bit a.executable))

-- `{:04o}` of the lower nine bits.
abbrev pub mode_text : Mode → String
mode_text m = "0" ++ (access_text m.user ++ (access_text m.group ++ access_text m.others))

-- What hashing a file records: its mode without the write bits.
unfoldable pub content_entry : FileNode → ContentEntry
content_entry f = record {
  blake3 = f.blake3;
  mode = mode_text (without_write f.mode);
  size = f.size;
}

unfoldable pub hash_content : Table FileNode → Table ContentEntry
unfolding content_entry
hash_content [] = []
hash_content ((path, f) ∷ files) = (path, content_entry f) ∷ hash_content files

-- `chmod_recursive` that takes the write bits off, of the files.
unfoldable pub lock_files : Table FileNode → Table FileNode
lock_files [] = []
lock_files ((path, f) ∷ files) = (path, record f { mode = without_write f.mode }) ∷ lock_files files

pub hash_content-lock_files :
    (files : Table FileNode) → hash_content (lock_files files) ≡ hash_content files
unfolding hash_content lock_files content_entry
hash_content-lock_files [] = refl
hash_content-lock_files ((path, f) ∷ files) =
    ap (λ rest. (path, content_entry f) ∷ rest) (hash_content-lock_files files)

lock_files-IsAbsent :
    (path : String) (files : Table FileNode)
    → IsAbsent path files
    → IsAbsent path (lock_files files)
unfolding lock_files
lock_files-IsAbsent path [] h = tt
lock_files-IsAbsent path ((k, f) ∷ files) h = (h.0, lock_files-IsAbsent path files h.1)

pub lock_files-DistinctKeys :
    (files : Table FileNode) → DistinctKeys files → DistinctKeys (lock_files files)
unfolding lock_files
lock_files-DistinctKeys [] d = tt
lock_files-DistinctKeys ((k, f) ∷ files) d =
    (lock_files-IsAbsent k files d.0, lock_files-DistinctKeys files d.1)
