-- ===== src/Ftfs/Disk.antt =====
-- The structures of BasicFATFS/basicftfs.h that the directory code uses, and the state it changes:
-- the superblock, the blocks read as tables of blocks, and the blocks read as entries. The two
-- views are kept apart: a block is used as one or as the other, and what the code writes to a block
-- of entries does not show in a table that stands in the same block. `none` is a block that
-- `sb_bread` cannot read. Names are lists of bytes up to the terminating zero.
use basic_btfs.Prelude.{
  ℕ, zero, suc, Bool, true, false, ◌&&◌, Option, some, List, [], ◌∷◌, ◌==◌, update,
}
use basic_btfs.Ftfs.Bitmap.{SbInfo}

-- BASICFTFS_ATABLE_MAX_BLOCKS, BASICFTFS_ENTRIES_PER_BLOCK, BASICFTFS_ENTRIES_PER_DIR.
abbrev pub max_blocks : ℕ
max_blocks = 1023

abbrev pub entries_per_block : ℕ
entries_per_block = 15

abbrev pub entries_per_dir : ℕ
entries_per_dir = 15345

abbrev pub name_length : ℕ
name_length = 255

abbrev pub Name : Type 0
Name = List ℕ

-- `strncmp(a, b, n) == 0`.
unfoldable pub same_name : ℕ → Name → Name → Bool
same_name zero a b = true
same_name (suc n) [] [] = true
same_name (suc n) [] (y ∷ b) = false
same_name (suc n) (x ∷ a) [] = false
same_name (suc n) (x ∷ a) (y ∷ b) = (x == y) && same_name n a b

-- What `strncpy(dst, src, n)` leaves in `dst`.
unfoldable pub copy_name : ℕ → Name → Name
copy_name zero a = []
copy_name (suc n) [] = []
copy_name (suc n) (x ∷ a) = x ∷ copy_name n a

-- `struct basicftfs_entry`; a slot with inode number 0 is unused.
pub record Entry : Type 0 where
  pub ino : ℕ
  pub hash_name : Name

abbrev pub zero_entry : Entry
zero_entry = record { ino = 0; hash_name = [] }

-- `struct basicftfs_alloc_table`.
pub record Table : Type 0 where
  pub nr_of_entries : ℕ
  pub table : ℕ → ℕ

pub record Dirs : Type 0 where
  pub sbi : SbInfo
  pub tables : ℕ → Option Table
  pub blocks : ℕ → Option (ℕ → Entry)

-- The inode in memory.
pub record Inode : Type 0 where
  pub i_ino : ℕ
  pub i_bno : ℕ

pub data Error : Type 0 where
  eio enospc emlink einval eexist efbig enametoolong enotempty : Error

-- The result of a call with the state behind it; a write outside a table; a loop
-- that has not ended in the rounds that it is given.
pub data Outcome (A : Type 0) : Type 0 where
  returns : A → Dirs → Outcome A
  fails : Error → Dirs → Outcome A
  fault : Outcome A
  endless : Outcome A

unfoldable pub put_table : ℕ → Table → Dirs → Dirs
put_table bno t d = record d { tables = update d.tables bno (some t) }

unfoldable pub put_block : ℕ → (ℕ → Entry) → Dirs → Dirs
put_block bno es d = record d { blocks = update d.blocks bno (some es) }
