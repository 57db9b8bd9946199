-- ===== src/Ftfs/Inode/Tests.antt =====
-- A directory of one entry, a directory of 16 entries, and the theorem on `basicftfs_rmdir` at it.
use basic_btfs.Prelude.{ℕ, ◌≡◌, ◌≢◌, refl, false, none, some, arith, ◌==◌, if◌then◌else◌, update}
use basic_btfs.Kernel.{plain_api, plain_api-IsBitmapApi}
use basic_btfs.Ftfs.Disk.{Table, Dirs, Inode, Outcome, returns, put_table, put_block}
use basic_btfs.Ftfs.Remove.{delete_entry, close_gap, find_file, remove_file_from_dir}
use basic_btfs.Ftfs.Tests.{sbi, slots, sixteen, dir}
use basic_btfs.Ftfs.Inode.{rmdir}
use basic_btfs.Ftfs.Inode.Rmdir.{rmdir_loses_entries}

abbrev one_entry : Table
one_entry = record { nr_of_entries = 1; table = λ b. if b == 0 then 20 else 0 }

-- The entry with the inode number 10, whose table is in block 6.
abbrev child : Inode
child = record { i_ino = 10; i_bno = 6 }

abbrev state : Dirs
state = record {
  sbi = sbi;
  tables = λ b. if b == 5 then some one_entry else if b == 6 then some sixteen else none;
  blocks = λ b. if b == 20 then some (slots 1 0) else none;
}

abbrev state_of : Outcome (Unit {0}) → Dirs
state_of (returns a d) = d
state_of _ = state

abbrev behind : Dirs
behind = state_of (delete_entry dir child state)

deletes : delete_entry dir child state ≡ returns tt behind
unfolding delete_entry close_gap find_file remove_file_from_dir put_table put_block update
deletes = refl

still_there : behind.tables 6 ≡ some sixteen
unfolding delete_entry close_gap find_file remove_file_from_dir put_table put_block update
still_there = refl

device : behind.sbi ≡ sbi
unfolding delete_entry close_gap find_file remove_file_from_dir put_table put_block update
device = refl

rmdir_loses_entries_example :
    (d' : Dirs) × (rmdir plain_api dir child 2 state ≡ returns tt d')
    × (d'.tables 6 ≡ some (record { nr_of_entries = 0; table = λ _. 0 }))
    × (d'.sbi.s_bfree_bitmap 6 ≡ false)
    × ((x : ℕ) → x ≢ 6 → d'.blocks x ≡ behind.blocks x)
rmdir_loses_entries_example =
    rmdir_loses_entries plain_api plain_api-IsBitmapApi dir child 2 state behind sixteen deletes
      still_there (omega arith) (omega arith) (rw device (omega arith)) (rw device (omega arith))
