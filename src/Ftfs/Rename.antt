-- ===== src/Ftfs/Rename.antt =====
-- `basicftfs_update_entry` of BasicFATFS/dir.c, the rename of an entry.
pub mod Replace
use basic_btfs.Prelude.{
  Bool, true, false, not, ◌&&◌, ◌||◌, Option, none, some, leb, ◌==◌, if◌then◌else◌, update, ℕ,
}
use basic_btfs.Kernel.{BitmapApi}
use basic_btfs.Ftfs.Disk.{
  max_blocks, entries_per_dir, name_length, Name, copy_name, Table, Dirs, Inode, Error, eio, emlink,
  einval, eexist, Outcome, returns, fails, fault, endless, put_block,
}
use basic_btfs.Ftfs.Search.{found, absent, scan_blocks}
use basic_btfs.Ftfs.Add.{add_entry_name}
use basic_btfs.Ftfs.Remove.{delete_entry}

-- The bits of `flags` that the code tests.
pub record RenameFlags : Type 0 where
  pub whiteout : Bool
  pub exchange : Bool
  pub noreplace : Bool

-- The rest of a call behind one that succeeds, and behind one whatever it answers.
unfoldable pub on_success : Outcome (Unit {0}) → (Dirs → Outcome (Unit {0})) → Outcome (Unit {0})
on_success (returns a d) k = k d
on_success (fails e d) k = fails e d
on_success fault k = fault
on_success endless k = endless

unfoldable pub whatever : Outcome (Unit {0}) → (Dirs → Outcome (Unit {0})) → Outcome (Unit {0})
whatever (returns a d) k = k d
whatever (fails e d) k = k d
whatever fault k = fault
whatever endless k = endless

abbrev pub is_some : Option Inode → Bool
is_some none = false
is_some (some i) = true

-- The slot is written through the pointer that was found before the deletion, so it is the slot at
-- the old index of the block as it is now.
unfoldable pub overwrite : ℕ → ℕ → Inode → Name → Dirs → Dirs
overwrite bno entry_idx old_inode name d = elim (d.blocks bno) [
  | none ↦ d
  | some es ↦
      put_block bno
        (update es entry_idx
          (record { ino = old_inode.i_ino; hash_name = copy_name name_length name }))
        d
]

-- There is an entry of the new name, in the block `bno`.
unfoldable pub replace_entry :
    Inode → Inode → Inode → Option Inode → Name → ℕ → ℕ → Dirs → Outcome (Unit {0})
replace_entry old_dir new_dir old_inode new_inode name bno entry_idx d =
    let finish =
      λ (d' : Dirs). delete_entry old_dir old_inode (overwrite bno entry_idx old_inode name d') in
    elim new_inode [ none ↦ finish d | some i ↦ whatever (delete_entry new_dir i d) finish ]

module _ (api : BitmapApi) where
  -- `new_dir == old_dir` compares inodes, here their numbers.
  unfoldable pub update_entry :
      Inode → Inode → Inode → Option Inode → Name → RenameFlags → Dirs → Outcome (Unit {0})
  update_entry old_dir new_dir old_inode new_inode name flags d =
      if flags.whiteout || flags.exchange && not (is_some new_inode)
      then fails einval d
      else elim (d.tables new_dir.i_bno) [
        | none ↦ fails eio d
        | some t ↦ elim (scan_blocks max_blocks 0 t.table d.blocks name) [
          | none ↦ fails eio d
          | some (found block_idx entry_idx) ↦
              if flags.noreplace && (new_dir.i_ino == old_dir.i_ino)
              then fails eexist d
              else replace_entry old_dir new_dir old_inode new_inode name (t.table block_idx)
                  entry_idx d
          | some absent ↦
              if leb entries_per_dir t.nr_of_entries
              then fails emlink d
              else on_success (add_entry_name api new_dir old_inode name d)
                  λ d'. delete_entry old_dir old_inode d'
        ]
      ]
