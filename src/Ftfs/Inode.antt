-- ===== src/Ftfs/Inode.antt =====
-- BasicFATFS/inode.c: making a file or a directory, and removing and renaming. Times, owners and
-- the kernel's own structures are left out. The kernel is taken to have an inode in memory for
-- every number that can be read.
pub mod Rmdir
mod Tests
use basic_btfs.Prelude.{
  ℕ, ◌+◌, ◌/◌, Bool, true, false, not, Option, none, some, ltb, leb, ◌==◌, if◌then◌else◌, length,
  add32, sub32,
}
use basic_btfs.Kernel.{BitmapApi}
use basic_btfs.Ftfs.Bitmap.{SbInfo, get_free_inode, put_inode, get_free_blocks}
use basic_btfs.Ftfs.Disk.{
  entries_per_dir, name_length, Name, zero_entry, Table, Dirs, Inode, Error, eio, enospc, emlink,
  einval, enametoolong, enotempty, Outcome, returns, fails, fault, endless, put_table, put_block,
}
use basic_btfs.Ftfs.Add.{clean_allocated_inode, add_entry_name}
use basic_btfs.Ftfs.Remove.{delete_entry}
use basic_btfs.Ftfs.Rename.{RenameFlags, on_success, whatever, update_entry}

-- What is asked for. A symbolic link passes the test too, but no operation asks for one.
pub data Kind : Type 0 where
  directory regular other : Kind

abbrev supported : Kind → Bool
supported other = false
supported _ = true

-- BASICFTFS_GET_INODE_BLOCK.
abbrev pub inodes_per_block : ℕ
inodes_per_block = 56

unfoldable pub get_inode_block : SbInfo → ℕ → ℕ
get_inode_block sbi ino = ino / inodes_per_block + sbi.s_imap_blocks + sbi.s_bmap_blocks + 1

-- A block set to zero, read as a table and read as entries.
unfoldable pub zeroed : ℕ → Dirs → Dirs
zeroed bno d =
    put_block bno (λ _. zero_entry) (put_table bno (record { nr_of_entries = 0; table = λ _. 0 }) d)

-- `clean_block`.
unfoldable pub clean_block : Inode → Dirs → Outcome (Unit {0})
clean_block inode d = elim (d.tables inode.i_bno) [
  | none ↦ fails eio d
  | some _ ↦ returns tt (zeroed inode.i_bno d)
]

-- A call behind one that succeeds with an inode.
abbrev pub with_inode : Outcome Inode → (Inode → Dirs → Outcome (Unit {0})) → Outcome (Unit {0})
with_inode (returns inode d) k = k inode d
with_inode (fails e d) k = fails e d
with_inode fault k = fault
with_inode endless k = endless

-- Where a call fails, the step `undo` is taken before its error is passed on.
abbrev pub or_undo : Outcome (Unit {0}) → (Dirs → Dirs) → Outcome (Unit {0})
or_undo (returns a d) undo = returns a d
or_undo (fails e d) undo = fails e (undo d)
or_undo fault undo = fault
or_undo endless undo = endless

-- `readable` says which blocks of inodes `sb_bread` can read.
module _ (api : BitmapApi) (readable : ℕ → Bool) where
  -- `basicftfs_iget`: the inode must exist, and its block must be readable.
  unfoldable pub iget : ℕ → SbInfo → Option Error
  iget ino sbi =
      if leb sbi.s_ninodes ino
      then some einval
      else if readable (get_inode_block sbi ino)
      then none
      else some eio

  -- The block of the new inode. The test is for 0, which `get_free_blocks` never answers.
  unfoldable pub new_block : ℕ → Dirs → Outcome Inode
  new_block ino d =
      let (bno, sbi) = get_free_blocks api d.sbi 1 in
      if bno == 0
      then fails enospc (record d { sbi = put_inode api sbi ino })
      else returns (record { i_ino = ino; i_bno = bno }) (record d { sbi = sbi })

  -- `basicftfs_new_inode`. The test `!ino` is for 0, which `get_free_inode` never gives.
  unfoldable pub new_inode : Kind → Dirs → Outcome Inode
  new_inode kind d =
      let (ino, sbi) = get_free_inode api d.sbi in
      let d' = record d { sbi = sbi } in
      if not (supported kind)
      then fails einval d
      else if d.sbi.s_nfree_inodes == 0
      then fails enospc d
      else if d.sbi.s_nfree_blocks == 0
      then fails enospc d
      else if ino == 0
      then fails enospc d'
      else elim (iget ino sbi) [
        | some why ↦ fails why (record d' { sbi = put_inode api sbi ino })
        | none ↦ new_block ino d'
      ]

  -- The entry of a new inode. Where it cannot be added, the inode and its block are given back,
  -- which the code that adds the entry has done before on some of its ways out.
  unfoldable pub add_new : Inode → Name → Inode → Dirs → Outcome (Unit {0})
  add_new dir name inode d =
      or_undo (add_entry_name api dir inode name d) (clean_allocated_inode api inode)

  unfoldable pub create : Kind → Inode → Name → Dirs → Outcome (Unit {0})
  create kind dir name d =
      if ltb name_length (length name) then fails enametoolong d else elim (d.tables dir.i_bno) [
        | none ↦ fails eio d
        | some t ↦
            if leb entries_per_dir t.nr_of_entries
            then fails emlink d
            else with_inode (new_inode kind d) λ inode d1.
              on_success (or_undo (clean_block inode d1) (clean_allocated_inode api inode))
                (add_new dir name inode)
      ]

module _ (api : BitmapApi) where
  -- The new count of links of the inode, which goes up whatever the call answers, and the answer.
  unfoldable pub link : Inode → Inode → ℕ → Name → Dirs → ℕ × Outcome (Unit {0})
  link dir inode i_nlink name d = (add32 i_nlink 1, add_entry_name api dir inode name d)

  -- The inode and the block of a directory are given back, those of a regular file are not.
  unfoldable pub unlink : Inode → Inode → Kind → Dirs → Outcome (Unit {0})
  unlink dir inode kind d = on_success (delete_entry dir inode d) λ d'.
      elim (d'.tables inode.i_bno) [
        | none ↦ returns tt (clean_allocated_inode api inode d')
        | some _ ↦ elim kind [
          | directory ↦ returns tt (clean_allocated_inode api inode (zeroed inode.i_bno d'))
          | _ ↦ returns tt d'
        ]
      ]

  -- The tests behind the removal, with the count of links as it is then. They read the block that
  -- has been set to zero.
  unfoldable pub check_empty : Inode → ℕ → Outcome (Unit {0}) → Dirs → Outcome (Unit {0})
  check_empty inode i_nlink answer d =
      if ltb 2 i_nlink then fails enotempty d else elim (d.tables inode.i_bno) [
        | none ↦ fails eio d
        | some t ↦ if ltb 0 t.nr_of_entries then fails enotempty d else answer
      ]

  -- A removal that gets as far as the inode takes two links.
  unfoldable pub rmdir : Inode → Inode → ℕ → Dirs → Outcome (Unit {0})
  rmdir dir inode i_nlink d = elim (unlink dir inode directory d) [
    | returns a d' ↦ check_empty inode (sub32 i_nlink 2) (returns a d') d'
    | fails e d' ↦ check_empty inode i_nlink (fails e d') d'
    | fault ↦ fault
    | endless ↦ endless
  ]

  -- The answer of the change is dropped. The second test of the source is on no flag.
  unfoldable pub rename :
      Inode → Inode → Inode → Option Inode → Name → RenameFlags → Dirs → Outcome (Unit {0})
  rename old_dir new_dir old_inode new_inode name flags d =
      if flags.exchange
      then fails einval d
      else if ltb name_length (length name)
      then fails enametoolong d
      else whatever (update_entry api old_dir new_dir old_inode new_inode name flags d) (returns tt)
