-- ===== src/Ftfs/Add.antt =====
-- `basicftfs_add_entry_name` of BasicFATFS/dir.c, with its ways out on an error, and
-- `clean_allocated_block` of BasicFATFS/destroy.h.
pub mod Append
pub mod Find
use basic_btfs.Prelude.{
  ℕ, ◌+◌, ◌/◌, ◌%◌, Bool, true, false, not, ◌&&◌, Option, none, some, leb, ◌==◌, if◌then◌else◌,
  update, add32,
}
use basic_btfs.Kernel.{BitmapApi}
use basic_btfs.Ftfs.Bitmap.{get_free_blocks, put_blocks, put_inode}
use basic_btfs.Ftfs.Disk.{
  max_blocks, entries_per_block, name_length, Name, copy_name, Table, Dirs, Inode, Error, eio,
  enospc, Outcome, returns, fails, fault, put_table, put_block,
}

module _ (api : BitmapApi) where
  -- The length handed to `put_blocks` is the block's number.
  unfoldable pub clean_allocated_block : ℕ → Table → ℕ → Bool → Dirs → Dirs
  clean_allocated_block bno t bi is_allocated d =
      if is_allocated && not (t.table bi == 0)
      then put_table bno (record t { table = update t.table bi 0 })
          (record d { sbi = put_blocks api d.sbi (t.table bi) (t.table bi) })
      else d

  -- The label `clean_allocated_inode`: the new inode and its block are given back.
  unfoldable pub clean_allocated_inode : Inode → Dirs → Dirs
  clean_allocated_inode inode d = record d {
    sbi = put_inode api (put_blocks api d.sbi inode.i_bno 1) inode.i_ino;
  }

  -- The entry written behind the last, in the block at `block_idx` of the table `t`.
  unfoldable pub write_new_entry : ℕ → Table → Bool → Inode → Name → Dirs → Outcome (Unit {0})
  write_new_entry bno t is_allocated inode filename d =
      let block_idx = t.nr_of_entries / entries_per_block in
      let entry_idx = t.nr_of_entries % entries_per_block in
      elim (d.blocks (t.table block_idx)) [
        | none ↦
            fails eio
              (clean_allocated_inode inode (clean_allocated_block bno t block_idx is_allocated d))
        | some es ↦ returns tt (
            put_table bno (record t { nr_of_entries = add32 t.nr_of_entries 1 })
              (put_block (t.table block_idx)
                (update es entry_idx
                  (record { ino = inode.i_ino; hash_name = copy_name name_length filename }))
                d))
      ]

  -- A full directory makes the source read and write the table one slot past its end. The test of
  -- the allocated block is for 0, which `get_free_blocks` never answers.
  unfoldable pub add_entry_name : Inode → Inode → Name → Dirs → Outcome (Unit {0})
  add_entry_name dir inode filename d = elim (d.tables dir.i_bno) [
    | none ↦ fails eio d
    | some t ↦
        let block_idx = t.nr_of_entries / entries_per_block in
        if leb max_blocks block_idx
        then fault
        else if t.table block_idx == 0
        then (let (bno, sbi) = get_free_blocks api d.sbi 1 in
            let d' = record d { sbi = sbi } in
            let t' = record t { table = update t.table block_idx bno } in
            if bno == 0
            then fails enospc (clean_allocated_inode inode d')
            else write_new_entry dir.i_bno t' true inode filename (put_table dir.i_bno t' d'))
        else write_new_entry dir.i_bno t false inode filename d
  ]
