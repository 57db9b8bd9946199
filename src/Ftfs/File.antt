-- ===== src/Ftfs/File.antt =====
-- The blocks of a file: `basicftfs_file_get_block` of BasicFATFS/file.c, and `clean_file_block` of
-- BasicFATFS/dir.c, which frees them. A block of a file is a block read as entries too, since only
-- its being zeroed matters here. Page cache calls are left out.
pub mod Blocks
use basic_btfs.Prelude.{
  ℕ, zero, suc, ◌+◌, Bool, not, true, false, Option, none, some, leb, ◌==◌, ◌||◌, if◌then◌else◌,
  update,
}
use basic_btfs.Kernel.{BitmapApi}
use basic_btfs.Ftfs.Bitmap.{get_free_blocks, put_blocks}
use basic_btfs.Ftfs.Disk.{
  max_blocks, Entry, zero_entry, Table, Dirs, Inode, Error, eio, enospc, emlink, efbig, Outcome,
  returns, fails, fault, endless, put_table, put_block,
}

module _ (api : BitmapApi) where
  -- `none` in the answer leaves `bh_result` unmapped.
  unfoldable pub get_block : Inode → ℕ → Bool → Dirs → Outcome (Option ℕ)
  get_block inode iblock create d =
      if leb max_blocks iblock then fails efbig d else elim (d.tables inode.i_bno) [
        | none ↦ fails eio d
        | some t ↦
            if t.table iblock == 0
            then (let (bno, sbi) = get_free_blocks api d.sbi 1 in
                let d' = record d { sbi = sbi } in
                if not create
                then returns none d
                else if bno == 0
                then fails enospc d'
                else returns (some bno)
                    (put_table inode.i_bno (record t { table = update t.table iblock bno }) d'))
            else returns (some (t.table iblock)) d
      ]

  -- The loop goes round at most `rounds` times. A block that cannot be read is freed, and the loop
  -- goes on with the same `bi`. The zeroed block is written behind the test of the read.
  unfoldable pub clean_blocks : ℕ → ℕ → (ℕ → ℕ) → Dirs → Outcome (Unit {0})
  clean_blocks zero bi table d = endless
  clean_blocks (suc rounds) bi table d =
      if leb max_blocks bi || table bi == 0
      then returns tt d
      else (let d' = record d { sbi = put_blocks api d.sbi (table bi) 1 } in
          elim (d.blocks (table bi)) [
            | none ↦ clean_blocks rounds bi table d'
            | some _ ↦
                clean_blocks rounds (bi + 1) table (put_block (table bi) (λ _. zero_entry) d')
          ])

  unfoldable pub clean_file_block : ℕ → Inode → Dirs → Outcome (Unit {0})
  clean_file_block rounds inode d = elim (d.tables inode.i_bno) [
    | none ↦ fails emlink d
    | some t ↦ clean_blocks rounds 0 t.table d
  ]
