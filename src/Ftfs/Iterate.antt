-- ===== src/Ftfs/Iterate.antt =====
-- `basicftfs_iterate` of BasicFATFS/dir.c, on a directory. A name is handed to the reader with a
-- fixed length of 255, so the reader gets the entry.
pub mod Correct
mod Tests
use basic_btfs.Prelude.{
  ℕ, zero, suc, ◌+◌, ◌-◌, ◌/◌, ◌%◌, Bool, Option, none, some, List, [], ◌∷◌, ◌++◌, ltb, ◌==◌,
  if◌then◌else◌,
}
use basic_btfs.Ftfs.Disk.{max_blocks, entries_per_block, entries_per_dir, Entry, Table, Dirs, Inode}

-- `struct dir_context`: the position, and what the reader has taken.
pub record DirContext : Type 0 where
  pub pos : ℕ
  pub emitted : List Entry

-- The answers 0 and -EIO, with the context.
pub data Listed : Type 0 where
  listed unreadable : DirContext → Listed

-- `accepts` is the reader: whether it takes one more entry behind those that it has taken.
module _ (accepts : List Entry → Entry → Bool) where
  -- The loop over a block, with `rounds` for the distance of `entry_idx` to the end. The pointer to
  -- the entry, here `p`, starts at the first entry of the block whatever `entry_idx` is. An unused
  -- slot counts in the position, too.
  unfoldable pub emit_block : ℕ → ℕ → (ℕ → Entry) → DirContext → DirContext
  emit_block zero p es ctx = ctx
  emit_block (suc rounds) p es ctx =
      let skip = emit_block rounds (p + 1) es (record ctx { pos = ctx.pos + 1 }) in
      let rest =
        emit_block rounds (p + 1) es
          (record { pos = ctx.pos + 1; emitted = ctx.emitted ++ (es p ∷ []) }) in
      if (es p).ino == 0 then skip else if accepts ctx.emitted (es p) then rest else ctx

  -- The loop over the table. Behind a refusal it goes on with the next block.
  unfoldable pub emit_blocks : ℕ → ℕ → ℕ → (ℕ → ℕ) → (ℕ → Option (ℕ → Entry)) → DirContext → Listed
  emit_blocks zero block_idx entry_idx table blocks ctx = listed ctx
  emit_blocks (suc rounds) block_idx entry_idx table blocks ctx =
      let rest = λ (c : DirContext). emit_blocks rounds (block_idx + 1) 0 table blocks c in
      if table block_idx == 0 then listed ctx else elim (blocks (table block_idx)) [
        | none ↦ unreadable ctx
        | some es ↦
            if (es 0).ino == 0
            then listed ctx
            else rest (emit_block (entries_per_block - entry_idx) 0 es ctx)
      ]

  -- `emit_dots` is `dir_emit_dots` of the kernel: `none` where the reader refuses one of both.
  unfoldable pub iterate : (DirContext → Option DirContext) → Inode → DirContext → Dirs → Listed
  iterate emit_dots inode ctx d =
      if ltb (entries_per_dir + 2) ctx.pos then listed ctx else elim (emit_dots ctx) [
        | none ↦ listed ctx
        | some c ↦ elim (d.tables inode.i_bno) [
          | none ↦ unreadable c
          | some t ↦
              let block_idx = (c.pos - 2) / entries_per_block in
              emit_blocks (max_blocks - block_idx) block_idx ((c.pos - 2) % entries_per_block)
                t.table d.blocks c
        ]
      ]
