-- ===== src/Ftfs/Search.antt =====
-- `basicftfs_search_entry` of BasicFATFS/dir.c. The answer is the inode number that
-- `basicftfs_iget` is called with; the access time of the directory is left out.
pub mod Correct
use basic_btfs.Prelude.{ℕ, zero, suc, ◌+◌, Option, none, some, ◌==◌, if◌then◌else◌}
use basic_btfs.Ftfs.Disk.{
  max_blocks, entries_per_block, name_length, Name, same_name, Entry, Table, Dirs, Inode, eio,
  Outcome, returns, fails,
}

-- What the loop over a block comes to: the slot with the name, an unused slot, or the end.
pub data Scan : Type 0 where
  hit : ℕ → Scan
  unused : Scan
  next_block : Scan

unfoldable pub scan_block : ℕ → ℕ → (ℕ → Entry) → Name → Scan
scan_block zero entry_idx es name = next_block
scan_block (suc rounds) entry_idx es name =
    let rest = scan_block rounds (entry_idx + 1) es name in
    if (es entry_idx).ino == 0
    then unused
    else if same_name name_length (es entry_idx).hash_name name
    then hit entry_idx
    else rest

-- Where the loop over the blocks ends; `none` is -EIO.
pub data Place : Type 0 where
  found : ℕ → ℕ → Place
  absent : Place

unfoldable pub scan_blocks : ℕ → ℕ → (ℕ → ℕ) → (ℕ → Option (ℕ → Entry)) → Name → Option Place
scan_blocks zero block_idx table blocks name = some absent
scan_blocks (suc rounds) block_idx table blocks name =
    let rest = scan_blocks rounds (block_idx + 1) table blocks name in
    if table block_idx == 0 then some absent else elim (blocks (table block_idx)) [
      | none ↦ none
      | some es ↦ elim (scan_block entries_per_block 0 es name) [
        | hit entry_idx ↦ some (found block_idx entry_idx)
        | unused ↦ some absent
        | next_block ↦ rest
      ]
    ]

-- The inode number in a slot, if the block can be read.
unfoldable pub ino_at : Dirs → Table → ℕ → ℕ → Option ℕ
ino_at d t block_idx entry_idx = elim (d.blocks (t.table block_idx)) [
  | none ↦ none
  | some es ↦ some (es entry_idx).ino
]

unfoldable pub search_entry : Inode → Name → Dirs → Outcome (Option ℕ)
search_entry dir name d = elim (d.tables dir.i_bno) [
  | none ↦ fails eio d
  | some t ↦ elim (scan_blocks max_blocks 0 t.table d.blocks name) [
    | none ↦ fails eio d
    | some absent ↦ returns none d
    | some (found block_idx entry_idx) ↦ returns (ino_at d t block_idx entry_idx) d
  ]
]
