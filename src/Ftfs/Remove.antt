-- ===== src/Ftfs/Remove.antt =====
-- `basicftfs_delete_entry` of BasicFATFS/dir.c, with `move_files` and `remove_file_from_dir` of
-- BasicFATFS/io.h: the later entries move one slot down, over the blocks.
pub mod Close
pub mod Delete
use basic_btfs.Prelude.{
  ℕ, zero, suc, ◌+◌, ◌-◌, Bool, true, false, Option, none, some, ltb, leb, ◌==◌, if◌then◌else◌,
  update, sub32, ◌&&◌,
}
use basic_btfs.Ftfs.Disk.{
  max_blocks, entries_per_block, Entry, zero_entry, Table, Dirs, Inode, eio, Outcome, returns,
  fails, put_table, put_block,
}

-- `memmove(es + fi, es + fi + 1, 14 - fi entries)` and the last slot zeroed.
unfoldable pub remove_file_from_dir : ℕ → (ℕ → Entry) → ℕ → Entry
remove_file_from_dir fi es =
    update (λ j. if leb fi j && ltb j (entries_per_block - 1) then es (j + 1) else es j)
      (entries_per_block - 1) zero_entry

-- The first entry of the block `cur` moves to the end of the block `prev`, the others move down.
unfoldable pub move_files : ℕ → ℕ → Dirs → Dirs
move_files prev cur d = elim (d.blocks prev) [
  | none ↦ d
  | some es_prev ↦ elim (d.blocks cur) [
    | none ↦ d
    | some es ↦
        let d' = put_block prev (update es_prev (entries_per_block - 1) (es 0)) d in
        elim (d'.blocks cur) [
          | none ↦ d'
          | some es' ↦ put_block cur (remove_file_from_dir 0 es') d'
        ]
  ]
]

-- The slot of the entry with the inode number.
unfoldable pub find_file : ℕ → ℕ → (ℕ → Entry) → ℕ → Option ℕ
find_file zero fi es ino = none
find_file (suc rounds) fi es ino =
    let rest = find_file rounds (fi + 1) es ino in if (es fi).ino == ino then some fi else rest

-- What the loop over the blocks comes to: whether the entry was found, or -EIO.
pub data Closed : Type 0 where
  closed : Bool → Dirs → Closed
  unreadable : Dirs → Closed

abbrev pub is_some : Option ℕ → Bool
is_some none = false
is_some (some p) = true

-- The loop; `prev` is the block before, once the entry has been found.
unfoldable pub close_gap : ℕ → ℕ → Option ℕ → (ℕ → ℕ) → ℕ → Dirs → Closed
close_gap zero bi prev table ino d = closed (is_some prev) d
close_gap (suc rounds) bi prev table ino d =
    let page = table bi in
    let moved = λ (p : ℕ). close_gap rounds (bi + 1) (some page) table ino (move_files p page d) in
    let removed =
      λ (es : ℕ → Entry). close_gap rounds (bi + 1) (some page) table ino (put_block page es d) in
    let rest = close_gap rounds (bi + 1) none table ino d in
    if page == 0 then closed (is_some prev) d else elim (d.blocks page) [
      | none ↦ unreadable d
      | some es ↦ if (es 0).ino == 0 then closed (is_some prev) d else elim prev [
        | some p ↦ moved p
        | none ↦ elim (find_file entries_per_block 0 es ino) [
          | none ↦ rest
          | some fi ↦ removed (remove_file_from_dir fi es)
        ]
      ]
    ]

-- The table is not changed by the loop; on -EIO it keeps its count, whatever has been moved.
unfoldable pub delete_entry : Inode → Inode → Dirs → Outcome (Unit {0})
delete_entry dir inode d = elim (d.tables dir.i_bno) [
  | none ↦ fails eio d
  | some t ↦ elim (close_gap max_blocks 0 none t.table inode.i_ino d) [
    | closed true d' ↦
        returns tt (put_table dir.i_bno (record t { nr_of_entries = sub32 t.nr_of_entries 1 }) d')
    | closed false d' ↦ returns tt d'
    | unreadable d' ↦ fails eio d'
  ]
]
