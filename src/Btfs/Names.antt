-- ===== src/Btfs/Names.antt =====
-- BasicBTFS/nametree.h: the list of names of a directory, a chain of blocks. Entries are appended
-- behind the last one, and a deleted entry keeps its place with inode number 0.
pub mod Bytes
pub mod Slots
pub mod Listing
pub mod Written
pub mod Update
pub mod Chain
pub mod Links
pub mod Insert
pub mod Tests
use basic_btfs.Prelude.{
  ℕ, zero, suc, ◌+◌, ◌-◌, Bool, true, false, Option, none, some, List, [], ◌∷◌, ◌++◌, ltb, leb,
  ◌==◌, if◌then◌else◌, update, minus_one, add32, sub32, length,
}
use basic_btfs.Kernel.{BitmapApi}
use basic_btfs.Btfs.Bitmap.{get_free_blocks}
use basic_btfs.Btfs.NameBlock.{
  block_size, name_entry_s_offset, empty_name_tree, name_entry_size, NameBlock, read32, write32,
  read_bytes, write_bytes, strncpy,
}
use basic_btfs.Btfs.Disk.{
  Entry, Disk, Ret, success, eio, enospc, failed, Run, done, fault, out_of_fuel, Cmd, and_then,
}
use basic_btfs.Btfs.Cache.{max_cache_blocks_per_dir, cache_update_block, cache_add_name_block}

-- What `dir_emit` is given.
pub record Dirent : Type 0 where
  pub ino : ℕ
  pub name : List ℕ

-- `struct dir_context`: the position, and what the reader has taken.
pub record DirContext : Type 0 where
  pub pos : ℕ
  pub emitted : List Dirent

-- How a walk over a block ends: the answers 0 and 1 with the context, a read outside the block (or
-- a name of length -1), and a walk that is cut off.
pub data Walk : Type 0 where
  walked refused : DirContext → Walk
  outside cut_off : Walk

-- An entry has at least 8 bytes, so this many rounds pass the end of the block.
abbrev pub entries_per_block : ℕ
entries_per_block = 513

-- The copy of a name that is handed to `dir_emit`, without the byte for its end.
unfoldable pub name_at : (ℕ → ℕ) → ℕ → ℕ → List ℕ
name_at m off len = strncpy (read_bytes m (off + name_entry_size) (len - 1))

-- Behind a walk over one block, with the rest of the loop over the chain.
abbrev pub next_walk : ℕ → (DirContext → Ret × Walk) → Walk → Ret × Walk
next_walk next_block rest (walked ctx) = if next_block == 0 then (success, walked ctx) else rest ctx
next_walk next_block rest (refused ctx) = (success, refused ctx)
next_walk next_block rest outside = (failed, outside)
next_walk next_block rest cut_off = (failed, cut_off)

-- `accepts` is the reader of the directory, which `dir_emit` asks: whether it takes one more entry
-- behind those that it has taken.
module _ (accepts : List Dirent → Dirent → Bool) where
  unfoldable pub dir_emit : Dirent → DirContext → Bool × DirContext
  dir_emit e ctx =
      if accepts ctx.emitted e
      then (true, record ctx { emitted = ctx.emitted ++ (e ∷ []); pos = ctx.pos + 1 })
      else (false, ctx)

  -- The loop, with `left` for `nr_of_entries - i`: a deleted entry is not counted.
  unfoldable pub emit_entries : ℕ → ℕ → ℕ → (ℕ → ℕ) → DirContext → Walk
  emit_entries zero left off m ctx = cut_off
  emit_entries (suc fuel) left off m ctx =
      let ino = read32 m off in
      let len = read32 m (off + 4) in
      let next = off + name_entry_size + len in
      let skip = emit_entries fuel left next m ctx in
      let (taken, ctx') = dir_emit (record { ino = ino; name = name_at m off len }) ctx in
      let rest = emit_entries fuel (left - 1) next m ctx' in
      if left == 0
      then walked ctx
      else if ltb block_size next
      then outside
      else if ino == 0
      then skip
      else if len == 0
      then outside
      else if taken
      then rest
      else refused ctx

  -- The new `*total_nr_entries` is `total + nr_of_entries`. `*current_index` is only counted.
  unfoldable pub emit_block : NameBlock → ℕ → DirContext → ℕ → Walk
  emit_block b total ctx start_pos =
      if ltb start_pos (total + b.nr_of_entries)
      then emit_entries entries_per_block b.nr_of_entries name_entry_s_offset b.bytes ctx
      else walked ctx

  unfoldable pub iterate_from : ℕ → (ℕ → Option NameBlock) → ℕ → ℕ → DirContext → ℕ → Ret × Walk
  iterate_from zero names bno total ctx start_pos = (failed, cut_off)
  iterate_from (suc fuel) names bno total ctx start_pos = elim (names bno) [
    | none ↦ (eio, walked ctx)
    | some b ↦
        next_walk b.next_block
          (λ c. iterate_from fuel names b.next_block (total + b.nr_of_entries) c start_pos)
          (emit_block b total ctx start_pos)
  ]

  -- `basicbtfs_nametree_iterate_name`.
  unfoldable pub iterate_name : ℕ → ℕ → DirContext → ℕ → Disk → Ret × Walk
  iterate_name fuel name_bno ctx start_pos d = iterate_from fuel d.names name_bno 0 ctx start_pos

-- Room in the block for a name and its entry: strictly more than they need.
unfoldable pub has_room : NameBlock → List ℕ → Bool
has_room b name = ltb (length name + 1 + name_entry_size) (sub32 block_size b.start_unused_area)

-- Writes the entry, the name and the byte for its end, and answers where the entry stands.
unfoldable pub insert_entry_in_list : NameBlock → ℕ → List ℕ → Entry → NameBlock × Entry
insert_entry_in_list b name_bno name e =
    let off = b.start_unused_area in
    let size = name_entry_size + length name + 1 in
    let m = write32 (write32 b.bytes off e.ino) (off + 4) (length name + 1) in
    let m' = write_bytes m (off + name_entry_size) (strncpy name) in
    (
      record b {
        free_bytes = sub32 b.free_bytes size;
        start_unused_area = add32 off size;
        nr_of_entries = add32 b.nr_of_entries 1;
        bytes = update m' (off + name_entry_size + length name) 0;
      },
      record e { block_index = off; name_bno = name_bno },
    )

unfoldable pub put_names : ℕ → NameBlock → Disk → Disk
put_names bno b d = record d { names = update d.names bno (some b) }

-- The entry goes into the block `bno`, whose copy in the cache is brought up to date.
unfoldable pub insert_here : ℕ → NameBlock → ℕ → List ℕ → Entry → Cmd (Ret × Entry)
insert_here dir_bno b bno name e d =
    let (b', e') = insert_entry_in_list b bno name e in
    done (success, e')
      (record (put_names bno b' d) { dir_cache = cache_update_block dir_bno b' bno d.dir_cache })

-- A block as it is set up at the end of the chain. The source clears 4092 of its 4096 bytes, here
-- all are 0: what stands in the last four is only read behind a name that was written over them.
unfoldable pub new_name_block : ℕ → NameBlock
new_name_block prev = record {
  block_type_id = 2;
  free_bytes = empty_name_tree;
  start_unused_area = block_size - empty_name_tree;
  nr_of_entries = 0;
  next_block = 0;
  prev_block = prev;
  first_list = false;
  bytes = λ _. 0;
}

unfoldable pub insert_in_new : ℕ → ℕ → ℕ → List ℕ → Entry → ℕ → Cmd (Ret × Entry)
insert_in_new dir_bno prev bno name e nr_of_blocks d =
    let (b, e') = insert_entry_in_list (new_name_block prev) bno name e in
    if has_room (new_name_block prev) name
    then done (success, e')
        (record (put_names bno b d) {
          dir_cache =
              if ltb nr_of_blocks max_cache_blocks_per_dir
              then cache_add_name_block dir_bno b bno d.dir_cache
              else d.dir_cache;
        })
    else done (failed, e) (put_names bno (new_name_block prev) d)

module _ (api : BitmapApi) where
  -- The end of the chain, at the block `last` with buffer `b`: `next_block` is written before the
  -- answer of the allocation is looked at. `prev` is the block before the last one.
  unfoldable pub insert_behind : ℕ → ℕ → ℕ → NameBlock → List ℕ → Entry → ℕ → Cmd (Ret × Entry)
  insert_behind dir_bno prev last b name e nr_of_blocks d =
      let (bno, sbi) = get_free_blocks api d.sbi 1 in
      let d' = record (put_names last (record b { next_block = bno }) d) { sbi = sbi } in
      if bno == minus_one then done (enospc, e) d' else elim (d'.names bno) [
        | none ↦ done (eio, e) d'
        | some _ ↦ insert_in_new dir_bno prev bno name e nr_of_blocks d'
      ]

  unfoldable pub insert_from : ℕ → ℕ → ℕ → ℕ → List ℕ → Entry → ℕ → Cmd (Ret × Entry)
  insert_from zero dir_bno prev bno name e nr_of_blocks d = out_of_fuel
  insert_from (suc fuel) dir_bno prev bno name e nr_of_blocks d = elim (d.names bno) [
    | none ↦ done (eio, e) d
    | some b ↦
        let rest = insert_from fuel dir_bno bno b.next_block name e nr_of_blocks d in
        if has_room b name
        then insert_here dir_bno b bno name e d
        else if b.next_block == 0
        then insert_behind dir_bno prev bno b name e nr_of_blocks d
        else rest
  ]

  -- `basicbtfs_nametree_insert_name`. `prev_bno` starts as `name_bno`.
  unfoldable pub insert_name : ℕ → ℕ → List ℕ → Entry → ℕ → ℕ → Cmd (Ret × Entry)
  insert_name fuel name_bno name e dir_bno nr_of_blocks =
      insert_from fuel dir_bno name_bno name_bno name e nr_of_blocks

-- The block with the entry at `block_index` deleted.
unfoldable pub delete_in_block : NameBlock → ℕ → NameBlock
delete_in_block b block_index = record b {
  free_bytes = add32 b.free_bytes (name_entry_size + read32 b.bytes (block_index + 4));
  nr_of_entries = sub32 b.nr_of_entries 1;
  bytes = write32 b.bytes block_index 0;
}

-- `basicbtfs_nametree_delete_name`. An index that is not behind the header, or whose entry passes
-- the end of the block, writes elsewhere.
unfoldable pub delete_name : ℕ → ℕ → ℕ → Cmd Ret
delete_name name_bno block_index dir_bno d = elim (d.names name_bno) [
  | none ↦ done eio d
  | some b ↦
      let b' = delete_in_block b block_index in
      if ltb block_index name_entry_s_offset
      then fault
      else if ltb block_size (block_index + name_entry_size)
      then fault
      else done success (record (put_names name_bno b' d) {
        dir_cache = cache_update_block dir_bno b' name_bno d.dir_cache;
      })
]
