-- ===== src/Btfs/Dir/Iterate.antt =====
-- Listing a directory: `basicbtfs_cache_iterate_dir` of BasicBTFS/cache.h and `basicbtfs_iterate`
-- of BasicBTFS/dir.c. The code that walks over a block is the same for a cached one.
use basic_btfs.Prelude.{
  ℕ, ◌+◌, ◌-◌, Bool, Option, none, some, List, [], ◌∷◌, ltb, leb, if◌then◌else◌,
}
use basic_btfs.Btfs.NameBlock.{CachedName}
use basic_btfs.Btfs.Disk.{Disk, Inode, Ret, success, eio, failed}
use basic_btfs.Btfs.Cache.{find_dir}
use basic_btfs.Btfs.Names.{
  Dirent, DirContext, Walk, walked, refused, outside, cut_off, emit_block, iterate_name,
}
use basic_btfs.Btfs.Dir.{entries_per_dir}

module _ (accepts : List Dirent → Dirent → Bool) where
  -- The answer of a walk over a block is dropped: the next block is offered after a refusal too.
  unfoldable pub cache_emit_blocks : List CachedName → ℕ → DirContext → ℕ → Walk
  cache_emit_blocks [] total ctx start_pos = walked ctx
  cache_emit_blocks (c ∷ cs) total ctx start_pos =
      let rest = λ (ctx' : DirContext).
        cache_emit_blocks cs (total + c.block.nr_of_entries) ctx' start_pos in
      elim (emit_block accepts c.block total ctx start_pos) [
        | walked ctx' ↦ rest ctx'
        | refused ctx' ↦ rest ctx'
        | outside ↦ outside
        | cut_off ↦ cut_off
      ]

  -- `none`: the directory is not in the cache.
  unfoldable pub cache_iterate_dir : ℕ → DirContext → ℕ → Disk → Option Walk
  cache_iterate_dir hash ctx start_pos d = elim (find_dir hash d.dir_cache) [
    | none ↦ none
    | some c ↦ some (cache_emit_blocks c.name_blocks 0 ctx start_pos)
  ]

  -- Behind the listing from the cache: the list on disk is gone through as well, unless as many
  -- names as the directory has files have been taken.
  unfoldable pub iterate_rest : ℕ → ℕ → ℕ → Walk → Disk → Ret × Walk
  iterate_rest fuel name_bno nr_of_files (walked ctx) d =
      if leb nr_of_files (ctx.pos - 2)
      then (success, walked ctx)
      else iterate_name accepts fuel name_bno ctx (ctx.pos - 2) d
  iterate_rest fuel name_bno nr_of_files w d = (failed, w)

  -- `emit_dots` is `dir_emit_dots` of the kernel: `none` where the reader refuses one of both.
  unfoldable pub iterate :
      (DirContext → Option DirContext) → ℕ → Inode → DirContext → Disk → Ret × Walk
  iterate emit_dots fuel inode ctx d =
      if ltb (entries_per_dir + 2) ctx.pos then (success, walked ctx) else elim (emit_dots ctx) [
        | none ↦ (success, walked ctx)
        | some ctx' ↦ elim (d.node inode.i_bno) [
          | none ↦ (eio, walked ctx')
          | some n ↦ elim (cache_iterate_dir inode.i_bno ctx' (ctx'.pos - 2) d) [
            | none ↦ iterate_name accepts fuel n.tree_name_bno ctx' (ctx'.pos - 2) d
            | some w ↦ iterate_rest fuel n.tree_name_bno n.nr_of_files w d
          ]
        ]
      ]
