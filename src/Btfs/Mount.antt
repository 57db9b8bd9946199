-- ===== src/Btfs/Mount.antt =====
-- `basicbtfs_fill_super` of BasicBTFS/super.c: what a mount does to the superblock information and
-- to the root directory. Allocation failures and the kernel's own structures are left out.
mod Again
mod Tests
use basic_btfs.Prelude.{
  ℕ, Bool, true, false, Option, none, some, ltb, ◌==◌, if◌then◌else◌, minus_one, update,
}
use basic_btfs.Kernel.{BitmapApi}
use basic_btfs.Btfs.Super.{SbInfo}
use basic_btfs.Btfs.Bitmap.{get_free_blocks, put_blocks}
use basic_btfs.Btfs.NameBlock.{NameBlock}
use basic_btfs.Btfs.Disk.{
  Node, Store, Disk, Inode, Ret, success, eio, enospc, failed, done, fault, Cmd, put_node,
  with_node,
}
use basic_btfs.Btfs.Cache.{max_cache_dir_entries, cache_add_dir}
use basic_btfs.Btfs.BtreeCache.{node_cache_init}
use basic_btfs.Btfs.Names.{new_name_block, put_names}

-- `init_sbi`: what is taken over from the superblock on disk. The magic number and the maps of the
-- new structure are left as they are.
unfoldable pub init_sbi : SbInfo → SbInfo → SbInfo
init_sbi csb sbi = record csb {
  s_magic = sbi.s_magic;
  s_cache_dir_entries = 0;
  s_ifree_bitmap = sbi.s_ifree_bitmap;
  s_bfree_bitmap = sbi.s_bfree_bitmap;
}

-- The root node as every mount leaves it.
unfoldable pub reset_root : Node → ℕ → Node
reset_root n ino = record n {
  leaf = true;
  root = true;
  nr_of_keys = 0;
  nr_of_files = 0;
  parent = ino;
}

-- The first block of the root's list of names.
unfoldable pub first_names : ℕ → NameBlock
first_names ino = record (new_name_block ino) { first_list = true }

module _ (api : BitmapApi) (alloc : Store → ℕ) where
  -- The cached root: an empty leaf, with a copy of the block of names in the buffer
  -- `bh_name_table`. With no buffer, `none`, a NULL pointer is read.
  unfoldable pub cache_root : Inode → ℕ → Option NameBlock → Cmd Ret
  cache_root inode name_bno bh_name_table d =
      let node = alloc d.cached in
      let d' = node_cache_init node true d in
      if ltb d'.sbi.s_cache_dir_entries max_cache_dir_entries
      then elim bh_name_table [
        | none ↦ fault
        | some b ↦ done success (cache_add_dir inode.i_bno node b name_bno d')
      ]
      else done success d'

  -- A root with no list of names gets one. The node is in a buffer, and is changed in place.
  unfoldable pub new_names : Inode → Node → Cmd Ret
  new_names inode n d =
      let (name_bno, sbi) = get_free_blocks api d.sbi 1 in
      let n' = record n { tree_name_bno = name_bno } in
      let d' = put_node inode.i_bno n' (record d { sbi = sbi }) in
      if name_bno == minus_one then done enospc d' else elim (d'.names name_bno) [
        | none ↦ done eio (record d' { sbi = put_blocks api d'.sbi name_bno 1 })
        | some _ ↦
            let b = first_names inode.i_ino in
            cache_root inode name_bno (some b) (put_names name_bno b d')
      ]

  -- From the read of the root's block on.
  unfoldable pub mount_root : Inode → Cmd Ret
  mount_root inode d = elim (d.node inode.i_bno) [
    | none ↦ done eio d
    | some old ↦
        let n = reset_root old inode.i_ino in
        let d' = put_node inode.i_bno n d in
        if n.tree_name_bno == 0
        then new_names inode n d'
        else cache_root inode n.tree_name_bno none d'
  ]
