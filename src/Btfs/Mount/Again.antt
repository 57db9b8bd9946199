-- ===== src/Btfs/Mount/Again.antt =====
-- The first and the second mount of a file system, BasicBTFS/super.c.
use basic_btfs.Prelude.{ℕ, ◌≡◌, ◌≢◌, true, false, some, [], if◌then◌else◌, ◌==◌}
use basic_btfs.Kernel.{BitmapApi}
use basic_btfs.Btfs.Super.{SbInfo}
use basic_btfs.Btfs.NameBlock.{NameBlock}
use basic_btfs.Btfs.Disk.{Node, Store, Disk, Inode, put_node}
use basic_btfs.Btfs.Cache.{cache_add_dir, cache_get_root_node}
use basic_btfs.Btfs.BtreeCache.{node_cache_init}
use basic_btfs.Btfs.Names.{put_names}
use basic_btfs.Btfs.Names.Chain.{IsChain}
use basic_btfs.Btfs.Mount.{reset_root, first_names}

-- What the first mount leaves: the root is an empty leaf with an empty list of names in a block
-- that was free, the other nodes are as they were, the only bit that changes is this block's, and
-- the root's first node is in the cache.
pub record IsMounted (alloc : Store → ℕ) (inode : Inode) (d d' : Disk) (root : Node) : Type 0 where
  pub there : d'.node inode.i_bno ≡ some root
  pub others : (b : ℕ) → b ≢ inode.i_bno → d'.node b ≡ d.node b
  pub isleaf : root.leaf ≡ true
  pub keys : root.nr_of_keys ≡ 0
  pub files : root.nr_of_files ≡ 0
  pub list : IsChain d'.names root.tree_name_bno [] []
  pub was_free : d.sbi.s_bfree_bitmap root.tree_name_bno ≡ false
  pub taken :
      (x : ℕ)
      → d'.sbi.s_bfree_bitmap x ≡ (if x == root.tree_name_bno then true else d.sbi.s_bfree_bitmap x)
  pub in_cache : cache_get_root_node inode.i_bno d'.dir_cache ≡ some (alloc d.cached)

module _ (api : BitmapApi) (alloc : Store → ℕ) (inode : Inode) (root : Node) (d : Disk) (r : ℕ)
    (sbi : SbInfo) where
  -- The root, and the state, behind a first mount that takes block `r`.
  named_root : Node
  named_root = record (reset_root root inode.i_ino) { tree_name_bno = r }

  with_names : Disk
  with_names = put_names r (first_names inode.i_ino) (
      put_node inode.i_bno named_root
        (record (put_node inode.i_bno (reset_root root inode.i_ino) d) { sbi = sbi }))

  mounted : Disk
  mounted =
      cache_add_dir inode.i_bno (alloc d.cached) (first_names inode.i_ino) r
        (node_cache_init (alloc d.cached) true with_names)
