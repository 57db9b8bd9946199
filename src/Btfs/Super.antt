-- ===== src/Btfs/Super.antt =====
-- The superblock information in memory, `struct basicbtfs_sb_info` of BasicBTFS/basicbtfs.h.
use basic_btfs.Prelude.{ℕ}
use basic_btfs.Kernel.{Bits}

pub record SbInfo : Type 0 where
  pub s_magic : ℕ
  pub s_nblocks : ℕ
  pub s_ninodes : ℕ
  pub s_imap_blocks : ℕ
  pub s_bmap_blocks : ℕ
  pub s_filemap_blocks : ℕ
  pub s_inode_blocks : ℕ
  pub s_nfree_inodes : ℕ
  pub s_nfree_blocks : ℕ
  pub s_cache_dir_entries : ℕ
  pub s_unused_area : ℕ
  pub s_ifree_bitmap : Bits
  pub s_bfree_bitmap : Bits
