-- ===== src/Btfs/Mkfs/Layout.antt =====
-- The areas of a fresh file system: each map has room for what it describes, and the counts.
use basic_btfs.Prelude.{ℕ, ◌+◌, ◌*◌, ◌/◌, ◌%◌, ◌≤◌, ◌<◌, ◌≡◌, arith, u32_mod}
use basic_btfs.Btfs.Mkfs.{
  block_size, inodes_per_block, words_per_block, div_ceil, make_superblock, bits_used,
  first_data_block,
}

div_ceil_1 :
    (a : ℕ) → a < u32_mod → (a ≤ div_ceil a 32768 * 32768) × (div_ceil a 32768 * 32768 < a + 32768)
unfolding div_ceil
div_ceil_1 a h = ground arith

div_ceil_2 : (a : ℕ) → a < u32_mod → (a ≤ div_ceil a 512 * 512) × (div_ceil a 512 * 512 < a + 512)
unfolding div_ceil
div_ceil_2 a h = ground arith

div_ceil_3 : (a : ℕ) → a < u32_mod → (a ≤ div_ceil a 56 * 56) × (div_ceil a 56 * 56 < a + 56)
unfolding div_ceil
div_ceil_3 a h = ground arith

-- On a device of at least six blocks whose number of blocks fits 32 bits, the areas that mkfs lays
-- out can describe every inode and every block, the root directory's block lies inside the device,
-- and the count of free blocks is the number of blocks behind the areas less one: one more than the
-- blocks that the superblock, the areas and the root directory leave.
pub make_superblock_layout :
    (size : ℕ)
    → 6 * block_size ≤ size
    → size / block_size < u32_mod
    → let sb = make_superblock size in
      (sb.s_nblocks ≡ size / block_size)
      × (sb.s_ninodes ≤ sb.s_inode_blocks * inodes_per_block)
      × (sb.s_nblocks ≤ sb.s_bmap_blocks * (block_size * 8))
      × (sb.s_ninodes ≤ sb.s_imap_blocks * (block_size * 8))
      × (sb.s_nblocks ≤ sb.s_filemap_blocks * words_per_block)
      × (first_data_block sb < sb.s_nblocks)
      × (first_data_block sb + 1 ≡ bits_used sb)
      × (sb.s_nfree_blocks + bits_used sb ≡ sb.s_nblocks + 1)
unfolding make_superblock first_data_block
make_superblock_layout size big small =
    let n = size / block_size % u32_mod in
    let fits : n < u32_mod = omega arith in
    omega (arith, div_ceil_1 n fits, div_ceil_2 n fits, div_ceil_3 n fits)
