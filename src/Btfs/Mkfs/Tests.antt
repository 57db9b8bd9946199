-- ===== src/Btfs/Mkfs/Tests.antt =====
-- mkfs on a device of 20 MB.
use basic_btfs.Prelude.{ℕ, ◌+◌, ◌*◌, ◌/◌, ◌≤◌, ◌<◌, ◌≡◌, refl, Bool, true, false, arith}
use basic_btfs.Kernel.{plain_api, plain_api-IsBitmapApi}
use basic_btfs.Btfs.Super.{SbInfo}
use basic_btfs.Btfs.Bitmap.{get_free_blocks}
use basic_btfs.Btfs.Bitmap.Tests.{device}
use basic_btfs.Btfs.Mkfs.{
  block_size, inodes_per_block, words_per_block, Superblock, div_ceil, make_superblock, bits_used,
  first_data_block, write_bfree_blocks, bit_of,
}
use basic_btfs.Btfs.Mkfs.Layout.{make_superblock_layout}
use basic_btfs.Btfs.Mkfs.Maps.{write_bfree_blocks_small, get_free_blocks_fresh}

abbrev always : ℕ → Bool
always i = true

abbrev fresh : Superblock
fresh = make_superblock 20971520

fresh_used : bits_used fresh ≡ 106
unfolding make_superblock div_ceil
fresh_used = refl

make_superblock_layout_example :
    (fresh.s_nblocks ≡ 20971520 / block_size)
    × (fresh.s_ninodes ≤ fresh.s_inode_blocks * inodes_per_block)
    × (fresh.s_nblocks ≤ fresh.s_bmap_blocks * (block_size * 8))
    × (fresh.s_ninodes ≤ fresh.s_imap_blocks * (block_size * 8))
    × (fresh.s_nblocks ≤ fresh.s_filemap_blocks * words_per_block)
    × (first_data_block fresh < fresh.s_nblocks)
    × (first_data_block fresh + 1 ≡ bits_used fresh)
    × (fresh.s_nfree_blocks + bits_used fresh ≡ fresh.s_nblocks + 1)
make_superblock_layout_example = make_superblock_layout 20971520 (omega arith) (omega arith)

few_used : bits_used fresh < block_size
few_used = rw fresh_used (omega arith)

write_bfree_blocks_small_example :
    ((write_bfree_blocks always fresh).0 ≡ true)
    × ((k : ℕ) → bit_of (write_bfree_blocks always fresh).1 k ≡ false)
write_bfree_blocks_small_example = write_bfree_blocks_small always fresh (λ i. refl) few_used

abbrev mounted : SbInfo
mounted = device (bit_of (write_bfree_blocks always fresh).1) 5013

get_free_blocks_fresh_example : (get_free_blocks plain_api mounted 1).0 ≡ 1
get_free_blocks_fresh_example =
    get_free_blocks_fresh plain_api plain_api-IsBitmapApi always fresh mounted (λ i. refl) few_used
      (omega arith) λ k. refl
