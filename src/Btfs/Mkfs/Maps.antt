-- ===== src/Btfs/Mkfs/Maps.antt =====
-- The free maps of a fresh file system, as they are read back when it is mounted.
use basic_btfs.Prelude.{
  ℕ, zero, suc, ◌+◌, ◌-◌, ◌*◌, ◌/◌, ◌≤◌, ◌<◌, ◌≡◌, refl, Bool, true, false, List, [], ◌∷◌, arith,
  ◌==◌, u32_mod,
}
use basic_btfs.Kernel.{Bits, BitmapApi, IsBitmapApi, IsClear}
use basic_btfs.Btfs.Super.{SbInfo}
use basic_btfs.Btfs.Bitmap.{get_free_blocks}
use basic_btfs.Btfs.Bitmap.Alloc.{get_free_blocks_first, get_free_blocks_found}
use basic_btfs.Btfs.Mkfs.{
  block_size, Superblock, bits_used, clear_blocks, used_blocks, bfree_blocks, write_out,
  write_ifree_blocks, write_bfree_blocks, bit_of,
}

write_out-all :
    (ok : ℕ → Bool) (bs : List Bits) → ((i : ℕ) → ok i ≡ true) → write_out ok bs ≡ (true, bs)
unfolding write_out
write_out-all ok [] all = refl
write_out-all ok (b ∷ bs) all = rw (all 0, write_out-all (λ i. ok (i + 1)) bs (λ i. all (i + 1)))

bit_of-clear : (n k : ℕ) → bit_of (clear_blocks n) k ≡ false
unfolding bit_of clear_blocks
bit_of-clear zero k = refl
bit_of-clear (suc n) k = ground (arith, bit_of-clear n (k - block_size * 8))

-- If every block is written, the inode map of a fresh file system has one inode in use, that of
-- the root.
pub write_ifree_blocks_lem :
    (ok : ℕ → Bool) (sb : Superblock)
    → ((i : ℕ) → ok i ≡ true)
    → ((write_ifree_blocks ok sb).0 ≡ true)
      × ((k : ℕ) → bit_of (write_ifree_blocks ok sb).1 k ≡ (k == 0))
unfolding write_ifree_blocks bit_of
write_ifree_blocks_lem ok sb all =
    rw (write_out-all ok ((λ k. k == 0) ∷ clear_blocks (sb.s_imap_blocks - 1)) all)
      (refl, λ k. ground (arith, bit_of-clear (sb.s_imap_blocks - 1) (k - block_size * 8)))

-- The number of used blocks is divided by the bytes of a block, not by its bits, and only whole
-- quotients are marked. So with fewer than 4096 blocks in use, and every block written, the block
-- map has no block in use.
pub write_bfree_blocks_small :
    (ok : ℕ → Bool) (sb : Superblock)
    → ((i : ℕ) → ok i ≡ true)
    → bits_used sb < block_size
    → ((write_bfree_blocks ok sb).0 ≡ true)
      × ((k : ℕ) → bit_of (write_bfree_blocks ok sb).1 k ≡ false)
unfolding write_bfree_blocks bfree_blocks used_blocks
write_bfree_blocks_small ok sb all small =
    let none_used : bits_used sb / block_size ≡ 0 = omega arith in
    rw (none_used, write_out-all ok (clear_blocks (sb.s_bmap_blocks - 0)) all)
      (refl, λ k. bit_of-clear (sb.s_bmap_blocks - 0) k)

-- On a file system made with fewer than 4096 blocks in use, of at least 2 blocks whose number fits
-- 32 bits, and mounted with the block map as written, the first block to be allocated is block 1,
-- where the inode map is stored.
pub get_free_blocks_fresh :
    (api : BitmapApi) (law : IsBitmapApi api) (ok : ℕ → Bool) (sb : Superblock) (sbi : SbInfo)
    → ((i : ℕ) → ok i ≡ true)
    → bits_used sb < block_size
    → (2 ≤ sbi.s_nblocks) × (sbi.s_nblocks < u32_mod)
    → ((k : ℕ) → sbi.s_bfree_bitmap k ≡ bit_of (write_bfree_blocks ok sb).1 k)
    → (get_free_blocks api sbi 1).0 ≡ 1
get_free_blocks_fresh api law ok sb sbi all small size mounted =
    let written = write_bfree_blocks_small ok sb all small in
    let free : IsClear sbi.s_bfree_bitmap 1 1 = λ i r. rw mounted (written.1 i) in
    let first =
      get_free_blocks_first api law sbi 1 1 size.1 (omega arith) (omega arith) (omega arith) free in
    let taken = get_free_blocks_found api law sbi 1 size.1 (omega arith) first.1 in
    omega (arith, first.0, taken.0.start)
