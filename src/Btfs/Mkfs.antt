-- ===== src/Btfs/Mkfs.antt =====
-- BasicBTFS/mkfs.c: the superblock and the blocks that are written behind it. `ok` says for each
-- call of `write` on the device, in order, whether it writes the whole block; a function answers
-- whether it got through, and the blocks that it has written. Little-endian byte order.
pub mod Layout
pub mod Maps
mod Tests
use basic_btfs.Prelude.{
  ℕ, zero, suc, ◌+◌, ◌-◌, ◌*◌, ◌/◌, ◌%◌, Bool, true, false, ◌||◌, ◌&&◌, Option, none, some, List,
  [], ◌∷◌, ◌++◌, ltb, ◌==◌, if◌then◌else◌, sub32, add32, u32_mod,
}
use basic_btfs.Kernel.{Bits}

abbrev pub block_size : ℕ
block_size = 4096

-- Inodes of 72 bytes, and entries of 8 bytes of the file map, in a block.
abbrev pub inodes_per_block : ℕ
inodes_per_block = 56

abbrev pub words_per_block : ℕ
words_per_block = 512

-- The fields that mkfs sets, `struct basicbtfs_sb_info`; `s_unused_area` stays 0.
pub record Superblock : Type 0 where
  pub s_nblocks : ℕ
  pub s_ninodes : ℕ
  pub s_inode_blocks : ℕ
  pub s_imap_blocks : ℕ
  pub s_bmap_blocks : ℕ
  pub s_filemap_blocks : ℕ
  pub s_nfree_inodes : ℕ
  pub s_nfree_blocks : ℕ

unfoldable pub div_ceil : ℕ → ℕ → ℕ
div_ceil a b = let ret = a / b in if a % b == 0 then ret else add32 ret 1

-- The superblock for a device of `size` bytes; the block count is cut to 32 bits.
unfoldable pub make_superblock : ℕ → Superblock
make_superblock size =
    let nr_blocks = size / block_size % u32_mod in
    let imap = div_ceil nr_blocks (block_size * 8) in
    let bmap = div_ceil nr_blocks (block_size * 8) in
    let filemap = div_ceil nr_blocks words_per_block in
    let inode_blocks = div_ceil nr_blocks inodes_per_block in
    let nr_data_blocks = sub32 (sub32 (sub32 (sub32 nr_blocks imap) bmap) inode_blocks) filemap in
    record {
      s_nblocks = nr_blocks;
      s_ninodes = nr_blocks;
      s_inode_blocks = inode_blocks;
      s_imap_blocks = imap;
      s_bmap_blocks = bmap;
      s_filemap_blocks = filemap;
      s_nfree_inodes = sub32 nr_blocks 1;
      s_nfree_blocks = sub32 nr_data_blocks 1;
    }

-- One `write` of a block after another, up to the first that fails.
unfoldable pub write_out : (ℕ → Bool) → List Bits → Bool × List Bits
write_out ok [] = (true, [])
write_out ok (b ∷ bs) =
    let (done, written) = write_out (λ i. ok (i + 1)) bs in
    if ok 0 then (done, b ∷ written) else (false, [])

-- The bitmap block with no bit set, and with all set.
abbrev pub clear_block : Bits
clear_block k = false

abbrev pub full_block : Bits
full_block k = true

-- `n` times the block with no bit set.
unfoldable pub clear_blocks : ℕ → List Bits
clear_blocks zero = []
clear_blocks (suc n) = clear_block ∷ clear_blocks n

-- Bit 0 is the root's inode.
unfoldable pub write_ifree_blocks : (ℕ → Bool) → Superblock → Bool × List Bits
write_ifree_blocks ok sb = write_out ok ((λ k. k == 0) ∷ clear_blocks (sb.s_imap_blocks - 1))

abbrev pub bits_used : Superblock → ℕ
bits_used sb =
    add32
      (add32 (add32 (add32 sb.s_imap_blocks sb.s_bmap_blocks) sb.s_inode_blocks)
        sb.s_filemap_blocks)
      2

-- The last block with used bits: whole words of 64, then single bits of the next word.
unfoldable pub last_used_block : ℕ → Bits
last_used_block used k =
    ltb (k / 64) (used % block_size / 64)
    || (k / 64 == used % block_size / 64) && ltb (k % 64) (used % block_size % 64)

-- The loop from `i` to `blocks_used`, with `rounds` of it left.
unfoldable pub used_blocks : ℕ → ℕ → ℕ → ℕ → List Bits
used_blocks zero i blocks_used used = []
used_blocks (suc rounds) i blocks_used used =
    (if blocks_used - 1 == i then last_used_block used else full_block)
    ∷ used_blocks rounds (i + 1) blocks_used used

unfoldable pub bfree_blocks : Superblock → List Bits
bfree_blocks sb =
    let blocks_used = bits_used sb / block_size in
    used_blocks blocks_used 0 blocks_used (bits_used sb)
    ++ clear_blocks (sb.s_bmap_blocks - blocks_used)

unfoldable pub write_bfree_blocks : (ℕ → Bool) → Superblock → Bool × List Bits
write_bfree_blocks ok sb = write_out ok (bfree_blocks sb)

-- The block of the root directory, which `write_inode_blocks` puts in the root's inode.
unfoldable pub first_data_block : Superblock → ℕ
first_data_block sb =
    add32 (add32 (add32 (add32 1 sb.s_imap_blocks) sb.s_bmap_blocks) sb.s_inode_blocks)
      sb.s_filemap_blocks

-- The bits that `init_bitmap` of super.c reads back: block after block.
unfoldable pub bit_of : List Bits → ℕ → Bool
bit_of [] k = false
bit_of (b ∷ bs) k =
    let rest = bit_of bs (k - block_size * 8) in if ltb k (block_size * 8) then b k else rest
