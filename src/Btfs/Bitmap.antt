-- ===== src/Btfs/Bitmap.antt =====
-- BasicBTFS/bitmap.h: allocation of inode numbers and of runs of blocks in the two free maps. A
-- function that writes through a pointer returns what it wrote beside its result. A set bit is a
-- used number. Log messages are left out.
pub mod Alloc
pub mod Count
pub mod Tests
use basic_btfs.Prelude.{
  ℕ, ◌+◌, ◌-◌, ◌*◌, ◌/◌, ◌%◌, Bool, true, false, not, ltb, leb, ◌==◌, if◌then◌else◌, u32_mod,
  minus_one, add32, sub32,
}
use basic_btfs.Kernel.{Bits, BitmapApi}
use basic_btfs.Btfs.Super.{SbInfo}

module _ (api : BitmapApi) where
  open api use {find_next_zero_area, set, clear}

  unfoldable pub get_first_free_bits : Bits → ℕ → ℕ → ℕ × Bits
  get_first_free_bits freemap size len =
      let start_no = find_next_zero_area freemap size 1 len in
      if leb size start_no
      then (minus_one, freemap)
      else (start_no % u32_mod, set freemap start_no len)

  unfoldable pub is_bit_range_empty : Bits → ℕ → ℕ → ℕ → Bool
  is_bit_range_empty freemap size start len = find_next_zero_area freemap size start len == start

  -- The map read as bytes, on a little-endian machine.
  unfoldable pub is_bit_empty : Bits → ℕ → Bool
  is_bit_empty freemap start = not (freemap (start / 8 * 8 + start % 8))

  -- Returns the start, and the superblock with its area of never used blocks moved on.
  unfoldable pub get_offset : SbInfo → Bits → ℕ → ℕ → ℕ → ℕ × Bits × SbInfo
  get_offset sbi freemap size start len =
      let start_no = find_next_zero_area freemap size start len in
      if leb size start_no then (minus_one, freemap, sbi) else (
        start_no % u32_mod,
        set freemap start_no len,
        if leb sbi.s_unused_area start_no
            then record sbi { s_unused_area = (start_no + len) % u32_mod }
            else sbi,
      )

  unfoldable pub get_first_free_bits_from_start : Bits → ℕ → ℕ → ℕ → ℕ × Bits
  get_first_free_bits_from_start freemap size start len =
      let start_no = find_next_zero_area freemap size start len in
      if leb size start_no
      then (minus_one, freemap)
      else (start_no % u32_mod, set freemap start_no len)

  unfoldable pub get_free_inode : SbInfo → ℕ × SbInfo
  get_free_inode sbi =
      let (start_ino, map) = get_first_free_bits sbi.s_ifree_bitmap sbi.s_ninodes 1 in
      (
        start_ino,
        record sbi {
          s_ifree_bitmap = map;
          s_nfree_inodes =
              if ltb 0 start_ino then sub32 sbi.s_nfree_inodes 1 else sbi.s_nfree_inodes;
        },
      )

  unfoldable pub get_free_blocks : SbInfo → ℕ → ℕ × SbInfo
  get_free_blocks sbi len =
      let (start_bno, map) = get_first_free_bits sbi.s_bfree_bitmap sbi.s_nblocks len in
      (
        start_bno,
        record sbi {
          s_bfree_bitmap = map;
          s_nfree_blocks =
              if ltb 0 start_bno then sub32 sbi.s_nfree_blocks len else sbi.s_nfree_blocks;
          s_unused_area =
              if leb sbi.s_unused_area start_bno then add32 start_bno len else sbi.s_unused_area;
        },
      )

  -- The Boolean is `ret == 0`. `start_no + len - 1` is computed in 32 bits.
  unfoldable pub put_free_bits : Bits → ℕ → ℕ → ℕ → Bool × Bits
  put_free_bits freemap size start_no len =
      if ltb size (sub32 (add32 start_no len) 1)
      then (false, freemap)
      else (true, clear freemap start_no len)

  unfoldable pub put_inode : SbInfo → ℕ → SbInfo
  put_inode sbi ino =
      let (done, map) = put_free_bits sbi.s_ifree_bitmap sbi.s_ninodes ino 1 in
      if done
      then record sbi { s_ifree_bitmap = map; s_nfree_inodes = add32 sbi.s_nfree_inodes 1 }
      else record sbi { s_ifree_bitmap = map }

  unfoldable pub put_blocks : SbInfo → ℕ → ℕ → SbInfo
  put_blocks sbi bno len =
      let (done, map) = put_free_bits sbi.s_bfree_bitmap sbi.s_nblocks bno len in
      if done
      then record sbi { s_bfree_bitmap = map; s_nfree_blocks = add32 sbi.s_nfree_blocks len }
      else record sbi { s_bfree_bitmap = map }
