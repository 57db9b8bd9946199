-- ===== src/Ftfs/Bitmap.antt =====
-- BasicFATFS/bitmap.h: allocation in the two free maps. Log messages are left out.
use basic_btfs.Prelude.{
  ℕ, Bool, true, false, ltb, leb, ◌%◌, if◌then◌else◌, u32_mod, minus_one, add32, sub32,
}
use basic_btfs.Kernel.{Bits, BitmapApi}

-- `struct basicftfs_sb_info` of BasicFATFS/basicftfs.h.
pub record SbInfo : Type 0 where
  pub s_magic : ℕ
  pub s_nblocks : ℕ
  pub s_ninodes : ℕ
  pub s_imap_blocks : ℕ
  pub s_bmap_blocks : ℕ
  pub s_inode_blocks : ℕ
  pub s_nfree_inodes : ℕ
  pub s_nfree_blocks : ℕ
  pub s_ifree_bitmap : Bits
  pub s_bfree_bitmap : Bits

module _ (api : BitmapApi) where
  open api use {find_next_zero_area, set, clear}

  unfoldable pub get_first_free_bits : Bits → ℕ → ℕ → ℕ × Bits
  get_first_free_bits freemap size len =
      let start_no = find_next_zero_area freemap size 1 len in
      if leb size start_no
      then (minus_one, freemap)
      else (start_no % u32_mod, set freemap start_no len)

  unfoldable pub get_free_inode : SbInfo → ℕ × SbInfo
  get_free_inode sbi =
      let (start_ino, map) = get_first_free_bits sbi.s_ifree_bitmap sbi.s_ninodes 1 in
      (
        start_ino,
        record sbi {
          s_ifree_bitmap = map;
          s_nfree_inodes =
              if ltb 0 start_ino then sub32 sbi.s_nfree_inodes 1 else sbi.s_nfree_inodes;
        },
      )

  unfoldable pub get_free_blocks : SbInfo → ℕ → ℕ × SbInfo
  get_free_blocks sbi len =
      let (start_bno, map) = get_first_free_bits sbi.s_bfree_bitmap sbi.s_nblocks len in
      (
        start_bno,
        record sbi {
          s_bfree_bitmap = map;
          s_nfree_blocks =
              if ltb 0 start_bno then sub32 sbi.s_nfree_blocks len else sbi.s_nfree_blocks;
        },
      )

  -- The Boolean is `ret == 0`.
  unfoldable pub put_free_bits : Bits → ℕ → ℕ → ℕ → Bool × Bits
  put_free_bits freemap size start_no len =
      if ltb size (sub32 (add32 start_no len) 1)
      then (false, freemap)
      else (true, clear freemap start_no len)

  unfoldable pub put_inode : SbInfo → ℕ → SbInfo
  put_inode sbi ino =
      let (done, map) = put_free_bits sbi.s_ifree_bitmap sbi.s_ninodes ino 1 in
      if done
      then record sbi { s_ifree_bitmap = map; s_nfree_inodes = add32 sbi.s_nfree_inodes 1 }
      else record sbi { s_ifree_bitmap = map }

  unfoldable pub put_blocks : SbInfo → ℕ → ℕ → SbInfo
  put_blocks sbi bno len =
      let (done, map) = put_free_bits sbi.s_bfree_bitmap sbi.s_nblocks bno len in
      if done
      then record sbi { s_bfree_bitmap = map; s_nfree_blocks = add32 sbi.s_nfree_blocks len }
      else record sbi { s_bfree_bitmap = map }
