-- ===== src/Btfs/Bitmap/Tests.antt =====
-- Runs of BasicBTFS/bitmap.h with a plain bitmap implementation, and the theorems at a small
-- device.
use basic_btfs.Prelude.{
  ℕ, ◌+◌, ◌≤◌, ◌<◌, ◌≡◌, ◌≢◌, refl, true, ◌||◌, arith, ltb, ◌==◌, minus_one, sub32,
}
use basic_btfs.Kernel.{Bits, in_range, IsClear, plain_api, plain_api-IsBitmapApi}
use basic_btfs.Btfs.Super.{SbInfo}
use basic_btfs.Btfs.Bitmap.{get_first_free_bits, get_free_blocks, put_blocks}
use basic_btfs.Btfs.Bitmap.Alloc.{
  IsTaken, get_free_blocks_found, get_free_blocks_first, put_blocks-get_free_blocks,
}
use basic_btfs.Btfs.Bitmap.Count.{count_clear, IsCounted, get_free_blocks_full-IsCounted}

-- Twelve blocks; 0 to 4 and 7 are in use.
abbrev pub used : Bits
used i = ltb i 5 || (i == 7)

abbrev pub device : Bits → ℕ → SbInfo
device map free = record {
  s_magic = 0;
  s_nblocks = 12;
  s_ninodes = 12;
  s_imap_blocks = 1;
  s_bmap_blocks = 1;
  s_filemap_blocks = 1;
  s_inode_blocks = 1;
  s_nfree_inodes = 11;
  s_nfree_blocks = free;
  s_cache_dir_entries = 0;
  s_unused_area = 8;
  s_ifree_bitmap = λ i. i == 0;
  s_bfree_bitmap = map;
}

abbrev pub small : SbInfo
small = device used 6

abbrev pub full : SbInfo
full = device (λ _. true) 0

small-IsCounted : IsCounted small
unfolding count_clear
small-IsCounted = record { small = omega arith; counted = refl }

full-IsCounted : IsCounted full
unfolding count_clear
full-IsCounted = record { small = omega arith; counted = refl }

takes_3 : (get_free_blocks plain_api small 3).0 ≡ 8
unfolding get_free_blocks get_first_free_bits plain_api
takes_3 = refl

takes_2 : (get_free_blocks plain_api small 2).0 ≡ 5
unfolding get_free_blocks get_first_free_bits plain_api
takes_2 = refl

found : (get_free_blocks plain_api small 3).0 ≢ minus_one
found = rw takes_3 (omega arith)

no_room :
    (map : Bits) → ((i : ℕ) → map i ≡ true) → (s : ℕ) → 1 ≤ s → s + 2 ≤ 12 → IsClear map s 2 → ⊥
no_room map all s st fits free = ground (arith, all s, free s)

get_free_blocks_found_example :
    let (b, new) = get_free_blocks plain_api small 3 in
    IsTaken used new.s_bfree_bitmap 12 b 3
    × (new.s_nfree_blocks ≡ sub32 6 3)
    × ((b < new.s_unused_area)
        × (8 ≤ b → new.s_unused_area ≡ b + 3)
        × (b < 8 → new.s_unused_area ≡ 8))
    × (new.s_nblocks ≡ 12)
get_free_blocks_found_example =
    get_free_blocks_found plain_api plain_api-IsBitmapApi small 3 (omega arith) (omega arith) found

free_at_9 : IsClear used 9 2
free_at_9 i r = ground arith

get_free_blocks_first_example :
    ((get_free_blocks plain_api small 2).0 ≤ 9)
    × ((get_free_blocks plain_api small 2).0 ≢ minus_one)
get_free_blocks_first_example =
    get_free_blocks_first plain_api plain_api-IsBitmapApi small 2 9 (omega arith) (omega arith)
      (omega arith) (omega arith) free_at_9

put_blocks-get_free_blocks_example :
    let (b, new) = get_free_blocks plain_api small 3 in
    ((i : ℕ) → (put_blocks plain_api new b 3).s_bfree_bitmap i ≡ used i)
    × ((put_blocks plain_api new b 3).s_nfree_blocks ≡ 6)
put_blocks-get_free_blocks_example =
    put_blocks-get_free_blocks plain_api plain_api-IsBitmapApi small 3 (omega arith) (omega arith)
      (omega arith) found

in_use : (i : ℕ) → in_range 2 3 i ≡ true → used i ≡ true
in_use i r = ground arith

get_free_blocks_full-IsCounted_example : ¬ (IsCounted (get_free_blocks plain_api full 2).1)
get_free_blocks_full-IsCounted_example =
    get_free_blocks_full-IsCounted plain_api plain_api-IsBitmapApi full 2 full-IsCounted
      (omega arith) (omega arith) (no_room full.s_bfree_bitmap λ i. refl)
