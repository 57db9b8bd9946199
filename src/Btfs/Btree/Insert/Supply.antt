-- ===== src/Btfs/Btree/Insert/Supply.antt =====
-- A state from which blocks can be allocated one by one.
use basic_btfs.Prelude.{
  ℕ, zero, suc, ◌+◌, ◌≤◌, ◌<◌, ◌≡◌, ◌≢◌, refl, true, false, some, inl, inr, arith, ◌==◌,
  if◌then◌else◌, Bool-cases, u32_mod, minus_one,
}
use basic_btfs.Kernel.{Bits, IsClear, BitmapApi, IsBitmapApi}
use basic_btfs.Btfs.Super.{SbInfo}
use basic_btfs.Btfs.Bitmap.{get_free_blocks}
use basic_btfs.Btfs.Bitmap.Alloc.{get_free_blocks_first, get_free_blocks_found}
use basic_btfs.Btfs.Bitmap.Count.{count_clear, count_clear_taken}
use basic_btfs.Btfs.Disk.{Node, Disk}

-- The number of blocks fits 32 bits, block 0 is in use, and every block can be read.
pub record IsReady (d : Disk) : Type 0 where
  pub small : d.sbi.s_nblocks < u32_mod
  pub first : d.sbi.s_bfree_bitmap 0 ≡ true
  pub reads : (x : ℕ) → x < d.sbi.s_nblocks → (n : Node) × (d.node x ≡ some n)

abbrev pub free : Disk → ℕ
free d = count_clear d.sbi.s_nblocks d.sbi.s_bfree_bitmap

clear_exists :
    (n : ℕ) (map : Bits)
    → map 0 ≡ true
    → 0 < count_clear n map
    → (s : ℕ) × (1 ≤ s) × (s < n) × (map s ≡ false)
unfolding count_clear
clear_exists zero map first pos = absurd (omega arith)
clear_exists (suc n) map first pos = elim (Bool-cases (map n)) [
  | inl h ↦ let (s, ge, lt, c) = clear_exists n map first (ground arith) in (s, ge, omega arith, c)
  | inr h ↦ (n, ground arith, omega arith, h)
]

-- What taking one block does.
pub record IsTakenBlock (d : Disk) (r : ℕ) (sbi : SbInfo) : Type 0 where
  pub ne : r ≢ minus_one
  pub inside : r < d.sbi.s_nblocks
  pub clear : d.sbi.s_bfree_bitmap r ≡ false
  pub now : (x : ℕ) → sbi.s_bfree_bitmap x ≡ (if x == r then true else d.sbi.s_bfree_bitmap x)
  pub size : sbi.s_nblocks ≡ d.sbi.s_nblocks
  pub count : count_clear sbi.s_nblocks sbi.s_bfree_bitmap + 1 ≡ free d

module _ (api : BitmapApi) (law : IsBitmapApi api) where
  pub take_block :
      (d : Disk)
      → IsReady d
      → 0 < free d
      → (r : ℕ) × (sbi : SbInfo) × (get_free_blocks api d.sbi 1 ≡ (r, sbi)) × IsTakenBlock d r sbi
  take_block d ready pos =
      let (s, ge, lt, c) = clear_exists d.sbi.s_nblocks d.sbi.s_bfree_bitmap ready.first pos in
      let one : IsClear d.sbi.s_bfree_bitmap s 1 = λ i r. ground arith in
      let (_, ne) =
        get_free_blocks_first api law d.sbi 1 s ready.small (omega arith) ge (omega arith) one in
      let (r, sbi) = get_free_blocks api d.sbi 1 in
      let (taken, _, _, size) =
        get_free_blocks_found api law d.sbi 1 ready.small (omega arith) ne in
      let count =
        count_clear_taken d.sbi.s_nblocks d.sbi.s_bfree_bitmap sbi.s_bfree_bitmap r 1
          taken.was_clear taken.now in
      (
        r,
        sbi,
        refl,
        record {
          ne = ne;
          inside = omega (arith, taken.inside);
          clear = taken.was_clear r (ground arith);
          now = λ x. ground (arith, taken.now x);
          size = size;
          count = rw size (omega (arith, count, taken.inside));
        },
      )
