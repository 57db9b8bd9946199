-- ===== src/Btfs/Bitmap/Count.antt =====
-- The count of free blocks in the superblock is the number of clear bits of the block map.
use basic_btfs.Prelude.{
  ℕ, zero, suc, ◌+◌, ◌-◌, ◌≤◌, ◌<◌, ◌≡◌, ◌≢◌, true, arith, if◌then◌else◌, min, u32_mod, minus_one,
  Bool-cases, inl, inr,
}
use basic_btfs.Kernel.{Bits, in_range, IsClear, BitmapApi, IsBitmapApi}
use basic_btfs.Btfs.Super.{SbInfo}
use basic_btfs.Btfs.Bitmap.{get_free_blocks, put_blocks}
use basic_btfs.Btfs.Bitmap.Alloc.{get_free_blocks_found, get_free_blocks_full, put_free_bits-ok}

-- The clear bits among the first `n`.
unfoldable pub count_clear : ℕ → Bits → ℕ
count_clear zero map = 0
count_clear (suc n) map = (if map n then 0 else 1) + count_clear n map

-- How many of the first `n` positions lie in the run.
abbrev pub overlap : ℕ → ℕ → ℕ → ℕ
overlap n b len = min n (b + len) - min n b

pub count_clear_taken :
    (n : ℕ) (old new : Bits) (b len : ℕ)
    → IsClear old b len
    → ((i : ℕ) → new i ≡ (if in_range b len i then true else old i))
    → count_clear n new + overlap n b len ≡ count_clear n old
unfolding count_clear
count_clear_taken zero old new b len free now = omega arith
count_clear_taken (suc n) old new b len free now =
    let ih = count_clear_taken n old new b len free now in
    let at = now n in
    let was = free n in
    elim (Bool-cases (in_range b len n)) [ inl e ↦ ground arith | inr e ↦ ground arith ]

-- The superblock's count is right.
pub record IsCounted (sbi : SbInfo) : Type 0 where
  pub small : sbi.s_nblocks < u32_mod
  pub counted : sbi.s_nfree_blocks ≡ count_clear sbi.s_nblocks sbi.s_bfree_bitmap

count_clear-le : (n : ℕ) (map : Bits) → count_clear n map ≤ n
unfolding count_clear
count_clear-le zero map = omega arith
count_clear-le (suc n) map = ground (arith, count_clear-le n map)

module _ (api : BitmapApi) (law : IsBitmapApi api) where
  -- A successful `get_free_blocks` of a positive length keeps the count of free blocks right.
  pub get_free_blocks-IsCounted :
      (sbi : SbInfo) (len : ℕ)
      → IsCounted sbi
      → 0 < len
      → (get_free_blocks api sbi len).0 ≢ minus_one
      → IsCounted (get_free_blocks api sbi len).1
  get_free_blocks-IsCounted sbi len v pos ne =
      let (b, new) = get_free_blocks api sbi len in
      let (taken, low, _, same) = get_free_blocks_found api law sbi len v.small pos ne in
      let count =
        count_clear_taken sbi.s_nblocks sbi.s_bfree_bitmap new.s_bfree_bitmap b len taken.was_clear
          taken.now in
      let le = count_clear-le sbi.s_nblocks sbi.s_bfree_bitmap in
      record {
        small = rw same v.small;
        counted = rw same (omega (arith, taken.inside, v.counted, v.small));
      }

  -- `put_blocks` of a run in use, not empty and inside the device, keeps the count of free blocks
  -- right.
  pub put_blocks-IsCounted :
      (sbi : SbInfo) (b len : ℕ)
      → IsCounted sbi
      → 0 < len
      → b + len ≤ sbi.s_nblocks
      → ((i : ℕ) → in_range b len i ≡ true → sbi.s_bfree_bitmap i ≡ true)
      → IsCounted (put_blocks api sbi b len)
  unfolding put_blocks
  put_blocks-IsCounted sbi b len v pos inside used =
      let freed = api.clear sbi.s_bfree_bitmap b len in
      let at = law.clear_at sbi.s_bfree_bitmap b len in
      let count =
        count_clear_taken sbi.s_nblocks freed sbi.s_bfree_bitmap b len (λ i r. ground (arith, at i))
          (λ i. ground (arith, at i, used i)) in
      let le = count_clear-le sbi.s_nblocks freed in
      rw (put_free_bits-ok api law sbi.s_bfree_bitmap sbi.s_nblocks b len pos inside v.small)
        (record { small = v.small; counted = omega (arith, v.counted, v.small) })

  -- When no run of the length, which is positive and fits 32 bits, is clear, `get_free_blocks`
  -- makes a right count wrong: it subtracts what it has not taken.
  pub get_free_blocks_full-IsCounted :
      (sbi : SbInfo) (len : ℕ)
      → IsCounted sbi
      → 0 < len
      → len < u32_mod
      → ((s : ℕ) → 1 ≤ s → s + len ≤ sbi.s_nblocks → IsClear sbi.s_bfree_bitmap s len → ⊥)
      → ¬ (IsCounted (get_free_blocks api sbi len).1)
  get_free_blocks_full-IsCounted sbi len v pos small full w =
      let (_, same, low, blocks) = get_free_blocks_full api law sbi len v.small full in
      let le = count_clear-le sbi.s_nblocks sbi.s_bfree_bitmap in
      let c = w.counted in
      let d = rw (same, blocks) at c in absurd (omega (arith, v.counted, v.small))
