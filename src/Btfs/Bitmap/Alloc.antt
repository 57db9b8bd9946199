-- ===== src/Btfs/Bitmap/Alloc.antt =====
-- What BasicBTFS/bitmap.h allocates and frees: the first fit, its effect on the free map, the
-- round trip, and what happens when nothing fits.
use basic_btfs.Prelude.{
  ℕ, ◌+◌, ◌≤◌, ◌<◌, ◌≡◌, refl, sym, ap, ◌∙◌, ◌≢◌, ◌⊎◌, true, false, arith, leb, if◌then◌else◌,
  Bool-cases, inl, inr, leb→le, leb→lt, u32_mod, minus_one, sub32, add32-sub32,
}
use basic_btfs.Kernel.{Bits, in_range, IsClear, BitmapApi, IsBitmapApi}
use basic_btfs.Btfs.Super.{SbInfo}
use basic_btfs.Btfs.Bitmap.{get_first_free_bits, get_free_blocks, put_free_bits, put_blocks}

-- The run of `len` bits from `b` on was clear and is set; every other bit is as it was.
pub record IsTaken (old new : Bits) (size b len : ℕ) : Type 0 where
  pub start : 1 ≤ b
  pub inside : b + len ≤ size
  pub was_clear : IsClear old b len
  pub now : (i : ℕ) → new i ≡ (if in_range b len i then true else old i)

module _ (api : BitmapApi) (law : IsBitmapApi api) where
  module _ (map : Bits) (size len : ℕ) (small : size < u32_mod) where
    abbrev area : ℕ
    area = api.find_next_zero_area map size 1 len

    get_first_free_bits_cases :
        ((size ≤ area) × (get_first_free_bits api map size len ≡ (minus_one, map)))
        ⊎ ((area < size) × (get_first_free_bits api map size len ≡ (area, api.set map area len)))
    unfolding get_first_free_bits
    get_first_free_bits_cases = elim (Bool-cases (leb size area)) [
      | inl e ↦ inl (leb→le _ _ e, rw e)
      | inr e ↦ inr (leb→lt _ _ e, ground arith)
    ]

    pub get_first_free_bits-IsTaken :
        (b : ℕ) (new : Bits)
        → get_first_free_bits api map size len ≡ (b, new)
        → b ≢ minus_one
        → IsTaken map new size b len
    get_first_free_bits-IsTaken b new e ne = elim get_first_free_bits_cases [
      | inl (_, h) ↦ absurd (ne (ap (λ r. r.0) (sym e ∙ h)))
      | inr (lt, h) ↦
          let eb : b ≡ area = ap (λ r. r.0) (sym e ∙ h) in
          let em : new ≡ api.set map area len = ap (λ r. r.1) (sym e ∙ h) in
          let f = law.found map size 1 len lt in
          rw (eb, em)
            (record { start = f.0; inside = f.1; was_clear = f.2; now = law.set_at map area len })
    ]

    pub get_first_free_bits_first :
        (s : ℕ)
        → 0 < len
        → 1 ≤ s
        → s + len ≤ size
        → IsClear map s len
        → (get_first_free_bits api map size len).0 ≤ s
    get_first_free_bits_first s pos st fits free =
        let least = law.least map size 1 len s pos st fits free in
        elim get_first_free_bits_cases [
          | inl (le, h) ↦ absurd (omega arith)
          | inr (lt, h) ↦ rw h least
        ]

    pub get_first_free_bits_full :
        ((s : ℕ) → 1 ≤ s → s + len ≤ size → IsClear map s len → ⊥)
        → get_first_free_bits api map size len ≡ (minus_one, map)
    get_first_free_bits_full full = elim get_first_free_bits_cases [
      | inl (_, h) ↦ h
      | inr (lt, h) ↦ let f = law.found map size 1 len lt in absurd (full area f.0 f.1 f.2)
    ]

  -- On a device whose number of blocks fits 32 bits, `get_free_blocks` of a positive length that
  -- does not answer -1 has taken a clear run of `len` blocks inside the device, never block 0: it
  -- sets exactly those bits, lowers the count of free blocks by `len` in 32 bits, and leaves the
  -- start of the area of never used blocks behind that of the run. A run that starts in that area
  -- moves its start right behind the run; a run that starts before leaves it, even where the run
  -- reaches into it.
  pub get_free_blocks_found :
      (sbi : SbInfo) (len : ℕ)
      → sbi.s_nblocks < u32_mod
      → 0 < len
      → (get_free_blocks api sbi len).0 ≢ minus_one
      → let (b, new) = get_free_blocks api sbi len in
        IsTaken sbi.s_bfree_bitmap new.s_bfree_bitmap sbi.s_nblocks b len
        × (new.s_nfree_blocks ≡ sub32 sbi.s_nfree_blocks len)
        × ((b < new.s_unused_area)
            × (sbi.s_unused_area ≤ b → new.s_unused_area ≡ b + len)
            × (b < sbi.s_unused_area → new.s_unused_area ≡ sbi.s_unused_area))
        × (new.s_nblocks ≡ sbi.s_nblocks)
  unfolding get_free_blocks
  get_free_blocks_found sbi len small pos ne =
      let taken =
        get_first_free_bits-IsTaken sbi.s_bfree_bitmap sbi.s_nblocks len small _ _ refl ne in
      (
        taken,
        ground (arith, taken.start),
        (ground (arith, taken.inside), ground (arith, taken.inside), ground (arith, taken.inside)),
        refl,
      )

  -- On a device whose number of blocks fits 32 bits, if some run of `len` blocks, `len` not 0,
  -- behind block 0 is clear, `get_free_blocks` succeeds, and its run starts no later: first fit.
  pub get_free_blocks_first :
      (sbi : SbInfo) (len s : ℕ)
      → sbi.s_nblocks < u32_mod
      → 0 < len
      → 1 ≤ s
      → s + len ≤ sbi.s_nblocks
      → IsClear sbi.s_bfree_bitmap s len
      → ((get_free_blocks api sbi len).0 ≤ s) × ((get_free_blocks api sbi len).0 ≢ minus_one)
  unfolding get_free_blocks
  get_free_blocks_first sbi len s small pos st fits free = omega (
    arith,
    get_first_free_bits_first sbi.s_bfree_bitmap sbi.s_nblocks len small s pos st fits free,
  )

  -- On a device whose number of blocks fits 32 bits, if no run of `len` blocks behind block 0 is
  -- clear, `get_free_blocks` answers -1 and takes nothing, but it lowers the count of free blocks
  -- by `len` all the same.
  pub get_free_blocks_full :
      (sbi : SbInfo) (len : ℕ)
      → sbi.s_nblocks < u32_mod
      → ((s : ℕ) → 1 ≤ s → s + len ≤ sbi.s_nblocks → IsClear sbi.s_bfree_bitmap s len → ⊥)
      → ((get_free_blocks api sbi len).0 ≡ minus_one)
        × ((get_free_blocks api sbi len).1.s_bfree_bitmap ≡ sbi.s_bfree_bitmap)
        × ((get_free_blocks api sbi len).1.s_nfree_blocks ≡ sub32 sbi.s_nfree_blocks len)
        × ((get_free_blocks api sbi len).1.s_nblocks ≡ sbi.s_nblocks)
  unfolding get_free_blocks
  get_free_blocks_full sbi len small full =
      rw (get_first_free_bits_full sbi.s_bfree_bitmap sbi.s_nblocks len small full)
        (refl, refl, refl, refl)

  pub put_free_bits-ok :
      (map : Bits) (size start len : ℕ)
      → 0 < len
      → start + len ≤ size
      → size < u32_mod
      → put_free_bits api map size start len ≡ (true, api.clear map start len)
  unfolding put_free_bits
  put_free_bits-ok map size start len pos inside small = ground arith

  restored :
      {old new : Bits} {b len size : ℕ}
      → IsTaken old new size b len
      → (i : ℕ) → api.clear new b len i ≡ old i
  restored {new} {b} {len} taken i =
      ground (arith, law.clear_at new b len i, taken.now i, taken.was_clear i)

  -- On a device whose number and count of free blocks fit 32 bits, freeing the run of positive
  -- length that `get_free_blocks` has just taken restores every bit of the map and the count.
  pub put_blocks-get_free_blocks :
      (sbi : SbInfo) (len : ℕ)
      → sbi.s_nblocks < u32_mod
      → sbi.s_nfree_blocks < u32_mod
      → 0 < len
      → (get_free_blocks api sbi len).0 ≢ minus_one
      → let (b, new) = get_free_blocks api sbi len in
        ((i : ℕ) → (put_blocks api new b len).s_bfree_bitmap i ≡ sbi.s_bfree_bitmap i)
        × ((put_blocks api new b len).s_nfree_blocks ≡ sbi.s_nfree_blocks)
  unfolding put_blocks
  put_blocks-get_free_blocks sbi len small count pos ne =
      let (b, new) = get_free_blocks api sbi len in
      let (taken, low, _, same) = get_free_blocks_found sbi len small pos ne in
      let inside : b + len ≤ new.s_nblocks = rw same taken.inside in
      let freed =
        put_free_bits-ok new.s_bfree_bitmap new.s_nblocks b len pos inside (rw same small) in
      rw freed (
        λ i. restored taken i,
        rw low (add32-sub32 sbi.s_nfree_blocks len count (omega (arith, taken.inside))),
      )

  -- `put_free_bits` compares `start_no + len - 1` with the size, so it accepts a run that ends one
  -- past the map, and clears the bit that the map does not have.
  pub put_free_bits_past_end :
      (map : Bits) (size start len : ℕ)
      → 0 < len
      → start + len ≡ size + 1
      → size + 1 < u32_mod
      → ((put_free_bits api map size start len).0 ≡ true)
        × ((put_free_bits api map size start len).1 size ≡ false)
  unfolding put_free_bits
  put_free_bits_past_end map size start len pos e small =
      ground (arith, law.clear_at map start len size)
