-- ===== src/Btfs/Dir/FreeNames.antt =====
-- `basicbtfs_nametree_free_namelist_blocks` of BasicBTFS/dir.c frees the blocks of a list of names.
use basic_btfs.Prelude.{
  ℕ, zero, suc, ◌<◌, ◌≡◌, ◌≢◌, refl, ap, ◌∙◌, inl, inr, some, ◌⊎◌, List, [], ◌∷◌, arith, ne→==,
  length, u32_mod,
}
use basic_btfs.Kernel.{BitmapApi, IsBitmapApi}
use basic_btfs.Btfs.Bitmap.{put_blocks}
use basic_btfs.Btfs.NameBlock.{NameBlock}
use basic_btfs.Btfs.Disk.{Disk, success, done}
use basic_btfs.Btfs.Names.{Dirent}
use basic_btfs.Btfs.Names.Chain.{Names, IsChain}
use basic_btfs.Btfs.Dir.{put_block, free_namelist_blocks}
use basic_btfs.Btfs.Dir.Freed.{IsFreed, both-IsFreed, same-IsFreed, put_block-IsFreed}

-- The blocks of a chain behind the first.
abbrev pub InRest : ℕ → List (ℕ × List Dirent) → Type 0
InRest x [] = ⊥
InRest x ((n, ss) ∷ rest) = (x ≡ n) ⊎ InRest x rest

abbrev pub InChain : ℕ → List (ℕ × List Dirent) → ℕ → Type 0
InChain bno rest x = (x ≡ bno) ⊎ InRest x rest

module _ (api : BitmapApi) (law : IsBitmapApi api) where
  free_last_block :
      (fuel bno : ℕ) (b : NameBlock) (d : Disk)
      → d.names bno ≡ some b
      → b.next_block ≡ 0
      → free_namelist_blocks api (suc fuel) bno d ≡ put_block api bno d
  unfolding free_namelist_blocks
  free_last_block fuel bno b d read last = rw (free_namelist_blocks, read, last) refl

  free_next_block :
      (fuel bno : ℕ) (b : NameBlock) (d d' : Disk)
      → d.names bno ≡ some b
      → b.next_block ≢ 0
      → put_block api bno d ≡ done success d'
      → free_namelist_blocks api (suc fuel) bno d ≡ free_namelist_blocks api fuel b.next_block d'
  unfolding free_namelist_blocks put_block
  free_next_block fuel bno b d d' read nz run =
      let e : record d { sbi = put_blocks api d.sbi bno 1 } ≡ d' = cc in
      rw (free_namelist_blocks, read, ne→== b.next_block 0 nz)
        (ap (free_namelist_blocks api fuel b.next_block) e)

  free_chain :
      (names : Names) (size fuel bno : ℕ) (ss : List Dirent) (rest : List (ℕ × List Dirent))
      (d : Disk)
      → IsChain names bno ss rest
      → length rest < fuel
      → size < u32_mod
      → ((x : ℕ) → InChain bno rest x → x < size)
      → d.names ≡ names
      → d.sbi.s_nblocks ≡ size
      → (d' : Disk) × (free_namelist_blocks api fuel bno d ≡ done success d')
        × IsFreed d d' (InChain bno rest)
  free_chain names size zero bno ss rest d chain lt small inside same fits = absurd (omega arith)
  free_chain names size (suc fuel) bno ss [] d (b, read, is, last) lt small inside same fits =
      let (d', run, one) =
        put_block-IsFreed api law bno d (rw fits (inside bno (inl refl))) (rw fits small) in
      (
        d',
        free_last_block fuel bno b d (rw same read) last ∙ run,
        same-IsFreed d d' (λ x. x ≡ bno) (InChain bno [])
            (λ x h. elim h [ inl e ↦ e | inr none_left ↦ absurd none_left ]) (λ x e. inl e) one,
      )
  free_chain names size (suc fuel) bno ss ((n, ss') ∷ rest) d ((b, read, is, next, nz), more) lt
        small inside same fits =
      let (d1, run1, one) =
        put_block-IsFreed api law bno d (rw fits (inside bno (inl refl))) (rw fits small) in
      let (d2, run2, two) =
        free_chain names size fuel n ss' rest d1 more (omega arith) small (λ x h. inside x (inr h))
          (one.names ∙ same) (one.size ∙ fits) in
      (
        d2,
        free_next_block fuel bno b d d1 (rw same read) (rw next nz) run1 ∙ rw next run2,
        both-IsFreed d d1 d2 (λ x. x ≡ bno) (InChain n rest) (InChain bno ((n, ss') ∷ rest)) one two
            (λ x h. h) (λ x h. inl h) (λ x h. inr h),
      )

-- Releasing the chain of the blocks of names of a directory, with more rounds than it has further
-- blocks, on a device whose number of blocks fits 32 bits and that has all of them: it succeeds,
-- every block of the chain becomes free, and no other bit of the map changes; nor do the nodes, the
-- blocks of names and the cache.
pub free_namelist_blocks_lem :
    (api : BitmapApi) (law : IsBitmapApi api) (fuel bno : ℕ) (ss : List Dirent)
    (rest : List (ℕ × List Dirent)) (d : Disk)
    → IsChain d.names bno ss rest
    → length rest < fuel
    → d.sbi.s_nblocks < u32_mod
    → ((x : ℕ) → InChain bno rest x → x < d.sbi.s_nblocks)
    → (d' : Disk) × (free_namelist_blocks api fuel bno d ≡ done success d')
      × IsFreed d d' (InChain bno rest)
free_namelist_blocks_lem api law fuel bno ss rest d chain lt small inside =
    free_chain api law d.names d.sbi.s_nblocks fuel bno ss rest d chain lt small inside refl refl
