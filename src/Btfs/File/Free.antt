-- ===== src/Btfs/File/Free.antt =====
-- BasicBTFS/file.c: what freeing the blocks of a file does to the map of free blocks.
use basic_btfs.Prelude.{
  ℕ, zero, suc, ◌+◌, ◌≤◌, ◌<◌, ◌≡◌, refl, ap, ◌∙◌, ◌≢◌, inl, inr, Bool, true, false, some, arith,
  ltb, ◌==◌, if◌then◌else◌, Bool-cases, ltb→le, ltb→lt, ==→eq, ==→ne, u32_mod,
}
use basic_btfs.Kernel.{BitmapApi, IsBitmapApi, in_range}
use basic_btfs.Btfs.Super.{SbInfo}
use basic_btfs.Btfs.Bitmap.{put_blocks, put_free_bits}
use basic_btfs.Btfs.File.Map.{IsContiguous}
use basic_btfs.Btfs.File.{
  max_clusters, Cluster, ClusterTable, Files, FileInode, returns, update_file_info, free_cluster,
  free_clusters, file_free_blocks,
}

module _ (api : BitmapApi) (law : IsBitmapApi api) where
  pub put_blocks_at :
      (sbi : SbInfo) (bno k : ℕ)
      → bno < sbi.s_nblocks
      → sbi.s_nblocks < u32_mod
      → (put_blocks api sbi bno 1).s_bfree_bitmap k
        ≡ (if in_range bno 1 k then false else sbi.s_bfree_bitmap k)
  unfolding put_blocks put_free_bits
  put_blocks_at sbi bno k lt small = ground (arith, law.clear_at sbi.s_bfree_bitmap bno 1 k)

  pub put_blocks-s_nblocks :
      (sbi : SbInfo) (bno : ℕ) → (put_blocks api sbi bno 1).s_nblocks ≡ sbi.s_nblocks
  unfolding put_blocks
  put_blocks-s_nblocks sbi bno = ground arith

  update_file_info-sbi :
      (bno ino index : ℕ) (d : Files) → (update_file_info bno ino index d).sbi ≡ d.sbi
  unfolding update_file_info
  update_file_info-sbi bno ino index d = ground arith

  -- The map and the size that a call leaves, where it frees the blocks that `freed` holds for.
  record IsFreed (d d' : Files) (freed : ℕ → Bool) : Type 0 where
    same : d'.sbi.s_nblocks ≡ d.sbi.s_nblocks
    bits : (k : ℕ) → d'.sbi.s_bfree_bitmap k ≡ (if freed k then false else d.sbi.s_bfree_bitmap k)

  free_one : Files → ℕ → Files
  free_one d bno =
      let d' = update_file_info bno 0 0 d in record d' { sbi = put_blocks api d'.sbi bno 1 }

  free_one-IsFreed :
      (d : Files) (bno : ℕ)
      → bno < d.sbi.s_nblocks
      → d.sbi.s_nblocks < u32_mod
      → IsFreed d (free_one d bno) (in_range bno 1)
  unfolding free_one
  free_one-IsFreed d bno lt small = rw (update_file_info-sbi bno 0 0 d) (record {
    same = put_blocks-s_nblocks d.sbi bno;
    bits = λ k. put_blocks_at d.sbi bno k lt small;
  })

  free_cluster_zero : (bno : ℕ) (d d' : Files) → free_cluster api 0 bno d ≡ (true, d') → d ≡ d'
  unfolding free_cluster
  free_cluster_zero bno d d' e = ap (λ r. r.1) e

  free_cluster_cases :
      (rounds bno : ℕ) (d d' : Files)
      → free_cluster api (suc rounds) bno d ≡ (true, d')
      → free_cluster api rounds (bno + 1) (free_one d bno) ≡ (true, d')
  unfolding free_cluster free_one
  free_cluster_cases rounds bno d d' e = ground arith

  free_cluster-IsFreed :
      (rounds bno : ℕ) (d d' : Files)
      → free_cluster api rounds bno d ≡ (true, d')
      → bno + rounds ≤ d.sbi.s_nblocks
      → d.sbi.s_nblocks < u32_mod
      → IsFreed d d' (in_range bno rounds)
  free_cluster-IsFreed zero bno d d' e fits small =
      rw (← free_cluster_zero bno d d' e) (record { same = refl; bits = λ k. ground arith })
  free_cluster-IsFreed (suc rounds) bno d d' e fits small =
      let one = free_one-IsFreed d bno (omega arith) small in
      let rest =
        free_cluster-IsFreed rounds (bno + 1) (free_one d bno) d'
          (free_cluster_cases rounds bno d d' e) (omega (arith, one.same))
          (omega (arith, one.same)) in
      record { same = rest.same ∙ one.same; bits = λ k. ground (arith, rest.bits k, one.bits k) }

  free_clusters_zero :
      (i : ℕ) (table : ℕ → Cluster) (d d' : Files)
      → free_clusters api 0 i table d ≡ (true, d')
      → d ≡ d'
  unfolding free_clusters
  free_clusters_zero i table d d' e = ap (λ r. r.1) e

  free_clusters_stop :
      (rounds i : ℕ) (table : ℕ → Cluster) (d d' : Files)
      → free_clusters api (suc rounds) i table d ≡ (true, d')
      → (table i).start_bno ≡ 0
      → d ≡ d'
  unfolding free_clusters
  free_clusters_stop rounds i table d d' e z = ap (λ r. r.1) (rw z at e)

  free_clusters_next :
      (rounds i : ℕ) (table : ℕ → Cluster) (d d' : Files)
      → free_clusters api (suc rounds) i table d ≡ (true, d')
      → (table i).start_bno ≢ 0
      → let r = free_cluster api (table i).cluster_length (table i).start_bno d in
        (r.0 ≡ true) × (free_clusters api rounds (i + 1) table r.1 ≡ (true, d'))
  unfolding free_clusters
  free_clusters_next rounds i table d d' e nz = ground arith

  module _ (t : ClusterTable) (m : ℕ) (is : IsContiguous t m) where
    abbrev IsInside : Files → Type 0
    IsInside d =
        (d.sbi.s_nblocks < u32_mod)
        × ((j : ℕ) → j < m → (t.table j).start_bno + 16 ≤ d.sbi.s_nblocks)

    -- What freeing the clusters from `i` on does to the map.
    record IsEmptied (i : ℕ) (d d' : Files) : Type 0 where
      same : d'.sbi.s_nblocks ≡ d.sbi.s_nblocks
      clear : (k : ℕ) → d.sbi.s_bfree_bitmap k ≡ false → d'.sbi.s_bfree_bitmap k ≡ false
      freed :
          (k j : ℕ)
          → i ≤ j
          → j < m
          → in_range (t.table j).start_bno 16 k ≡ true
          → d'.sbi.s_bfree_bitmap k ≡ false
      kept :
          (k : ℕ)
          → ((j : ℕ) → i ≤ j → j < m → in_range (t.table j).start_bno 16 k ≡ false)
          → d'.sbi.s_bfree_bitmap k ≡ d.sbi.s_bfree_bitmap k

    nothing_left : (i : ℕ) (d : Files) → m ≤ i → IsEmptied i d d
    nothing_left i d le = record {
      same = refl;
      clear = λ k h. h;
      freed = λ k j low lt h. absurd (omega arith);
      kept = λ k h. refl;
    }

    next_cluster-IsEmptied :
        (i : ℕ) (d mid d' : Files)
        → i < m
        → IsFreed d mid (in_range (t.table i).start_bno 16)
        → IsEmptied (i + 1) mid d'
        → IsEmptied i d d'
    next_cluster-IsEmptied i d mid d' lt one rest = record {
      same = rest.same ∙ one.same;
      clear = λ k h. rest.clear k (ground (arith, one.bits k));
      freed = λ k j low lt' h. elim (Bool-cases (i == j)) [
        | inl e ↦ rest.clear k (one.bits k ∙ rw (==→eq i j e, h) refl)
        | inr ne ↦ rest.freed k j (omega (arith, ==→ne i j ne)) lt' h
      ];
      kept = λ k h.
          rest.kept k (λ j low lt'. h j (omega arith) lt')
          ∙ one.bits k
          ∙ rw (h i (omega arith) lt) refl;
    }

    free_clusters-IsEmptied :
        (rounds i : ℕ) (d d' : Files)
        → free_clusters api rounds i t.table d ≡ (true, d')
        → i + rounds ≡ max_clusters
        → IsInside d
        → IsEmptied i d d'
    free_clusters-IsEmptied zero i d d' e end inside =
        rw (← free_clusters_zero i t.table d d' e) (nothing_left i d (omega (arith, is.most)))
    free_clusters-IsEmptied (suc rounds) i d d' e end inside = elim (Bool-cases (ltb i m)) [
      | inr h ↦
          let le = ltb→le i m h in
          let same = free_clusters_stop rounds i t.table d d' e (is.unused i le) in
          rw (← same) (nothing_left i d le)
      | inl h ↦
          let lt = ltb→lt i m h in
          let mid = (free_cluster api (t.table i).cluster_length (t.table i).start_bno d).1 in
          let (fine, rest) = free_clusters_next rounds i t.table d d' e (is.used i lt) in
          let whole =
            free_cluster-IsFreed (t.table i).cluster_length (t.table i).start_bno d mid
              (ground (arith, fine)) (rw (is.length i lt) (inside.1 i lt)) inside.0 in
          let one : IsFreed d mid (in_range (t.table i).start_bno 16) = record {
            same = whole.same;
            bits = λ k. ground (arith, whole.bits k, is.length i lt);
          } in
          next_cluster-IsEmptied i d mid d' lt one
            (free_clusters-IsEmptied rounds (i + 1) mid d' rest (omega arith) (rw one.same inside))
    ]

  file_free_blocks_cases :
      (inode : FileInode) (t : ClusterTable) (d d' : Files)
      → d.clusters inode.i_bno ≡ some t
      → file_free_blocks api inode d ≡ returns tt d'
      → (free_clusters api max_clusters 0 t.table d
          ≡ (true, (free_clusters api max_clusters 0 t.table d).1))
        × (d'.sbi ≡ put_blocks api (free_clusters api max_clusters 0 t.table d).1.sbi 0 1)
  unfolding file_free_blocks
  file_free_blocks_cases inode t d d' there e = ground arith

  -- If a call of `basicbtfs_file_free_blocks` on a contiguous table succeeds, and the file's clusters
  -- lie inside the device, which has a block and whose number of blocks fits 32 bits, every block of
  -- the clusters is free behind it, and so is block 0 of the device, which holds the superblock. It
  -- frees nothing else: the block of the cluster table itself stays in use unless it is one of those.
  pub file_free_blocks_lem :
      (inode : FileInode) (t : ClusterTable) (m : ℕ) (d d' : Files)
      → d.clusters inode.i_bno ≡ some t
      → IsContiguous t m
      → 0 < d.sbi.s_nblocks
      → d.sbi.s_nblocks < u32_mod
      → ((j : ℕ) → j < m → (t.table j).start_bno + 16 ≤ d.sbi.s_nblocks)
      → file_free_blocks api inode d ≡ returns tt d'
      → (d'.sbi.s_bfree_bitmap 0 ≡ false)
        × ((k j : ℕ)
            → j < m
            → in_range (t.table j).start_bno 16 k ≡ true
            → d'.sbi.s_bfree_bitmap k ≡ false)
        × ((k : ℕ)
            → 0 < k
            → ((j : ℕ) → j < m → in_range (t.table j).start_bno 16 k ≡ false)
            → d'.sbi.s_bfree_bitmap k ≡ d.sbi.s_bfree_bitmap k)
  file_free_blocks_lem inode t m d d' there is pos small inside e =
      let (run, last) = file_free_blocks_cases inode t d d' there e in
      let mid = (free_clusters api max_clusters 0 t.table d).1 in
      let all = free_clusters-IsEmptied t m is max_clusters 0 d mid run refl (small, inside) in
      let final = λ (k : ℕ). put_blocks_at mid.sbi 0 k (rw all.same pos) (rw all.same small) in
      rw last (
        final 0,
        λ k j lt h. ground (arith, final k, all.freed k j (omega arith) lt h),
        λ k nz h. ground (arith, final k, all.kept k (λ j low lt. h j lt)),
      )
