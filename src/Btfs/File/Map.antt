-- ===== src/Btfs/File/Map.antt =====
-- BasicBTFS/file.c: which block of the device a block of a file is, for a table that is filled from
-- its first cluster on.
use basic_btfs.Prelude.{
  ℕ, zero, suc, ◌+◌, ◌*◌, ◌/◌, ◌%◌, ◌≤◌, ◌<◌, ◌≡◌, refl, ap, ◌∙◌, ◌≢◌, inl, inr, Bool, some, arith,
  ltb, if◌then◌else◌, Bool-cases, ltb→lt, ltb→le, lt→ltb, ne→==, lt→leb, add32, minus_one, u32_mod,
}
use basic_btfs.Kernel.{BitmapApi, IsBitmapApi}
use basic_btfs.Btfs.File.{
  max_clusters, blocks_per_cluster, max_file_blocks, ClusterTable, Files, FileInode, returns,
  search_from, search_cluster, get_block,
}

-- The first `m` clusters are full, those behind them were never used.
pub record IsContiguous (t : ClusterTable) (m : ℕ) : Type 0 where
  pub most : m ≤ max_clusters
  pub used : (k : ℕ) → k < m → (t.table k).start_bno ≢ 0
  pub length : (k : ℕ) → k < m → (t.table k).cluster_length ≡ blocks_per_cluster
  pub unused : (k : ℕ) → m ≤ k → (t.table k).start_bno ≡ 0

module _ (t : ClusterTable) (m : ℕ) (is : IsContiguous t m) (iblock : ℕ)
    (small : iblock < max_file_blocks) where
  search_from_lem :
      (rounds i total : ℕ)
      → i + rounds ≡ max_clusters
      → total ≡ 16 * i
      → i ≤ m
      → 16 * i ≤ iblock
      → search_from rounds i total t.table iblock ≡ (if ltb iblock (16 * m) then iblock / 16 else m)
  unfolding search_from
  search_from_lem zero i total e et le low = absurd (omega arith)
  search_from_lem (suc rounds) i total e et le low = elim (Bool-cases (ltb i m)) [
    | inl h ↦
        let lt = ltb→lt i m h in
        let start = is.used i lt in
        let len = is.length i lt in
        let same : add32 total (t.table i).cluster_length ≡ 16 * (i + 1) = rw len (omega arith) in
        rw (same, ne→== _ 0 start)
          (elim (Bool-cases (ltb iblock (16 * (i + 1)))) [
            | inl h' ↦ ground arith
            | inr h' ↦ rw h' (
                search_from_lem rounds (i + 1) (16 * (i + 1)) (omega arith) refl (omega arith)
                  (ltb→le iblock _ h'))
          ])
    | inr h ↦
        let le' = ltb→le i m h in
        let em : i ≡ m = omega arith in
        let none_there = is.unused i le' in rw (none_there, em) (ground arith)
  ]

  -- In a contiguous table the search of a block of the file finds the cluster that holds it, or
  -- else the first unused cluster, for any block below the greatest file size.
  pub search_cluster_lem :
      search_cluster t iblock ≡ (if ltb iblock (16 * m) then iblock / 16 else m)
  unfolding search_cluster
  search_cluster_lem =
      search_from_lem max_clusters 0 0 (omega arith) refl (omega arith) (omega arith)

module _ (api : BitmapApi) (law : IsBitmapApi api) where
  -- A block that a contiguous table maps, in a cluster whose block numbers fit 32 bits, is found at
  -- its place in the cluster, and nothing is changed, whether or not a block may be allocated.
  pub get_block_mapped :
      (inode : FileInode) (d : Files) (t : ClusterTable) (m iblock : ℕ) (create : Bool)
      → d.clusters inode.i_bno ≡ some t
      → IsContiguous t m
      → m ≤ 510
      → iblock < 16 * m
      → (t.table (iblock / 16)).start_bno + 16 ≤ u32_mod
      → get_block api inode iblock create d
        ≡ returns (some ((t.table (iblock / 16)).start_bno + iblock % 16)) d
  unfolding get_block
  get_block_mapped inode d t m iblock create e is le lt fits =
      let index : search_cluster t iblock ≡ iblock / 16 =
        search_cluster_lem t m is iblock (omega arith) ∙ rw (lt→ltb iblock (16 * m) lt) refl in
      let start = is.used (iblock / 16) (omega arith) in
      let len = is.length (iblock / 16) (omega arith) in
      rw
        (
          lt→leb max_file_blocks iblock (omega arith),
          e,
          index,
          ne→== (iblock / 16) minus_one (omega arith),
          ne→== _ 0 start,
          len,
        )
        (ap (λ b. returns (some b) d) (omega arith))
