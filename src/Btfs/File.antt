-- ===== src/Btfs/File.antt =====
-- BasicBTFS/file.c and `basicbtfs_update_file_info` of BasicBTFS/io.h: the extents of a file. The
-- state is the superblock, the blocks read as cluster tables, the blocks of the file map and the
-- data blocks; `none` is a block that `sb_bread` cannot read. Page cache calls are left out.
pub mod Map
pub mod Grow
pub mod Free
mod Tests
use basic_btfs.Prelude.{
  ℕ, zero, suc, ◌+◌, ◌-◌, ◌*◌, ◌/◌, ◌%◌, Bool, true, false, ◌||◌, Option, none, some, ltb, leb,
  ◌==◌, if◌then◌else◌, update, add32, minus_one,
}
use basic_btfs.Kernel.{BitmapApi}
use basic_btfs.Btfs.Super.{SbInfo}
use basic_btfs.Btfs.Bitmap.{get_free_blocks, put_blocks}

abbrev pub max_clusters : ℕ
max_clusters = 510

abbrev pub blocks_per_cluster : ℕ
blocks_per_cluster = 16

abbrev pub max_file_blocks : ℕ
max_file_blocks = 8160

abbrev pub infos_per_block : ℕ
infos_per_block = 512

-- `struct basicbtfs_cluster`, a run of blocks.
pub record Cluster : Type 0 where
  pub start_bno : ℕ
  pub cluster_length : ℕ

-- `struct basicbtfs_cluster_table`.
pub record ClusterTable : Type 0 where
  pub ino : ℕ
  pub table : ℕ → Cluster

-- `struct basicbtfs_fileblock_info`: which file a block belongs to.
pub record FileInfo : Type 0 where
  pub ino : ℕ
  pub cluster_index : ℕ

pub record Files : Type 0 where
  pub sbi : SbInfo
  pub clusters : ℕ → Option ClusterTable
  pub infos : ℕ → Option (ℕ → FileInfo)
  pub contents : ℕ → Option (ℕ → ℕ)

-- The inode in memory of a file.
pub record FileInode : Type 0 where
  pub i_ino : ℕ
  pub i_bno : ℕ

pub data Error : Type 0 where
  eio enospc efbig : Error

-- The result of a call with the state behind it; a fault is a read or write through a bad pointer.
pub data Outcome (A : Type 0) : Type 0 where
  returns : A → Files → Outcome A
  fails : Error → Files → Outcome A
  fault : Outcome A

-- `old_total_nr_of_blocks` of the source stays 0, so only the upper bound of a cluster is tested.
unfoldable pub search_from : ℕ → ℕ → ℕ → (ℕ → Cluster) → ℕ → ℕ
search_from zero i total table iblock = minus_one
search_from (suc rounds) i total table iblock =
    let total' = add32 total (table i).cluster_length in
    let rest = search_from rounds (i + 1) total' table iblock in
    if (table i).start_bno == 0 || ltb iblock total' then i else rest

unfoldable pub search_cluster : ClusterTable → ℕ → ℕ
search_cluster t iblock = search_from max_clusters 0 0 t.table iblock

-- BASICBTFS_GET_FILEBLOCK.
unfoldable pub get_fileblock : SbInfo → ℕ → ℕ
get_fileblock sbi bno =
    bno / infos_per_block + sbi.s_imap_blocks + sbi.s_bmap_blocks + sbi.s_inode_blocks + 1

-- The answer -EIO is dropped by every caller.
unfoldable pub update_file_info : ℕ → ℕ → ℕ → Files → Files
update_file_info bno new_ino new_index d =
    let block = get_fileblock d.sbi bno in
    elim (d.infos block) [
      | none ↦ d
      | some infos ↦ record d {
        infos = update d.infos block (
            some (
              update infos (bno % infos_per_block)
                (record { ino = new_ino; cluster_index = new_index })));
      }
    ]

-- The loop over a new cluster: the file map, and a zeroed block. The buffer is used unchecked.
unfoldable pub claim_blocks : ℕ → ℕ → ℕ → ℕ → Files → Option Files
claim_blocks zero bno ino index d = some d
claim_blocks (suc rounds) bno ino index d =
    let d' = update_file_info bno ino index d in
    let rest =
      claim_blocks rounds (bno + 1) ino index
        (record d' { contents = update d'.contents bno (some λ _. 0) }) in
    elim (d'.contents bno) [ none ↦ none | some _ ↦ rest ]

abbrev pub new_cluster : ℕ → Cluster
new_cluster bno = record { start_bno = bno; cluster_length = blocks_per_cluster }

module _ (api : BitmapApi) where
  -- A new cluster at `index` of the table `t` in block `i_bno`; the mapped block is its first.
  unfoldable pub allocate : FileInode → ClusterTable → ℕ → Files → Outcome (Option ℕ)
  allocate inode t index d =
      let (bno, sbi) = get_free_blocks api d.sbi blocks_per_cluster in
      let d' = record d { sbi = sbi } in
      if bno == minus_one
      then fails enospc d'
      else elim (claim_blocks blocks_per_cluster bno inode.i_ino index (record d' {
        clusters =
            update d'.clusters inode.i_bno
              (some (record t { table = update t.table index (new_cluster bno) }));
      })) [ none ↦ fault | some d'' ↦ returns (some bno) d'' ]

  -- `none` in the answer leaves `bh_result` unmapped. The index -1 of a full table is used as it
  -- is.
  unfoldable pub get_block : FileInode → ℕ → Bool → Files → Outcome (Option ℕ)
  get_block inode iblock create d =
      if leb max_file_blocks iblock then fails efbig d else elim (d.clusters inode.i_bno) [
        | none ↦ fails eio d
        | some t ↦
            let index = search_cluster t iblock in
            let c = t.table index in
            if index == minus_one
            then fault
            else if c.start_bno == 0
            then (if create then allocate inode t index d else returns none d)
            else returns (some (add32 c.start_bno (iblock % c.cluster_length))) d
      ]

  -- The loop over the blocks of a cluster. `false` is the answer -EIO.
  unfoldable pub free_cluster : ℕ → ℕ → Files → Bool × Files
  free_cluster zero bno d = (true, d)
  free_cluster (suc rounds) bno d =
      let d' = update_file_info bno 0 0 d in
      let rest = free_cluster rounds (bno + 1) (record d' { sbi = put_blocks api d'.sbi bno 1 }) in
      elim (d.contents bno) [ none ↦ (false, d) | some _ ↦ rest ]

  -- The loop over the clusters.
  unfoldable pub free_clusters : ℕ → ℕ → (ℕ → Cluster) → Files → Bool × Files
  free_clusters zero index table d = (true, d)
  free_clusters (suc rounds) index table d =
      let (freed, d') = free_cluster (table index).cluster_length (table index).start_bno d in
      let rest = free_clusters rounds (index + 1) table d' in
      if (table index).start_bno == 0 then (true, d) else if freed then rest else (false, d')

  -- `bno` of the source is 0 all the way to the last `put_blocks`.
  unfoldable pub file_free_blocks : FileInode → Files → Outcome (Unit {0})
  file_free_blocks inode d = elim (d.clusters inode.i_bno) [
    | none ↦ fails eio d
    | some t ↦
        let (freed, d') = free_clusters max_clusters 0 t.table d in
        if freed then returns tt (record d' { sbi = put_blocks api d'.sbi 0 1 }) else fails eio d'
  ]
