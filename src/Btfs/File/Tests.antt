-- ===== src/Btfs/File/Tests.antt =====
-- A file of one cluster, blocks 8 to 23 of a device of 60 blocks, which grows by a second cluster.
use basic_btfs.Prelude.{
  ℕ, ◌*◌, ◌/◌, ◌<◌, ◌≡◌, refl, true, false, none, some, arith, ltb, ◌==◌, if◌then◌else◌, update,
}
use basic_btfs.Kernel.{in_range, plain_api, plain_api-IsBitmapApi}
use basic_btfs.Btfs.Bitmap.{put_blocks, put_free_bits}
use basic_btfs.Btfs.Bitmap.Tests.{device}
use basic_btfs.Btfs.File.{
  ClusterTable, Files, FileInode, Outcome, returns, fails, fault, search_cluster, get_block,
  new_cluster, update_file_info, get_fileblock, file_free_blocks, free_clusters, free_cluster,
}
use basic_btfs.Btfs.File.Map.{IsContiguous, search_cluster_lem}
use basic_btfs.Btfs.File.Free.{file_free_blocks_lem}

abbrev file : FileInode
file = record { i_ino = 3; i_bno = 6 }

abbrev one_cluster : ClusterTable
one_cluster = record {
  ino = 3;
  table = λ i. if i == 0 then new_cluster 8 else record { start_bno = 0; cluster_length = 0 };
}

one_cluster-IsContiguous : IsContiguous one_cluster 1
one_cluster-IsContiguous = record {
  most = omega arith;
  used = λ k h. ground arith;
  length = λ k h. ground arith;
  unused = λ k h. ground arith;
}

abbrev before : Files
before = record {
  sbi = record (device (λ i. ltb i 24) 36) { s_nblocks = 60 };
  clusters = λ b. if b == 6 then some one_cluster else none;
  infos = λ b. some λ i. record { ino = 0; cluster_index = 0 };
  contents = λ b. some λ i. 7;
}

abbrev state_of : {A : Type 0} → Outcome A → Files
state_of (returns a d) = d
state_of (fails e d) = d
state_of fault = before

search_cluster_lem_example : search_cluster one_cluster 9 ≡ (if ltb 9 (16 * 1) then 9 / 16 else 1)
search_cluster_lem_example =
    search_cluster_lem one_cluster 1 one_cluster-IsContiguous 9 (omega arith)

abbrev after : Files
after = state_of (get_block plain_api file 20 true before)

abbrev emptied : Files
emptied = state_of (file_free_blocks plain_api file before)

frees : file_free_blocks plain_api file before ≡ returns tt emptied
unfolding file_free_blocks free_clusters free_cluster update_file_info get_fileblock update
    put_blocks put_free_bits
frees = refl

file_free_blocks_lem_example :
    (emptied.sbi.s_bfree_bitmap 0 ≡ false)
    × ((k j : ℕ)
        → j < 1
        → in_range (one_cluster.table j).start_bno 16 k ≡ true
        → emptied.sbi.s_bfree_bitmap k ≡ false)
    × ((k : ℕ)
        → 0 < k
        → ((j : ℕ) → j < 1 → in_range (one_cluster.table j).start_bno 16 k ≡ false)
        → emptied.sbi.s_bfree_bitmap k ≡ before.sbi.s_bfree_bitmap k)
file_free_blocks_lem_example =
    file_free_blocks_lem plain_api plain_api-IsBitmapApi file one_cluster 1 before emptied refl
      one_cluster-IsContiguous (omega arith) (omega arith) (λ j h. ground arith) frees
