-- ===== src/Btfs/Dir/Tests.antt =====
-- A directory of one file whose tree is in the cache, and the theorems on BasicBTFS/dir.c at it.
use basic_btfs.Prelude.{
  ℕ, ◌<◌, ◌≡◌, refl, true, none, some, List, [], ◌∷◌, arith, ◌==◌, if◌then◌else◌,
}
use basic_btfs.Kernel.{plain_api, plain_api-IsBitmapApi}
use basic_btfs.Btfs.Disk.{Node, entry_at, Store, Disk, Inode, success, done}
use basic_btfs.Btfs.Btree.Shape.{IsNode, leaf}
use basic_btfs.Btfs.Btree.Search.{lookup, child_index, scan_up}
use basic_btfs.Btfs.Btree.Tests.{rising, no_kids, disk}
use basic_btfs.Btfs.Cache.{find_dir, cache_get_root_node}
use basic_btfs.Btfs.BtreeCache.Copy.{copy_leaf}
use basic_btfs.Btfs.Dir.{get_hash_from_block, search_entry, free_dir}
use basic_btfs.Btfs.Dir.Freed.{IsFreed}
use basic_btfs.Btfs.Dir.Free.{InTree, in_leaf, free_dir_lem}
use basic_btfs.Btfs.Dir.Search.{file_of, IsCached, copied, search_entry_lem}

abbrev one_file : Node
one_file = rising true 1 10 no_kids

abbrev nodes : Store
nodes b = if b == 6 then some one_file else none

abbrev state : Disk
state = record (disk nodes) {
  cached = λ a. if a == 100 then some one_file else none;
  dir_cache = record { bno = 6; nr_of_blocks = 5; root_nodes = 100 ∷ []; name_blocks = [] } ∷ [];
}

abbrev dir : Inode
dir = record { i_ino = 3; i_bno = 6 }

-- A hash that is 10 for every name.
abbrev ten : ℕ → List ℕ → ℕ
ten _ _ = 10

root_at : cache_get_root_node 6 state.dir_cache ≡ some 100
unfolding cache_get_root_node find_dir
root_at = refl

state-IsCached : IsCached state dir 0
state-IsCached =
    copied 100 root_at (copy_leaf one_file one_file refl refl refl refl (omega arith) refl refl)

hit_10 : lookup 1 nodes 6 (get_hash_from_block ten (b'a' ∷ [])) ≡ some 1
unfolding lookup child_index scan_up entry_at get_hash_from_block
hit_10 = refl

search_entry_lem_example : search_entry ten 1 dir (b'a' ∷ []) state ≡ done (file_of 1) state
search_entry_lem_example =
    search_entry_lem ten 1 dir (b'a' ∷ []) state 0 1 state-IsCached (omega arith) hit_10

one_file-IsNode : IsNode one_file 0 20
one_file-IsNode = record {
  size = omega arith;
  sorted = λ i j p q. absurd (omega arith);
  above = λ i p. ground arith;
  below = λ i p. ground arith;
}

inside : (x : ℕ) → InTree nodes 6 x → (0 < x) × (x < 12)
inside x t =
    let e = in_leaf plain_api plain_api-IsBitmapApi one_file refl refl t in rw e (omega arith)

free_dir_lem_example :
    (d' : Disk) × (free_dir plain_api 1 6 state ≡ done success d')
    × IsFreed state d' (InTree nodes 6)
free_dir_lem_example =
    free_dir_lem plain_api plain_api-IsBitmapApi {P = λ _. Unit {0}} 1 0 6 0 20 state
      (leaf one_file refl refl tt one_file-IsNode) (omega arith) (omega arith) inside
