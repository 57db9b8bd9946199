-- ===== src/Btfs/BtreeCache/Endless.antt =====
-- Deletion of a key from an inner node of a cached tree, BasicBTFS/btreecache.h.
use basic_btfs.Prelude.{
  ℕ, zero, suc, ◌≤◌, ◌<◌, ◌≡◌, refl, true, false, some, arith, ltb, ◌==◌, ◌&&◌, le→leb,
}
use basic_btfs.Btfs.Disk.{min_degree, Entry, Node, Disk, Inode, Ret, out_of_fuel, Cmd, with_cached}
use basic_btfs.Btfs.Cache.{cached_entry_at}
use basic_btfs.Btfs.BtreeCache.Delete.{
  cached_child_at, cache_find_key, wait_for_leaf, cache_get_predecessor, cache_remove_from_nonleaf,
  cache_delete,
}

wait_for_leaf_endless :
    (fuel : ℕ) (n : Node) (k : Cmd Entry) (d : Disk)
    → n.leaf ≡ false
    → wait_for_leaf fuel n k d ≡ out_of_fuel
unfolding wait_for_leaf
wait_for_leaf_endless zero n k d isinner = refl
wait_for_leaf_endless (suc fuel) n k d isinner =
    ground (arith, wait_for_leaf_endless fuel n k d isinner)

get_predecessor_endless :
    (fuel node : ℕ) (n : Node) (d : Disk)
    → d.cached node ≡ some n
    → n.leaf ≡ false
    → cache_get_predecessor fuel node d ≡ out_of_fuel
unfolding cache_get_predecessor
get_predecessor_endless fuel node n d at isinner =
    rw (cache_get_predecessor, with_cached, at) (wait_for_leaf_endless fuel n _ d isinner)

remove_from_nonleaf_endless :
    (fuel node index : ℕ) (delete : ℕ → ℕ → Cmd Ret) (inode : Inode) (n lhs : Node) (d : Disk)
    → d.cached node ≡ some n
    → n.leaf ≡ false
    → d.cached (cached_child_at n index) ≡ some lhs
    → min_degree ≤ lhs.nr_of_keys
    → cache_remove_from_nonleaf fuel delete inode node index d ≡ out_of_fuel
unfolding cache_remove_from_nonleaf
remove_from_nonleaf_endless fuel node index delete inode n lhs d at isinner at' many =
    let wait = get_predecessor_endless fuel node n d at isinner in
    let spare = le→leb min_degree lhs.nr_of_keys many in
    rw (cache_remove_from_nonleaf, with_cached, at, with_cached, at', spare, wait) refl

-- Deleting a key that stands in an inner node of a cached tree, where the child to its left has at
-- least the least number of keys for an entry to spare, never ends: the search for the predecessor
-- waits for the node itself to become a leaf.
pub cache_delete_endless :
    (fuel : ℕ) (inode : Inode) (node hash : ℕ) (n lhs : Node) (d : Disk)
    → d.cached node ≡ some n
    → n.leaf ≡ false
    → cache_find_key n hash < n.nr_of_keys
    → (cached_entry_at n (cache_find_key n hash)).hash ≡ hash
    → d.cached (cached_child_at n (cache_find_key n hash)) ≡ some lhs
    → min_degree ≤ lhs.nr_of_keys
    → cache_delete fuel inode node hash d ≡ out_of_fuel
unfolding cache_delete
cache_delete_endless zero inode node hash n lhs d at isinner lt found at' many = refl
cache_delete_endless (suc fuel) inode node hash n lhs d at isinner lt found at' many =
    let here : (ltb (cache_find_key n hash) n.nr_of_keys
          && ((cached_entry_at n (cache_find_key n hash)).hash == hash))
        ≡ true =
      ground (arith, found) in
    rw (cache_delete, with_cached, at, here)
      (simp isinner (
        remove_from_nonleaf_endless fuel node (cache_find_key n hash)
          (λ a h. cache_delete fuel inode a h) inode n lhs d at isinner at' many))
