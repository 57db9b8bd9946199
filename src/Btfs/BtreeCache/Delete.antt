-- ===== src/Btfs/BtreeCache/Delete.antt =====
-- Deletion in BasicBTFS/btreecache.h. All functions but the last answer 0 where they come back.
use basic_btfs.Prelude.{
  ℕ, zero, suc, ◌+◌, ◌-◌, Bool, false, ltb, leb, ◌==◌, not, ◌&&◌, ◌||◌, if◌then◌else◌, update,
  shift_up, shift_down, sub32,
}
use basic_btfs.Btfs.Disk.{
  min_degree, max_keys, max_children, Entry, Node, Inode, Ret, success, done, fault, out_of_fuel,
  Cmd, ◌>>=◌, ◌>>◌, on_success, pure, with_cached, store_cached,
}
use basic_btfs.Btfs.Btree.Search.{scan_up}
use basic_btfs.Btfs.Btree.Delete.{drop_entry, merge_lhs, join_children, merge_parent}
use basic_btfs.Btfs.Cache.{cached_entry_at, cache_delete_node}
use basic_btfs.Btfs.BtreeCache.{cache_update_root}

-- A read of `children[i]`; what stands behind the array is no address of a node.
unfoldable pub cached_child_at : Node → ℕ → ℕ
cached_child_at n i = if ltb i max_children then n.children i else 0

unfoldable pub cache_find_key : Node → ℕ → ℕ
cache_find_key n hash = scan_up n.nr_of_keys n.entries hash 0

unfoldable pub cache_remove_from_leaf : ℕ → ℕ → Cmd Ret
cache_remove_from_leaf node index =
    with_cached node λ n. do store_cached node (drop_entry n index); pure success

-- `while (!node->leaf) child = …;`: the loop changes `child`, and tests `node`.
unfoldable pub wait_for_leaf : ℕ → Node → Cmd Entry → Cmd Entry
wait_for_leaf zero n k d = out_of_fuel
wait_for_leaf (suc fuel) n k d = let rest = wait_for_leaf fuel n k d in if n.leaf then k d else rest

-- A leaf with no key makes the code read at index 2 ^ 32 - 1.
unfoldable pub cache_get_predecessor : ℕ → ℕ → Cmd Entry
cache_get_predecessor fuel node = with_cached node λ n.
    wait_for_leaf fuel n
      (if n.nr_of_keys == 0 then (λ _. fault) else pure (cached_entry_at n (n.nr_of_keys - 1)))

unfoldable pub cache_get_successor : ℕ → ℕ → Cmd Entry
cache_get_successor fuel node = with_cached node λ n. wait_for_leaf fuel n (pure (n.entries 0))

-- The three nodes that a function on two children of a node reads.
abbrev pub with_cached_children : ℕ → ℕ → (Node → Node → Node → Cmd Ret) → Cmd Ret
with_cached_children node index k = with_cached node λ n.
    with_cached (cached_child_at n index)
      λ lhs. with_cached (cached_child_at n (index + 1)) λ rhs. k n lhs rhs

unfoldable pub cache_merge : Inode → ℕ → ℕ → Cmd Ret
cache_merge inode node index = with_cached_children node index λ n lhs rhs.
    if ltb (min_degree - 1) rhs.nr_of_keys then (λ _. fault) else (do
      joined ← join_children rhs (merge_lhs lhs (cached_entry_at n index) rhs)
      store_cached (cached_child_at n index) joined
      store_cached node (merge_parent n index)
      λ d. done success (cache_delete_node inode.i_bno (cached_child_at n (index + 1)) d))

-- `lhs` and `rhs` are the children at `index` and `index + 1`, the entry is that at `index - 1`.
unfoldable pub cache_steal_from_previous : ℕ → ℕ → Cmd Ret
cache_steal_from_previous node index = with_cached_children node index λ n lhs rhs.
    if leb max_keys rhs.nr_of_keys || index == 0 || lhs.nr_of_keys == 0 then (λ _. fault) else (do
      store_cached (cached_child_at n (index + 1)) (record rhs {
        entries = update (shift_up rhs.nr_of_keys 0 rhs.entries) 0 (n.entries (index - 1));
        children =
            if rhs.leaf
            then rhs.children
            else update (shift_up (rhs.nr_of_keys + 1) 0 rhs.children) 0
                (cached_child_at lhs lhs.nr_of_keys);
        nr_of_keys = rhs.nr_of_keys + 1;
      })
      store_cached (cached_child_at n index) (record lhs { nr_of_keys = sub32 lhs.nr_of_keys 1 })
      store_cached node (record n {
        entries = update n.entries (index - 1) (cached_entry_at lhs (lhs.nr_of_keys - 1));
      })
      pure success)

unfoldable pub cache_steal_from_next : ℕ → ℕ → Cmd Ret
cache_steal_from_next node index = with_cached_children node index λ n lhs rhs.
    if leb max_keys lhs.nr_of_keys then (λ _. fault) else (do
      store_cached (cached_child_at n index) (record lhs {
        entries = update lhs.entries lhs.nr_of_keys (cached_entry_at n index);
        children =
            if lhs.leaf
            then lhs.children
            else update lhs.children (lhs.nr_of_keys + 1) (rhs.children 0);
        nr_of_keys = lhs.nr_of_keys + 1;
      })
      store_cached (cached_child_at n (index + 1)) (record rhs {
        entries = shift_down (rhs.nr_of_keys - 1) 0 rhs.entries;
        children = if rhs.leaf then rhs.children else shift_down rhs.nr_of_keys 0 rhs.children;
        nr_of_keys = sub32 rhs.nr_of_keys 1;
      })
      store_cached node (record n { entries = update n.entries index (rhs.entries 0) })
      pure success)

-- `guard && address->nr_of_keys >= BASICBTFS_MIN_DEGREE`, which reads the node only if the guard
-- holds, with the rest of the function.
abbrev has_spare : Bool → ℕ → (Bool → Cmd Ret) → Cmd Ret
has_spare guard address k =
    if guard then with_cached address (λ n. k (leb min_degree n.nr_of_keys)) else k false

unfoldable pub cache_fill : Inode → ℕ → ℕ → Cmd Ret
cache_fill inode node index = with_cached node λ n.
    has_spare (not (index == 0)) (cached_child_at n index) λ previous.
      if previous
      then cache_steal_from_previous node index
      else has_spare (not (index == n.nr_of_keys)) (cached_child_at n (index + 1)) λ next.
        if next
        then cache_steal_from_next node index
        else if not (index == n.nr_of_keys)
        then cache_merge inode node index
        else cache_merge inode node (index - 1)

-- The entry found below takes the place of the one at `index`, and is deleted in the child.
unfoldable pub cache_replace_with : (ℕ → ℕ → Cmd Ret) → ℕ → ℕ → ℕ → Entry → Cmd Ret
cache_replace_with delete node index child e = with_cached node λ n. do
  store_cached node (record n { entries = update n.entries index e })
  _ ← delete (cached_child_at n child) e.hash
  pure success

unfoldable pub cache_remove_from_nonleaf : ℕ → (ℕ → ℕ → Cmd Ret) → Inode → ℕ → ℕ → Cmd Ret
cache_remove_from_nonleaf fuel delete inode node index = with_cached node λ n.
    with_cached (cached_child_at n index) λ lhs.
      if leb min_degree lhs.nr_of_keys
      then (cache_get_predecessor fuel node >>= λ e. cache_replace_with delete node index index e)
      else with_cached (cached_child_at n (index + 1)) λ rhs.
        if leb min_degree rhs.nr_of_keys
        then (cache_get_successor fuel node >>= λ e.
            cache_replace_with delete node index (index + 1) e)
        else (do
          _ ← cache_merge inode node index
          with_cached node λ n'. do
            _ ← delete (cached_child_at n' index) (cached_entry_at n index).hash
            pure success)

-- `basicbtfs_btree_node_cache_delete`. A leaf is not told apart where the key is not in the node.
unfoldable pub cache_delete : ℕ → Inode → ℕ → ℕ → Cmd Ret
cache_delete zero inode node hash d = out_of_fuel
cache_delete (suc fuel) inode node hash d =
    let rest = λ (a h : ℕ). cache_delete fuel inode a h in
    with_cached node
      (λ n.
        let index = cache_find_key n hash in
        if ltb index n.nr_of_keys && ((cached_entry_at n index).hash == hash)
        then (if n.leaf
            then cache_remove_from_leaf node index
            else cache_remove_from_nonleaf fuel rest inode node index)
        else with_cached (cached_child_at n index) λ child. do
          _ ← if ltb child.nr_of_keys min_degree then cache_fill inode node index else pure success
          with_cached node λ n'. do _ ← rest (cached_child_at n' index) hash; pure success)
      d

-- The root counts one file less, or gives way to its only child.
unfoldable pub cache_finish_delete : Inode → ℕ → Cmd Ret
cache_finish_delete inode root = with_cached root λ node.
    if (node.nr_of_keys == 0) && not node.leaf
    then (do
      ret ← cache_update_root inode (node.children 0)
      on_success ret (
          with_cached (node.children 0) λ child. do
            store_cached (node.children 0) (record child {
              nr_of_files = sub32 node.nr_of_files 1;
              nr_times_done = node.nr_times_done;
              tree_name_bno = node.tree_name_bno;
            })
            λ d. done success (cache_delete_node inode.i_bno root d)))
    else (do
      store_cached root (record node { nr_of_files = sub32 node.nr_of_files 1 })
      pure success)

unfoldable pub cache_delete_entry : ℕ → Inode → ℕ → ℕ → Cmd Ret
cache_delete_entry fuel inode node hash = do
  _ ← cache_delete fuel inode node hash
  cache_finish_delete inode node
