-- ===== src/Btfs/BtreeCache.antt =====
-- BasicBTFS/btreecache.h: the tree of a cached directory, whose nodes are linked by addresses. A
-- cached node has the fields of a node on disk less `parent` and `root`, which stay unset here.
-- Search and insertion; deletion is in the child. `alloc` is the kernel's allocator: the address
-- that it gives while some nodes are in use.
pub mod Delete
pub mod Copy
pub mod Endless
mod Tests
use basic_btfs.Prelude.{
  ℕ, zero, suc, ◌+◌, ◌-◌, Bool, false, Option, none, some, ltb, leb, ◌==◌, if◌then◌else◌, update,
  add32,
}
use basic_btfs.Btfs.Disk.{
  min_degree, max_keys, Entry, Node, Store, Disk, Inode, Ret, success, failed, done, fault,
  out_of_fuel, Cmd, ◌>>=◌, ◌>>◌, on_success, with_cached, store_cached,
}
use basic_btfs.Btfs.Btree.Search.{scan_up}
use basic_btfs.Btfs.Btree.Insert.{node_init, split_rhs, split_parent, scan_down, insert_in_leaf}
use basic_btfs.Btfs.Cache.{cached_entry_at, cache_add_node, cache_update_root_node}

-- A zeroed node at the address.
unfoldable pub node_cache_init : ℕ → Bool → Disk → Disk
node_cache_init node leaf d = record d { cached = update d.cached node (some (node_init leaf 0)) }

-- The node becomes the directory's first one.
unfoldable pub cache_update_root : Inode → ℕ → Cmd Ret
cache_update_root inode node d =
    if leb d.sbi.s_ninodes inode.i_ino
    then done failed d
    else done success (record d { dir_cache = cache_update_root_node inode.i_bno node d.dir_cache })

-- The answer and, where the entry is found, what is copied to `*entry`.
unfoldable pub node_cache_lookup_with_entry : ℕ → ℕ → ℕ → Cmd (ℕ × Option Entry)
node_cache_lookup_with_entry zero node hash d = out_of_fuel
node_cache_lookup_with_entry (suc fuel) node hash d =
    with_cached node
      (λ n.
        let index = scan_up n.nr_of_keys n.entries hash 0 in
        let e = cached_entry_at n index in
        if e.hash == hash
        then done (e.ino, some e)
        else if n.leaf
        then done (0, none)
        else node_cache_lookup_with_entry fuel (n.children index) hash)
      d

unfoldable pub node_cache_update : ℕ → ℕ → ℕ → ℕ → Cmd Ret
node_cache_update zero node hash inode d = out_of_fuel
node_cache_update (suc fuel) node hash inode d =
    with_cached node
      (λ n.
        let index = scan_up n.nr_of_keys n.entries hash 0 in
        let e = cached_entry_at n index in
        if e.hash == hash
        then (if ltb index max_keys
            then (do
              store_cached node
                  (record n { entries = update n.entries index (record e { ino = inode }) })
              done success)
            else (λ _. fault))
        else if n.leaf
        then done success
        else node_cache_update fuel (n.children index) hash inode)
      d

module _ (alloc : Store → ℕ) where
  -- The new right half is set up, and joins the nodes of the directory; the two nodes are changed
  -- in place. Entry and child are shifted inside the arrays only if the parent is not full.
  unfoldable pub cache_split_child : ℕ → ℕ → ℕ → ℕ → Cmd Ret
  cache_split_child par lhs index dir_bno d =
      let rhs = alloc d.cached in
      with_cached par
        (λ node_par. with_cached lhs λ node_lhs.
          if leb max_keys node_par.nr_of_keys then (λ _. fault) else do
            store_cached rhs (split_rhs node_lhs 0)
            store_cached lhs (record node_lhs { nr_of_keys = min_degree - 1 })
            store_cached par (split_parent node_par index rhs (node_lhs.entries (min_degree - 1)))
            λ d'. done success (record d' { dir_cache = cache_add_node dir_bno rhs d'.dir_cache }))
        d

  -- The node is read again behind a split. The answer of the recursive call is dropped.
  unfoldable pub cache_insert_non_full : ℕ → ℕ → Entry → ℕ → Cmd Ret
  cache_insert_non_full zero node e dir_bno d = out_of_fuel
  cache_insert_non_full (suc fuel) node e dir_bno d =
      with_cached node
        (λ n.
          if n.leaf
          then (if leb max_keys n.nr_of_keys
              then (λ _. fault)
              else do store_cached node (insert_in_leaf n e); done success)
          else (let k = scan_down n.nr_of_keys n.entries e.hash in
              with_cached (n.children k) λ child.
                if child.nr_of_keys == max_keys
                then (do
                  ret ← cache_split_child node (n.children k) k dir_bno
                  on_success ret (
                      with_cached node λ n'.
                        let k' = if ltb (n'.entries k).hash e.hash then k + 1 else k in
                        do cache_insert_non_full fuel (n'.children k') e dir_bno; done success))
                else (do cache_insert_non_full fuel (n.children k) e dir_bno; done success)))
        d

  -- A new root above the full one: set up, and filled in by the split.
  unfoldable pub cache_new_root : ℕ → ℕ → ℕ → Disk → Disk
  cache_new_root new_node old_node dir_bno d =
      let n = node_init false 0 in
      record d {
        cached =
            update d.cached new_node (some (record n { children = update n.children 0 old_node }));
        dir_cache = cache_add_node dir_bno new_node d.dir_cache;
      }

  unfoldable pub cache_insert_full : ℕ → Inode → ℕ → ℕ → Entry → ℕ → Cmd Ret
  cache_insert_full fuel par_inode new_node old_node e dir_bno = do
    ret ← cache_split_child new_node old_node 0 dir_bno
    on_success ret (
        with_cached new_node λ n. do
          ret' ←
              cache_insert_non_full fuel
                (n.children (if ltb (n.entries 0).hash e.hash then 1 else 0)) e dir_bno
          on_success ret' (do
            ret'' ← cache_update_root par_inode new_node
            on_success ret'' (
                with_cached old_node λ old. with_cached new_node λ new. do
                  store_cached new_node (record new {
                    nr_of_files = add32 old.nr_of_files 1;
                    nr_times_done = add32 old.nr_times_done 1;
                    tree_name_bno = old.tree_name_bno;
                  })
                  done success)))

  -- `basicbtfs_btree_node_cache_insert`.
  unfoldable pub node_cache_insert : ℕ → Inode → ℕ → Entry → ℕ → Cmd Ret
  node_cache_insert fuel par_inode old_node e dir_bno d =
      with_cached old_node
        (λ n.
          if n.nr_of_keys == max_keys
          then (λ d'.
              let new_node = alloc d'.cached in
              cache_insert_full fuel par_inode new_node old_node e dir_bno
                (cache_new_root new_node old_node dir_bno d'))
          else (do
            ret ← cache_insert_non_full fuel old_node e dir_bno
            on_success ret (
                with_cached old_node λ old. do
                  store_cached old_node (record old {
                    nr_of_files = add32 old.nr_of_files 1;
                    nr_times_done = add32 old.nr_times_done 1;
                  })
                  done success)))
        d
