-- ===== src/Btfs/Cache.antt =====
-- BasicBTFS/cache.h: the list of cached directories, the one used last first. The `list_head`s of a
-- directory's cached nodes and blocks of names are the lists themselves.
use basic_btfs.Prelude.{
  ℕ, zero, suc, ◌+◌, ◌*◌, ◌-◌, ◌/◌, ◌%◌, List, [], ◌∷◌, ◌++◌, ltb, ◌==◌, if◌then◌else◌, Option,
  none, some, update, u32_mod, add32, sub32,
}
use basic_btfs.Btfs.NameBlock.{NameBlock, CachedName}
use basic_btfs.Btfs.Disk.{
  max_keys, Entry, Node, Store, DirCache, Disk, Cmd, done, out_of_fuel, with_cached,
}
use basic_btfs.Btfs.Btree.Search.{scan_up}

abbrev pub max_cache_dir_entries : ℕ
max_cache_dir_entries = 100

abbrev pub max_cache_blocks_per_dir : ℕ
max_cache_blocks_per_dir = 250

-- `list_for_each_entry(…) if (dir_cache->bno == dir_bno) …`: the first match.
unfoldable pub find_dir : ℕ → List DirCache → Option DirCache
find_dir dir_bno [] = none
find_dir dir_bno (c ∷ cs) = if c.bno == dir_bno then some c else find_dir dir_bno cs

-- `list_del` of the first match.
unfoldable pub remove_dir : ℕ → List DirCache → List DirCache
remove_dir dir_bno [] = []
remove_dir dir_bno (c ∷ cs) = if c.bno == dir_bno then cs else c ∷ remove_dir dir_bno cs

-- `list_del` of a node from the list that it is in.
unfoldable pub remove_node : ℕ → List ℕ → List ℕ
remove_node node [] = []
remove_node node (a ∷ rest) = if a == node then rest else a ∷ remove_node node rest

unfoldable pub unlink_node : ℕ → List DirCache → List DirCache
unlink_node node [] = []
unlink_node node (c ∷ cs) =
    record c { root_nodes = remove_node node c.root_nodes } ∷ unlink_node node cs

unfoldable pub cache_add_dir : ℕ → ℕ → NameBlock → ℕ → Disk → Disk
cache_add_dir bno node name_block name_bno d = record d {
  dir_cache =
      record {
        bno = bno;
        nr_of_blocks = 5;
        root_nodes = node ∷ [];
        name_blocks = record { name_bno = name_bno; block = name_block } ∷ [];
      }
      ∷ d.dir_cache;
  sbi = record d.sbi { s_cache_dir_entries = add32 d.sbi.s_cache_dir_entries 1 };
}

unfoldable pub cache_add_node : ℕ → ℕ → List DirCache → List DirCache
cache_add_node dir_bno node cs = elim (find_dir dir_bno cs) [
  | none ↦ cs
  | some c ↦
      record c { root_nodes = c.root_nodes ++ (node ∷ []); nr_of_blocks = add32 c.nr_of_blocks 1 }
      ∷ remove_dir dir_bno cs
]

-- The new block stands first.
unfoldable pub cache_add_name_block : ℕ → NameBlock → ℕ → List DirCache → List DirCache
cache_add_name_block dir_bno name_block name_bno cs = elim (find_dir dir_bno cs) [
  | none ↦ cs
  | some c ↦
      record c {
        name_blocks = record { name_bno = name_bno; block = name_block } ∷ c.name_blocks;
        nr_of_blocks = add32 c.nr_of_blocks 1;
      }
      ∷ remove_dir dir_bno cs
]

-- The first copy of the block is overwritten.
unfoldable pub update_first : NameBlock → ℕ → List CachedName → List CachedName
update_first name_block name_bno [] = []
update_first name_block name_bno (b ∷ bs) =
    if b.name_bno == name_bno
    then record b { block = name_block } ∷ bs
    else b ∷ update_first name_block name_bno bs

-- The outer loop has no `break`: every directory under the number is gone through.
unfoldable pub cache_update_block : ℕ → NameBlock → ℕ → List DirCache → List DirCache
cache_update_block dir_bno name_block name_bno [] = []
cache_update_block dir_bno name_block name_bno (c ∷ cs) =
    (if c.bno == dir_bno
      then record c { name_blocks = update_first name_block name_bno c.name_blocks }
      else c)
    ∷ cache_update_block dir_bno name_block name_bno cs

-- The node becomes the first one of the first directory under the number, which keeps its place.
unfoldable pub push_root : ℕ → ℕ → List DirCache → List DirCache
push_root dir_bno node [] = []
push_root dir_bno node (c ∷ cs) =
    if c.bno == dir_bno
    then record c { root_nodes = node ∷ c.root_nodes } ∷ cs
    else c ∷ push_root dir_bno node cs

-- Without such a directory nothing is changed: what is read behind the loop is not used.
unfoldable pub cache_update_root_node : ℕ → ℕ → List DirCache → List DirCache
cache_update_root_node dir_bno new_node cs = elim (find_dir dir_bno cs) [
  | none ↦ cs
  | some _ ↦ push_root dir_bno new_node (unlink_node new_node cs)
]

unfoldable pub cache_update_root_bno : ℕ → ℕ → List DirCache → List DirCache
cache_update_root_bno dir_bno new_bno cs = elim (find_dir dir_bno cs) [
  | none ↦ cs
  | some c ↦ record c { bno = new_bno } ∷ remove_dir dir_bno cs
]

-- Answers the address of the cached root node; `none` is NULL.
unfoldable pub cache_get_root_node : ℕ → List DirCache → Option ℕ
cache_get_root_node dir_bno cs = elim (find_dir dir_bno cs) [
  | none ↦ none
  | some c ↦ elim c.root_nodes [ [] ↦ none | n ∷ _ ↦ some n ]
]

unfoldable pub cache_get_nr_of_blocks : ℕ → List DirCache → ℕ
cache_get_nr_of_blocks dir_bno cs = elim (find_dir dir_bno cs) [
  | none ↦ 0
  | some c ↦ c.nr_of_blocks
]

-- The nodes at the addresses are given back.
unfoldable pub destroy_nodes : List ℕ → Store → Store
destroy_nodes [] s = s
destroy_nodes (a ∷ rest) s = destroy_nodes rest (update s a none)

unfoldable pub cache_delete_dir : ℕ → Disk → Disk
cache_delete_dir hash d = elim (find_dir hash d.dir_cache) [
  | none ↦ d
  | some c ↦ record d {
    dir_cache = remove_dir hash d.dir_cache;
    cached = destroy_nodes c.root_nodes d.cached;
    sbi = record d.sbi { s_cache_dir_entries = sub32 d.sbi.s_cache_dir_entries 1 };
  }
]

-- The directory moves to the front, and the node leaves its list and is given back.
unfoldable pub cache_delete_node : ℕ → ℕ → Disk → Disk
cache_delete_node dir_bno node d = elim (find_dir dir_bno d.dir_cache) [
  | none ↦ d
  | some c ↦ record d {
    dir_cache =
        unlink_node node
          (record c { nr_of_blocks = sub32 c.nr_of_blocks 1 } ∷ remove_dir dir_bno d.dir_cache);
    cached = update d.cached node none;
  }
]

-- A read of `entries[i]` of a cached node. The array `children` of pointers follows, so the entry
-- behind the last one is made of two pointers.
unfoldable pub cached_entry_at : Node → ℕ → Entry
cached_entry_at n i = if ltb i max_keys then n.entries i else record {
  ino = n.children (2 * (i - max_keys)) % u32_mod;
  hash = n.children (2 * (i - max_keys)) / u32_mod;
  name_bno = n.children (2 * (i - max_keys) + 1) % u32_mod;
  block_index = n.children (2 * (i - max_keys) + 1) / u32_mod;
}

-- `basicbtfs_btree_node_cache_lookup`. The parameter `counter` is only passed on.
unfoldable pub node_cache_lookup : ℕ → ℕ → ℕ → Cmd ℕ
node_cache_lookup zero node hash d = out_of_fuel
node_cache_lookup (suc fuel) node hash d =
    with_cached node
      (λ n.
        let index = scan_up n.nr_of_keys n.entries hash 0 in
        if (cached_entry_at n index).hash == hash
        then done (cached_entry_at n index).ino
        else if n.leaf
        then done 0
        else node_cache_lookup fuel (n.children index) hash)
      d

unfoldable pub cache_lookup_entry : ℕ → ℕ → ℕ → Cmd ℕ
cache_lookup_entry fuel dir_bno hash d = elim (cache_get_root_node dir_bno d.dir_cache) [
  | none ↦ done 0 d
  | some node ↦ node_cache_lookup fuel node hash d
]
