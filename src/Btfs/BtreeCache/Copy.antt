-- ===== src/Btfs/BtreeCache/Copy.antt =====
-- The cached tree of a directory against the tree on disk, BasicBTFS/btreecache.h and cache.h.
use basic_btfs.Prelude.{
  ℕ, zero, suc, ◌+◌, ◌≤◌, ◌<◌, ◌≡◌, refl, sym, ◌∙◌, inl, inr, true, false, some, arith, ◌==◌,
  if◌then◌else◌, Bool-cases, lt→ltb,
}
use basic_btfs.Btfs.Disk.{max_keys, Entry, Node, entry_at, Store, Disk, done, with_cached}
use basic_btfs.Btfs.Btree.Search.{scan_up, child_index, lookup}
use basic_btfs.Btfs.Cache.{cached_entry_at, node_cache_lookup}

-- The cached nodes under an address are copies of the nodes on disk under a block, down to the
-- leaves: the same keys, with addresses for blocks. No node is full.
pub data IsCopy (s c : Store) : ℕ → ℕ → ℕ → Type 0 where
  copy_leaf :
      {b a : ℕ} (n m : Node)
      → s b ≡ some n
      → c a ≡ some m
      → m.entries ≡ n.entries
      → m.nr_of_keys ≡ n.nr_of_keys
      → n.nr_of_keys < max_keys
      → n.leaf ≡ true
      → m.leaf ≡ true
      → IsCopy s c zero b a
  copy_inner :
      {h b a : ℕ} (n m : Node)
      → s b ≡ some n
      → c a ≡ some m
      → m.entries ≡ n.entries
      → m.nr_of_keys ≡ n.nr_of_keys
      → n.nr_of_keys < max_keys
      → n.leaf ≡ false
      → m.leaf ≡ false
      → ((i : ℕ) → i ≤ n.nr_of_keys → IsCopy s c h (n.children i) (m.children i))
      → IsCopy s c (suc h) b a

scan_up-le :
    (rounds : ℕ) (entries : ℕ → Entry) (hash index : ℕ)
    → scan_up rounds entries hash index ≤ index + rounds
unfolding scan_up
scan_up-le zero entries hash index = omega arith
scan_up-le (suc rounds) entries hash index =
    ground (arith, scan_up-le rounds entries hash (index + 1))

-- Below a full node both ways to read an entry are reads of the array.
scan_up-entry_at :
    (n : Node) (rounds hash index : ℕ)
    → index + rounds ≤ max_keys
    → scan_up rounds (entry_at n) hash index ≡ scan_up rounds n.entries hash index
unfolding scan_up entry_at
scan_up-entry_at n zero hash index le = refl
scan_up-entry_at n (suc rounds) hash index le =
    ground (arith, scan_up-entry_at n rounds hash (index + 1) (omega arith))

module _ (n m : Node) (hash : ℕ) (same : m.entries ≡ n.entries)
    (count : m.nr_of_keys ≡ n.nr_of_keys) (room : n.nr_of_keys < max_keys) where
  abbrev stop : ℕ
  stop = scan_up m.nr_of_keys m.entries hash 0

  stop-eq-child_index : stop ≡ child_index n hash
  unfolding child_index
  stop-eq-child_index =
      rw (same, count) (sym (scan_up-entry_at n n.nr_of_keys hash 0 (omega arith)))

  stop-le : child_index n hash ≤ n.nr_of_keys
  stop-le =
      rw (← stop-eq-child_index) (omega (arith, scan_up-le m.nr_of_keys m.entries hash 0, count))

  same_entry : cached_entry_at m stop ≡ entry_at n (child_index n hash)
  unfolding cached_entry_at entry_at
  same_entry =
      let lt = lt→ltb (child_index n hash) max_keys (omega (arith, stop-le)) in
      rw (stop-eq-child_index, lt, same) refl

  node_cache_lookup_step :
      (fuel a : ℕ) (d : Disk)
      → d.cached a ≡ some m
      → node_cache_lookup (suc fuel) a hash d
        ≡ (if (entry_at n (child_index n hash)).hash == hash
              then done (entry_at n (child_index n hash)).ino
              else if m.leaf
              then done 0
              else node_cache_lookup fuel (m.children (child_index n hash)) hash)
            d
  unfolding node_cache_lookup
  node_cache_lookup_step fuel a d at =
      rw (node_cache_lookup, with_cached, at) (rw (same_entry, stop-eq-child_index) refl)

  lookup_step :
      (fuel b : ℕ) (s : Store)
      → s b ≡ some n
      → lookup (suc fuel) s b hash ≡ (
          if (entry_at n (child_index n hash)).hash == hash
          then some (entry_at n (child_index n hash)).ino
          else if n.leaf
          then some 0
          else lookup fuel s (n.children (child_index n hash)) hash)
  unfolding lookup
  lookup_step fuel b s at = rw (lookup, at) refl

-- With fuel above the height, where the cached nodes under an address are copies of the tree under
-- a block, none of them full, the look-up in the cache and the look-up in the tree give the same
-- answer, whatever the hash.
pub node_cache_lookup_lem :
    (fuel : ℕ) (h b a hash : ℕ) (d : Disk)
    → IsCopy d.node d.cached h b a
    → h < fuel
    → (ino : ℕ) × (lookup fuel d.node b hash ≡ some ino)
      × (node_cache_lookup fuel a hash d ≡ done ino d)
node_cache_lookup_lem zero h b a hash d copy lt = absurd (omega arith)
node_cache_lookup_lem (suc fuel) zero b a hash d
      (copy_leaf n m at at' same count room isleaf isleaf') lt =
    let one = lookup_step n m hash same count room fuel b d.node at in
    let two = node_cache_lookup_step n m hash same count room fuel a d at' in
    elim (Bool-cases ((entry_at n (child_index n hash)).hash == hash)) [
      | inl e ↦ ((entry_at n (child_index n hash)).ino, one ∙ rw e refl, two ∙ rw e refl)
      | inr ne ↦ (0, one ∙ rw (ne, isleaf) refl, two ∙ rw (ne, isleaf') refl)
    ]
node_cache_lookup_lem (suc fuel) (suc h) b a hash d
      (copy_inner n m at at' same count room isinner isinner' sub) lt =
    let k = child_index n hash in
    let one = lookup_step n m hash same count room fuel b d.node at in
    let two = node_cache_lookup_step n m hash same count room fuel a d at' in
    let (ino, left, right) =
      node_cache_lookup_lem fuel h (n.children k) (m.children k) hash d
        (sub k (stop-le n m hash same count room)) (omega arith) in
    elim (Bool-cases ((entry_at n k).hash == hash)) [
      | inl e ↦ ((entry_at n k).ino, one ∙ rw e refl, two ∙ rw e refl)
      | inr ne ↦ (
        ino,
        one ∙ rw ne (ground (arith, isinner, left)),
        two ∙ rw ne (ground (arith, isinner', right)),
      )
    ]
