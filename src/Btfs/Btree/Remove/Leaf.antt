-- ===== src/Btfs/Btree/Remove/Leaf.antt =====
-- Deletion of a key that stands in a leaf, and what a later look-up sees.
use basic_btfs.Prelude.{
  ℕ, suc, ◌+◌, ◌-◌, ◌≤◌, ◌<◌, ◌≡◌, ◌≢◌, true, some, arith, ltb, if◌then◌else◌, Bool-cases, inl, inr,
  sym, ◌∙◌, ap, ltb→lt, ltb→le, le→ltb, shift_down_at, update_self,
}
use basic_btfs.Kernel.{BitmapApi}
use basic_btfs.Btfs.Disk.{Entry, Node, entry_at, Disk, success, done, put_node}
use basic_btfs.Btfs.Btree.Shape.{key, IsNode}
use basic_btfs.Btfs.Btree.Search.{scan_up, child_index, lookup}
use basic_btfs.Btfs.Btree.Search.Scan.{scan_up-IsScan, child_index-IsScan, entry_at-key}
use basic_btfs.Btfs.Btree.Search.Correct.{lookup_hit}
use basic_btfs.Btfs.Btree.Delete.{find_key, drop_entry, remove_from_leaf}
use basic_btfs.Btfs.Btree.Remove.{delete, delete_here}

-- The entry stands in a key slot of the node.
abbrev pub In : Entry → Node → Type 0
In e n = (i : ℕ) × (i < n.nr_of_keys) × (n.entries i ≡ e)

module _ {n : Node} {lo hi : ℕ} (v : IsNode n lo hi) (i : ℕ) (lt : i < n.nr_of_keys) where
  nr-drop : (drop_entry n i).nr_of_keys ≡ n.nr_of_keys - 1
  unfolding drop_entry
  nr-drop = omega (arith, v.size)

  entries-drop :
      (j : ℕ)
      → j < n.nr_of_keys - 1
      → (drop_entry n i).entries j ≡ n.entries (if ltb j i then j else j + 1)
  unfolding drop_entry
  entries-drop j p = ground (arith, shift_down_at (n.nr_of_keys - i - 1) i n.entries j)

  -- The slots behind the shorter node keep what they had.
  entries-drop_rest : (j : ℕ) → n.nr_of_keys - 1 ≤ j → (drop_entry n i).entries j ≡ n.entries j
  unfolding drop_entry
  entries-drop_rest j p = ground (arith, shift_down_at (n.nr_of_keys - i - 1) i n.entries j)

  pub drop_entry-IsNode : IsNode (drop_entry n i) lo hi
  drop_entry-IsNode = record {
    size = omega (arith, nr-drop, v.size);
    sorted = λ j k p q. ground (
      arith,
      nr-drop,
      entries-drop j,
      entries-drop k,
      v.sorted j k,
      v.sorted j (k + 1),
      v.sorted (j + 1) (k + 1),
    );
    above = λ j p. ground (arith, nr-drop, entries-drop j, v.above j, v.above (j + 1));
    below = λ j p. ground (arith, nr-drop, entries-drop j, v.below j, v.below (j + 1));
  }

  find_key_at : scan_up n.nr_of_keys n.entries (key n i) 0 ≡ i
  find_key_at =
      let scan = scan_up-IsScan n.nr_of_keys n.entries (key n i) 0 n.nr_of_keys (omega arith) in
      let k = scan_up n.nr_of_keys n.entries (key n i) 0 in
      ground (arith, scan.smaller i, scan.first, scan.stops, v.sorted k i)

  module _ (api : BitmapApi) (d : Disk) (b fuel : ℕ) (eq : d.node b ≡ some n) where
    find_key-some : find_key b (key n i) d ≡ some i
    unfolding find_key
    find_key-some = ground (arith, find_key_at)

    remove_from_leaf-done : remove_from_leaf b i d ≡ done success (put_node b (drop_entry n i) d)
    unfolding remove_from_leaf
    remove_from_leaf-done = ground arith

    delete_leaf_key :
        n.leaf ≡ true
        → delete api (suc fuel) b (key n i) d ≡ done success (put_node b (drop_entry n i) d)
    unfolding delete delete_here
    delete_leaf_key isleaf =
        ground (arith, find_key-some, remove_from_leaf-done, entry_at-key v (key n i) i lt)

  In-drop : (e : Entry) → In e (drop_entry n i) → In e n × (e.hash ≢ key n i)
  In-drop e (j, p, at) =
      let p' : j < n.nr_of_keys - 1 = omega (arith, nr-drop) in
      let from = sym (entries-drop j p') ∙ at in
      elim (Bool-cases (ltb j i)) [
        | inl l ↦
            let old : n.entries j ≡ e = rw l at from in
            ((j, omega arith, old), ground (arith, v.sorted j i))
        | inr g ↦
            let old : n.entries (j + 1) ≡ e = rw g at from in
            ((j + 1, omega arith, old), ground (arith, v.sorted i (j + 1)))
      ]

  In-drop_other : (e : Entry) → In e n → e.hash ≢ key n i → In e (drop_entry n i)
  In-drop_other e (j, p, at) ne = elim (Bool-cases (ltb j i)) [
    | inl l ↦
        let lt' = ltb→lt j i l in
        (j, omega (arith, nr-drop), rw (entries-drop j (omega arith), l) at)
    | inr g ↦
        let ge = ltb→le j i g in
        let other : j ≢ i = λ e. ne (rw (sym at, e)) in
        let back : j - 1 + 1 ≡ j = omega arith in
        (
          j - 1,
          omega (arith, nr-drop),
          rw (entries-drop (j - 1) (omega arith), le→ltb (j - 1) i (omega arith), back) at,
        )
  ]

-- Deleting a hash that stands in a leaf, as key `i`, succeeds and writes that block alone: the leaf
-- is in order again, and holds the entries that it held less the one with the hash.
pub delete_leaf :
    (api : BitmapApi) (d : Disk) (b fuel : ℕ) (n : Node) (lo hi i : ℕ)
    → d.node b ≡ some n
    → n.leaf ≡ true
    → IsNode n lo hi
    → i < n.nr_of_keys
    → (n' : Node) × (delete api (suc fuel) b (key n i) d ≡ done success (put_node b n' d))
      × IsNode n' lo hi
      × ((e : Entry) → In e n' → In e n × (e.hash ≢ key n i))
      × ((e : Entry) → In e n → e.hash ≢ key n i → In e n')
delete_leaf api d b fuel n lo hi i eq isleaf v lt = (
  drop_entry n i,
  delete_leaf_key v i lt api d b fuel eq isleaf,
  drop_entry-IsNode v i lt,
  In-drop v i lt,
  In-drop_other v i lt,
)

-- The look-up compares the slot behind the last key without asking whether it is a key. So after
-- the largest key of a leaf has been deleted, the look-up still answers the inode number of the
-- deleted entry.
pub lookup-delete_last :
    (api : BitmapApi) (d d' : Disk) (b fuel m : ℕ) (n : Node) (lo hi : ℕ)
    → d.node b ≡ some n
    → n.leaf ≡ true
    → IsNode n lo hi
    → n.nr_of_keys ≡ suc m
    → delete api (suc fuel) b (key n m) d ≡ done success d'
    → lookup (suc fuel) d'.node b (key n m) ≡ some (n.entries m).ino
unfolding put_node entry_at
lookup-delete_last api d d' b fuel m n lo hi eq isleaf v last deleted =
    let lt : m < n.nr_of_keys = omega arith in
    let n' = drop_entry n m in
    let step = delete_leaf_key v m lt api d b fuel eq isleaf in
    let state : d' ≡ put_node b n' d = cc in
    let v' = drop_entry-IsNode v m lt in
    let nr = nr-drop v m lt in
    let k = child_index n' (key n m) in
    let scan = child_index-IsScan v' (key n m) in
    let stop : k ≡ m =
      ground (arith, scan.stops, scan.first, entries-drop v m lt k, v.sorted k m) in
    let slot : entry_at n' k ≡ n.entries m =
      rw stop (ground (arith, entries-drop_rest v m lt m, v.size)) in
    let held : (put_node b n' d).node b ≡ some n' = update_self d.node b (some n') in
    let hit =
      lookup_hit (put_node b n' d).node b held (key n m) fuel (ap (λ (x : Entry). x.hash) slot) in
    rw state (hit ∙ ap (λ (x : Entry). some x.ino) slot)
