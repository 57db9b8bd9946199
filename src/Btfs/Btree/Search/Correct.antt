-- ===== src/Btfs/Btree/Search/Correct.antt =====
-- `basicbtfs_btree_node_lookup` in a search tree.
use basic_btfs.Prelude.{
  ℕ, zero, suc, ◌≤◌, ◌<◌, ◌≡◌, ◌≢◌, refl, true, false, some, arith, ltb, Bool-cases, inl, inr, sym,
  ◌∙◌, ap, ltb→lt, ltb→le,
}
use basic_btfs.Btfs.Disk.{Entry, Node, entry_at, Store}
use basic_btfs.Btfs.Btree.Shape.{
  key, IsNode, low_of, high_of, IsTree, leaf, inner, Holds, here, under, holds_in, key_lt_low,
  Holds-bounds,
}
use basic_btfs.Btfs.Btree.Search.{child_index, lookup}
use basic_btfs.Btfs.Btree.Search.Scan.{child_index-IsScan, entry_at-key}

-- The slot behind the last key does not read as the hash.
abbrev pub NoStale : ℕ → Node → Type 0
NoStale hash n = (entry_at n n.nr_of_keys).hash ≢ hash

module _ {n : Node} {lo hi : ℕ} (v : IsNode n lo hi) (hash : ℕ) where
  -- The search stops at the key with the hash.
  child_index_at : (i : ℕ) → i < n.nr_of_keys → key n i ≡ hash → child_index n hash ≡ i
  child_index_at i lt at =
      let scan = child_index-IsScan v hash in
      let k = child_index n hash in
      ground (arith, scan.smaller i, scan.first, scan.stops, v.sorted k i)

  -- It stops at the child between whose bounds the hash lies.
  child_index_under :
      (i : ℕ)
      → i ≤ n.nr_of_keys
      → low_of n lo i ≤ hash
      → hash < high_of n hi i
      → child_index n hash ≡ i
  child_index_under i le above below =
      let scan = child_index-IsScan v hash in
      let k = child_index n hash in
      ground (arith, scan.smaller i, scan.first, scan.stops, key_lt_low v i k)

-- One call of `lookup` at a block that holds `n`, by what the slot at the index says.
module _ (s : Store) (b : ℕ) {n : Node} (eq : s b ≡ some n) (hash fuel : ℕ) where
  pub lookup_hit :
      (entry_at n (child_index n hash)).hash ≡ hash
      → lookup (suc fuel) s b hash ≡ some (entry_at n (child_index n hash)).ino
  unfolding lookup
  lookup_hit at = ground arith

  lookup_leaf :
      (entry_at n (child_index n hash)).hash ≢ hash
      → n.leaf ≡ true
      → lookup (suc fuel) s b hash ≡ some 0
  unfolding lookup
  lookup_leaf ne isleaf = ground arith

  lookup_down :
      (entry_at n (child_index n hash)).hash ≢ hash
      → n.leaf ≡ false
      → lookup (suc fuel) s b hash ≡ lookup fuel s (n.children (child_index n hash)) hash
  unfolding lookup
  lookup_down ne isinner = ground arith

  -- The hash of a key of the node.
  lookup_key :
      {lo hi : ℕ} {e : Entry}
      → IsNode n lo hi
      → (i : ℕ) → i < n.nr_of_keys
      → n.entries i ≡ e
      → e.hash ≡ hash
      → lookup (suc fuel) s b hash ≡ some e.ino
  unfolding entry_at
  lookup_key v i lt at eh =
      let ci = child_index_at v hash i lt (ap (λ (x : Entry). x.hash) at ∙ eh) in
      let same : entry_at n i ≡ n.entries i = ground (arith, v.size) in
      let hit = lookup_hit (rw (ci, same, at) eh) in rw (ci, same, at) at hit

module _ {n : Node} {lo hi hash : ℕ} (v : IsNode n lo hi) (clean : NoStale hash n) where
  -- The slot at a child under which the hash belongs is another's, or the one behind the last key.
  slot_ne : (i : ℕ) → i ≤ n.nr_of_keys → hash < high_of n hi i → (entry_at n i).hash ≢ hash
  slot_ne i le lt e = elim (Bool-cases (ltb i n.nr_of_keys)) [
    | inl p ↦ ground (arith, entry_at-key v hash i)
    | inr p ↦
        let last : i ≡ n.nr_of_keys = omega (arith, ltb→le i n.nr_of_keys p) in
        absurd (clean (rw last at e))
  ]

  -- The slot where the search stops is no hit, if the node is at a block that holds no such entry.
  slot_absent :
      {s : Store} {b : ℕ}
      → s b ≡ some n
      → ((e : Entry) → Holds s e b → e.hash ≢ hash)
      → (entry_at n (child_index n hash)).hash ≢ hash
  slot_absent eq absent e =
      let k = child_index n hash in
      let le = (child_index-IsScan v hash).stops in
      elim (Bool-cases (ltb k n.nr_of_keys)) [
        | inl p ↦
            let lt = ltb→lt k n.nr_of_keys p in
            absent (n.entries k) (here n k eq lt refl) (sym (entry_at-key v hash k lt) ∙ e)
        | inr p ↦
            let last : k ≡ n.nr_of_keys = omega (arith, ltb→le k n.nr_of_keys p) in
            absurd (clean (rw last at e))
      ]

module _ {s : Store} {hash : ℕ} where
  -- In a search tree whose nodes have no stale slot that reads as the hash, the look-up with fuel
  -- above the height answers the inode number of an entry that the tree holds under that hash.
  pub lookup-Holds :
      (fuel : ℕ) {h b lo hi : ℕ} {e : Entry}
      → IsTree (NoStale hash) s h b lo hi
      → h < fuel
      → Holds s e b
      → e.hash ≡ hash
      → lookup fuel s b hash ≡ some e.ino
  lookup-Holds zero t enough holds eh = absurd (omega arith)
  lookup-Holds (suc fuel) {b} (leaf n eq isleaf clean v) enough holds eh =
      elim (holds_in n eq holds) [
        | inl (i, lt, at) ↦ lookup_key s b eq hash fuel v i lt at eh
        | inr (i, isinner, _, _) ↦ absurd (cc)
      ]
  lookup-Holds (suc fuel) {b} (inner n eq isinner clean v sub) enough holds eh =
      elim (holds_in n eq holds) [
        | inl (i, lt, at) ↦ lookup_key s b eq hash fuel v i lt at eh
        | inr (i, _, le, rest) ↦
            let ih = lookup-Holds fuel (sub i le) (omega arith) rest eh in
            let bounds = Holds-bounds (sub i le) rest in
            let ci = child_index_under v hash i le (omega arith) (omega arith) in
            let ne = slot_ne v clean i le (omega arith) in
            rw (lookup_down s b eq hash fuel (rw ci ne) isinner, ci) ih
      ]

  -- In a search tree whose nodes have no stale slot that reads as the hash, and that holds no
  -- entry under the hash, the look-up with fuel above the height answers 0.
  pub lookup_absent :
      (fuel : ℕ) {h b lo hi : ℕ}
      → IsTree (NoStale hash) s h b lo hi
      → h < fuel
      → ((e : Entry) → Holds s e b → e.hash ≢ hash)
      → lookup fuel s b hash ≡ some 0
  lookup_absent zero t enough absent = absurd (omega arith)
  lookup_absent (suc fuel) {b} (leaf n eq isleaf clean v) enough absent =
      lookup_leaf s b eq hash fuel (slot_absent v clean eq absent) isleaf
  lookup_absent (suc fuel) {b} (inner n eq isinner clean v sub) enough absent =
      let k = child_index n hash in
      let le = (child_index-IsScan v hash).stops in
      lookup_down s b eq hash fuel (slot_absent v clean eq absent) isinner
      ∙ lookup_absent fuel (sub k le) (omega arith) λ e h. absent e (under n k eq isinner le h)
