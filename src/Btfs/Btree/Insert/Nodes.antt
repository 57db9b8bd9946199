-- ===== src/Btfs/Btree/Insert/Nodes.antt =====
-- The nodes that a split leaves, slot by slot, and the order of their keys.
use basic_btfs.Prelude.{
  ℕ, ◌+◌, ◌-◌, ◌≤◌, ◌<◌, ◌≡◌, refl, false, arith, ltb, leb, ◌==◌, ◌&&◌, if◌then◌else◌, update,
  shift_up_at, copy_range_at,
}
use basic_btfs.Btfs.Disk.{min_degree, max_keys, Entry, Node, zero_node}
use basic_btfs.Btfs.Btree.Shape.{key, IsNode, low_of, high_of, key_lt_low, low_of-ge, high_of-le}
use basic_btfs.Btfs.Btree.Insert.{node_init, split_rhs, split_parent}

-- The left half: the old child cut down.
abbrev pub split_lhs : Node → Node
split_lhs lhs = record lhs { nr_of_keys = min_degree - 1 }

abbrev pub middle : Node → Entry
middle lhs = lhs.entries (min_degree - 1)

module _ (lhs : Node) (par : ℕ) where
  pub entries-split_rhs :
      (j : ℕ) → j < min_degree - 1 → (split_rhs lhs par).entries j ≡ lhs.entries (j + min_degree)
  unfolding split_rhs node_init
  entries-split_rhs j p =
      ground (arith, copy_range_at (min_degree - 1) 0 0 min_degree lhs.entries zero_node.entries j)

  pub children-split_rhs :
      (j : ℕ)
      → lhs.leaf ≡ false
      → j < min_degree
      → (split_rhs lhs par).children j ≡ lhs.children (j + min_degree)
  unfolding split_rhs node_init
  children-split_rhs j inner p =
      ground (arith, copy_range_at min_degree 0 0 min_degree lhs.children zero_node.children j)

  pub nr-split_rhs : (split_rhs lhs par).nr_of_keys ≡ 79
  unfolding split_rhs node_init
  nr-split_rhs = refl

module _ {lhs : Node} {lo hi : ℕ} (v : IsNode lhs lo hi) (full : lhs.nr_of_keys ≡ max_keys) where
  -- The left half keeps the keys below the middle one.
  pub split_lhs-IsNode : IsNode (split_lhs lhs) lo (middle lhs).hash
  split_lhs-IsNode = record {
    size = omega arith;
    sorted = λ i j p q. v.sorted i j p (omega arith);
    above = λ i p. v.above i (omega arith);
    below = λ i p. v.sorted i 79 (omega arith) (omega arith);
  }

  -- The right half takes the keys above it.
  pub split_rhs-IsNode : (par : ℕ) → IsNode (split_rhs lhs par) ((middle lhs).hash + 1) hi
  split_rhs-IsNode par = record {
    size = omega (arith, nr-split_rhs lhs par);
    sorted = λ i j p q. ground (
      arith,
      nr-split_rhs lhs par,
      entries-split_rhs lhs par i,
      entries-split_rhs lhs par j,
      v.sorted (i + min_degree) (j + min_degree),
    );
    above = λ i p. ground (
      arith,
      nr-split_rhs lhs par,
      entries-split_rhs lhs par i,
      v.sorted (min_degree - 1) (i + min_degree),
    );
    below = λ i p.
        ground (arith, nr-split_rhs lhs par, entries-split_rhs lhs par i, v.below (i + min_degree));
  }

module _ (par : Node) (index rhs : ℕ) (mid : Entry) (le : index ≤ par.nr_of_keys) where
  pub entries-split_parent :
      (j : ℕ)
      → (split_parent par index rhs mid).entries j ≡ (
          if j == index
          then mid
          else if ltb index j && leb j par.nr_of_keys
          then par.entries (j - 1)
          else par.entries j)
  unfolding split_parent update
  entries-split_parent j = ground (arith, shift_up_at (par.nr_of_keys - index) index par.entries j)

  pub children-split_parent :
      (j : ℕ)
      → (split_parent par index rhs mid).children j ≡ (
          if j == index + 1
          then rhs
          else if ltb (index + 1) j && leb j (par.nr_of_keys + 1)
          then par.children (j - 1)
          else par.children j)
  unfolding split_parent update
  children-split_parent j =
      ground (arith, shift_up_at (par.nr_of_keys - index) (index + 1) par.children j)

  pub nr-split_parent : (split_parent par index rhs mid).nr_of_keys ≡ par.nr_of_keys + 1
  unfolding split_parent
  nr-split_parent = refl

module _ {par : Node} {lo hi : ℕ} (index rhs : ℕ) (mid : Entry) (v : IsNode par lo hi)
    (le : index ≤ par.nr_of_keys) (room : par.nr_of_keys < max_keys)
    (above : low_of par lo index ≤ mid.hash) (below : mid.hash < high_of par hi index) where
  key_lt_mid : (j : ℕ) → j < index → key par j < mid.hash
  key_lt_mid j p = omega (arith, key_lt_low v index j p le)

  mid_lt_key : (j : ℕ) → index ≤ j → j < par.nr_of_keys → mid.hash < key par j
  mid_lt_key j p q = ground (arith, v.sorted index j)

  -- The parent with the middle entry is in order.
  pub split_parent-IsNode : IsNode (split_parent par index rhs mid) lo hi
  split_parent-IsNode = record {
    size = omega (arith, nr-split_parent par index rhs mid le);
    sorted = λ i j p q. ground (
      arith,
      nr-split_parent par index rhs mid le,
      entries-split_parent par index rhs mid le i,
      entries-split_parent par index rhs mid le j,
      key_lt_mid i,
      mid_lt_key (j - 1),
      v.sorted i j,
      v.sorted i (j - 1),
      v.sorted (i - 1) (j - 1),
    );
    above = λ j p. ground (
      arith,
      nr-split_parent par index rhs mid le,
      entries-split_parent par index rhs mid le j,
      v.above j,
      v.above (j - 1),
      low_of-ge v index le,
    );
    below = λ j p. ground (
      arith,
      nr-split_parent par index rhs mid le,
      entries-split_parent par index rhs mid le j,
      v.below j,
      v.below (j - 1),
      high_of-le v index,
    );
  }
