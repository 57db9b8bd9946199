-- ===== src/Btfs/Btree/Insert/Correct.antt =====
-- `basicbtfs_btree_insert_non_full` in a search tree.
use basic_btfs.Prelude.{
  ℕ, zero, suc, ◌+◌, ◌≤◌, ◌<◌, ◌≡◌, ◌≢◌, refl, true, false, some, inl, inr, arith, ltb, ◌==◌, ◌||◌,
  Bool-cases, ==→eq, ==→ne,
}
use basic_btfs.Kernel.{Bits, BitmapApi, IsBitmapApi}
use basic_btfs.Btfs.Disk.{max_keys, Entry, Node, Disk, success, done, put_node}
use basic_btfs.Btfs.Btree.Shape.{low_of, high_of, Holds, here, under}
use basic_btfs.Btfs.Btree.Owned.{IsOwned, owned_leaf, owned_inner, owned_root}
use basic_btfs.Btfs.Btree.Insert.{insert_non_full, split_parent, split_rhs}
use basic_btfs.Btfs.Btree.Insert.Leaf.{insert_leaf}
use basic_btfs.Btfs.Btree.Insert.Nodes.{split_lhs, middle, children-split_parent, nr-split_rhs}
use basic_btfs.Btfs.Btree.Insert.Supply.{IsReady, free}
use basic_btfs.Btfs.Btree.Insert.SplitTree.{IsSplitTree, split_tree}
use basic_btfs.Btfs.Btree.Insert.Whole.{IsInserted, same_node, leaf-IsInserted}
use basic_btfs.Btfs.Btree.Insert.Descent.{
  scan_down-IsDown, HasRoom, Works, descend, after_split_tree, one_more, low_down, high_down, down,
  insert_plain, insert_split, half, half-le, half_bounds,
}

tree_name_bno-split :
    (n : Node) (k r : ℕ) (mid : Entry) → (split_parent n k r mid).tree_name_bno ≡ n.tree_name_bno
unfolding split_parent
tree_name_bno-split n k r mid = refl

-- Either half has room.
half-HasRoom :
    (d : Disk) (n cn : Node) (b k r : ℕ) (e : Entry)
    → k ≤ n.nr_of_keys
    → d.node (n.children k) ≡ some (split_lhs cn)
    → d.node r ≡ some (split_rhs cn b)
    → let new = split_parent n k r (middle cn) in HasRoom d (new.children (half new k e))
half-HasRoom d n cn b k r e le at_c at_r m at =
    let new = split_parent n k r (middle cn) in
    elim (Bool-cases (ltb (new.entries k).hash e.hash)) [
      | inl q ↦
          let c : new.children (half new k e) ≡ r =
            ground (arith, children-split_parent n k r (middle cn) le (k + 1)) in
          let is : m ≡ split_rhs cn b = same_node at_r (rw c at at) in
          rw is (omega (arith, nr-split_rhs cn b))
      | inr q ↦
          let c : new.children (half new k e) ≡ n.children k =
            ground (arith, children-split_parent n k r (middle cn) le k) in
          let is : m ≡ split_lhs cn = same_node at_c (rw c at at) in rw is (omega arith)
    ]

module _ (api : BitmapApi) (law : IsBitmapApi api) (fuel : ℕ) where
  Works-leaf : Works api (suc fuel) 0
  unfolding Works
  Works-leaf d blocks b lo hi e ready enough (owned_leaf n eq isleaf v mine) used room bounds
        absent =
      let (n', run, isleaf', list, v', has, keeps, only) =
        insert_leaf api d b fuel n lo hi e eq isleaf v (room n eq) bounds
          (λ x k. let (i, lt, is) = k in absent x (here n i eq lt is)) in
      (
        put_node b n' d,
        blocks,
        run,
        leaf-IsInserted n n' eq isleaf isleaf' list v' mine used ready has keeps only,
      )

  module _ (h : ℕ) (rec : Works api fuel h) where
    -- Behind the split of the child where the hash belongs.
    works_split :
        (d d1 : Disk) (blocks : Bits) (b r lo hi k : ℕ) (e : Entry) (n cn : Node)
        → suc h ≤ free d
        → ((x : ℕ) → blocks x ≡ true → d.sbi.s_bfree_bitmap x ≡ true)
        → d.node b ≡ some n
        → n.leaf ≡ false
        → k ≤ n.nr_of_keys
        → d.node (n.children k) ≡ some cn
        → cn.nr_of_keys ≡ max_keys
        → (low_of n lo k ≤ e.hash) × (e.hash < high_of n hi k)
        → ((x : Entry) → Holds d.node x b → x.hash ≢ e.hash)
        → d1.node b ≡ some (split_parent n k r (middle cn))
        → d1.node (n.children k) ≡ some (split_lhs cn)
        → d1.node r ≡ some (split_rhs cn b)
        → IsSplitTree d d1 blocks b r h lo hi
        → let new = split_parent n k r (middle cn) in
          let child = new.children (half new k e) in
          (d' : Disk) × (own : Bits) × (insert_non_full api fuel child e d1 ≡ done success d')
          × IsInserted d d' blocks own (suc h) (suc h) b lo hi e
    works_split d d1 blocks b r lo hi k e n cn enough used eq isinner le eqc full bounds absent at_b
          at_c at_r s =
        let mid = middle cn in
        let other : mid.hash ≢ e.hash =
          absent mid (under n k eq isinner le (here cn 79 eqc (omega arith) refl)) in
        let (d', own, run, i) =
          descend api fuel h rec d1 (λ x. blocks x || (x == r)) b lo hi
            (half (split_parent n k r mid) k e) e (split_parent n k r mid) s.ready
            (omega (arith, s.taken)) s.tree (λ x q. ground (arith, used x, s.bits x)) at_b
            (half-le n k r lo hi mid e le bounds other) (half-HasRoom d1 n cn b k r e le at_c at_r)
            (half_bounds n k r lo hi mid e le bounds other)
            (λ x holds. absent x (s.held x holds)) in
        (
          d',
          own,
          run,
          after_split_tree d d1 d' used s i (split_parent n k r mid) at_b λ m at_m.
              let same : m ≡ n = same_node eq at_m in rw same (tree_name_bno-split n k r mid),
        )

    Works-inner : Works api (suc fuel) (suc h)
    unfolding Works
    Works-inner d blocks b lo hi e ready enough (owned_inner n parts eq isinner v mine p sub) used
          room bounds absent =
        let tree = owned_inner n parts eq isinner v mine p sub in
        let k = down n e in
        let is = scan_down-IsDown n.nr_of_keys n.entries e.hash in
        let le : k ≤ n.nr_of_keys = is.stop in
        let other = λ (j : ℕ) (lt : j < n.nr_of_keys). absent (n.entries j) (here n j eq lt refl) in
        let bounds' : (low_of n lo k ≤ e.hash) × (e.hash < high_of n hi k) =
          (low_down n lo hi e bounds other k is, high_down n lo hi e bounds other k is) in
        let (_, (cn, eqc, vc)) = owned_root (sub k le) in
        elim (Bool-cases (cn.nr_of_keys == max_keys)) [
          | inr q ↦
              let ne = ==→ne _ max_keys q in
              let (d', own, run, i) =
                descend api fuel h rec d blocks b lo hi k e n ready (omega arith) tree used eq le
                  (λ m at. rw (same_node eqc at) (omega (arith, vc.size))) bounds' absent in
              (d', own, insert_plain api fuel b e d d' n cn eq isinner eqc ne run, one_more i)
          | inl q ↦
              let full = ==→eq _ max_keys q in
              let (d1, r, cut, at_b, at_c, at_r, s) =
                split_tree api law d blocks b lo hi h k n cn ready (omega arith) tree used eq le
                  (room n eq) eqc full in
              let (d', own, run, i) =
                works_split d d1 blocks b r lo hi k e n cn enough used eq isinner le eqc full
                  bounds' absent at_b at_c at_r s in
              (
                d',
                own,
                insert_split api fuel b e d d' n cn eq isinner d1 (split_parent n k r (middle cn))
                    eqc full cut at_b run,
                i,
              )
        ]

works : (api : BitmapApi) (law : IsBitmapApi api) (fuel h : ℕ) → h < fuel → Works api fuel h
works api law zero h lt = absurd (omega arith)
works api law (suc fuel) zero lt = Works-leaf api law fuel
works api law (suc fuel) (suc h) lt =
    Works-inner api law fuel h (works api law fuel h (omega arith))

-- Inserting under a hash that a tree does not hold, between the bounds of the tree, with fuel above
-- its height, at least as many free blocks as it is high, and a root that is not full, succeeds in
-- a state where the number of blocks fits 32 bits, block 0 is in use, every block can be read, and
-- the tree's blocks are in use and not shared. What is left is a tree in order of the same height
-- with the same properties and the same list of names, that holds what it held and the new entry.
-- No block in use outside the tree is written, and no more blocks are taken than the tree is high.
pub insert_non_full_lem :
    (api : BitmapApi) (law : IsBitmapApi api) (fuel h : ℕ) (d : Disk) (blocks : Bits) (b lo hi : ℕ)
    (e : Entry)
    → h < fuel
    → IsReady d
    → h ≤ free d
    → IsOwned d.node blocks h b lo hi
    → ((x : ℕ) → blocks x ≡ true → d.sbi.s_bfree_bitmap x ≡ true)
    → HasRoom d b
    → (lo ≤ e.hash) × (e.hash < hi)
    → ((x : Entry) → Holds d.node x b → x.hash ≢ e.hash)
    → (d' : Disk) × (own : Bits) × (insert_non_full api fuel b e d ≡ done success d')
      × IsInserted d d' blocks own h h b lo hi e
unfolding Works
insert_non_full_lem api law fuel h d blocks b lo hi e lt =
    works api law fuel h lt d blocks b lo hi e
