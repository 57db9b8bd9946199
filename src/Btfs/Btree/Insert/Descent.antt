-- ===== src/Btfs/Btree/Insert/Descent.antt =====
-- The descent of `basicbtfs_btree_insert_non_full` through a tree, with the splits on the way.
use basic_btfs.Prelude.{
  ℕ, zero, suc, ◌+◌, ◌-◌, ◌≤◌, ◌<◌, ◌≡◌, ◌≢◌, refl, ◌∙◌, true, false, some, inl, inr, arith, ltb,
  ◌==◌, ◌||◌, if◌then◌else◌, Bool-cases, ltb→lt, ltb→le, ==→eq, ==→ne,
}
use basic_btfs.Kernel.{Bits, BitmapApi}
use basic_btfs.Btfs.Disk.{max_keys, Entry, Node, Disk, success, done}
use basic_btfs.Btfs.Btree.Shape.{key, IsNode, low_of, high_of, Holds, under}
use basic_btfs.Btfs.Btree.Owned.{IsParts, IsOwned, owned_inner}
use basic_btfs.Btfs.Btree.Insert.{split_parent, scan_down, insert_non_full, split_child}
use basic_btfs.Btfs.Btree.Insert.Nodes.{entries-split_parent, nr-split_parent}
use basic_btfs.Btfs.Btree.Insert.Supply.{IsReady, free}
use basic_btfs.Btfs.Btree.Insert.Parent.{low_split, high_split}
use basic_btfs.Btfs.Btree.Insert.SplitTree.{IsSplitTree}
use basic_btfs.Btfs.Btree.Insert.Whole.{IsInserted, child-IsInserted}

-- Where the loop over the keys of an inner node stops.
pub record IsDown (entries : ℕ → Entry) (nr hash k : ℕ) : Type 0 where
  pub stop : k ≤ nr
  pub kept : (j : ℕ) → suc j ≡ k → (entries j).hash ≤ hash
  pub passed : (j : ℕ) → k ≤ j → j < nr → hash < (entries j).hash

pub scan_down-IsDown :
    (nr : ℕ) (entries : ℕ → Entry) (hash : ℕ) → IsDown entries nr hash (scan_down nr entries hash)
unfolding scan_down
scan_down-IsDown zero entries hash = record {
  stop = omega arith;
  kept = λ j e. absurd (omega arith);
  passed = λ j l r. absurd (omega arith);
}
scan_down-IsDown (suc m) entries hash = elim (Bool-cases (ltb hash (entries m).hash)) [
  | inl h ↦
      let rest = scan_down-IsDown m entries hash in
      rw h (record {
        stop = omega (arith, rest.stop);
        kept = rest.kept;
        passed = λ j l r. elim (Bool-cases (j == m)) [
          | inl e ↦ rw (==→eq j m e) (ltb→lt _ _ h)
          | inr ne ↦ rest.passed j l (omega (arith, ==→ne j m ne))
        ];
      })
  | inr h ↦ rw h (record {
    stop = omega arith;
    kept = λ j e. ground (arith, ltb→le hash (entries m).hash);
    passed = λ j l r. absurd (omega arith);
  })
]

-- The tree has room at its root.
abbrev pub HasRoom : Disk → ℕ → Type 0
HasRoom d b = (n : Node) → d.node b ≡ some n → n.nr_of_keys < max_keys

-- What `insert_non_full` with some fuel does at trees of a height.
unfoldable pub Works : BitmapApi → ℕ → ℕ → Type 0
Works api fuel h =
    (d : Disk) (blocks : Bits) (b lo hi : ℕ) (e : Entry)
    → IsReady d
    → h ≤ free d
    → IsOwned d.node blocks h b lo hi
    → ((x : ℕ) → blocks x ≡ true → d.sbi.s_bfree_bitmap x ≡ true)
    → HasRoom d b
    → (lo ≤ e.hash) × (e.hash < hi)
    → ((x : Entry) → Holds d.node x b → x.hash ≢ e.hash)
    → (d' : Disk) × (own : Bits) × (insert_non_full api fuel b e d ≡ done success d')
      × IsInserted d d' blocks own h h b lo hi e

-- The descent into the child `k` of an inner node.
pub descend :
    (api : BitmapApi) (fuel h : ℕ)
    → Works api fuel h
    → (d : Disk) (blocks : Bits) (b lo hi k : ℕ) (e : Entry) (n : Node) → IsReady d
    → h ≤ free d
    → IsOwned d.node blocks (suc h) b lo hi
    → ((x : ℕ) → blocks x ≡ true → d.sbi.s_bfree_bitmap x ≡ true)
    → d.node b ≡ some n
    → k ≤ n.nr_of_keys
    → HasRoom d (n.children k)
    → (low_of n lo k ≤ e.hash) × (e.hash < high_of n hi k)
    → ((x : Entry) → Holds d.node x b → x.hash ≢ e.hash)
    → (d' : Disk) × (own : Bits) × (insert_non_full api fuel (n.children k) e d ≡ done success d')
      × IsInserted d d' blocks own h (suc h) b lo hi e
unfolding Works
descend api fuel h rec d blocks b lo hi k e n ready enough
      (owned_inner m parts eq' isinner v mine p sub) used eq le room bounds absent =
    let same : m ≡ n = cc in
    let v' : IsNode n lo hi = rw (← same) v in
    let p' : IsParts blocks b parts n.nr_of_keys = rw (← same) p in
    let sub' : (i : ℕ)
        → i ≤ n.nr_of_keys
        → IsOwned d.node (parts i) h (n.children i) (low_of n lo i) (high_of n hi i) =
      rw (← same) sub in
    let isinner' : n.leaf ≡ false = rw (← same) isinner in
    let (d', own, run, r) =
      rec d (parts k) (n.children k) (low_of n lo k) (high_of n hi k) e ready enough (sub' k le)
        (λ x q. used x (p'.within k x le q)) room bounds
        (λ x holds. absent x (under n k eq isinner' le holds)) in
    (
      d',
      λ x. blocks x || own x,
      run,
      child-IsInserted n parts k eq isinner' v' mine p' sub' le used r,
    )

-- A split and then an insertion.
pub after_split_tree :
    (d d1 d' : Disk) {blocks own : Bits} {b r h lo hi c : ℕ} {e : Entry}
    → ((x : ℕ) → blocks x ≡ true → d.sbi.s_bfree_bitmap x ≡ true)
    → IsSplitTree d d1 blocks b r h lo hi
    → IsInserted d1 d' (λ x. blocks x || (x == r)) own c (suc h) b lo hi e
    → (m : Node) → d1.node b ≡ some m
    → ((n : Node) → d.node b ≡ some n → m.tree_name_bno ≡ n.tree_name_bno)
    → IsInserted d d' blocks own (suc c) (suc h) b lo hi e
after_split_tree d d1 d' {r} used s i m at list = record {
  tree = i.tree;
  old_or_free = λ x q. elim (i.old_or_free x q) [
    | inl o ↦ ground (arith, s.was_free)
    | inr o ↦ inr (ground (arith, s.bits x))
  ];
  in_use = i.in_use;
  kept_use = λ x q. i.kept_use x (ground (arith, s.bits x));
  others = λ x q u.
      let ne : x ≢ r = λ same. ground (arith, s.was_free) in
      i.others x (ground arith) (ground (arith, s.bits x)) ∙ s.others x q ne;
  ready = i.ready;
  taken = omega (arith, i.taken, s.taken);
  holds_new = i.holds_new;
  holds_old = λ x q. i.holds_old x (s.holds x q);
  holds_only = λ x q. elim (i.holds_only x q) [ inl o ↦ inl (s.held x o) | inr o ↦ inr o ];
  same_list = λ n n' at_n at_n'. i.same_list m n' at at_n' ∙ list n at_n;
}

pub one_more :
    {d d' : Disk} {blocks own : Bits} {b h lo hi c : ℕ} {e : Entry}
    → IsInserted d d' blocks own c h b lo hi e
    → IsInserted d d' blocks own (suc c) h b lo hi e
one_more i = record {
  tree = i.tree;
  old_or_free = i.old_or_free;
  in_use = i.in_use;
  kept_use = i.kept_use;
  others = i.others;
  ready = i.ready;
  taken = omega (arith, i.taken);
  holds_new = i.holds_new;
  holds_old = i.holds_old;
  holds_only = i.holds_only;
  same_list = i.same_list;
}

-- The child that the loop finds is where the hash belongs.
module _ (n : Node) (lo hi : ℕ) (e : Entry) (bounds : (lo ≤ e.hash) × (e.hash < hi))
    (other : (j : ℕ) → j < n.nr_of_keys → key n j ≢ e.hash) where
  pub low_down : (k : ℕ) → IsDown n.entries n.nr_of_keys e.hash k → low_of n lo k ≤ e.hash
  low_down zero down = bounds.0
  low_down (suc j) down = omega (arith, down.kept j refl, other j (omega (arith, down.stop)))

  pub high_down : (k : ℕ) → IsDown n.entries n.nr_of_keys e.hash k → e.hash < high_of n hi k
  high_down k down = ground (arith, down.passed k, bounds.1)

abbrev pub down : Node → Entry → ℕ
down n e = scan_down n.nr_of_keys n.entries e.hash

module _ (api : BitmapApi) (fuel b : ℕ) (e : Entry) (d d' : Disk) (n cn : Node)
    (eq : d.node b ≡ some n) (isinner : n.leaf ≡ false) where
  pub insert_plain :
      d.node (n.children (down n e)) ≡ some cn
      → cn.nr_of_keys ≢ max_keys
      → insert_non_full api fuel (n.children (down n e)) e d ≡ done success d'
      → insert_non_full api (suc fuel) b e d ≡ done success d'
  unfolding insert_non_full
  insert_plain eqc ne run = ground arith

  pub insert_split :
      (d1 : Disk) (new : Node)
      → d.node (n.children (down n e)) ≡ some cn
      → cn.nr_of_keys ≡ max_keys
      → split_child api b (n.children (down n e)) (down n e) d ≡ done success d1
      → d1.node b ≡ some new
      → insert_non_full api fuel
          (new.children
            (if ltb (new.entries (down n e)).hash e.hash then (down n e) + 1 else (down n e)))
          e
          d1
        ≡ done success d'
      → insert_non_full api (suc fuel) b e d ≡ done success d'
  unfolding insert_non_full
  insert_split d1 new eqc full run eq1 run' = ground arith

-- The index of the half in which the code goes on behind a split.
abbrev pub half : Node → ℕ → Entry → ℕ
half new k e = if ltb (new.entries k).hash e.hash then k + 1 else k

-- Behind a split the hash belongs to one of the halves.
module _ (n : Node) (k r lo hi : ℕ) (mid e : Entry) (le : k ≤ n.nr_of_keys)
    (bounds : (low_of n lo k ≤ e.hash) × (e.hash < high_of n hi k))
    (other : mid.hash ≢ e.hash) where
  pub half-le : half (split_parent n k r mid) k e ≤ (split_parent n k r mid).nr_of_keys
  half-le = ground (arith, nr-split_parent n k r mid le)

  pub half_bounds :
      (low_of (split_parent n k r mid) lo (half (split_parent n k r mid) k e) ≤ e.hash)
      × (e.hash < high_of (split_parent n k r mid) hi (half (split_parent n k r mid) k e))
  half_bounds =
      let at : (split_parent n k r mid).entries k ≡ mid =
        ground (arith, entries-split_parent n k r mid le k) in
      let back : k + 1 - 1 ≡ k = omega arith in
      elim (Bool-cases (ltb mid.hash e.hash)) [
        | inl q ↦
            rw
              (
                at,
                q,
                low_split n k r mid le lo (k + 1) (omega arith),
                high_split n k r mid le hi (k + 1) (omega arith),
                back,
              )
              (ground arith)
        | inr q ↦
            rw
              (
                at,
                q,
                low_split n k r mid le lo k (omega arith),
                high_split n k r mid le hi k (omega arith),
              )
              (ground arith)
      ]
