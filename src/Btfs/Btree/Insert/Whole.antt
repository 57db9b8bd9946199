-- ===== src/Btfs/Btree/Insert/Whole.antt =====
-- Insertion into a tree whose root has room: the whole descent of
-- `basicbtfs_btree_insert_non_full`.
use basic_btfs.Prelude.{
  Option, ℕ, suc, ◌+◌, ◌≤◌, ◌≡◌, refl, ◌∙◌, true, false, some, inl, inr, arith, ◌==◌, ◌||◌, ◌⊎◌,
  Bool-cases, update, update_self, update_ne,
}
use basic_btfs.Kernel.{Bits}
use basic_btfs.Btfs.Disk.{Entry, Node, Disk, put_node}
use basic_btfs.Btfs.Btree.Shape.{IsNode, low_of, high_of, Holds, here, under, holds_in}
use basic_btfs.Btfs.Btree.Remove.Leaf.{In}
use basic_btfs.Btfs.Btree.Owned.{
  IsParts, IsOwned, owned_leaf, child_changed-IsOwned, child_changed-Holds, Holds-child_changed,
}
use basic_btfs.Btfs.Btree.Insert.Supply.{IsReady, free}

-- The insertion of `e` under `b` took the state `d` to `d'`: there is a tree again, which holds
-- what it held and `e`; it stands in the blocks `own`, which are old blocks of the tree or were
-- free. At most `c` blocks were taken, and no other block in use was written.
pub record IsInserted (d d' : Disk) (blocks own : Bits) (c h b lo hi : ℕ) (e : Entry) : Type 0 where
  pub tree : IsOwned d'.node own h b lo hi
  pub old_or_free : (x : ℕ) → own x ≡ true → (blocks x ≡ true) ⊎ (d.sbi.s_bfree_bitmap x ≡ false)
  pub in_use : (x : ℕ) → own x ≡ true → d'.sbi.s_bfree_bitmap x ≡ true
  pub kept_use : (x : ℕ) → d.sbi.s_bfree_bitmap x ≡ true → d'.sbi.s_bfree_bitmap x ≡ true
  pub others : (x : ℕ) → blocks x ≡ false → d.sbi.s_bfree_bitmap x ≡ true → d'.node x ≡ d.node x
  pub ready : IsReady d'
  pub taken : free d ≤ free d' + c
  pub holds_new : Holds d'.node e b
  pub holds_old : (x : Entry) → Holds d.node x b → Holds d'.node x b
  pub holds_only : (x : Entry) → Holds d'.node x b → Holds d.node x b ⊎ (x ≡ e)
  pub same_list :
      (n n' : Node) → d.node b ≡ some n → d'.node b ≡ some n' → n'.tree_name_bno ≡ n.tree_name_bno

pub same_node : {n m : Node} {o : Option Node} → o ≡ some n → o ≡ some m → m ≡ n
same_node p q = cc

pub put_node-IsReady : (d : Disk) (b : ℕ) (n : Node) → IsReady d → IsReady (put_node b n d)
unfolding put_node update
put_node-IsReady d b n ready = record {
  small = ready.small;
  first = ready.first;
  reads = λ x lt. elim (Bool-cases (x == b)) [
    | inl e ↦ (n, rw e refl)
    | inr ne ↦ let (m, at) = ready.reads x lt in (m, rw ne at)
  ];
}

module _ {d : Disk} {b lo hi : ℕ} {e : Entry} {blocks : Bits} where
  -- At a leaf.
  pub leaf-IsInserted :
      (n n' : Node)
      → d.node b ≡ some n
      → n.leaf ≡ true
      → n'.leaf ≡ true
      → n'.tree_name_bno ≡ n.tree_name_bno
      → IsNode n' lo hi
      → blocks b ≡ true
      → ((x : ℕ) → blocks x ≡ true → d.sbi.s_bfree_bitmap x ≡ true)
      → IsReady d
      → In e n'
      → ((x : Entry) → In x n → In x n')
      → ((x : Entry) → In x n' → In x n ⊎ (x ≡ e))
      → IsInserted d (put_node b n' d) blocks blocks 0 0 b lo hi e
  unfolding put_node
  leaf-IsInserted n n' eq isleaf isleaf' list v mine used ready has keeps only =
      let at : (put_node b n' d).node b ≡ some n' = update_self d.node b (some n') in
      record {
        tree = owned_leaf n' at isleaf' v mine;
        old_or_free = λ x q. inl q;
        in_use = used;
        kept_use = λ x q. q;
        others = λ x q u. update_ne d.node b x (some n') λ same. ground arith;
        ready = put_node-IsReady d b n' ready;
        taken = omega arith;
        holds_new = let (i, lt, is) = has in here n' i at lt is;
        holds_old = λ x holds. elim (holds_in n eq holds) [
          | inl k ↦ let (i, lt, is) = keeps x k in here n' i at lt is
          | inr (i, isinner, _, _) ↦ absurd (cc)
        ];
        holds_only = λ x holds. elim (holds_in n' at holds) [
          | inl k ↦ elim (only x k) [
            | inl (i, lt, is) ↦ inl (here n i eq lt is)
            | inr same ↦ inr same
          ]
          | inr (i, isinner, _, _) ↦ absurd (cc)
        ];
        same_list = λ m m' at_m at_m'.
            let one : m ≡ n = same_node eq at_m in
            let two : m' ≡ n' = same_node at at_m' in rw (one, two) list;
      }

  -- Below an inner node, in its child `k`.
  pub child-IsInserted :
      {d' : Disk} {own : Bits} {c h : ℕ} (n : Node) (parts : ℕ → Bits) (k : ℕ)
      → d.node b ≡ some n
      → n.leaf ≡ false
      → IsNode n lo hi
      → blocks b ≡ true
      → IsParts blocks b parts n.nr_of_keys
      → ((i : ℕ)
          → i ≤ n.nr_of_keys
          → IsOwned d.node (parts i) h (n.children i) (low_of n lo i) (high_of n hi i))
      → k ≤ n.nr_of_keys
      → ((x : ℕ) → blocks x ≡ true → d.sbi.s_bfree_bitmap x ≡ true)
      → IsInserted d d' (parts k) own c h (n.children k) (low_of n lo k) (high_of n hi k) e
      → IsInserted d d' blocks (λ x. blocks x || own x) c (suc h) b lo hi e
  child-IsInserted {d'} {own} n parts k eq isinner v mine p sub le used r =
      let same = λ (x : ℕ) (q : blocks x ≡ true) (o : parts k x ≡ false). r.others x o (used x q) in
      let fresh : (x : ℕ) → own x ≡ true → (parts k x ≡ true) ⊎ (blocks x ≡ false) =
        λ x q. elim (r.old_or_free x q) [ inl o ↦ inl o | inr o ↦ inr (ground (arith, used x)) ] in
      let at : d'.node b ≡ some n = same b mine (p.below k le) ∙ eq in
      record {
        tree = child_changed-IsOwned n parts k eq isinner v mine p sub le same fresh r.tree;
        old_or_free = λ x q. elim (Bool-cases (blocks x)) [
          | inl o ↦ inl o
          | inr o ↦ elim (r.old_or_free x (ground arith)) [
            | inl o' ↦ inl (p.within k x le o')
            | inr o' ↦ inr o'
          ]
        ];
        in_use = λ x q. ground (arith, r.in_use x, r.kept_use x, used x);
        kept_use = r.kept_use;
        others = λ x q u. r.others x (ground (arith, p.within k x le)) u;
        ready = r.ready;
        taken = r.taken;
        holds_new = under n k at isinner le r.holds_new;
        holds_old = λ x.
            child_changed-Holds n parts k eq isinner v mine p sub le same fresh x (r.holds_old x);
        holds_only = λ x.
            Holds-child_changed n parts k eq isinner v mine p sub le same fresh x (r.holds_only x);
        same_list = λ m m' at_m at_m'.
            let one : m ≡ n = same_node eq at_m in
            let two : m' ≡ n = same_node at at_m' in rw (one, two) refl;
      }
