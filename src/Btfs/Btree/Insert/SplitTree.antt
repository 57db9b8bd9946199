-- ===== src/Btfs/Btree/Insert/SplitTree.antt =====
-- A split of a full child in a tree, as a step from state to state.
use basic_btfs.Prelude.{
  ℕ, suc, ◌+◌, ◌≤◌, ◌<◌, ◌≡◌, ◌≢◌, refl, true, false, some, arith, ◌==◌, ◌||◌, if◌then◌else◌,
  update,
}
use basic_btfs.Kernel.{Bits, BitmapApi, IsBitmapApi}
use basic_btfs.Btfs.Super.{SbInfo}
use basic_btfs.Btfs.Disk.{max_keys, Entry, Node, Disk, success, done, put_node}
use basic_btfs.Btfs.Btree.Shape.{IsNode, low_of, high_of, Holds}
use basic_btfs.Btfs.Btree.Owned.{IsParts, IsOwned, owned_inner, owned_root}
use basic_btfs.Btfs.Btree.Insert.{split_rhs, split_parent, split_child}
use basic_btfs.Btfs.Btree.Insert.Nodes.{split_lhs, middle}
use basic_btfs.Btfs.Btree.Insert.Split.{after_split, split_child_run}
use basic_btfs.Btfs.Btree.Insert.Supply.{IsReady, free, IsTakenBlock, take_block}
use basic_btfs.Btfs.Btree.Insert.Halves.{owned-IsHalves}
use basic_btfs.Btfs.Btree.Insert.Parent.{split-IsOwned, Holds-split, split-Holds}
use basic_btfs.Btfs.Btree.Insert.Whole.{put_node-IsReady}

-- The tree in the state behind the split, which holds the same entries, in one more block.
pub record IsSplitTree (d d' : Disk) (blocks : Bits) (b r h lo hi : ℕ) : Type 0 where
  pub tree : IsOwned d'.node (λ x. blocks x || (x == r)) (suc h) b lo hi
  pub was_free : d.sbi.s_bfree_bitmap r ≡ false
  pub bits : (x : ℕ) → d'.sbi.s_bfree_bitmap x ≡ (if x == r then true else d.sbi.s_bfree_bitmap x)
  pub others : (x : ℕ) → blocks x ≡ false → x ≢ r → d'.node x ≡ d.node x
  pub ready : IsReady d'
  pub taken : free d' + 1 ≡ free d
  pub holds : (x : Entry) → Holds d.node x b → Holds d'.node x b
  pub held : (x : Entry) → Holds d'.node x b → Holds d.node x b

module _ (d : Disk) (sbi : SbInfo) (n cn old : Node) (b r k : ℕ)
    (apart : (b ≢ n.children k) × (b ≢ r) × (n.children k ≢ r)) where
  after : Disk
  after = after_split d sbi b (n.children k) r k n cn

  after_b : after.node b ≡ some (split_parent n k r (middle cn))
  unfolding after put_node update
  after_b = ground arith

  after_c : after.node (n.children k) ≡ some (split_lhs cn)
  unfolding after put_node update
  after_c = ground arith

  after_r : after.node r ≡ some (split_rhs cn b)
  unfolding after put_node update
  after_r = ground arith

  after_other : (x : ℕ) → x ≢ b → x ≢ n.children k → x ≢ r → after.node x ≡ d.node x
  unfolding after put_node update
  after_other x p q o = ground arith

  after-sbi : after.sbi ≡ sbi
  unfolding after put_node
  after-sbi = refl

  after-IsReady : IsReady d → IsTakenBlock d r sbi → IsReady after
  unfolding after
  after-IsReady ready t = put_node-IsReady _ b _ (
      put_node-IsReady _ (n.children k) _ (
        put_node-IsReady _ r _ (record {
          small = rw (t.size) ready.small;
          first = ground (arith, t.now 0, ready.first);
          reads = λ x lt. ready.reads x (rw (t.size) at lt);
        })))

pub split_tree :
    (api : BitmapApi) (law : IsBitmapApi api) (d : Disk) (blocks : Bits) (b lo hi h k : ℕ)
    (n cn : Node)
    → IsReady d
    → 0 < free d
    → IsOwned d.node blocks (suc h) b lo hi
    → ((x : ℕ) → blocks x ≡ true → d.sbi.s_bfree_bitmap x ≡ true)
    → d.node b ≡ some n
    → k ≤ n.nr_of_keys
    → n.nr_of_keys < max_keys
    → d.node (n.children k) ≡ some cn
    → cn.nr_of_keys ≡ max_keys
    → (d' : Disk) × (r : ℕ) × (split_child api b (n.children k) k d ≡ done success d')
      × (d'.node b ≡ some (split_parent n k r (middle cn)))
      × (d'.node (n.children k) ≡ some (split_lhs cn))
      × (d'.node r ≡ some (split_rhs cn b))
      × IsSplitTree d d' blocks b r h lo hi
unfolding after put_node
split_tree api law d blocks b lo hi h k n cn ready pos
      (owned_inner m parts eq' isinner v mine p sub) used eq le room eqc full =
    let same : m ≡ n = cc in
    let v' : IsNode n lo hi = rw (← same) v in
    let p' : IsParts blocks b parts n.nr_of_keys = rw (← same) p in
    let sub' : (i : ℕ)
        → i ≤ n.nr_of_keys
        → IsOwned d.node (parts i) h (n.children i) (low_of n lo i) (high_of n hi i) =
      rw (← same) sub in
    let isinner' : n.leaf ≡ false = rw (← same) isinner in
    let (r, sbi, got, t) = take_block api law d ready pos in
    let fresh : blocks r ≡ false = ground (arith, used r, t.clear) in
    let (old, eqr) = ready.reads r t.inside in
    let (own_c, (cm, eqcm, vcm)) = owned_root (sub' k le) in
    let same_c : cm ≡ cn = cc in
    let vc : IsNode cn (low_of n lo k) (high_of n hi k) = rw (← same_c) vcm in
    let in_c : blocks (n.children k) ≡ true = p'.within k (n.children k) le own_c in
    let apart : (b ≢ n.children k) × (b ≢ r) × (n.children k ≢ r) =
      (λ e. ground (arith, p'.below k le), λ e. ground arith, λ e. ground arith) in
    let d' = after d sbi n cn old b r k apart in
    let not_r : (x : ℕ) → blocks x ≡ true → x ≢ r = λ x q e. ground arith in
    let (left, right, halves) =
      owned-IsHalves d.node d'.node cn b (n.children k) r (low_of n lo k) (high_of n hi k) h
        (parts k) eqc full (after_c d sbi n cn old b r k apart) (after_r d sbi n cn old b r k apart)
        (sub' k le) (ground (arith, p'.within k r le))
        (λ x q ne.
          after_other d sbi n cn old b r k apart x (λ e. ground (arith, p'.below k le)) ne
            (not_r x (p'.within k x le q))) in
    let size : d'.sbi ≡ sbi = after-sbi d sbi n cn old b r k apart in
    (
      d',
      r,
      split_child_run api d sbi b (n.children k) r k n cn old got t.ne eq eqc eqr room,
      after_b d sbi n cn old b r k apart,
      after_c d sbi n cn old b r k apart,
      after_r d sbi n cn old b r k apart,
      record {
        tree =
            split-IsOwned d.node d'.node n cn b r k lo hi h blocks left right parts eq isinner' v'
              mine p' sub' le room eqc full vc fresh (after_b d sbi n cn old b r k apart) halves
              (λ x q ne ne'. after_other d sbi n cn old b r k apart x ne ne' (not_r x q));
        was_free = t.clear;
        bits = λ x. rw size (t.now x);
        others = λ x q ne.
            after_other d sbi n cn old b r k apart x (λ e. ground arith) (λ e. ground arith) ne;
        ready = after-IsReady d sbi n cn old b r k apart ready t;
        taken = rw size t.count;
        holds =
            Holds-split d.node d'.node n cn b r k lo hi h blocks left right parts eq isinner' v'
              mine p' sub' le room eqc full vc fresh (after_b d sbi n cn old b r k apart) halves
              (λ x q ne ne'. after_other d sbi n cn old b r k apart x ne ne' (not_r x q));
        held =
            split-Holds d.node d'.node n cn b r k lo hi h blocks left right parts eq isinner' v'
              mine p' sub' le room eqc full vc fresh (after_b d sbi n cn old b r k apart) halves
              (λ x q ne ne'. after_other d sbi n cn old b r k apart x ne ne' (not_r x q));
      },
    )
