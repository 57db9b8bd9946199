-- ===== src/Btfs/Btree/Insert/Split.antt =====
-- The split of a full child: three nodes in order, which together hold what two held.
use basic_btfs.Btfs.Btree.Insert.Nodes.{
  children-split_parent, entries-split_parent, entries-split_rhs, middle, nr-split_parent,
  nr-split_rhs, split_lhs, split_lhs-IsNode, split_parent-IsNode, split_rhs-IsNode,
}
use basic_btfs.Prelude.{
  ℕ, ◌+◌, ◌-◌, ◌≤◌, ◌<◌, ◌≡◌, ◌≢◌, ◌⊎◌, some, arith, ltb, ◌==◌, Bool-cases, inl, inr, sym, ◌∙◌,
  update, ltb→lt, ltb→le, ==→ne, minus_one,
}
use basic_btfs.Kernel.{BitmapApi}
use basic_btfs.Btfs.Super.{SbInfo}
use basic_btfs.Btfs.Bitmap.{get_free_blocks}
use basic_btfs.Btfs.Disk.{min_degree, max_keys, Entry, Node, Disk, success, done, put_node}
use basic_btfs.Btfs.Btree.Shape.{IsNode, low_of, high_of}
use basic_btfs.Btfs.Btree.Remove.Leaf.{In}
use basic_btfs.Btfs.Btree.Insert.{split_rhs, split_parent, split_child}

-- What `split_child` leaves: the block taken for the right half, and the three nodes written.
abbrev pub after_split : Disk → SbInfo → ℕ → ℕ → ℕ → ℕ → Node → Node → Disk
after_split d sbi p l r index par lhs =
    put_node p (split_parent par index r (middle lhs))
      (put_node l (split_lhs lhs) (put_node r (split_rhs lhs p) (record d { sbi = sbi })))

pub split_child_run :
    (api : BitmapApi) (d : Disk) (sbi : SbInfo) (p l r index : ℕ) (par lhs old : Node)
    → get_free_blocks api d.sbi 1 ≡ (r, sbi)
    → r ≢ minus_one
    → d.node p ≡ some par
    → d.node l ≡ some lhs
    → d.node r ≡ some old
    → par.nr_of_keys < max_keys
    → split_child api p l index d ≡ done success (after_split d sbi p l r index par lhs)
unfolding split_child
split_child_run api d sbi p l r index par lhs old taken ne ep el er room = ground arith

-- The three nodes after a split of the child at `index`, with the bounds of the keys in each. What
-- the old child held is in the halves and in the middle entry, which the parent has gained.
pub record IsSplit (par lhs : Node) (r index lo hi : ℕ) (new left right : Node) : Type 0 where
  pub parent : IsNode new lo hi
  pub lower : IsNode left (low_of par lo index) (middle lhs).hash
  pub upper : IsNode right ((middle lhs).hash + 1) (high_of par hi index)
  pub old_child : new.children index ≡ par.children index
  pub new_child : new.children (index + 1) ≡ r
  pub gained : In (middle lhs) new
  pub parent_keeps : (x : Entry) → In x par → In x new
  pub halves : (x : Entry) → In x lhs → (In x left ⊎ In x right) ⊎ (x ≡ middle lhs)
  pub from_lhs : (x : Entry) → In x left ⊎ In x right → In x lhs

module _ (par lhs : Node) (p r index lo hi : ℕ) (v : IsNode par lo hi) (le : index ≤ par.nr_of_keys)
    (room : par.nr_of_keys < max_keys) (w : IsNode lhs (low_of par lo index) (high_of par hi index))
    (full : lhs.nr_of_keys ≡ max_keys) where
  split_parent_keeps : (x : Entry) → In x par → In x (split_parent par index r (middle lhs))
  split_parent_keeps x (j, lt, at) = elim (Bool-cases (ltb j index)) [
    | inl l ↦ (
      j,
      omega (arith, nr-split_parent par index r (middle lhs) le),
      ground (arith, entries-split_parent par index r (middle lhs) le j),
    )
    | inr g ↦ (
      j + 1,
      omega (arith, nr-split_parent par index r (middle lhs) le),
      ground (arith, entries-split_parent par index r (middle lhs) le (j + 1)),
    )
  ]

  split_halves :
      (x : Entry) → In x lhs → (In x (split_lhs lhs) ⊎ In x (split_rhs lhs p)) ⊎ (x ≡ middle lhs)
  split_halves x (j, lt, at) = elim (Bool-cases (ltb j 79)) [
    | inl l ↦ inl (inl (j, ltb→lt j 79 l, at))
    | inr g ↦ elim (Bool-cases (j == 79)) [
      | inl e ↦ inr (ground arith)
      | inr ne ↦ inl (
          inr (
            j - 80,
            omega (arith, nr-split_rhs lhs p, ltb→le j 79 g, ==→ne j 79 ne),
            ground (arith, entries-split_rhs lhs p (j - 80)),
          ))
    ]
  ]

  split_from_lhs : (x : Entry) → In x (split_lhs lhs) ⊎ In x (split_rhs lhs p) → In x lhs
  split_from_lhs x (inl (j, lt, at)) = (j, omega arith, at)
  split_from_lhs x (inr (j, lt, at)) =
      let lt' : j < 79 = omega (arith, nr-split_rhs lhs p) in
      (j + min_degree, omega arith, sym (entries-split_rhs lhs p j lt') ∙ at)

  pub three_nodes-IsSplit :
      IsSplit par lhs r index lo hi
        (split_parent par index r (middle lhs))
        (split_lhs lhs)
        (split_rhs lhs p)
  three_nodes-IsSplit = record {
    parent =
        split_parent-IsNode index r (middle lhs) v le room (w.above 79 (omega arith))
          (w.below 79 (omega arith));
    lower = split_lhs-IsNode w full;
    upper = split_rhs-IsNode w full p;
    old_child = ground (arith, children-split_parent par index r (middle lhs) le index);
    new_child = ground (arith, children-split_parent par index r (middle lhs) le (index + 1));
    gained = (
      index,
      omega (arith, nr-split_parent par index r (middle lhs) le),
      ground (arith, entries-split_parent par index r (middle lhs) le index),
    );
    parent_keeps = split_parent_keeps;
    halves = split_halves;
    from_lhs = split_from_lhs;
  }

-- Splitting a full child of a parent with room succeeds, if the block that the bitmap gives can be
-- read and the three blocks are distinct: the parent and the two halves are in order with the
-- right bounds, together they hold what the two nodes held, and no other block is written.
pub split_child_lem :
    (api : BitmapApi) (d : Disk) (sbi : SbInfo) (p l r index lo hi : ℕ) (par lhs old : Node)
    → get_free_blocks api d.sbi 1 ≡ (r, sbi)
    → r ≢ minus_one
    → d.node p ≡ some par
    → d.node l ≡ some lhs
    → d.node r ≡ some old
    → (p ≢ l) × (p ≢ r) × (l ≢ r)
    → IsNode par lo hi
    → index ≤ par.nr_of_keys
    → par.nr_of_keys < max_keys
    → IsNode lhs (low_of par lo index) (high_of par hi index)
    → lhs.nr_of_keys ≡ max_keys
    → (d' : Disk) × (new : Node) × (left : Node) × (right : Node) × (split_child api p l index d
        ≡ done success d')
      × (d'.node p ≡ some new)
      × (d'.node l ≡ some left)
      × (d'.node r ≡ some right)
      × ((b : ℕ) → b ≢ p → b ≢ l → b ≢ r → d'.node b ≡ d.node b)
      × IsSplit par lhs r index lo hi new left right
unfolding put_node update
split_child_lem api d sbi p l r index lo hi par lhs old taken ne ep el er apart v le room w full = (
  after_split d sbi p l r index par lhs,
  split_parent par index r (middle lhs),
  split_lhs lhs,
  split_rhs lhs p,
  split_child_run api d sbi p l r index par lhs old taken ne ep el er room,
  ground arith,
  ground arith,
  ground arith,
  ground arith,
  three_nodes-IsSplit par lhs p r index lo hi v le room w full,
)
