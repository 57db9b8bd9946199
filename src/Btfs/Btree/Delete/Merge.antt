-- ===== src/Btfs/Btree/Delete/Merge.antt =====
-- The merge of two children: where it is right, and the two places where it is not.
use basic_btfs.Prelude.{
  ℕ, ◌+◌, ◌-◌, ◌≤◌, ◌<◌, ◌≡◌, refl, zero, suc, ◌≢◌, ◌⊎◌, true, false, some, arith, ltb, leb, ◌==◌,
  ◌&&◌, if◌then◌else◌, Bool-cases, inl, inr, update, ltb→le, ==→ne, shift_down_at, copy_range_at,
}
use basic_btfs.Kernel.{BitmapApi}
use basic_btfs.Btfs.Bitmap.{put_blocks}
use basic_btfs.Btfs.Disk.{
  min_degree, max_keys, max_children, Entry, Node, entry_at, Disk, success, done, fault,
  out_of_fuel, put_node,
}
use basic_btfs.Btfs.Btree.Shape.{key, IsNode}
use basic_btfs.Btfs.Btree.Remove.Leaf.{In}
use basic_btfs.Btfs.Btree.Delete.{
  child_at, merge_lhs, merge_parent, copy_children, join_children, merge,
}

-- The loop from `i` on uses up every number of rounds up to the end of the array, and faults with
-- any larger number.
copy_children_runs :
    (rounds i : ℕ) (rhs lhs : Node) (d : Disk)
    → 0 < rhs.nr_of_keys
    → i ≤ min_degree
    → ((rounds + i ≤ min_degree) × (copy_children rounds i rhs lhs d ≡ out_of_fuel))
      ⊎ ((min_degree < rounds + i) × (copy_children rounds i rhs lhs d ≡ fault))
unfolding copy_children
copy_children_runs zero i rhs lhs d pos le = inl (omega arith, refl)
copy_children_runs (suc rounds) i rhs lhs d pos le = elim (Bool-cases (leb min_degree i)) [
  | inl h ↦ inr (ground arith, ground arith)
  | inr h ↦
      let next : Node = record lhs {
        children = update lhs.children (i + min_degree) (child_at rhs i);
      } in
      elim (copy_children_runs rounds (i + 1) rhs next d pos (ground arith)) [
        | inl (few, run) ↦ inl (omega arith, ground (arith, run))
        | inr (many, run) ↦ inr (omega arith, ground (arith, run))
      ]
]

-- Merging two inner nodes, the right one with a key, but not more than 79, writes outside the array
-- of children: the loop that copies the children goes through the 80 slots behind the left node's
-- children, however few children there are, and does not stop there.
pub merge_inner :
    (api : BitmapApi) (d : Disk) (b index : ℕ) (n lhs rhs : Node)
    → d.node b ≡ some n
    → index + 1 < max_children
    → d.node (n.children index) ≡ some lhs
    → d.node (n.children (index + 1)) ≡ some rhs
    → lhs.leaf ≡ false
    → (0 < rhs.nr_of_keys) × (rhs.nr_of_keys < min_degree)
    → (merge api b index d ≡ fault)
      × ((rounds : ℕ)
          → rounds ≤ min_degree
          → copy_children rounds 0 rhs (merge_lhs lhs (entry_at n index) rhs) d ≡ out_of_fuel)
      × ((rounds : ℕ)
          → min_degree < rounds
          → copy_children rounds 0 rhs (merge_lhs lhs (entry_at n index) rhs) d ≡ fault)
unfolding merge child_at join_children merge_lhs
merge_inner api d b index n lhs rhs en small el er inner (pos, few) =
    let lhs' = merge_lhs lhs (entry_at n index) rhs in
    let runs = λ (rounds : ℕ). copy_children_runs rounds 0 rhs lhs' d pos (omega arith) in
    (
      ground (arith, runs max_children),
      λ rounds le. ground (arith, runs rounds),
      λ rounds le. ground (arith, runs rounds),
    )

module _ (api : BitmapApi) (d : Disk) (b index : ℕ) (n lhs rhs : Node) (en : d.node b ≡ some n)
    (small : index + 1 < max_children) (el : d.node (n.children index) ≡ some lhs)
    (er : d.node (n.children (index + 1)) ≡ some rhs) (isleaf : lhs.leaf ≡ true)
    (fits : rhs.nr_of_keys < min_degree) (apart : b ≢ n.children index) where
  merged_parent : Node
  merged_parent =
      let n' = merge_parent n index in record n' { children = update n'.children (index + 1) 0 }

  after_merge : Disk
  after_merge =
      let d' =
        put_node b merged_parent
          (put_node (n.children index) (merge_lhs lhs (entry_at n index) rhs) d) in
      record d' { sbi = put_blocks api d.sbi ((merge_parent n index).children (index + 1)) 1 }

  merge_run : merge api b index d ≡ done success after_merge
  unfolding merge child_at after_merge merged_parent put_node join_children merge_lhs
  merge_run = ground arith

  merged_child :
      (j : ℕ)
      → index + 1 ≤ j
      → j < n.nr_of_keys
      → (merge_parent n index).children j ≡ n.children (j + 1)
  unfolding merge_parent
  merged_child j p q =
      ground (arith, shift_down_at (n.nr_of_keys - index - 1) (index + 1) n.children j)

  -- The merge reads the block to free behind the loop that moves the children down. Unless the
  -- right node is the last child, it frees the block of the child behind it, which it also cuts
  -- off: slot `index + 1` is zeroed, and no other slot has got that child.
  pub merge_frees_next :
      index + 1 < n.nr_of_keys
      → n.nr_of_keys ≤ max_keys
      → (d' : Disk) × (n' : Node) × (merge api b index d ≡ done success d')
        × (d'.sbi ≡ put_blocks api d.sbi (n.children (index + 2)) 1)
        × (d'.node b ≡ some n')
        × (n'.children (index + 1) ≡ 0)
        × ((j : ℕ) → index + 1 < j → j < n.nr_of_keys → n'.children j ≡ n.children (j + 1))
  unfolding after_merge merged_parent put_node update
  merge_frees_next more size = (
    after_merge,
    merged_parent,
    merge_run,
    ground (arith, merged_child (index + 1)),
    ground arith,
    ground arith,
    λ j p q. ground (arith, merged_child j),
  )

module _ (lhs rhs : Node) (mid : Entry) (lo hi : ℕ) (v : IsNode lhs lo mid.hash)
    (w : IsNode rhs (mid.hash + 1) hi) (low : lo ≤ mid.hash) (high : mid.hash < hi)
    (minimal : lhs.nr_of_keys ≡ min_degree - 1) (fits : rhs.nr_of_keys < min_degree) where
  entries-merge :
      (j : ℕ)
      → (merge_lhs lhs mid rhs).entries j ≡ (
          if leb min_degree j && ltb j (min_degree + rhs.nr_of_keys)
          then rhs.entries (j - min_degree)
          else if j == 79
          then mid
          else lhs.entries j)
  unfolding merge_lhs update
  entries-merge j =
      ground (
        arith,
        copy_range_at rhs.nr_of_keys 0 min_degree 0 rhs.entries (update lhs.entries 79 mid) j,
      )

  nr-merge : (merge_lhs lhs mid rhs).nr_of_keys ≡ min_degree + rhs.nr_of_keys
  unfolding merge_lhs
  nr-merge = omega arith

  merge-IsNode : IsNode (merge_lhs lhs mid rhs) lo hi
  merge-IsNode = record {
    size = omega (arith, nr-merge);
    sorted = λ i j p q. ground (
      arith,
      nr-merge,
      entries-merge i,
      entries-merge j,
      v.sorted i j,
      v.below i,
      w.above (j - min_degree),
      w.sorted (i - min_degree) (j - min_degree),
    );
    above = λ j p. ground (arith, nr-merge, entries-merge j, v.above j, w.above (j - min_degree));
    below = λ j p. ground (arith, nr-merge, entries-merge j, v.below j, w.below (j - min_degree));
  }

  In-merge : (x : Entry) → (In x lhs ⊎ In x rhs) ⊎ (x ≡ mid) → In x (merge_lhs lhs mid rhs)
  In-merge x (inl (inl (j, p, at))) = (j, omega (arith, nr-merge), ground (arith, entries-merge j))
  In-merge x (inl (inr (j, p, at))) =
      (j + min_degree, omega (arith, nr-merge), ground (arith, entries-merge (j + min_degree)))
  In-merge x (inr e) = (79, omega (arith, nr-merge), ground (arith, entries-merge 79))

  In-merge_from : (x : Entry) → In x (merge_lhs lhs mid rhs) → (In x lhs ⊎ In x rhs) ⊎ (x ≡ mid)
  In-merge_from x (j, p, at) = elim (Bool-cases (ltb j 79)) [
    | inl l ↦ inl (inl (j, ground arith, ground (arith, entries-merge j)))
    | inr g ↦ elim (Bool-cases (j == 79)) [
      | inl e ↦ inr (ground (arith, entries-merge j))
      | inr ne ↦
          let big : 79 < j = omega (arith, ltb→le j 79 g, ==→ne j 79 ne) in
          inl (
            inr
              (j - min_degree, omega (arith, nr-merge), ground (arith, nr-merge, entries-merge j)))
    ]
  ]

-- Merging the last two children of a node, two leaves with the least number of keys, joins them
-- round the entry between: the left leaf is in order and holds what both held and that entry, the
-- parent loses the entry and the right child, and the right child's block is freed.
pub merge_last :
    (api : BitmapApi) (d : Disk) (b index lo hi : ℕ) (n lhs rhs : Node)
    → d.node b ≡ some n
    → d.node (n.children index) ≡ some lhs
    → d.node (n.children (index + 1)) ≡ some rhs
    → lhs.leaf ≡ true
    → (index + 1 ≡ n.nr_of_keys) × (n.nr_of_keys ≤ max_keys)
    → b ≢ n.children index
    → IsNode lhs lo (key n index)
    → IsNode rhs (key n index + 1) hi
    → (lo ≤ key n index) × (key n index < hi)
    → (lhs.nr_of_keys ≡ min_degree - 1) × (rhs.nr_of_keys < min_degree)
    → (d' : Disk) × (n' : Node) × (joined : Node) × (merge api b index d ≡ done success d')
      × (d'.sbi ≡ put_blocks api d.sbi (n.children (index + 1)) 1)
      × (d'.node b ≡ some n')
      × (n'.nr_of_keys + 1 ≡ n.nr_of_keys)
      × ((j : ℕ) → j ≤ index → (n'.entries j ≡ n.entries j) × (n'.children j ≡ n.children j))
      × (d'.node (n.children index) ≡ some joined)
      × IsNode joined lo hi
      × ((x : Entry) → (In x lhs ⊎ In x rhs) ⊎ (x ≡ n.entries index) → In x joined)
      × ((x : Entry) → In x joined → (In x lhs ⊎ In x rhs) ⊎ (x ≡ n.entries index))
unfolding after_merge merged_parent put_node update merge_parent entry_at
merge_last api d b index lo hi n lhs rhs en el er isleaf last apart v w bounds sizes =
    let small : index + 1 < max_children = omega arith in
    let run = merge_run api d b index n lhs rhs en small el er isleaf sizes.1 apart in
    let mid : entry_at n index ≡ n.entries index = ground arith in
    let joined = merge_lhs lhs (n.entries index) rhs in
    (
      after_merge api d b index n lhs rhs en small el er isleaf sizes.1 apart,
      merged_parent api d b index n lhs rhs en small el er isleaf sizes.1 apart,
      joined,
      run,
      ground (arith, shift_down_at (n.nr_of_keys - index - 1) (index + 1) n.children (index + 1)),
      ground arith,
      omega arith,
      λ j p. (
        ground (arith, shift_down_at (n.nr_of_keys - index - 1) index n.entries j),
        ground (arith, shift_down_at (n.nr_of_keys - index - 1) (index + 1) n.children j),
      ),
      ground (arith, mid),
      merge-IsNode lhs rhs (n.entries index) lo hi v w bounds.0 bounds.1 sizes.0 sizes.1,
      In-merge lhs rhs (n.entries index) lo hi v w bounds.0 bounds.1 sizes.0 sizes.1,
      In-merge_from lhs rhs (n.entries index) lo hi v w bounds.0 bounds.1 sizes.0 sizes.1,
    )
