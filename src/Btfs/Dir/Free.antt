-- ===== src/Btfs/Dir/Free.antt =====
-- `basicbtfs_btree_free_dir` of BasicBTFS/dir.c frees the blocks of a tree.
use basic_btfs.Prelude.{
  ℕ, zero, suc, ◌+◌, ◌≤◌, ◌<◌, ◌≡◌, refl, ◌∙◌, inl, inr, true, false, some, ◌⊎◌, arith, ltb, ◌==◌,
  ◌||◌, Bool-cases, ==→eq, ==→ne, u32_mod,
}
use basic_btfs.Kernel.{BitmapApi, IsBitmapApi}
use basic_btfs.Btfs.Disk.{Node, Store, Disk, Ret, success, done, Cmd, with_node}
use basic_btfs.Btfs.Btree.Shape.{IsTree, leaf, inner}
use basic_btfs.Btfs.Btree.Delete.{child_at}
use basic_btfs.Btfs.Dir.Freed.{IsFreed, none-IsFreed, both-IsFreed, same-IsFreed, put_block-IsFreed}
use basic_btfs.Btfs.Dir.{put_block, free_children, free_last, free_node, free_dir}

-- The blocks of the tree under a block.
pub data InTree (s : Store) : ℕ → ℕ → Type 0 where
  top : {b : ℕ} → InTree s b b
  below :
      {b x : ℕ} (n : Node) (i : ℕ)
      → s b ≡ some n
      → n.leaf ≡ false
      → i ≤ n.nr_of_keys
      → InTree s (n.children i) x
      → InTree s b x

module _ (api : BitmapApi) (law : IsBitmapApi api) where
  -- The children from `index` on, up to the last but `left`.
  Under : Store → Node → ℕ → ℕ → ℕ → Type 0
  Under s n lo hi x = (i : ℕ) × (lo ≤ i) × (i < hi) × InTree s (n.children i) x

  -- What freeing one child does, in every state with the nodes of `s`.
  abbrev Frees : (ℕ → Cmd Ret) → Store → ℕ → ℕ → Type 0
  Frees free s size b =
      (d : Disk)
      → d.node ≡ s
      → d.sbi.s_nblocks ≡ size
      → (d' : Disk) × (free b d ≡ done success d') × IsFreed d d' (InTree s b)

  free_children_next :
      (free : ℕ → Cmd Ret) (rounds index : ℕ) (n : Node) (d d' : Disk)
      → free (n.children index) d ≡ done success d'
      → free_children api free (suc rounds) index n d
        ≡ free_children api free rounds (index + 1) n d'
  unfolding free_children
  free_children_next free rounds index n d d' run = rw run refl

  free_children_done :
      (free : ℕ → Cmd Ret) (index : ℕ) (n : Node) (d : Disk)
      → free_children api free zero index n d ≡ done success d
  unfolding free_children
  free_children_done free index n d = refl

  free_children-IsFreed :
      (free : ℕ → Cmd Ret) (s : Store) (size rounds index : ℕ) (n : Node) (d : Disk)
      → ((i : ℕ) → i < index + rounds → Frees free s size (n.children i))
      → d.node ≡ s
      → d.sbi.s_nblocks ≡ size
      → (d' : Disk) × (free_children api free rounds index n d ≡ done success d')
        × IsFreed d d' (Under s n index (index + rounds))
  unfolding Under
  free_children-IsFreed free s size zero index n d each same fits = (
    d,
    free_children_done free index n d,
    none-IsFreed d (Under s n index (index + 0)) λ x h. absurd (omega (arith, h.1, h.2)),
  )
  free_children-IsFreed free s size (suc rounds) index n d each same fits =
      let (d1, run, one) = each index (omega arith) d same fits in
      let (d2, run', two) =
        free_children-IsFreed free s size rounds (index + 1) n d1 (λ i lt. each i (omega arith))
          (one.node ∙ same) (one.size ∙ fits) in
      (
        d2,
        free_children_next free rounds index n d d1 run ∙ run',
        both-IsFreed d d1 d2 (InTree s (n.children index))
            (Under s n (index + 1) (index + 1 + rounds)) (Under s n index (index + suc rounds)) one
            two
            (λ x h.
              let (i, lo, hi, t) = h in
              elim (Bool-cases (index == i)) [
                | inl e ↦ inl (rw (==→eq index i e) t)
                | inr ne ↦ inr (i, omega (arith, ==→ne index i ne), omega arith, t)
              ])
            (λ x t. (index, omega arith, omega arith, t))
            (λ x h. let (i, lo, hi, t) = h in (i, omega arith, omega arith, t)),
      )

  free_last_next :
      (free : ℕ → Cmd Ret) (bno : ℕ) (n : Node) (d d' : Disk)
      → n.nr_of_keys ≤ 159
      → free (n.children n.nr_of_keys) d ≡ done success d'
      → free_last api free bno n d ≡ put_block api bno d'
  unfolding free_last child_at
  free_last_next free bno n d d' le run =
      let e : child_at n n.nr_of_keys ≡ n.children n.nr_of_keys = ground arith in rw (e, run) refl

  free_dir_step :
      (fuel bno : ℕ) (n : Node) (d : Disk)
      → d.node bno ≡ some n
      → 0 < bno
      → bno ≤ d.sbi.s_nblocks
      → free_dir api (suc fuel) bno d ≡ free_node api (λ b. free_dir api fuel b) bno n d
  unfolding free_dir
  free_dir_step fuel bno n d read pos le =
      let valid : ((bno == 0) || ltb d.sbi.s_nblocks bno) ≡ false = ground arith in
      rw (free_dir, valid, with_node, read) refl

  free_node_leaf :
      (free : ℕ → Cmd Ret) (bno : ℕ) (n : Node) (d : Disk)
      → n.leaf ≡ true
      → free_node api free bno n d ≡ put_block api bno d
  unfolding free_node
  free_node_leaf free bno n d isleaf = ground (arith, isleaf)

  free_node_inner :
      (free : ℕ → Cmd Ret) (bno : ℕ) (n : Node) (d d' : Disk)
      → n.leaf ≡ false
      → free_children api free n.nr_of_keys 0 n d ≡ done success d'
      → free_node api free bno n d ≡ free_last api free bno n d'
  unfolding free_node
  free_node_inner free bno n d d' isinner run = ground (arith, isinner, run)

  pub in_leaf :
      {s : Store} {b x : ℕ} (n : Node) → s b ≡ some n → n.leaf ≡ true → InTree s b x → x ≡ b
  in_leaf n eq isleaf top = refl
  in_leaf n eq isleaf (below m i at isinner le t) = absurd (cc)

  in_inner :
      {s : Store} {b x : ℕ} (n : Node)
      → s b ≡ some n
      → InTree s b x
      → (x ≡ b) ⊎ ((i : ℕ) × (i ≤ n.nr_of_keys) × InTree s (n.children i) x)
  in_inner n eq top = inl refl
  in_inner n eq (below m i at isinner le t) = let e : n ≡ m = cc in rw e (inr (i, le, t))

  -- The children but the last, the last one, and the node itself.
  tree-IsFreed :
      (s : Store) (n : Node) (d d1 d2 d3 : Disk) (b : ℕ)
      → s b ≡ some n
      → n.leaf ≡ false
      → IsFreed d d1 (Under s n 0 (0 + n.nr_of_keys))
      → IsFreed d1 d2 (InTree s (n.children n.nr_of_keys))
      → IsFreed d2 d3 (λ x. x ≡ b)
      → IsFreed d d3 (InTree s b)
  unfolding Under
  tree-IsFreed s n d d1 d2 d3 b eq isinner one two three =
      let children = λ (x : ℕ). (i : ℕ) × (i ≤ n.nr_of_keys) × InTree s (n.children i) x in
      let below_all =
        both-IsFreed d d1 d2 (Under s n 0 (0 + n.nr_of_keys)) (InTree s (n.children n.nr_of_keys))
          children one two
          (λ x h.
            let (i, le, t) = h in
            elim (Bool-cases (i == n.nr_of_keys)) [
              | inl e ↦ inr (rw (← ==→eq i n.nr_of_keys e) t)
              | inr ne ↦ inl (i, omega arith, omega (arith, ==→ne i n.nr_of_keys ne), t)
            ])
          (λ x h. let (i, lo, hi, t) = h in (i, omega arith, t))
          (λ x t. (n.nr_of_keys, omega arith, t)) in
      both-IsFreed d d2 d3 children (λ x. x ≡ b) (InTree s b) below_all three
        (λ x t. elim (in_inner n eq t) [ inl e ↦ inr e | inr c ↦ inl c ])
        (λ x h. let (i, le, t) = h in below n i eq isinner le t) (λ x e. rw e top)

  module _ (s : Store) (size : ℕ) (small : size < u32_mod) where
    -- Every block of the tree lies inside the device, and none is block 0.
    abbrev pub IsInside : ℕ → Type 0
    IsInside b = (x : ℕ) → InTree s b x → (0 < x) × (x < size)

    free_dir-Frees :
        {P : Node → Type 0} {h b lo hi : ℕ} (fuel : ℕ)
        → IsTree P s h b lo hi
        → h < fuel
        → IsInside b
        → Frees (λ c. free_dir api fuel c) s size b
    free_dir-Frees zero tree lt inside d same fits = absurd (omega arith)
    free_dir-Frees {P = P} {b = b} {lo = lo} {hi = hi} (suc fuel) (leaf n eq isleaf p v) lt inside d
          same fits =
        let (pos, low) = inside b top in
        let free = λ (c : ℕ). free_dir api fuel c in
        let (d', run, is) = put_block-IsFreed api law b d (rw fits low) (rw fits small) in
        (
          d',
          free_dir_step fuel b n d (rw same eq) pos (omega (arith, fits))
              ∙ free_node_leaf free b n d isleaf
              ∙ run,
          same-IsFreed d d' (λ x. x ≡ b) (InTree s b) (λ x t. in_leaf n eq isleaf t)
              (λ x e. rw e top) is,
        )
    free_dir-Frees {P = P} {b = b} {lo = lo} {hi = hi} (suc fuel)
          (inner {h = h} n eq isinner p v sub) lt inside d same fits =
        let (pos, low) = inside b top in
        let free = λ (c : ℕ). free_dir api fuel c in
        let each = λ (i : ℕ) (le : i ≤ n.nr_of_keys).
          free_dir-Frees {P = P} {h = h} fuel (sub i le) (omega arith)
            (λ x t. inside x (below n i eq isinner le t)) in
        let (d1, run1, one) =
          free_children-IsFreed free s size n.nr_of_keys 0 n d (λ i lt'. each i (omega arith)) same
            fits in
        let (d2, run2, two) =
          each n.nr_of_keys (omega arith) d1 (one.node ∙ same) (one.size ∙ fits) in
        let size2 = two.size ∙ one.size ∙ fits in
        let (d3, run3, three) = put_block-IsFreed api law b d2 (rw size2 low) (rw size2 small) in
        (
          d3,
          free_dir_step fuel b n d (rw same eq) pos (omega (arith, fits))
              ∙ free_node_inner free b n d d1 isinner run1
              ∙ free_last_next free b n d1 d2 v.size run2
              ∙ run3,
          tree-IsFreed s n d d1 d2 d3 b eq isinner one two three,
        )

-- Releasing the tree of a directory, with fuel above its height, on a device whose number of blocks
-- fits 32 bits, where every block of the tree lies inside the device behind block 0: it succeeds,
-- every block of the tree becomes free, and no other bit of the map changes; nor do the nodes, the
-- blocks of names and the cache.
pub free_dir_lem :
    (api : BitmapApi) (law : IsBitmapApi api) {P : Node → Type 0} (fuel h b lo hi : ℕ) (d : Disk)
    → IsTree P d.node h b lo hi
    → h < fuel
    → d.sbi.s_nblocks < u32_mod
    → ((x : ℕ) → InTree d.node b x → (0 < x) × (x < d.sbi.s_nblocks))
    → (d' : Disk) × (free_dir api fuel b d ≡ done success d') × IsFreed d d' (InTree d.node b)
free_dir_lem api law {P} fuel h b lo hi d tree lt small inside =
    free_dir-Frees api law d.node d.sbi.s_nblocks small {P = P} {h = h} {b = b} {lo = lo} {hi = hi}
      fuel tree lt inside d refl refl
