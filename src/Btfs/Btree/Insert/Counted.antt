-- ===== src/Btfs/Btree/Insert/Counted.antt =====
-- The insertion of an entry into a directory whose root is not full: `basicbtfs_btree_node_insert`
-- of BasicBTFS/btree.h, which counts the file in the root behind the insertion into the tree.
use basic_btfs.Prelude.{
  ℕ, ◌≤◌, ◌<◌, ◌≡◌, ◌≢◌, refl, sym, ◌∙◌, true, some, inl, inr, arith, ne→==, update, update_self,
  update_ne, add32,
}
use basic_btfs.Kernel.{Bits, BitmapApi, IsBitmapApi}
use basic_btfs.Btfs.Disk.{
  max_keys, Entry, Node, Store, Disk, Inode, success, done, ◌>>◌, with_node, put_node,
}
use basic_btfs.Btfs.Btree.Shape.{IsNode, Holds, here, under, holds_in}
use basic_btfs.Btfs.Btree.Owned.{
  IsParts, IsOwned, owned_leaf, owned_inner, owned_root, same_blocks, same-Holds,
}
use basic_btfs.Btfs.Btree.Insert.{insert_non_full}
use basic_btfs.Btfs.Btree.Insert.Supply.{IsReady, free}
use basic_btfs.Btfs.Btree.Insert.Whole.{IsInserted, same_node, put_node-IsReady}
use basic_btfs.Btfs.Btree.Insert.Descent.{HasRoom}
use basic_btfs.Btfs.Btree.Insert.Correct.{insert_non_full_lem}
use basic_btfs.Btfs.Btree.Insert.Frame.{Leaves-done, insert_non_full-Keeps}
use basic_btfs.Btfs.Btree.Root.{insert_in_root, node_insert}

-- The root with one more file.
abbrev pub counted : Node → Node
counted n = record n {
  nr_of_files = add32 n.nr_of_files 1;
  nr_times_done = add32 n.nr_times_done 1;
}

counted-IsNode : {lo hi : ℕ} (n : Node) → IsNode n lo hi → IsNode (counted n) lo hi
counted-IsNode n v = record { size = v.size; sorted = v.sorted; above = v.above; below = v.below }

module _ (s : Store) (b : ℕ) (n : Node) (at : s b ≡ some n) where
  after : Store
  after = update s b (some (counted n))

  after_at : after b ≡ some (counted n)
  unfolding after
  after_at = update_self s b (some (counted n))

  after_below :
      {blocks : Bits} {parts : ℕ → Bits} {k : ℕ}
      → IsParts blocks b parts k
      → (i : ℕ) → i ≤ k
      → (x : ℕ) → parts i x ≡ true
      → after x ≡ s x
  unfolding after
  after_below p i le x q = update_ne s b x (some (counted n)) λ e. ground (arith, p.below i le)

  after-IsOwned :
      {blocks : Bits} {h lo hi : ℕ} → IsOwned s blocks h b lo hi → IsOwned after blocks h b lo hi
  after-IsOwned (owned_leaf m eq isleaf v own) =
      let same : m ≡ n = cc in
      owned_leaf (counted m) (rw same after_at) isleaf (counted-IsNode m v) own
  after-IsOwned (owned_inner m parts eq isinner v own p sub) =
      let same : m ≡ n = cc in
      owned_inner (counted m) parts (rw same after_at) isinner (counted-IsNode m v) own p
        λ i le. same_blocks (after_below p i le) (sub i le)

  after-Holds :
      {blocks : Bits} {h lo hi : ℕ} {e : Entry}
      → IsOwned s blocks h b lo hi
      → Holds s e b
      → Holds after e b
  after-Holds (owned_leaf m eq isleaf v own) holds =
      let same : m ≡ n = cc in
      elim (holds_in m eq holds) [
        | inl (i, lt, is) ↦ here (counted m) i (rw same after_at) lt is
        | inr (i, isinner, _, _) ↦ absurd (cc)
      ]
  after-Holds (owned_inner m parts eq isinner v own p sub) holds =
      let same : m ≡ n = cc in
      elim (holds_in m eq holds) [
        | inl (i, lt, is) ↦ here (counted m) i (rw same after_at) lt is
        | inr (i, _, le, rest) ↦
            under (counted m) i (rw same after_at) isinner le
              (same-Holds (after_below p i le) (sub i le) rest)
      ]

  Holds-after :
      {blocks : Bits} {h lo hi : ℕ} {e : Entry}
      → IsOwned s blocks h b lo hi
      → Holds after e b
      → Holds s e b
  Holds-after (owned_leaf m eq isleaf v own) holds =
      let same : m ≡ n = cc in
      elim (holds_in (counted m) (rw same after_at) holds) [
        | inl (i, lt, is) ↦ here m i eq lt is
        | inr (i, isinner, _, _) ↦ absurd (cc)
      ]
  Holds-after (owned_inner m parts eq isinner v own p sub) holds =
      let same : m ≡ n = cc in
      elim (holds_in (counted m) (rw same after_at) holds) [
        | inl (i, lt, is) ↦ here m i eq lt is
        | inr (i, _, le, rest) ↦ under m i eq isinner le (
            same-Holds (λ x q. sym (after_below p i le x q))
              (same_blocks (after_below p i le) (sub i le)) rest)
      ]

-- Counting the file keeps what the insertion has done.
counted-IsInserted :
    {d d' : Disk} {blocks own : Bits} {c h b lo hi : ℕ} {e : Entry} (n : Node)
    → d'.node b ≡ some n
    → blocks b ≡ true
    → IsInserted d d' blocks own c h b lo hi e
    → IsInserted d (put_node b (counted n) d') blocks own c h b lo hi e
unfolding after put_node
counted-IsInserted {d} {d'} {b} n at mine r = record {
  tree = after-IsOwned d'.node b n at r.tree;
  old_or_free = r.old_or_free;
  in_use = r.in_use;
  kept_use = r.kept_use;
  others = λ x q u. update_ne d'.node b x (some (counted n)) (λ e. ground arith) ∙ r.others x q u;
  ready = put_node-IsReady d' b (counted n) r.ready;
  taken = r.taken;
  holds_new = after-Holds d'.node b n at r.tree r.holds_new;
  holds_old = λ x holds. after-Holds d'.node b n at r.tree (r.holds_old x holds);
  holds_only = λ x holds. r.holds_only x (Holds-after d'.node b n at r.tree holds);
  same_list = λ m m' at_m at_m'.
      let same : m' ≡ counted n = same_node (after_at d'.node b n at) at_m' in
      rw same (r.same_list m n at_m at);
}

module _ (api : BitmapApi) (fuel b : ℕ) (e : Entry) (d d' : Disk) (n : Node) where
  insert_in_root_run :
      insert_non_full api fuel b e d ≡ done success d'
      → d'.node b ≡ some n
      → insert_in_root api fuel b e d ≡ done success (put_node b (counted n) d')
  unfolding insert_in_root
  insert_in_root_run run at = rw (insert_in_root, run, ◌>>◌, with_node, at) refl

  node_insert_run :
      (dir : Inode) (old : Node)
      → d.node b ≡ some old
      → old.nr_of_keys < max_keys
      → insert_in_root api fuel b e d ≡ done success d'
      → node_insert api fuel dir b e d ≡ done (success, dir) d'
  unfolding node_insert
  node_insert_run dir old at room run =
      rw (node_insert, at, ne→== old.nr_of_keys max_keys (omega arith)) (rw run refl)

-- What the insertion of an entry into a directory with room at its root does: the entry is in the
-- tree, the file is counted, and names and cache are kept.
pub record IsNodeInserted (api : BitmapApi) (fuel h b lo hi : ℕ) (dir : Inode) (e : Entry)
    (d : Disk) (blocks : Bits) : Type 0 where
  pub d' : Disk
  pub own : Bits
  pub run : node_insert api fuel dir b e d ≡ done (success, dir) d'
  pub tree : IsInserted d d' blocks own h h b lo hi e
  pub same_names : d'.names ≡ d.names
  pub same_cache : d'.dir_cache ≡ d.dir_cache
  pub same_size : d'.sbi.s_nblocks ≡ d.sbi.s_nblocks

HasRoom-read :
    (d : Disk) (b : ℕ) (old : Node) → d.node b ≡ some old → old.nr_of_keys < max_keys → HasRoom d b
HasRoom-read d b old at room m at' = let same : m ≡ old = cc in rw same room

pub node_insert_room :
    (api : BitmapApi) (law : IsBitmapApi api) (fuel h : ℕ) (d : Disk) (blocks : Bits) (b lo hi : ℕ)
    (e : Entry) (dir : Inode) (old : Node)
    → h < fuel
    → IsReady d
    → h ≤ free d
    → IsOwned d.node blocks h b lo hi
    → ((x : ℕ) → blocks x ≡ true → d.sbi.s_bfree_bitmap x ≡ true)
    → d.node b ≡ some old
    → old.nr_of_keys < max_keys
    → (lo ≤ e.hash) × (e.hash < hi)
    → ((x : Entry) → Holds d.node x b → x.hash ≢ e.hash)
    → IsNodeInserted api fuel h b lo hi dir e d blocks
unfolding put_node
node_insert_room api law fuel h d blocks b lo hi e dir old lt ready enough tree used at room bounds
      absent =
    let (d1, own, run, i) =
      insert_non_full_lem api law fuel h d blocks b lo hi e lt ready enough tree used
        (HasRoom-read d b old at room) bounds absent in
    let (names, cache, size) =
      Leaves-done d d1 success (insert_non_full api fuel b e d) run
        (insert_non_full-Keeps api fuel b e d) in
    let (_, (n, at1, _)) = owned_root i.tree in
    record {
      d' = put_node b (counted n) d1;
      own = own;
      run =
          node_insert_run api fuel b e d (put_node b (counted n) d1) n dir old at room
            (insert_in_root_run api fuel b e d d1 n run at1);
      tree = counted-IsInserted n at1 (owned_root tree).0 i;
      same_names = names;
      same_cache = cache;
      same_size = size;
    }
