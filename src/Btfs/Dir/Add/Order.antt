-- ===== src/Btfs/Dir/Add/Order.antt =====
-- `basicbtfs_add_entry` of BasicBTFS/dir.c: the directory is in order behind it.
use basic_btfs.Prelude.{ℕ, ◌≡◌, ◌≢◌, true, false, some, List, inl, inr, arith}
use basic_btfs.Kernel.{Bits, BitmapApi}
use basic_btfs.Btfs.Super.{SbInfo}
use basic_btfs.Btfs.Disk.{Entry, Node, Disk, Inode}
use basic_btfs.Btfs.Btree.Insert.Supply.{IsTakenBlock}
use basic_btfs.Btfs.Btree.Insert.Counted.{IsNodeInserted}
use basic_btfs.Btfs.Names.{Dirent}
use basic_btfs.Btfs.Names.Chain.{IsChain, NotIn}
use basic_btfs.Btfs.Names.Insert.{IsBeside}
use basic_btfs.Btfs.Dir.Add.{IsDirectory, IsGrown}

-- The directory is in order behind both insertions.
module _ (api : BitmapApi) (d d1 : Disk) (dir : Inode) (blocks : Bits) (h lo hi taken : ℕ)
    (sbi : SbInfo) (root : Node) (ss first : List Dirent) (rest others : List (ℕ × List Dirent))
    (e : Entry) (fuel : ℕ) (is : IsDirectory d dir blocks h lo hi root ss rest)
    (t : IsTakenBlock d taken sbi)
    (beside : IsBeside api dir.i_bno root.tree_name_bno d d1 rest others taken)
    (g : IsGrown d d1 rest others) (chain : IsChain d1.names root.tree_name_bno first others)
    (i : IsNodeInserted api fuel h dir.i_bno lo hi dir e d1 blocks) where
  own_outside : (x : ℕ) → i.own x ≡ true → (x ≢ root.tree_name_bno) × NotIn x others
  own_outside x q = elim (i.tree.old_or_free x q) [
    | inl o ↦
        let (ne, out) = is.separate x o in
        (ne, beside.blocks x out λ same. ground (arith, is.tree_used x, t.clear))
    | inr o ↦
        let was : d.sbi.s_bfree_bitmap x ≡ false = ground (arith, g.kept x) in
        let (ne, out) = is.chain_used x was in (ne, g.outside x o out)
  ]

  pub after-IsDirectory :
      (root' : Node)
      → i.d'.node dir.i_bno ≡ some root'
      → IsDirectory i.d' dir i.own h lo hi root' first others
  after-IsDirectory root' at =
      let list : root'.tree_name_bno ≡ root.tree_name_bno =
        i.tree.same_list root root' (rw beside.same_node is.root_at) at in
      record {
        ready = i.tree.ready;
        names_read = λ x lt.
            let (b, there) = is.names_read x (rw (← g.size, ← i.same_size) lt) in
            rw i.same_names (beside.reads x b there);
        root_at = at;
        tree = i.tree.tree;
        tree_used = i.tree.in_use;
        chain = rw (list, i.same_names) chain;
        apart = rw list beside.apart;
        chain_used = λ x q.
            let free1 : d1.sbi.s_bfree_bitmap x ≡ false = ground (arith, i.tree.kept_use x) in
            let free0 : d.sbi.s_bfree_bitmap x ≡ false = ground (arith, g.kept x) in
            let (ne, out) = is.chain_used x free0 in rw list (ne, g.outside x free1 out);
        separate = λ x q. rw list (own_outside x q);
        uncached = rw i.same_cache (beside.uncached is.uncached);
      }
