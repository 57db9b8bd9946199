-- ===== src/Btfs/Inode/Tests.antt =====
-- Removing a directory that is not empty, BasicBTFS/inode.c.
use basic_btfs.Prelude.{
  ℕ, ◌<◌, ◌≡◌, refl, true, false, none, some, List, [], ◌∷◌, arith, ◌==◌, if◌then◌else◌, inl, inr,
  update,
}
use basic_btfs.Kernel.{plain_api, plain_api-IsBitmapApi}
use basic_btfs.Btfs.Disk.{
  Node, entry_at, Store, Disk, Inode, Ret, Run, success, done, fault, out_of_fuel, put_node,
}
use basic_btfs.Btfs.Btree.Shape.{IsNode, leaf}
use basic_btfs.Btfs.Btree.Search.{lookup_with_entry, child_index, scan_up}
use basic_btfs.Btfs.Btree.Delete.{find_key, remove_from_leaf, drop_entry}
use basic_btfs.Btfs.Btree.Remove
use basic_btfs.Btfs.Btree.Tests.{file, rising, no_kids, disk}
use basic_btfs.Btfs.Cache.{find_dir, cache_get_root_node}
use basic_btfs.Btfs.Names.{put_names, delete_name}
use basic_btfs.Btfs.Names.Chain.{Names}
use basic_btfs.Btfs.Names.Tests.{one_name, one_slot, one_name-IsNameBlock, one_name-next}
use basic_btfs.Btfs.Dir.{get_hash_from_block, place_of, delete_entry, delete_everywhere}
use basic_btfs.Btfs.Dir.Free.{InTree, in_leaf}
use basic_btfs.Btfs.Dir.FreeNames.{InChain}
use basic_btfs.Btfs.Inode.{rmdir, enotempty}
use basic_btfs.Btfs.Inode.Rmdir.{rmdir_not_empty}

-- The parent, in block 6, has one entry, whose name is in block 9. The directory to be removed, in
-- block 8, has a file, and its names are in block 10.
abbrev parent : Node
parent = rising true 1 10 no_kids

abbrev child : Node
child = record (rising true 1 30 no_kids) { nr_of_files = 1; tree_name_bno = 10 }

abbrev nodes : Store
nodes b = if b == 6 then some parent else if b == 8 then some child else none

abbrev names : Names
names b = some one_name

abbrev state : Disk
state = record (disk nodes) { names = names }

abbrev dir : Inode
dir = record { i_ino = 3; i_bno = 6 }

abbrev inode : Inode
inode = record { i_ino = 1; i_bno = 8 }

abbrev ten : ℕ → List ℕ → ℕ
ten _ _ = 10

abbrev deletion : Run (Ret × Inode)
deletion = delete_entry plain_api (λ _. 100) ten 2 dir (b'a' ∷ []) (file 0 0) state

abbrev state_of : {A : Type 0} → Run A → Disk
state_of (done a d) = d
state_of fault = state
state_of out_of_fuel = state

-- The deletion succeeds, and leaves the child and its names.
after_deletion :
    (deletion ≡ done (success, dir) (state_of deletion))
    × ((state_of deletion).node 8 ≡ some child)
    × ((state_of deletion).names 10 ≡ some one_name)
    × ((state_of deletion).sbi.s_nblocks ≡ 12)
unfolding delete_entry cache_get_root_node find_dir lookup_with_entry child_index scan_up entry_at
    get_hash_from_block place_of delete_everywhere Remove.delete_entry Remove.delete find_key
    Remove.delete_here remove_from_leaf drop_entry Remove.finish_delete delete_name put_names
    put_node update
after_deletion = (refl, refl, refl, refl)

child-IsNode : IsNode child 0 50
child-IsNode = record {
  size = omega arith;
  sorted = λ i j p q. absurd (omega arith);
  above = λ i p. ground arith;
  below = λ i p. ground arith;
}

tree_inside :
    (x : ℕ)
    → InTree (state_of deletion).node 8 x
    → (0 < x) × (x < (state_of deletion).sbi.s_nblocks)
tree_inside x t =
    let e = in_leaf plain_api plain_api-IsBitmapApi child after_deletion.1 refl t in
    rw (e, after_deletion.3) (omega arith)

names_inside : (x : ℕ) → InChain 10 [] x → x < (state_of deletion).sbi.s_nblocks
names_inside x (inl e) = rw (e, after_deletion.3) (omega arith)
names_inside x (inr none_left) = absurd none_left

rmdir_not_empty_example :
    (d2 : Disk) × (rmdir plain_api (λ _. 100) ten 2 dir (b'a' ∷ []) (file 0 0) inode 2 state
      ≡ done (enotempty, dir) d2)
    × ((x : ℕ) → InTree (state_of deletion).node 8 x → d2.sbi.s_bfree_bitmap x ≡ false)
    × ((x : ℕ) → InChain 10 [] x → d2.sbi.s_bfree_bitmap x ≡ false)
rmdir_not_empty_example =
    rmdir_not_empty plain_api plain_api-IsBitmapApi (λ _. 100) ten {P = λ _. Unit {0}} 2 0 0 50 dir
      dir inode (b'a' ∷ []) (file 0 0) 2 child state (state_of deletion) one_slot []
      after_deletion.0 after_deletion.1 (omega arith)
      (leaf child after_deletion.1 refl tt child-IsNode) (omega arith) tree_inside
      (one_name, after_deletion.2, one_name-IsNameBlock, one_name-next) (omega arith) names_inside
      (rw after_deletion.3 (omega arith))
