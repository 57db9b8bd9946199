-- ===== src/Btfs/Btree/Remove.antt =====
-- Deletion in BasicBTFS/btree.h through the tree: `fill`, `delete`, `remove_from_nonleaf`, which
-- call one another, and `basicbtfs_btree_delete_entry`.
pub mod Leaf
use basic_btfs.Prelude.{
  ℕ, zero, suc, ◌+◌, ◌-◌, true, false, none, some, ltb, leb, ◌==◌, not, ◌&&◌, if◌then◌else◌, update,
  sub32,
}
use basic_btfs.Kernel.{BitmapApi}
use basic_btfs.Btfs.Disk.{
  min_degree, Node, entry_at, Inode, Ret, success, eio, done, fault, out_of_fuel, Cmd, ◌>>=◌, ◌>>◌,
  and_then, with_node, on_success, store, pure,
}
use basic_btfs.Btfs.Btree.Root.{update_root}
use basic_btfs.Btfs.Btree.Delete.{
  child_at, find_key, remove_from_leaf, Found, entry, unreadable, wild, no_fuel, get_predecessor,
  get_successor, with_children, merge, steal_from_previous, steal_from_next,
}

module _ (api : BitmapApi) where
  -- Which neighbour helps.
  unfoldable pub refill : ℕ → ℕ → Node → Node → Node → Cmd Ret
  refill bno index n lhs rhs =
      if not (index == 0) && leb min_degree lhs.nr_of_keys
      then steal_from_previous bno index
      else if not (index == n.nr_of_keys) && leb min_degree rhs.nr_of_keys
      then steal_from_next bno index
      else if not (index == n.nr_of_keys)
      then merge api bno index
      else merge api bno (index - 1)

  -- The answer of the callee is dropped.
  unfoldable pub fill : ℕ → ℕ → Cmd Ret
  fill bno index =
      with_children bno index λ n lhs rhs. refill bno index n lhs rhs >>= λ _. pure success

  -- Put the entry found below in the place of the one at `index`, and delete it below: `child` is
  -- the child to go on in, and `delete` the recursive call.
  unfoldable pub replace_with : (ℕ → ℕ → Cmd Ret) → ℕ → ℕ → ℕ → Found → Cmd Ret
  replace_with delete bno index child (entry e) = with_node bno eio λ n. do
    store bno (record n { entries = update n.entries index e })
    _ ← delete (child_at n child) e.hash
    pure success
  replace_with delete bno index child unreadable = pure eio
  replace_with delete bno index child wild = λ _. fault
  replace_with delete bno index child no_fuel = λ _. out_of_fuel

  unfoldable pub remove_from_nonleaf : ℕ → (ℕ → ℕ → Cmd Ret) → ℕ → ℕ → Cmd Ret
  remove_from_nonleaf fuel delete bno index d =
      with_children bno index
        (λ n lhs rhs.
          if leb min_degree lhs.nr_of_keys
          then replace_with delete bno index index (get_predecessor fuel d.node bno index)
          else if leb min_degree rhs.nr_of_keys
          then replace_with delete bno index (index + 1) (get_successor fuel d.node bno index)
          else (do
            ret ← merge api bno index
            on_success ret (
                with_node bno eio
                  λ n'. do _ ← delete (child_at n' index) (entry_at n index).hash; pure success)))
        d

  -- The key is in `n`: by the kind of node. The answer of the callee is dropped.
  unfoldable pub delete_here : ℕ → (ℕ → ℕ → Cmd Ret) → ℕ → Node → ℕ → Cmd Ret
  delete_here fuel delete bno n index =
      (if n.leaf then remove_from_leaf bno index else remove_from_nonleaf fuel delete bno index)
      >>= λ _. pure success

  -- The key is not in `n`: go on in a child, which is filled first. A leaf is not told apart.
  unfoldable pub delete_below : (ℕ → ℕ → Cmd Ret) → ℕ → Node → ℕ → ℕ → Cmd Ret
  delete_below delete bno n index hash = with_node (child_at n index) eio λ child. do
    ret ← if ltb child.nr_of_keys min_degree then fill bno index else pure success
    on_success ret (with_node bno eio λ n'. do _ ← delete (child_at n' index) hash; pure success)

  unfoldable pub delete : ℕ → ℕ → ℕ → Cmd Ret
  delete zero bno hash d = out_of_fuel
  delete (suc fuel) bno hash d =
      let rest = λ (b h : ℕ). delete fuel b h in
      elim (find_key bno hash d) [
        | none ↦ done eio d
        | some index ↦
            with_node bno eio
              (λ n.
                if ltb index n.nr_of_keys && ((entry_at n index).hash == hash)
                then delete_here fuel rest bno n index
                else delete_below rest bno n index hash)
              d
      ]

  -- An inner root without a key gives way to its only child, which takes its fields.
  unfoldable pub shrink_root : Inode → ℕ → Node → Cmd (Ret × Inode)
  shrink_root inode root_bno node d =
      and_then (update_root inode (node.children 0) d) λ (ret, inode') d'.
        and_then
          (on_success ret
            (with_node (node.children 0) eio λ child. do
              store (node.children 0) (record child {
                nr_of_files = sub32 node.nr_of_files 1;
                nr_times_done = node.nr_times_done;
                tree_name_bno = node.tree_name_bno;
                parent = inode.i_ino;
                root = true;
              })
              store root_bno (record node { root = false })
              pure success)
            d')
          λ ret' d''. done (ret', inode') d''

  -- After a successful `delete` the root counts one file less, or gives way.
  unfoldable pub finish_delete : Inode → ℕ → Ret → Cmd (Ret × Inode)
  finish_delete inode root_bno success d = elim (d.node root_bno) [
    | none ↦ done (eio, inode) d
    | some node ↦
        if (node.nr_of_keys == 0) && not node.leaf
        then shrink_root inode root_bno node d
        else and_then (store root_bno (record node { nr_of_files = sub32 node.nr_of_files 1 }) d)
            λ _ d'. done (success, inode) d'
  ]
  finish_delete inode root_bno ret d = done (ret, inode) d

  -- The buffer of the root is held over `delete`, so it is read again behind it.
  unfoldable pub delete_entry : ℕ → Inode → ℕ → ℕ → Cmd (Ret × Inode)
  delete_entry fuel inode root_bno hash d = elim (d.node root_bno) [
    | none ↦ done (eio, inode) d
    | some _ ↦ and_then (delete fuel root_bno hash d) λ ret d'. finish_delete inode root_bno ret d'
  ]
