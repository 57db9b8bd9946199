-- ===== src/Btfs/Btree/Insert.antt =====
-- Insertion in BasicBTFS/btree.h: the split of a full child, the descent, the new root. `api` is
-- the kernel's bitmap code.
pub mod Leaf
pub mod Nodes
pub mod Split
pub mod Supply
pub mod Union
pub mod Halves
pub mod Parent
pub mod Whole
pub mod SplitTree
pub mod Descent
pub mod Correct
pub mod Frame
pub mod Counted
mod Tests
use basic_btfs.Prelude.{
  ℕ, zero, suc, ◌+◌, ◌-◌, Bool, ltb, leb, ◌==◌, if◌then◌else◌, update, shift_up, copy_range,
  minus_one,
}
use basic_btfs.Kernel.{BitmapApi}
use basic_btfs.Btfs.Bitmap.{get_free_blocks}
use basic_btfs.Btfs.Disk.{
  min_degree, max_keys, Entry, Node, zero_node, Ret, success, eio, enospc, done, fault, out_of_fuel,
  Cmd, ◌>>=◌, ◌>>◌, with_node, on_success, store,
}

unfoldable pub node_init : Bool → ℕ → Node
node_init leaf par_bno = record zero_node { leaf = leaf; parent = par_bno }

-- The new right half of a full node.
unfoldable pub split_rhs : Node → ℕ → Node
split_rhs lhs par =
    let n = node_init lhs.leaf par in
    record n {
      nr_of_keys = min_degree - 1;
      entries = copy_range (min_degree - 1) 0 0 min_degree lhs.entries n.entries;
      children =
          if lhs.leaf
          then n.children
          else copy_range min_degree 0 0 min_degree lhs.children n.children;
    }

-- The parent, with the middle entry at `index` and the new child behind it.
unfoldable pub split_parent : Node → ℕ → ℕ → Entry → Node
split_parent par index rhs middle = record par {
  children = update (shift_up (par.nr_of_keys - index) (index + 1) par.children) (index + 1) rhs;
  entries = update (shift_up (par.nr_of_keys - index) index par.entries) index middle;
  nr_of_keys = par.nr_of_keys + 1;
}

module _ (api : BitmapApi) where
  -- Entry and child are shifted inside the arrays only if the parent is not full.
  unfoldable pub split_child : ℕ → ℕ → ℕ → Cmd Ret
  split_child par lhs index d =
      let (rhs, sbi) = get_free_blocks api d.sbi 1 in
      let d' = record d { sbi = sbi } in
      if rhs == minus_one
      then done enospc d'
      else with_node par eio
          (λ node_par. with_node lhs eio λ node_lhs. with_node rhs eio λ _.
            if leb max_keys node_par.nr_of_keys then (λ _. fault) else do
              store rhs (split_rhs node_lhs par)
              store lhs (record node_lhs { nr_of_keys = min_degree - 1 })
              store par (split_parent node_par index rhs (node_lhs.entries (min_degree - 1)))
              λ d. done success d)
          d'

-- `while (index >= 0 && entries[index].hash > hash) { entries[index + 1] = entries[index]; index--;
-- }` with `k` for `index + 1`; answers the last `k` too.
unfoldable pub sift : ℕ → (ℕ → Entry) → ℕ → ℕ × (ℕ → Entry)
sift zero entries hash = (zero, entries)
sift (suc k) entries hash =
    let rest = sift k (update entries (k + 1) (entries k)) hash in
    if ltb hash (entries k).hash then rest else (suc k, entries)

-- The same loop without the writes.
unfoldable pub scan_down : ℕ → (ℕ → Entry) → ℕ → ℕ
scan_down zero entries hash = zero
scan_down (suc k) entries hash =
    let rest = scan_down k entries hash in if ltb hash (entries k).hash then rest else suc k

unfoldable pub insert_in_leaf : Node → Entry → Node
insert_in_leaf n e =
    let (k, entries) = sift n.nr_of_keys n.entries e.hash in
    record n { entries = update entries k e; nr_of_keys = n.nr_of_keys + 1 }

module _ (api : BitmapApi) where
  -- After a split the buffer of `bno` has changed in place, so it is read again. The answer of the
  -- recursive call is dropped.
  unfoldable pub insert_non_full : ℕ → ℕ → Entry → Cmd Ret
  insert_non_full zero bno e d = out_of_fuel
  insert_non_full (suc fuel) bno e d =
      with_node bno eio
        (λ n.
          if n.leaf
          then (if leb max_keys n.nr_of_keys
              then (λ _. fault)
              else do store bno (insert_in_leaf n e); λ d. done success d)
          else (let k = scan_down n.nr_of_keys n.entries e.hash in
              with_node (n.children k) eio λ child.
                if child.nr_of_keys == max_keys
                then (do
                  ret ← split_child api bno (n.children k) k
                  on_success ret (
                      with_node bno eio λ n'.
                        let k' = if ltb (n'.entries k).hash e.hash then k + 1 else k in
                        do insert_non_full fuel (n'.children k') e; λ d. done success d))
                else (do insert_non_full fuel (n.children k) e; λ d. done success d)))
        d
