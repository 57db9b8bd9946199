-- ===== src/Btfs/Btree/Delete.antt =====
-- Deletion in BasicBTFS/btree.h on one node and its neighbours: removal from a leaf, predecessor
-- and successor, merge, and the two ways to borrow an entry.
pub mod Merge
use basic_btfs.Prelude.{
  ℕ, zero, suc, ◌+◌, ◌-◌, true, Option, none, some, ltb, leb, ◌==◌, ◌||◌, if◌then◌else◌, update,
  shift_up, shift_down, copy_range, add32, sub32,
}
use basic_btfs.Kernel.{BitmapApi}
use basic_btfs.Btfs.Bitmap.{put_blocks}
use basic_btfs.Btfs.Disk.{
  min_degree, max_keys, max_children, Entry, Node, entry_at, Disk, Ret, success, eio, failed, done,
  fault, out_of_fuel, Cmd, pure, ◌>>=◌, ◌>>◌, with_node, store, put_node,
}
use basic_btfs.Btfs.Btree.Search.{scan_up}

-- A read of `children[i]`. The field behind the array is `parent`, then `tree_name_bno`.
unfoldable pub child_at : Node → ℕ → ℕ
child_at n i =
    if ltb i max_children
    then n.children i
    else if i == max_children
    then n.parent
    else n.tree_name_bno

-- The number of keys below `hash`; -1 is `none`.
unfoldable pub find_key : ℕ → ℕ → Disk → Option ℕ
find_key bno hash d = elim (d.node bno) [
  | none ↦ none
  | some n ↦ some (scan_up n.nr_of_keys n.entries hash 0)
]

-- The node less the entry at `index`; the loop moves the later ones down.
unfoldable pub drop_entry : Node → ℕ → Node
drop_entry n index = record n {
  entries = shift_down (n.nr_of_keys - index - 1) index n.entries;
  nr_of_keys = sub32 n.nr_of_keys 1;
}

unfoldable pub remove_from_leaf : ℕ → ℕ → Cmd Ret
remove_from_leaf bno index d = elim (d.node bno) [
  | none ↦ done failed d
  | some n ↦ done success (put_node bno (drop_entry n index) d)
]

-- What `get_predecessor` and `get_succesor` copy to `*ret`, or -EIO.
pub data Found : Type 0 where
  entry : Entry → Found
  unreadable : Found
  wild : Found
  no_fuel : Found

-- Down the last children to a leaf, and its last entry. A leaf with no key makes the code read at
-- index 2 ^ 32 - 1.
unfoldable pub rightmost : ℕ → (ℕ → Option Node) → ℕ → Found
rightmost zero s bno = no_fuel
rightmost (suc fuel) s bno = elim (s bno) [
  | none ↦ unreadable
  | some n ↦
      let rest = rightmost fuel s (child_at n n.nr_of_keys) in
      if n.leaf
      then (if n.nr_of_keys == 0 then wild else entry (entry_at n (n.nr_of_keys - 1)))
      else rest
]

unfoldable pub leftmost : ℕ → (ℕ → Option Node) → ℕ → Found
leftmost zero s bno = no_fuel
leftmost (suc fuel) s bno = elim (s bno) [
  | none ↦ unreadable
  | some n ↦
      let rest = leftmost fuel s (n.children 0) in if n.leaf then entry (n.entries 0) else rest
]

unfoldable pub get_predecessor : ℕ → (ℕ → Option Node) → ℕ → ℕ → Found
get_predecessor fuel s bno index = elim (s bno) [
  | none ↦ unreadable
  | some n ↦ rightmost fuel s (child_at n index)
]

unfoldable pub get_successor : ℕ → (ℕ → Option Node) → ℕ → ℕ → Found
get_successor fuel s bno index = elim (s bno) [
  | none ↦ unreadable
  | some n ↦ leftmost fuel s (child_at n (index + 1))
]

-- The left child with the entry between and the entries of the right child.
unfoldable pub merge_lhs : Node → Entry → Node → Node
merge_lhs lhs middle rhs = record lhs {
  entries =
      copy_range rhs.nr_of_keys 0 min_degree 0 rhs.entries
        (update lhs.entries (min_degree - 1) middle);
  nr_of_keys = add32 (add32 lhs.nr_of_keys rhs.nr_of_keys) 1;
}

-- The parent after both loops.
unfoldable pub merge_parent : Node → ℕ → Node
merge_parent n index = record n {
  entries = shift_down (n.nr_of_keys - index - 1) index n.entries;
  children = shift_down (n.nr_of_keys - index - 1) (index + 1) n.children;
  nr_of_keys = sub32 n.nr_of_keys 1;
}

-- The three buffers that a function on two children of a node reads, in this order.
abbrev pub with_children : ℕ → ℕ → (Node → Node → Node → Cmd Ret) → Cmd Ret
with_children bno index k = with_node bno eio λ n.
    with_node (child_at n index) eio
      λ lhs. with_node (child_at n (index + 1)) eio λ rhs. k n lhs rhs

-- The loop over the children of the right node, from `i` on, for at most `rounds` rounds. Its test
-- is `rhs->nr_of_keys`, which the loop does not change. A write past the array is a fault.
unfoldable pub copy_children : ℕ → ℕ → Node → Node → Cmd Node
copy_children zero i rhs lhs = λ _. out_of_fuel
copy_children (suc rounds) i rhs lhs =
    let rest =
      copy_children rounds (i + 1) rhs
        (record lhs { children = update lhs.children (i + min_degree) (child_at rhs i) }) in
    if rhs.nr_of_keys == 0
    then pure lhs
    else if leb max_children (i + min_degree)
    then (λ _. fault)
    else rest

-- Only inner nodes have children. The loop writes outside the array before its rounds are used up.
unfoldable pub join_children : Node → Node → Cmd Node
join_children rhs lhs = if lhs.leaf then pure lhs else copy_children max_children 0 rhs lhs

module _ (api : BitmapApi) where
  -- The block that is freed is read from `children[index + 1]` after the children have moved down.
  unfoldable pub merge : ℕ → ℕ → Cmd Ret
  merge bno index = with_children bno index λ n lhs rhs.
      if ltb (min_degree - 1) rhs.nr_of_keys
      then (λ _. fault)
      else (let n' = merge_parent n index in
          do
            joined ← join_children rhs (merge_lhs lhs (entry_at n index) rhs)
            store (child_at n index) joined
            store bno (record n' { children = update n'.children (index + 1) 0 })
            λ d. done success (record d { sbi = put_blocks api d.sbi (child_at n' (index + 1)) 1 }))

-- `lhs` and `rhs` are the children at `index` and `index + 1`, the entry is that at `index - 1`.
unfoldable pub steal_from_previous : ℕ → ℕ → Cmd Ret
steal_from_previous bno index = with_children bno index λ n lhs rhs.
    if leb max_keys rhs.nr_of_keys || index == 0 || lhs.nr_of_keys == 0 then (λ _. fault) else (do
      store (child_at n (index + 1)) (record rhs {
        entries = update (shift_up rhs.nr_of_keys 0 rhs.entries) 0 (n.entries (index - 1));
        children =
            if rhs.leaf
            then rhs.children
            else update (shift_up (rhs.nr_of_keys + 1) 0 rhs.children) 0
                (child_at lhs lhs.nr_of_keys);
        nr_of_keys = rhs.nr_of_keys + 1;
      })
      store (child_at n index) (record lhs { nr_of_keys = sub32 lhs.nr_of_keys 1 })
      store bno
          (record n { entries = update n.entries (index - 1) (entry_at lhs (lhs.nr_of_keys - 1)) })
      λ d. done success d)

unfoldable pub steal_from_next : ℕ → ℕ → Cmd Ret
steal_from_next bno index = with_children bno index λ n lhs rhs.
    if leb max_keys lhs.nr_of_keys then (λ _. fault) else (do
      store (child_at n index) (record lhs {
        entries = update lhs.entries lhs.nr_of_keys (entry_at n index);
        children =
            if lhs.leaf
            then lhs.children
            else update lhs.children (lhs.nr_of_keys + 1) (rhs.children 0);
        nr_of_keys = lhs.nr_of_keys + 1;
      })
      store (child_at n (index + 1)) (record rhs {
        entries = shift_down (rhs.nr_of_keys - 1) 0 rhs.entries;
        children = if rhs.leaf then rhs.children else shift_down rhs.nr_of_keys 0 rhs.children;
        nr_of_keys = sub32 rhs.nr_of_keys 1;
      })
      store bno (record n { entries = update n.entries index (rhs.entries 0) })
      λ d. done success d)
