-- ===== src/Btfs/Btree/Search.antt =====
-- The look-ups of BasicBTFS/btree.h, and the updates of an entry in place. Each descends from a
-- node to one child; a recursion runs on fuel. The parameter `counter` is only passed on.
pub mod Scan
pub mod Correct
pub mod WithEntry
use basic_btfs.Prelude.{
  ℕ, zero, suc, ◌+◌, ◌||◌, Option, none, some, ltb, ◌==◌, if◌then◌else◌, update,
}
use basic_btfs.Btfs.Disk.{
  Entry, Node, max_keys, entry_at, Store, Ret, success, failed, done, fault, out_of_fuel, Cmd,
  put_node,
}

-- `while (index < nr_of_keys && hash > entries[index].hash) index++;` with `rounds` keys left.
unfoldable pub scan_up : ℕ → (ℕ → Entry) → ℕ → ℕ → ℕ
scan_up zero entries hash index = index
scan_up (suc rounds) entries hash index =
    let rest = scan_up rounds entries hash (index + 1) in
    if ltb (entries index).hash hash then rest else index

unfoldable pub child_index : Node → ℕ → ℕ
unfolding scan_up
child_index n hash = scan_up n.nr_of_keys (entry_at n) hash 0

-- `none` is a run out of fuel. A block that cannot be read counts as "not found", as 0.
unfoldable pub lookup : ℕ → Store → ℕ → ℕ → Option ℕ
lookup zero s root_bno hash = none
lookup (suc fuel) s root_bno hash = elim (s root_bno) [
  | none ↦ some 0
  | some n ↦
      let index = child_index n hash in
      let rest = lookup fuel s (n.children index) hash in
      if (entry_at n index).hash == hash
      then some (entry_at n index).ino
      else if n.leaf
      then some 0
      else rest
]

-- The answer and, where the entry is found, what is copied to `*entry`.
unfoldable pub lookup_with_entry : ℕ → Store → ℕ → ℕ → Option (ℕ × Option Entry)
lookup_with_entry zero s root_bno hash = none
lookup_with_entry (suc fuel) s root_bno hash = elim (s root_bno) [
  | none ↦ some (0, none)
  | some n ↦
      let index = child_index n hash in
      let rest = lookup_with_entry fuel s (n.children index) hash in
      if (entry_at n index).hash == hash
      then some ((entry_at n index).ino, some (entry_at n index))
      else if n.leaf
      then some (0, none)
      else rest
]

-- `entries[index]` written in place; a write behind the array is a fault.
unfoldable pub write_entry : ℕ → Node → ℕ → Entry → Cmd Ret
write_entry bno n index e d =
    if ltb index max_keys
    then done success (put_node bno (record n { entries = update n.entries index e }) d)
    else fault

-- The answer -1 is `failed`; an unreadable block gives 0.
unfoldable pub update_namelist_info : ℕ → ℕ → ℕ → ℕ → ℕ → Cmd Ret
update_namelist_info zero root_bno hash name_bno block_index d = out_of_fuel
update_namelist_info (suc fuel) root_bno hash name_bno block_index d =
    if (root_bno == 0) || ltb d.sbi.s_nblocks root_bno
    then done failed d
    else elim (d.node root_bno) [
      | none ↦ done success d
      | some n ↦
          let index = child_index n hash in
          let e = entry_at n index in
          let rest = update_namelist_info fuel (n.children index) hash name_bno block_index d in
          if e.hash == hash
          then write_entry root_bno n index
              (record e { name_bno = name_bno; block_index = block_index }) d
          else if n.leaf
          then done failed d
          else rest
    ]

unfoldable pub node_update : ℕ → ℕ → ℕ → ℕ → Cmd Ret
node_update zero root_bno hash inode d = out_of_fuel
node_update (suc fuel) root_bno hash inode d = elim (d.node root_bno) [
  | none ↦ done success d
  | some n ↦
      let index = child_index n hash in
      let e = entry_at n index in
      let rest = node_update fuel (n.children index) hash inode d in
      if e.hash == hash
      then write_entry root_bno n index (record e { ino = inode }) d
      else if n.leaf
      then done success d
      else rest
]
