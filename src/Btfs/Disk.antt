-- ===== src/Btfs/Disk.antt =====
-- The structures of BasicBTFS/basicbtfs.h that the B-tree code uses, the state that it changes, and
-- the small monad in which its functions are written. `sb_bread` is a look-up that may fail; a
-- buffer is written in place, so a write is a store at the block's number.
use basic_btfs.Prelude.{
  ℕ, ◌+◌, ◌-◌, ◌*◌, Bool, false, Option, none, some, List, ltb, if◌then◌else◌, update,
}
use basic_btfs.Btfs.Super.{SbInfo}
use basic_btfs.Btfs.NameBlock.{NameBlock, CachedName}

-- BASICBTFS_MIN_DEGREE, and the number of entries and of children of a node.
abbrev pub min_degree : ℕ
min_degree = 80

abbrev pub max_keys : ℕ
max_keys = 159

abbrev pub max_children : ℕ
max_children = 160

-- `struct basicbtfs_entry`.
pub record Entry : Type 0 where
  pub ino : ℕ
  pub hash : ℕ
  pub name_bno : ℕ
  pub block_index : ℕ

abbrev pub zero_entry : Entry
zero_entry = record { ino = 0; hash = 0; name_bno = 0; block_index = 0 }

-- `struct basicbtfs_btree_node`; the arrays are functions of the index.
pub record Node : Type 0 where
  pub entries : ℕ → Entry
  pub children : ℕ → ℕ
  pub parent : ℕ
  pub tree_name_bno : ℕ
  pub nr_of_keys : ℕ
  pub nr_of_files : ℕ
  pub nr_times_done : ℕ
  pub leaf : Bool
  pub root : Bool

-- What a zeroed block holds.
abbrev pub zero_node : Node
zero_node = record {
  entries = λ _. zero_entry;
  children = λ _. 0;
  parent = 0;
  tree_name_bno = 0;
  nr_of_keys = 0;
  nr_of_files = 0;
  nr_times_done = 0;
  leaf = false;
  root = false;
}

-- A read of `entries[i]`. The array `children` follows `entries` in the struct, so the read of the
-- entry behind the last is a read of four children.
unfoldable pub entry_at : Node → ℕ → Entry
entry_at n i = if ltb i max_keys then n.entries i else record {
  ino = n.children (4 * (i - max_keys));
  hash = n.children (4 * (i - max_keys) + 1);
  name_bno = n.children (4 * (i - max_keys) + 2);
  block_index = n.children (4 * (i - max_keys) + 3);
}

-- A directory in the cache, `struct basicbtfs_btree_dir_cache_list`: `root_nodes` are the addresses
-- of its cached nodes, the root first, and `name_blocks` the copies of its blocks of names.
pub record DirCache : Type 0 where
  pub bno : ℕ
  pub nr_of_blocks : ℕ
  pub root_nodes : List ℕ
  pub name_blocks : List CachedName

-- The blocks read as B-tree nodes. `none`: `sb_bread` returns no buffer.
abbrev pub Store : Type 0
Store = ℕ → Option Node

-- The blocks read as blocks of a name list, too. `inode_root` is the field `i_bno` of the inodes on
-- disk, by block and index in the block. `cached` are the nodes in the cache by their address, with
-- the addresses of other nodes for children; 0 is NULL.
pub record Disk : Type 0 where
  pub sbi : SbInfo
  pub node : Store
  pub names : ℕ → Option NameBlock
  pub inode_root : ℕ → Option (ℕ → ℕ)
  pub dir_cache : List DirCache
  pub cached : Store

-- The inode in memory of a directory: its number, and `i_bno`, the block of the root of its tree.
pub record Inode : Type 0 where
  pub i_ino : ℕ
  pub i_bno : ℕ

-- What a function of type `int` returns: 0, -EIO, -ENOSPC, -1.
pub data Ret : Type 0 where
  success eio enospc failed : Ret

-- A run ends in a state, writes outside an array, or is cut off.
pub data Run (A : Type 0) : Type 0 where
  done : A → Disk → Run A
  fault : Run A
  out_of_fuel : Run A

abbrev pub Cmd : Type 0 → Type 0
Cmd A = Disk → Run A

abbrev pub pure : {A : Type 0} → A → Cmd A
pure = done

module _ {A B : Type 0} where
  abbrev pub and_then : Run A → (A → Cmd B) → Run B
  and_then (done a d) k = k a d
  and_then fault k = fault
  and_then out_of_fuel k = out_of_fuel

  infixl 5 ◌>>=◌ ◌>>◌
  abbrev pub ◌>>=◌ : Cmd A → (A → Cmd B) → Cmd B
  m >>= k = λ d. and_then (m d) k

  abbrev pub ◌>>◌ : Cmd A → Cmd B → Cmd B
  m >> n = m >>= λ _. n

-- `bh = sb_bread(sb, bno); if (!bh) return failure;` with the rest of the function.
abbrev pub with_node : ℕ → Ret → (Node → Cmd Ret) → Cmd Ret
with_node bno failure k d = elim (d.node bno) [ none ↦ done failure d | some n ↦ k n d ]

-- `if (ret != 0) return ret;` with the rest of the function.
abbrev pub on_success : Ret → Cmd Ret → Cmd Ret
on_success success k = k
on_success eio k = pure eio
on_success enospc k = pure enospc
on_success failed k = pure failed

unfoldable pub put_node : ℕ → Node → Disk → Disk
put_node bno n d = record d { node = update d.node bno (some n) }

-- The node at an address of the cache, with the rest of the function.
abbrev pub with_cached : {A : Type 0} → ℕ → (Node → Cmd A) → Cmd A
with_cached address k d = elim (d.cached address) [ none ↦ fault | some n ↦ k n d ]

abbrev pub store_cached : ℕ → Node → Cmd (Unit {0})
store_cached address n d = done tt (record d { cached = update d.cached address (some n) })

abbrev pub store : ℕ → Node → Cmd (Unit {0})
store bno n d = done tt (put_node bno n d)
