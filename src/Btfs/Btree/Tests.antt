-- ===== src/Btfs/Btree/Tests.antt =====
-- Small directory trees, runs of BasicBTFS/btree.h on them, and the theorems at them.
use basic_btfs.Prelude.{
  ℕ, zero, suc, ◌+◌, ◌*◌, ◌≤◌, ◌<◌, ◌≡◌, ◌≢◌, ◌⊎◌, refl, Bool, true, false, Option, none, some, [],
  arith, ltb, ◌==◌, if◌then◌else◌, inl, inr,
}
use basic_btfs.Kernel.{plain_api}
use basic_btfs.Btfs.Bitmap.{put_blocks}
use basic_btfs.Btfs.Bitmap.Tests.{small}
use basic_btfs.Btfs.Btree.Search.WithEntry.{answer, IsMatch, lookup_with_entry_lem}
use basic_btfs.Btfs.Disk.{
  max_keys, Entry, Node, zero_entry, zero_node, entry_at, Store, Disk, success, done, fault,
  out_of_fuel, put_node,
}
use basic_btfs.Btfs.Btree.Shape.{
  IsNode, low_of, high_of, IsTree, leaf, inner, Holds, here, under, holds_in,
}
use basic_btfs.Btfs.Btree.Search.{lookup_with_entry, lookup, child_index, scan_up}
use basic_btfs.Btfs.Btree.Search.Correct.{NoStale, lookup-Holds, lookup_absent}
use basic_btfs.Btfs.Btree.Delete.{
  merge_lhs, copy_children, merge, drop_entry, find_key, remove_from_leaf,
}
use basic_btfs.Btfs.Btree.Delete.Merge.{merge_inner, merge_frees_next, merge_last}
use basic_btfs.Btfs.Btree.Remove.{delete, delete_here}
use basic_btfs.Btfs.Btree.Remove.Leaf.{In, delete_leaf, lookup-delete_last}

abbrev pub file : ℕ → ℕ → Entry
file ino hash = record { ino = ino; hash = hash; name_bno = 9; block_index = 28 }

-- A node with `size` keys: `first`, `first` + 10, and so on.
abbrev pub rising : Bool → ℕ → ℕ → (ℕ → ℕ) → Node
rising isleaf size first kids = record zero_node {
  entries = λ i. if ltb i size then file (i + 1) (first + i * 10) else zero_entry;
  children = kids;
  nr_of_keys = size;
  leaf = isleaf;
}

rising-IsNode :
    (isleaf : Bool) (size first hi : ℕ) (kids : ℕ → ℕ)
    → size ≤ max_keys
    → first + size * 10 ≤ hi + 9
    → IsNode (rising isleaf size first kids) first hi
rising-IsNode isleaf size first hi kids le top = record {
  size = le;
  sorted = λ i j p q. ground arith;
  above = λ i p. ground arith;
  below = λ i p. ground arith;
}

abbrev pub no_kids : ℕ → ℕ
no_kids i = 0

-- Block 5 has the key 20 and the children 6, with the key 10, and 8, with the key 30.
abbrev root_node : Node
root_node = rising false 1 20 (λ i. 6 + i * 2)

abbrev left_leaf : Node
left_leaf = rising true 1 10 no_kids

abbrev right_leaf : Node
right_leaf = rising true 1 30 no_kids

abbrev pub disk : (ℕ → Option Node) → Disk
disk s = record {
  sbi = small;
  node = s;
  names = λ _. none;
  inode_root = λ _. none;
  dir_cache = [];
  cached = λ _. none;
}

abbrev blocks : Store
blocks b =
    if b == 5
    then some root_node
    else if b == 6
    then some left_leaf
    else if b == 8
    then some right_leaf
    else none

one_key-IsNode :
    (isleaf : Bool) (first lo hi : ℕ) (kids : ℕ → ℕ)
    → lo ≤ first
    → first < hi
    → IsNode (rising isleaf 1 first kids) lo hi
one_key-IsNode isleaf first lo hi kids low high = record {
  size = omega arith;
  sorted = λ i j p q. absurd (omega arith);
  above = λ i p. ground arith;
  below = λ i p. ground arith;
}

-- The slot behind the one key is zero.
one_key-NoStale :
    (isleaf : Bool) (first hash : ℕ) (kids : ℕ → ℕ)
    → 0 < hash
    → NoStale hash (rising isleaf 1 first kids)
unfolding entry_at
one_key-NoStale isleaf first hash kids pos e = omega arith

abbrev Child : ℕ → ℕ → Type 0
Child hash i =
    IsTree (NoStale hash) blocks 0 (6 + i * 2) (low_of root_node 0 i) (high_of root_node 50 i)

children-IsTree : (hash i : ℕ) → 0 < hash → i ≤ 1 → Child hash i
children-IsTree hash zero pos le =
    leaf left_leaf refl refl (one_key-NoStale true 10 hash no_kids pos)
      (one_key-IsNode true 10 0 20 no_kids (omega arith) (omega arith))
children-IsTree hash (suc zero) pos le =
    leaf right_leaf refl refl (one_key-NoStale true 30 hash no_kids pos)
      (one_key-IsNode true 30 21 50 no_kids (omega arith) (omega arith))
children-IsTree hash (suc (suc i)) pos le = absurd (omega arith)

two_levels : (hash : ℕ) → 0 < hash → IsTree (NoStale hash) blocks 1 5 0 50
two_levels hash pos =
    inner root_node refl refl (one_key-NoStale false 20 hash (λ i. 6 + i * 2) pos)
      (one_key-IsNode false 20 0 50 (λ i. 6 + i * 2) (omega arith) (omega arith))
      λ i le. children-IsTree hash i pos le

entry_30-Holds : Holds blocks (file 1 30) 5
entry_30-Holds =
    under root_node 1 refl refl (omega arith) (here right_leaf 0 refl (omega arith) refl)

lookup_runs : (lookup 2 blocks 5 10 ≡ some 1) × (lookup 2 blocks 5 11 ≡ some 0)
unfolding lookup child_index scan_up entry_at
lookup_runs = (refl, refl)

lookup-Holds_example : lookup 2 blocks 5 30 ≡ some 1
lookup-Holds_example =
    lookup-Holds 2 (two_levels 30 (omega arith)) (omega arith) entry_30-Holds refl

-- A tree of one leaf.
only_left : IsTree (NoStale 11) blocks 0 6 0 20
only_left = children-IsTree 11 0 (omega arith) (omega arith)

not_11 : (e : Entry) → Holds blocks e 6 → e.hash ≢ 11
not_11 e h = elim (holds_in left_leaf refl h) [
  | inl (i, lt, at) ↦ ground arith
  | inr (i, isinner, _, _) ↦ absurd (cc)
]

lookup_absent_example : lookup 1 blocks 6 11 ≡ some 0
lookup_absent_example = lookup_absent 1 only_left (omega arith) not_11

-- A leaf with the keys 10, 20 and 30.
abbrev three_keys : Node
three_keys = rising true 3 10 no_kids

three_keys-IsNode : IsNode three_keys 10 100
three_keys-IsNode = rising-IsNode true 3 10 100 no_kids (omega arith) (omega arith)

abbrev one_leaf : Disk
one_leaf = disk λ b. if b == 6 then some three_keys else none

delete_leaf_example :
    (n' : Node) × (delete plain_api 1 6 20 one_leaf ≡ done success (put_node 6 n' one_leaf))
    × IsNode n' 10 100
    × ((e : Entry) → In e n' → In e three_keys × (e.hash ≢ 20))
    × ((e : Entry) → In e three_keys → e.hash ≢ 20 → In e n')
delete_leaf_example =
    delete_leaf plain_api one_leaf 6 0 three_keys 10 100 1 refl refl three_keys-IsNode (omega arith)

delete_30 :
    delete plain_api 1 6 30 one_leaf ≡ done success (put_node 6 (drop_entry three_keys 2) one_leaf)
unfolding delete delete_here find_key scan_up remove_from_leaf entry_at
delete_30 = refl

lookup-delete_last_example :
    lookup 1 (put_node 6 (drop_entry three_keys 2) one_leaf).node 6 30 ≡ some 3
lookup-delete_last_example =
    lookup-delete_last plain_api one_leaf (put_node 6 (drop_entry three_keys 2) one_leaf) 6 0 2
      three_keys 10 100 refl refl three_keys-IsNode refl delete_30

not_25 : (x : Entry) → In x three_keys → x.hash ≢ 25
not_25 x (i, p, at) = ground arith

-- A node with one key over two children, at the blocks 3 and 4.
abbrev two_under : Node → Node → Node → Store
two_under n l r b =
    if b == 2 then some n else if b == 3 then some l else if b == 4 then some r else none

abbrev over : ℕ → Node
over size = rising false size 1000 (λ i. 3 + i)

abbrev low_inner : Node
low_inner = rising false 79 100 (λ i. 20 + i)

abbrev low_leaf : Node
low_leaf = rising true 79 100 no_kids

abbrev high_leaf : Node
high_leaf = rising true 79 1001 no_kids

abbrev inner_state : Disk
inner_state = disk (two_under (over 1) low_inner high_leaf)

abbrev joined_inner : Node
joined_inner = merge_lhs low_inner (entry_at (over 1) 0) high_leaf

merge_inner_example :
    (merge plain_api 2 0 inner_state ≡ fault)
    × ((rounds : ℕ)
        → rounds ≤ 80
        → copy_children rounds 0 high_leaf joined_inner inner_state ≡ out_of_fuel)
    × ((rounds : ℕ)
        → 80 < rounds
        → copy_children rounds 0 high_leaf joined_inner inner_state ≡ fault)
merge_inner_example =
    merge_inner plain_api inner_state 2 0 (over 1) low_inner high_leaf refl (omega arith) refl refl
      refl (omega arith, omega arith)

-- Three keys: the right child of the merge is not the last.
abbrev wide : Disk
wide = disk (two_under (over 3) low_leaf high_leaf)

merge_frees_next_example :
    (d' : Disk) × (n' : Node) × (merge plain_api 2 0 wide ≡ done success d')
    × (d'.sbi ≡ put_blocks plain_api small 5 1)
    × (d'.node 2 ≡ some n')
    × (n'.children 1 ≡ 0)
    × ((j : ℕ) → 1 < j → j < 3 → n'.children j ≡ 3 + (j + 1))
merge_frees_next_example =
    merge_frees_next plain_api wide 2 0 (over 3) low_leaf high_leaf refl (omega arith) refl refl
      refl (omega arith) (omega arith) (omega arith) (omega arith)

abbrev narrow : Disk
narrow = disk (two_under (over 1) low_leaf high_leaf)

merge_last_example :
    (d' : Disk) × (n' : Node) × (joined : Node) × (merge plain_api 2 0 narrow ≡ done success d')
    × (d'.sbi ≡ put_blocks plain_api small 4 1)
    × (d'.node 2 ≡ some n')
    × (n'.nr_of_keys + 1 ≡ 1)
    × ((j : ℕ) → j ≤ 0 → (n'.entries j ≡ (over 1).entries j) × (n'.children j ≡ 3 + j))
    × (d'.node 3 ≡ some joined)
    × IsNode joined 100 2000
    × ((x : Entry) → (In x low_leaf ⊎ In x high_leaf) ⊎ (x ≡ file 1 1000) → In x joined)
    × ((x : Entry) → In x joined → (In x low_leaf ⊎ In x high_leaf) ⊎ (x ≡ file 1 1000))
merge_last_example =
    merge_last plain_api narrow 2 0 100 2000 (over 1) low_leaf high_leaf refl refl refl refl
      (refl, omega arith) (omega arith)
      (rising-IsNode true 79 100 1000 no_kids (omega arith) (omega arith))
      (rising-IsNode true 79 1001 2000 no_kids (omega arith) (omega arith))
      (omega arith, omega arith) (refl, omega arith)

lookup_with_entry_lem_example :
    (answer (lookup_with_entry 2 blocks 5 30) ≡ lookup 2 blocks 5 30)
    × IsMatch 30 (lookup_with_entry 2 blocks 5 30)
lookup_with_entry_lem_example = lookup_with_entry_lem 2 blocks 5 30
