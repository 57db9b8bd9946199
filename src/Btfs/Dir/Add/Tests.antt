-- ===== src/Btfs/Dir/Add/Tests.antt =====
-- A directory of one file that is not in the cache, and the theorem on `basicbtfs_add_entry` at it.
use basic_btfs.Prelude.{
  ℕ, zero, suc, length, minus_one, ne→==, ◌≡◌, ◌≢◌, refl, ap, inl, inr, Bool-cases, false, true,
  some, none, List, [], ◌∷◌, arith, ◌==◌, if◌then◌else◌,
}
use basic_btfs.Kernel.{Bits, plain_api, plain_api-IsBitmapApi}
use basic_btfs.Btfs.NameBlock.{NameBlock}
use basic_btfs.Btfs.Disk.{success, done, Entry, Node, zero_node, entry_at, Disk, Inode}
use basic_btfs.Btfs.Bitmap.Count.{count_clear}
use basic_btfs.Btfs.Btree.Search.{lookup, child_index, scan_up}
use basic_btfs.Btfs.Btree.Shape.{IsNode, Holds, holds_in}
use basic_btfs.Btfs.Btree.Owned.{owned_leaf}
use basic_btfs.Btfs.Btree.Insert.Supply.{free}
use basic_btfs.Btfs.Btree.Tests.{file, rising, no_kids, disk}
use basic_btfs.Btfs.Cache.{find_dir}
use basic_btfs.Btfs.Names.Tests.{
  ab, ab-IsText, empty, one_name, one_slot, one_name-IsNameBlock, one_name-next,
}
use basic_btfs.Btfs.Bitmap.Tests.{full}
use basic_btfs.Btfs.Names.{Dirent, has_room, insert_entry_in_list, new_name_block}
use basic_btfs.Btfs.Names.Bytes.{IsText}
use basic_btfs.Btfs.Names.Slots.{IsNameBlock}
use basic_btfs.Btfs.Names.Written.{dirent}
use basic_btfs.Btfs.Names.Chain.{IsChain}
use basic_btfs.Btfs.Names.Update.{insert_entry_in_list_lem}
use basic_btfs.Btfs.Names.Links.{new-IsNameBlock, insert_entry-next, new-next}
use basic_btfs.Btfs.Dir.{get_hash_from_block, is_positive, add_entry}
use basic_btfs.Btfs.Dir.Add.{IsDirectory, IsEntryAdded}
use basic_btfs.Btfs.Dir.Add.Correct.{add_entry_lem}
use basic_btfs.Btfs.Dir.Add.Full.{add_entry_full}

-- The root in block 3, with the hash 10, and its names in block 4.
abbrev root : Node
root = record (rising true 1 10 no_kids) { tree_name_bno = 4 }

abbrev state : Disk
state = record (disk λ b. if b == 3 then some root else some zero_node) {
  names = λ b. if b == 4 then some one_name else some empty;
}

abbrev dir : Inode
dir = record { i_ino = 2; i_bno = 3 }

abbrev blocks : Bits
blocks b = b == 3

-- A hash that is 15 for every name.
abbrev fifteen : ℕ → List ℕ → ℕ
fifteen _ _ = 15

root-IsNode : IsNode root 0 2000
root-IsNode = record {
  size = omega arith;
  sorted = λ i j p q. absurd (omega arith);
  above = λ i p. ground arith;
  below = λ i p. ground arith;
}

six_free : free state ≡ 6
unfolding count_clear
six_free = refl

state-IsDirectory : IsDirectory state dir blocks 0 0 2000 root one_slot []
unfolding find_dir
state-IsDirectory = record {
  ready = record {
    small = omega arith;
    first = refl;
    reads = λ x lt. elim (Bool-cases (x == 3)) [
      | inl h ↦ (root, rw h refl)
      | inr h ↦ (zero_node, rw h refl)
    ];
  };
  names_read = λ x lt. elim (Bool-cases (x == 4)) [
    | inl h ↦ (one_name, rw h refl)
    | inr h ↦ (empty, rw h refl)
  ];
  root_at = refl;
  tree = owned_leaf root refl refl root-IsNode refl;
  tree_used = λ x q. ground arith;
  chain = (one_name, refl, one_name-IsNameBlock, one_name-next);
  apart = tt;
  chain_used = λ x q. (λ e. ground arith, tt);
  separate = λ x q. (λ e. ground arith, tt);
  uncached = refl;
}

not_held : (x : Entry) → Holds state.node x 3 → x.hash ≢ get_hash_from_block fifteen ab
unfolding get_hash_from_block
not_held x holds = elim (holds_in root refl holds) [
  | inl (i, lt, at) ↦ let eh = ap (λ (e : Entry). e.hash) at in ground (arith, eh)
  | inr (i, isinner, _, _) ↦ absurd (cc)
]

missing : lookup 1 state.node 3 (get_hash_from_block fifteen ab) ≡ some 0
unfolding lookup child_index scan_up entry_at get_hash_from_block
missing = refl

no_file : is_positive 0 ≡ false
unfolding is_positive
no_file = refl

add_entry_lem_example :
    IsEntryAdded plain_api (λ _. 100) fifteen 1 state dir 0 0 2000 one_slot [] 8 ab (file 0 0)
add_entry_lem_example =
    add_entry_lem plain_api plain_api-IsBitmapApi (λ _. 100) fifteen 1 0 0 2000 state dir blocks
      root one_slot [] 8 0 ab (file 0 0) state-IsDirectory (omega arith) (omega arith)
      (omega (arith, six_free)) (omega arith) ab-IsText (omega arith) (omega arith) (omega arith)
      (unfold get_hash_from_block in omega arith) not_held missing no_file

-- A name that leaves no room behind it in its block.
unfoldable many : ℕ → List ℕ
many zero = []
many (suc n) = b'a' ∷ many n

length-many : (n : ℕ) → length (many n) ≡ n
unfolding many
length-many zero = refl
length-many (suc n) = ap suc (length-many n)

many-IsText : (n : ℕ) → IsText (many n)
unfolding many
many-IsText zero = tt
many-IsText (suc n) = (omega arith, many-IsText n)

abbrev long : List ℕ
long = many 4050

abbrev tight_block : NameBlock
tight_block = (insert_entry_in_list empty 4 long (file 7 40)).0

abbrev tight_slot : List Dirent
tight_slot = dirent 7 long ∷ []

room_for_long : has_room empty long ≡ true
unfolding has_room new_name_block
room_for_long = rw (length-many 4050) refl

tight_block-IsNameBlock : IsNameBlock tight_block tight_slot
tight_block-IsNameBlock =
    (insert_entry_in_list_lem empty [] 4 long (file 7 40) (new-IsNameBlock 5) room_for_long
      (many-IsText 4050) (omega arith) (omega arith)).0

no_room : has_room tight_block ab ≡ false
unfolding has_room insert_entry_in_list new_name_block
no_room = rw (length-many 4050) refl

-- The same directory on a device where every block is in use.
abbrev full_state : Disk
full_state = record state {
  sbi = full;
  names = λ b. if b == 4 then some tight_block else if b == minus_one then none else some empty;
}

none_free : free full_state ≡ 0
unfolding count_clear
none_free = refl

full_state-IsDirectory : IsDirectory full_state dir blocks 0 0 2000 root tight_slot []
unfolding find_dir
full_state-IsDirectory = record {
  ready = record { small = omega arith; first = refl; reads = state-IsDirectory.ready.reads };
  names_read = λ x lt. elim (Bool-cases (x == 4)) [
    | inl h ↦ (tight_block, rw h refl)
    | inr h ↦ (empty, rw (h, ne→== x minus_one (omega arith)) refl)
  ];
  root_at = refl;
  tree = owned_leaf root refl refl root-IsNode refl;
  tree_used = λ x q. refl;
  chain = (
    tight_block,
    refl,
    tight_block-IsNameBlock,
    rw (insert_entry-next empty 4 long (file 7 40)) (new-next 5),
  );
  apart = tt;
  chain_used = λ x q. absurd (cc);
  separate = λ x q. (λ e. ground arith, tt);
  uncached = refl;
}

add_entry_full_example :
    (d' : Disk) × (e : Entry) × (add_entry plain_api
        (λ _. 100)
        fifteen
        1
        dir
        8
        ab
        (file 0 0)
        full_state
      ≡ done (success, dir) d')
    × Holds d'.node e 3
    × (e.ino ≡ 8)
    × (e.name_bno ≡ 9)
    × (e.block_index ≡ 28)
    × ((ss' : List Dirent) (rest' : List (ℕ × List Dirent)) → IsChain d'.names 4 ss' rest' → ⊥)
add_entry_full_example =
    add_entry_full plain_api plain_api-IsBitmapApi (λ _. 100) fifteen 1 0 2000 full_state dir blocks
      root tight_slot [] 8 0 ab (file 0 0) full_state-IsDirectory (omega arith) (omega arith)
      none_free refl (λ b at. let same : b ≡ tight_block = cc in rw same no_room) (omega arith)
      ab-IsText (omega arith) (omega arith) (unfold get_hash_from_block in omega arith) not_held
      missing no_file
