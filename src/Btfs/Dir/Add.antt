-- ===== src/Btfs/Dir/Add.antt =====
-- `basicbtfs_add_entry` of BasicBTFS/dir.c: the tree and the list of names of a directory together.
pub mod Order
pub mod Correct
pub mod Full
mod Tests
use basic_btfs.Prelude.{
  ℕ, suc, ◌+◌, ◌≤◌, ◌<◌, ◌≡◌, ◌≢◌, refl, sym, ap, ◌∙◌, true, false, Option, none, some, List, ◌∷◌,
  ◌++◌, inl, inr, arith, ltb, ◌==◌, ◌⊎◌, if◌then◌else◌, Bool-cases, length, u32_mod,
}
use basic_btfs.Kernel.{Bits, BitmapApi, IsBitmapApi}
use basic_btfs.Btfs.Super.{SbInfo}
use basic_btfs.Btfs.Bitmap.{get_free_blocks}
use basic_btfs.Btfs.NameBlock.{NameBlock}
use basic_btfs.Btfs.Disk.{max_keys, Entry, Node, Store, DirCache, Disk, Inode, Ret, success, done}
use basic_btfs.Btfs.Btree.Search.{lookup}
use basic_btfs.Btfs.Btree.Shape.{Holds}
use basic_btfs.Btfs.Btree.Owned.{IsOwned, owned_root}
use basic_btfs.Btfs.Btree.Root.{node_insert}
use basic_btfs.Btfs.Btree.Insert.Supply.{IsReady, free, IsTakenBlock, take_block}
use basic_btfs.Btfs.Btree.Insert.Counted.{IsNodeInserted, node_insert_room}
use basic_btfs.Btfs.Cache.{find_dir, cache_get_root_node, cache_get_nr_of_blocks}
use basic_btfs.Btfs.Names.{Dirent, insert_name, insert_from}
use basic_btfs.Btfs.Names.Bytes.{IsText}
use basic_btfs.Btfs.Names.Written.{dirent}
use basic_btfs.Btfs.Names.Chain.{IsChain, IsApart, NotIn, names_of}
use basic_btfs.Btfs.Names.Insert.{IsBeside, IsPlaced, IsInserted}
use basic_btfs.Btfs.Names.Insert.NewBlock.{IsSupply, insert_from_lem}
use basic_btfs.Btfs.Dir.{get_hash_from_block, is_positive, add_to_cache, insert_entry, add_entry}

-- A directory in order: its tree stands in the blocks `blocks`, its names in a chain of other
-- blocks, all of them in use. The number of blocks of the device fits 32 bits, its block 0 is in
-- use, and every block can be read. The directory is not in the cache.
pub record IsDirectory (d : Disk) (dir : Inode) (blocks : Bits) (h lo hi : ℕ) (root : Node)
    (ss : List Dirent) (rest : List (ℕ × List Dirent)) : Type 0 where
  pub ready : IsReady d
  pub names_read : (x : ℕ) → x < d.sbi.s_nblocks → (b : NameBlock) × (d.names x ≡ some b)
  pub root_at : d.node dir.i_bno ≡ some root
  pub tree : IsOwned d.node blocks h dir.i_bno lo hi
  pub tree_used : (x : ℕ) → blocks x ≡ true → d.sbi.s_bfree_bitmap x ≡ true
  pub chain : IsChain d.names root.tree_name_bno ss rest
  pub apart : IsApart root.tree_name_bno rest
  pub chain_used :
      (x : ℕ) → d.sbi.s_bfree_bitmap x ≡ false → (x ≢ root.tree_name_bno) × NotIn x rest
  pub separate : (x : ℕ) → blocks x ≡ true → (x ≢ root.tree_name_bno) × NotIn x rest
  pub uncached : find_dir dir.i_bno d.dir_cache ≡ none

-- What the insertion of the name does to the map of free blocks.
pub record IsGrown (d d1 : Disk) (rest others : List (ℕ × List Dirent)) : Type 0 where
  pub size : d1.sbi.s_nblocks ≡ d.sbi.s_nblocks
  pub kept : (x : ℕ) → d.sbi.s_bfree_bitmap x ≡ true → d1.sbi.s_bfree_bitmap x ≡ true
  pub count : free d ≤ free d1 + 1
  pub outside : (x : ℕ) → d1.sbi.s_bfree_bitmap x ≡ false → NotIn x rest → NotIn x others

module _ (api : BitmapApi) (d d1 : Disk) (dir_bno bno taken : ℕ) (sbi : SbInfo)
    (rest others : List (ℕ × List Dirent)) (got : get_free_blocks api d.sbi 1 ≡ (taken, sbi))
    (t : IsTakenBlock d taken sbi) (beside : IsBeside api dir_bno bno d d1 rest others taken) where
  pub beside-IsGrown : IsGrown d d1 rest others
  beside-IsGrown = elim beside.bits [
    | inl (same, out) ↦ record {
      size = ap (λ s. s.s_nblocks) same;
      kept = λ x q. rw same q;
      count = rw same (omega arith);
      outside = λ x q. out x;
    }
    | inr more ↦
        let same : d1.sbi ≡ sbi = more ∙ ap (λ p. p.1) got in
        record {
          size = ap (λ s. s.s_nblocks) same ∙ t.size;
          kept = λ x q. rw same (ground (arith, t.now x));
          count = rw same (omega (arith, t.count));
          outside = λ x q l.
              let q' : sbi.s_bfree_bitmap x ≡ false = ap (λ s. s.s_bfree_bitmap x) (sym same) ∙ q in
              beside.blocks x l λ e. ground (arith, t.now x);
        }
  ]

  pub beside-IsReady : IsReady d → IsGrown d d1 rest others → IsReady d1
  beside-IsReady ready g = record {
    small = rw g.size ready.small;
    first = g.kept 0 ready.first;
    reads = λ x lt. rw beside.same_node (ready.reads x (rw⁻¹ g.size lt));
  }

-- What is asked of the allocation of a block of names.
pub directory-IsSupply :
    (d : Disk) (dir : Inode) (blocks : Bits) (h lo hi taken : ℕ) (sbi : SbInfo) (root : Node)
    (ss : List Dirent) (rest : List (ℕ × List Dirent))
    → IsDirectory d dir blocks h lo hi root ss rest
    → IsTakenBlock d taken sbi
    → IsSupply d root.tree_name_bno rest taken
directory-IsSupply d dir blocks h lo hi taken sbi root ss rest is t =
    let (old, at) = is.names_read taken t.inside in
    let (not_first, not_later) = is.chain_used taken t.clear in
    record {
      found = t.ne;
      not_zero = λ e. ground (arith, is.ready.first, t.clear);
      not_first = not_first;
      not_later = not_later;
      old = old;
      reads = at;
    }

uncached-root :
    (bno : ℕ) (cs : List DirCache) → find_dir bno cs ≡ none → cache_get_root_node bno cs ≡ none
unfolding cache_get_root_node
uncached-root bno cs out = rw (cache_get_root_node, out) refl

-- The entry as it is handed to the list of names.
abbrev pub entry_of : (ℕ → List ℕ → ℕ) → ℕ → List ℕ → Entry → Entry
entry_of crc32 ino name garbage = record garbage {
  ino = ino;
  hash = get_hash_from_block crc32 name;
}

module _ (api : BitmapApi) (alloc : Store → ℕ) (crc32 : ℕ → List ℕ → ℕ) (fuel : ℕ) where
  add_to_cache_uncached :
      (nr_of_blocks : ℕ) (e : Entry) (ret : Ret) (dir : Inode) (d : Disk)
      → find_dir dir.i_bno d.dir_cache ≡ none
      → add_to_cache api alloc crc32 fuel nr_of_blocks e (ret, dir) d ≡ done (ret, dir) d
  unfolding add_to_cache
  add_to_cache_uncached nr_of_blocks e ret dir d out =
      rw (add_to_cache, uncached-root dir.i_bno d.dir_cache out) (ground arith)

  module _ (dir : Inode) (ino : ℕ) (name : List ℕ) (garbage e' : Entry) (d d1 d2 : Disk)
      (root : Node) where
    pub insert_entry_run :
        (ret : Ret) (name_bno : ℕ)
        → insert_from api fuel dir.i_bno name_bno name_bno name
            (entry_of crc32 ino name garbage)
            (cache_get_nr_of_blocks dir.i_bno d.dir_cache)
            d
          ≡ done (ret, e') d1
        → node_insert api fuel dir dir.i_bno e' d1 ≡ done (success, dir) d2
        → find_dir dir.i_bno d2.dir_cache ≡ none
        → insert_entry api alloc crc32 fuel dir ino name name_bno garbage d ≡ done (success, dir) d2
    unfolding insert_entry insert_name
    insert_entry_run ret name_bno one two out =
        rw (insert_entry, insert_name, one, two)
          (add_to_cache_uncached (cache_get_nr_of_blocks dir.i_bno d.dir_cache) e' success dir d2
            out)

    pub add_entry_run :
        (ret : ℕ)
        → d.node dir.i_bno ≡ some root
        → lookup fuel d.node dir.i_bno (get_hash_from_block crc32 name) ≡ some ret
        → is_positive ret ≡ false
        → insert_entry api alloc crc32 fuel dir ino name root.tree_name_bno garbage d
          ≡ done (success, dir) d2
        → add_entry api alloc crc32 fuel dir ino name garbage d ≡ done (success, dir) d2
    unfolding add_entry
    add_entry_run ret at look none_there run = rw (add_entry, at, look, none_there) run

-- What an entry that is added leaves: a directory in order, with the entry in its tree, the name at
-- one place of its listing, and nothing else changed in what they hold.
pub record IsEntryAdded (api : BitmapApi) (alloc : Store → ℕ) (crc32 : ℕ → List ℕ → ℕ) (fuel : ℕ)
    (d : Disk) (dir : Inode) (h lo hi : ℕ) (ss : List Dirent) (rest : List (ℕ × List Dirent))
    (ino : ℕ) (name : List ℕ) (garbage : Entry) : Type 0 where
  pub d' : Disk
  pub own : Bits
  pub root : Node
  pub first : List Dirent
  pub others : List (ℕ × List Dirent)
  pub run : add_entry api alloc crc32 fuel dir ino name garbage d ≡ done (success, dir) d'
  pub directory : IsDirectory d' dir own h lo hi root first others
  pub entry : Entry
  pub entry_ino : entry.ino ≡ ino
  pub placed : IsPlaced d' entry (dirent ino name)
  pub entry_hash : entry.hash ≡ get_hash_from_block crc32 name
  pub holds_new : Holds d'.node entry dir.i_bno
  pub holds_old : (x : Entry) → Holds d.node x dir.i_bno → Holds d'.node x dir.i_bno
  pub holds_only : (x : Entry) → Holds d'.node x dir.i_bno → Holds d.node x dir.i_bno ⊎ (x ≡ entry)
  pub before : List Dirent
  pub after : List Dirent
  pub was : names_of ss rest ≡ before ++ after
  pub now : names_of first others ≡ before ++ (dirent ino name ∷ after)
