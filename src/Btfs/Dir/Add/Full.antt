-- ===== src/Btfs/Dir/Add/Full.antt =====
-- `basicbtfs_add_entry` of BasicBTFS/dir.c where no block is free for the list of names.
use basic_btfs.Prelude.{
  ℕ, zero, suc, ◌≤◌, ◌<◌, ◌≡◌, ◌≢◌, refl, ap, ◌∙◌, inl, inr, true, false, none, some, List, arith,
  ◌==◌, Bool-cases, ==→eq, ==→ne, length, u32_mod, minus_one,
}
use basic_btfs.Kernel.{Bits, BitmapApi, IsBitmapApi}
use basic_btfs.Btfs.Bitmap.{get_free_blocks}
use basic_btfs.Btfs.Bitmap.Alloc.{get_free_blocks_full}
use basic_btfs.Btfs.Bitmap.Count.{count_clear}
use basic_btfs.Btfs.Disk.{max_keys, Entry, Node, Store, Disk, Inode, success, enospc, done}
use basic_btfs.Btfs.Btree.Search.{lookup}
use basic_btfs.Btfs.Btree.Shape.{Holds}
use basic_btfs.Btfs.Btree.Insert.Supply.{IsReady, free}
use basic_btfs.Btfs.Btree.Insert.Counted.{node_insert_room}
use basic_btfs.Btfs.Cache.{cache_get_nr_of_blocks}
use basic_btfs.Btfs.Names.{Dirent}
use basic_btfs.Btfs.Names.Bytes.{IsText}
use basic_btfs.Btfs.Names.Chain.{IsChain}
use basic_btfs.Btfs.Names.Insert.Full.{NoRoom, insert_from_full}
use basic_btfs.Btfs.Dir.{get_hash_from_block, is_positive, add_entry}
use basic_btfs.Btfs.Dir.Add.{IsDirectory, entry_of, insert_entry_run, add_entry_run}

none_clear : (n : ℕ) (map : Bits) → count_clear n map ≡ 0 → (s : ℕ) → s < n → map s ≡ true
unfolding count_clear
none_clear zero map none_there s lt = absurd (omega arith)
none_clear (suc n) map none_there s lt = elim (Bool-cases (s == n)) [
  | inl e ↦ rw (==→eq s n e) (ground arith)
  | inr ne ↦ none_clear n map (ground arith) s (omega (arith, ==→ne s n ne))
]

-- The answer of the allocation, and what it leaves.
module _ (api : BitmapApi) (law : IsBitmapApi api) (d : Disk) (ready : IsReady d)
    (full : free d ≡ 0) where
  all_used :
      ((get_free_blocks api d.sbi 1).0 ≡ minus_one)
      × ((get_free_blocks api d.sbi 1).1.s_bfree_bitmap ≡ d.sbi.s_bfree_bitmap)
      × ((get_free_blocks api d.sbi 1).1.s_nblocks ≡ d.sbi.s_nblocks)
  all_used =
      let (answer, map, _, size) =
        get_free_blocks_full api law d.sbi 1 ready.small λ s pos st clear.
          let used = none_clear d.sbi.s_nblocks d.sbi.s_bfree_bitmap full s (omega arith) in
          let free = clear s (ground arith) in ground arith in
      (answer, map, size)

-- Adding a name to a directory in order that is not in the cache, whose tree is one leaf with room
-- that holds no entry under the hash of the name, with a look-up that finds no file, where no block
-- of names has room, no block is free and no block can be read under the number -1, and with fuel
-- above the number of further blocks of names: the answer is success. The tree gets an entry with
-- the inode, but with the place of its name that stood in the variable before, and the list of
-- names is cut off: no chain of blocks in order starts at its first block any more.
pub add_entry_full :
    (api : BitmapApi) (law : IsBitmapApi api) (alloc : Store → ℕ) (crc32 : ℕ → List ℕ → ℕ)
    (fuel lo hi : ℕ) (d : Disk) (dir : Inode) (blocks : Bits) (root : Node) (ss : List Dirent)
    (rest : List (ℕ × List Dirent)) (ino ret : ℕ) (name : List ℕ) (garbage : Entry)
    → IsDirectory d dir blocks 0 lo hi root ss rest
    → 0 < fuel
    → length rest < fuel
    → free d ≡ 0
    → d.names minus_one ≡ none
    → NoRoom d.names name root.tree_name_bno rest
    → root.nr_of_keys < max_keys
    → IsText name
    → ino ≢ 0
    → ino < u32_mod
    → (lo ≤ get_hash_from_block crc32 name) × (get_hash_from_block crc32 name < hi)
    → ((x : Entry) → Holds d.node x dir.i_bno → x.hash ≢ get_hash_from_block crc32 name)
    → lookup fuel d.node dir.i_bno (get_hash_from_block crc32 name) ≡ some ret
    → is_positive ret ≡ false
    → (d' : Disk) × (e : Entry) × (add_entry api alloc crc32 fuel dir ino name garbage d
        ≡ done (success, dir) d')
      × Holds d'.node e dir.i_bno
      × (e.ino ≡ ino)
      × (e.name_bno ≡ garbage.name_bno)
      × (e.block_index ≡ garbage.block_index)
      × ((ss' : List Dirent) (rest' : List (ℕ × List Dirent))
          → IsChain d'.names root.tree_name_bno ss' rest'
          → ⊥)
add_entry_full api law alloc crc32 fuel lo hi d dir blocks root ss rest ino ret name garbage is lt
      lt' full nowhere tight room text ne small bounds absent look none_there =
    let e = entry_of crc32 ino name garbage in
    let bno = root.tree_name_bno in
    let sbi = (get_free_blocks api d.sbi 1).1 in
    let (answer, map, size) = all_used api law d is.ready full in
    let (d1, run, c) =
      insert_from_full api dir.i_bno name e (cache_get_nr_of_blocks dir.i_bno d.dir_cache) d sbi
        text ne small (ap (λ (b : ℕ). (b, sbi)) answer) nowhere fuel bno bno ss rest is.chain
        is.apart tight lt' in
    let map1 : d1.sbi.s_bfree_bitmap ≡ d.sbi.s_bfree_bitmap =
      ap (λ s. s.s_bfree_bitmap) c.lost ∙ map in
    let size1 : d1.sbi.s_nblocks ≡ d.sbi.s_nblocks = ap (λ s. s.s_nblocks) c.lost ∙ size in
    let ready1 : IsReady d1 = record {
      small = rw size1 is.ready.small;
      first = rw map1 is.ready.first;
      reads = rw (c.same_node, size1) is.ready.reads;
    } in
    let node =
      node_insert_room api law fuel 0 d1 blocks dir.i_bno lo hi e dir root lt ready1 (omega arith)
        (rw c.same_node is.tree) (rw map1 is.tree_used) (rw c.same_node is.root_at) room bounds
        (rw c.same_node absent) in
    (
      node.d',
      e,
      add_entry_run api alloc crc32 fuel dir ino name garbage e d d1 node.d' root ret is.root_at
          look none_there
          (insert_entry_run api alloc crc32 fuel dir ino name garbage e d d1 node.d' root enospc bno
            run node.run (rw (node.same_cache, c.same_cache) is.uncached)),
      node.tree.holds_new,
      refl,
      refl,
      refl,
      rw node.same_names c.cut,
    )
