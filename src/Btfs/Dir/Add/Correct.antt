-- ===== src/Btfs/Dir/Add/Correct.antt =====
-- `basicbtfs_add_entry` of BasicBTFS/dir.c on a directory that is not in the cache and whose root
-- has room: what it leaves.
use basic_btfs.Prelude.{ℕ, ◌≤◌, ◌<◌, ◌≡◌, ◌≢◌, inl, inr, false, some, List, arith, length, u32_mod}
use mathlib.Core.Path.{subst}
use basic_btfs.Kernel.{Bits, BitmapApi, IsBitmapApi}
use basic_btfs.Btfs.Disk.{max_keys, Entry, Node, Store, Disk, Inode, success}
use basic_btfs.Btfs.Btree.Search.{lookup}
use basic_btfs.Btfs.Btree.Shape.{Holds}
use basic_btfs.Btfs.Btree.Owned.{owned_root}
use basic_btfs.Btfs.Btree.Insert.Supply.{free, take_block}
use basic_btfs.Btfs.Btree.Insert.Counted.{node_insert_room}
use basic_btfs.Btfs.Cache.{cache_get_nr_of_blocks}
use basic_btfs.Btfs.Names.{Dirent}
use basic_btfs.Btfs.Names.Bytes.{IsText}
use basic_btfs.Btfs.Names.Insert.NewBlock.{insert_from_lem}
use basic_btfs.Btfs.Dir.{get_hash_from_block, is_positive}
use basic_btfs.Btfs.Dir.Add.{
  IsDirectory, directory-IsSupply, beside-IsGrown, beside-IsReady, entry_of, insert_entry_run,
  add_entry_run, IsEntryAdded,
}
use basic_btfs.Btfs.Dir.Add.Order.{after-IsDirectory}

-- Adding a name of at most 255 bytes, none of them zero, of an inode other than 0 that fits 32
-- bits, to a directory in order that is not in the cache, whose root is not full and whose tree
-- holds no entry under the hash of the name, which lies between the bounds of the tree, with more
-- free blocks than the tree is high, fuel above that height and above the number of further blocks
-- of names, and with a look-up that finds no file, succeeds. The directory is in order again, its
-- tree holds what it held and an entry with the inode, the hash and the place of the name in a
-- block of names, and its listing is the old one with the name put in at one place.
pub add_entry_lem :
    (api : BitmapApi) (law : IsBitmapApi api) (alloc : Store → ℕ) (crc32 : ℕ → List ℕ → ℕ)
    (fuel h lo hi : ℕ) (d : Disk) (dir : Inode) (blocks : Bits) (root : Node) (ss : List Dirent)
    (rest : List (ℕ × List Dirent)) (ino ret : ℕ) (name : List ℕ) (garbage : Entry)
    → IsDirectory d dir blocks h lo hi root ss rest
    → h < fuel
    → length rest < fuel
    → h < free d
    → root.nr_of_keys < max_keys
    → IsText name
    → length name ≤ 255
    → ino ≢ 0
    → ino < u32_mod
    → (lo ≤ get_hash_from_block crc32 name) × (get_hash_from_block crc32 name < hi)
    → ((x : Entry) → Holds d.node x dir.i_bno → x.hash ≢ get_hash_from_block crc32 name)
    → lookup fuel d.node dir.i_bno (get_hash_from_block crc32 name) ≡ some ret
    → is_positive ret ≡ false
    → IsEntryAdded api alloc crc32 fuel d dir h lo hi ss rest ino name garbage
add_entry_lem api law alloc crc32 fuel h lo hi d dir blocks root ss rest ino ret name garbage is lt
      lt' enough room text short ne small bounds absent look none_there =
    let e = entry_of crc32 ino name garbage in
    let bno = root.tree_name_bno in
    let (taken, sbi, got, t) = take_block api law d is.ready (omega arith) in
    let names =
      insert_from_lem api dir.i_bno name e (cache_get_nr_of_blocks dir.i_bno d.dir_cache) d text ne
        small fuel bno bno taken sbi ss rest is.chain is.apart lt' short got
        (directory-IsSupply d dir blocks h lo hi taken sbi root ss rest is t) in
    let a = names.added in
    let b = names.beside in
    let g = beside-IsGrown api d names.d' dir.i_bno bno taken sbi rest a.others got t b in
    let node =
      node_insert_room api law fuel h names.d' blocks dir.i_bno lo hi names.e' dir root lt
        (beside-IsReady api d names.d' dir.i_bno bno taken sbi rest a.others got t b is.ready g)
        (omega (arith, g.count)) (rw b.same_node is.tree) (λ x q. g.kept x (is.tree_used x q))
        (rw b.same_node is.root_at) room (rw names.same_hash bounds)
        (rw (b.same_node, names.same_hash) absent) in
    let (_, (root', at, _)) = owned_root node.tree.tree in
    record {
      d' = node.d';
      own = node.own;
      root = root';
      first = a.first;
      others = a.others;
      run =
          add_entry_run api alloc crc32 fuel dir ino name garbage names.e' d names.d' node.d' root
            ret is.root_at look none_there
            (insert_entry_run api alloc crc32 fuel dir ino name garbage names.e' d names.d' node.d'
              root success bno names.run node.run (rw node.same_cache (b.uncached is.uncached)));
      directory =
          after-IsDirectory api d names.d' dir blocks h lo hi taken sbi root ss a.first rest
            a.others names.e' fuel is t b g a.chain node root' at;
      entry = names.e';
      entry_ino = names.same_ino;
      entry_hash = names.same_hash;
      placed =
          let p = names.placed in
          record {
            block = p.block;
            pre = p.pre;
            at = rw node.same_names p.at;
            order = p.order;
            index = p.index;
          };
      holds_new = node.tree.holds_new;
      holds_old = λ x holds. node.tree.holds_old x (rw b.same_node holds);
      holds_only = λ x holds. elim (node.tree.holds_only x holds) [
        | inl o ↦ inl (subst (λ s. Holds s x dir.i_bno) b.same_node o)
        | inr new ↦ inr new
      ];
      before = a.before;
      after = a.after;
      was = a.was;
      now = a.now;
    }
