-- ===== src/Btfs/Inode/Rmdir.antt =====
-- `basicbtfs_rmdir` of BasicBTFS/inode.c on a directory that is not empty.
use basic_btfs.Prelude.{
  ℕ, ◌<◌, ◌≡◌, refl, ap, ◌∙◌, inl, inr, false, some, ◌⊎◌, List, arith, length, u32_mod,
}
use basic_btfs.Kernel.{BitmapApi, IsBitmapApi}
use basic_btfs.Btfs.Super.{SbInfo}
use basic_btfs.Btfs.Bitmap.{put_inode}
use basic_btfs.Btfs.Disk.{Entry, Node, Store, Disk, Inode, success, done}
use basic_btfs.Btfs.Btree.Shape.{IsTree}
use basic_btfs.Btfs.Cache.{cache_delete_dir}
use basic_btfs.Btfs.Names.{Dirent}
use basic_btfs.Btfs.Names.Chain.{IsChain}
use basic_btfs.Btfs.Dir.{delete_entry}
use basic_btfs.Btfs.Dir.Free.{InTree, free_dir_lem}
use basic_btfs.Btfs.Dir.FreeNames.{InChain, free_namelist_blocks_lem}
use basic_btfs.Btfs.Inode.{enotempty, free_directory, unlink, rmdir}

cache_delete_dir-kept :
    (bno : ℕ) (d : Disk)
    → ((cache_delete_dir bno d).node ≡ d.node)
      × ((cache_delete_dir bno d).sbi.s_bfree_bitmap ≡ d.sbi.s_bfree_bitmap)
unfolding cache_delete_dir
cache_delete_dir-kept bno d = ground arith

module _ (api : BitmapApi) where
  put_inode-kept :
      (sbi : SbInfo) (ino : ℕ) → (put_inode api sbi ino).s_bfree_bitmap ≡ sbi.s_bfree_bitmap
  unfolding put_inode
  put_inode-kept sbi ino = ground arith

  -- What the release of a directory leaves.
  record IsReleased (d d' : Disk) (F : ℕ → Type 0) : Type 0 where
    same : d'.node ≡ d.node
    free : (x : ℕ) → F x → d'.sbi.s_bfree_bitmap x ≡ false

  free_directory-IsReleased :
      (law : IsBitmapApi api) {P : Node → Type 0} (fuel h lo hi : ℕ) (inode : Inode) (n : Node)
      (d : Disk) (ss : List Dirent) (rest : List (ℕ × List Dirent))
      → IsTree P d.node h inode.i_bno lo hi
      → h < fuel
      → ((x : ℕ) → InTree d.node inode.i_bno x → (0 < x) × (x < d.sbi.s_nblocks))
      → IsChain d.names n.tree_name_bno ss rest
      → length rest < fuel
      → ((x : ℕ) → InChain n.tree_name_bno rest x → x < d.sbi.s_nblocks)
      → d.sbi.s_nblocks < u32_mod
      → (d' : Disk) × (free_directory api fuel inode n d ≡ done success d')
        × IsReleased d d' (λ x. InTree d.node inode.i_bno x ⊎ InChain n.tree_name_bno rest x)
  unfolding free_directory
  free_directory-IsReleased law {P} fuel h lo hi inode n d ss rest tree lt inside chain lt' inside'
        small =
      let (d1, run1, one) =
        free_namelist_blocks_lem api law fuel n.tree_name_bno ss rest d chain lt' small inside' in
      let tree1 : IsTree P d1.node h inode.i_bno lo hi = rw one.node tree in
      let (d2, run2, two) =
        free_dir_lem api law {P = P} fuel h inode.i_bno lo hi d1 tree1 lt (rw one.size small)
          (rw (one.node, one.size) inside) in
      let d3 = record d2 { sbi = put_inode api d2.sbi inode.i_ino } in
      let (same, bits) = cache_delete_dir-kept inode.i_bno d3 in
      let bits' = bits ∙ put_inode-kept d2.sbi inode.i_ino in
      (
        cache_delete_dir inode.i_bno d3,
        rw (run1, run2) refl,
        record {
          same = same ∙ two.node ∙ one.node;
          free = λ x f. ap (λ m. m x) bits' ∙ (elim f [
            | inl t ↦ two.freed x (rw one.node t)
            | inr c ↦ two.clear x (one.freed x c)
          ]);
        },
      )

  module _ (alloc : Store → ℕ) (crc32 : ℕ → List ℕ → ℕ) (fuel : ℕ) where
    unlink_dir :
        (dir dir' inode : Inode) (name : List ℕ) (garbage : Entry) (n : Node) (d d1 d2 : Disk)
        → delete_entry api alloc crc32 fuel dir name garbage d ≡ done (success, dir') d1
        → d1.node inode.i_bno ≡ some n
        → free_directory api fuel inode n d1 ≡ done success d2
        → unlink api alloc crc32 fuel dir name garbage inode d ≡ done (success, dir') d2
    unfolding unlink
    unlink_dir dir dir' inode name garbage n d d1 d2 del read run =
        rw (unlink, del) (ground (arith, read, run))

    rmdir_refused :
        (dir dir' inode : Inode) (name : List ℕ) (garbage : Entry) (i_nlink : ℕ) (n : Node)
        (d d2 : Disk)
        → unlink api alloc crc32 fuel dir name garbage inode d ≡ done (success, dir') d2
        → d2.node inode.i_bno ≡ some n
        → 0 < n.nr_of_files
        → rmdir api alloc crc32 fuel dir name garbage inode i_nlink d ≡ done (enotempty, dir') d2
    unfolding rmdir
    rmdir_refused dir dir' inode name garbage i_nlink n d d2 run read files =
        rw (rmdir, run) (ground (arith, read))

  -- Removing a directory that still has files, once the deletion of its entry from its parent has
  -- succeeded in a state where its tree and its list of names are in order, inside a device whose
  -- number of blocks fits 32 bits, and lower than the fuel: the answer is -ENOTEMPTY, whatever the
  -- count of links, and yet all blocks of the tree and of the list of names have become free.
  pub rmdir_not_empty :
      (law : IsBitmapApi api) (alloc : Store → ℕ) (crc32 : ℕ → List ℕ → ℕ) {P : Node → Type 0}
      (fuel h lo hi : ℕ) (dir dir' inode : Inode) (name : List ℕ) (garbage : Entry) (i_nlink : ℕ)
      (n : Node) (d d1 : Disk) (ss : List Dirent) (rest : List (ℕ × List Dirent))
      → delete_entry api alloc crc32 fuel dir name garbage d ≡ done (success, dir') d1
      → d1.node inode.i_bno ≡ some n
      → 0 < n.nr_of_files
      → IsTree P d1.node h inode.i_bno lo hi
      → h < fuel
      → ((x : ℕ) → InTree d1.node inode.i_bno x → (0 < x) × (x < d1.sbi.s_nblocks))
      → IsChain d1.names n.tree_name_bno ss rest
      → length rest < fuel
      → ((x : ℕ) → InChain n.tree_name_bno rest x → x < d1.sbi.s_nblocks)
      → d1.sbi.s_nblocks < u32_mod
      → (d2 : Disk) × (rmdir api alloc crc32 fuel dir name garbage inode i_nlink d
          ≡ done (enotempty, dir') d2)
        × ((x : ℕ) → InTree d1.node inode.i_bno x → d2.sbi.s_bfree_bitmap x ≡ false)
        × ((x : ℕ) → InChain n.tree_name_bno rest x → d2.sbi.s_bfree_bitmap x ≡ false)
  rmdir_not_empty law alloc crc32 {P} fuel h lo hi dir dir' inode name garbage i_nlink n d d1 ss
        rest del read files tree lt inside chain lt' inside' small =
      let (d2, run, is) =
        free_directory-IsReleased law {P = P} fuel h lo hi inode n d1 ss rest tree lt inside chain
          lt' inside' small in
      (
        d2,
        rmdir_refused alloc crc32 fuel dir dir' inode name garbage i_nlink n d d2
            (unlink_dir alloc crc32 fuel dir dir' inode name garbage n d d1 d2 del read run)
            (rw is.same read) files,
        λ x t. is.free x (inl t),
        λ x c. is.free x (inr c),
      )
