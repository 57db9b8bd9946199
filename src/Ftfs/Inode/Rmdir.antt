-- ===== src/Ftfs/Inode/Rmdir.antt =====
-- `basicftfs_rmdir` of BasicFATFS/inode.c: the test for entries reads what the removal has set to
-- zero.
use basic_btfs.Prelude.{
  ℕ, ◌≤◌, ◌<◌, ◌≡◌, ◌≢◌, refl, ◌∙◌, false, some, arith, update_self, update_ne, sub32, u32_mod, ap,
}
use basic_btfs.Kernel.{BitmapApi, IsBitmapApi}
use basic_btfs.Ftfs.Bitmap.{SbInfo, put_free_bits, put_blocks, put_inode}
use basic_btfs.Ftfs.Disk.{zero_entry, Table, Dirs, Inode, returns, put_table, put_block}
use basic_btfs.Ftfs.Add.{clean_allocated_inode}
use basic_btfs.Ftfs.Remove.{delete_entry}
use basic_btfs.Ftfs.Rename.{on_success}
use basic_btfs.Ftfs.Inode.{directory, zeroed, unlink, check_empty, rmdir}

abbrev zero_table : Table
zero_table = record { nr_of_entries = 0; table = λ _. 0 }

module _ (api : BitmapApi) (law : IsBitmapApi api) where
  put_blocks-clears :
      (sbi : SbInfo) (bno : ℕ)
      → bno < sbi.s_nblocks
      → sbi.s_nblocks < u32_mod
      → (put_blocks api sbi bno 1).s_bfree_bitmap bno ≡ false
  unfolding put_blocks put_free_bits
  put_blocks-clears sbi bno lt small = ground (arith, law.clear_at sbi.s_bfree_bitmap bno 1 bno)

  put_inode-s_bfree_bitmap :
      (sbi : SbInfo) (ino : ℕ) → (put_inode api sbi ino).s_bfree_bitmap ≡ sbi.s_bfree_bitmap
  unfolding put_inode
  put_inode-s_bfree_bitmap sbi ino = ground arith

  -- What the removal of a directory leaves.
  removed : Inode → Dirs → Dirs
  removed inode d = clean_allocated_inode api inode (zeroed inode.i_bno d)

  removed-table :
      (inode : Inode) (d : Dirs) → (removed inode d).tables inode.i_bno ≡ some zero_table
  unfolding removed clean_allocated_inode zeroed put_table put_block
  removed-table inode d = update_self d.tables inode.i_bno (some zero_table)

  removed-blocks :
      (inode : Inode) (d : Dirs) (x : ℕ) → x ≢ inode.i_bno → (removed inode d).blocks x ≡ d.blocks x
  unfolding removed clean_allocated_inode zeroed put_table put_block
  removed-blocks inode d x ne = update_ne d.blocks inode.i_bno x (some λ _. zero_entry) ne

  removed-free :
      (inode : Inode) (d : Dirs)
      → inode.i_bno < d.sbi.s_nblocks
      → d.sbi.s_nblocks < u32_mod
      → (removed inode d).sbi.s_bfree_bitmap inode.i_bno ≡ false
  unfolding removed clean_allocated_inode zeroed put_table put_block
  removed-free inode d lt small =
      ap (λ map. map inode.i_bno)
        (put_inode-s_bfree_bitmap (put_blocks api d.sbi inode.i_bno 1) inode.i_ino)
      ∙ put_blocks-clears d.sbi inode.i_bno lt small

  unlink_directory :
      (dir inode : Inode) (d d1 : Dirs) (t : Table)
      → delete_entry dir inode d ≡ returns tt d1
      → d1.tables inode.i_bno ≡ some t
      → unlink api dir inode directory d ≡ returns tt (removed inode d1)
  unfolding unlink on_success removed
  unlink_directory dir inode d d1 t run at = rw (unlink, run, on_success, at) refl

  check_removed :
      (inode : Inode) (i_nlink : ℕ) (d : Dirs)
      → i_nlink ≤ 2
      → check_empty api inode i_nlink (returns tt (removed inode d)) (removed inode d)
        ≡ returns tt (removed inode d)
  unfolding check_empty
  check_removed inode i_nlink d le = rw (check_empty, removed-table inode d) (ground arith)

  -- Removing a directory of the file system with tables, once the deletion of its entry from its
  -- parent has succeeded and its table can be read, with a count of links from 2 to 4, and with the
  -- block of its table inside the device, whose number of blocks fits 32 bits: it succeeds,
  -- whatever number of entries the directory has. The block of its table has become free and is
  -- zero, and the blocks of its entries are left as they were.
  pub rmdir_loses_entries :
      (dir inode : Inode) (i_nlink : ℕ) (d d1 : Dirs) (t : Table)
      → delete_entry dir inode d ≡ returns tt d1
      → d1.tables inode.i_bno ≡ some t
      → 2 ≤ i_nlink
      → i_nlink ≤ 4
      → inode.i_bno < d1.sbi.s_nblocks
      → d1.sbi.s_nblocks < u32_mod
      → (d' : Dirs) × (rmdir api dir inode i_nlink d ≡ returns tt d')
        × (d'.tables inode.i_bno ≡ some (record { nr_of_entries = 0; table = λ _. 0 }))
        × (d'.sbi.s_bfree_bitmap inode.i_bno ≡ false)
        × ((x : ℕ) → x ≢ inode.i_bno → d'.blocks x ≡ d1.blocks x)
  unfolding rmdir
  rmdir_loses_entries dir inode i_nlink d d1 t run at ge le lt small =
      let links : sub32 i_nlink 2 ≤ 2 = omega arith in
      (
        removed inode d1,
        rw (rmdir, unlink_directory dir inode d d1 t run at)
            (check_removed inode (sub32 i_nlink 2) d1 links),
        removed-table inode d1,
        removed-free inode d1 lt small,
        removed-blocks inode d1,
      )
