-- ===== src/Btfs/Inode.antt =====
-- BasicBTFS/inode.c: making a file or a directory, and removing and renaming. Times, owners and the
-- kernel's own structures are left out, as is the counter of operations, which only starts a
-- defragmentation. The kernel is taken to have an inode in memory for every number that can be
-- read.
mod Rmdir
mod Tests
use basic_btfs.Prelude.{
  ℕ, ◌+◌, Bool, true, false, not, Option, none, some, List, ltb, leb, ◌==◌, if◌then◌else◌,
  minus_one, length, update, add32, sub32,
}
use basic_btfs.Kernel.{BitmapApi}
use basic_btfs.Btfs.Bitmap.{get_free_inode, put_inode, get_free_blocks, put_blocks}
use basic_btfs.Btfs.NameBlock.{NameBlock}
use basic_btfs.Btfs.Disk.{
  Entry, Node, zero_node, Store, Disk, Inode, Ret, success, eio, enospc, failed, done, Cmd, ◌>>=◌,
  and_then, pure, put_node,
}
use basic_btfs.Btfs.Btree.Root.{get_inode_block}
use basic_btfs.Btfs.Cache.{max_cache_dir_entries, cache_add_dir, cache_delete_dir}
use basic_btfs.Btfs.BtreeCache.{node_cache_init}
use basic_btfs.Btfs.Names.{new_name_block, put_names}
use basic_btfs.Btfs.Mount.{first_names}
use basic_btfs.Btfs.Dir.{
  Flags, Reply, answered, einval, eexist, emlink, enametoolong, entries_per_dir, name_length,
  add_entry, delete_entry, update_entry, free_dir, free_namelist_blocks,
}

-- What is asked for: a directory, a regular file, or something that is not supported. A symbolic
-- link passes the test too, but no operation asks for one.
pub data Kind : Type 0 where
  directory regular other : Kind

-- The answer of `basicbtfs_new_inode` and of the functions that prepare its block.
pub data New : Type 0 where
  made : Inode → New
  refused : Reply → New

abbrev supported : Kind → Bool
supported other = false
supported _ = true

-- `basicbtfs_iget`: the inode must exist, and its block must be readable.
unfoldable pub iget : ℕ → Disk → Option Reply
iget ino d =
    if leb d.sbi.s_ninodes ino
    then some einval
    else elim (d.inode_root (get_inode_block d.sbi ino)) [
      | none ↦ some (answered eio)
      | some _ ↦ none
    ]

module _ (api : BitmapApi) where
  -- The block of the new inode; without one the inode is given back.
  unfoldable pub new_block : ℕ → Cmd New
  new_block ino d =
      let (bno, sbi) = get_free_blocks api d.sbi 1 in
      if bno == minus_one
      then done (refused (answered enospc)) (record d { sbi = put_inode api sbi ino })
      else done (made (record { i_ino = ino; i_bno = bno })) (record d { sbi = sbi })

  -- `basicbtfs_new_inode`. The test `!ino` is for 0, which `get_free_inode` never gives.
  unfoldable pub new_inode : Kind → Cmd New
  new_inode kind d =
      let (ino, sbi) = get_free_inode api d.sbi in
      let d' = record d { sbi = sbi } in
      if not (supported kind)
      then done (refused einval) d
      else if (d.sbi.s_nfree_inodes == 0)
      then done (refused (answered enospc)) d
      else if (d.sbi.s_nfree_blocks == 0)
      then done (refused (answered enospc)) d
      else if ino == 0
      then done (refused (answered enospc)) d'
      else elim (iget ino d') [
        | some why ↦ done (refused why) (record d' { sbi = put_inode api sbi ino })
        | none ↦ new_block ino d'
      ]

  -- `clean_block`: the block is zeroed, or everything is given back.
  unfoldable pub clean_new : Inode → Cmd New
  clean_new inode d = elim (d.node inode.i_bno) [
    | none ↦
        done (refused (answered eio))
          (record d { sbi = put_inode api (put_blocks api d.sbi inode.i_bno 1) inode.i_ino })
    | some _ ↦ done (made inode) (put_node inode.i_bno zero_node d)
  ]

  -- The root of a new directory, an empty leaf.
  unfoldable pub empty_root : Inode → ℕ → Node
  empty_root inode name_bno = record zero_node {
    leaf = true;
    root = true;
    parent = inode.i_ino;
    tree_name_bno = name_bno;
  }

  module _ (alloc : Store → ℕ) where
    -- The copies of the root and of the block of names, if the cache has room.
    unfoldable pub cache_new_dir : Inode → ℕ → NameBlock → Disk → Disk
    cache_new_dir inode name_bno b d =
        let node = alloc d.cached in
        let d' = node_cache_init node true d in
        if ltb d'.sbi.s_cache_dir_entries max_cache_dir_entries
        then cache_add_dir inode.i_bno node b name_bno d'
        else d'

    -- The root and the first block of names. Where that fails, the inode and its block are kept.
    unfoldable pub init_dir : Inode → Cmd New
    init_dir inode d =
        let (name_bno, sbi) = get_free_blocks api d.sbi 1 in
        let d' = put_node inode.i_bno (empty_root inode name_bno) (record d { sbi = sbi }) in
        if name_bno == minus_one
        then done (refused (answered enospc)) d'
        else elim (d'.names name_bno) [
          | none ↦
              done (refused (answered eio)) (record d' { sbi = put_blocks api d'.sbi name_bno 1 })
          | some _ ↦
              let b = first_names inode.i_ino in
              done (made inode) (cache_new_dir inode name_bno b (put_names name_bno b d'))
        ]

    -- The block of a regular file becomes a cluster table, which the nodes do not show.
    unfoldable pub init_new : Kind → Inode → Cmd New
    init_new directory inode = init_dir inode
    init_new kind inode = done (made inode)

    module _ (crc32 : ℕ → List ℕ → ℕ) (fuel : ℕ) where
      -- The name, or the new inode and its block are given back.
      unfoldable pub link_new : Inode → List ℕ → Entry → Inode → Cmd (Reply × Inode)
      link_new dir name garbage inode d =
          and_then (add_entry api alloc crc32 fuel dir inode.i_ino name garbage d) λ (r, dir') d'.
            elim r [
              | success ↦ done (answered success, dir') d'
              | failure ↦
                  done (answered failure, dir')
                    (record d' {
                      sbi = put_inode api (put_blocks api d'.sbi inode.i_bno 1) inode.i_ino;
                    })
            ]

      -- The next step with a new inode, or the refusal.
      abbrev with_new : New → Inode → (Inode → Cmd (Reply × Inode)) → Cmd (Reply × Inode)
      with_new (made inode) dir k = k inode
      with_new (refused why) dir k = pure (why, dir)

      unfoldable pub create : Kind → Inode → List ℕ → Entry → Cmd (Reply × Inode)
      create kind dir name garbage d =
          if ltb name_length (length name)
          then done (enametoolong, dir) d
          else elim (d.node dir.i_bno) [
            | none ↦ done (answered eio, dir) d
            | some node ↦
                if leb entries_per_dir node.nr_of_files
                then done (emlink, dir) d
                else and_then (new_inode kind d) λ new. with_new new dir λ inode d1.
                  and_then (clean_new inode d1) λ new'. with_new new' dir λ inode' d2.
                    and_then (init_new kind inode' d2)
                      λ new''. with_new new'' dir (link_new dir name garbage)
          ]

      -- `basicbtfs_link`: a second name for the inode `ino`, whose count of links goes up whether
      -- the name can be added or not. Answers the new count, too.
      unfoldable pub link : Inode → ℕ → ℕ → List ℕ → Entry → Cmd (Ret × Inode × ℕ)
      link dir ino i_nlink name garbage d =
          and_then (add_entry api alloc crc32 fuel dir ino name garbage d)
            λ (r, dir'). done (r, dir', add32 i_nlink 1)

  -- The part of `basicbtfs_unlink` for a directory whose root can be read. Both answers are
  -- dropped.
  unfoldable pub free_directory : ℕ → Inode → Node → Cmd Ret
  free_directory fuel inode n d = and_then (free_namelist_blocks api fuel n.tree_name_bno d) λ _ d'.
      and_then (free_dir api fuel inode.i_bno d') λ _ d''.
        done success
          (cache_delete_dir inode.i_bno (record d'' { sbi = put_inode api d''.sbi inode.i_ino }))

  module _ (alloc : Store → ℕ) (crc32 : ℕ → List ℕ → ℕ) (fuel : ℕ) where
    -- `basicbtfs_unlink` of a directory.
    unfoldable pub unlink : Inode → List ℕ → Entry → Inode → Cmd (Ret × Inode)
    unlink dir name garbage inode d =
        and_then (delete_entry api alloc crc32 fuel dir name garbage d) λ (r, dir') d'. elim r [
          | success ↦ elim (d'.node inode.i_bno) [
            | none ↦
                done (success, dir')
                  (record d' {
                    sbi = put_inode api (put_blocks api d'.sbi inode.i_bno 1) inode.i_ino;
                  })
            | some n ↦ and_then (free_directory fuel inode n d') λ r'. done (r', dir')
          ]
          | failure ↦ done (failure, dir') d'
        ]

    -- What `rmdir` answers.
    pub data Removal : Type 0 where
      removed : Ret → Removal
      enotempty : Removal

    -- The links that are left: a removal that gets as far as the inode takes two, in 32 bits.
    unfoldable pub links_left : Ret → ℕ → ℕ
    links_left success i_nlink = sub32 i_nlink 2
    links_left _ i_nlink = i_nlink

    -- The tests come behind the removal. `i_nlink` is the count of links before it.
    unfoldable pub rmdir : Inode → List ℕ → Entry → Inode → ℕ → Cmd (Removal × Inode)
    rmdir dir name garbage inode i_nlink d =
        and_then (unlink dir name garbage inode d) λ (r, dir') d'.
          if ltb 2 (links_left r i_nlink)
          then done (enotempty, dir') d'
          else elim (d'.node inode.i_bno) [
            | none ↦ done (removed eio, dir') d'
            | some n ↦
                if ltb 0 n.nr_of_files then done (enotempty, dir') d' else done (removed r, dir') d'
          ]

    -- The answer of the change is dropped. The second test of the source is on no flag.
    unfoldable pub rename :
        Flags
        → Bool
        → Inode
        → Inode
        → ℕ
        → List ℕ
        → List ℕ
        → Entry
        → Entry
        → Cmd (Reply × Inode × Inode)
    rename flags replaced old_dir new_dir ino old_name new_name garbage garbage' d =
        if flags.exchange
        then done (einval, old_dir, new_dir) d
        else if ltb name_length (length new_name)
        then done (enametoolong, old_dir, new_dir) d
        else and_then
            (update_entry api alloc crc32 fuel flags replaced old_dir new_dir ino old_name new_name
              garbage garbage' d)
            λ (_, old_dir', new_dir'). done (answered success, old_dir', new_dir')
