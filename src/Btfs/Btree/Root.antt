-- ===== src/Btfs/Btree/Root.antt =====
-- `basicbtfs_btree_node_insert` and the change of a directory's root, BasicBTFS/btree.h.
use basic_btfs.Prelude.{
  ℕ, ◌+◌, ◌/◌, ◌%◌, true, false, none, some, ltb, leb, ◌==◌, if◌then◌else◌, update, minus_one,
  add32,
}
use basic_btfs.Kernel.{BitmapApi}
use basic_btfs.Btfs.Super.{SbInfo}
use basic_btfs.Btfs.Bitmap.{get_free_blocks}
use basic_btfs.Btfs.Cache.{cache_update_root_bno}
use basic_btfs.Btfs.Disk.{
  max_keys, Entry, Disk, Inode, Ret, success, eio, enospc, failed, done, Cmd, ◌>>=◌, ◌>>◌, and_then,
  with_node, on_success, store, put_node,
}
use basic_btfs.Btfs.Btree.Insert.{node_init, split_child, insert_non_full}

-- BASICBTFS_GET_INODE_BLOCK, with 56 = 4096 / 72 inodes in a block.
abbrev pub inodes_per_block : ℕ
inodes_per_block = 56

unfoldable pub get_inode_block : SbInfo → ℕ → ℕ
get_inode_block sbi ino = ino / inodes_per_block + sbi.s_imap_blocks + sbi.s_bmap_blocks + 1

-- Both copies of `i_bno` are written, and the cached directory follows.
unfoldable pub update_root : Inode → ℕ → Cmd (Ret × Inode)
update_root inode bno d =
    let block = get_inode_block d.sbi inode.i_ino in
    if leb d.sbi.s_ninodes inode.i_ino then done (failed, inode) d else elim (d.inode_root block) [
      | none ↦ done (eio, inode) d
      | some roots ↦
          done (success, record inode { i_bno = bno })
            (record d {
              dir_cache = cache_update_root_bno inode.i_bno bno d.dir_cache;
              inode_root =
                  update d.inode_root block
                    (some (update roots (inode.i_ino % inodes_per_block) bno));
            })
    ]

module _ (api : BitmapApi) where
  -- The root is full: a new root above it, filled in by the split.
  unfoldable pub new_root : Inode → ℕ → Disk → ℕ → Disk
  new_root par_inode bno d bno_new_root =
      let n = node_init false par_inode.i_ino in
      put_node bno_new_root (record n { children = update n.children 0 bno }) d

  -- The fields that move from the old root to the new one.
  unfoldable pub finish_new_root : Inode → ℕ → ℕ → Cmd Ret
  finish_new_root par_inode bno bno_new_root d =
      with_node bno eio
        (λ old. with_node bno_new_root eio λ new. do
          store bno_new_root (record new {
            nr_of_files = add32 old.nr_of_files 1;
            nr_times_done = add32 old.nr_times_done 1;
            tree_name_bno = old.tree_name_bno;
            parent = par_inode.i_ino;
            root = true;
          })
          store bno (record old { root = false; parent = bno_new_root })
          λ d. done success d)
        d

  -- Split the old root under the new one, and insert on the side where the hash belongs.
  unfoldable pub insert_below_new_root : ℕ → Inode → ℕ → ℕ → Entry → Cmd Ret
  insert_below_new_root fuel par_inode bno bno_new_root e = do
    ret ← split_child api bno_new_root bno 0
    on_success ret (
        with_node bno_new_root eio λ new.
          insert_non_full api fuel (new.children (if ltb (new.entries 0).hash e.hash then 1 else 0))
            e)

  -- On success the inode takes the new root, which takes the old root's fields.
  unfoldable pub adopt_new_root : Inode → ℕ → ℕ → Ret → Cmd (Ret × Inode)
  adopt_new_root par_inode bno bno_new_root success d =
      and_then (update_root par_inode bno_new_root d) λ (ret, inode) d'.
        and_then (on_success ret (finish_new_root inode bno bno_new_root) d')
          λ ret' d''. done (ret', inode) d''
  adopt_new_root par_inode bno bno_new_root ret d = done (ret, par_inode) d

  unfoldable pub node_insert_full : ℕ → Inode → ℕ → Entry → Cmd (Ret × Inode)
  node_insert_full fuel par_inode bno e d =
      let (bno_new_root, sbi) = get_free_blocks api d.sbi 1 in
      let d' = record d { sbi = sbi } in
      if bno_new_root == minus_one
      then done (enospc, par_inode) d'
      else elim (d'.node bno_new_root) [
        | none ↦ done (eio, par_inode) d'
        | some _ ↦
            and_then
              (insert_below_new_root fuel par_inode bno bno_new_root e
                (new_root par_inode bno d' bno_new_root))
              λ ret. adopt_new_root par_inode bno bno_new_root ret
      ]

  -- The root has room: it takes the entry and counts it.
  unfoldable pub insert_in_root : ℕ → ℕ → Entry → Cmd Ret
  insert_in_root fuel bno e = do
    ret ← insert_non_full api fuel bno e
    on_success ret (
        with_node bno eio λ old. do
          store bno (record old {
            nr_of_files = add32 old.nr_of_files 1;
            nr_times_done = add32 old.nr_times_done 1;
          })
          λ d. done success d)

  -- The buffers of the old and the new root are held, so the later reads of them see what the
  -- callees have written.
  unfoldable pub node_insert : ℕ → Inode → ℕ → Entry → Cmd (Ret × Inode)
  node_insert fuel par_inode bno e d = elim (d.node bno) [
    | none ↦ done (eio, par_inode) d
    | some old ↦
        if old.nr_of_keys == max_keys
        then node_insert_full fuel par_inode bno e d
        else and_then (insert_in_root fuel bno e d) λ ret d'. done (ret, par_inode) d'
  ]
