-- ===== src/Btfs/Dir.antt =====
-- BasicBTFS/dir.c and the parts of BasicBTFS/inode.c that stand on it: the operations on an entry
-- of a directory, each of which changes the B-tree, the list of names and their copies in the
-- cache.
pub mod Add
pub mod Freed
pub mod Free
pub mod FreeNames
pub mod Search
pub mod Iterate
mod Tests
use basic_btfs.Prelude.{
  ℕ, zero, suc, ◌+◌, Bool, true, false, not, ◌&&◌, ◌||◌, Option, none, some, List, ltb, leb, ◌==◌,
  if◌then◌else◌, minus_one,
}
use basic_btfs.Kernel.{BitmapApi}
use basic_btfs.Btfs.Bitmap.{put_blocks}
use basic_btfs.Btfs.Disk.{
  Entry, Node, Store, Disk, Inode, Ret, success, eio, enospc, failed, Run, done, fault, out_of_fuel,
  Cmd, ◌>>=◌, ◌>>◌, and_then, on_success, pure, with_node,
}
use basic_btfs.Btfs.Btree.Search.{lookup, lookup_with_entry}
use basic_btfs.Btfs.Btree.Delete.{child_at}
use basic_btfs.Btfs.Btree.Root.{node_insert}
use basic_btfs.Btfs.Btree.Remove
use basic_btfs.Btfs.Cache.{
  max_cache_blocks_per_dir, cache_get_root_node, cache_get_nr_of_blocks, node_cache_lookup,
  cache_lookup_entry,
}
use basic_btfs.Btfs.BtreeCache.{node_cache_insert}
use basic_btfs.Btfs.BtreeCache.Delete.{cache_delete_entry}
use basic_btfs.Btfs.NameBlock.{NameBlock}
use basic_btfs.Btfs.Names.{insert_name, delete_name}

-- `get_hash_from_block` of BasicBTFS/init.h; `crc32` is the kernel's.
unfoldable pub get_hash_from_block : (ℕ → List ℕ → ℕ) → List ℕ → ℕ
get_hash_from_block crc32 name = crc32 0 name

-- An option of a look-up as a run: `none` is a run out of fuel.
abbrev pub answer : {A : Type 0} → Option A → Cmd A
answer none d = out_of_fuel
answer (some a) d = done a d

-- `ret != -1 && ret > 0` for the `uint32_t` answer of a look-up in an `int`.
unfoldable pub is_positive : ℕ → Bool
is_positive ret = ltb 0 ret && ltb ret 2147483648

-- What becomes of a name: the number of the inode that `iget` is then asked for, or that no file
-- has the name.
unfoldable pub search_entry : (ℕ → List ℕ → ℕ) → ℕ → Inode → List ℕ → Cmd (Option ℕ)
search_entry crc32 fuel dir name d =
    let hash = get_hash_from_block crc32 name in
    let found = λ (ino : ℕ). not (ino == 0) && not (ino == minus_one) in
    and_then (cache_lookup_entry fuel dir.i_bno hash d) λ ino.
      if found ino then done (some ino) else λ d'.
      and_then (answer (lookup fuel d'.node dir.i_bno hash) d')
        λ ino'. if found ino' then done (some ino') else done none

module _ (api : BitmapApi) (alloc : Store → ℕ) (crc32 : ℕ → List ℕ → ℕ) (fuel : ℕ) where
  -- The insertion into the cached tree, whatever the insertion into the tree answered.
  unfoldable pub add_to_cache : ℕ → Entry → Ret × Inode → Cmd (Ret × Inode)
  add_to_cache nr_of_blocks e (ret, dir) d =
      if ltb nr_of_blocks max_cache_blocks_per_dir
      then elim (cache_get_root_node dir.i_bno d.dir_cache) [
        | none ↦ done (ret, dir) d
        | some node ↦
            and_then (node_cache_insert alloc fuel dir node e dir.i_bno d) λ ret'. done (ret', dir)
      ]
      else done (ret, dir) d

  -- The answer of the insertion into the list of names is overwritten. Where it fails, the place of
  -- the name in the entry is what stood in the variable, `garbage`.
  unfoldable pub insert_entry : Inode → ℕ → List ℕ → ℕ → Entry → Cmd (Ret × Inode)
  insert_entry dir ino name name_bno garbage d =
      let e = record garbage { ino = ino; hash = get_hash_from_block crc32 name } in
      let nr_of_blocks = cache_get_nr_of_blocks dir.i_bno d.dir_cache in
      and_then (insert_name api fuel name_bno name e dir.i_bno nr_of_blocks d) λ (_, e') d'.
        and_then (node_insert api fuel dir dir.i_bno e' d') λ r. add_to_cache nr_of_blocks e' r

  unfoldable pub add_entry : Inode → ℕ → List ℕ → Entry → Cmd (Ret × Inode)
  add_entry dir ino name garbage d = elim (d.node dir.i_bno) [
    | none ↦ done (eio, dir) d
    | some node ↦
        and_then (answer (lookup fuel d.node dir.i_bno (get_hash_from_block crc32 name)) d) λ ret.
          if is_positive ret
          then done (eio, dir)
          else insert_entry dir ino name node.tree_name_bno garbage
  ]

  -- The cached root, if there is one.
  abbrev with_cached_root : {A : Type 0} → Option ℕ → A → (ℕ → Cmd A) → Cmd A
  with_cached_root none a k = pure a
  with_cached_root (some node) a k = k node

  -- The deletion from the tree, from the cached tree and from the list of names, in this order.
  -- Only the answer of the last counts. The root in the cache was looked up before.
  unfoldable pub delete_everywhere : Inode → ℕ → Option ℕ → Entry → Cmd (Ret × Inode)
  delete_everywhere dir hash node_cache e d =
      and_then (Remove.delete_entry api fuel dir dir.i_bno hash d) λ (_, dir') d'.
        and_then
          (with_cached_root node_cache success (λ node. cache_delete_entry fuel dir' node hash) d')
          λ _ d''.
            and_then (delete_name e.name_bno e.block_index dir'.i_bno d'') λ r. done (r, dir')

  -- The place of the name comes from the look-up, or is what stood in the variable where the name
  -- is not found; the deletion goes on all the same.
  unfoldable pub place_of : Entry → Option Entry → Entry
  place_of garbage none = garbage
  place_of garbage (some e) = e

  unfoldable pub delete_entry : Inode → List ℕ → Entry → Cmd (Ret × Inode)
  delete_entry dir name garbage d =
      let hash = get_hash_from_block crc32 name in
      let node_cache = cache_get_root_node dir.i_bno d.dir_cache in
      elim (d.node dir.i_bno) [
        | none ↦ done (eio, dir) d
        | some _ ↦
            and_then (answer (lookup_with_entry fuel d.node dir.i_bno hash) d) λ (_, found) d'.
              and_then (with_cached_root node_cache 0 (λ node. node_cache_lookup fuel node hash) d')
                λ _. delete_everywhere dir hash node_cache (place_of garbage found)
      ]

-- The flags of a rename.
pub record Flags : Type 0 where
  pub noreplace : Bool
  pub exchange : Bool
  pub whiteout : Bool

-- The answers of a rename: those of the parts, and -EINVAL, -EEXIST, -EMLINK, -ENAMETOOLONG.
pub data Reply : Type 0 where
  answered : Ret → Reply
  einval eexist emlink enametoolong : Reply

-- BASICBTFS_ENTRIES_PER_DIR.
abbrev pub entries_per_dir : ℕ
entries_per_dir = 261888

abbrev pub name_length : ℕ
name_length = 255

module _ (api : BitmapApi) (alloc : Store → ℕ) (crc32 : ℕ → List ℕ → ℕ) (fuel : ℕ) where
  -- Add under the new name, and only then delete the old one. Both directories may be the same.
  unfoldable pub add_and_delete :
      Inode → Inode → ℕ → List ℕ → List ℕ → Entry → Entry → Cmd (Reply × Inode × Inode)
  add_and_delete old_dir new_dir ino old_name new_name garbage garbage' d =
      and_then (add_entry api alloc crc32 fuel new_dir ino new_name garbage d) λ (r, new_dir') d'.
        let old_dir' = if old_dir.i_ino == new_dir.i_ino then new_dir' else old_dir in
        elim r [
          | success ↦
              and_then (delete_entry api alloc crc32 fuel old_dir' old_name garbage' d')
                λ (r', old_dir'') d''.
                  done
                    (
                      answered r',
                      old_dir'',
                      (if old_dir.i_ino == new_dir.i_ino then old_dir'' else new_dir'),
                    )
                    d''
          | failure ↦ done (answered failure, old_dir', new_dir') d'
        ]

  -- `ino` is the inode of the old name; `replaced` says whether the new name has one.
  unfoldable pub update_entry :
      Flags
      → Bool
      → Inode
      → Inode
      → ℕ
      → List ℕ
      → List ℕ
      → Entry
      → Entry
      → Cmd (Reply × Inode × Inode)
  update_entry flags replaced old_dir new_dir ino old_name new_name garbage garbage' d =
      if flags.whiteout || flags.noreplace
      then done (einval, old_dir, new_dir) d
      else if flags.exchange && not replaced
      then done (einval, old_dir, new_dir) d
      else and_then
          (answer (lookup fuel d.node new_dir.i_bno (get_hash_from_block crc32 new_name)) d)
          λ found. if is_positive found then done (eexist, old_dir, new_dir) else λ d'.
            elim (d'.node new_dir.i_bno) [
              | none ↦ done (answered eio, old_dir, new_dir) d'
              | some node ↦
                  if leb entries_per_dir node.nr_of_files
                  then done (emlink, old_dir, new_dir) d'
                  else add_and_delete old_dir new_dir ino old_name new_name garbage garbage' d'
            ]

module _ (api : BitmapApi) where
  unfoldable pub put_block : ℕ → Cmd Ret
  put_block bno d = done success (record d { sbi = put_blocks api d.sbi bno 1 })

  -- The loop over the children but the last, with `rounds` of them left.
  unfoldable pub free_children : (ℕ → Cmd Ret) → ℕ → ℕ → Node → Cmd Ret
  free_children free zero index n = pure success
  free_children free (suc rounds) index n = do
    ret ← free (n.children index)
    on_success ret (free_children free rounds (index + 1) n)

  -- Of the answers for the last child only -1 counts.
  unfoldable pub free_last : (ℕ → Cmd Ret) → ℕ → Node → Cmd Ret
  unfolding put_block
  free_last free bno n =
      free (child_at n n.nr_of_keys) >>= λ r. elim r [ failed ↦ pure failed | _ ↦ put_block bno ]

  unfoldable pub free_node : (ℕ → Cmd Ret) → ℕ → Node → Cmd Ret
  free_node free bno n =
      if n.leaf
      then put_block bno
      else (do ret ← free_children free n.nr_of_keys 0 n; on_success ret (free_last free bno n))

  -- `basicbtfs_btree_free_dir`.
  unfoldable pub free_dir : ℕ → ℕ → Cmd Ret
  free_dir zero bno d = out_of_fuel
  free_dir (suc fuel) bno d =
      let rest = λ (b : ℕ). free_dir fuel b in
      if (bno == 0) || ltb d.sbi.s_nblocks bno
      then done failed d
      else with_node bno eio (free_node rest bno) d

  -- `basicbtfs_nametree_free_namelist_blocks`.
  unfoldable pub free_namelist_blocks : ℕ → ℕ → Cmd Ret
  unfolding put_block
  free_namelist_blocks zero name_bno d = out_of_fuel
  free_namelist_blocks (suc fuel) name_bno d = elim (d.names name_bno) [
    | none ↦ done eio d
    | some b ↦
        let rest =
          free_namelist_blocks fuel b.next_block
            (record d { sbi = put_blocks api d.sbi name_bno 1 }) in
        if b.next_block == 0 then put_block name_bno d else rest
  ]
