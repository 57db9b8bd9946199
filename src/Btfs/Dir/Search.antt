-- ===== src/Btfs/Dir/Search.antt =====
-- `basicbtfs_search_entry` of BasicBTFS/dir.c: the cache does not show.
use basic_btfs.Prelude.{
  ℕ, ◌≡◌, ◌<◌, refl, ◌∙◌, inl, inr, not, ◌&&◌, Option, none, some, ◌⊎◌, List, ◌==◌, if◌then◌else◌,
  Bool-cases, minus_one,
}
use basic_btfs.Btfs.Disk.{Disk, Inode, done}
use basic_btfs.Btfs.Btree.Search.{lookup}
use basic_btfs.Btfs.Cache.{cache_get_root_node, cache_lookup_entry, node_cache_lookup}
use basic_btfs.Btfs.BtreeCache.Copy.{IsCopy, node_cache_lookup_lem}
use basic_btfs.Btfs.Dir.{get_hash_from_block, search_entry}

-- What a look-up's answer stands for: 0 and -1 are no inode.
unfoldable pub file_of : ℕ → Option ℕ
file_of ino = if not (ino == 0) && not (ino == minus_one) then some ino else none

-- What the cache has of a directory: nothing, or copies of the whole tree.
pub data IsCached (d : Disk) (dir : Inode) (h : ℕ) : Type 0 where
  uncached : cache_get_root_node dir.i_bno d.dir_cache ≡ none → IsCached d dir h
  copied :
      (a : ℕ)
      → cache_get_root_node dir.i_bno d.dir_cache ≡ some a
      → IsCopy d.node d.cached h dir.i_bno a
      → IsCached d dir h

module _ (crc32 : ℕ → List ℕ → ℕ) (fuel : ℕ) (dir : Inode) (name : List ℕ) (d : Disk) where
  abbrev hash_of : ℕ
  hash_of = get_hash_from_block crc32 name

  cache_answer :
      (a : ℕ)
      → cache_get_root_node dir.i_bno d.dir_cache ≡ some a
      → cache_lookup_entry fuel dir.i_bno hash_of d ≡ node_cache_lookup fuel a hash_of d
  unfolding cache_lookup_entry
  cache_answer a at = rw (cache_lookup_entry, at) refl

  cache_no_answer :
      cache_get_root_node dir.i_bno d.dir_cache ≡ none
      → cache_lookup_entry fuel dir.i_bno hash_of d ≡ done 0 d
  unfolding cache_lookup_entry
  cache_no_answer at = rw (cache_lookup_entry, at) refl

  -- From the answers of the cache, 0 or that of the tree, and of the tree.
  search_by_answers :
      (first ino : ℕ)
      → cache_lookup_entry fuel dir.i_bno hash_of d ≡ done first d
      → lookup fuel d.node dir.i_bno hash_of ≡ some ino
      → (first ≡ 0) ⊎ (first ≡ ino)
      → search_entry crc32 fuel dir name d ≡ done (file_of ino) d
  unfolding search_entry file_of
  search_by_answers first ino one two (inl z) =
      rw (search_entry, one, z, two)
        (elim (Bool-cases (not (ino == 0) && not (ino == minus_one))) [
          | inl f ↦ rw f refl
          | inr f ↦ rw f refl
        ])
  search_by_answers first ino one two (inr same) =
      rw (search_entry, one, same)
        (elim (Bool-cases (not (ino == 0) && not (ino == minus_one))) [
          | inl f ↦ rw f refl
          | inr f ↦ rw f (rw (two, f) refl)
        ])

  -- The search for a name ends in the state in which it began, and answers what the look-up in the
  -- tree on disk answers for the hash of the name, with 0 and -1 for no file, if that look-up ends,
  -- if the cache has copies of the whole tree of the directory, with no full node and lower than
  -- the fuel, or nothing of the directory.
  pub search_entry_lem :
      (h ino : ℕ)
      → IsCached d dir h
      → h < fuel
      → lookup fuel d.node dir.i_bno (get_hash_from_block crc32 name) ≡ some ino
      → search_entry crc32 fuel dir name d ≡ done (file_of ino) d
  search_entry_lem h ino (uncached nothing) lt two =
      search_by_answers 0 ino (cache_no_answer nothing) two (inl refl)
  search_entry_lem h ino (copied a at copy) lt two =
      let (ino', two', one) = node_cache_lookup_lem fuel h dir.i_bno a hash_of d copy lt in
      let same : ino' ≡ ino = cc in
      search_by_answers ino' ino (cache_answer a at ∙ one) two (inr same)
