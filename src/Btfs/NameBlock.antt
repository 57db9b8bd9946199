-- ===== src/Btfs/NameBlock.antt =====
-- A block of a list of names, BasicBTFS/basicbtfs.h: the header `struct basicbtfs_name_list_hdr` as
-- fields, and the entries behind it as bytes by their offset in the block. Numbers are stored with
-- the low byte first.
use basic_btfs.Prelude.{
  ℕ, zero, suc, ◌+◌, ◌*◌, ◌/◌, ◌%◌, Bool, List, [], ◌∷◌, ◌==◌, if◌then◌else◌, update,
}

abbrev pub block_size : ℕ
block_size = 4096

-- BASICBTFS_NAME_ENTRY_S_OFFSET: the header has 24 bytes, and `block_type_id` stands before it.
abbrev pub name_entry_s_offset : ℕ
name_entry_s_offset = 28

-- BASICBTFS_EMPTY_NAME_TREE.
abbrev pub empty_name_tree : ℕ
empty_name_tree = 4068

-- `sizeof(struct basicbtfs_name_entry)`: `ino` and `name_length`.
abbrev pub name_entry_size : ℕ
name_entry_size = 8

pub record NameBlock : Type 0 where
  pub block_type_id : ℕ
  pub free_bytes : ℕ
  pub start_unused_area : ℕ
  pub nr_of_entries : ℕ
  pub next_block : ℕ
  pub prev_block : ℕ
  pub first_list : Bool
  pub bytes : ℕ → ℕ

-- A block of a name list in the cache, `struct basicbtfs_name_tree_cache`.
pub record CachedName : Type 0 where
  pub name_bno : ℕ
  pub block : NameBlock

unfoldable pub read32 : (ℕ → ℕ) → ℕ → ℕ
read32 m o = m o + 256 * m (o + 1) + 65536 * m (o + 2) + 16777216 * m (o + 3)

unfoldable pub write32 : (ℕ → ℕ) → ℕ → ℕ → ℕ → ℕ
write32 m o v =
    update
      (update (update (update m o (v % 256)) (o + 1) (v / 256 % 256)) (o + 2) (v / 65536 % 256))
      (o + 3) (v / 16777216 % 256)

unfoldable pub read_bytes : (ℕ → ℕ) → ℕ → ℕ → List ℕ
read_bytes m o zero = []
read_bytes m o (suc n) = m o ∷ read_bytes m (o + 1) n

unfoldable pub write_bytes : (ℕ → ℕ) → ℕ → List ℕ → ℕ → ℕ
write_bytes m o [] = m
write_bytes m o (x ∷ xs) = write_bytes (update m o x) (o + 1) xs

-- What `strncpy(dst, src, n)` writes, from the `n` bytes at `src`: zeros from the first zero on.
unfoldable pub zeros : List ℕ → List ℕ
zeros [] = []
zeros (x ∷ xs) = 0 ∷ zeros xs

unfoldable pub strncpy : List ℕ → List ℕ
strncpy [] = []
strncpy (x ∷ xs) = if x == 0 then 0 ∷ zeros xs else x ∷ strncpy xs
