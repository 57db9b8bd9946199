-- ===== src/Btfs/Names/Written.antt =====
-- The bytes of a block of names after an entry and its name have been written,
-- BasicBTFS/nametree.h.
use basic_btfs.Prelude.{ℕ, ◌+◌, ◌<◌, ◌≡◌, ◌∙◌, inl, List, arith, update, length, u32_mod}
use basic_btfs.Btfs.NameBlock.{name_entry_size, write32, write_bytes}
use basic_btfs.Btfs.Names.Bytes.{
  IsText, read32-Agree, read_bytes-Agree, read32-write32, write32_at, write_bytes_at,
  read_bytes-write_bytes,
}
use basic_btfs.Btfs.Names.Slots.{IsEntry}
use basic_btfs.Btfs.Names.{Dirent}

abbrev pub dirent : ℕ → List ℕ → Dirent
dirent ino name = record { ino = ino; name = name }

-- The bytes after an entry and its name have been written at `off`.
unfoldable pub written : (ℕ → ℕ) → ℕ → ℕ → List ℕ → ℕ → ℕ
written m off ino name =
    update
      (write_bytes (write32 (write32 m off ino) (off + 4) (length name + 1)) (off + name_entry_size)
        name)
      (off + name_entry_size + length name) 0

module _ (m : ℕ → ℕ) (off ino : ℕ) (name : List ℕ) where
  pub written_before : (x : ℕ) → x < off → written m off ino name x ≡ m x
  unfolding written update
  written_before x lt =
      let m' = write32 m off ino in
      let m'' = write32 m' (off + 4) (length name + 1) in
      ground (
        arith,
        write_bytes_at m'' (off + name_entry_size) name x (inl (omega arith)),
        write32_at m' (off + 4) (length name + 1) x (inl (omega arith)),
        write32_at m off ino x (inl lt),
      )

  written_number : (x : ℕ) → x < off + 4 → written m off ino name x ≡ write32 m off ino x
  unfolding written update
  written_number x lt =
      let m' = write32 m off ino in
      let m'' = write32 m' (off + 4) (length name + 1) in
      ground (
        arith,
        write_bytes_at m'' (off + name_entry_size) name x (inl (omega arith)),
        write32_at m' (off + 4) (length name + 1) x (inl (omega arith)),
      )

  written_size :
      (x : ℕ)
      → x < off + name_entry_size
      → written m off ino name x ≡ write32 (write32 m off ino) (off + 4) (length name + 1) x
  unfolding written update
  written_size x lt =
      let m'' = write32 (write32 m off ino) (off + 4) (length name + 1) in
      ground (arith, write_bytes_at m'' (off + name_entry_size) name x (inl lt))

  written_text :
      (x : ℕ)
      → x < off + name_entry_size + length name
      → written m off ino name x
        ≡ write_bytes
            (write32 (write32 m off ino) (off + 4) (length name + 1))
            (off + name_entry_size)
            name
            x
  unfolding written update
  written_text x lt = ground arith

  pub written-IsEntry :
      ino < u32_mod
      → length name + 1 < u32_mod
      → IsText name
      → IsEntry (written m off ino name) off (dirent ino name)
  written-IsEntry lt small text =
      let m' = write32 m off ino in
      let m'' = write32 m' (off + 4) (length name + 1) in
      let m4 = written m off ino name in
      record {
        number =
            read32-Agree m' m4 off (off + 4) (λ x l r. written_number x r) (omega arith)
            ∙ read32-write32 m off ino lt;
        size =
            read32-Agree m'' m4 (off + 4) (off + name_entry_size) (λ x l r. written_size x r)
              (omega arith)
            ∙ read32-write32 m' (off + 4) (length name + 1) small;
        text =
            read_bytes-Agree (write_bytes m'' (off + name_entry_size) name) m4
              (off + name_entry_size) (length name) (off + name_entry_size + length name)
              (λ x l r. written_text x r) (omega arith)
            ∙ read_bytes-write_bytes m'' (off + name_entry_size) name;
        proper = text;
      }
