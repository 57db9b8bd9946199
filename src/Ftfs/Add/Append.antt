-- ===== src/Ftfs/Add/Append.antt =====
-- An entry that is added to a directory stands behind the others.
use basic_btfs.Prelude.{
  ℕ, ◌+◌, ◌/◌, ◌%◌, ◌<◌, ◌≡◌, ◌≢◌, refl, ◌∙◌, true, false, Option, some, inl, inr, arith, ◌==◌,
  if◌then◌else◌, Bool, Bool-cases, ==→eq, ==→ne, update, update_self, update_ne, add32,
}
use basic_btfs.Kernel.{BitmapApi}
use basic_btfs.Ftfs.Bitmap.{SbInfo, get_free_blocks}
use basic_btfs.Ftfs.Disk.{
  max_blocks, entries_per_block, entries_per_dir, name_length, Name, copy_name, Entry, Table, Dirs,
  Inode, returns, put_table, put_block,
}
use basic_btfs.Ftfs.Shape.{IsReadable, IsTable, IsList, IsDir}
use basic_btfs.Ftfs.Add.{write_new_entry, add_entry_name}

abbrev pub new_entry : Inode → Name → Entry
new_entry inode filename = record { ino = inode.i_ino; hash_name = copy_name name_length filename }

unfoldable pub append : (ℕ → Entry) → ℕ → Entry → ℕ → Entry
append at n e k = if k == n then e else at k

unfoldable pub append_slots : (ℕ → ℕ → Entry) → ℕ → Entry → ℕ → ℕ → Entry
append_slots slots n e b = if b == n / 15 then update (slots b) (n % 15) e else slots b

module _ {table : ℕ → ℕ} {n : ℕ} (e : Entry) (good : IsTable table n) (room : n < entries_per_dir)
    (last : table (n / 15) ≢ 0) where
  append-IsTable : IsTable table (n + 1)
  append-IsTable = record {
    most = omega arith;
    covered = λ b lt. elim (Bool-cases (b == n / 15)) [
      | inl h ↦ rw (==→eq b _ h) last
      | inr h ↦ good.covered b (omega (arith, ==→ne b _ h))
    ];
    apart = good.apart;
  }

  append-IsList :
      {slots : ℕ → ℕ → Entry} {at : ℕ → Entry}
      → e.ino ≢ 0
      → IsList table slots at n
      → IsList table (append_slots slots n e) (append at n e) (n + 1)
  unfolding append append_slots update
  append-IsList {slots} {at} nz list = record {
    used = λ k lt. ground (arith, list.used k);
    slot = λ b s lt nz ls. record {
      is_entry = λ below. ground (arith, (list.slot b s lt nz ls).is_entry);
      is_unused = λ above. ground (arith, (list.slot b s lt nz ls).is_unused);
    };
  }

  pub append-IsReadable :
      {slots : ℕ → ℕ → Entry} (blocks : ℕ → Option (ℕ → Entry))
      → IsReadable table blocks slots
      → IsReadable table
          (update blocks (table (n / 15)) (some (update (slots (n / 15)) (n % 15) e)))
          (append_slots slots n e)
  unfolding append_slots
  append-IsReadable {slots} blocks readable = record {
    reads = λ b lt nz. elim (Bool-cases (b == n / 15)) [
      | inl h ↦ rw (h, ==→eq b _ h) (update_self blocks (table (n / 15)) _)
      | inr h ↦ rw h (
          update_ne blocks (table (n / 15)) (table b) _
            (good.apart b (n / 15) lt (omega arith) nz (==→ne b _ h))
          ∙ readable.reads b lt nz)
    ];
  }

module _ (api : BitmapApi) (inode dir : Inode) (filename : Name) (slots : ℕ → ℕ → Entry)
    (at : ℕ → Entry) (n : ℕ) (nz : inode.i_ino ≢ 0) (room : n < entries_per_dir) where
  -- The entry is written to the block that the table names for it.
  write_new_entry_lem :
      (d : Dirs) (t : Table) (is_allocated : Bool)
      → t.nr_of_entries ≡ n
      → t.table (n / 15) ≢ 0
      → IsTable t.table n
      → IsReadable t.table d.blocks slots
      → IsList t.table slots at n
      → (d' : Dirs) × (t' : Table) × (slots' : ℕ → ℕ → Entry) × (write_new_entry api dir.i_bno t
            is_allocated inode filename d
          ≡ returns tt d')
        × IsDir d' dir.i_bno t' slots' (append at n (new_entry inode filename)) (n + 1)
  unfolding write_new_entry put_table put_block
  write_new_entry_lem d t is_allocated count last good readable list =
      let e = new_entry inode filename in
      let read = readable.reads (n / 15) (omega arith) last in
      let t' : Table = record t { nr_of_entries = n + 1 } in
      let same : add32 n 1 ≡ n + 1 = omega arith in
      let blocks' =
        update d.blocks (t.table (n / 15)) (some (update (slots (n / 15)) (n % 15) e)) in
      (
        record d { tables = update d.tables dir.i_bno (some t'); blocks = blocks' },
        t',
        append_slots slots n e,
        ground (arith, count, read),
        record {
          there = update_self d.tables dir.i_bno (some t');
          count = refl;
          good = append-IsTable e good room last;
          readable = append-IsReadable e good room last d.blocks readable;
          list = append-IsList e good room last nz list;
        },
      )

  -- Adding an entry for an inode other than 0 to a directory with room, whose block for it has been
  -- allocated, succeeds: the directory holds what it held, in the same order, and the new entry
  -- behind.
  pub add_entry_name_lem :
      (d : Dirs) (t : Table)
      → IsDir d dir.i_bno t slots at n
      → t.table (n / 15) ≢ 0
      → (d' : Dirs) × (t' : Table) × (slots' : ℕ → ℕ → Entry) × (add_entry_name api dir inode
            filename d
          ≡ returns tt d')
        × IsDir d' dir.i_bno t' slots' (append at n (new_entry inode filename)) (n + 1)
  unfolding add_entry_name
  add_entry_name_lem d t is last =
      let (d', t', slots', run, is') =
        write_new_entry_lem d t false is.count last is.good is.readable is.list in
      (d', t', slots', ground (arith, is.there, is.count, run), is')

module _ (slots : ℕ → ℕ → Entry) (n : ℕ) (t : Table) (b : ℕ) (es : ℕ → Entry) where
  -- The directory's blocks and table with the new block in its place.
  fresh_slots : ℕ → ℕ → Entry
  fresh_slots c = if c == n / 15 then es else slots c

  fresh_table : Table
  fresh_table = record t { table = update t.table (n / 15) b }

  fresh_at : (c : ℕ) → fresh_table.table c ≡ (if c == n / 15 then b else t.table c)
  unfolding fresh_table update
  fresh_at c = refl

  module _ (good : IsTable t.table n) (unset : t.table (n / 15) ≡ 0) (ne : b ≢ 0)
      (apart : (c : ℕ) → c < max_blocks → t.table c ≢ b) where
    fresh-IsTable : IsTable fresh_table.table n
    fresh-IsTable = record {
      most = good.most;
      covered = λ c lt. ground (arith, fresh_at c, good.covered c);
      apart = λ c k lt lt' nz other.
          ground (arith, fresh_at c, fresh_at k, good.apart c k lt lt', apart c lt, apart k lt');
    }

    fresh-IsReadable :
        (blocks : ℕ → Option (ℕ → Entry))
        → blocks b ≡ some es
        → IsReadable t.table blocks slots
        → IsReadable fresh_table.table blocks fresh_slots
    unfolding fresh_slots
    fresh-IsReadable blocks read readable = record {
      reads = λ c lt nz. elim (Bool-cases (c == n / 15)) [
        | inl h ↦ ground (arith, fresh_at c, read)
        | inr h ↦ ground (arith, fresh_at c, readable.reads c lt)
      ];
    }

    fresh-IsList :
        {at : ℕ → Entry}
        → ((s : ℕ) → s < entries_per_block → (es s).ino ≡ 0)
        → IsList t.table slots at n
        → IsList fresh_table.table fresh_slots at n
    unfolding fresh_slots
    fresh-IsList clean list = record {
      used = list.used;
      slot = λ c s lt nz ls. record {
        is_entry = λ below.
            ground (arith, fresh_at c, good.covered (n / 15), (list.slot c s lt _ ls).is_entry);
        is_unused = λ above. ground (arith, fresh_at c, clean s, (list.slot c s lt _ ls).is_unused);
      };
    }

module _ (api : BitmapApi) (inode dir : Inode) (filename : Name) (slots : ℕ → ℕ → Entry)
    (at : ℕ → Entry) (n : ℕ) (nz : inode.i_ino ≢ 0) (room : n < entries_per_dir) where
  -- Adding an entry for an inode other than 0 to a directory with room, whose block for it has
  -- still to be allocated, succeeds in the same way, if the block that the allocation answers is
  -- not 0 and not the block of the directory's own table, can be read, is used by no other slot of
  -- the table, and has no entry.
  pub add_entry_name_new_block :
      (d : Dirs) (sbi : SbInfo) (t : Table) (b : ℕ) (es : ℕ → Entry)
      → IsDir d dir.i_bno t slots at n
      → t.table (n / 15) ≡ 0
      → get_free_blocks api d.sbi 1 ≡ (b, sbi)
      → (b ≢ 0) × (b ≢ dir.i_bno)
      → d.blocks b ≡ some es
      → ((c : ℕ) → c < max_blocks → t.table c ≢ b)
      → ((s : ℕ) → s < entries_per_block → (es s).ino ≡ 0)
      → (d' : Dirs) × (t' : Table) × (slots' : ℕ → ℕ → Entry) × (add_entry_name api dir inode
            filename d
          ≡ returns tt d')
        × IsDir d' dir.i_bno t' slots' (append at n (new_entry inode filename)) (n + 1)
  unfolding add_entry_name fresh_table put_table
  add_entry_name_new_block d sbi t b es is unset got ne read apart clean =
      let t2 = fresh_table slots n t b es in
      let d2 = put_table dir.i_bno t2 (record d { sbi = sbi }) in
      let good = fresh-IsTable slots n t b es is.good unset ne.0 apart in
      let here_b : t2.table (n / 15) ≢ 0 = ground (arith, fresh_at slots n t b es (n / 15)) in
      let (d', t', slots', run, is') =
        write_new_entry_lem api inode dir filename (fresh_slots slots n t b es) at n nz room d2 t2
          true is.count here_b good
          (fresh-IsReadable slots n t b es is.good unset ne.0 apart d2.blocks read is.readable)
          (fresh-IsList slots n t b es is.good unset ne.0 apart clean is.list) in
      (d', t', slots', ground (arith, is.there, is.count, got, unset, run), is')
