-- ===== src/Ftfs/Shape.antt =====
-- A directory of BasicFATFS as a sequence of entries: entry `k` stands in slot `k % 15` of the
-- block `k / 15` of the table, and the slots behind the last entry are unused.
use basic_btfs.Prelude.{ℕ, ◌+◌, ◌*◌, ◌≤◌, ◌<◌, ◌≡◌, ◌≢◌, Option, some}
use basic_btfs.Ftfs.Disk.{max_blocks, entries_per_block, entries_per_dir, Entry, Table, Dirs}

-- What slot `k` holds, in a directory with the entries `at 0` to `at (n - 1)`.
pub record IsSlot (at : ℕ → Entry) (n k : ℕ) (e : Entry) : Type 0 where
  pub is_entry : k < n → e ≡ at k
  pub is_unused : n ≤ k → e.ino ≡ 0

-- The blocks of the table can be read, and no two of its slots share one.
pub record IsReadable (table : ℕ → ℕ) (blocks : ℕ → Option (ℕ → Entry)) (slots : ℕ → ℕ → Entry)
    : Type 0 where
  pub reads : (b : ℕ) → b < max_blocks → table b ≢ 0 → blocks (table b) ≡ some (slots b)

pub record IsTable (table : ℕ → ℕ) (n : ℕ) : Type 0 where
  pub most : n ≤ entries_per_dir
  pub covered : (b : ℕ) → entries_per_block * b < n → table b ≢ 0
  pub apart : (b c : ℕ) → b < max_blocks → c < max_blocks → table b ≢ 0 → b ≢ c → table b ≢ table c

pub record IsList (table : ℕ → ℕ) (slots : ℕ → ℕ → Entry) (at : ℕ → Entry) (n : ℕ) : Type 0 where
  pub used : (k : ℕ) → k < n → (at k).ino ≢ 0
  pub slot :
      (b s : ℕ)
      → b < max_blocks
      → table b ≢ 0
      → s < entries_per_block
      → IsSlot at n (entries_per_block * b + s) (slots b s)

-- The block `bno` of the state is the table of a directory with `n` entries `at`.
pub record IsDir (d : Dirs) (bno : ℕ) (t : Table) (slots : ℕ → ℕ → Entry) (at : ℕ → Entry) (n : ℕ)
    : Type 0 where
  pub there : d.tables bno ≡ some t
  pub count : t.nr_of_entries ≡ n
  pub good : IsTable t.table n
  pub readable : IsReadable t.table d.blocks slots
  pub list : IsList t.table slots at n
