-- ===== src/Ftfs/Tests.antt =====
-- A directory of 16 entries in two blocks, one of 15 entries in one block, and two files.
use basic_btfs.Prelude.{
  ℕ, ◌+◌, ◌-◌, ◌*◌, ◌≡◌, ◌≢◌, refl, true, false, none, some, [], ◌∷◌, arith, ltb, ◌==◌,
  if◌then◌else◌, update, ◌||◌, ne→==,
}
use basic_btfs.Kernel.{plain_api}
use basic_btfs.Ftfs.Bitmap.{SbInfo, get_free_blocks, get_first_free_bits}
use basic_btfs.Ftfs.Disk.{
  Name, same_name, Entry, zero_entry, Table, Dirs, Inode, efbig, returns, fails, endless, put_table,
}
use basic_btfs.Ftfs.Shape.{IsDir}
use basic_btfs.Ftfs.Search.{search_entry}
use basic_btfs.Ftfs.Search.Correct.{search_entry_found, search_entry_absent}
use basic_btfs.Ftfs.Add.{add_entry_name}
use basic_btfs.Ftfs.Add.Append.{append, new_entry, add_entry_name_lem, add_entry_name_new_block}
use basic_btfs.Ftfs.Add.Find.{search_entry-add_entry_name}
use basic_btfs.Ftfs.Remove.{delete_entry}
use basic_btfs.Ftfs.Remove.Close.{without}
use basic_btfs.Ftfs.Remove.Delete.{delete_entry_lem}
use basic_btfs.Ftfs.Rename.{replace_entry}
use basic_btfs.Ftfs.Rename.Replace.{set_at, replace_entry_loses_next}
use basic_btfs.Ftfs.File.{get_block, clean_file_block}
use basic_btfs.Ftfs.File.Blocks.{
  no_call, answered, refused, get_block_stable, clean_file_block_endless,
}

abbrev pub sbi : SbInfo
sbi = record {
  s_magic = 0;
  s_nblocks = 60;
  s_ninodes = 60;
  s_imap_blocks = 1;
  s_bmap_blocks = 1;
  s_inode_blocks = 1;
  s_nfree_inodes = 30;
  s_nfree_blocks = 38;
  s_ifree_bitmap = λ i. ltb i 30;
  s_bfree_bitmap = λ i. ltb i 22;
}

-- Entry `k` has the inode number `k + 10` and the one-letter name `k + 1`.
abbrev pub at : ℕ → Entry
at k = record { ino = k + 10; hash_name = (k + 1) ∷ [] }

abbrev pub slots : ℕ → ℕ → ℕ → Entry
slots n b s = if ltb (15 * b + s) n then at (15 * b + s) else zero_entry

abbrev pub sixteen : Table
sixteen = record {
  nr_of_entries = 16;
  table = λ b. if b == 0 then 20 else if b == 1 then 21 else 0;
}

abbrev fifteen : Table
fifteen = record { nr_of_entries = 15; table = λ b. if b == 0 then 20 else 0 }

-- Block 5 holds the table.
abbrev pub state : Table → ℕ → Dirs
state t n = record {
  sbi = sbi;
  tables = λ b. if b == 5 then some t else none;
  blocks = λ b.
      if b == 20
      then some (slots n 0)
      else if b == 21 || (b == 22)
      then some (slots n (b - 20))
      else none;
}

abbrev pub dir : Inode
dir = record { i_ino = 2; i_bno = 5 }

abbrev other_dir : Inode
other_dir = record { i_ino = 3; i_bno = 6 }

abbrev inode : ℕ → Inode
inode i = record { i_ino = i; i_bno = 50 }

abbrev name : ℕ → Name
name k = k ∷ []

pub sixteen-IsDir : IsDir (state sixteen 16) 5 sixteen (slots 16) at 16
sixteen-IsDir = record {
  there = refl;
  count = refl;
  good = record {
    most = omega arith;
    covered = λ b lt. ground arith;
    apart = λ b c lt lt' nz ne. ground arith;
  };
  readable = record { reads = λ b lt nz. ground arith };
  list = record {
    used = λ k lt. omega arith;
    slot = λ b s lt nz ls. record {
      is_entry = λ below. ground arith;
      is_unused = λ above. ground arith;
    };
  };
}

fifteen-IsDir : IsDir (state fifteen 15) 5 fifteen (slots 15) at 15
fifteen-IsDir = record {
  there = refl;
  count = refl;
  good = record {
    most = omega arith;
    covered = λ b lt. ground arith;
    apart = λ b c lt lt' nz ne. ground arith;
  };
  readable = record { reads = λ b lt nz. ground arith };
  list = record {
    used = λ k lt. omega arith;
    slot = λ b s lt nz ls. record {
      is_entry = λ below. ground arith;
      is_unused = λ above. ground arith;
    };
  };
}

-- The names differ.
others : (m k : ℕ) → k + 1 ≢ m → same_name 255 (at k).hash_name (name m) ≡ false
unfolding same_name
others m k ne = rw (ne→== (k + 1) m ne) refl

search_entry_found_example :
    search_entry dir (name 16) (state sixteen 16) ≡ returns (some 25) (state sixteen 16)
unfolding same_name
search_entry_found_example =
    search_entry_found (state sixteen 16) dir sixteen (slots 16) at 16 15 (name 16) sixteen-IsDir
      (omega arith) (λ k lt. others 16 k (omega arith)) refl

search_entry_absent_example :
    search_entry dir (name 17) (state sixteen 16) ≡ returns none (state sixteen 16)
search_entry_absent_example =
    search_entry_absent (state sixteen 16) dir sixteen (slots 16) at 16 (name 17) sixteen-IsDir
      λ k lt. others 17 k (omega arith)

add_entry_name_lem_example :
    (d' : Dirs) × (t' : Table) × (slots' : ℕ → ℕ → Entry) × (add_entry_name plain_api dir
        (inode 30)
        (name 17)
        (state sixteen 16)
      ≡ returns tt d')
    × IsDir d' 5 t' slots' (append at 16 (new_entry (inode 30) (name 17))) 17
add_entry_name_lem_example =
    add_entry_name_lem plain_api (inode 30) dir (name 17) (slots 16) at 16 (omega arith)
      (omega arith) (state sixteen 16) sixteen sixteen-IsDir (omega arith)

abbrev taken : SbInfo
taken = (get_free_blocks plain_api sbi 1).1

takes_22 : get_free_blocks plain_api sbi 1 ≡ (22, taken)
unfolding get_free_blocks get_first_free_bits plain_api
takes_22 = refl

abbrev taken_twice : SbInfo
taken_twice = (get_free_blocks plain_api taken 1).1

add_entry_name_new_block_example :
    (d' : Dirs) × (t' : Table) × (slots' : ℕ → ℕ → Entry) × (add_entry_name plain_api dir
        (inode 30)
        (name 17)
        (state fifteen 15)
      ≡ returns tt d')
    × IsDir d' 5 t' slots' (append at 15 (new_entry (inode 30) (name 17))) 16
add_entry_name_new_block_example =
    add_entry_name_new_block plain_api (inode 30) dir (name 17) (slots 15) at 15 (omega arith)
      (omega arith) (state fifteen 15) taken fifteen 22 (slots 15 2) fifteen-IsDir refl takes_22
      (omega arith, omega arith) refl (λ c lt. ground arith) λ s lt. ground arith

search_entry-add_entry_name_example :
    (d' : Dirs) × (add_entry_name plain_api dir (inode 30) (name 17) (state sixteen 16)
      ≡ returns tt d')
    × (search_entry dir (name 17) d' ≡ returns (some 30) d')
search_entry-add_entry_name_example =
    search_entry-add_entry_name plain_api (inode 30) dir (name 17) (state sixteen 16) sixteen
      (slots 16) at 16 (omega arith) (omega arith) sixteen-IsDir (omega arith)
      λ k lt. others 17 k (omega arith)

delete_entry_lem_example :
    (d' : Dirs) × (t' : Table) × (slots' : ℕ → ℕ → Entry) × (delete_entry dir
        (inode 13)
        (state sixteen 16)
      ≡ returns tt d')
    × (t'.table ≡ sixteen.table)
    × IsDir d' 5 t' slots' (without at 3) 15
delete_entry_lem_example =
    delete_entry_lem dir (inode 13) (state sixteen 16) sixteen (slots 16) at 16 3 sixteen-IsDir
      (omega arith) (λ k lt. omega arith) refl

replace_entry_loses_next_example :
    (d' : Dirs) × (t' : Table) × (slots' : ℕ → ℕ → Entry) × (replace_entry other_dir dir
        (inode 40)
        (some (inode 13))
        (name 4)
        20
        3
        (state sixteen 16)
      ≡ delete_entry other_dir (inode 40) d')
    × IsDir d' 5 t' slots' (set_at (without at 3) 3 (new_entry (inode 40) (name 4))) 15
replace_entry_loses_next_example =
    replace_entry_loses_next other_dir dir (inode 40) (inode 13) (name 4) (state sixteen 16) sixteen
      (slots 16) at 16 3 sixteen-IsDir (omega arith) (λ k lt. omega arith) refl (omega arith)

-- A file whose table is `fifteen` of the same state: its first block is 20.
grown : Dirs
grown =
    put_table 5 (record fifteen { table = update fifteen.table 1 22 })
      (record (state fifteen 15) { sbi = taken })

grows : get_block plain_api dir 1 true (state fifteen 15) ≡ returns (some 22) grown
unfolding get_block grown get_free_blocks get_first_free_bits plain_api
grows = refl

-- Another block of the file is allocated, and then a block is asked for that the table cannot have.
abbrev grown_table : Table
grown_table = record fifteen { table = update fifteen.table 1 22 }

later : Dirs
later =
    put_table 5 (record grown_table { table = update grown_table.table 2 23 })
      (record grown { sbi = taken_twice })

takes_23 : get_free_blocks plain_api taken 1 ≡ (23, taken_twice)
unfolding get_free_blocks get_first_free_bits plain_api
takes_23 = refl

grows_again : get_block plain_api dir 2 true grown ≡ returns (some 23) later
unfolding get_block grown later put_table update
grows_again = ground (arith, takes_23)

too_big : get_block plain_api dir 2000 true later ≡ fails efbig later
unfolding get_block
too_big = refl

get_block_stable_example : get_block plain_api dir 1 false later ≡ returns (some 22) later
get_block_stable_example =
    get_block_stable plain_api dir 1 22 false (state fifteen 15) grown later grows
      (refused dir 2000 true efbig (answered dir 2 true (some 23) no_call grows_again) too_big)

abbrev bad : Table
bad = record { nr_of_entries = 0; table = λ b. if b == 0 then 20 else if b == 1 then 30 else 0 }

clean_file_block_endless_example : clean_file_block plain_api 5000 dir (state bad 0) ≡ endless
clean_file_block_endless_example =
    clean_file_block_endless plain_api 5000 dir bad 1 (state bad 0) refl (omega arith)
      (λ k le. ground arith) refl λ k lt. ground arith
