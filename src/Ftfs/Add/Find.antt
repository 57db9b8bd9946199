-- ===== src/Ftfs/Add/Find.antt =====
-- An entry that has been added is found.
use basic_btfs.Prelude.{
  ℕ, zero, suc, ◌+◌, ◌/◌, ◌<◌, ◌≡◌, ◌≢◌, refl, true, false, some, arith, [], ◌∷◌, ==_self,
}
use basic_btfs.Kernel.{BitmapApi}
use basic_btfs.Ftfs.Disk.{
  entries_per_dir, name_length, Name, copy_name, same_name, Entry, Table, Dirs, Inode, returns,
}
use basic_btfs.Ftfs.Shape.{IsDir}
use basic_btfs.Ftfs.Search.{search_entry}
use basic_btfs.Ftfs.Search.Correct.{search_entry_found}
use basic_btfs.Ftfs.Add.{add_entry_name}
use basic_btfs.Ftfs.Add.Append.{append, new_entry, add_entry_name_lem}

-- `strncmp` with the bound of `strncpy` sees no difference between a name and its copy.
same_name-copy_name : (n : ℕ) (a : Name) → same_name n (copy_name n a) a ≡ true
unfolding same_name copy_name
same_name-copy_name zero a = refl
same_name-copy_name (suc n) [] = refl
same_name-copy_name (suc n) (x ∷ a) = rw (==_self x, same_name-copy_name n a) refl

-- An entry for an inode other than 0 that is added to a directory with room, whose block for it has
-- been allocated, under a name that no entry has, is what the search for that name answers.
pub search_entry-add_entry_name :
    (api : BitmapApi) (inode dir : Inode) (filename : Name) (d : Dirs) (t : Table)
    (slots : ℕ → ℕ → Entry) (at : ℕ → Entry) (n : ℕ)
    → inode.i_ino ≢ 0
    → n < entries_per_dir
    → IsDir d dir.i_bno t slots at n
    → t.table (n / 15) ≢ 0
    → ((k : ℕ) → k < n → same_name name_length (at k).hash_name filename ≡ false)
    → (d' : Dirs) × (add_entry_name api dir inode filename d ≡ returns tt d')
      × (search_entry dir filename d' ≡ returns (some inode.i_ino) d')
unfolding append
search_entry-add_entry_name api inode dir filename d t slots at n nz room is last other =
    let (d', t', slots', run, is') =
      add_entry_name_lem api inode dir filename slots at n nz room d t is last in
    let e = new_entry inode filename in
    let top : append at n e n ≡ e = rw (==_self n) refl in
    let found =
      search_entry_found d' dir t' slots' (append at n e) (n + 1) n filename is' (omega arith)
        (λ k lt. ground (arith, other k lt)) (rw top (same_name-copy_name name_length filename)) in
    (d', run, rw top at found)
