-- ===== src/Ftfs/Rename/Replace.antt =====
-- A rename onto a name that is in use.
use basic_btfs.Prelude.{
  ℕ, ◌+◌, ◌-◌, ◌/◌, ◌%◌, ◌<◌, ◌≡◌, ◌≢◌, refl, some, arith, ◌==◌, if◌then◌else◌, update,
}
use basic_btfs.Ftfs.Disk.{Name, Entry, Table, Dirs, Inode, put_block}
use basic_btfs.Ftfs.Shape.{IsTable, IsDir}
use basic_btfs.Ftfs.Add.Append.{append_slots, new_entry, append-IsReadable}
use basic_btfs.Ftfs.Remove.{delete_entry}
use basic_btfs.Ftfs.Remove.Close.{without}
use basic_btfs.Ftfs.Remove.Delete.{delete_entry_lem}
use basic_btfs.Ftfs.Rename.{overwrite, replace_entry, whatever}

-- The entries with `e` at `p`.
unfoldable pub set_at : (ℕ → Entry) → ℕ → Entry → ℕ → Entry
set_at at p e k = if k == p then e else at k

module _ (d : Dirs) (bno : ℕ) (t : Table) (slots : ℕ → ℕ → Entry) (at : ℕ → Entry) (n p : ℕ)
    (is : IsDir d bno t slots at n) (lt : p < n) (old_inode : Inode) (name : Name)
    (nz : old_inode.i_ino ≢ 0) where
  overwrite-IsDir :
      IsDir
        (overwrite (t.table (p / 15)) (p % 15) old_inode name d)
        bno
        t
        (append_slots slots p (new_entry old_inode name))
        (set_at at p (new_entry old_inode name))
        n
  unfolding overwrite put_block append_slots set_at update
  overwrite-IsDir =
      let e = new_entry old_inode name in
      let b_lt : p / 15 < 1023 = omega (arith, is.good.most) in
      let b_nz = is.good.covered (p / 15) (omega arith) in
      let weak : IsTable t.table p = record {
        most = omega (arith, is.good.most);
        covered = λ b l. is.good.covered b (omega arith);
        apart = is.good.apart;
      } in
      let run : overwrite (t.table (p / 15)) (p % 15) old_inode name d
          ≡ put_block (t.table (p / 15)) (update (slots (p / 15)) (p % 15) e) d =
        ground (arith, is.readable.reads (p / 15) b_lt b_nz) in
      rw run (record {
        there = is.there;
        count = is.count;
        good = is.good;
        readable = append-IsReadable e weak (omega (arith, is.good.most)) b_nz d.blocks is.readable;
        list = record {
          used = λ k l. ground (arith, is.list.used k);
          slot = λ b s b_lt b_nz ls. record {
            is_entry = λ below. ground (arith, (is.list.slot b s b_lt b_nz ls).is_entry);
            is_unused = λ above. ground (arith, (is.list.slot b s b_lt b_nz ls).is_unused);
          };
        };
      })

-- A rename of an inode other than 0 onto an entry in use, not the last and the first for its inode,
-- first deletes that entry, which moves the later ones down, and then
-- writes the new entry where the old one stood: over the entry that stood behind it. So the target
-- directory has lost two entries and gained one, before the old name is deleted.
pub replace_entry_loses_next :
    (old_dir new_dir old_inode new_inode : Inode) (name : Name) (d : Dirs) (t : Table)
    (slots : ℕ → ℕ → Entry) (at : ℕ → Entry) (n p : ℕ)
    → IsDir d new_dir.i_bno t slots at n
    → p + 1 < n
    → ((k : ℕ) → k < p → (at k).ino ≢ new_inode.i_ino)
    → (at p).ino ≡ new_inode.i_ino
    → old_inode.i_ino ≢ 0
    → (d' : Dirs) × (t' : Table) × (slots' : ℕ → ℕ → Entry) × (replace_entry old_dir new_dir
          old_inode
          (some new_inode)
          name
          (t.table (p / 15))
          (p % 15)
          d
        ≡ delete_entry old_dir old_inode d')
      × IsDir d' new_dir.i_bno t' slots'
          (set_at (without at p) p (new_entry old_inode name))
          (n - 1)
unfolding replace_entry whatever
replace_entry_loses_next old_dir new_dir old_inode new_inode name d t slots at n p is lt before at_p
      nz =
    let (d1, t1, slots1, run, same, is1) =
      delete_entry_lem new_dir new_inode d t slots at n p is (omega arith) before at_p in
    let written =
      overwrite-IsDir d1 new_dir.i_bno t1 slots1 (without at p) (n - 1) p is1 (omega arith)
        old_inode name nz in
    (
      overwrite (t.table (p / 15)) (p % 15) old_inode name d1,
      t1,
      append_slots slots1 p (new_entry old_inode name),
      rw run refl,
      rw same at written,
    )
