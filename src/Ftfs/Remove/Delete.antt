-- ===== src/Ftfs/Remove/Delete.antt =====
-- The deletion of an entry from a directory.
use basic_btfs.Prelude.{
  ℕ, zero, suc, ◌+◌, ◌-◌, ◌*◌, ◌/◌, ◌%◌, ◌≤◌, ◌<◌, ◌≡◌, ◌≢◌, refl, ap, sym, ◌∙◌, true, false, none,
  some, inl, inr, arith, ltb, ◌==◌, Bool-cases, ltb→lt, ltb→le, ne→==, ==→ne, update_self, sub32,
}
use basic_btfs.Ftfs.Disk.{max_blocks, Entry, Table, Dirs, Inode, returns, put_block, put_table}
use basic_btfs.Ftfs.Shape.{IsReadable, IsTable, IsList, IsDir}
use basic_btfs.Ftfs.Remove.{
  remove_file_from_dir, move_files, find_file, close_gap, Closed, closed, delete_entry,
}
use basic_btfs.Ftfs.Remove.Close.{
  without, IsMoving, remove_slots, move_slots, remove-IsMoving, move-IsMoving, moving-IsList,
  remove-IsReadable, move-IsReadable,
}

module _ (es : ℕ → Entry) (ino : ℕ) where
  find_file_hit :
      (rounds i p : ℕ)
      → (i ≤ p) × (p < i + rounds)
      → ((k : ℕ) → i ≤ k → k < p → (es k).ino ≢ ino)
      → (es p).ino ≡ ino
      → find_file rounds i es ino ≡ some p
  unfolding find_file
  find_file_hit zero i p r before e = absurd (omega arith)
  find_file_hit (suc rounds) i p r before e = elim (Bool-cases (ltb i p)) [
    | inl h ↦
        let lt = ltb→lt i p h in
        rw (ne→== _ ino (before i (omega arith) lt)) (
          find_file_hit rounds (i + 1) p (omega arith, omega arith) (λ k l. before k (omega arith))
            e)
    | inr h ↦ let same : i ≡ p = omega (arith, ltb→le i p h) in ground arith
  ]

  find_file_misses :
      (rounds i : ℕ)
      → ((k : ℕ) → i ≤ k → k < i + rounds → (es k).ino ≢ ino)
      → find_file rounds i es ino ≡ none
  unfolding find_file
  find_file_misses zero i all = refl
  find_file_misses (suc rounds) i all =
      rw (ne→== _ ino (all i (omega arith) (omega arith)))
        (find_file_misses rounds (i + 1) (λ k l r. all k (omega arith) (omega arith)))

module _ (table : ℕ → ℕ) (at : ℕ → Entry) (n p ino : ℕ) (good : IsTable table n)
    (used : (k : ℕ) → k < n → (at k).ino ≢ 0) (p_lt : p < n) where
  -- The loop has ended with the gap closed.
  IsClosed : Closed → Type 0
  IsClosed r =
      (d' : Dirs) × (slots' : ℕ → ℕ → Entry) × (r ≡ closed true d')
      × IsReadable table d'.blocks slots'
      × IsList table slots' (without at p) (n - 1)

  close_gap_moving :
      (rounds b : ℕ) (d : Dirs) (slots : ℕ → ℕ → Entry)
      → b + 1 + rounds ≡ max_blocks
      → p < 15 * (b + 1)
      → table b ≢ 0
      → IsReadable table d.blocks slots
      → IsMoving table at n p (b + 1) slots
      → IsClosed (close_gap rounds (b + 1) (some (table b)) table ino d)
  unfolding close_gap IsClosed
  close_gap_moving zero b d slots end after b_nz readable v =
      (d, slots, refl, readable, moving-IsList p_lt (b + 1) after v (omega (arith, good.most)) used)
  close_gap_moving (suc rounds) b d slots end after b_nz readable v =
      elim (Bool-cases (ltb (15 * (b + 1)) n)) [
        | inl h ↦
            let lt = ltb→lt _ n h in
            let c_nz = good.covered (b + 1) lt in
            let c_lt : b + 1 < max_blocks = omega arith in
            let read = readable.reads (b + 1) c_lt c_nz in
            let first =
              (v.rest (b + 1) 0 c_lt c_nz (omega arith) (omega arith)).is_entry (omega arith) in
            let ino_nz : (slots (b + 1) 0).ino ≢ 0 = rw first (used _ (omega arith)) in
            let (d', slots', run, r', l') =
              close_gap_moving rounds (b + 1) (move_files (table b) (table (b + 1)) d)
                (move_slots slots (b + 1)) (omega arith) (omega arith) c_nz
                (move-IsReadable good d b c_lt b_nz c_nz readable)
                (move-IsMoving p_lt (b + 1) after v c_lt c_nz lt) in
            (d', slots', ground (arith, read, run), r', l')
        | inr h ↦
            let le = ltb→le _ n h in
            let c_lt : b + 1 < max_blocks = omega arith in
            (
              d,
              slots,
              ground (
                arith,
                readable.reads (b + 1) c_lt,
                (v.rest (b + 1) 0 c_lt _ (omega arith) (omega arith)).is_unused (omega arith),
              ),
              readable,
              moving-IsList p_lt (b + 1) after v le used,
            )
      ]

  close_gap_lem :
      (rounds b : ℕ) (d : Dirs) (slots : ℕ → ℕ → Entry)
      → b + rounds ≡ max_blocks
      → 15 * b ≤ p
      → IsReadable table d.blocks slots
      → IsList table slots at n
      → ((k : ℕ) → k < p → (at k).ino ≢ ino)
      → (at p).ino ≡ ino
      → IsClosed (close_gap rounds b none table ino d)
  unfolding close_gap IsClosed
  close_gap_lem zero b d slots end low readable list before at_p = absurd (omega (arith, good.most))
  close_gap_lem (suc rounds) b d slots end low readable list before at_p =
      let b_nz = good.covered b (omega arith) in
      let b_lt : b < max_blocks = omega arith in
      let read = readable.reads b b_lt b_nz in
      let entry_is =
        λ (s : ℕ) (ls : s < 15) (l : 15 * b + s < n). (list.slot b s b_lt b_nz ls).is_entry l in
      let ino_nz : (slots b 0).ino ≢ 0 =
        rw (entry_is 0 (omega arith) (omega arith)) (used _ (omega arith)) in
      elim (Bool-cases (ltb p (15 * b + 15))) [
        | inl h ↦
            let lt = ltb→lt p _ h in
            let eb : p / 15 ≡ b = omega arith in
            let place : 15 * b + p % 15 ≡ p = omega arith in
            let fi =
              find_file_hit (slots b) ino 15 0 (p % 15) (omega arith, omega arith)
                (λ k _ l. rw (entry_is k (omega arith) (omega arith)) (before _ (omega arith)))
                (rw (entry_is (p % 15) (omega arith) (omega arith), place) at_p) in
            let start : IsMoving table at n p (b + 1) (remove_slots slots b (p % 15)) =
              rw (← eb) (remove-IsMoving p_lt list) in
            let (d', slots', run, r', l') =
              close_gap_moving rounds b
                (put_block (table b) (remove_file_from_dir (p % 15) (slots b)) d)
                (remove_slots slots b (p % 15)) (omega arith) (omega arith) b_nz
                (remove-IsReadable good d b (p % 15) b_lt b_nz readable) start in
            (d', slots', ground (arith, read, fi, run), r', l')
        | inr h ↦
            let ge = ltb→le p _ h in
            let gone =
              find_file_misses (slots b) ino 15 0
                (λ k _ l. rw (entry_is k (omega arith) (omega arith)) (before _ (omega arith))) in
            let (d', slots', run, r', l') =
              close_gap_lem rounds (b + 1) d slots (omega arith) (omega arith) readable list before
                at_p in
            (d', slots', ground (arith, read, gone, run), r', l')
      ]

-- Deleting an inode from a directory that has an entry for it succeeds: the directory holds what it
-- held, in the same order and in the same blocks, without the first entry for that inode.
pub delete_entry_lem :
    (dir inode : Inode) (d : Dirs) (t : Table) (slots : ℕ → ℕ → Entry) (at : ℕ → Entry) (n p : ℕ)
    → IsDir d dir.i_bno t slots at n
    → p < n
    → ((k : ℕ) → k < p → (at k).ino ≢ inode.i_ino)
    → (at p).ino ≡ inode.i_ino
    → (d' : Dirs) × (t' : Table) × (slots' : ℕ → ℕ → Entry) × (delete_entry dir inode d
        ≡ returns tt d')
      × (t'.table ≡ t.table)
      × IsDir d' dir.i_bno t' slots' (without at p) (n - 1)
unfolding delete_entry IsClosed put_table
delete_entry_lem dir inode d t slots at n p is lt before at_p =
    let (d', slots', run, r', l') =
      close_gap_lem t.table at n p inode.i_ino is.good is.list.used lt max_blocks 0 d slots refl
        (omega arith) is.readable is.list before at_p in
    let t' : Table = record t { nr_of_entries = sub32 t.nr_of_entries 1 } in
    (
      put_table dir.i_bno t' d',
      t',
      slots',
      ground (arith, is.there, run),
      refl,
      record {
        there = update_self d'.tables dir.i_bno (some t');
        count = omega (arith, is.count, is.good.most);
        good = record {
          most = omega (arith, is.good.most);
          covered = λ b l. is.good.covered b (omega arith);
          apart = is.good.apart;
        };
        readable = r';
        list = l';
      },
    )

close_gap_absent :
    (rounds b : ℕ) (d : Dirs) (table : ℕ → ℕ) (slots : ℕ → ℕ → Entry) (at : ℕ → Entry) (n ino : ℕ)
    → b + rounds ≡ max_blocks
    → IsReadable table d.blocks slots
    → IsList table slots at n
    → ino ≢ 0
    → ((k : ℕ) → k < n → (at k).ino ≢ ino)
    → close_gap rounds b none table ino d ≡ closed false d
unfolding close_gap
close_gap_absent zero b d table slots at n ino end readable list ne all = refl
close_gap_absent (suc rounds) b d table slots at n ino end readable list ne all =
    elim (Bool-cases (table b == 0)) [
      | inl z ↦ rw z refl
      | inr nz' ↦
          let nz : table b ≢ 0 = ==→ne _ 0 nz' in
          let b_lt : b < max_blocks = omega arith in
          let other : (s : ℕ) → s < 15 → (slots b s).ino ≢ ino = λ s ls e.
            elim (Bool-cases (ltb (15 * b + s) n)) [
              | inl h ↦
                  let lt = ltb→lt _ n h in
                  all _ lt
                    (ap (λ (x : Entry). x.ino) (sym ((list.slot b s b_lt nz ls).is_entry lt)) ∙ e)
              | inr h ↦ ne (sym e ∙ (list.slot b s b_lt nz ls).is_unused (ltb→le _ n h))
            ] in
          let gone = find_file_misses (slots b) ino 15 0 (λ k _ l. other k (omega arith)) in
          let rest =
            close_gap_absent rounds (b + 1) d table slots at n ino (omega arith) readable list ne
              all in
          ground (arith, readable.reads b b_lt nz, gone, rest)
    ]

-- Deleting an inode other than 0 from a directory that has no entry for it succeeds and changes
-- nothing.
pub delete_entry_absent :
    (dir inode : Inode) (d : Dirs) (t : Table) (slots : ℕ → ℕ → Entry) (at : ℕ → Entry) (n : ℕ)
    → IsDir d dir.i_bno t slots at n
    → inode.i_ino ≢ 0
    → ((k : ℕ) → k < n → (at k).ino ≢ inode.i_ino)
    → delete_entry dir inode d ≡ returns tt d
unfolding delete_entry
delete_entry_absent dir inode d t slots at n is ne all =
    let run =
      close_gap_absent max_blocks 0 d t.table slots at n inode.i_ino refl is.readable is.list ne
        all in
    ground (arith, is.there, run)
