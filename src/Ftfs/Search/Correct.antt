-- ===== src/Ftfs/Search/Correct.antt =====
-- The search of a directory finds the first entry of the name.
use basic_btfs.Prelude.{
  ℕ, zero, suc, ◌+◌, ◌-◌, ◌*◌, ◌/◌, ◌%◌, ◌≤◌, ◌<◌, ◌≡◌, ◌≢◌, refl, true, false, Option, none, some,
  inl, inr, arith, ltb, ◌==◌, Bool-cases, ltb→lt, ltb→le, ne→==, ==→ne,
}
use basic_btfs.Ftfs.Disk.{
  max_blocks, name_length, Name, same_name, Entry, Table, Dirs, Inode, returns,
}
use basic_btfs.Ftfs.Shape.{IsReadable, IsTable, IsList, IsDir}
use basic_btfs.Ftfs.Search.{
  hit, unused, next_block, scan_block, found, absent, scan_blocks, ino_at, search_entry,
}

-- The entry is another's.
abbrev pub Other : Name → Entry → Type 0
Other name e = (e.ino ≢ 0) × (same_name name_length e.hash_name name ≡ false)

module _ (es : ℕ → Entry) (name : Name) where
  scan_block_hit :
      (rounds i p : ℕ)
      → (i ≤ p) × (p < i + rounds)
      → ((k : ℕ) → i ≤ k → k < p → Other name (es k))
      → (es p).ino ≢ 0
      → same_name name_length (es p).hash_name name ≡ true
      → scan_block rounds i es name ≡ hit p
  unfolding scan_block
  scan_block_hit zero i p r before nz same = absurd (omega arith)
  scan_block_hit (suc rounds) i p r before nz same = elim (Bool-cases (ltb i p)) [
    | inl h ↦
        let (ne, other) = before i (omega arith) (ltb→lt i p h) in
        rw (ne→== _ 0 ne, other)
          (scan_block_hit rounds (i + 1) p (omega (arith, ltb→lt i p h), omega arith)
            (λ k l. before k (omega arith)) nz same)
    | inr h ↦ let e : i ≡ p = omega (arith, ltb→le i p h) in rw (e, ne→== _ 0 nz, same) refl
  ]

  scan_block_next :
      (rounds i : ℕ)
      → ((k : ℕ) → i ≤ k → k < i + rounds → Other name (es k))
      → scan_block rounds i es name ≡ next_block
  unfolding scan_block
  scan_block_next zero i all = refl
  scan_block_next (suc rounds) i all =
      let (ne, other) = all i (omega arith) (omega arith) in
      rw (ne→== _ 0 ne, other)
        (scan_block_next rounds (i + 1) (λ k l r. all k (omega arith) (omega arith)))

  scan_block_unused :
      (rounds i q : ℕ)
      → (i ≤ q) × (q < i + rounds)
      → ((k : ℕ) → i ≤ k → k < q → Other name (es k))
      → (es q).ino ≡ 0
      → scan_block rounds i es name ≡ unused
  unfolding scan_block
  scan_block_unused zero i q r before z = absurd (omega arith)
  scan_block_unused (suc rounds) i q r before z = elim (Bool-cases (ltb i q)) [
    | inl h ↦
        let (ne, other) = before i (omega arith) (ltb→lt i q h) in
        rw (ne→== _ 0 ne, other)
          (scan_block_unused rounds (i + 1) q (omega (arith, ltb→lt i q h), omega arith)
            (λ k l. before k (omega arith)) z)
    | inr h ↦ let e : i ≡ q = omega (arith, ltb→le i q h) in rw (e, z) refl
  ]

module _ {table : ℕ → ℕ} {blocks : ℕ → Option (ℕ → Entry)} {slots : ℕ → ℕ → Entry} {at : ℕ → Entry}
    {n : ℕ} (good : IsTable table n) (readable : IsReadable table blocks slots)
    (list : IsList table slots at n) (name : Name) where
  -- A slot below `p` holds an entry of another name.
  others :
      (b s p : ℕ)
      → b < max_blocks
      → table b ≢ 0
      → s < 15
      → p ≤ n
      → 15 * b + s < p
      → ((k : ℕ) → k < p → same_name name_length (at k).hash_name name ≡ false)
      → Other name (slots b s)
  others b s p lt nz ls le below before =
      let k = 15 * b + s in
      rw ((list.slot b s lt nz ls).is_entry (omega arith))
        (list.used k (omega arith), before k below)

  scan_blocks_found :
      (rounds b p : ℕ)
      → b + rounds ≡ max_blocks
      → p < n
      → 15 * b ≤ p
      → ((k : ℕ) → k < p → same_name name_length (at k).hash_name name ≡ false)
      → same_name name_length (at p).hash_name name ≡ true
      → scan_blocks rounds b table blocks name ≡ some (found (p / 15) (p % 15))
  unfolding scan_blocks
  scan_blocks_found zero b p end lt low before same = absurd (omega (arith, good.most))
  scan_blocks_found (suc rounds) b p end lt low before same =
      let here' : b < max_blocks = omega arith in
      let nz = good.covered b (omega arith) in
      rw (ne→== _ 0 nz, readable.reads b here' nz)
        (elim (Bool-cases (ltb p (15 * b + 15))) [
          | inl h ↦
              let p_lt = ltb→lt p _ h in
              let s = p % 15 in
              let eb : p / 15 ≡ b = omega arith in
              let es : 15 * b + s ≡ p = omega arith in
              let this = (list.slot b s here' nz (omega arith)).is_entry (omega arith) in
              let stop =
                scan_block_hit (slots b) name 15 0 s (omega arith, omega arith)
                  (λ k _ l. others b k p here' nz (omega arith) (omega arith) (omega arith) before)
                  (rw (this, es) (list.used p lt)) (rw (this, es) same) in
              rw (stop, eb) refl
          | inr h ↦
              let p_ge = ltb→le p _ h in
              rw
                (scan_block_next (slots b) name 15 0
                  (λ k _ l. others b k p here' nz (omega arith) (omega arith) (omega arith) before))
                (scan_blocks_found rounds (b + 1) p (omega arith) lt (omega arith) before same)
        ])

  scan_blocks_absent :
      (rounds b : ℕ)
      → b + rounds ≡ max_blocks
      → ((k : ℕ) → k < n → same_name name_length (at k).hash_name name ≡ false)
      → scan_blocks rounds b table blocks name ≡ some absent
  unfolding scan_blocks
  scan_blocks_absent zero b end all = refl
  scan_blocks_absent (suc rounds) b end all = elim (Bool-cases (table b == 0)) [
    | inl z ↦ rw z refl
    | inr nz' ↦
        let here' : b < max_blocks = omega arith in
        let nz = ==→ne _ 0 nz' in
        rw (nz', readable.reads b here' nz)
          (elim (Bool-cases (ltb n (15 * b + 15))) [
            | inl h ↦
                let q = n - 15 * b in
                rw
                  (scan_block_unused (slots b) name 15 0 q
                    (omega arith, omega (arith, ltb→lt n _ h))
                    (λ k _ l.
                      others b k n here' nz (omega (arith, ltb→lt n _ h)) (omega arith)
                        (omega arith) all)
                    ((list.slot b q here' nz (omega (arith, ltb→lt n _ h))).is_unused
                      (omega arith)))
                  refl
            | inr h ↦
                rw
                  (scan_block_next (slots b) name 15 0 (λ k _ l.
                    others b k n here' nz (omega arith) (omega arith) (omega (arith, ltb→le n _ h))
                      all))
                  (scan_blocks_absent rounds (b + 1) (omega arith) all)
          ])
  ]

-- In a directory the search answers the inode number of the first entry of the name.
pub search_entry_found :
    (d : Dirs) (dir : Inode) (t : Table) (slots : ℕ → ℕ → Entry) (at : ℕ → Entry) (n p : ℕ)
    (name : Name)
    → IsDir d dir.i_bno t slots at n
    → p < n
    → ((k : ℕ) → k < p → same_name name_length (at k).hash_name name ≡ false)
    → same_name name_length (at p).hash_name name ≡ true
    → search_entry dir name d ≡ returns (some (at p).ino) d
unfolding search_entry ino_at
search_entry_found d dir t slots at n p name is lt before same =
    let b = p / 15 in
    let b_lt : b < max_blocks = omega (arith, is.good.most) in
    let nz = is.good.covered b (omega arith) in
    let slot = (is.list.slot b (p % 15) b_lt nz (omega arith)).is_entry (omega arith) in
    let place : 15 * b + p % 15 ≡ p = omega arith in
    let scan =
      scan_blocks_found is.good is.readable is.list name max_blocks 0 p refl lt (omega arith) before
        same in
    ground (arith, is.there, scan, is.readable.reads b, slot, place)

-- In a directory without an entry of the name the search answers that there is none.
pub search_entry_absent :
    (d : Dirs) (dir : Inode) (t : Table) (slots : ℕ → ℕ → Entry) (at : ℕ → Entry) (n : ℕ)
    (name : Name)
    → IsDir d dir.i_bno t slots at n
    → ((k : ℕ) → k < n → same_name name_length (at k).hash_name name ≡ false)
    → search_entry dir name d ≡ returns none d
unfolding search_entry
search_entry_absent d dir t slots at n name is all =
    let scan = scan_blocks_absent is.good is.readable is.list name max_blocks 0 refl all in
    ground (arith, is.there, scan)
