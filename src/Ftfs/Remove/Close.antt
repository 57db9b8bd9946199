-- ===== src/Ftfs/Remove/Close.antt =====
-- What moving the later entries down does to the slots of a directory, block by block.
use basic_btfs.Prelude.{
  ℕ, ◌+◌, ◌-◌, ◌*◌, ◌/◌, ◌%◌, ◌≤◌, ◌<◌, ◌≡◌, ◌≢◌, refl, ◌∙◌, ◌&&◌, inl, inr, arith, ltb, leb, ◌==◌,
  if◌then◌else◌, Bool-cases, ltb→lt, ltb→le, ne→==, ==→eq, ==→ne, update, update_self, update_ne,
}
use basic_btfs.Ftfs.Disk.{max_blocks, entries_per_block, Entry, zero_entry, Dirs, put_block}
use basic_btfs.Ftfs.Shape.{IsSlot, IsReadable, IsTable, IsList}
use basic_btfs.Ftfs.Remove.{remove_file_from_dir, move_files}

-- The entries without the one at `p`.
unfoldable pub without : (ℕ → Entry) → ℕ → ℕ → Entry
without at p k = if ltb k p then at k else at (k + 1)

pub removed_at :
    (fi s : ℕ) (es : ℕ → Entry)
    → remove_file_from_dir fi es s
      ≡ (if s == 14 then zero_entry else if leb fi s && ltb s 14 then es (s + 1) else es s)
unfolding remove_file_from_dir update
removed_at fi s es = refl

module _ (table : ℕ → ℕ) (at : ℕ → Entry) (n p : ℕ) where
  -- The blocks before `b` have closed the gap, all but their last slot.
  pub record IsMoving (b : ℕ) (slots : ℕ → ℕ → Entry) : Type 0 where
    pub moved :
        (c s : ℕ)
        → c < max_blocks
        → table c ≢ 0
        → s < entries_per_block
        → 15 * c + s + 1 < 15 * b
        → IsSlot (without at p) (n - 1) (15 * c + s) (slots c s)
    pub gap :
        (c s : ℕ)
        → c < max_blocks
        → table c ≢ 0
        → s < entries_per_block
        → 15 * c + s + 1 ≡ 15 * b
        → (slots c s).ino ≡ 0
    pub rest :
        (c s : ℕ)
        → c < max_blocks
        → table c ≢ 0
        → s < entries_per_block
        → 15 * b ≤ 15 * c + s
        → IsSlot at n (15 * c + s) (slots c s)

-- The slots after the first removal, in the block `b`, and after a move to the block before `b`.
pub remove_slots : (ℕ → ℕ → Entry) → ℕ → ℕ → ℕ → ℕ → Entry
remove_slots slots b fi c = if c == b then remove_file_from_dir fi (slots b) else slots c

pub move_slots : (ℕ → ℕ → Entry) → ℕ → ℕ → ℕ → Entry
move_slots slots b c =
    if c == b
    then remove_file_from_dir 0 (slots b)
    else if c + 1 == b
    then update (slots c) 14 (slots b 0)
    else slots c

module _ {table : ℕ → ℕ} {slots : ℕ → ℕ → Entry} {at : ℕ → Entry} {n p : ℕ} (p_lt : p < n) where
  pub remove-IsMoving :
      IsList table slots at n
      → IsMoving table at n p (p / 15 + 1) (remove_slots slots (p / 15) (p % 15))
  unfolding remove_slots without
  remove-IsMoving list = record {
    moved = λ c s lt nz ls below. elim (Bool-cases (c == p / 15)) [
      | inl h ↦
          let e = ==→eq c _ h in
          let next = list.slot c (s + 1) lt nz (omega arith) in
          let this = list.slot c s lt nz ls in
          record {
            is_entry = λ l.
                ground
                  (arith, removed_at (p % 15) s (slots (p / 15)), this.is_entry, next.is_entry);
            is_unused = λ l. ground (arith, removed_at (p % 15) s (slots (p / 15)), next.is_unused);
          }
      | inr h ↦
          let ne = ==→ne c _ h in
          let this = list.slot c s lt nz ls in
          record {
            is_entry = λ l. ground (arith, this.is_entry);
            is_unused = λ l. absurd (omega arith);
          }
    ];
    gap = λ c s lt nz ls e. ground (arith, removed_at (p % 15) s (slots (p / 15)));
    rest = λ c s lt nz ls above. rw (ne→== c (p / 15) (omega arith)) (list.slot c s lt nz ls);
  }

  module _ (b : ℕ) (after : p < 15 * b) (v : IsMoving table at n p b slots) where
    -- Where the entries end before `b`, the gap is closed.
    pub moving-IsList :
        n ≤ 15 * b → ((k : ℕ) → k < n → (at k).ino ≢ 0) → IsList table slots (without at p) (n - 1)
    unfolding without
    moving-IsList end used = record {
      used = λ k lt. ground (arith, used k, used (k + 1));
      slot = λ c s lt nz ls. elim (Bool-cases (ltb (15 * c + s + 1) (15 * b))) [
        | inl h ↦ v.moved c s lt nz ls (ltb→lt _ _ h)
        | inr h ↦
            let ge = ltb→le _ _ h in
            record {
              is_entry = λ l. absurd (omega arith);
              is_unused = λ l. elim (Bool-cases (15 * c + s + 1 == 15 * b)) [
                | inl e ↦ v.gap c s lt nz ls (==→eq _ _ e)
                | inr ne ↦
                    let above : 15 * b ≤ 15 * c + s = omega (arith, ==→ne _ _ ne) in
                    (v.rest c s lt nz ls above).is_unused (omega arith)
              ];
            }
      ];
    }

    -- One more block.
    pub move-IsMoving :
        b < max_blocks
        → table b ≢ 0
        → 15 * b < n
        → IsMoving table at n p (b + 1) (move_slots slots b)
    unfolding move_slots without update
    move-IsMoving b_lt b_nz more =
        let first = v.rest b 0 b_lt b_nz (omega arith) (omega arith) in
        record {
          moved = λ c s lt nz ls below. elim (Bool-cases (c == b)) [
            | inl h ↦
                let e = ==→eq c b h in
                let next = v.rest c (s + 1) lt nz (omega arith) (omega arith) in
                record {
                  is_entry = λ l. ground (arith, removed_at 0 s (slots b), next.is_entry);
                  is_unused = λ l. ground (arith, removed_at 0 s (slots b), next.is_unused);
                }
            | inr h ↦ elim (Bool-cases (15 * c + s + 1 == 15 * b)) [
              | inl e ↦
                  let eq = ==→eq _ _ e in
                  record {
                    is_entry = λ l. ground (arith, first.is_entry);
                    is_unused = λ l. absurd (omega arith);
                  }
              | inr ne ↦
                  let old = v.moved c s lt nz ls (omega (arith, ==→ne _ _ ne, ==→ne c b h)) in
                  record {
                    is_entry = λ l. ground (arith, old.is_entry, ==→ne _ _ ne, ==→ne c b h);
                    is_unused = λ l. ground (arith, old.is_unused, ==→ne _ _ ne, ==→ne c b h);
                  }
            ]
          ];
          gap = λ c s lt nz ls e. ground (arith, removed_at 0 s (slots b));
          rest = λ c s lt nz ls above.
              rw (ne→== c b (omega arith), ne→== (c + 1) b (omega arith))
                (v.rest c s lt nz ls (omega arith));
        }

module _ {table : ℕ → ℕ} {slots : ℕ → ℕ → Entry} {n : ℕ} (good : IsTable table n) where
  pub remove-IsReadable :
      (d : Dirs) (b fi : ℕ)
      → b < max_blocks
      → table b ≢ 0
      → IsReadable table d.blocks slots
      → IsReadable table
          (put_block (table b) (remove_file_from_dir fi (slots b)) d).blocks
          (remove_slots slots b fi)
  unfolding put_block remove_slots
  remove-IsReadable d b fi b_lt b_nz readable = record {
    reads = λ c lt nz. elim (Bool-cases (c == b)) [
      | inl h ↦ rw (h, ==→eq c b h) (update_self d.blocks (table b) _)
      | inr h ↦ rw h (
          update_ne d.blocks (table b) (table c) _ (good.apart c b lt b_lt nz (==→ne c b h))
          ∙ readable.reads c lt nz)
    ];
  }

  pub move-IsReadable :
      (d : Dirs) (b : ℕ)
      → b + 1 < max_blocks
      → table b ≢ 0
      → table (b + 1) ≢ 0
      → IsReadable table d.blocks slots
      → IsReadable table (move_files (table b) (table (b + 1)) d).blocks (move_slots slots (b + 1))
  unfolding move_files put_block move_slots update
  move-IsReadable d b b_lt b_nz c_nz readable = record {
    reads = λ c lt nz. ground (
      arith,
      readable.reads c lt,
      readable.reads b,
      readable.reads (b + 1),
      good.apart c b lt,
      good.apart c (b + 1) lt,
      good.apart b (b + 1),
    );
  }
