-- ===== src/Ftfs/Iterate/Correct.antt =====
-- A listing of a directory of BasicFATFS from its start lists what the directory holds.
use basic_btfs.Prelude.{
  ℕ, zero, suc, ◌+◌, ◌-◌, ◌*◌, ◌≤◌, ◌<◌, ◌≡◌, ◌≢◌, refl, sym, ap, ◌∙◌, inl, inr, Bool, true, Option,
  some, List, [], ◌∷◌, ◌++◌, arith, ltb, ◌==◌, if◌then◌else◌, Bool-cases, ltb→lt, ltb→le, le→ltb,
  ne→==, ==→eq, ==→ne,
}
use mathlib.Core.List.{append_assoc, append-nil}
use basic_btfs.Ftfs.Disk.{max_blocks, entries_per_block, entries_per_dir, Entry, Table, Dirs, Inode}
use basic_btfs.Ftfs.Shape.{IsSlot, IsDir}
use basic_btfs.Ftfs.Iterate.{DirContext, listed, emit_block, emit_blocks, iterate}

-- The entries with the numbers below `n` among the next `rounds` numbers from `k` on.
unfoldable pub entries_from : (ℕ → Entry) → ℕ → ℕ → ℕ → List Entry
entries_from at n zero k = []
entries_from at n (suc rounds) k =
    let rest = entries_from at n rounds (k + 1) in if ltb k n then at k ∷ rest else rest

module _ (at : ℕ → Entry) (n : ℕ) where
  entries_behind : (rounds k : ℕ) → n ≤ k → entries_from at n rounds k ≡ []
  unfolding entries_from
  entries_behind zero k le = refl
  entries_behind (suc rounds) k le = ground (arith, entries_behind rounds (k + 1) (omega arith))

  entries-append :
      (r s k : ℕ)
      → entries_from at n (r + s) k ≡ entries_from at n r k ++ entries_from at n s (k + r)
  unfolding entries_from
  entries-append zero s k =
      let one : 0 + s ≡ s = omega arith in let two : k + 0 ≡ k = omega arith in rw (one, two) refl
  entries-append (suc r) s k =
      let ih = entries-append r s (k + 1) in
      let there : k + 1 + r ≡ k + suc r = omega arith in
      let sum : suc r + s ≡ suc (r + s) = omega arith in
      elim (Bool-cases (ltb k n)) [
        | inl h ↦ rw (sum, h, ih, there) refl
        | inr h ↦ rw (sum, h, ih, there) refl
      ]

  joined :
      (rounds b : ℕ) (xs ys zs : List Entry)
      → ys ≡ xs ++ entries_from at n entries_per_block (entries_per_block * b + 0)
      → zs ≡ ys ++ entries_from at n (entries_per_block * rounds) (entries_per_block * (b + 1))
      → zs ≡ xs ++ entries_from at n (entries_per_block * suc rounds) (entries_per_block * b)
  joined rounds b xs ys zs one two =
      let start : entries_per_block * b + 0 ≡ entries_per_block * b = omega arith in
      let next : entries_per_block * (b + 1) ≡ entries_per_block * b + entries_per_block =
        omega arith in
      let size : entries_per_block * suc rounds ≡ entries_per_block + entries_per_block * rounds =
        omega arith in
      two
      ∙ rw (one, start, next, size)
          (append_assoc xs (entries_from at n entries_per_block (entries_per_block * b)) (
              entries_from at n (entries_per_block * rounds)
                (entries_per_block * b + entries_per_block))
            ∙ ap (λ l. xs ++ l)
                (sym (
                  entries-append entries_per_block (entries_per_block * rounds)
                    (entries_per_block * b))))

  module _ (accepts : List Entry → Entry → Bool)
      (greedy : (taken : List Entry) (e : Entry) → accepts taken e ≡ true)
      (used : (k : ℕ) → k < n → (at k).ino ≢ 0) where
    emit_block_lem :
        (rounds p first : ℕ) (es : ℕ → Entry) (ctx : DirContext)
        → ((s : ℕ) → p ≤ s → s < p + rounds → IsSlot at n (first + s) (es s))
        → (emit_block accepts rounds p es ctx).emitted
          ≡ ctx.emitted ++ entries_from at n rounds (first + p)
    unfolding emit_block entries_from
    emit_block_lem zero p first es ctx slot = sym (append-nil ctx.emitted)
    emit_block_lem (suc rounds) p first es ctx slot =
        let here = slot p (omega arith) (omega arith) in
        let ih = λ (c : DirContext).
          emit_block_lem rounds (p + 1) first es c λ s l r. slot s (omega arith) (omega arith) in
        let there : first + (p + 1) ≡ first + p + 1 = omega arith in
        elim (Bool-cases (ltb (first + p) n)) [
          | inl h ↦
              let e = here.is_entry (ltb→lt (first + p) n h) in
              let nz : (es p).ino ≢ 0 = rw e (used (first + p) (ltb→lt (first + p) n h)) in
              rw (h, ne→== (es p).ino 0 nz, greedy ctx.emitted (es p))
                (ih (record { pos = ctx.pos + 1; emitted = ctx.emitted ++ (es p ∷ []) })
                  ∙ rw (there, e)
                      (append_assoc ctx.emitted (at (first + p) ∷ [])
                        (entries_from at n rounds (first + p + 1))))
          | inr h ↦
              let z = here.is_unused (ltb→le (first + p) n h) in
              rw (h, z) (ih (record ctx { pos = ctx.pos + 1 }) ∙ rw there refl)
        ]

    module _ (d : Dirs) (bno : ℕ) (t : Table) (slots : ℕ → ℕ → Entry)
        (is : IsDir d bno t slots at n) where
      -- The listing from the block `b` on.
      Lists : ℕ → ℕ → DirContext → Type 0
      Lists rounds b c =
          (c' : DirContext) × (emit_blocks accepts rounds b 0 t.table d.blocks c ≡ listed c')
          × (c'.emitted
              ≡ c.emitted ++ entries_from at n (entries_per_block * rounds) (entries_per_block * b))

      lists_none :
          (rounds b : ℕ) (c : DirContext)
          → n ≤ entries_per_block * b
          → c.emitted
            ≡ c.emitted ++ entries_from at n (entries_per_block * rounds) (entries_per_block * b)
      lists_none rounds b c le =
          rw (entries_behind (entries_per_block * rounds) (entries_per_block * b) le)
            (sym (append-nil c.emitted))

      past_table : (b : ℕ) → t.table b ≡ 0 → n ≤ entries_per_block * b
      past_table b z = elim (Bool-cases (ltb (entries_per_block * b) n)) [
        | inl h ↦ absurd (is.good.covered b (ltb→lt (entries_per_block * b) n h) z)
        | inr h ↦ ltb→le (entries_per_block * b) n h
      ]

      past_entries :
          (b : ℕ) → b < max_blocks → t.table b ≢ 0 → (slots b 0).ino ≡ 0 → n ≤ entries_per_block * b
      past_entries b lt ne z = elim (Bool-cases (ltb (entries_per_block * b + 0) n)) [
        | inl h ↦
            let below = ltb→lt (entries_per_block * b + 0) n h in
            let e = (is.list.slot b 0 lt ne (omega arith)).is_entry below in
            absurd (used (entries_per_block * b + 0) below (ap (λ x. x.ino) (sym e) ∙ z))
        | inr h ↦ omega (arith, ltb→le (entries_per_block * b + 0) n h)
      ]

      emit_blocks_lem : (rounds b : ℕ) (c : DirContext) → b + rounds ≡ max_blocks → Lists rounds b c
      unfolding emit_blocks Lists entries_from
      emit_blocks_lem zero b c sum = (c, refl, sym (append-nil c.emitted))
      emit_blocks_lem (suc rounds) b c sum = elim (Bool-cases (t.table b == 0)) [
        | inl z ↦
            let le : n ≤ entries_per_block * b = past_table b (==→eq _ 0 z) in
            (c, rw z refl, lists_none (suc rounds) b c le)
        | inr nz ↦
            let there = is.readable.reads b (omega arith) (==→ne _ 0 nz) in
            let slot = λ (s : ℕ) (r : s < entries_per_block).
              is.list.slot b s (omega arith) (==→ne _ 0 nz) r in
            elim (Bool-cases ((slots b 0).ino == 0)) [
              | inl z ↦
                  let le : n ≤ entries_per_block * b =
                    past_entries b (omega arith) (==→ne _ 0 nz) (==→eq _ 0 z) in
                  (c, rw (nz, there, z) refl, lists_none (suc rounds) b c le)
              | inr used0 ↦
                  let c1 = emit_block accepts entries_per_block 0 (slots b) c in
                  let (c', run, all) = emit_blocks_lem rounds (b + 1) c1 (omega arith) in
                  (
                    c',
                    rw (nz, there, used0) run,
                    joined rounds b c.emitted c1.emitted c'.emitted
                        (emit_block_lem entries_per_block 0 (entries_per_block * b) (slots b) c
                          λ s l r. slot s (omega arith))
                        all,
                  )
            ]
      ]

-- A listing of a directory in order, with a reader that takes every entry and has taken both dots
-- at the position 2, from a position of at most 15347, answers 0, and the reader has got the
-- entries of the directory, each once and in their order.
pub iterate_lem :
    (accepts : List Entry → Entry → Bool) (emit_dots : DirContext → Option DirContext)
    (inode : Inode) (ctx c : DirContext) (d : Dirs) (t : Table) (slots : ℕ → ℕ → Entry)
    (at : ℕ → Entry) (n : ℕ)
    → ((taken : List Entry) (e : Entry) → accepts taken e ≡ true)
    → ctx.pos ≤ entries_per_dir + 2
    → emit_dots ctx ≡ some c
    → c.pos ≡ 2
    → IsDir d inode.i_bno t slots at n
    → (c' : DirContext) × (iterate accepts emit_dots inode ctx d ≡ listed c')
      × (c'.emitted ≡ c.emitted ++ entries_from at n entries_per_dir 0)
unfolding iterate Lists
iterate_lem accepts emit_dots inode ctx c d t slots at n greedy low dots two is =
    let (c', run, all) =
      emit_blocks_lem at n accepts greedy is.list.used d inode.i_bno t slots is max_blocks 0 c
        refl in
    let start : c.pos - 2 ≡ 0 = omega (arith, two) in
    (c', rw (le→ltb (entries_per_dir + 2) ctx.pos low, dots, is.there, start) run, all)
