-- ===== src/Btfs/Names/Listing.antt =====
-- Listing a directory from its blocks of names, BasicBTFS/nametree.h, is offering the names that
-- they hold, one after the other.
use basic_btfs.Prelude.{
  ℕ, zero, suc, ◌+◌, ◌-◌, ◌*◌, ◌≤◌, ◌<◌, ◌≡◌, ◌≢◌, refl, sym, ◌∙◌, inl, inr, Bool, List, [], ◌∷◌,
  ◌++◌, arith, ltb, ◌==◌, if◌then◌else◌, Bool-cases, ==→eq, ==→ne, ne→==, le→ltb, length,
}
use basic_btfs.Btfs.NameBlock.{block_size, name_entry_s_offset, name_entry_size, NameBlock}
use basic_btfs.Btfs.Names.Bytes.{strncpy_text}
use basic_btfs.Btfs.Names.Slots.{IsEntry, entry_size, IsSlots, live, slots_le, IsNameBlock}
use basic_btfs.Btfs.Names.{
  entries_per_block, Dirent, DirContext, Walk, walked, refused, name_at, dir_emit, emit_entries,
  emit_block,
}

module _ (accepts : List Dirent → Dirent → Bool) where
  -- A reader takes names until it refuses one.
  unfoldable pub offer : List Dirent → DirContext → Walk
  offer [] ctx = walked ctx
  offer (e ∷ es) ctx =
      if accepts ctx.emitted e
      then offer es (record ctx { emitted = ctx.emitted ++ (e ∷ []); pos = ctx.pos + 1 })
      else refused ctx

entry_name :
    (m : ℕ → ℕ) (off : ℕ) (s : Dirent)
    → IsEntry m off s
    → name_at m off (length s.name + 1) ≡ s.name
unfolding name_at
entry_name m off s is =
    let e : length s.name + 1 - 1 ≡ length s.name = omega arith in
    rw (e, is.text) (strncpy_text s.name is.proper)

module _ (accepts : List Dirent → Dirent → Bool) where
  emit_entries_zero :
      (fuel off : ℕ) (m : ℕ → ℕ) (ctx : DirContext)
      → 0 < fuel
      → emit_entries accepts fuel 0 off m ctx ≡ walked ctx
  unfolding emit_entries
  emit_entries_zero zero off m ctx pos = absurd (omega arith)
  emit_entries_zero (suc fuel) off m ctx pos = refl

  nothing_left :
      (fuel off : ℕ) (m : ℕ → ℕ) (es : List Dirent) (ctx : DirContext)
      → 0 < fuel
      → length es ≡ 0
      → emit_entries accepts fuel 0 off m ctx ≡ offer accepts es ctx
  unfolding offer
  nothing_left fuel off m [] ctx pos h = emit_entries_zero fuel off m ctx pos
  nothing_left fuel off m (x ∷ es) ctx pos h = absurd (omega (arith, h))

  -- One round at an entry in order, of a number and a name.
  emit_entries_parts :
      (fuel left off ino : ℕ) (name : List ℕ) (m : ℕ → ℕ) (ctx : DirContext)
      → let s : Dirent = record { ino = ino; name = name } in
        IsEntry m off s
        → off + entry_size s ≤ block_size
        → left ≢ 0
        → emit_entries accepts (suc fuel) left off m ctx ≡ (
            if ino == 0
            then emit_entries accepts fuel left (off + entry_size s) m ctx
            else if accepts ctx.emitted s
            then emit_entries accepts fuel
                (left - 1)
                (off + entry_size s)
                m
                (record ctx { emitted = ctx.emitted ++ (s ∷ []); pos = ctx.pos + 1 })
            else refused ctx)
  unfolding emit_entries dir_emit
  emit_entries_parts fuel left off ino name m ctx is le ne =
      let s : Dirent = record { ino = ino; name = name } in
      let e : off + name_entry_size + (length name + 1) ≡ off + entry_size s = omega arith in
      let left_over = ne→== left 0 ne in
      let inside = le→ltb block_size (off + entry_size s) le in
      let named = ne→== (length name + 1) 0 (omega arith) in
      rw (is.number, is.size, entry_name m off s is, e, left_over, inside, named)
        (elim (Bool-cases (accepts ctx.emitted s)) [ inl a ↦ rw a refl | inr a ↦ rw a refl ])

  emit_entries_next :
      (fuel left off : ℕ) (s : Dirent) (m : ℕ → ℕ) (ctx : DirContext)
      → IsEntry m off s
      → off + entry_size s ≤ block_size
      → left ≢ 0
      → emit_entries accepts (suc fuel) left off m ctx ≡ (
          if s.ino == 0
          then emit_entries accepts fuel left (off + entry_size s) m ctx
          else if accepts ctx.emitted s
          then emit_entries accepts fuel
              (left - 1)
              (off + entry_size s)
              m
              (record ctx { emitted = ctx.emitted ++ (s ∷ []); pos = ctx.pos + 1 })
          else refused ctx)
  emit_entries_next fuel left off s m ctx is le ne =
      emit_entries_parts fuel left off s.ino s.name m ctx is le ne

  -- With enough rounds for the bytes behind `off`.
  emit_entries_lem :
      (fuel left off : ℕ) (ss : List Dirent) (e : ℕ) (m : ℕ → ℕ) (ctx : DirContext)
      → IsSlots m off ss e
      → e ≤ block_size
      → block_size < off + 8 * fuel
      → left ≡ length (live ss)
      → emit_entries accepts fuel left off m ctx ≡ offer accepts (live ss) ctx
  unfolding live offer
  emit_entries_lem fuel left off [] e m ctx is le enough count =
      rw count (emit_entries_zero fuel off m ctx (omega (arith, is)))
  emit_entries_lem zero left off (s ∷ ss) e m ctx is le enough count =
      absurd (omega (arith, slots_le m off (s ∷ ss) e is))
  emit_entries_lem (suc fuel) left off (s ∷ ss) e m ctx (one, rest) le enough count =
      let last = slots_le m (off + entry_size s) ss e rest in
      elim (Bool-cases (left == 0)) [
        | inl z ↦
            let l = ==→eq left 0 z in
            rw l (
              nothing_left (suc fuel) off m (live (s ∷ ss)) ctx (omega arith)
                (sym (unfold live in count) ∙ l))
        | inr nz ↦
            let ctx' = record ctx { emitted = ctx.emitted ++ (s ∷ []); pos = ctx.pos + 1 } in
            emit_entries_next fuel left off s m ctx one (omega arith) (==→ne left 0 nz)
            ∙ ground (
              arith,
              emit_entries_lem fuel left (off + entry_size s) ss e m ctx rest le (omega arith),
              emit_entries_lem fuel (left - 1) (off + entry_size s) ss e m ctx' rest le
                  (omega arith),
            )
      ]

  -- On a block in order, with any reader and from any position, the walk over a block of names ends
  -- inside the block. It offers the names that are not deleted, in order, until the reader refuses
  -- one, or nothing at all if the position lies behind the names counted so far.
  pub emit_block_lem :
      (b : NameBlock) (ss : List Dirent) (total start_pos : ℕ) (ctx : DirContext)
      → IsNameBlock b ss
      → emit_block accepts b total ctx start_pos ≡ (
          if ltb start_pos (total + length (live ss))
          then offer accepts (live ss) ctx
          else walked ctx)
  unfolding emit_block
  emit_block_lem b ss total start_pos ctx is = rw is.count (
      rw
        (emit_entries_lem entries_per_block (length (live ss)) name_entry_s_offset ss
          b.start_unused_area b.bytes ctx is.slots is.fits (omega arith) refl)
        refl)
