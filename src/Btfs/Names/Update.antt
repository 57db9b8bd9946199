-- ===== src/Btfs/Names/Update.antt =====
-- Adding a name to a block of names and deleting one from it, BasicBTFS/nametree.h.
use basic_btfs.Prelude.{
  ℕ, ◌+◌, ◌≤◌, ◌<◌, ◌≡◌, ◌≢◌, refl, ap, ◌∙◌, inl, inr, true, List, [], ◌∷◌, ◌++◌, arith, ltb→lt,
  length, length-append, u32_mod, add32, sub32,
}
use mathlib.Core.List.{append-nil}
use basic_btfs.Btfs.NameBlock.{block_size, name_entry_s_offset, name_entry_size, NameBlock, write32}
use basic_btfs.Btfs.Disk.{Entry}
use basic_btfs.Btfs.Names.Bytes.{
  IsText, strncpy_text, read32-Agree, read_bytes-Agree, read32-write32, write32_at,
}
use basic_btfs.Btfs.Names.Slots.{
  IsEntry, entry_size, IsSlots, live, live_size, IsNameBlock, slots_agree, slots-append, end_of,
  slots_end, slots_split, live-append, live_size-append, live_size_le,
}
use basic_btfs.Btfs.Names.{Dirent, has_room, insert_entry_in_list, delete_in_block}
use basic_btfs.Btfs.Names.Written.{dirent, written, written_before, written-IsEntry}

length-live_le : (ss : List Dirent) → length (live ss) ≤ live_size ss
unfolding live live_size
length-live_le [] = omega arith
length-live_le (s ∷ ss) = ground (arith, length-live_le ss)

live_one : (ino : ℕ) (name : List ℕ) → ino ≢ 0 → live (dirent ino name ∷ []) ≡ dirent ino name ∷ []
unfolding live
live_one ino name ne = ground arith

live_size_one :
    (ino : ℕ) (name : List ℕ)
    → ino ≢ 0
    → live_size (dirent ino name ∷ []) ≡ entry_size (dirent ino name)
unfolding live_size
live_size_one ino name ne = ground arith

live_zero : (name : List ℕ) (ss : List Dirent) → live (dirent 0 name ∷ ss) ≡ live ss
unfolding live
live_zero name ss = refl

live_size_zero : (name : List ℕ) (ss : List Dirent) → live_size (dirent 0 name ∷ ss) ≡ live_size ss
unfolding live_size
live_size_zero name ss = refl

live_cons :
    (s : Dirent) (ss : List Dirent)
    → s.ino ≢ 0
    → (live (s ∷ ss) ≡ s ∷ live ss) × (live_size (s ∷ ss) ≡ entry_size s + live_size ss)
unfolding live live_size
live_cons s ss ne = ground arith

-- There is room for a name in the block, and what `has_room` says of the sizes.
room_sizes :
    (b : NameBlock) (ss : List Dirent) (name : List ℕ)
    → IsNameBlock b ss
    → has_room b name ≡ true
    → (name_entry_s_offset + live_size ss ≤ b.start_unused_area)
      × (b.start_unused_area + (name_entry_size + length name + 1) < block_size)
unfolding has_room
room_sizes b ss name is h =
    let le = live_size_le b.bytes name_entry_s_offset ss b.start_unused_area is.slots in
    let lt = ltb→lt (length name + 1 + name_entry_size) (sub32 block_size b.start_unused_area) h in
    (le, omega (arith, is.fits, lt, le))

-- The fields of the block after an insertion.
insert_entry_fields :
    (b : NameBlock) (bno : ℕ) (name : List ℕ) (e : Entry)
    → IsText name
    → let r = insert_entry_in_list b bno name e in
      (r.0.bytes ≡ written b.bytes b.start_unused_area e.ino name)
      × (r.0.start_unused_area ≡ add32 b.start_unused_area (name_entry_size + length name + 1))
      × (r.0.free_bytes ≡ sub32 b.free_bytes (name_entry_size + length name + 1))
      × (r.0.nr_of_entries ≡ add32 b.nr_of_entries 1)
unfolding insert_entry_in_list written
insert_entry_fields b bno name e text = (rw (strncpy_text name text) refl, refl, refl, refl)

insert_entry-IsNameBlock :
    (b : NameBlock) (ss : List Dirent) (bno : ℕ) (name : List ℕ) (e : Entry)
    → IsNameBlock b ss
    → has_room b name ≡ true
    → IsText name
    → e.ino ≢ 0
    → e.ino < u32_mod
    → IsNameBlock (insert_entry_in_list b bno name e).0 (ss ++ (dirent e.ino name ∷ []))
insert_entry-IsNameBlock b ss bno name e is h text ne lt =
    let (bytes, start, room, count) = insert_entry_fields b bno name e text in
    let (used, fits) = room_sizes b ss name is h in
    let off = b.start_unused_area in
    let s = dirent e.ino name in
    let m = written b.bytes off e.ino name in
    let one = written-IsEntry b.bytes off e.ino name lt (omega arith) text in
    let old =
      slots_agree b.bytes m name_entry_s_offset ss off
        (λ x l r. written_before b.bytes off e.ino name x r) is.slots in
    let end : add32 off (entry_size s) ≡ off + entry_size s = omega arith in
    let l = live-append ss (s ∷ []) in
    let z = live_size-append ss (s ∷ []) in
    record {
      slots =
          rw (bytes, start, end)
            (slots-append m name_entry_s_offset ss (s ∷ []) off (off + entry_size s) old
              (one, refl));
      fits = rw (start, end) (omega arith);
      count =
          rw (count, l, live_one e.ino name ne, length-append (live ss) (s ∷ []))
            (omega (arith, is.count, is.room, length-live_le ss));
      room = rw (room, z, live_size_one e.ino name ne) (omega (arith, is.room, is.fits));
    }

-- A name without a zero byte, of an entry with an inode number other than 0 that fits 32 bits, that
-- is added to a block of names in order with room for it: the block is in order again, and holds
-- what it held, in the same order, and the name behind. The entry takes over the place where the
-- name stands, and its block.
pub insert_entry_in_list_lem :
    (b : NameBlock) (ss : List Dirent) (bno : ℕ) (name : List ℕ) (e : Entry)
    → IsNameBlock b ss
    → has_room b name ≡ true
    → IsText name
    → e.ino ≢ 0
    → e.ino < u32_mod
    → let (b', e') = insert_entry_in_list b bno name e in
      IsNameBlock b' (ss ++ (dirent e.ino name ∷ []))
      × (live (ss ++ (dirent e.ino name ∷ [])) ≡ live ss ++ (dirent e.ino name ∷ []))
      × (e' ≡ record e { block_index = end_of name_entry_s_offset ss; name_bno = bno })
unfolding insert_entry_in_list
insert_entry_in_list_lem b ss bno name e is h text ne lt =
    let s = dirent e.ino name in
    let place = slots_end b.bytes name_entry_s_offset ss b.start_unused_area is.slots in
    (
      insert_entry-IsNameBlock b ss bno name e is h text ne lt,
      live-append ss (s ∷ []) ∙ rw (live_one e.ino name ne) refl,
      rw place refl,
    )

module _ (b : NameBlock) (before after : List Dirent) (s : Dirent)
    (is : IsNameBlock b (before ++ (s ∷ after))) where
  abbrev place : ℕ
  place = end_of name_entry_s_offset before

  -- The parts of the entries, where the deleted one stands between.
  parts :
      IsSlots b.bytes name_entry_s_offset before place
      × IsEntry b.bytes place s
      × IsSlots b.bytes (place + entry_size s) after b.start_unused_area
  parts =
      let (one, two) =
        slots_split b.bytes name_entry_s_offset before (s ∷ after) b.start_unused_area is.slots in
      (one, two.0, two.1)

  deleted-IsSlots :
      IsSlots
        (write32 b.bytes place 0)
        name_entry_s_offset
        (before ++ (dirent 0 s.name ∷ after))
        b.start_unused_area
  deleted-IsSlots =
      let (one, here, two) = parts in
      let m = write32 b.bytes place 0 in
      let there : IsEntry m place (dirent 0 s.name) = record {
        number = read32-write32 b.bytes place 0 (omega arith);
        size =
            read32-Agree b.bytes m (place + 4) (place + 8)
              (λ x l r. write32_at b.bytes place 0 x (inr l)) (omega arith)
            ∙ here.size;
        text =
            read_bytes-Agree b.bytes m (place + name_entry_size) (length s.name)
              (place + name_entry_size + length s.name)
              (λ x l r. write32_at b.bytes place 0 x (inr (omega arith))) (omega arith)
            ∙ here.text;
        proper = here.proper;
      } in
      slots-append m name_entry_s_offset before (dirent 0 s.name ∷ after) place b.start_unused_area
        (slots_agree b.bytes m name_entry_s_offset before place
          (λ x l r. write32_at b.bytes place 0 x (inl r)) one)
        (
          there,
          slots_agree b.bytes m (place + entry_size s) after b.start_unused_area
              (λ x l r. write32_at b.bytes place 0 x (inr (omega arith))) two,
        )

  -- Deleting an entry, not deleted before, from a block of names in order, at the place where it
  -- stands: the block is in order again, and holds the other names in the order in which it held
  -- them.
  pub delete_in_block_lem :
      s.ino ≢ 0
      → IsNameBlock (delete_in_block b place) (before ++ (dirent 0 s.name ∷ after))
        × (live (before ++ (s ∷ after)) ≡ live before ++ (s ∷ live after))
        × (live (before ++ (dirent 0 s.name ∷ after)) ≡ live before ++ live after)
  unfolding delete_in_block
  delete_in_block_lem ne =
      let (one, here, two) = parts in
      let (l, z) = live_cons s after ne in
      let was : live (before ++ (s ∷ after)) ≡ live before ++ (s ∷ live after) =
        live-append before (s ∷ after) ∙ rw l refl in
      let now : live (before ++ (dirent 0 s.name ∷ after)) ≡ live before ++ live after =
        live-append before (dirent 0 s.name ∷ after) ∙ rw (live_zero s.name after) refl in
      let room = live_size-append before (s ∷ after) in
      let room' = live_size-append before (dirent 0 s.name ∷ after) in
      let z' = live_size_zero s.name after in
      let c = length-append (live before) (s ∷ live after) in
      let c' = length-append (live before) (live after) in
      (
        record {
          slots = deleted-IsSlots;
          fits = is.fits;
          count =
              rw (now, c')
                (omega (
                  arith,
                  is.count,
                  ap length was,
                  c,
                  is.room,
                  length-live_le (before ++ (s ∷ after)),
                ));
          room = rw (here.size, room', z') (omega (arith, is.room, room, z));
        },
        was,
        now,
      )

-- A name without a zero byte, of an entry with an inode number other than 0 that fits 32 bits, that
-- is added to a block of names in order with room for it, and then deleted at the place that the
-- insertion recorded: the block is in order, and lists what it listed before.
pub delete_in_block-insert_entry :
    (b : NameBlock) (ss : List Dirent) (bno : ℕ) (name : List ℕ) (e : Entry)
    → IsNameBlock b ss
    → has_room b name ≡ true
    → IsText name
    → e.ino ≢ 0
    → e.ino < u32_mod
    → let (b', e') = insert_entry_in_list b bno name e in
      IsNameBlock (delete_in_block b' e'.block_index) (ss ++ (dirent 0 name ∷ []))
      × (live (ss ++ (dirent 0 name ∷ [])) ≡ live ss)
unfolding live
delete_in_block-insert_entry b ss bno name e is h text ne lt =
    let (is', listing, moved) = insert_entry_in_list_lem b ss bno name e is h text ne lt in
    let b' = (insert_entry_in_list b bno name e).0 in
    let (deleted, _, now) = delete_in_block_lem b' ss [] (dirent e.ino name) is' ne in
    let place = ap (λ x. x.block_index) moved in (rw place deleted, now ∙ append-nil (live ss))
