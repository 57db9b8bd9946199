-- ===== src/Btfs/Names/Slots.antt =====
-- What a block of names in order holds: the entries behind its header, deleted ones with inode
-- number 0 among them, up to the unused area.
use basic_btfs.Prelude.{
  ℕ, ◌+◌, ◌≤◌, ◌≡◌, refl, ◌∙◌, List, [], ◌∷◌, ◌++◌, arith, ◌==◌, if◌then◌else◌, length,
}
use basic_btfs.Btfs.NameBlock.{
  block_size, name_entry_s_offset, empty_name_tree, name_entry_size, NameBlock, read32, read_bytes,
}
use basic_btfs.Btfs.Names.Bytes.{IsText, Agree, read32-Agree, read_bytes-Agree}
use basic_btfs.Btfs.Names.{Dirent}

pub record IsEntry (m : ℕ → ℕ) (off : ℕ) (s : Dirent) : Type 0 where
  pub number : read32 m off ≡ s.ino
  pub size : read32 m (off + 4) ≡ length s.name + 1
  pub text : read_bytes m (off + name_entry_size) (length s.name) ≡ s.name
  pub proper : IsText s.name

abbrev pub entry_size : Dirent → ℕ
entry_size s = name_entry_size + length s.name + 1

-- The entries stand one behind the other from `off` up to `e`.
abbrev pub IsSlots : (ℕ → ℕ) → ℕ → List Dirent → ℕ → Type 0
IsSlots m off [] e = off ≡ e
IsSlots m off (s ∷ ss) e = IsEntry m off s × IsSlots m (off + entry_size s) ss e

-- The entries that are not deleted, in order, and the bytes that they take.
unfoldable pub live : List Dirent → List Dirent
live [] = []
live (s ∷ ss) = if s.ino == 0 then live ss else s ∷ live ss

unfoldable pub live_size : List Dirent → ℕ
live_size [] = 0
live_size (s ∷ ss) = if s.ino == 0 then live_size ss else entry_size s + live_size ss

pub record IsNameBlock (b : NameBlock) (ss : List Dirent) : Type 0 where
  pub slots : IsSlots b.bytes name_entry_s_offset ss b.start_unused_area
  pub fits : b.start_unused_area ≤ block_size
  pub count : b.nr_of_entries ≡ length (live ss)
  pub room : b.free_bytes + live_size ss ≡ empty_name_tree

pub slots_le : (m : ℕ → ℕ) (off : ℕ) (ss : List Dirent) (e : ℕ) → IsSlots m off ss e → off ≤ e
slots_le m off [] e h = omega (arith, h)
slots_le m off (s ∷ ss) e (h, rest) = omega (arith, slots_le m (off + entry_size s) ss e rest)

pub entry_agree :
    (m m' : ℕ → ℕ) (off : ℕ) (s : Dirent) (hi : ℕ)
    → Agree m m' off hi
    → off + entry_size s ≤ hi
    → IsEntry m off s
    → IsEntry m' off s
entry_agree m m' off s hi same le is = record {
  number = read32-Agree m m' off hi same (omega arith) ∙ is.number;
  size = read32-Agree m m' (off + 4) hi (λ x l r. same x (omega arith) r) (omega arith) ∙ is.size;
  text =
      read_bytes-Agree m m' (off + name_entry_size) (length s.name) hi
        (λ x l r. same x (omega arith) r) (omega arith)
      ∙ is.text;
  proper = is.proper;
}

pub slots_agree :
    (m m' : ℕ → ℕ) (off : ℕ) (ss : List Dirent) (e : ℕ)
    → Agree m m' off e
    → IsSlots m off ss e
    → IsSlots m' off ss e
slots_agree m m' off [] e same h = h
slots_agree m m' off (s ∷ ss) e same (h, rest) =
    let le = slots_le m (off + entry_size s) ss e rest in
    (
      entry_agree m m' off s e same le h,
      slots_agree m m' (off + entry_size s) ss e (λ x l r. same x (omega arith) r) rest,
    )

pub slots-append :
    (m : ℕ → ℕ) (off : ℕ) (ss ts : List Dirent) (mid e : ℕ)
    → IsSlots m off ss mid
    → IsSlots m mid ts e
    → IsSlots m off (ss ++ ts) e
slots-append m off [] ts mid e h k = rw h k
slots-append m off (s ∷ ss) ts mid e (h, rest) k =
    (h, slots-append m (off + entry_size s) ss ts mid e rest k)

-- Where the second part of the entries starts.
unfoldable pub end_of : ℕ → List Dirent → ℕ
end_of off [] = off
end_of off (s ∷ ss) = end_of (off + entry_size s) ss

pub slots_end :
    (m : ℕ → ℕ) (off : ℕ) (ss : List Dirent) (e : ℕ) → IsSlots m off ss e → end_of off ss ≡ e
unfolding end_of
slots_end m off [] e h = h
slots_end m off (s ∷ ss) e (h, rest) = slots_end m (off + entry_size s) ss e rest

pub slots_split :
    (m : ℕ → ℕ) (off : ℕ) (ss ts : List Dirent) (e : ℕ)
    → IsSlots m off (ss ++ ts) e
    → IsSlots m off ss (end_of off ss) × IsSlots m (end_of off ss) ts e
unfolding end_of
slots_split m off [] ts e h = (refl, h)
slots_split m off (s ∷ ss) ts e (h, rest) =
    let (one, two) = slots_split m (off + entry_size s) ss ts e rest in ((h, one), two)

pub live-append : (ss ts : List Dirent) → live (ss ++ ts) ≡ live ss ++ live ts
unfolding live
live-append [] ts = refl
live-append (s ∷ ss) ts = ground (arith, live-append ss ts)

pub live_size-append : (ss ts : List Dirent) → live_size (ss ++ ts) ≡ live_size ss + live_size ts
unfolding live_size
live_size-append [] ts = omega arith
live_size-append (s ∷ ss) ts = ground (arith, live_size-append ss ts)

pub live_size_le :
    (m : ℕ → ℕ) (off : ℕ) (ss : List Dirent) (e : ℕ) → IsSlots m off ss e → off + live_size ss ≤ e
unfolding live_size
live_size_le m off [] e h = omega (arith, h)
live_size_le m off (s ∷ ss) e (h, rest) =
    ground (arith, live_size_le m (off + entry_size s) ss e rest)
