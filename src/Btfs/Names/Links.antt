-- ===== src/Btfs/Names/Links.antt =====
-- Changes of one block of a chain of blocks of names, BasicBTFS/nametree.h.
use basic_btfs.Prelude.{
  ℕ, ◌+◌, ◌≤◌, ◌≡◌, ◌≢◌, refl, sym, ◌∙◌, true, some, List, [], ◌∷◌, ◌++◌, arith, length, lt→ltb,
  update, update_self, update_ne,
}
use mathlib.Core.List.{append-nil}
use basic_btfs.Btfs.NameBlock.{name_entry_size, NameBlock}
use basic_btfs.Btfs.Disk.{Entry}
use basic_btfs.Btfs.Names.Slots.{live, live_size, IsNameBlock}
use basic_btfs.Btfs.Names.Chain.{Names, IsChain, NotIn, names_of, IsChain-agree}
use basic_btfs.Btfs.Names.{Dirent, has_room, insert_entry_in_list, new_name_block}

pub relink-IsNameBlock :
    (b : NameBlock) (ss : List Dirent) (next : ℕ)
    → IsNameBlock b ss
    → IsNameBlock (record b { next_block = next }) ss
relink-IsNameBlock b ss next is = record {
  slots = is.slots;
  fits = is.fits;
  count = is.count;
  room = is.room;
}

pub new-IsNameBlock : (prev : ℕ) → IsNameBlock (new_name_block prev) []
unfolding new_name_block live live_size
new-IsNameBlock prev = record { slots = refl; fits = omega arith; count = refl; room = refl }

pub new-has_room :
    (prev : ℕ) (name : List ℕ) → length name ≤ 255 → has_room (new_name_block prev) name ≡ true
unfolding has_room new_name_block
new-has_room prev name le = lt→ltb (length name + 1 + name_entry_size) 4068 (omega arith)

pub insert_entry-next :
    (b : NameBlock) (bno : ℕ) (name : List ℕ) (e : Entry)
    → (insert_entry_in_list b bno name e).0.next_block ≡ b.next_block
unfolding insert_entry_in_list
insert_entry-next b bno name e = refl

pub new-next : (prev : ℕ) → (new_name_block prev).next_block ≡ 0
unfolding new_name_block
new-next prev = refl

NotIn-first :
    (x : ℕ) (bno : ℕ) (rest : List (ℕ × List Dirent))
    → NotIn bno rest
    → (NotIn x rest → ⊥)
    → x ≢ bno
NotIn-first x bno rest out h e = h (rw e out)

-- A block outside a chain can be written.
pub IsChain-put :
    (names : Names) (at : ℕ) (b : NameBlock) (bno : ℕ) (ss : List Dirent)
    (rest : List (ℕ × List Dirent))
    → bno ≢ at
    → NotIn at rest
    → IsChain names bno ss rest
    → IsChain (update names at (some b)) bno ss rest
IsChain-put names at b bno ss rest ne out is =
    IsChain-agree names (update names at (some b)) bno ss rest (update_ne names at bno (some b) ne)
      (λ x h. update_ne names at x (some b) (NotIn-first x at rest out h)) is

-- The first block of a chain can change its names.
pub IsChain-first :
    (names : Names) (b b' : NameBlock) (bno : ℕ) (ss ss' : List Dirent)
    (rest : List (ℕ × List Dirent))
    → names bno ≡ some b
    → b'.next_block ≡ b.next_block
    → IsNameBlock b' ss'
    → NotIn bno rest
    → IsChain names bno ss rest
    → IsChain (update names bno (some b')) bno ss' rest
IsChain-first names b b' bno ss ss' [] read same is out (b0, read0, is0, last) =
    let e : b ≡ b0 = cc in (b', update_self names bno (some b'), is, same ∙ rw e last)
IsChain-first names b b' bno ss ss' ((n, ss1) ∷ rest) read same is (ne, out)
      ((b0, read0, is0, next, nz), more) =
    let e : b ≡ b0 = cc in
    (
      (b', update_self names bno (some b'), is, same ∙ rw e next, nz),
      IsChain-put names bno b' n ss1 rest (λ h. ne (sym h)) out more,
    )

unfoldable pub tail_names : List (ℕ × List Dirent) → List Dirent
tail_names [] = []
tail_names ((n, ss) ∷ rest) = names_of ss rest

pub names_of-append :
    (ss : List Dirent) (rest : List (ℕ × List Dirent))
    → names_of ss rest ≡ live ss ++ tail_names rest
unfolding names_of tail_names
names_of-append ss [] = sym (append-nil (live ss))
names_of-append ss ((n, ss') ∷ rest) = refl
