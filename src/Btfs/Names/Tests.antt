-- ===== src/Btfs/Names/Tests.antt =====
-- A list of names of one block, runs of BasicBTFS/nametree.h on it, and the theorems at it.
use basic_btfs.Prelude.{
  ℕ, ◌≡◌, refl, Bool, true, none, some, List, [], ◌∷◌, ◌++◌, arith, ◌==◌, if◌then◌else◌, update,
}
use basic_btfs.Kernel.{plain_api}
use basic_btfs.Btfs.Bitmap.{get_first_free_bits, get_free_blocks}
use basic_btfs.Btfs.Bitmap.Tests.{small}
use basic_btfs.Btfs.NameBlock.{
  name_entry_s_offset, NameBlock, read32, write32, read_bytes, write_bytes, strncpy,
}
use basic_btfs.Btfs.Disk.{Disk, success}
use basic_btfs.Btfs.Btree.Tests.{file, disk}
use basic_btfs.Btfs.Names.{
  Dirent, DirContext, walked, name_at, dir_emit, emit_entries, emit_block, insert_entry_in_list,
  delete_in_block, new_name_block, iterate_from,
}
use basic_btfs.Btfs.Names.Bytes.{IsText}
use basic_btfs.Btfs.Names.Slots.{live, end_of, IsNameBlock}
use basic_btfs.Btfs.Names.Listing.{offer}
use basic_btfs.Btfs.Names.Written.{dirent}
use basic_btfs.Btfs.Names.Update.{insert_entry_in_list_lem, delete_in_block_lem}
use basic_btfs.Btfs.Names.Chain.{Names, IsChain, names_from, iterate_from_lem}
use basic_btfs.Btfs.Names.Links.{new-IsNameBlock, new-has_room, insert_entry-next, new-next}
use basic_btfs.Btfs.Names.Insert.{IsInserted}
use basic_btfs.Btfs.Names.Insert.NewBlock.{IsSupply, insert_from_lem}

abbrev pub ab : List ℕ
ab = b'a' ∷ b'b' ∷ []

abbrev pub empty : NameBlock
empty = new_name_block 5

-- The block with the name "ab" of the file 7.
abbrev pub one_name : NameBlock
one_name = (insert_entry_in_list empty 5 ab (file 7 40)).0

abbrev pub one_slot : List Dirent
one_slot = dirent 7 ab ∷ []

pub ab-IsText : IsText ab
ab-IsText = omega arith

pub one_name-IsNameBlock : IsNameBlock one_name one_slot
one_name-IsNameBlock =
    (insert_entry_in_list_lem empty [] 5 ab (file 7 40) (new-IsNameBlock 5)
      (new-has_room 5 ab (omega arith)) ab-IsText (omega arith) (omega arith)).0

pub one_name-next : one_name.next_block ≡ 0
one_name-next = rw (insert_entry-next empty 5 ab (file 7 40)) (new-next 5)

abbrev ctx : DirContext
ctx = record { pos = 2; emitted = [] }

abbrev greedy : List Dirent → Dirent → Bool
greedy _ _ = true

lists_ab : emit_block greedy one_name 0 ctx 0 ≡ walked (record { pos = 3; emitted = one_slot })
unfolding emit_block emit_entries dir_emit name_at insert_entry_in_list new_name_block read32
    write32 read_bytes write_bytes strncpy update
lists_ab = refl

abbrev pub one_block : Names
one_block b = if b == 5 then some one_name else some empty

pub one_block-IsChain : IsChain one_block 5 one_slot []
one_block-IsChain = (one_name, refl, one_name-IsNameBlock, one_name-next)

iterate_from_lem_example :
    iterate_from greedy 1 one_block 5 0 ctx 0
    ≡ (success, offer greedy (names_from 0 0 one_slot []) ctx)
iterate_from_lem_example =
    iterate_from_lem greedy 1 one_block 5 0 0 ctx one_slot [] one_block-IsChain (omega arith)

delete_in_block_lem_example :
    IsNameBlock (delete_in_block one_name (end_of name_entry_s_offset [])) (dirent 0 ab ∷ [])
    × (live one_slot ≡ live [] ++ (dirent 7 ab ∷ live []))
    × (live (dirent 0 ab ∷ []) ≡ live [] ++ live [])
delete_in_block_lem_example =
    delete_in_block_lem one_name [] [] (dirent 7 ab) one_name-IsNameBlock (omega arith)

abbrev state : Disk
state = record (disk λ _. none) { names = one_block }

takes_5 : (get_free_blocks plain_api small 1).0 ≡ 5
unfolding get_free_blocks get_first_free_bits plain_api
takes_5 = refl

-- The list of names in block 6, so that block 5 is the one to be taken.
abbrev pub at_6 : Names
at_6 b = if b == 6 then some one_name else some empty

abbrev pub named : Disk
named = record (disk λ _. none) { names = at_6 }

pub at_6-IsChain : IsChain at_6 6 one_slot []
at_6-IsChain = (one_name, refl, one_name-IsNameBlock, one_name-next)

supply : IsSupply named 6 [] (get_free_blocks plain_api small 1).0
supply = rw takes_5 (record {
  found = omega arith;
  not_zero = omega arith;
  not_first = omega arith;
  not_later = tt;
  old = empty;
  reads = refl;
})

insert_from_lem_example :
    IsInserted plain_api 1 3 6 6 ab
      (file 8 50)
      250
      named
      one_slot
      []
      (get_free_blocks plain_api small 1).0
insert_from_lem_example =
    insert_from_lem plain_api 3 ab (file 8 50) 250 named ab-IsText (omega arith) (omega arith) 1 6 6
      (get_free_blocks plain_api small 1).0 (get_free_blocks plain_api small 1).1 one_slot []
      at_6-IsChain tt (omega arith) (omega arith) refl supply
