-- ===== src/Btfs/Names/Insert/NewBlock.antt =====
-- Adding a name to the chain of blocks of names of a directory, BasicBTFS/nametree.h: a new block
-- behind a full chain, and the whole walk.
use basic_btfs.Prelude.{
  ℕ, zero, suc, ◌≤◌, ◌<◌, ◌≡◌, ◌≢◌, refl, sym, ap, ◌∙◌, inl, inr, false, none, some, List, [], ◌∷◌,
  ◌++◌, arith, ltb, if◌then◌else◌, Bool-cases, ne→==, length, update, update_self, update_ne,
  u32_mod, minus_one,
}
use mathlib.Core.List.{append-nil}
use basic_btfs.Btfs.Cache.{find_dir, cache_add_name_block, max_cache_blocks_per_dir}
use basic_btfs.Kernel.{BitmapApi}
use basic_btfs.Btfs.Super.{SbInfo}
use basic_btfs.Btfs.Bitmap.{get_free_blocks}
use basic_btfs.Btfs.NameBlock.{NameBlock}
use basic_btfs.Btfs.Disk.{Entry, DirCache, Disk, success, done}
use basic_btfs.Btfs.Names.Bytes.{IsText}
use basic_btfs.Btfs.Names.Slots.{live, IsNameBlock}
use basic_btfs.Btfs.Names.Written.{dirent}
use basic_btfs.Btfs.Names.Update.{insert_entry_in_list_lem}
use basic_btfs.Btfs.Names.Chain.{IsChain, NotIn, IsApart, names_of}
use basic_btfs.Btfs.Names.{
  Dirent, has_room, insert_entry_in_list, put_names, new_name_block, insert_in_new, insert_behind,
}
use basic_btfs.Btfs.Names.Links.{
  relink-IsNameBlock, new-IsNameBlock, new-has_room, insert_entry-next, new-next,
}
use basic_btfs.Btfs.Names.Insert.{
  IsAdded, IsBeside, IsPlaced, update-reads, IsInserted, insert_from_last, here-IsInserted,
  next-IsInserted,
}

-- What is asked of the allocation, if the chain has no room: a block that can be read, not 0 and
-- not one of the chain's.
pub record IsSupply (d : Disk) (bno : ℕ) (rest : List (ℕ × List Dirent)) (taken : ℕ) : Type 0 where
  pub found : taken ≢ minus_one
  pub not_zero : taken ≢ 0
  pub not_first : taken ≢ bno
  pub not_later : NotIn taken rest
  pub old : NameBlock
  pub reads : d.names taken ≡ some old

cache_add_name_block-uncached :
    (dir_bno name_bno : ℕ) (b : NameBlock) (cs : List DirCache)
    → find_dir dir_bno cs ≡ none
    → find_dir dir_bno (cache_add_name_block dir_bno b name_bno cs) ≡ none
unfolding cache_add_name_block
cache_add_name_block-uncached dir_bno name_bno b cs out =
    let same : cache_add_name_block dir_bno b name_bno cs ≡ cs =
      rw (cache_add_name_block, out) refl in
    rw same out

module _ (api : BitmapApi) (dir_bno : ℕ) (name : List ℕ) (e : Entry) (nr_of_blocks : ℕ) (d : Disk)
    (text : IsText name) (ne : e.ino ≢ 0) (lt : e.ino < u32_mod) where
  abbrev new : Dirent
  new = dirent e.ino name

  -- The state once the chain has got the block `taken`, and the state with the name in it.
  linked : ℕ → ℕ → SbInfo → NameBlock → Disk
  linked bno taken sbi b = record (put_names bno (record b { next_block = taken }) d) { sbi = sbi }

  filled : ℕ → ℕ → ℕ → SbInfo → NameBlock → Disk
  filled prev bno taken sbi b =
      let b' = (insert_entry_in_list (new_name_block prev) taken name e).0 in
      let d' = linked bno taken sbi b in
      record (put_names taken b' d') {
        dir_cache =
            if ltb nr_of_blocks max_cache_blocks_per_dir
            then cache_add_name_block dir_bno b' taken d'.dir_cache
            else d'.dir_cache;
      }

  insert_behind_found :
      (prev bno taken : ℕ) (sbi : SbInfo) (b old : NameBlock)
      → get_free_blocks api d.sbi 1 ≡ (taken, sbi)
      → taken ≢ minus_one
      → (linked bno taken sbi b).names taken ≡ some old
      → insert_behind api dir_bno prev bno b name e nr_of_blocks d
        ≡ insert_in_new dir_bno prev taken name e nr_of_blocks (linked bno taken sbi b)
  unfolding insert_behind linked
  insert_behind_found prev bno taken sbi b old got ne there =
      rw (insert_behind, got, ne→== taken minus_one ne, there) (rw got refl)

  insert_in_new_room :
      (prev bno taken : ℕ) (sbi : SbInfo) (b : NameBlock)
      → length name ≤ 255
      → insert_in_new dir_bno prev taken name e nr_of_blocks (linked bno taken sbi b)
        ≡ done
            (success, (insert_entry_in_list (new_name_block prev) taken name e).1)
            (filled prev bno taken sbi b)
  unfolding insert_in_new filled
  insert_in_new_room prev bno taken sbi b short =
      rw (insert_in_new, new-has_room prev name short) refl

  filled_names :
      (prev bno taken : ℕ) (sbi : SbInfo) (b : NameBlock)
      → (filled prev bno taken sbi b).names
        ≡ update
            (update d.names bno (some (record b { next_block = taken })))
            taken
            (some (insert_entry_in_list (new_name_block prev) taken name e).0)
  unfolding filled linked put_names
  filled_names prev bno taken sbi b = refl

  linked_names :
      (bno taken : ℕ) (sbi : SbInfo) (b : NameBlock)
      → (linked bno taken sbi b).names ≡ update d.names bno (some (record b { next_block = taken }))
  unfolding linked put_names
  linked_names bno taken sbi b = refl

  last-IsBeside :
      (prev bno taken : ℕ) (sbi : SbInfo) (b : NameBlock)
      → get_free_blocks api d.sbi 1 ≡ (taken, sbi)
      → taken ≢ bno
      → IsBeside api dir_bno bno d (filled prev bno taken sbi b) [] ((taken, new ∷ []) ∷ []) taken
  unfolding filled linked put_names
  last-IsBeside prev bno taken sbi b got apart = record {
    same_node = refl;
    bits = inr (ap (λ p. p.1) (sym got));
    uncached = λ out. elim (Bool-cases (ltb nr_of_blocks max_cache_blocks_per_dir)) [
      | inl h ↦ rw h (cache_add_name_block-uncached dir_bno taken _ d.dir_cache out)
      | inr h ↦ rw h out
    ];
    reads = λ x o at.
        let (o', at') = update-reads d.names bno x (record b { next_block = taken }) o at in
        update-reads (linked bno taken sbi b).names taken x
          (insert_entry_in_list (new_name_block prev) taken name e).0 o' at';
    apart = (λ e. apart (sym e), tt, tt);
    blocks = λ x l r. (r, tt);
  }

  last-IsAdded :
      (prev bno taken : ℕ) (sbi : SbInfo) (b : NameBlock) (ss : List Dirent)
      → get_free_blocks api d.sbi 1 ≡ (taken, sbi)
      → IsNameBlock b ss
      → length name ≤ 255
      → taken ≢ 0
      → taken ≢ bno
      → (added : IsAdded d (filled prev bno taken sbi b) bno ss [] new taken) × IsBeside api dir_bno
          bno d
          (filled prev bno taken sbi b)
          []
          added.others
          taken
  unfolding names_of filled update put_names linked
  last-IsAdded prev bno taken sbi b ss got is short nz apart =
      let first = new_name_block prev in
      let (is', listing, _) =
        insert_entry_in_list_lem first [] taken name e (new-IsNameBlock prev)
          (new-has_room prev name short) text ne lt in
      let b' = (insert_entry_in_list first taken name e).0 in
      let b1 : NameBlock = record b { next_block = taken } in
      let linked' = update d.names bno (some b1) in
      rw (filled_names prev bno taken sbi b) (
        record {
          first = ss;
          others = (taken, new ∷ []) ∷ [];
          chain = (
            (
              b1,
              update_ne linked' taken bno (some b') (λ h. apart (sym h))
                  ∙ update_self d.names bno (some b1),
              relink-IsNameBlock b ss taken is,
              refl,
              nz,
            ),
            (
              b',
              update_self linked' taken (some b'),
              is',
              insert_entry-next first taken name e ∙ new-next prev,
            ),
          );
          before = live ss;
          after = [];
          was = sym (append-nil (live ss));
          now = ap (λ l. live ss ++ l) (listing ∙ unfold live in refl);
          kept = λ x l _ f.
              update_ne linked' taken x (some b') f ∙ update_ne d.names bno x (some b1) l;
        },
        last-IsBeside prev bno taken sbi b got apart,
      )

  last-IsPlaced :
      (prev bno taken : ℕ) (sbi : SbInfo) (b : NameBlock)
      → length name ≤ 255
      → IsPlaced
          (filled prev bno taken sbi b)
          (insert_entry_in_list (new_name_block prev) taken name e).1
          new
  last-IsPlaced prev bno taken sbi b short =
      let first = new_name_block prev in
      let (is', _, moved) =
        insert_entry_in_list_lem first [] taken name e (new-IsNameBlock prev)
          (new-has_room prev name short) text ne lt in
      let b' = (insert_entry_in_list first taken name e).0 in
      let names' = update d.names bno (some (record b { next_block = taken })) in
      rw moved (record {
        block = b';
        pre = [];
        at =
            ap (λ f. f taken) (filled_names prev bno taken sbi b)
            ∙ update_self names' taken (some b');
        order = is';
        index = refl;
      })

  -- The last block is full, and the allocation gives a block outside the chain that can be read.
  last-IsInserted :
      (fuel prev bno taken : ℕ) (sbi : SbInfo) (b old : NameBlock) (ss : List Dirent)
      → d.names bno ≡ some b
      → IsNameBlock b ss
      → b.next_block ≡ 0
      → has_room b name ≡ false
      → length name ≤ 255
      → get_free_blocks api d.sbi 1 ≡ (taken, sbi)
      → taken ≢ minus_one
      → taken ≢ 0
      → taken ≢ bno
      → d.names taken ≡ some old
      → IsInserted api (suc fuel) dir_bno prev bno name e nr_of_blocks d ss [] taken
  last-IsInserted fuel prev bno taken sbi b old ss read is last h short got some_block nz apart
        there =
      let (_, _, moved) =
        insert_entry_in_list_lem (new_name_block prev) [] taken name e (new-IsNameBlock prev)
          (new-has_room prev name short) text ne lt in
      let (added, beside) = last-IsAdded prev bno taken sbi b ss got is short nz apart in
      let b1 : NameBlock = record b { next_block = taken } in
      let there' =
        ap (λ f. f taken) (linked_names bno taken sbi b)
        ∙ update_ne d.names bno taken (some b1) apart
        ∙ there in
      record {
        d' = filled prev bno taken sbi b;
        e' = (insert_entry_in_list (new_name_block prev) taken name e).1;
        run =
            insert_from_last api dir_bno name e nr_of_blocks d text ne lt fuel prev bno b read h
              last
            ∙ insert_behind_found prev bno taken sbi b old got some_block there'
            ∙ insert_in_new_room prev bno taken sbi b short;
        same_ino = ap (λ x. x.ino) moved;
        same_hash = ap (λ x. x.hash) moved;
        added = added;
        beside = beside;
        placed = last-IsPlaced prev bno taken sbi b short;
      }

  -- Adding a name of at most 255 bytes, none of them zero, of an inode other than 0 that fits 32
  -- bits, to a chain of blocks of names in order, in which no block stands twice, with more rounds
  -- than it has further blocks, and with an allocation that would give a block that can be read,
  -- not 0 and not one of the chain's: it succeeds, whatever the cache holds. What is left is a
  -- chain in order whose listing is the old one with the name put in at one place, and no block of
  -- names outside the chain is written but the one that the allocation gives. The entry keeps its
  -- inode number and hash, and gets the place where its name stands, as the last one of a block.
  pub insert_from_lem :
      (fuel prev bno taken : ℕ) (sbi : SbInfo) (ss : List Dirent) (rest : List (ℕ × List Dirent))
      → IsChain d.names bno ss rest
      → IsApart bno rest
      → length rest < fuel
      → length name ≤ 255
      → get_free_blocks api d.sbi 1 ≡ (taken, sbi)
      → IsSupply d bno rest taken
      → IsInserted api fuel dir_bno prev bno name e nr_of_blocks d ss rest taken
  insert_from_lem zero prev bno taken sbi ss rest chain apart enough short got supply =
      absurd (omega arith)
  insert_from_lem (suc fuel) prev bno taken sbi ss [] (b, read, is, last) apart enough short got
        supply =
      elim (Bool-cases (has_room b name)) [
        | inl h ↦
            here-IsInserted api dir_bno name e nr_of_blocks d text ne lt fuel prev bno taken b ss []
              read is h tt tt (b, read, is, last)
        | inr h ↦
            last-IsInserted fuel prev bno taken sbi b supply.old ss read is last h short got
              supply.found supply.not_zero supply.not_first supply.reads
      ]
  insert_from_lem (suc fuel) prev bno taken sbi ss ((n, ss') ∷ rest) ((b, read, is, next, nz), more)
        (apart, out, later) enough short got supply =
      elim (Bool-cases (has_room b name)) [
        | inl h ↦
            here-IsInserted api dir_bno name e nr_of_blocks d text ne lt fuel prev bno taken b ss
              ((n, ss') ∷ rest) read is h (apart, out) (apart, out, later)
              ((b, read, is, next, nz), more)
        | inr h ↦
            let supply' : IsSupply d n rest taken = record {
              found = supply.found;
              not_zero = supply.not_zero;
              not_first = supply.not_later.0;
              not_later = supply.not_later.1;
              old = supply.old;
              reads = supply.reads;
            } in
            next-IsInserted api dir_bno name e nr_of_blocks d text ne lt fuel prev bno taken n b ss
              ss' rest read is next nz h apart out (λ e. supply.not_first (sym e))
              (insert_from_lem fuel bno n taken sbi ss' rest more later (omega arith) short got
                supply')
      ]
