-- ===== src/Btfs/Names/Insert.antt =====
-- Adding a name to the chain of blocks of names of a directory, BasicBTFS/nametree.h: to its first
-- block or to a later one.
pub mod NewBlock
pub mod Full
use basic_btfs.Prelude.{
  ℕ, zero, suc, ◌+◌, ◌≤◌, ◌<◌, ◌≡◌, ◌≢◌, refl, sym, ap, ◌∙◌, inl, inr, Bool, true, false, Option,
  none, some, List, [], ◌∷◌, ◌++◌, arith, ltb, ◌==◌, if◌then◌else◌, Bool-cases, ne→==, length,
  lt→ltb, update, update_self, update_ne, u32_mod, ◌⊎◌, minus_one, sub32,
}
use mathlib.Core.List.{append_assoc, append-nil}
use basic_btfs.Btfs.Cache.{
  find_dir, cache_update_block, cache_add_name_block, max_cache_blocks_per_dir,
}
use basic_btfs.Kernel.{BitmapApi}
use basic_btfs.Btfs.Super.{SbInfo}
use basic_btfs.Btfs.Bitmap.{get_free_blocks}
use basic_btfs.Btfs.NameBlock.{block_size, name_entry_s_offset, name_entry_size, NameBlock}
use basic_btfs.Btfs.Disk.{Entry, DirCache, Disk, Ret, success, done}
use basic_btfs.Btfs.Names.Bytes.{IsText}
use basic_btfs.Btfs.Names.Slots.{live, live_size, IsNameBlock, end_of}
use basic_btfs.Btfs.Names.Written.{dirent}
use basic_btfs.Btfs.Names.Update.{insert_entry_in_list_lem}
use basic_btfs.Btfs.Names.Chain.{Names, IsChain, NotIn, IsApart, names_of, IsChain-agree}
use basic_btfs.Btfs.Names.{
  Dirent, has_room, insert_entry_in_list, put_names, insert_here, new_name_block, insert_in_new,
  insert_behind, insert_from,
}
use basic_btfs.Btfs.Names.Links.{
  relink-IsNameBlock, new-IsNameBlock, new-has_room, insert_entry-next, new-next, IsChain-put,
  IsChain-first, tail_names, names_of-append,
}

-- The chain with one more name somewhere in its listing; `taken` is a block that it may have got.
pub record IsAdded (d d' : Disk) (bno : ℕ) (ss : List Dirent) (rest : List (ℕ × List Dirent))
    (new : Dirent) (taken : ℕ) : Type 0 where
  pub first : List Dirent
  pub others : List (ℕ × List Dirent)
  pub chain : IsChain d'.names bno first others
  pub before : List Dirent
  pub after : List Dirent
  pub was : names_of ss rest ≡ before ++ after
  pub now : names_of first others ≡ before ++ (new ∷ after)
  pub kept : (x : ℕ) → x ≢ bno → NotIn x rest → x ≢ taken → d'.names x ≡ d.names x

-- What the insertion does beside the names: the tree is kept, a block may be taken, a directory
-- that is not in the cache stays out of it, and every block of names can still be read. The chain
-- has no block twice, and no other block than the old ones and the one that was taken.
pub record IsBeside (api : BitmapApi) (dir_bno bno : ℕ) (d d' : Disk)
    (rest others : List (ℕ × List Dirent)) (taken : ℕ) : Type 0 where
  pub same_node : d'.node ≡ d.node
  pub bits :
      ((d'.sbi ≡ d.sbi) × ((x : ℕ) → NotIn x rest → NotIn x others))
      ⊎ (d'.sbi ≡ (get_free_blocks api d.sbi 1).1)
  pub uncached : find_dir dir_bno d.dir_cache ≡ none → find_dir dir_bno d'.dir_cache ≡ none
  pub reads :
      (x : ℕ) (b : NameBlock) → d.names x ≡ some b → (b' : NameBlock) × (d'.names x ≡ some b')
  pub apart : IsApart bno others
  pub blocks : (x : ℕ) → NotIn x rest → x ≢ taken → NotIn x others

pub cache_update_block-uncached :
    (dir_bno name_bno : ℕ) (b : NameBlock) (cs : List DirCache)
    → find_dir dir_bno cs ≡ none
    → find_dir dir_bno (cache_update_block dir_bno b name_bno cs) ≡ none
unfolding find_dir cache_update_block
cache_update_block-uncached dir_bno name_bno b [] none_there = refl
cache_update_block-uncached dir_bno name_bno b (c ∷ cs) none_there =
    elim (Bool-cases (c.bno == dir_bno)) [
      | inl h ↦ ground (arith, none_there)
      | inr h ↦
          let below : find_dir dir_bno cs ≡ none = ground (arith, none_there) in
          let ih = cache_update_block-uncached dir_bno name_bno b cs below in ground (arith, ih)
    ]

pub update-reads :
    (names : Names) (bno x : ℕ) (b old : NameBlock)
    → names x ≡ some old
    → (b' : NameBlock) × (update names bno (some b) x ≡ some b')
unfolding update
update-reads names bno x b old at = elim (Bool-cases (x == bno)) [
  | inl h ↦ (b, rw h refl)
  | inr h ↦ (old, rw h at)
]

-- The entry says where its name stands: the last one of a block in order.
pub record IsPlaced (d' : Disk) (e' : Entry) (new : Dirent) : Type 0 where
  pub block : NameBlock
  pub pre : List Dirent
  pub at : d'.names e'.name_bno ≡ some block
  pub order : IsNameBlock block (pre ++ (new ∷ []))
  pub index : e'.block_index ≡ end_of name_entry_s_offset pre

-- What a successful insertion returns, and the state that it leaves.
pub record IsInserted (api : BitmapApi) (fuel dir_bno prev bno : ℕ) (name : List ℕ) (e : Entry)
    (nr_of_blocks : ℕ) (d : Disk) (ss : List Dirent) (rest : List (ℕ × List Dirent)) (taken : ℕ)
    : Type 0 where
  pub d' : Disk
  pub e' : Entry
  pub run : insert_from api fuel dir_bno prev bno name e nr_of_blocks d ≡ done (success, e') d'
  pub same_ino : e'.ino ≡ e.ino
  pub same_hash : e'.hash ≡ e.hash
  pub added : IsAdded d d' bno ss rest (dirent e.ino name) taken
  pub beside : IsBeside api dir_bno bno d d' rest added.others taken
  pub placed : IsPlaced d' e' (dirent e.ino name)

module _ (api : BitmapApi) (dir_bno : ℕ) (name : List ℕ) (e : Entry) (nr_of_blocks : ℕ) (d : Disk)
    (text : IsText name) (ne : e.ino ≢ 0) (lt : e.ino < u32_mod) where
  abbrev new : Dirent
  new = dirent e.ino name

  insert_from_here :
      (fuel prev bno : ℕ) (b : NameBlock)
      → d.names bno ≡ some b
      → has_room b name ≡ true
      → insert_from api (suc fuel) dir_bno prev bno name e nr_of_blocks d
        ≡ insert_here dir_bno b bno name e d
  unfolding insert_from
  insert_from_here fuel prev bno b read h = rw (insert_from, read, h) refl

  pub insert_from_rest :
      (fuel prev bno : ℕ) (b : NameBlock)
      → d.names bno ≡ some b
      → has_room b name ≡ false
      → b.next_block ≢ 0
      → insert_from api (suc fuel) dir_bno prev bno name e nr_of_blocks d
        ≡ insert_from api fuel dir_bno bno b.next_block name e nr_of_blocks d
  unfolding insert_from
  insert_from_rest fuel prev bno b read h nz =
      rw (insert_from, read, h, ne→== b.next_block 0 nz) refl

  pub insert_from_last :
      (fuel prev bno : ℕ) (b : NameBlock)
      → d.names bno ≡ some b
      → has_room b name ≡ false
      → b.next_block ≡ 0
      → insert_from api (suc fuel) dir_bno prev bno name e nr_of_blocks d
        ≡ insert_behind api dir_bno prev bno b name e nr_of_blocks d
  unfolding insert_from
  insert_from_last fuel prev bno b read h z = rw (insert_from, read, h, z) refl

  -- The first block of the chain has room.
  pub here-IsInserted :
      (fuel prev bno taken : ℕ) (b : NameBlock) (ss : List Dirent) (rest : List (ℕ × List Dirent))
      → d.names bno ≡ some b
      → IsNameBlock b ss
      → has_room b name ≡ true
      → NotIn bno rest
      → IsApart bno rest
      → IsChain d.names bno ss rest
      → IsInserted api (suc fuel) dir_bno prev bno name e nr_of_blocks d ss rest taken
  here-IsInserted fuel prev bno taken b ss rest read is h out alone chain =
      let (is', listing, moved) = insert_entry_in_list_lem b ss bno name e is h text ne lt in
      let (b', e') = insert_entry_in_list b bno name e in
      record {
        d' = record (put_names bno b' d) {
          dir_cache = cache_update_block dir_bno b' bno d.dir_cache;
        };
        e' = e';
        run = insert_from_here fuel prev bno b read h ∙ unfold insert_here in refl;
        same_ino = ap (λ x. x.ino) moved;
        same_hash = ap (λ x. x.hash) moved;
        added =
            unfold put_names in
            record {
              first = ss ++ (new ∷ []);
              others = rest;
              chain =
                  IsChain-first d.names b b' bno ss (ss ++ (new ∷ [])) rest read
                    (insert_entry-next b bno name e) is' out chain;
              before = live ss;
              after = tail_names rest;
              was = names_of-append ss rest;
              now =
                  names_of-append (ss ++ (new ∷ [])) rest
                  ∙ rw listing (append_assoc (live ss) (new ∷ []) (tail_names rest));
              kept = λ x l r f. update_ne d.names bno x (some b') l;
            };
        beside =
            unfold put_names in
            record {
              same_node = refl;
              bits = inl (refl, λ x l. l);
              uncached = cache_update_block-uncached dir_bno bno b' d.dir_cache;
              reads = λ x o at. update-reads d.names bno x b' o at;
              apart = alone;
              blocks = λ x l r. l;
            };
        placed =
            unfold put_names in
            rw moved (record {
              block = b';
              pre = ss;
              at = update_self d.names bno (some b');
              order = is';
              index = refl;
            });
      }

  -- A later block takes the name, or a new one behind the last.
  pub next-IsInserted :
      (fuel prev bno taken n : ℕ) (b : NameBlock) (ss ss' : List Dirent)
      (rest : List (ℕ × List Dirent))
      → d.names bno ≡ some b
      → IsNameBlock b ss
      → b.next_block ≡ n
      → n ≢ 0
      → has_room b name ≡ false
      → bno ≢ n
      → NotIn bno rest
      → bno ≢ taken
      → IsInserted api fuel dir_bno bno n name e nr_of_blocks d ss' rest taken
      → IsInserted api (suc fuel) dir_bno prev bno name e nr_of_blocks d ss ((n, ss') ∷ rest) taken
  unfolding names_of
  next-IsInserted fuel prev bno taken n b ss ss' rest read is next nz h apart out fresh more =
      let a = more.added in
      let b' = more.beside in
      record {
        d' = more.d';
        e' = more.e';
        run = insert_from_rest fuel prev bno b read h (rw next nz) ∙ rw next more.run;
        same_ino = more.same_ino;
        same_hash = more.same_hash;
        added = record {
          first = ss;
          others = (n, a.first) ∷ a.others;
          chain = ((b, a.kept bno apart out fresh ∙ read, is, next, nz), a.chain);
          before = live ss ++ a.before;
          after = a.after;
          was = rw a.was (sym (append_assoc (live ss) a.before a.after));
          now = rw a.now (sym (append_assoc (live ss) a.before (new ∷ a.after)));
          kept = λ x l r f. a.kept x r.0 r.1 f;
        };
        beside = record {
          same_node = b'.same_node;
          bits = elim b'.bits [
            | inl (same, out') ↦ inl (same, λ x l. (l.0, out' x l.1))
            | inr more_used ↦ inr more_used
          ];
          uncached = b'.uncached;
          reads = b'.reads;
          apart = (apart, b'.blocks bno out fresh, b'.apart);
          blocks = λ x l r. (l.0, b'.blocks x l.1 r);
        };
        placed = more.placed;
      }
