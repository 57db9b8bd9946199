-- ===== src/Btfs/Names/Insert/Full.antt =====
-- Adding a name to a chain of blocks of names without room, where no block is free,
-- BasicBTFS/nametree.h: the chain is left cut off.
use basic_btfs.Prelude.{
  ℕ, zero, suc, ◌<◌, ◌≡◌, ◌≢◌, refl, sym, ap, ◌∙◌, false, none, some, List, [], ◌∷◌, arith, length,
  update, update_self, update_ne, u32_mod, minus_one,
}
use mathlib.Core.Path.{subst}
use basic_btfs.Kernel.{BitmapApi}
use basic_btfs.Btfs.Super.{SbInfo}
use basic_btfs.Btfs.Bitmap.{get_free_blocks}
use basic_btfs.Btfs.NameBlock.{NameBlock}
use basic_btfs.Btfs.Disk.{Entry, Disk, enospc, done}
use basic_btfs.Btfs.Names.Bytes.{IsText}
use basic_btfs.Btfs.Names.Chain.{Names, IsChain, NotIn, IsApart}
use basic_btfs.Btfs.Names.{Dirent, has_room, put_names, insert_behind, insert_from}
use basic_btfs.Btfs.Names.Insert.{insert_from_last, insert_from_rest}

-- No block of the chain has room for the name.
abbrev pub NoRoom : Names → List ℕ → ℕ → List (ℕ × List Dirent) → Type 0
NoRoom names name bno [] = (b : NameBlock) → names bno ≡ some b → has_room b name ≡ false
NoRoom names name bno ((n, ss) ∷ rest) =
    ((b : NameBlock) → names bno ≡ some b → has_room b name ≡ false) × NoRoom names name n rest

-- The state that is left: the block at the end names a next block that cannot be read, so that no
-- chain starts at the first block any more.
pub record IsCut (d d' : Disk) (sbi : SbInfo) (bno : ℕ) (rest : List (ℕ × List Dirent))
    : Type 0 where
  pub same_node : d'.node ≡ d.node
  pub same_cache : d'.dir_cache ≡ d.dir_cache
  pub lost : d'.sbi ≡ sbi
  pub cut :
      (ss' : List Dirent) (rest' : List (ℕ × List Dirent)) → IsChain d'.names bno ss' rest' → ⊥
  pub kept : (x : ℕ) → x ≢ bno → NotIn x rest → d'.names x ≡ d.names x

no_chain_nowhere :
    (names : Names) (bno : ℕ)
    → names bno ≡ none
    → (ss : List Dirent) (rest : List (ℕ × List Dirent)) → IsChain names bno ss rest
    → ⊥
no_chain_nowhere names bno at ss [] (b, read, is, last) = absurd (cc)
no_chain_nowhere names bno at ss ((n, ss') ∷ rest) ((b, read, is, next, nz), more) = absurd (cc)

-- No chain starts at a block in front of one where none starts.
no_chain :
    (names : Names) (bno : ℕ) (b : NameBlock)
    → names bno ≡ some b
    → b.next_block ≢ 0
    → ((ss : List Dirent) (rest : List (ℕ × List Dirent)) → IsChain names b.next_block ss rest → ⊥)
    → (ss : List Dirent) (rest : List (ℕ × List Dirent)) → IsChain names bno ss rest
    → ⊥
no_chain names bno b at nz cut ss [] (b', read, is, last) =
    let same : b ≡ b' = cc in nz (ap (λ c. c.next_block) same ∙ last)
no_chain names bno b at nz cut ss ((n, ss') ∷ rest) ((b', read, is, next, nz'), more) =
    let same : b ≡ b' = cc in
    let there : n ≡ b.next_block = sym (ap (λ c. c.next_block) same ∙ next) in
    cut ss' rest (subst (λ x. IsChain names x ss' rest) there more)

module _ (api : BitmapApi) (dir_bno : ℕ) (name : List ℕ) (e : Entry) (nr_of_blocks : ℕ) (d : Disk)
    (sbi : SbInfo) (text : IsText name) (ne : e.ino ≢ 0) (lt : e.ino < u32_mod)
    (full : get_free_blocks api d.sbi 1 ≡ (minus_one, sbi))
    (nowhere : d.names minus_one ≡ none) where
  -- The last block with the number -1 behind it.
  left : ℕ → NameBlock → Disk
  left bno b = record (put_names bno (record b { next_block = minus_one }) d) { sbi = sbi }

  insert_behind_full :
      (prev bno : ℕ) (b : NameBlock)
      → insert_behind api dir_bno prev bno b name e nr_of_blocks d ≡ done (enospc, e) (left bno b)
  unfolding insert_behind left
  insert_behind_full prev bno b = rw (insert_behind, full) refl

  nowhere_read : (bno : ℕ) (b : NameBlock) → d.names bno ≡ some b → minus_one ≢ bno
  nowhere_read bno b read h =
      let both : none ≡ some b = sym nowhere ∙ ap d.names h ∙ read in absurd (cc)

  left-IsCut : (bno : ℕ) (b : NameBlock) → d.names bno ≡ some b → IsCut d (left bno b) sbi bno []
  unfolding left put_names
  left-IsCut bno b read =
      let b1 : NameBlock = record b { next_block = minus_one } in
      let at = update_self d.names bno (some b1) in
      record {
        same_node = refl;
        same_cache = refl;
        lost = refl;
        cut = no_chain (update d.names bno (some b1)) bno b1 at (omega arith) (
            no_chain_nowhere (update d.names bno (some b1)) minus_one (
              update_ne d.names bno minus_one (some b1) (λ h. nowhere_read bno b read h)
              ∙ nowhere));
        kept = λ x l _. update_ne d.names bno x (some b1) l;
      }

  pub insert_from_full :
      (fuel prev bno : ℕ) (ss : List Dirent) (rest : List (ℕ × List Dirent))
      → IsChain d.names bno ss rest
      → IsApart bno rest
      → NoRoom d.names name bno rest
      → length rest < fuel
      → (d' : Disk) × (insert_from api fuel dir_bno prev bno name e nr_of_blocks d
          ≡ done (enospc, e) d')
        × IsCut d d' sbi bno rest
  insert_from_full zero prev bno ss rest chain apart tight enough = absurd (omega arith)
  insert_from_full (suc fuel) prev bno ss [] (b, read, is, last) apart tight enough = (
    left bno b,
    insert_from_last api dir_bno name e nr_of_blocks d text ne lt fuel prev bno b read
          (tight b read) last
        ∙ insert_behind_full prev bno b,
    left-IsCut bno b read,
  )
  insert_from_full (suc fuel) prev bno ss ((n, ss') ∷ rest) ((b, read, is, next, nz), more)
        (apart, out, later) (tight, tighter) enough =
      let (d', run, c) = insert_from_full fuel bno n ss' rest more later tighter (omega arith) in
      (
        d',
        insert_from_rest api dir_bno name e nr_of_blocks d text ne lt fuel prev bno b read
              (tight b read) (rw next nz)
            ∙ rw next run,
        record {
          same_node = c.same_node;
          same_cache = c.same_cache;
          lost = c.lost;
          cut = no_chain d'.names bno b (c.kept bno apart out ∙ read) (rw next nz) (rw next c.cut);
          kept = λ x l r. c.kept x r.0 r.1;
        },
      )
