-- ===== src/Btfs/Names/Chain.antt =====
-- The chain of the blocks of names of a directory, and its listing, BasicBTFS/nametree.h.
use basic_btfs.Prelude.{
  ℕ, zero, suc, ◌+◌, ◌<◌, ◌≡◌, ◌≢◌, refl, sym, ap, ◌∙◌, inl, inr, Bool, Option, some, List, [], ◌∷◌,
  ◌++◌, ◌⊎◌, arith, ltb, if◌then◌else◌, Bool-cases, ne→==, length,
}
use basic_btfs.Btfs.NameBlock.{NameBlock}
use basic_btfs.Btfs.Disk.{Ret, success}
use basic_btfs.Btfs.Names.Slots.{live, IsNameBlock}
use basic_btfs.Btfs.Names.Listing.{offer, emit_block_lem}
use basic_btfs.Btfs.Names.{
  Dirent, DirContext, Walk, walked, refused, outside, cut_off, next_walk, emit_block, iterate_from,
}

abbrev pub Names : Type 0
Names = ℕ → Option NameBlock

-- The chain that starts at `bno` with the entries `ss`; `rest` are the later blocks with theirs.
abbrev pub IsChain : Names → ℕ → List Dirent → List (ℕ × List Dirent) → Type 0
IsChain names bno ss [] =
    (b : NameBlock) × (names bno ≡ some b) × IsNameBlock b ss × (b.next_block ≡ 0)
IsChain names bno ss ((next, ss') ∷ rest) =
    ((b : NameBlock) × (names bno ≡ some b) × IsNameBlock b ss × (b.next_block ≡ next) × (next ≢ 0))
    × IsChain names next ss' rest

abbrev pub NotIn : ℕ → List (ℕ × List Dirent) → Type 0
NotIn x [] = Unit {0}
NotIn x ((n, ss) ∷ rest) = (x ≢ n) × NotIn x rest

-- No block stands in the chain twice.
abbrev pub IsApart : ℕ → List (ℕ × List Dirent) → Type 0
IsApart bno [] = Unit {0}
IsApart bno ((n, ss) ∷ rest) = (bno ≢ n) × NotIn bno rest × IsApart n rest

-- The names that are not deleted, in the order of the chain.
unfoldable pub names_of : List Dirent → List (ℕ × List Dirent) → List Dirent
names_of ss [] = live ss
names_of ss ((n, ss') ∷ rest) = live ss ++ names_of ss' rest

-- The names of the blocks up to whose end there are more than `start_pos` names.
unfoldable pub names_from : ℕ → ℕ → List Dirent → List (ℕ × List Dirent) → List Dirent
names_from start_pos total ss [] = if ltb start_pos (total + length (live ss)) then live ss else []
names_from start_pos total ss ((n, ss') ∷ rest) =
    (if ltb start_pos (total + length (live ss)) then live ss else [])
    ++ names_from start_pos (total + length (live ss)) ss' rest

pub IsChain-agree :
    (names names' : Names) (bno : ℕ) (ss : List Dirent) (rest : List (ℕ × List Dirent))
    → names' bno ≡ names bno
    → ((x : ℕ) → (NotIn x rest → ⊥) → names' x ≡ names x)
    → IsChain names bno ss rest
    → IsChain names' bno ss rest
IsChain-agree names names' bno ss [] e same (b, read, is, last) = (b, e ∙ read, is, last)
IsChain-agree names names' bno ss ((n, ss') ∷ rest) e same ((b, read, is, next, ne), more) = (
  (b, e ∙ read, is, next, ne),
  IsChain-agree names names' n ss' rest (same n λ h. h.0 refl) (λ x h. same x λ k. h k.1) more,
)

module _ (accepts : List Dirent → Dirent → Bool) where
  -- Offering two lists, one after the other.
  offer_append :
      (xs ys : List Dirent) (ctx : DirContext)
      → offer accepts (xs ++ ys) ctx ≡ (elim (offer accepts xs ctx) [
        | walked ctx' ↦ offer accepts ys ctx'
        | refused ctx' ↦ refused ctx'
        | outside ↦ outside
        | cut_off ↦ cut_off
      ])
  unfolding offer
  offer_append [] ys ctx = refl
  offer_append (x ∷ xs) ys ctx =
      let ctx' = record ctx { emitted = ctx.emitted ++ (x ∷ []); pos = ctx.pos + 1 } in
      elim (Bool-cases (accepts ctx.emitted x)) [
        | inl a ↦ rw a (offer_append xs ys ctx')
        | inr a ↦ rw a refl
      ]

  -- How an offer ends.
  offer_cases :
      (xs : List Dirent) (ctx : DirContext)
      → ((c : DirContext) × (offer accepts xs ctx ≡ walked c))
        ⊎ ((c : DirContext) × (offer accepts xs ctx ≡ refused c))
  unfolding offer
  offer_cases [] ctx = inl (ctx, refl)
  offer_cases (x ∷ xs) ctx =
      let ctx' = record ctx { emitted = ctx.emitted ++ (x ∷ []); pos = ctx.pos + 1 } in
      elim (Bool-cases (accepts ctx.emitted x)) [
        | inl a ↦ rw a (offer_cases xs ctx')
        | inr a ↦ rw a (inr (ctx, refl))
      ]

  block_names : ℕ → ℕ → List Dirent → List Dirent
  block_names start_pos total ss = if ltb start_pos (total + length (live ss)) then live ss else []

  emit_block-offer :
      (b : NameBlock) (ss : List Dirent) (total start_pos : ℕ) (ctx : DirContext)
      → IsNameBlock b ss
      → emit_block accepts b total ctx start_pos
        ≡ offer accepts (block_names start_pos total ss) ctx
  unfolding block_names offer
  emit_block-offer b ss total start_pos ctx is =
      emit_block_lem accepts b ss total start_pos ctx is
      ∙ (elim (Bool-cases (ltb start_pos (total + length (live ss)))) [
        | inl h ↦ rw h refl
        | inr h ↦ rw h refl
      ])

  abbrev answer : Walk → Ret × Walk
  answer w = (success, w)

  iterate_from_next :
      (fuel : ℕ) (names : Names) (bno total start_pos : ℕ) (ctx : DirContext) (b : NameBlock)
      (ss : List Dirent)
      → names bno ≡ some b
      → IsNameBlock b ss
      → iterate_from accepts (suc fuel) names bno total ctx start_pos
        ≡ next_walk b.next_block
            (λ c.
              iterate_from accepts fuel names b.next_block (total + b.nr_of_entries) c start_pos)
            (offer accepts (block_names start_pos total ss) ctx)
  unfolding iterate_from
  iterate_from_next fuel names bno total start_pos ctx b ss e is =
      (rw (iterate_from, e) refl)
      ∙ ap
          (next_walk b.next_block
            λ c. iterate_from accepts fuel names b.next_block (total + b.nr_of_entries) c start_pos)
          (emit_block-offer b ss total start_pos ctx is)

  -- With more rounds than the chain has further blocks, listing a chain of blocks of names in order
  -- succeeds, with any reader and from any position. It offers the names that are not deleted,
  -- block by block and in order, until the reader refuses one. Only a block whose names are all
  -- counted before the position is passed over: of a block that the position divides, every name is
  -- offered.
  pub iterate_from_lem :
      (fuel : ℕ) (names : Names) (bno total start_pos : ℕ) (ctx : DirContext) (ss : List Dirent)
      (rest : List (ℕ × List Dirent))
      → IsChain names bno ss rest
      → length rest < fuel
      → iterate_from accepts fuel names bno total ctx start_pos
        ≡ (success, offer accepts (names_from start_pos total ss rest) ctx)
  unfolding names_from block_names
  iterate_from_lem zero names bno total start_pos ctx ss rest is lt = absurd (omega arith)
  iterate_from_lem (suc fuel) names bno total start_pos ctx ss [] (b, e, is, last) lt =
      iterate_from_next fuel names bno total start_pos ctx b ss e is
      ∙ (elim (offer_cases (block_names start_pos total ss) ctx) [
        | inl (c, o) ↦ rw (o, last) refl
        | inr (c, o) ↦ rw o refl
      ])
  iterate_from_lem (suc fuel) names bno total start_pos ctx ss ((n, ss') ∷ rest)
        ((b, e, is, next, ne), more) lt =
      iterate_from_next fuel names bno total start_pos ctx b ss e is
      ∙ (elim (offer_cases (block_names start_pos total ss) ctx) [
        | inl (c, o) ↦
            let go = ne→== n 0 ne in
            let more' =
              iterate_from_lem fuel names n (total + length (live ss)) start_pos c ss' rest more
                (omega arith) in
            let whole =
              offer_append (block_names start_pos total ss)
                (names_from start_pos (total + length (live ss)) ss' rest) ctx in
            rw (o, next, go, is.count) (more' ∙ ap answer (sym (rw o at whole)))
        | inr (c, o) ↦
            let whole =
              offer_append (block_names start_pos total ss)
                (names_from start_pos (total + length (live ss)) ss' rest) ctx in
            rw o (ap answer (sym (rw o at whole)))
      ])
