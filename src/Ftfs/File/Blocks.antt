-- ===== src/Ftfs/File/Blocks.antt =====
-- The blocks of a file of BasicFATFS.
use basic_btfs.Prelude.{
  ℕ, zero, suc, ◌+◌, ◌≤◌, ◌<◌, ◌≡◌, ◌≢◌, Bool, true, Option, none, some, arith, update, ltb, leb,
  ◌||◌, ◌==◌, Bool-cases, inl, inr, ltb→lt, ltb→le, refl,
}
use basic_btfs.Kernel.{BitmapApi}
use basic_btfs.Ftfs.Bitmap.{put_blocks}
use basic_btfs.Ftfs.Disk.{
  max_blocks, Entry, Table, Dirs, Inode, Error, returns, fails, endless, put_table, put_block,
  zero_entry,
}
use basic_btfs.Ftfs.File.{get_block, clean_blocks, clean_file_block}

-- Calls of `basicftfs_file_get_block` in a row, for any file and any block, that answer or fail.
pub data Calls (api : BitmapApi) (d : Dirs) : Dirs → Type 0 where
  no_call : Calls api d d
  answered :
      {d1 d2 : Dirs} (inode : Inode) (iblock : ℕ) (create : Bool) (answer : Option ℕ)
      → Calls api d d1
      → get_block api inode iblock create d1 ≡ returns answer d2
      → Calls api d d2
  refused :
      {d1 d2 : Dirs} (inode : Inode) (iblock : ℕ) (create : Bool) (e : Error)
      → Calls api d d1
      → get_block api inode iblock create d1 ≡ fails e d2
      → Calls api d d2

-- The block that the table in block `bno` maps `iblock` to, 0 for none.
unfoldable mapped : ℕ → ℕ → Dirs → ℕ
mapped bno iblock d = elim (d.tables bno) [ none ↦ 0 | some t ↦ t.table iblock ]

module _ (api : BitmapApi) (inode : Inode) (iblock : ℕ) (create : Bool) where
  first-mapped :
      (b : ℕ) (d d' : Dirs)
      → get_block api inode iblock true d ≡ returns (some b) d'
      → (iblock < max_blocks) × (b ≢ 0) × (mapped inode.i_bno iblock d' ≡ b)
  unfolding get_block put_table update mapped
  first-mapped b d d' run = ground arith

  again :
      (b : ℕ) (d : Dirs)
      → iblock < max_blocks
      → b ≢ 0
      → (mapped inode.i_bno iblock d ≡ b)
      → get_block api inode iblock create d ≡ returns (some b) d
  unfolding get_block mapped
  again b d lt nz is = ground (arith, is)

  answered-mapped :
      (bno i b : ℕ) (answer : Option ℕ) (d d' : Dirs)
      → b ≢ 0
      → get_block api inode iblock create d ≡ returns answer d'
      → mapped bno i d ≡ b
      → mapped bno i d' ≡ b
  unfolding get_block put_table update mapped
  answered-mapped bno i b answer d d' nz run is = ground arith

  refused-mapped :
      (bno i b : ℕ) (e : Error) (d d' : Dirs)
      → get_block api inode iblock create d ≡ fails e d'
      → mapped bno i d ≡ b
      → mapped bno i d' ≡ b
  unfolding get_block put_table update mapped
  refused-mapped bno i b e d d' run is = ground arith

Calls-mapped :
    (api : BitmapApi) (bno i b : ℕ) {d d' : Dirs}
    → b ≢ 0
    → Calls api d d'
    → mapped bno i d ≡ b
    → mapped bno i d' ≡ b
Calls-mapped api bno i b nz no_call is = is
Calls-mapped api bno i b nz (answered inode iblock create answer before run) is =
    answered-mapped api inode iblock create bno i b answer _ _ nz run
      (Calls-mapped api bno i b nz before is)
Calls-mapped api bno i b nz (refused inode iblock create e before run) is =
    refused-mapped api inode iblock create bno i b e _ _ run (Calls-mapped api bno i b nz before is)

-- A block of a file that a call has mapped, allocating it or not, is mapped to the same block by
-- every later call, whatever calls of the function for this or other files and blocks, with an
-- answer or an error, come between, and that call changes nothing.
pub get_block_stable :
    (api : BitmapApi) (inode : Inode) (iblock b : ℕ) (create : Bool) (d d' later : Dirs)
    → get_block api inode iblock true d ≡ returns (some b) d'
    → Calls api d' later
    → get_block api inode iblock create later ≡ returns (some b) later
get_block_stable api inode iblock b create d d' later run calls =
    let (lt, nz, is) = first-mapped api inode iblock true b d d' run in
    again api inode iblock create b later lt nz (Calls-mapped api inode.i_bno iblock b nz calls is)

clean_blocks_endless :
    (api : BitmapApi) (rounds i p : ℕ) (table : ℕ → ℕ) (d : Dirs)
    → (i ≤ p) × (p < max_blocks)
    → ((k : ℕ) → i ≤ k → k ≤ p → table k ≢ 0)
    → d.blocks (table p) ≡ none
    → ((k : ℕ) → i ≤ k → k < p → table k ≢ table p)
    → clean_blocks api rounds i table d ≡ endless
unfolding clean_blocks put_block update
clean_blocks_endless api zero i p table d r nz bad apart = refl
clean_blocks_endless api (suc rounds) i p table d r nz bad apart =
    let d' = record d { sbi = put_blocks api d.sbi (table i) 1 } in
    elim (Bool-cases (ltb i p)) [
      | inl h ↦
          let lt = ltb→lt i p h in
          ground (
            arith,
            nz i,
            clean_blocks_endless api rounds i p table d' r nz bad apart,
            clean_blocks_endless api rounds (i + 1) p table
                (put_block (table i) (λ _. zero_entry) d') (omega arith, omega arith)
                (λ k l. nz k (omega arith)) (ground (arith, apart i))
                (λ k l. apart k (omega arith)),
          )
      | inr h ↦
          let e : i ≡ p = omega (arith, ltb→le i p h) in
          ground (arith, nz i, clean_blocks_endless api rounds i p table d' r nz bad apart)
    ]

-- If a block of a file cannot be read, and the table names it once up to that place and has no gap
-- before, releasing the file never ends: no number of rounds of its loop is enough.
pub clean_file_block_endless :
    (api : BitmapApi) (rounds : ℕ) (inode : Inode) (t : Table) (p : ℕ) (d : Dirs)
    → d.tables inode.i_bno ≡ some t
    → p < max_blocks
    → ((k : ℕ) → k ≤ p → t.table k ≢ 0)
    → d.blocks (t.table p) ≡ none
    → ((k : ℕ) → k < p → t.table k ≢ t.table p)
    → clean_file_block api rounds inode d ≡ endless
unfolding clean_file_block
clean_file_block_endless api rounds inode t p d there lt nz bad apart =
    let run =
      clean_blocks_endless api rounds 0 p t.table d (omega arith, lt) (λ k _ l. nz k l) bad
        λ k _ l. apart k l in
    ground (arith, there, run)

IsAllRead : (ℕ → ℕ) → Dirs → Type 0
IsAllRead table d = (k : ℕ) → table k ≢ 0 → (es : ℕ → Entry) × (d.blocks (table k) ≡ some es)

zeroed-IsAllRead :
    (table : ℕ → ℕ) (bno : ℕ) (d : Dirs)
    → IsAllRead table d
    → IsAllRead table (put_block bno (λ _. zero_entry) d)
unfolding IsAllRead put_block update
zeroed-IsAllRead table bno d all k nz = elim (Bool-cases (table k == bno)) [
  | inl h ↦ (λ _. zero_entry, ground arith)
  | inr h ↦ let (es, read) = all k nz in (es, ground arith)
]

clean_blocks_ends :
    (api : BitmapApi) (rounds i : ℕ) (table : ℕ → ℕ) (d : Dirs)
    → i ≤ max_blocks
    → max_blocks < i + rounds
    → IsAllRead table d
    → (d' : Dirs) × (clean_blocks api rounds i table d ≡ returns tt d')
unfolding clean_blocks IsAllRead
clean_blocks_ends api zero i table d low enough all = absurd (omega arith)
clean_blocks_ends api (suc rounds) i table d low enough all =
    elim (Bool-cases (leb max_blocks i || table i == 0)) [
      | inl h ↦ (d, rw h refl)
      | inr h ↦
          let (es, read) = all i (ground arith) in
          let freed = record d { sbi = put_blocks api d.sbi (table i) 1 } in
          let (d', run) =
            clean_blocks_ends api rounds (i + 1) table (put_block (table i) (λ _. zero_entry) freed)
              (ground arith) (omega arith) (zeroed-IsAllRead table (table i) freed all) in
          (d', rw (h, read) run)
    ]

-- Where every block of the file can be read, the release returns in 1024 rounds.
clean_file_block_ends :
    (api : BitmapApi) (inode : Inode) (t : Table) (d : Dirs)
    → d.tables inode.i_bno ≡ some t
    → IsAllRead t.table d
    → (d' : Dirs) × (clean_file_block api (max_blocks + 1) inode d ≡ returns tt d')
unfolding clean_file_block
clean_file_block_ends api inode t d there all =
    rw (clean_file_block, there)
      (clean_blocks_ends api (max_blocks + 1) 0 t.table d (omega arith) (omega arith) all)
