-- ===== src/Ftfs/Iterate/Tests.antt =====
-- A listing of a directory of 16 entries in two blocks, BasicFATFS.
use basic_btfs.Prelude.{◌≡◌, refl, ◌++◌, true, some, [], arith}
use basic_btfs.Ftfs.Disk.{entries_per_dir}
use basic_btfs.Ftfs.Tests.{at, slots, sixteen, state, dir, sixteen-IsDir}
use basic_btfs.Ftfs.Iterate.{DirContext, listed, iterate}
use basic_btfs.Ftfs.Iterate.Correct.{entries_from, iterate_lem}

abbrev start : DirContext
start = record { pos = 2; emitted = [] }

iterate_lem_example :
    (c' : DirContext) × (iterate (λ _ _. true) (λ c. some c) dir start (state sixteen 16)
      ≡ listed c')
    × (c'.emitted ≡ [] ++ entries_from at 16 entries_per_dir 0)
iterate_lem_example =
    iterate_lem (λ _ _. true) (λ c. some c) dir start start (state sixteen 16) sixteen (slots 16) at
      16 (λ _ _. refl) (omega arith) refl refl sixteen-IsDir
