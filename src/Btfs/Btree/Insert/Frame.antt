-- ===== src/Btfs/Btree/Insert/Frame.antt =====
-- What `basicbtfs_btree_insert_non_full` leaves alone: the blocks of names, the list of cached
-- directories and the number of blocks.
use basic_btfs.Prelude.{
  ℕ, zero, suc, ◌≡◌, refl, ◌∙◌, Bool, true, false, Option, none, some, leb, ◌==◌, arith,
  if◌then◌else◌, minus_one,
}
use mathlib.Core.Path.{subst}
use basic_btfs.Kernel.{BitmapApi}
use basic_btfs.Btfs.Super.{SbInfo}
use basic_btfs.Btfs.Bitmap.{get_free_blocks}
use basic_btfs.Btfs.Disk.{
  max_keys, Entry, Node, Disk, Ret, success, eio, enospc, failed, Run, done, fault, out_of_fuel,
  Cmd, ◌>>=◌, and_then, on_success, with_node, put_node,
}
use basic_btfs.Btfs.Btree.Insert.{split_child, insert_non_full}

abbrev pub Leaves : {A : Type 0} → Disk → Run A → Type 0
Leaves d (done a d') =
    (d'.names ≡ d.names) × (d'.dir_cache ≡ d.dir_cache) × (d'.sbi.s_nblocks ≡ d.sbi.s_nblocks)
Leaves d fault = Unit {0}
Leaves d out_of_fuel = Unit {0}

abbrev pub Keeps : {A : Type 0} → Cmd A → Type 0
Keeps m = (d : Disk) → Leaves d (m d)

-- A step that leaves them alone, and a run.
pub Leaves-after :
    {A : Type 0} (d d' : Disk) (r : Run A)
    → (d'.names ≡ d.names) × (d'.dir_cache ≡ d.dir_cache) × (d'.sbi.s_nblocks ≡ d.sbi.s_nblocks)
    → Leaves d' r
    → Leaves d r
Leaves-after d d' (done b d'') (names, cache, size) (names', cache', size') =
    (names' ∙ names, cache' ∙ cache, size' ∙ size)
Leaves-after d d' fault same same' = tt
Leaves-after d d' out_of_fuel same same' = tt

pub Leaves-done :
    {A : Type 0} (d d' : Disk) (a : A) (r : Run A)
    → r ≡ done a d'
    → Leaves d r
    → (d'.names ≡ d.names) × (d'.dir_cache ≡ d.dir_cache) × (d'.sbi.s_nblocks ≡ d.sbi.s_nblocks)
Leaves-done d d' a r run = subst (Leaves d) run

pub Leaves-if :
    {A : Type 0} (d : Disk) (c : Bool) (r r' : Run A)
    → Leaves d r
    → Leaves d r'
    → Leaves d (if c then r else r')
Leaves-if d true r r' one two = one
Leaves-if d false r r' one two = two

module _ {A B : Type 0} where
  Leaves-then :
      (r : Run A) (k : A → Cmd B) (d : Disk)
      → Leaves d r
      → ((a : A) → Keeps (k a))
      → Leaves d (and_then r k)
  Leaves-then (done a d') k d same rest = Leaves-after d d' (k a d') same (rest a d')
  Leaves-then fault k d same rest = tt
  Leaves-then out_of_fuel k d same rest = tt

  pub Keeps-then : (m : Cmd A) (k : A → Cmd B) → Keeps m → ((a : A) → Keeps (k a)) → Keeps (m >>= k)
  Keeps-then m k first rest d = Leaves-then (m d) k d (first d) rest

module _ (failure : Ret) (k : Node → Cmd Ret) (each : (n : Node) → Keeps (k n)) where
  Leaves-read :
      (o : Option Node) (d : Disk) → Leaves d (elim o [ none ↦ done failure d | some n ↦ k n d ])
  Leaves-read none d = (refl, refl, refl)
  Leaves-read (some n) d = each n d

  pub Keeps-with_node : (bno : ℕ) → Keeps (with_node bno failure k)
  Keeps-with_node bno d = Leaves-read (d.node bno) d

pub Keeps-on_success : (ret : Ret) (k : Cmd Ret) → Keeps k → Keeps (on_success ret k)
Keeps-on_success success k same d = same d
Keeps-on_success eio k same d = (refl, refl, refl)
Keeps-on_success enospc k same d = (refl, refl, refl)
Keeps-on_success failed k same d = (refl, refl, refl)

pub Keeps-if : (c : Bool) (m m' : Cmd Ret) → Keeps m → Keeps m' → Keeps (if c then m else m')
Keeps-if true m m' one two = one
Keeps-if false m m' one two = two

Keeps-success : Keeps (done success)
Keeps-success d = (refl, refl, refl)

Keeps-fault : Keeps {A = Ret} (λ _. fault)
Keeps-fault d = tt

module _ (api : BitmapApi) where
  get_free_blocks-s_nblocks :
      (sbi : SbInfo) (n : ℕ) → (get_free_blocks api sbi n).1.s_nblocks ≡ sbi.s_nblocks
  unfolding get_free_blocks
  get_free_blocks-s_nblocks sbi n = ground arith

  split_child-Keeps : (par lhs index : ℕ) → Keeps (split_child api par lhs index)
  unfolding split_child put_node
  split_child-Keeps par lhs index d =
      let (rhs, sbi) = get_free_blocks api d.sbi 1 in
      let d' : Disk = record d { sbi = sbi } in
      let size = get_free_blocks-s_nblocks d.sbi 1 in
      Leaves-if d (rhs == minus_one) (done enospc d') _ (refl, refl, size)
        (Leaves-after d d' _ (refl, refl, size)
          (Keeps-with_node eio _
            (λ node_par.
              Keeps-with_node eio _
                (λ node_lhs.
                  Keeps-with_node eio _
                    (λ _.
                      Keeps-if (leb max_keys node_par.nr_of_keys) _ _ Keeps-fault
                        λ d''. (refl, refl, refl))
                    rhs)
                lhs)
            par d'))

  pub insert_non_full-Keeps : (fuel bno : ℕ) (e : Entry) → Keeps (insert_non_full api fuel bno e)
  unfolding insert_non_full put_node
  insert_non_full-Keeps zero bno e d = tt
  insert_non_full-Keeps (suc fuel) bno e d =
      Keeps-with_node eio _
        (λ n.
          Keeps-if n.leaf _ _
            (Keeps-if (leb max_keys n.nr_of_keys) _ _ Keeps-fault λ d'. (refl, refl, refl))
            (Keeps-with_node eio _
              (λ child.
                Keeps-if (child.nr_of_keys == max_keys) _ _
                  (Keeps-then _ _ (split_child-Keeps bno _ _) (λ ret. Keeps-on_success ret _ (
                    Keeps-with_node eio _
                      (λ n'. Keeps-then _ _ (insert_non_full-Keeps fuel _ e) λ _. Keeps-success)
                      bno)))
                  (Keeps-then _ _ (insert_non_full-Keeps fuel _ e) λ _. Keeps-success))
              _))
        bno d
