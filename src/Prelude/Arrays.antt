-- ===== src/Prelude/Arrays.antt =====
-- C arrays as functions of the index, and the copying loops that the sources repeat.
use Prim.Native.Nat.{ℕ, zero, suc, ◌+◌, ◌-◌}
use mathlib.Core.Path.{◌≡◌}
use mathlib.Core.Logic.{◌≢◌}
use mathlib.Core.Bool.{◌&&◌}
use mathlib.Core.List.{List, [], ◌∷◌, ◌++◌}
use native.Mathlib.Omega.{arith}
use basic_btfs.Prelude.Tests.{ltb, leb, ◌==◌, if◌then◌else◌}

module _ {ℓ} {A : Type ℓ} where
  abbrev pub length : List A → ℕ
  length [] = 0
  length (x ∷ xs) = suc (length xs)

  -- `a[i] = v`.
  unfoldable pub update : (ℕ → A) → ℕ → A → ℕ → A
  update a i v j = if j == i then v else a j

  -- `for (i = lo + n - 1; i >= lo; i--) a[i + 1] = a[i];`
  unfoldable pub shift_up : ℕ → ℕ → (ℕ → A) → ℕ → A
  shift_up zero lo a = a
  shift_up (suc n) lo a = shift_up n lo (update a (lo + n + 1) (a (lo + n)))

  -- `for (i = lo + 1; i < lo + 1 + n; i++) a[i - 1] = a[i];`
  unfoldable pub shift_down : ℕ → ℕ → (ℕ → A) → ℕ → A
  shift_down zero lo a = a
  shift_down (suc n) lo a = shift_down n (lo + 1) (update a lo (a (lo + 1)))

  -- `for (i = k; i < k + n; i++) dst[i + to] = src[i + from];`
  unfoldable pub copy_range : ℕ → ℕ → ℕ → ℕ → (ℕ → A) → (ℕ → A) → ℕ → A
  copy_range zero k to from src dst = dst
  copy_range (suc n) k to from src dst =
      copy_range n (k + 1) to from src (update dst (k + to) (src (k + from)))

module _ {A : Type 0} where
  pub length-append : (xs ys : List A) → length (xs ++ ys) ≡ length xs + length ys
  length-append [] ys = omega arith
  length-append (x ∷ xs) ys = omega (arith, length-append xs ys)

  pub update_self : (a : ℕ → A) (i : ℕ) (v : A) → update a i v i ≡ v
  unfolding update
  update_self a i v = ground arith

  pub update_ne : (a : ℕ → A) (i j : ℕ) (v : A) → j ≢ i → update a i v j ≡ a j
  unfolding update
  update_ne a i j v h = ground arith

  -- What the loop leaves: the block moved one place up, its first slot kept.
  pub shift_up_at :
      (n lo : ℕ) (a : ℕ → A) (j : ℕ)
      → shift_up n lo a j ≡ (if ltb lo j && leb j (lo + n) then a (j - 1) else a j)
  unfolding shift_up update
  shift_up_at zero lo a j = ground arith
  shift_up_at (suc n) lo a j =
      ground (arith, shift_up_at n lo (update a (lo + n + 1) (a (lo + n))) j)

  pub shift_down_at :
      (n lo : ℕ) (a : ℕ → A) (j : ℕ)
      → shift_down n lo a j ≡ (if leb lo j && ltb j (lo + n) then a (j + 1) else a j)
  unfolding shift_down update
  shift_down_at zero lo a j = ground arith
  shift_down_at (suc n) lo a j =
      ground (arith, shift_down_at n (lo + 1) (update a lo (a (lo + 1))) j)

  pub copy_range_at :
      (n k to from : ℕ) (src dst : ℕ → A) (j : ℕ)
      → copy_range n k to from src dst j
        ≡ (if leb (k + to) j && ltb j (k + to + n) then src (j - to + from) else dst j)
  unfolding copy_range update
  copy_range_at zero k to from src dst j = ground arith
  copy_range_at (suc n) k to from src dst j =
      ground (arith, copy_range_at n (k + 1) to from src (update dst (k + to) (src (k + from))) j)
