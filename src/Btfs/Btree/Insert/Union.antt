-- ===== src/Btfs/Btree/Insert/Union.antt =====
-- The blocks of some of the children of a node.
use basic_btfs.Prelude.{
  ℕ, zero, suc, ◌+◌, ◌≤◌, ◌<◌, ◌≡◌, refl, true, false, inl, inr, arith, ◌==◌, ◌||◌, Bool-cases,
  ==→eq, ==→ne,
}
use basic_btfs.Kernel.{Bits}

-- The blocks of `n` parts from `lo` on.
unfoldable pub union : ℕ → ℕ → (ℕ → Bits) → Bits
union zero lo parts x = false
union (suc n) lo parts x = parts lo x || union n (lo + 1) parts x

pub union_of :
    (n lo j x : ℕ) (parts : ℕ → Bits)
    → lo ≤ j
    → j < lo + n
    → parts j x ≡ true
    → union n lo parts x ≡ true
unfolding union
union_of zero lo j x parts l r h = absurd (omega arith)
union_of (suc n) lo j x parts l r h = elim (Bool-cases (lo == j)) [
  | inl e ↦ rw (==→eq lo j e, h) refl
  | inr ne ↦
      ground (arith, union_of n (lo + 1) j x parts (omega (arith, ==→ne lo j ne)) (omega arith) h)
]

pub in_union :
    (n lo x : ℕ) (parts : ℕ → Bits)
    → union n lo parts x ≡ true
    → (j : ℕ) × (lo ≤ j) × (j < lo + n) × (parts j x ≡ true)
unfolding union
in_union zero lo x parts h = absurd (ground arith)
in_union (suc n) lo x parts h = elim (Bool-cases (parts lo x)) [
  | inl e ↦ (lo, omega arith, omega arith, e)
  | inr ne ↦
      let (j, l, r, e) = in_union n (lo + 1) x parts (ground arith) in
      (j, omega arith, omega arith, e)
]
