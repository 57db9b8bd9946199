-- ===== src/Btfs/Btree/Owned.antt =====
-- A search tree with the blocks that it stands in: no two children share a block, and no block of a
-- child is the node's own.
use basic_btfs.Prelude.{
  ℕ, zero, suc, ◌≤◌, ◌≡◌, ◌≢◌, sym, ◌∙◌, true, false, some, inl, inr, arith, ◌==◌, ◌||◌, ◌⊎◌,
  if◌then◌else◌, Bool-cases, ==→eq, ==→ne,
}
use basic_btfs.Kernel.{Bits}
use basic_btfs.Btfs.Disk.{Entry, Node, Store}
use basic_btfs.Btfs.Btree.Shape.{
  IsNode, low_of, high_of, IsTree, leaf, inner, Holds, here, under, holds_in,
}

pub record IsParts (blocks : Bits) (b : ℕ) (parts : ℕ → Bits) (k : ℕ) : Type 0 where
  pub within : (i x : ℕ) → i ≤ k → parts i x ≡ true → blocks x ≡ true
  pub apart : (i j x : ℕ) → i ≤ k → j ≤ k → i ≢ j → parts i x ≡ true → parts j x ≡ false
  pub below : (i : ℕ) → i ≤ k → parts i b ≡ false

-- The tree of a height under a block, with its blocks among `blocks`.
pub data IsOwned (s : Store) : Bits → ℕ → ℕ → ℕ → ℕ → Type 0 where
  owned_leaf :
      {blocks : Bits} {b lo hi : ℕ} (n : Node)
      → s b ≡ some n
      → n.leaf ≡ true
      → IsNode n lo hi
      → blocks b ≡ true
      → IsOwned s blocks zero b lo hi
  owned_inner :
      {blocks : Bits} {h b lo hi : ℕ} (n : Node) (parts : ℕ → Bits)
      → s b ≡ some n
      → n.leaf ≡ false
      → IsNode n lo hi
      → blocks b ≡ true
      → IsParts blocks b parts n.nr_of_keys
      → ((i : ℕ)
          → i ≤ n.nr_of_keys
          → IsOwned s (parts i) h (n.children i) (low_of n lo i) (high_of n hi i))
      → IsOwned s blocks (suc h) b lo hi

module _ {s : Store} where
  pub owned-IsTree :
      {blocks : Bits} {h b lo hi : ℕ}
      → IsOwned s blocks h b lo hi
      → IsTree (λ _. Unit {0}) s h b lo hi
  owned-IsTree (owned_leaf n eq isleaf v own) = leaf n eq isleaf tt v
  owned-IsTree (owned_inner n parts eq isinner v own p sub) =
      inner n eq isinner tt v λ i le. owned-IsTree (sub i le)

  -- The root's block is one of them, and can be read.
  pub owned_root :
      {blocks : Bits} {h b lo hi : ℕ}
      → IsOwned s blocks h b lo hi
      → (blocks b ≡ true) × ((n : Node) × (s b ≡ some n) × IsNode n lo hi)
  owned_root (owned_leaf n eq isleaf v own) = (own, (n, eq, v))
  owned_root (owned_inner n parts eq isinner v own p sub) = (own, (n, eq, v))

  pub more_blocks :
      {blocks more : Bits} {h b lo hi : ℕ}
      → ((x : ℕ) → blocks x ≡ true → more x ≡ true)
      → IsOwned s blocks h b lo hi
      → IsOwned s more h b lo hi
  more_blocks {b} le (owned_leaf n eq isleaf v own) = owned_leaf n eq isleaf v (le b own)
  more_blocks {b} le (owned_inner n parts eq isinner v own p sub) =
      owned_inner n parts eq isinner v (le b own)
        (record { within = λ i x l r. le x (p.within i x l r); apart = p.apart; below = p.below })
        sub

module _ {s s' : Store} where
  -- Only the tree's own blocks matter.
  pub same_blocks :
      {blocks : Bits} {h b lo hi : ℕ}
      → ((x : ℕ) → blocks x ≡ true → s' x ≡ s x)
      → IsOwned s blocks h b lo hi
      → IsOwned s' blocks h b lo hi
  same_blocks {b} same (owned_leaf n eq isleaf v own) = owned_leaf n (same b own ∙ eq) isleaf v own
  same_blocks {b} same (owned_inner n parts eq isinner v own p sub) =
      owned_inner n parts (same b own ∙ eq) isinner v own p
        λ i le. same_blocks (λ x r. same x (p.within i x le r)) (sub i le)

  pub same-Holds :
      {blocks : Bits} {h b lo hi : ℕ} {e : Entry}
      → ((x : ℕ) → blocks x ≡ true → s' x ≡ s x)
      → IsOwned s blocks h b lo hi
      → Holds s e b
      → Holds s' e b
  same-Holds {b} same (owned_leaf n eq isleaf v own) holds = elim (holds_in n eq holds) [
    | inl (i, lt, at) ↦ here n i (same b own ∙ eq) lt at
    | inr (i, isinner, _, _) ↦ absurd (cc)
  ]
  same-Holds {b} same (owned_inner n parts eq isinner v own p sub) holds =
      elim (holds_in n eq holds) [
        | inl (i, lt, at) ↦ here n i (same b own ∙ eq) lt at
        | inr (i, _, le, rest) ↦
            under n i (same b own ∙ eq) isinner le
              (same-Holds (λ x r. same x (p.within i x le r)) (sub i le) rest)
      ]

-- One child of a node has changed, in blocks of its own or in blocks that the tree did not have.
module _ {s s' : Store} {blocks own : Bits} {h b lo hi : ℕ} (n : Node) (parts : ℕ → Bits) (k : ℕ)
    (eq : s b ≡ some n) (isinner : n.leaf ≡ false) (v : IsNode n lo hi) (mine : blocks b ≡ true)
    (p : IsParts blocks b parts n.nr_of_keys)
    (sub : (i : ℕ)
      → i ≤ n.nr_of_keys
      → IsOwned s (parts i) h (n.children i) (low_of n lo i) (high_of n hi i))
    (le : k ≤ n.nr_of_keys) (same : (x : ℕ) → blocks x ≡ true → parts k x ≡ false → s' x ≡ s x)
    (fresh : (x : ℕ) → own x ≡ true → (parts k x ≡ true) ⊎ (blocks x ≡ false)) where
  eq' : s' b ≡ some n
  eq' = same b mine (p.below k le) ∙ eq

  other_same : (i x : ℕ) → i ≤ n.nr_of_keys → i ≢ k → parts i x ≡ true → s' x ≡ s x
  other_same i x l ne r = same x (p.within i x l r) (p.apart i k x l le ne r)

  pub new_parts : ℕ → Bits
  new_parts i = if i == k then own else parts i

  new-IsParts : IsParts (λ x. blocks x || own x) b new_parts n.nr_of_keys
  unfolding new_parts
  new-IsParts = record {
    within = λ i x l r. ground (arith, p.within i x l);
    apart = λ i j x l l' ne r.
        ground (arith, p.apart i j x l l' ne, fresh x, p.within i x l, p.within j x l');
    below = λ i l. ground (arith, p.below i l, fresh b, p.below k le);
  }

  pub child_changed-IsOwned :
      IsOwned s' own h (n.children k) (low_of n lo k) (high_of n hi k)
      → IsOwned s' (λ x. blocks x || own x) (suc h) b lo hi
  unfolding new_parts
  child_changed-IsOwned child =
      owned_inner n new_parts eq' isinner v (ground arith) new-IsParts λ i l.
        elim (Bool-cases (i == k)) [
          | inl e ↦ rw (e, ==→eq i k e) child
          | inr ne ↦ rw ne (same_blocks (λ x r. other_same i x l (==→ne i k ne) r) (sub i l))
        ]

  module _ (x : Entry) where
    pub child_changed-Holds :
        (Holds s x (n.children k) → Holds s' x (n.children k)) → Holds s x b → Holds s' x b
    child_changed-Holds child holds = elim (holds_in n eq holds) [
      | inl (i, lt, at) ↦ here n i eq' lt at
      | inr (i, _, l, rest) ↦ elim (Bool-cases (i == k)) [
        | inl e ↦ under n k eq' isinner le (child (rw (==→eq i k e) at rest))
        | inr ne ↦
            under n i eq' isinner l
              (same-Holds (λ x r. other_same i x l (==→ne i k ne) r) (sub i l) rest)
      ]
    ]

    pub Holds-child_changed :
        {A : Type 0}
        → (Holds s' x (n.children k) → Holds s x (n.children k) ⊎ A)
        → Holds s' x b
        → Holds s x b ⊎ A
    Holds-child_changed child holds = elim (holds_in n eq' holds) [
      | inl (i, lt, at) ↦ inl (here n i eq lt at)
      | inr (i, _, l, rest) ↦ elim (Bool-cases (i == k)) [
        | inl e ↦ elim (child (rw (==→eq i k e) at rest)) [
          | inl old ↦ inl (under n k eq isinner le old)
          | inr a ↦ inr a
        ]
        | inr ne ↦ inl (
            under n i eq isinner l (
              same-Holds (λ x r. sym (other_same i x l (==→ne i k ne) r))
                (same_blocks (λ x r. other_same i x l (==→ne i k ne) r) (sub i l)) rest))
      ]
    ]
