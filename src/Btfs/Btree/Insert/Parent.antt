-- ===== src/Btfs/Btree/Insert/Parent.antt =====
-- The tree above a full child that is split.
use basic_btfs.Prelude.{
  ℕ, zero, suc, ◌+◌, ◌-◌, ◌≤◌, ◌<◌, ◌≡◌, ◌≢◌, refl, ap, sym, ◌∙◌, true, false, some, inl, inr,
  arith, ltb, leb, ◌==◌, ◌||◌, ◌⊎◌, ◌&&◌, if◌then◌else◌, Bool-cases, ltb→lt, ltb→le, ==→eq, ==→ne,
}
use basic_btfs.Kernel.{Bits}
use basic_btfs.Btfs.Disk.{max_keys, Entry, Node, Store}
use basic_btfs.Btfs.Btree.Shape.{IsNode, low_of, high_of, Holds, here, under, holds_in}
use basic_btfs.Btfs.Btree.Owned.{IsParts, IsOwned, owned_inner, same_blocks, same-Holds, owned_root}
use basic_btfs.Btfs.Btree.Insert.{split_rhs, split_parent}
use basic_btfs.Btfs.Btree.Insert.Nodes.{
  split_lhs, middle, entries-split_parent, children-split_parent, nr-split_parent,
}
use basic_btfs.Btfs.Btree.Insert.Split.{IsSplit, three_nodes-IsSplit}
use basic_btfs.Btfs.Btree.Insert.Halves.{IsHalves}

module _ (n : Node) (k r : ℕ) (mid : Entry) (le : k ≤ n.nr_of_keys) where
  pub low_split :
      (lo i : ℕ)
      → i ≤ n.nr_of_keys + 1
      → low_of (split_parent n k r mid) lo i ≡ (
          if leb i k
          then low_of n lo i
          else if i == k + 1
          then mid.hash + 1
          else low_of n lo (i - 1))
  low_split lo zero l = ground arith
  low_split lo (suc zero) l = ground (arith, entries-split_parent n k r mid le 0)
  low_split lo (suc (suc i)) l = ground (arith, entries-split_parent n k r mid le (suc i))

  pub high_split :
      (hi i : ℕ)
      → i ≤ n.nr_of_keys + 1
      → high_of (split_parent n k r mid) hi i
        ≡ (if ltb i k then high_of n hi i else if i == k then mid.hash else high_of n hi (i - 1))
  high_split hi i l =
      ground (arith, entries-split_parent n k r mid le i, nr-split_parent n k r mid le)

moved :
    {s : Store} {blocks : Bits} {h b lo hi b' lo' hi' : ℕ}
    → IsOwned s blocks h b lo hi
    → b' ≡ b
    → lo' ≡ lo
    → hi' ≡ hi
    → IsOwned s blocks h b' lo' hi'
moved t e e' e'' = rw (e, e', e'') t

module _ (s s' : Store) (n cn : Node) (b r k lo hi h : ℕ) (blocks left right : Bits)
    (parts : ℕ → Bits) (eq : s b ≡ some n) (isinner : n.leaf ≡ false) (v : IsNode n lo hi)
    (mine : blocks b ≡ true) (p : IsParts blocks b parts n.nr_of_keys)
    (sub : (i : ℕ)
      → i ≤ n.nr_of_keys
      → IsOwned s (parts i) h (n.children i) (low_of n lo i) (high_of n hi i))
    (le : k ≤ n.nr_of_keys) (room : n.nr_of_keys < max_keys) (eqc : s (n.children k) ≡ some cn)
    (full : cn.nr_of_keys ≡ max_keys) (vc : IsNode cn (low_of n lo k) (high_of n hi k))
    (fresh : blocks r ≡ false) (at_b : s' b ≡ some (split_parent n k r (middle cn)))
    (halves : IsHalves s s'
      (parts k)
      left
      right
      cn
      h
      (n.children k)
      r
      (low_of n lo k)
      (high_of n hi k))
    (same : (x : ℕ) → blocks x ≡ true → x ≢ b → x ≢ n.children k → s' x ≡ s x) where
  new : Node
  new = split_parent n k r (middle cn)

  split_parts : ℕ → Bits
  split_parts i =
      if i == k
      then left
      else if i == k + 1
      then right
      else if ltb i k
      then parts i
      else parts (i - 1)

  split : IsSplit n cn r k lo hi new (split_lhs cn) (split_rhs cn b)
  unfolding new
  split = three_nodes-IsSplit n cn b r k lo hi v le room vc full

  other_part_same : (i x : ℕ) → i ≤ n.nr_of_keys → i ≢ k → parts i x ≡ true → s' x ≡ s x
  other_part_same i x l ne q =
      same x (p.within i x l q) (λ e. ground (arith, p.below i l))
        λ e. ground (arith, p.apart i k x l le ne q, (owned_root (sub k le)).0)

  -- The old index of a part.
  from : ℕ → ℕ
  from i = if leb i k then i else i - 1

  from-le : (i : ℕ) → i ≤ n.nr_of_keys + 1 → from i ≤ n.nr_of_keys
  unfolding from
  from-le i l = ground arith

  origin : (i x : ℕ) → split_parts i x ≡ true → (parts (from i) x ≡ true) ⊎ ((x ≡ r) × (i ≡ k + 1))
  unfolding split_parts from
  origin i x q = elim (Bool-cases (i == k)) [
    | inl e ↦ inl (ground (arith, halves.left_old x))
    | inr ne ↦ elim (Bool-cases (i == k + 1)) [
      | inl e ↦ elim (halves.right_old x (ground arith)) [
        | inl o ↦ inl (ground arith)
        | inr o ↦ inr (o, ==→eq i _ e)
      ]
      | inr ne' ↦ inl (ground arith)
    ]
  ]

  same_origin :
      (i j x : ℕ) → i ≢ j → from i ≡ from j → split_parts i x ≡ true → split_parts j x ≡ true → ⊥
  unfolding from split_parts
  same_origin i j x ne e q q' = elim (Bool-cases (i == k)) [
    | inl at ↦
        let at' : j ≡ k + 1 = ground (arith, ==→eq i k at) in
        ground (arith, halves.apart x, ==→eq i k at)
    | inr other ↦
        let at : j ≡ k = ground (arith, ==→ne i k other) in
        let at' : i ≡ k + 1 = ground (arith, ==→ne i k other) in ground (arith, halves.apart x)
  ]

  not_shared :
      (i j x : ℕ)
      → i ≤ n.nr_of_keys + 1
      → j ≤ n.nr_of_keys + 1
      → i ≢ j
      → split_parts i x ≡ true
      → split_parts j x ≡ true
      → ⊥
  not_shared i j x l l' ne q q' = elim (origin i x q) [
    | inl o ↦ elim (origin j x q') [
      | inl o' ↦ elim (Bool-cases (from i == from j)) [
        | inl e ↦ same_origin i j x ne (==→eq _ _ e) q q'
        | inr e ↦
            ground (arith, p.apart (from i) (from j) x (from-le i l) (from-le j l') (==→ne _ _ e) o)
      ]
      | inr (e, _) ↦ ground (arith, p.within (from i) x (from-le i l) o)
    ]
    | inr (e, at) ↦ elim (origin j x q') [
      | inl o' ↦ ground (arith, p.within (from j) x (from-le j l') o')
      | inr (_, at') ↦ ne (omega arith)
    ]
  ]

  split-IsParts : IsParts (λ x. blocks x || (x == r)) b split_parts (n.nr_of_keys + 1)
  split-IsParts = record {
    within = λ i x l q. elim (origin i x q) [
      | inl o ↦ rw (p.within (from i) x (from-le i l) o) refl
      | inr (e, _) ↦ ground arith
    ];
    apart = λ i j x l l' ne q. elim (Bool-cases (split_parts j x)) [
      | inl q' ↦ absurd (not_shared i j x l l' ne q q')
      | inr q' ↦ q'
    ];
    below = λ i l. elim (Bool-cases (split_parts i b)) [
      | inr q ↦ q
      | inl q ↦ elim (origin i b q) [
        | inl o ↦ ground (arith, p.below (from i) (from-le i l))
        | inr (e, _) ↦ ground arith
      ]
    ];
  }

  part_of_split :
      (i : ℕ)
      → i ≤ n.nr_of_keys + 1
      → IsOwned s' (split_parts i) h (new.children i) (low_of new lo i) (high_of new hi i)
  unfolding new split_parts
  part_of_split i l =
      let child = children-split_parent n k r (middle cn) le i in
      let low = low_split n k r (middle cn) le lo i l in
      let high = high_split n k r (middle cn) le hi i l in
      elim (Bool-cases (i == k)) [
        | inl e ↦
            let at = ==→eq i k e in
            rw e (
              moved halves.lower (ground (arith, child)) (ground (arith, low))
                (ground (arith, high)))
        | inr ne ↦ elim (Bool-cases (i == k + 1)) [
          | inl e ↦
              let at = ==→eq i (k + 1) e in
              let back : k + 1 - 1 ≡ k = omega arith in
              rw (ne, e)
                (moved halves.upper (ground (arith, child)) (ground (arith, low))
                  (high ∙ rw (at, back) (ground arith)))
          | inr ne' ↦ elim (Bool-cases (ltb i k)) [
            | inl q ↦
                let lt = ltb→lt i k q in
                rw (ne, ne', q)
                  (moved
                    (same_blocks (λ x. other_part_same i x (omega arith) (omega arith))
                      (sub i (omega arith)))
                    (ground (arith, child)) (ground (arith, low)) (ground (arith, high)))
            | inr q ↦
                let ge = ltb→le i k q in
                let gt : k + 1 < i = omega (arith, ==→ne i k ne, ==→ne i (k + 1) ne') in
                rw (ne, ne', q)
                  (moved
                    (same_blocks (λ x. other_part_same (i - 1) x (omega arith) (omega arith))
                      (sub (i - 1) (omega arith)))
                    (ground (arith, child)) (ground (arith, low)) (ground (arith, high)))
          ]
        ]
      ]

  pub split-IsOwned : IsOwned s' (λ x. blocks x || (x == r)) (suc h) b lo hi
  unfolding new split_parent
  split-IsOwned =
      owned_inner new split_parts at_b isinner split.parent (rw mine refl)
        (rw (nr-split_parent n k r (middle cn) le) split-IsParts)
        λ i l. part_of_split i (omega (arith, nr-split_parent n k r (middle cn) le))

  leaf-new : new.leaf ≡ false
  unfolding new split_parent
  leaf-new = isinner

  nr-new : new.nr_of_keys ≡ n.nr_of_keys + 1
  unfolding new
  nr-new = nr-split_parent n k r (middle cn) le

  children-new :
      (i : ℕ)
      → new.children i ≡ (
          if i == k + 1
          then r
          else if ltb (k + 1) i && leb i (n.nr_of_keys + 1)
          then n.children (i - 1)
          else n.children i)
  unfolding new
  children-new i = children-split_parent n k r (middle cn) le i

  at_new : s' b ≡ some new
  unfolding new
  at_new = at_b

  module _ (x : Entry) where
    pub Holds-split : Holds s x b → Holds s' x b
    Holds-split holds = elim (holds_in n eq holds) [
      | inl (i, lt, at) ↦
          let (j, lt', at') = split.parent_keeps x (i, lt, at) in here new j at_new lt' at'
      | inr (i, _, l, rest) ↦ elim (Bool-cases (i == k)) [
        | inl e ↦ elim (halves.holds_halves x (rw (==→eq i k e) at rest)) [
          | inl below ↦ elim below [
            | inl o ↦ under new k at_new leaf-new (omega (arith, nr-new)) (rw (split.old_child) o)
            | inr o ↦
                under new (k + 1) at_new leaf-new (omega (arith, nr-new)) (rw (split.new_child) o)
          ]
          | inr o ↦ let (j, lt', at') = split.gained in here new j at_new lt' (at' ∙ sym o)
        ]
        | inr ne ↦
            let there = same-Holds (λ y. other_part_same i y l (==→ne i k ne)) (sub i l) rest in
            elim (Bool-cases (ltb i k)) [
              | inl q ↦
                  let lt = ltb→lt i k q in
                  let c : new.children i ≡ n.children i = ground (arith, children-new i) in
                  under new i at_new leaf-new (omega (arith, nr-new)) (rw c there)
              | inr q ↦
                  let gt : k < i = omega (arith, ltb→le i k q, ==→ne i k ne) in
                  let c : new.children (i + 1) ≡ n.children i =
                    ground (arith, children-new (i + 1)) in
                  under new (i + 1) at_new leaf-new (omega (arith, nr-new)) (rw c there)
            ]
      ]
    ]

    from_other : (i : ℕ) → i ≤ n.nr_of_keys → i ≢ k → Holds s' x (n.children i) → Holds s x b
    from_other i l ne holds = under n i eq isinner l (
        same-Holds (λ y q. sym (other_part_same i y l ne q))
          (same_blocks (λ y. other_part_same i y l ne) (sub i l)) holds)

    from_halves : Holds s' x (n.children k) ⊎ Holds s' x r → Holds s x b
    from_halves o = under n k eq isinner le (halves.halves_hold x o)

    key_of_split : (j : ℕ) → j < new.nr_of_keys → new.entries j ≡ x → Holds s x b
    unfolding new
    key_of_split j lt at =
        let e = entries-split_parent n k r (middle cn) le j in
        let nr = nr-split_parent n k r (middle cn) le in
        elim (Bool-cases (j == k)) [
          | inl q ↦ under n k eq isinner le (here cn 79 eqc (omega arith) (ground (arith, e)))
          | inr q ↦ elim (Bool-cases (ltb k j)) [
            | inl q' ↦ here n (j - 1) eq (omega (arith, ltb→lt k j q')) (ground (arith, e))
            | inr q' ↦ here n j eq (omega (arith, ltb→le k j q', ==→ne j k q)) (ground (arith, e))
          ]
        ]

    pub split-Holds : Holds s' x b → Holds s x b
    split-Holds holds = elim (holds_in new at_new holds) [
      | inl (j, lt, at) ↦ key_of_split j lt at
      | inr (i, _, l, rest) ↦
          let l' : i ≤ n.nr_of_keys + 1 = omega (arith, nr-new) in
          elim (Bool-cases (i == k)) [
            | inl e ↦
                let c : new.children i ≡ n.children k =
                  ap new.children (==→eq i k e) ∙ split.old_child in
                from_halves (inl (rw c at rest))
            | inr ne ↦ elim (Bool-cases (i == k + 1)) [
              | inl e ↦
                  let c : new.children i ≡ r =
                    ap new.children (==→eq i (k + 1) e) ∙ split.new_child in
                  from_halves (inr (rw c at rest))
              | inr ne' ↦ elim (Bool-cases (ltb i k)) [
                | inl q ↦
                    let lt = ltb→lt i k q in
                    let c : new.children i ≡ n.children i = ground (arith, children-new i) in
                    from_other i (omega arith) (omega arith) (rw c at rest)
                | inr q ↦
                    let gt : k + 1 < i =
                      omega (arith, ltb→le i k q, ==→ne i k ne, ==→ne i (k + 1) ne') in
                    let c : new.children i ≡ n.children (i - 1) = ground (arith, children-new i) in
                    from_other (i - 1) (omega arith) (omega arith) (rw c at rest)
              ]
            ]
          ]
    ]
