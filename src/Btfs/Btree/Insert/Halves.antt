-- ===== src/Btfs/Btree/Insert/Halves.antt =====
-- The trees under the two halves of a full node that is split.
use basic_btfs.Prelude.{
  ℕ, zero, suc, ◌+◌, ◌-◌, ◌≤◌, ◌<◌, ◌≡◌, ◌≢◌, refl, ap, sym, ◌∙◌, true, false, some, inl, inr,
  arith, ltb, ◌==◌, ◌||◌, ◌⊎◌, Bool-cases, ltb→lt, ltb→le, ==→eq, ==→ne, ==_self,
}
use basic_btfs.Kernel.{Bits}
use basic_btfs.Btfs.Disk.{min_degree, max_keys, Entry, Node, Store}
use basic_btfs.Btfs.Btree.Shape.{IsNode, low_of, high_of, Holds, here, under, holds_in}
use basic_btfs.Btfs.Btree.Owned.{IsParts, IsOwned, owned_leaf, owned_inner, same_blocks, same-Holds}
use basic_btfs.Btfs.Btree.Insert.{split_rhs, node_init}
use basic_btfs.Btfs.Btree.Insert.Nodes.{
  split_lhs, middle, entries-split_rhs, children-split_rhs, nr-split_rhs, split_lhs-IsNode,
  split_rhs-IsNode,
}
use basic_btfs.Btfs.Btree.Insert.Union.{union, union_of, in_union}

leaf-split_rhs : (cn : Node) (b : ℕ) → (split_rhs cn b).leaf ≡ cn.leaf
unfolding split_rhs node_init
leaf-split_rhs cn b = refl

module _ (cn : Node) (lo : ℕ) where
  low_left : (i : ℕ) → low_of (split_lhs cn) lo i ≡ low_of cn lo i
  low_left zero = refl
  low_left (suc i) = refl

  low_right :
      (b i : ℕ) → i ≤ 79 → low_of (split_rhs cn b) ((middle cn).hash + 1) i ≡ low_of cn lo (i + 80)
  low_right b zero l = refl
  low_right b (suc i) l = ground (arith, entries-split_rhs cn b i)

module _ (cn : Node) (hi i : ℕ) (l : i ≤ 79) (full : cn.nr_of_keys ≡ max_keys) where
  high_left : high_of (split_lhs cn) (middle cn).hash i ≡ high_of cn hi i
  high_left = ground arith

  high_right : (b : ℕ) → high_of (split_rhs cn b) hi i ≡ high_of cn hi (i + 80)
  high_right b = ground (arith, entries-split_rhs cn b i, nr-split_rhs cn b)

-- The trees under the halves, at the old block `c` and the new block `r`, and what they hold.
pub record IsHalves (s s' : Store) (own left right : Bits) (cn : Node) (h c r lo hi : ℕ)
    : Type 0 where
  pub lower : IsOwned s' left h c lo (middle cn).hash
  pub upper : IsOwned s' right h r ((middle cn).hash + 1) hi
  pub left_old : (x : ℕ) → left x ≡ true → own x ≡ true
  pub right_old : (x : ℕ) → right x ≡ true → (own x ≡ true) ⊎ (x ≡ r)
  pub apart : (x : ℕ) → left x ≡ true → right x ≡ false
  pub holds_halves : (x : Entry) → Holds s x c → (Holds s' x c ⊎ Holds s' x r) ⊎ (x ≡ middle cn)
  pub halves_hold : (x : Entry) → Holds s' x c ⊎ Holds s' x r → Holds s x c

module _ (s s' : Store) (cn : Node) (b c r lo hi : ℕ) (eq : s c ≡ some cn)
    (full : cn.nr_of_keys ≡ max_keys) (v : IsNode cn lo hi) (at_c : s' c ≡ some (split_lhs cn))
    (at_r : s' r ≡ some (split_rhs cn b)) where
  key_in_half :
      (x : Entry) (j : ℕ)
      → j < cn.nr_of_keys
      → cn.entries j ≡ x
      → (Holds s' x c ⊎ Holds s' x r) ⊎ (x ≡ middle cn)
  key_in_half x j lt at = elim (Bool-cases (ltb j 79)) [
    | inl l ↦ inl (inl (here (split_lhs cn) j at_c (ltb→lt j 79 l) at))
    | inr g ↦ elim (Bool-cases (j == 79)) [
      | inl e ↦ inr (sym at ∙ ap cn.entries (==→eq j 79 e))
      | inr ne ↦ inl (
          inr (
            here (split_rhs cn b) (j - 80) at_r
              (omega (arith, nr-split_rhs cn b, ltb→le j 79 g, ==→ne j 79 ne))
              (ground (arith, entries-split_rhs cn b (j - 80)))))
    ]
  ]

  half_key_lhs : (x : Entry) (j : ℕ) → j < 79 → cn.entries j ≡ x → Holds s x c
  half_key_lhs x j lt at = here cn j eq (omega arith) at

  half_key_rhs :
      (x : Entry) (j : ℕ)
      → j < (split_rhs cn b).nr_of_keys
      → (split_rhs cn b).entries j ≡ x
      → Holds s x c
  half_key_rhs x j lt at =
      let small : j < 79 = omega (arith, nr-split_rhs cn b) in
      here cn (j + min_degree) eq (omega arith) (sym (entries-split_rhs cn b j small) ∙ at)

  leaf-IsHalves :
      (own : Bits)
      → cn.leaf ≡ true
      → own c ≡ true
      → own r ≡ false
      → IsHalves s s' own own (λ x. x == r) cn zero c r lo hi
  leaf-IsHalves own isleaf mine fresh = record {
    lower = owned_leaf (split_lhs cn) at_c isleaf (split_lhs-IsNode v full) mine;
    upper =
        owned_leaf (split_rhs cn b) at_r (leaf-split_rhs cn b ∙ isleaf) (split_rhs-IsNode v full b)
          (==_self r);
    left_old = λ x h. h;
    right_old = λ x h. inr (==→eq x r h);
    apart = λ x h. ground arith;
    holds_halves = λ x holds. elim (holds_in cn eq holds) [
      | inl (j, lt, at) ↦ key_in_half x j lt at
      | inr (j, isinner, _, _) ↦ absurd (cc)
    ];
    halves_hold = λ x q. elim q [
      | inl holds ↦ elim (holds_in (split_lhs cn) at_c holds) [
        | inl (j, lt, at) ↦ half_key_lhs x j lt at
        | inr (j, isinner, _, _) ↦ absurd (cc)
      ]
      | inr holds ↦ elim (holds_in (split_rhs cn b) at_r holds) [
        | inl (j, lt, at) ↦ half_key_rhs x j lt at
        | inr (j, isinner, _, _) ↦ absurd (ground (arith, leaf-split_rhs cn b))
      ]
    ];
  }

  module _ (own : Bits) (h : ℕ) (parts : ℕ → Bits) (isinner : cn.leaf ≡ false)
      (p : IsParts own c parts cn.nr_of_keys)
      (sub : (i : ℕ)
        → i ≤ cn.nr_of_keys
        → IsOwned s (parts i) h (cn.children i) (low_of cn lo i) (high_of cn hi i))
      (mine : own c ≡ true) (fresh : own r ≡ false)
      (same : (x : ℕ) → own x ≡ true → x ≢ c → s' x ≡ s x) where
    left_blocks : Bits
    left_blocks x = (x == c) || union 80 0 parts x

    right_blocks : Bits
    right_blocks x = (x == r) || union 80 80 parts x

    part_same : (i x : ℕ) → i ≤ 159 → parts i x ≡ true → s' x ≡ s x
    part_same i x l q =
        same x (p.within i x (omega arith) q) λ e. ground (arith, p.below i (omega arith))

    left-IsOwned : IsOwned s' left_blocks (suc h) c lo (middle cn).hash
    unfolding left_blocks
    left-IsOwned =
        owned_inner (split_lhs cn) parts at_c isinner (split_lhs-IsNode v full)
          (rw (==_self c) refl)
          (record {
            within =
                λ i x l q. ground (arith, union_of 80 0 i x parts (omega arith) (omega arith) q);
            apart = λ i j x l l'. p.apart i j x (omega arith) (omega arith);
            below = λ i l. p.below i (omega arith);
          })
          λ i l.
            rw (low_left cn lo i, high_left cn hi i l full)
              (same_blocks (λ x. part_same i x (omega arith)) (sub i (omega arith)))

    right-IsOwned : IsOwned s' right_blocks (suc h) r ((middle cn).hash + 1) hi
    unfolding right_blocks
    right-IsOwned =
        owned_inner (split_rhs cn b) (λ i. parts (i + 80)) at_r (leaf-split_rhs cn b ∙ isinner)
          (split_rhs-IsNode v full b) (rw (==_self r) refl)
          (record {
            within = λ i x l q. ground (
              arith,
              union_of 80 80 (i + 80) x parts (omega arith) (omega (arith, nr-split_rhs cn b)) q,
            );
            apart = λ i j x l l' ne.
                p.apart (i + 80) (j + 80) x (omega (arith, nr-split_rhs cn b))
                  (omega (arith, nr-split_rhs cn b)) (omega arith);
            below = λ i l. ground (arith, p.within (i + 80) r (omega (arith, nr-split_rhs cn b)));
          })
          λ i l.
            let small : i ≤ 79 = omega (arith, nr-split_rhs cn b) in
            rw
              (
                children-split_rhs cn b i isinner (omega arith),
                low_right cn lo b i small,
                high_right cn hi i small full b,
              )
              (same_blocks (λ x. part_same (i + 80) x (omega arith)) (sub (i + 80) (omega arith)))

    left_old : (x : ℕ) → left_blocks x ≡ true → own x ≡ true
    unfolding left_blocks
    left_old x q = elim (Bool-cases (x == c)) [
      | inl e ↦ rw (==→eq x c e) mine
      | inr ne ↦
          let (j, _, l, e) = in_union 80 0 x parts (ground arith) in p.within j x (omega arith) e
    ]

    right_old : (x : ℕ) → right_blocks x ≡ true → (own x ≡ true) ⊎ (x ≡ r)
    unfolding right_blocks
    right_old x q = elim (Bool-cases (x == r)) [
      | inl e ↦ inr (==→eq x r e)
      | inr ne ↦
          let (j, _, l, e) = in_union 80 80 x parts (ground arith) in
          inl (p.within j x (omega arith) e)
    ]

    not_both : (x : ℕ) → left_blocks x ≡ true → right_blocks x ≡ true → ⊥
    unfolding left_blocks right_blocks
    not_both x q q' = elim (Bool-cases (x == r)) [
      | inl e ↦ ground (arith, left_old x q)
      | inr ne ↦
          let (j, ge, l, e) = in_union 80 80 x parts (ground arith) in
          elim (Bool-cases (x == c)) [
            | inl e' ↦ ground (arith, p.below j (omega arith))
            | inr ne' ↦
                let (i, _, l', e'') = in_union 80 0 x parts (ground arith) in
                ground (arith, p.apart i j x (omega arith) (omega arith) (omega arith) e'')
          ]
    ]

    inner-IsHalves_apart : (x : ℕ) → left_blocks x ≡ true → right_blocks x ≡ false
    inner-IsHalves_apart x q = elim (Bool-cases (right_blocks x)) [
      | inr no_block ↦ no_block
      | inl q' ↦ absurd (not_both x q q')
    ]

    inner-Holds_halves : (x : Entry) → Holds s x c → (Holds s' x c ⊎ Holds s' x r) ⊎ (x ≡ middle cn)
    inner-Holds_halves x holds = elim (holds_in cn eq holds) [
      | inl (j, lt, at) ↦ key_in_half x j lt at
      | inr (j, _, l, rest) ↦
          let there = same-Holds (λ y. part_same j y (omega arith)) (sub j l) rest in
          elim (Bool-cases (ltb j 80)) [
            | inl q ↦
                inl (inl (under (split_lhs cn) j at_c isinner (omega (arith, ltb→lt j 80 q)) there))
            | inr q ↦
                let ge = ltb→le j 80 q in
                let small : j - 80 < 80 = omega arith in
                let back : j - 80 + 80 ≡ j = omega arith in
                inl (
                  inr (
                    under (split_rhs cn b) (j - 80) at_r (leaf-split_rhs cn b ∙ isinner)
                      (omega (arith, nr-split_rhs cn b))
                      (rw (children-split_rhs cn b (j - 80) isinner small, back) there)))
          ]
    ]

    from_part : (x : Entry) (j : ℕ) → j ≤ 159 → Holds s' x (cn.children j) → Holds s x c
    from_part x j l holds =
        let back = same_blocks (λ y. part_same j y l) (sub j (omega arith)) in
        under cn j eq isinner (omega arith) (same-Holds (λ y q. sym (part_same j y l q)) back holds)

    inner_halves_hold : (x : Entry) → Holds s' x c ⊎ Holds s' x r → Holds s x c
    inner_halves_hold x (inl holds) = elim (holds_in (split_lhs cn) at_c holds) [
      | inl (j, lt, at) ↦ half_key_lhs x j lt at
      | inr (j, _, l, rest) ↦ from_part x j (omega arith) rest
    ]
    inner_halves_hold x (inr holds) = elim (holds_in (split_rhs cn b) at_r holds) [
      | inl (j, lt, at) ↦ half_key_rhs x j lt at
      | inr (j, _, l, rest) ↦
          let small : j ≤ 79 = omega (arith, nr-split_rhs cn b) in
          from_part x (j + 80) (omega arith)
            (rw (children-split_rhs cn b j isinner (omega arith)) at rest)
    ]

    inner-IsHalves : IsHalves s s' own left_blocks right_blocks cn (suc h) c r lo hi
    inner-IsHalves = record {
      lower = left-IsOwned;
      upper = right-IsOwned;
      left_old = left_old;
      right_old = right_old;
      apart = inner-IsHalves_apart;
      holds_halves = inner-Holds_halves;
      halves_hold = inner_halves_hold;
    }

-- A full tree is split at its root into two trees, in its blocks and in one new block.
pub owned-IsHalves :
    (s s' : Store) (cn : Node) (b c r lo hi h : ℕ) (own : Bits)
    → s c ≡ some cn
    → cn.nr_of_keys ≡ max_keys
    → s' c ≡ some (split_lhs cn)
    → s' r ≡ some (split_rhs cn b)
    → IsOwned s own h c lo hi
    → own r ≡ false
    → ((x : ℕ) → own x ≡ true → x ≢ c → s' x ≡ s x)
    → (left : Bits) × (right : Bits) × IsHalves s s' own left right cn h c r lo hi
owned-IsHalves s s' cn b c r lo hi h own eq full at_c at_r (owned_leaf n eq' isleaf v mine) fresh
      same =
    let e : n ≡ cn = cc in
    (
      own,
      λ x. x == r,
      leaf-IsHalves s s' cn b c r lo hi eq full (rw (← e) v) at_c at_r own (rw (← e) isleaf) mine
          fresh,
    )
owned-IsHalves s s' cn b c r lo hi (suc h) own eq full at_c at_r
      (owned_inner n parts eq' isinner v mine p sub) fresh same =
    let e : n ≡ cn = cc in
    let v' : IsNode cn lo hi = rw (← e) v in
    let p' : IsParts own c parts cn.nr_of_keys = rw (← e) p in
    let sub' : (i : ℕ)
        → i ≤ cn.nr_of_keys
        → IsOwned s (parts i) h (cn.children i) (low_of cn lo i) (high_of cn hi i) =
      rw (← e) sub in
    let isinner' : cn.leaf ≡ false = rw (← e) isinner in
    (
      left_blocks s s' cn b c r lo hi eq full v' at_c at_r own h parts isinner' p' sub' mine fresh
          same,
      right_blocks s s' cn b c r lo hi eq full v' at_c at_r own h parts isinner' p' sub' mine fresh
          same,
      inner-IsHalves s s' cn b c r lo hi eq full v' at_c at_r own h parts isinner' p' sub' mine
          fresh same,
    )
