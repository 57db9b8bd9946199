-- ===== src/Btfs/Btree/Insert/Tests.antt =====
-- An insertion that splits a full leaf: the root at block 2 has the key 20, and the leaves at block
-- 3, with one key, and at block 4, with 159 keys from 30 on.
use basic_btfs.Prelude.{
  ℕ, zero, suc, ◌+◌, ◌≤◌, ◌≡◌, ◌≢◌, refl, true, false, some, arith, ◌==◌, ◌||◌, if◌then◌else◌, inl,
  inr,
}
use basic_btfs.Kernel.{Bits, plain_api, plain_api-IsBitmapApi}
use basic_btfs.Btfs.Bitmap.Count.{count_clear}
use basic_btfs.Btfs.Disk.{max_keys, Entry, Node, zero_node, Disk, success, done}
use basic_btfs.Btfs.Btree.Shape.{IsNode, low_of, high_of, Holds, holds_in}
use basic_btfs.Btfs.Btree.Owned.{IsOwned, owned_leaf, owned_inner}
use basic_btfs.Btfs.Btree.Insert.{insert_non_full}
use basic_btfs.Btfs.Btree.Insert.Supply.{IsReady, free}
use basic_btfs.Btfs.Btree.Insert.Whole.{IsInserted}
use basic_btfs.Btfs.Btree.Insert.Correct.{insert_non_full_lem}
use basic_btfs.Btfs.Btree.Tests.{file, rising, no_kids, disk}

abbrev top : Node
top = rising false 1 20 (λ i. 3 + i)

abbrev low_leaf : Node
low_leaf = rising true 1 10 no_kids

abbrev full_leaf : Node
full_leaf = rising true max_keys 30 no_kids

abbrev state : Disk
state = disk λ b.
    some
      (if b == 2 then top else if b == 3 then low_leaf else if b == 4 then full_leaf else zero_node)

abbrev tree_blocks : Bits
tree_blocks x = (x == 2) || (x == 3) || (x == 4)

low_leaf-IsNode : IsNode low_leaf 10 20
low_leaf-IsNode = record {
  size = omega arith;
  sorted = λ i j p q. omega arith;
  above = λ i p. ground arith;
  below = λ i p. ground arith;
}

full_leaf-IsNode : IsNode full_leaf 21 2000
full_leaf-IsNode = record {
  size = omega arith;
  sorted = λ i j p q. ground arith;
  above = λ i p. ground arith;
  below = λ i p. ground arith;
}

top-IsNode : IsNode top 10 2000
top-IsNode = record {
  size = omega arith;
  sorted = λ i j p q. omega arith;
  above = λ i p. ground arith;
  below = λ i p. ground arith;
}

child-IsOwned :
    (i : ℕ)
    → i ≤ 1
    → IsOwned state.node (λ x. x == 3 + i) 0 (3 + i) (low_of top 10 i) (high_of top 2000 i)
child-IsOwned zero le = owned_leaf low_leaf refl refl low_leaf-IsNode refl
child-IsOwned (suc zero) le = owned_leaf full_leaf refl refl full_leaf-IsNode refl
child-IsOwned (suc (suc i)) le = absurd (omega arith)

tree-IsOwned : IsOwned state.node tree_blocks 1 2 10 2000
tree-IsOwned =
    owned_inner top (λ i x. x == 3 + i) refl refl top-IsNode refl
      (record {
        within = λ i x l q. ground arith;
        apart = λ i j x l l' ne q. ground arith;
        below = λ i l. ground arith;
      })
      child-IsOwned

state-IsReady : IsReady state
state-IsReady = record { small = omega arith; first = refl; reads = λ x lt. (_, refl) }

six_free : free state ≡ 6
unfolding count_clear
six_free = refl

low_not_35 : (x : Entry) → Holds state.node x 3 → x.hash ≢ 35
low_not_35 x holds e = elim (holds_in low_leaf refl holds) [
  | inl (i, lt, at) ↦ ground arith
  | inr (i, isinner, _, _) ↦ ground arith
]

full_not_35 : (x : Entry) → Holds state.node x 4 → x.hash ≢ 35
full_not_35 x holds e = elim (holds_in full_leaf refl holds) [
  | inl (i, lt, at) ↦ ground arith
  | inr (i, isinner, _, _) ↦ ground arith
]

child_not_35 : (x : Entry) (i : ℕ) → i ≤ 1 → Holds state.node x (3 + i) → x.hash ≢ 35
child_not_35 x zero le holds = low_not_35 x holds
child_not_35 x (suc zero) le holds = full_not_35 x holds
child_not_35 x (suc (suc i)) le holds = absurd (omega arith)

not_35 : (x : Entry) → Holds state.node x 2 → x.hash ≢ 35
not_35 x holds e = elim (holds_in top refl holds) [
  | inl (i, lt, at) ↦ ground arith
  | inr (i, _, le, rest) ↦ child_not_35 x i le rest e
]

insert_non_full_lem_example :
    (d' : Disk) × (own : Bits) × (insert_non_full plain_api 2 2 (file 7 35) state ≡ done success d')
    × IsInserted state d' tree_blocks own 1 1 2 10 2000 (file 7 35)
insert_non_full_lem_example =
    insert_non_full_lem plain_api plain_api-IsBitmapApi 2 1 state tree_blocks 2 10 2000 (file 7 35)
      (omega arith) state-IsReady (rw six_free (omega arith)) tree-IsOwned (λ x q. ground arith)
      (λ n at. ground arith) (omega arith, omega arith) not_35
