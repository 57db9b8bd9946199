-- ===== src/Btfs/Btree/Insert/Leaf.antt =====
-- Insertion into a leaf keeps the keys in order and adds one entry.
use basic_btfs.Prelude.{
  ℕ, zero, suc, ◌+◌, ◌-◌, ◌≤◌, ◌<◌, ◌≡◌, ◌≢◌, ◌⊎◌, refl, true, some, arith, ltb, leb, ◌==◌, ◌&&◌,
  if◌then◌else◌, Bool-cases, inl, inr, sym, ◌∙◌, update, ltb→lt, ltb→le, ==→ne,
}
use basic_btfs.Kernel.{BitmapApi}
use basic_btfs.Btfs.Disk.{max_keys, Entry, Node, Disk, success, done, put_node}
use basic_btfs.Btfs.Btree.Shape.{key, IsNode}
use basic_btfs.Btfs.Btree.Insert.{sift, insert_in_leaf, insert_non_full}
use basic_btfs.Btfs.Btree.Remove.Leaf.{In}

-- The loop has stopped at slot `p`, and has moved the entries from there to `k` one up.
record IsSift (entries : ℕ → Entry) (k hash : ℕ) (r : ℕ × (ℕ → Entry)) : Type 0 where
  stop : r.0 ≤ k
  moved : (j : ℕ) → r.0 ≤ j → j < k → hash < (entries j).hash
  kept : 0 < r.0 → (entries (r.0 - 1)).hash ≤ hash
  slots : (j : ℕ) → r.1 j ≡ (if ltb r.0 j && leb j k then entries (j - 1) else entries j)

sift-IsSift : (k : ℕ) (entries : ℕ → Entry) (hash : ℕ) → IsSift entries k hash (sift k entries hash)
unfolding sift update
sift-IsSift zero entries hash = record {
  stop = omega arith;
  moved = λ j p q. absurd (omega arith);
  kept = λ p. absurd (omega arith);
  slots = λ j. ground arith;
}
sift-IsSift (suc k) entries hash = elim (Bool-cases (ltb hash (entries k).hash)) [
  | inl lt ↦
      let moved_up = update entries (k + 1) (entries k) in
      let rest = sift-IsSift k moved_up hash in
      rw lt (record {
        stop = omega (arith, rest.stop);
        moved = λ j p q. ground (arith, rest.moved j);
        kept = λ p. ground (arith, rest.kept, rest.stop);
        slots = λ j. ground (arith, rest.slots j, rest.stop);
      })
  | inr ge ↦ rw ge (record {
    stop = omega arith;
    moved = λ j p q. absurd (omega arith);
    kept = λ p. ground arith;
    slots = λ j. ground arith;
  })
]

module _ {n : Node} {lo hi : ℕ} (v : IsNode n lo hi) (e : Entry) where
  place : ℕ
  place = (sift n.nr_of_keys n.entries e.hash).0

  place-le : place ≤ n.nr_of_keys
  unfolding place
  place-le = (sift-IsSift n.nr_of_keys n.entries e.hash).stop

  -- The new leaf slot by slot.
  entries-insert :
      (j : ℕ)
      → (insert_in_leaf n e).entries j ≡ (
          if j == place
          then e
          else if ltb place j && leb j n.nr_of_keys
          then n.entries (j - 1)
          else n.entries j)
  unfolding insert_in_leaf place update
  entries-insert j = ground (arith, (sift-IsSift n.nr_of_keys n.entries e.hash).slots j)

  nr-insert : (insert_in_leaf n e).nr_of_keys ≡ n.nr_of_keys + 1
  unfolding insert_in_leaf
  nr-insert = refl

  above_place : (j : ℕ) → place ≤ j → j < n.nr_of_keys → e.hash < key n j
  unfolding place
  above_place j p q = (sift-IsSift n.nr_of_keys n.entries e.hash).moved j p q

  below_place : (j : ℕ) → j < place → key n j ≤ e.hash
  unfolding place
  below_place j p =
      let f = sift-IsSift n.nr_of_keys n.entries e.hash in
      ground (arith, f.kept, f.stop, v.sorted j (place - 1))

  In-insert_old : (x : Entry) → In x n → In x (insert_in_leaf n e)
  In-insert_old x (j, p, at) = elim (Bool-cases (ltb j place)) [
    | inl l ↦ (j, omega (arith, nr-insert), ground (arith, entries-insert j))
    | inr g ↦ (j + 1, omega (arith, nr-insert), ground (arith, entries-insert (j + 1)))
  ]

  In-insert_new : In e (insert_in_leaf n e)
  In-insert_new = (place, omega (arith, nr-insert, place-le), ground (arith, entries-insert place))

  In-insert : (x : Entry) → In x (insert_in_leaf n e) → In x n ⊎ (x ≡ e)
  In-insert x (j, p, at) = elim (Bool-cases (j == place)) [
    | inl here ↦ inr (sym at ∙ rw (entries-insert j, here) refl)
    | inr other ↦ elim (Bool-cases (ltb j place)) [
      | inl l ↦ inl (j, omega (arith, ltb→lt j place l, place-le), ground (arith, entries-insert j))
      | inr g ↦ inl (
        j - 1,
        omega (arith, nr-insert, ltb→le j place g, ==→ne j place other),
        ground (arith, entries-insert j, nr-insert),
      )
    ]
  ]

  module _ (room : n.nr_of_keys < max_keys) (above : lo ≤ e.hash) (below : e.hash < hi)
      (fresh : (x : Entry) → In x n → x.hash ≢ e.hash) where
    strict : (j : ℕ) → j < place → key n j < e.hash
    strict j p =
        omega
          (arith, below_place j p, place-le, fresh (n.entries j) (j, omega (arith, place-le), refl))

    insert-IsNode : IsNode (insert_in_leaf n e) lo hi
    insert-IsNode = record {
      size = omega (arith, nr-insert);
      sorted = λ j k p q. ground (
        arith,
        nr-insert,
        place-le,
        entries-insert j,
        entries-insert k,
        strict j,
        above_place (k - 1),
        v.sorted j k,
        v.sorted j (k - 1),
        v.sorted (j - 1) (k - 1),
      );
      above =
          λ j p. ground (arith, nr-insert, place-le, entries-insert j, v.above j, v.above (j - 1));
      below =
          λ j p. ground (arith, nr-insert, place-le, entries-insert j, v.below j, v.below (j - 1));
    }

leaf-insert : (n : Node) (e : Entry) → (insert_in_leaf n e).leaf ≡ n.leaf
unfolding insert_in_leaf
leaf-insert n e = refl

tree_name_bno-insert : (n : Node) (e : Entry) → (insert_in_leaf n e).tree_name_bno ≡ n.tree_name_bno
unfolding insert_in_leaf
tree_name_bno-insert n e = refl

-- Inserting into a leaf with room, under a hash that it does not hold, succeeds and writes that
-- block alone: it is a leaf again with its keys in order and the same list of names, and holds what
-- it held and the new entry.
pub insert_leaf :
    (api : BitmapApi) (d : Disk) (b fuel : ℕ) (n : Node) (lo hi : ℕ) (e : Entry)
    → d.node b ≡ some n
    → n.leaf ≡ true
    → IsNode n lo hi
    → n.nr_of_keys < max_keys
    → (lo ≤ e.hash) × (e.hash < hi)
    → ((x : Entry) → In x n → x.hash ≢ e.hash)
    → (n' : Node) × (insert_non_full api (suc fuel) b e d ≡ done success (put_node b n' d))
      × (n'.leaf ≡ true)
      × (n'.tree_name_bno ≡ n.tree_name_bno)
      × IsNode n' lo hi
      × In e n'
      × ((x : Entry) → In x n → In x n')
      × ((x : Entry) → In x n' → In x n ⊎ (x ≡ e))
unfolding insert_non_full
insert_leaf api d b fuel n lo hi e eq isleaf v room bounds fresh = (
  insert_in_leaf n e,
  ground arith,
  leaf-insert n e ∙ isleaf,
  tree_name_bno-insert n e,
  insert-IsNode v e room bounds.0 bounds.1 fresh,
  In-insert_new v e,
  In-insert_old v e,
  In-insert v e,
)
