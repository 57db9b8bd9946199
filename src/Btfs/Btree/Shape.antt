-- ===== src/Btfs/Btree/Shape.antt =====
-- What the blocks of a directory tree promise: the order of the keys in a node, the search tree
-- under a block, and the entries that it holds.
use basic_btfs.Prelude.{
  ℕ, zero, suc, ◌+◌, ◌≤◌, ◌<◌, ◌≡◌, true, false, some, arith, ltb, if◌then◌else◌, ◌⊎◌, inl, inr,
  Bool-cases, ◌==◌, ==→eq, ==→ne, Option,
}
use mathlib.Core.Path.{subst}
use basic_btfs.Btfs.Disk.{max_keys, Entry, Node, Store}

abbrev pub key : Node → ℕ → ℕ
key n i = (n.entries i).hash

-- The keys of a node rise strictly and lie from `lo` up to, and not at, `hi`.
pub record IsNode (n : Node) (lo hi : ℕ) : Type 0 where
  pub size : n.nr_of_keys ≤ max_keys
  pub sorted : (i j : ℕ) → i < j → j < n.nr_of_keys → key n i < key n j
  pub above : (i : ℕ) → i < n.nr_of_keys → lo ≤ key n i
  pub below : (i : ℕ) → i < n.nr_of_keys → key n i < hi

-- The bounds of the keys under child `i`.
abbrev pub low_of : Node → ℕ → ℕ → ℕ
low_of n lo zero = lo
low_of n lo (suc i) = key n i + 1

abbrev pub high_of : Node → ℕ → ℕ → ℕ
high_of n hi i = if ltb i n.nr_of_keys then key n i else hi

-- A search tree of a given height under a block; every node of it satisfies `P`.
pub data IsTree (P : Node → Type 0) (s : Store) : ℕ → ℕ → ℕ → ℕ → Type 0 where
  leaf :
      {b lo hi : ℕ} (n : Node)
      → s b ≡ some n
      → n.leaf ≡ true
      → P n
      → IsNode n lo hi
      → IsTree P s zero b lo hi
  inner :
      {h b lo hi : ℕ} (n : Node)
      → s b ≡ some n
      → n.leaf ≡ false
      → P n
      → IsNode n lo hi
      → ((i : ℕ) → i ≤ n.nr_of_keys → IsTree P s h (n.children i) (low_of n lo i) (high_of n hi i))
      → IsTree P s (suc h) b lo hi

-- The entry stands in a key slot of the node at a block, or of a node under it.
pub data Holds (s : Store) (e : Entry) : ℕ → Type 0 where
  here :
      {b : ℕ} (n : Node) (i : ℕ) → s b ≡ some n → i < n.nr_of_keys → n.entries i ≡ e → Holds s e b
  under :
      {b : ℕ} (n : Node) (i : ℕ)
      → s b ≡ some n
      → n.leaf ≡ false
      → i ≤ n.nr_of_keys
      → Holds s e (n.children i)
      → Holds s e b

-- What `Holds` says once the node is known.
abbrev pub HoldsIn : Store → Entry → Node → Type 0
HoldsIn s e n =
    ((i : ℕ) × (i < n.nr_of_keys) × (n.entries i ≡ e))
    ⊎ ((i : ℕ) × (n.leaf ≡ false) × (i ≤ n.nr_of_keys) × Holds s e (n.children i))

same_node : {n m : Node} {o : Option Node} → o ≡ some n → o ≡ some m → m ≡ n
same_node p q = cc

pub holds_in :
    {s : Store} {e : Entry} {b : ℕ} (n : Node) → s b ≡ some n → Holds s e b → HoldsIn s e n
holds_in {s} {e} n eq (here m i eq' lt at) =
    subst (HoldsIn s e) (same_node eq eq') (inl (i, lt, at))
holds_in {s} {e} n eq (under m i eq' below le rest) =
    subst (HoldsIn s e) (same_node eq eq') (inr (i, below, le, rest))

module _ {n : Node} {lo hi : ℕ} (v : IsNode n lo hi) where
  pub low_of-ge : (i : ℕ) → i ≤ n.nr_of_keys → lo ≤ low_of n lo i
  low_of-ge zero le = omega arith
  low_of-ge (suc i) le = omega (arith, v.above i le)

  pub high_of-le : (i : ℕ) → high_of n hi i ≤ hi
  high_of-le i = ground (arith, v.below i)

  -- Keys left of a child are below its lower bound, and keys right of it are not below its upper.
  pub key_lt_low : (i j : ℕ) → j < i → i ≤ n.nr_of_keys → key n j < low_of n lo i
  key_lt_low zero j lt le = absurd (omega arith)
  key_lt_low (suc i) j lt le = elim (Bool-cases (j == i)) [
    | inl e ↦ rw (==→eq j i e) (omega arith)
    | inr e ↦ omega (arith, ==→ne j i e, v.sorted j i)
  ]

module _ {P : Node → Type 0} {s : Store} where
  -- An entry under a block has its hash between the bounds of the tree there.
  pub Holds-bounds :
      {h b lo hi : ℕ} {e : Entry}
      → IsTree P s h b lo hi
      → Holds s e b
      → (lo ≤ e.hash) × (e.hash < hi)
  Holds-bounds (leaf n eq isleaf p v) holds = elim (holds_in n eq holds) [
    | inl (i, lt, at) ↦ rw (← at) (v.above i lt, v.below i lt)
    | inr (i, isinner, _, _) ↦ absurd (cc)
  ]
  Holds-bounds (inner n eq isinner p v sub) holds = elim (holds_in n eq holds) [
    | inl (i, lt, at) ↦ rw (← at) (v.above i lt, v.below i lt)
    | inr (i, _, le, rest) ↦
        omega (arith, Holds-bounds (sub i le) rest, low_of-ge v i le, high_of-le v i)
  ]
