-- ===== src/Btfs/Btree/Search/WithEntry.antt =====
-- The two look-ups of BasicBTFS/btree.h agree.
use basic_btfs.Prelude.{
  ℕ, zero, suc, ◌≡◌, refl, Option, none, some, inl, inr, true, false, Bool-cases, ==→eq, ==→ne, ◌≢◌,
  arith, ◌==◌,
}
use basic_btfs.Btfs.Disk.{Entry, Node, Store, entry_at}
use basic_btfs.Btfs.Btree.Search.{lookup, lookup_with_entry, child_index}

-- The inode number that a result carries, and what stands in the entry that it carries.
abbrev pub answer : Option (ℕ × Option Entry) → Option ℕ
answer none = none
answer (some (ino, e)) = some ino

abbrev pub IsMatch : ℕ → Option (ℕ × Option Entry) → Type 0
IsMatch hash (some (ino, some e)) = (e.ino ≡ ino) × (e.hash ≡ hash)
IsMatch hash (some (ino, none)) = ino ≡ 0
IsMatch hash none = Unit

abbrev Agrees : ℕ → Store → ℕ → ℕ → Type 0
Agrees fuel s b hash =
    (answer (lookup_with_entry fuel s b hash) ≡ lookup fuel s b hash)
    × IsMatch hash (lookup_with_entry fuel s b hash)

module _ (fuel : ℕ) (s : Store) (b hash : ℕ) where
  unreadable_both :
      s b ≡ none
      → (lookup_with_entry (suc fuel) s b hash ≡ some (0, none))
        × (lookup (suc fuel) s b hash ≡ some 0)
  unfolding lookup lookup_with_entry
  unreadable_both e = (ground arith, ground arith)

  module _ {n : Node} (e : s b ≡ some n) where
    found : Entry
    found = entry_at n (child_index n hash)

    hit_both :
        found.hash ≡ hash
        → (lookup_with_entry (suc fuel) s b hash ≡ some (found.ino, some found))
          × (lookup (suc fuel) s b hash ≡ some found.ino)
    unfolding lookup lookup_with_entry found
    hit_both q = (ground arith, ground arith)

    leaf_both :
        found.hash ≢ hash
        → n.leaf ≡ true
        → (lookup_with_entry (suc fuel) s b hash ≡ some (0, none))
          × (lookup (suc fuel) s b hash ≡ some 0)
    unfolding lookup lookup_with_entry found
    leaf_both ne isleaf = (ground arith, ground arith)

    below_both :
        found.hash ≢ hash
        → n.leaf ≡ false
        → let child = n.children (child_index n hash) in
          (lookup_with_entry (suc fuel) s b hash ≡ lookup_with_entry fuel s child hash)
          × (lookup (suc fuel) s b hash ≡ lookup fuel s child hash)
    unfolding lookup lookup_with_entry found
    below_both ne isinner = (ground arith, ground arith)

step-Agrees :
    (fuel : ℕ) (s : Store) (b hash : ℕ) (o : Option Node)
    → s b ≡ o
    → ((c : ℕ) → Agrees fuel s c hash)
    → Agrees (suc fuel) s b hash
step-Agrees fuel s b hash none e rec =
    let (p, q) = unreadable_both fuel s b hash e in rw (p, q) (refl, refl)
step-Agrees fuel s b hash (some n) e rec =
    elim (Bool-cases ((found fuel s b hash e).hash == hash)) [
      | inl h ↦
          let at = ==→eq _ _ h in
          let (p, q) = hit_both fuel s b hash e at in rw (p, q) (refl, (refl, at))
      | inr h ↦
          let ne = ==→ne _ _ h in
          elim (Bool-cases n.leaf) [
            | inl isleaf ↦
                let (p, q) = leaf_both fuel s b hash e ne isleaf in rw (p, q) (refl, refl)
            | inr isinner ↦
                let (p, q) = below_both fuel s b hash e ne isinner in
                rw (p, q) (rec (n.children (child_index n hash)))
          ]
    ]

-- With any fuel and in any store, `basicbtfs_btree_node_lookup_with_entry` answers what
-- `basicbtfs_btree_node_lookup` answers. The entry that it copies has that inode number and the
-- hash; it copies none only where the answer is 0.
pub lookup_with_entry_lem :
    (fuel : ℕ) (s : Store) (b hash : ℕ)
    → (answer (lookup_with_entry fuel s b hash) ≡ lookup fuel s b hash)
      × IsMatch hash (lookup_with_entry fuel s b hash)
unfolding lookup lookup_with_entry
lookup_with_entry_lem zero s b hash = (refl, tt)
lookup_with_entry_lem (suc fuel) s b hash =
    step-Agrees fuel s b hash (s b) refl λ c. lookup_with_entry_lem fuel s c hash
