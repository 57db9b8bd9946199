-- ===== src/Btfs/Btree/Search/Scan.antt =====
-- The loop over the keys of a node stops at the first key that is not below the hash.
use basic_btfs.Prelude.{ℕ, zero, suc, ◌+◌, ◌≤◌, ◌<◌, ◌≡◌, arith, ltb, Bool-cases, inl, inr}
use basic_btfs.Btfs.Disk.{Entry, Node, entry_at}
use basic_btfs.Btfs.Btree.Shape.{key, IsNode}
use basic_btfs.Btfs.Btree.Search.{scan_up, child_index}

pub record IsScan (entries : ℕ → Entry) (hash from to k : ℕ) : Type 0 where
  pub starts : from ≤ k
  pub stops : k ≤ to
  pub smaller : (j : ℕ) → from ≤ j → j < k → (entries j).hash < hash
  pub first : k < to → hash ≤ (entries k).hash

pub scan_up-IsScan :
    (rounds : ℕ) (entries : ℕ → Entry) (hash index to : ℕ)
    → index + rounds ≡ to
    → IsScan entries hash index to (scan_up rounds entries hash index)
unfolding scan_up
scan_up-IsScan zero entries hash index to e = record {
  starts = omega arith;
  stops = omega arith;
  smaller = λ j p q. absurd (omega arith);
  first = λ p. absurd (omega arith);
}
scan_up-IsScan (suc rounds) entries hash index to e =
    elim (Bool-cases (ltb (entries index).hash hash)) [
      | inl lt ↦
          let rest = scan_up-IsScan rounds entries hash (index + 1) to (omega arith) in
          rw lt (record {
            starts = omega (arith, rest.starts);
            stops = rest.stops;
            smaller = λ j p q. ground (arith, rest.smaller j);
            first = rest.first;
          })
      | inr ge ↦ rw ge (record {
        starts = omega arith;
        stops = omega arith;
        smaller = λ j p q. absurd (omega arith);
        first = λ p. ground arith;
      })
    ]

-- In a node the slot behind the loop is a key or the one behind the last.
module _ {n : Node} {lo hi : ℕ} (v : IsNode n lo hi) (hash : ℕ) where
  pub entry_at-key : (i : ℕ) → i < n.nr_of_keys → (entry_at n i).hash ≡ key n i
  unfolding entry_at
  entry_at-key i p = ground (arith, v.size)

  pub child_index-IsScan : IsScan n.entries hash 0 n.nr_of_keys (child_index n hash)
  unfolding child_index
  child_index-IsScan =
      let scan = scan_up-IsScan n.nr_of_keys (entry_at n) hash 0 n.nr_of_keys (omega arith) in
      record {
        starts = scan.starts;
        stops = scan.stops;
        smaller = λ j p q. omega (arith, scan.smaller j p q, scan.stops, entry_at-key j);
        first = λ p. omega (arith, scan.first p, entry_at-key _ p);
      }
