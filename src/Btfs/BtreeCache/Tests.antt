-- ===== src/Btfs/BtreeCache/Tests.antt =====
-- A deletion in BasicBTFS/btreecache.h that never ends, at a small cached tree.
use basic_btfs.Prelude.{◌+◌, ◌≡◌, refl, true, false, none, some, arith, ◌==◌, if◌then◌else◌}
use basic_btfs.Btfs.Disk.{Node, Store, Disk, out_of_fuel}
use basic_btfs.Btfs.Btree.Search.{scan_up}
use basic_btfs.Btfs.Btree.Tests.{rising, no_kids, disk}
use basic_btfs.Btfs.Cache.{cached_entry_at}
use basic_btfs.Btfs.BtreeCache.Delete.{cached_child_at, cache_find_key, cache_delete}
use basic_btfs.Btfs.BtreeCache.Endless.{cache_delete_endless}

-- The key 900 above two leaves, of which the left one has 80 keys.
abbrev top : Node
top = rising false 1 900 (λ i. 100 + i)

abbrev full : Node
full = rising true 80 10 no_kids

abbrev nodes : Store
nodes a = if a == 99 then some top else some full

abbrev state : Disk
state = record (disk λ _. none) { cached = nodes }

at_0 : cache_find_key top 900 ≡ 0
unfolding cache_find_key scan_up
at_0 = refl

child : cached_child_at top 0 ≡ 100
unfolding cached_child_at
child = refl

entry : (cached_entry_at top 0).hash ≡ 900
unfolding cached_entry_at
entry = refl

cache_delete_endless_example :
    cache_delete 1000 (record { i_ino = 3; i_bno = 6 }) 99 900 state ≡ out_of_fuel
cache_delete_endless_example =
    cache_delete_endless 1000 (record { i_ino = 3; i_bno = 6 }) 99 900 top full state refl refl
      (rw at_0 (omega arith)) (rw at_0 entry) (rw (at_0, child) refl) (omega arith)
