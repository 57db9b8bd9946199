-- ===== src/Btfs/Mount/Tests.antt =====
-- Two mounts of a device with a new root, BasicBTFS/super.c.
use basic_btfs.Prelude.{ℕ, some}
use basic_btfs.Btfs.Disk.{Node, zero_node, Store, Disk, Inode}
use basic_btfs.Btfs.Btree.Tests.{disk}
use basic_btfs.Btfs.Names.Tests.{empty}

-- Three keys are still in the block of the root; block 5 is the first free one.
abbrev old_root : Node
old_root = record zero_node { nr_of_keys = 3 }

abbrev new_device : Disk
new_device = record (disk λ _. some old_root) { names = λ _. some empty }

abbrev root_inode : Inode
root_inode = record { i_ino = 0; i_bno = 4 }

abbrev alloc_file : Store → ℕ
alloc_file _ = 100
