-- ===== src/Btfs/Btree.antt =====
-- BasicBTFS/btree.h: the B-tree of a directory, keyed by the hash of the file name.
pub mod Shape
pub mod Owned
pub mod Search
pub mod Insert
pub mod Root
pub mod Delete
pub mod Remove
pub mod Tests
