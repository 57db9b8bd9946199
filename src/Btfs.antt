-- ===== src/Btfs.antt =====
-- BasicBTFS: the file system with B-tree directories.
pub mod Super
pub mod Bitmap
pub mod NameBlock
pub mod Disk
pub mod Cache
pub mod Btree
pub mod BtreeCache
pub mod Names
pub mod Dir
pub mod Mount
pub mod Inode
pub mod Mkfs
pub mod File
