-- ===== src/Ftfs.antt =====
-- BasicFATFS: a file system whose directories are lists of entries over a table of blocks.
pub mod Bitmap
pub mod Disk
pub mod Shape
pub mod Search
pub mod Iterate
pub mod Add
pub mod Remove
pub mod Rename
pub mod Inode
pub mod File
mod Tests
