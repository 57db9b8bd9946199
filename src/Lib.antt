-- ===== src/Lib.antt =====
-- BasicBTFS is a file system for the Linux kernel whose directories are B-trees keyed by the hash
-- of a file name. This library models its C code and proves what the code does.
--
-- The parts and how they meet:
-- * BasicBTFS/bitmap.h allocates inode numbers and runs of blocks in two free maps, and keeps the
--   counts of the superblock. All other parts call it. Btfs/Bitmap.antt has one function per
--   function of the header; the kernel's bitmap code is a parameter, Kernel.antt, with named laws
--   and a plain implementation that satisfies them.
-- * BasicBTFS/btree.h searches, inserts and deletes in the tree of a directory. Btfs/Disk.antt has
--   the structures, the state (superblock, blocks read as nodes, roots of the inodes, cached
--   directories) and the monad of the code: a function takes a state, and ends in a result and a
--   state, in a fault (a write outside an array), or out of fuel. Btfs/Btree/Search, Insert, Root,
--   Delete and Remove follow the functions of the header from the top to the bottom; Shape says
--   what a search tree is, and Owned which blocks it stands in. Btfs/Btree/Insert has the descent
--   of an insertion in steps: a leaf, a split node, the halves, the parent, the state behind a
--   split; Frame says what it leaves alone, and Counted adds the count of files in the root.
-- * BasicBTFS/nametree.h keeps the names of a directory in a chain of blocks. Btfs/NameBlock.antt
--   has a block: its header as fields, its entries as bytes by their offset. Btfs/Names.antt has
--   the operations; below it, Bytes reads back what was written, Slots says which entries a block
--   in order holds, Listing, Written, Update, Chain and Insert prove the operations on a block and
--   on the chain. The reader of a listing, which may refuse a name, is a parameter.
-- * BasicBTFS/cache.h keeps the directories used last, with copies of their nodes and of their
--   blocks of names: Btfs/Cache.antt. BasicBTFS/btreecache.h has the algorithms of the tree on the
--   copied nodes, which are linked by addresses: Btfs/BtreeCache. The kernel's allocator is a
--   parameter, and the read through an address that has no node is a fault.
-- * BasicBTFS/dir.c puts the tree, the cache and the names together: Btfs/Dir.antt, with the
--   listing in Dir/Iterate, the release of a directory in Dir/Free and Dir/FreeNames, and the
--   addition of an entry, where all parts meet, in Dir/Add. BasicBTFS/inode.c makes, removes and
--   renames on top of it: Btfs/Inode.antt. BasicBTFS/super.c mounts: Btfs/Mount.antt. What stands
--   in a variable that the source does not set is an argument, and so is the kernel's crc32.
-- * BasicBTFS/file.c maps the blocks of a file to runs of blocks, allocates them and frees them.
--   Btfs/File.antt has a state of its own: superblock, cluster tables, file map and data blocks.
-- * BasicBTFS/mkfs.c lays out a device and writes its maps; Btfs/Mkfs.antt follows it, and reads a
--   map back as `init_bitmap` of BasicBTFS/super.c does.
-- * BasicFATFS is a second file system with directories that are lists of entries over a table of
--   blocks. Ftfs/Bitmap.antt follows its bitmap.h, Ftfs/Iterate, Search, Add, Remove and Rename
--   the functions of its dir.c, Ftfs/File.antt its file.c, Ftfs/Inode.antt its inode.c;
--   Ftfs/Disk.antt has the state. Ftfs/Shape.antt says which sequence of entries a directory
--   holds, and the theorems on the operations are in its terms.
--
-- A struct is a record, an array a function of the index, a 32-bit field a natural number with its
-- wrap-around written out (Prelude/Words.antt), a block that cannot be read is `none`. Loops of
-- the source are recursions on the number of rounds left, or on fuel where the source descends a
-- tree: the theorems on the look-up, on insertion and on the release of a tree ask for fuel above
-- the height of the tree, which is enough, those on a list of names for more rounds than it has
-- further blocks; those on a deletion in a leaf need one step. A walk over a block has 513 rounds:
-- each passes at least 8 bytes. The loop over the children in a merge has 160 rounds, which end
-- outside the array if it does not end before; the loop that releases a file of BasicFATFS has any
-- number, and 1024 are enough where every block can be read. Buffers are written in place in the
-- source, so a model that holds a node over a call reads it again behind the call.
--
-- Not modelled: defragmentation (BasicBTFS/defrag.h), the removal of a regular file, the page
-- cache, the registration with the kernel, and the variant BasicBTFSNC, which has the same code
-- less the cache. Log messages, times, owners, counts of links that no test reads, reference
-- counts of buffers and marks of dirty buffers are left out. A block is read as a node or as a
-- block of names, and the model keeps the two views apart: what the bytes of one mean when they
-- are read as the other is not modelled. The same holds for BasicFATFS, where a block is read as a
-- table or as entries.
pub mod Prelude
pub mod Kernel
pub mod Btfs
pub mod Ftfs
