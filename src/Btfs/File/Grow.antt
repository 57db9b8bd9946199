-- ===== src/Btfs/File/Grow.antt =====
-- BasicBTFS/file.c: a block of a file that has no cluster yet is given one.
use basic_btfs.Prelude.{ℕ, update}
use basic_btfs.Btfs.File.{ClusterTable, new_cluster}

pub grown : ClusterTable → ℕ → ℕ → ClusterTable
grown t m b = record t { table = update t.table m (new_cluster b) }
