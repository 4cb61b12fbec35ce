-- ===== src/Meta/Stat/Tests.antt =====
-- meta/: the status of a directory, through a node.
use distfs.Base.{◌≡◌, arith}
use distfs.Meta.Effects.{done}
use distfs.Meta.{Node}
use distfs.Meta.Stat.{Timespec, Stat, set_stat, get_stat, get_stat-set_stat}
use distfs.Meta.MetaFileSystem.{is_dir}

abbrev noon : Timespec
noon = record { sec = 1_700_000_000; nsec = 999_999_999 }

abbrev dir : Stat
dir = record {
  mode = 0x41ED;
  nlink = 5;
  uid = 1000;
  gid = 100;
  size = 4096;
  blocks = 8;
  atim = record { sec = 1; nsec = 0 };
  mtim = noon;
  ctim = noon;
}

abbrev empty : Node
empty = record {
  mode = 0;
  uid = 0;
  gid = 0;
  size = 0;
  block_count = 0;
  mtime_ns = 0;
  ctime_ns = 0;
  xattrs_count = 0;
  length = 0;
  data_offset = 0;
}

get_stat-set_stat_example :
    (n : Node) × (set_stat dir empty ≡ done n)
    × (get_stat n ≡ record dir { nlink = 2; atim = noon })
unfolding is_dir
get_stat-set_stat_example = get_stat-set_stat dir empty (ground arith) (ground arith)
