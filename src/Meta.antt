-- ===== src/Meta.antt =====
-- meta/: the tree of files, kept in one block of memory (meta/types.h), how it is read
-- (meta/meta_file_system.cc) and how a node of it is filled (meta/metafs_builder.cc).
-- An address is an offset from `data`. Numbers are little-endian, and the structures have the layout
-- of x86-64: `Node` takes 72 bytes and `Entry` 16.
pub mod Effects
pub mod Memory
pub mod MetaFileSystem
pub mod Stat
pub mod Queries
pub mod MetaFsBuilder
use distfs.Base.{ℕ, ◌+◌, ◌*◌, ◌^◌, List}
use Effects.{Outcome, done, ◌>>=◌}
use Memory.{u32_at, u64_at}

pub record Node : Type 0 where
  pub mode : ℕ
  pub uid : ℕ
  pub gid : ℕ
  pub size : ℕ
  pub block_count : ℕ
  pub mtime_ns : ℕ
  pub ctime_ns : ℕ
  pub xattrs_count : ℕ
  pub length : ℕ
  pub data_offset : ℕ

pub record Entry : Type 0 where
  pub name_offset : ℕ
  pub data_offset : ℕ

abbrev pub sizeof_node : ℕ
sizeof_node = 72

abbrev pub sizeof_entry : ℕ
sizeof_entry = 16

abbrev pub sizeof_usize : ℕ
sizeof_usize = 8

-- `*reinterpret_cast<const Node *>(data + offset)`.
unfoldable pub node_at : List ℕ → ℕ → Outcome Node
node_at mem offset = do
  mode ← u32_at mem offset
  uid ← u32_at mem (offset + 4)
  gid ← u32_at mem (offset + 8)
  size ← u64_at mem (offset + 16)
  block_count ← u64_at mem (offset + 24)
  mtime_ns ← u64_at mem (offset + 32)
  ctime_ns ← u64_at mem (offset + 40)
  xattrs_count ← u32_at mem (offset + 48)
  length ← u64_at mem (offset + 56)
  data_offset ← u64_at mem (offset + 64)
  done (record {
    mode = mode;
    uid = uid;
    gid = gid;
    size = size;
    block_count = block_count;
    mtime_ns = mtime_ns;
    ctime_ns = ctime_ns;
    xattrs_count = xattrs_count;
    length = length;
    data_offset = data_offset;
  })

-- `reinterpret_cast<const Entry *>(data + table)[i]`.
unfoldable pub entry_at : List ℕ → ℕ → ℕ → Outcome Entry
entry_at mem table i = do
  name_offset ← u64_at mem (table + i * sizeof_entry)
  data_offset ← u64_at mem (table + i * sizeof_entry + 8)
  done (record { name_offset = name_offset; data_offset = data_offset })
