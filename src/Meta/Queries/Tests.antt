-- ===== src/Meta/Queries/Tests.antt =====
-- meta/meta_file_system.cc, run: a root with the extended attributes `a` and `b`.
use distfs.Base.{ℕ, ◌++◌, List, [], ◌∷◌, some, ◌≡◌, refl, arith}
use distfs.Common.{ErrorCode}
use distfs.Meta.{Node, node_at, entry_at}
use distfs.Meta.Effects.{done, undefined}
use distfs.Meta.Memory.{u32_at, u64_at, until_nul, string_at}
use distfs.Meta.MetaFileSystem.{walk, get_node_offset, is_lnk}
use distfs.Meta.Queries.{list_xattr, get_symlink}
use distfs.Meta.Queries.Symlinks.{HasLink, get_symlink-overrun}
use distfs.Meta.Queries.Xattrs.{HasNames, list_xattr-fits, list_xattr-cut}

abbrev u64 : ℕ → List ℕ
u64 c = c ∷ 0 ∷ 0 ∷ 0 ∷ 0 ∷ 0 ∷ 0 ∷ 0 ∷ []

-- The size, the node, its two entries, and their names.
abbrev block : List ℕ
block =
    u64 116
    ++ u64 0
    ++ u64 0
    ++ u64 0
    ++ u64 0
    ++ u64 0
    ++ u64 0
    ++ u64 2
    ++ u64 0
    ++ u64 0
    ++ u64 112
    ++ u64 0
    ++ u64 114
    ++ u64 0
    ++ (b'a' ∷ 0 ∷ b'b' ∷ 0 ∷ [])

abbrev root : Node
root = record {
  mode = 0;
  uid = 0;
  gid = 0;
  size = 0;
  block_count = 0;
  mtime_ns = 0;
  ctime_ns = 0;
  xattrs_count = 2;
  length = 0;
  data_offset = 0;
}

block-HasNames : HasNames block (b'/' ∷ []) ((b'a' ∷ []) ∷ (b'b' ∷ []) ∷ [])
unfolding node_at entry_at u32_at u64_at string_at until_nul walk get_node_offset
block-HasNames = record {
  offset = 8;
  node = root;
  found = refl;
  read = refl;
  count = refl;
  named = (
    (record { name_offset = 112; data_offset = 0 }, refl, refl),
    ((record { name_offset = 114; data_offset = 0 }, refl, refl), tt),
  );
}

list_xattr-fits_example :
    (list_xattr block (b'/' ∷ []) 9 ≡ done (ErrorCode.ok, b'a' ∷ 0 ∷ b'b' ∷ 0 ∷ [], some 4))
    × (list_xattr block (b'/' ∷ []) 0 ≡ done (ErrorCode.ok, [], some 4))
list_xattr-fits_example =
    list_xattr-fits block (b'/' ∷ []) ((b'a' ∷ []) ∷ (b'b' ∷ []) ∷ []) 9 block-HasNames
      (omega arith)

list_xattr-cut_example : list_xattr block (b'/' ∷ []) 2 ≡ done (ErrorCode.ok, b'a' ∷ 0 ∷ [], some 4)
list_xattr-cut_example =
    list_xattr-cut block (b'/' ∷ []) ((b'a' ∷ []) ∷ []) ((b'b' ∷ []) ∷ []) block-HasNames

-- A block whose root is a symbolic link to `x`.
abbrev link_block : List ℕ
link_block =
    u64 82
    ++ (0 ∷ 160 ∷ 0 ∷ 0 ∷ 0 ∷ 0 ∷ 0 ∷ 0 ∷ [])
    ++ u64 0
    ++ u64 0
    ++ u64 0
    ++ u64 0
    ++ u64 0
    ++ u64 0
    ++ u64 1
    ++ u64 80
    ++ (b'x' ∷ 0 ∷ [])

link_block-HasLink : HasLink link_block (b'/' ∷ []) (b'x' ∷ [])
unfolding node_at u32_at u64_at string_at until_nul walk get_node_offset is_lnk
link_block-HasLink = record {
  offset = 8;
  node = record root { mode = 0xA000; xattrs_count = 0; length = 1; data_offset = 80 };
  found = refl;
  read = refl;
  link = refl;
  target = refl;
}

get_symlink-overrun_example : get_symlink link_block (b'/' ∷ []) 4 (0 ∷ 0 ∷ 0 ∷ 0 ∷ []) ≡ undefined
get_symlink-overrun_example =
    get_symlink-overrun link_block (b'/' ∷ []) (b'x' ∷ []) (0 ∷ 0 ∷ 0 ∷ 0 ∷ []) link_block-HasLink
