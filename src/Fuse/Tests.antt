-- ===== src/Fuse/Tests.antt =====
-- fuse/fuse_main.cc, run: a file of five bytes that begins at the third byte of the image.
use distfs.Base.{ℕ, ◌++◌, List, [], ◌∷◌, some, ◌≡◌, refl, arith}
use distfs.Common.{ErrorCode}
use distfs.Data.Samples.{image-full, chunk_map-IsGenuine, provider, provider-IsCoherent}
use distfs.Meta.{node_at}
use distfs.Meta.Effects.{done}
use distfs.Meta.Memory.{u32_at, u64_at}
use distfs.Meta.MetaFileSystem.{is_reg}
use distfs.Meta.Queries.{file_position_at}
use distfs.Fuse.{distfs_read}
use distfs.Fuse.Reading.{provided, Replies, distfs_read-within, distfs_read-behind}

abbrev u64 : ℕ → List ℕ
u64 c = c ∷ 0 ∷ 0 ∷ 0 ∷ 0 ∷ 0 ∷ 0 ∷ 0 ∷ []

-- The node: mode 0x8000, five bytes, at 2.
abbrev node : List ℕ
node =
    (0 ∷ 128 ∷ 0 ∷ 0 ∷ 0 ∷ 0 ∷ 0 ∷ 0 ∷ [])
    ++ u64 0
    ++ u64 5
    ++ u64 1
    ++ u64 0
    ++ u64 0
    ++ u64 0
    ++ u64 5
    ++ u64 2

node_file : file_position_at node 0 ≡ done (ErrorCode.ok, some (2, 5))
unfolding file_position_at node_at u32_at u64_at is_reg
node_file = refl

abbrev zeros : List ℕ
zeros = 0 ∷ 0 ∷ 0 ∷ 0 ∷ []

distfs_read-within_example :
    Replies chunk_map-IsGenuine 4
      (omega arith)
      (omega arith)
      image-full
      zeros
      0
      node
      0
      2
      5
      9
      1
      provider
      provider-IsCoherent
      node_file
      3
      4
      (distfs_read node
        (provided chunk_map-IsGenuine 4
          (omega arith)
          (omega arith)
          image-full
          zeros
          0
          node
          0
          2
          5
          9
          1
          provider
          provider-IsCoherent
          node_file)
        0
        9
        1
        provider)
distfs_read-within_example =
    distfs_read-within chunk_map-IsGenuine 4 (omega arith) (omega arith) image-full zeros 0 node 0 2
      5 9 1 provider provider-IsCoherent node_file (omega arith) (omega arith) (omega arith)

distfs_read-behind_example :
    Replies chunk_map-IsGenuine 4
      (omega arith)
      (omega arith)
      image-full
      zeros
      0
      node
      0
      2
      5
      1
      6
      provider
      provider-IsCoherent
      node_file
      8
      1
      (distfs_read node
        (provided chunk_map-IsGenuine 4
          (omega arith)
          (omega arith)
          image-full
          zeros
          0
          node
          0
          2
          5
          1
          6
          provider
          provider-IsCoherent
          node_file)
        0
        1
        6
        provider)
distfs_read-behind_example =
    distfs_read-behind chunk_map-IsGenuine 4 (omega arith) (omega arith) image-full zeros 0 node 0 2
      5 1 6 provider provider-IsCoherent node_file (omega arith) (omega arith) (omega arith)
      (omega arith)
