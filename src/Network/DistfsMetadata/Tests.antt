-- ===== src/Network/DistfsMetadata/Tests.antt =====
-- network/distfs_metadata.cc, run: a hash of 64 zeros.
use distfs.Base.{ℕ, List, [], ◌∷◌, replicate, ◌≡◌, arith}
use distfs.Data.Samples.{chunks, chunk_map}
use distfs.Network.DistfsMetadata.{multiply_all, of_store}
use distfs.Network.DistfsMetadata.Hashes.{Hashes, of_store-Hashes}
use distfs.Network.DistfsMetadata.Identifier.{multiply_all-zero}

multiply_all-zero_example : multiply_all 1 (replicate 64 b'0' ∷ (b'1' ∷ []) ∷ []) ≡ 0
multiply_all-zero_example = multiply_all-zero (replicate 64 b'0' ∷ (b'1' ∷ []) ∷ []) (omega arith)

-- Two chunks, and a checksum that repeats the first byte.
abbrev twice : List ℕ → List ℕ
twice [] = []
twice (b ∷ bs) = b ∷ b ∷ []

of_store-Hashes_example : Hashes chunk_map twice chunks (of_store chunk_map twice chunks)
of_store-Hashes_example = of_store-Hashes chunk_map twice chunks
