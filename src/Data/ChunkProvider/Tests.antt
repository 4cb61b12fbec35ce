-- ===== src/Data/ChunkProvider/Tests.antt =====
-- data/chunk_provider.cc, run: a chunk that has to be fetched.
use distfs.Base.{ℕ, ◌^◌, List, [], ◌∷◌, some, length, ◌<◌, ◌≡◌, arith}
use distfs.Data.ChunkProvider.{read_chunk}
use distfs.Data.ChunkProvider.Laws.{read_chunk-Reads, Reads}
use distfs.Data.Samples.{
  chunk_map, image, image-full, fetch_chunk, chunk_map-IsGenuine, provider, provider-IsCoherent,
}

sizes : (id : ℕ) (bs : List ℕ) → image id ≡ some bs → length bs < 2 ^ 32
sizes id bs e = omega (arith, image-full id bs e)

read_chunk-Reads_example :
    Reads chunk_map-IsGenuine sizes 1 4
      (0 ∷ 0 ∷ 0 ∷ 0 ∷ [])
      1
      2
      provider
      (read_chunk chunk_map fetch_chunk 4 (0 ∷ 0 ∷ 0 ∷ 0 ∷ []) 1 1 2 provider)
read_chunk-Reads_example =
    read_chunk-Reads chunk_map-IsGenuine sizes 1 4 (0 ∷ 0 ∷ 0 ∷ 0 ∷ []) 1 2 provider
      provider-IsCoherent (omega arith) (omega arith)
