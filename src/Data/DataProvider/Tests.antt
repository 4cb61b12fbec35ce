-- ===== src/Data/DataProvider/Tests.antt =====
-- data/data_provider.cc, run: a read across the border of two chunks.
use distfs.Base.{ℕ, List, [], ◌∷◌, some, ◌≡◌, arith}
use distfs.Data.{Filled}
use distfs.Data.ChunkProvider.{ChunkProvider, read_chunk}
use distfs.Data.ChunkProvider.Laws.{IsCoherent}
use distfs.Data.DataProvider.{read}
use distfs.Data.DataProvider.Cached.{Gives, read-cached}
use distfs.Data.Samples.{
  Chunks, Genuine, chunk_map, image, image-full, fetch_chunk, chunk_map-IsGenuine, provider,
  provider-IsCoherent,
}

abbrev zeros : List ℕ
zeros = 0 ∷ 0 ∷ 0 ∷ 0 ∷ []

read-cached_example :
    (out : Filled) × (p' : ChunkProvider Chunks) × (read
        (read_chunk chunk_map fetch_chunk 4 zeros)
        4
        0
        2
        5
        provider
      ≡ some (out, p'))
    × IsCoherent image Genuine p'
    × Gives chunk_map-IsGenuine 4 (omega arith) (omega arith) image-full zeros 0 2 5 out
read-cached_example =
    read-cached chunk_map-IsGenuine 4 (omega arith) (omega arith) image-full zeros 0 2 5 provider
      (omega arith) provider-IsCoherent
