-- ===== src/Data/CompressedStore.antt =====
-- data/compressed_store.h, data/compressed_store.cc and data/compression_engine.cc: a store that
-- compresses what it hands to the one below.
-- LZ4 is a parameter. `LZ4_compress_default` and `LZ4_decompress_safe` return the number of bytes
-- that they wrote, or a negative number: `some` of those bytes, or `none`. (Compression reports
-- failure by 0, which is `some []`.)
pub mod Laws
mod Tests
use distfs.Base.{ℕ, Option, some, none, List, []}
use distfs.Common.{ErrorCode}
use distfs.Data.{Filled, filled, failed, ChunkStorage}

pub record Lz4 : Type 0 where
  pub compress_default : List ℕ → ℕ → Option (List ℕ)
  pub decompress_safe : List ℕ → ℕ → Option (List ℕ)

-- `CompressionEngine::compress` and `decompress`.
pub compress : Lz4 → ℕ → List ℕ → Option (List ℕ)
compress lz4 dest_max_size src = lz4.compress_default src dest_max_size

pub decompress : Lz4 → ℕ → List ℕ → Option (List ℕ)
decompress lz4 dest_max_size src = lz4.decompress_safe src dest_max_size

-- `chunk_size` is CHUNK_SIZE_BYTES.
module _ {S : Type 0} (lz4 : Lz4) (chunk_size : ℕ) (chunk_store : ChunkStorage S) where
  pub decompressed : Filled → Filled
  unfolding decompress
  decompressed (failed err) = failed err
  decompressed (filled buf) = elim (decompress lz4 chunk_size buf) [
    | none ↦ failed ErrorCode.internal_error
    | some buffer ↦ filled buffer
  ]

  pub read_chunk : ℕ → S → Filled × S
  unfolding decompressed
  read_chunk id s = let (r, s') = chunk_store.read_chunk id s in (decompressed r, s')

  pub write_chunk : ℕ → List ℕ → S → ErrorCode × S
  unfolding compress
  write_chunk id buffer s = elim (compress lz4 chunk_size buffer) [
    | none ↦ (ErrorCode.internal_error, s)
    | some buf ↦ chunk_store.write_chunk id buf s
  ]

  -- `remove_chunk` and `available` go straight through.
  pub compressed_store : ChunkStorage S
  compressed_store = record {
    read_chunk = read_chunk;
    write_chunk = write_chunk;
    remove_chunk = chunk_store.remove_chunk;
    available = chunk_store.available;
  }
