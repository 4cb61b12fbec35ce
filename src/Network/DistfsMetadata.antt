-- ===== src/Network/DistfsMetadata.antt =====
-- network/distfs_metadata.h and network/distfs_metadata.cc: the hashes of the chunks, and the
-- identifier of a file system.
-- A `char` of a hash is its code, below 128; `checksum` is SHA-256, in hexadecimal. The chunks are read
-- as they are stored.
pub mod Identifier
pub mod Hashes
mod Tests
use distfs.Base.{ℕ, zero, suc, ◌+◌, ◌*◌, ◌%◌, ◌^◌, List, [], ◌∷◌, length}
use distfs.Data.{Filled, filled, failed, ChunkStorage}
use distfs.Meta.Effects.{Outcome, done, thrown, ◌>>=◌}

-- The peer, its stub and `node_id` are left out: the constructor from a store does not set them.
pub record DistfsMetadata : Type 0 where
  pub id : ℕ
  pub block_hashes : List (List ℕ)

-- `id *= c` for each character of a hash, in 64 bits.
pub multiply : ℕ → List ℕ → ℕ
multiply id [] = id
multiply id (c ∷ s) = multiply (id * c % 2 ^ 64) s

pub multiply_all : ℕ → List (List ℕ) → ℕ
unfolding multiply
multiply_all id [] = id
multiply_all id (s ∷ hashes) = multiply_all (multiply id s) hashes

module _ {S : Type 0} (store : ChunkStorage S) (checksum : List ℕ → List ℕ) where
  -- The hash of a chunk, or the exception for a chunk that cannot be read.
  pub hash_of : Filled × S → Outcome (List ℕ × S)
  hash_of (filled bs, s) = done (checksum bs, s)
  hash_of (failed err, s) = thrown

  -- The loop over the chunks, from `i` on, with the rounds left.
  pub hash_loop : ℕ → ℕ → S → Outcome (List (List ℕ) × S)
  unfolding hash_of
  hash_loop zero i s = done ([], s)
  hash_loop (suc left) i s = do
    (hash, s') ← hash_of (store.read_chunk i s)
    (hashes, s'') ← hash_loop left (i + 1) s'
    done (hash ∷ hashes, s'')

  -- The constructor from a store.
  pub of_store : S → Outcome (DistfsMetadata × S)
  unfolding hash_loop multiply_all
  of_store s = do
    (hashes, s') ← hash_loop (length (store.available s) % 2 ^ 32) 0 s
    done (record { id = multiply_all 1 hashes; block_hashes = hashes }, s')
