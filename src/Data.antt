-- ===== src/Data.antt =====
-- data/: chunks on their way between a directory, the store, the cache and a reader.
-- A buffer is a list of bytes. A function that fills a buffer returns the bytes.
pub mod Memory
pub mod Posix
pub mod ChunkStore
pub mod CompressedStore
pub mod ChunkBuilder
pub mod ChunkProvider
pub mod DataProvider
pub mod Samples
use distfs.Base.{ℕ, ◌==◌, if◌then◌else◌, ◌≡◌, Option, some, none, List, Bool, true, false}
use distfs.Common.{ErrorCode}
use distfs.Network.ChunkAvailability.{has}

-- `ErrorCode` with the bytes that a call that returns `OK` hands out.
pub data Filled : Type 0 where
  filled : List ℕ → Filled
  failed : ErrorCode → Filled

-- The methods that `ChunkStore` and `CompressedStore` share. `S` is all that they change.
pub record ChunkStorage (S : Type 0) : Type 0 where
  pub read_chunk : ℕ → S → Filled × S
  pub write_chunk : ℕ → List ℕ → S → ErrorCode × S
  pub remove_chunk : ℕ → S → ErrorCode × S
  pub available : S → List ℕ

-- What the lemmas on Data/ChunkBuilder suppose of a store, in the states that satisfy `Healthy`: it is a
-- map from identifiers to chunks. `contents` is that map; a chunk that satisfies `Accepts` can be stored without loss.
pub record IsStorage {S : Type 0} (store : ChunkStorage S) (Healthy : S → Type 0)
    (contents : S → ℕ → Option (List ℕ)) (Accepts : List ℕ → Type 0) : Type 0 where
  pub read_stored :
      (id : ℕ) (s : S) (bs : List ℕ)
      → Healthy s
      → contents s id ≡ some bs
      → (store.read_chunk id s).0 ≡ filled bs
  pub read_missing :
      (id : ℕ) (s : S)
      → Healthy s
      → contents s id ≡ none
      → (store.read_chunk id s).0 ≡ failed ErrorCode.not_found
  pub read_keeps :
      (id k : ℕ) (s : S) → Healthy s → contents (store.read_chunk id s).1 k ≡ contents s k
  pub read_healthy : (id : ℕ) (s : S) → Healthy s → Healthy (store.read_chunk id s).1
  pub write_stores :
      (id k : ℕ) (bs : List ℕ) (s : S)
      → Healthy s
      → Accepts bs
      → (store.write_chunk id bs s).0 ≡ ErrorCode.ok
      → contents (store.write_chunk id bs s).1 k ≡ (if k == id then some bs else contents s k)
  pub write_healthy :
      (id : ℕ) (bs : List ℕ) (s : S)
      → Healthy s
      → Accepts bs
      → (store.write_chunk id bs s).0 ≡ ErrorCode.ok
      → Healthy (store.write_chunk id bs s).1
  pub available_stored :
      (id : ℕ) (s : S) (bs : List ℕ)
      → Healthy s
      → contents s id ≡ some bs
      → has id (store.available s) ≡ true
  pub available_missing :
      (id : ℕ) (s : S) → Healthy s → contents s id ≡ none → has id (store.available s) ≡ false
