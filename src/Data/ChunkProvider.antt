-- ===== src/Data/ChunkProvider.antt =====
-- data/chunk_provider.h and data/chunk_provider.cc: a cache of chunks before the store and the
-- network.
-- One call runs at a time here: the mutexes guard nothing then. An entry of the cache is its buffer
-- and the number of bytes loaded into it; `fresh` is what `new char[CHUNK_SIZE_BYTES]` holds.
-- `store` is the compressed store, and `fetch_chunk` is the client's: it puts a chunk into the store.
pub mod Laws
mod Tests
use distfs.Base.{
  ℕ, zero, suc, ◌+◌, ◌-◌, ◌%◌, ◌^◌, min, ◌==◌, ltb, if◌then◌else◌, Bool, true, false, List, [], ◌∷◌,
  Option, none, some, length, take, drop,
}
use distfs.Common.{ErrorCode, is_ok}
use distfs.Common.LruCollector.{LruCollector, put, update}
use distfs.Data.{Filled, filled, failed, ChunkStorage}
use distfs.Data.Memory.{overwrite}

pub record CacheEntry : Type 0 where
  pub bytes : List ℕ
  pub len : ℕ

abbrev pub Entries : Type 0
Entries = ℕ → Option CacheEntry

pub record ChunkProvider (S : Type 0) : Type 0 where
  pub store : S
  pub entries : Entries
  pub collector : LruCollector

-- `entries[id] = …` and `entries.erase(id)`.
abbrev pub set_entry : Entries → ℕ → Option CacheEntry → Entries
set_entry f id v k = if k == id then v else f k

-- The callback of the collector.
pub remove_chunk : ℕ → Entries → Entries
remove_chunk id entries = set_entry entries id none

-- `std::min(len, ce->len - offset)`, in 32 bits, and the bytes copied.
pub copy_out : CacheEntry → ℕ → ℕ → List ℕ
copy_out ce offset len = take (min len ((ce.len + 2 ^ 32 - offset) % 2 ^ 32)) (drop offset ce.bytes)

-- `collector->update(id)`; `none` is undefined behaviour of the collector.
pub touch : {S : Type 0} → ℕ → ChunkProvider S → Option (ChunkProvider S)
unfolding remove_chunk
touch id p = elim (update remove_chunk id p.collector p.entries) [
  | none ↦ none
  | some (c, es) ↦ some (record p { collector = c; entries = es })
]

-- The last part, with the chunk that was loaded or the error.
pub finish :
    {S : Type 0}
    → List ℕ
    → ℕ
    → ℕ
    → ℕ
    → ChunkProvider S
    → Filled × S
    → Option (Filled × ChunkProvider S)
unfolding touch copy_out
finish fresh id offset len p (failed err, s) =
    some (failed err, record p { store = s; entries = set_entry p.entries id none })
finish fresh id offset len p (filled bs, s) =
    let ent : CacheEntry = record { bytes = overwrite 0 bs fresh; len = length bs } in
    elim (touch id (record p { store = s; entries = set_entry p.entries id (some ent) })) [
      | none ↦ none
      | some p' ↦ some (filled (copy_out ent offset len), p')
    ]

module _ {S : Type 0} (store : ChunkStorage S) (fetch_chunk : ℕ → S → ErrorCode × S) where
  -- The second read, after a fetch that returned `OK`.
  pub after_fetch : ℕ → ErrorCode × S → Filled × S
  after_fetch id (err, s) = if is_ok err then store.read_chunk id s else (failed err, s)

  -- `compressedStore.read_chunk`, and the network if that finds nothing.
  pub after_miss : ℕ → Filled × S → Filled × S
  unfolding after_fetch
  after_miss id (failed ErrorCode.not_found, s) = after_fetch id (fetch_chunk id s)
  after_miss id r = r

  module _ (chunk_size : ℕ) (fresh : List ℕ) where
    pub load : ℕ → ℕ → ℕ → ChunkProvider S → Option (Filled × ChunkProvider S)
    unfolding after_miss finish
    load id offset len p =
        finish fresh id offset len p (after_miss id (store.read_chunk id p.store))

    -- With the entry found in the cache: an empty one is replaced.
    pub from_cache :
        ℕ → ℕ → ℕ → ChunkProvider S → Option CacheEntry → Option (Filled × ChunkProvider S)
    unfolding load
    from_cache id offset len p none = load id offset len p
    from_cache id offset len p (some ce) =
        if ltb 0 ce.len
        then (elim (touch id p) [
          | none ↦ none
          | some p' ↦ some (filled (copy_out ce offset len), p')
        ])
        else load id offset len p

    pub read_chunk : ℕ → ℕ → ℕ → ChunkProvider S → Option (Filled × ChunkProvider S)
    unfolding from_cache
    read_chunk id offset len p =
        if ltb chunk_size ((offset + len) % 2 ^ 32)
        then some (failed ErrorCode.internal_error, p)
        else from_cache id offset len p (p.entries id)
