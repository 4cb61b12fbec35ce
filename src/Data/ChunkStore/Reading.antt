-- ===== src/Data/ChunkStore/Reading.antt =====
-- data/chunk_store.cc: `read_chunk` gives what is in the file of the chunk.
use distfs.Base.{ℕ, ◌≤◌, ◌<◌, List, [], ◌++◌, Option, none, some, length, take, ◌≡◌}
use distfs.Common.{ErrorCode}
use distfs.Common.LruCollector
use distfs.Common.LruCollector.{LruCollector}
use distfs.Common.LruCollector.Laws
use distfs.Data.{Filled, filled, failed}
use distfs.Data.Posix.{opened, no_entry, Posix}
use distfs.Data.ChunkStore.{ChunkStore}
use distfs.Meta.Effects.{Outcome, done, thrown, undefined}

-- What is relied on of files that are read: `file` is what is in a file, and `rest` is what is left to
-- be read of an open one. An open file outlives its removal.
pub record Reads {F W : Type 0} (posix : Posix F W) (file : List ℕ → W → Option (List ℕ))
    (rest : F → W → List ℕ) : Type 0 where
  pub opens :
      (path : List ℕ) (w : W) (fd : F)
      → (posix.open_read path w).0 ≡ opened fd
      → file path w ≡ some (rest fd (posix.open_read path w).1)
  pub misses : (path : List ℕ) (w : W) → (posix.open_read path w).0 ≡ no_entry → file path w ≡ none
  pub reads :
      (fd : F) (n : ℕ) (w : W) (bs : List ℕ)
      → (posix.read fd n w).0 ≡ some bs
      → rest fd w ≡ bs ++ rest fd (posix.read fd n w).1
  pub within :
      (fd : F) (n : ℕ) (w : W) (bs : List ℕ) → (posix.read fd n w).0 ≡ some bs → length bs ≤ n
  pub ends : (fd : F) (n : ℕ) (w : W) → 0 < n → (posix.read fd n w).0 ≡ some [] → rest fd w ≡ []
  pub outlives : (fd : F) (path : List ℕ) (w : W) → rest fd (posix.unlink path w).1 ≡ rest fd w

module _ {F W : Type 0} (posix : Posix F W) (file : List ℕ → W → Option (List ℕ))
    (rest : F → W → List ℕ) (r : Reads posix file rest) where
  -- What `read_chunk` may end in.
  abbrev pub Result : List ℕ → ℕ → W → Outcome (Filled × ChunkStore × W) → Type 0
  Result path size w (done (filled bs, c', w')) =
      (cs : List ℕ) × (file path w ≡ some cs) × (bs ≡ take size cs)
  Result path size w (done (failed ErrorCode.not_found, c', w')) = file path w ≡ none
  Result path size w (done (failed ErrorCode.internal_error, c', w')) = Unit
  Result path size w (done (failed err, c', w')) = ⊥
  Result path size w thrown = ⊥
  Result path size w undefined = ⊥
