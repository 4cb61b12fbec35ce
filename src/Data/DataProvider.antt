-- ===== src/Data/DataProvider.antt =====
-- data/data_provider.h and data/data_provider.cc: a read of any part of the image, chunk by chunk.
-- `read_chunk` is the chunk provider's: chunk, offset, length. If it fails it leaves `read_size`
-- as it was, which is uninitialised: `garbage`.
pub mod Laws
pub mod Cached
mod Tests
use distfs.Base.{
  ℕ, zero, suc, ◌+◌, ◌-◌, ◌/◌, ◌%◌, ◌^◌, min, ◌==◌, if◌then◌else◌, Bool, true, false, List, [], ◌∷◌,
  ◌++◌, Option, none, some, length,
}
use distfs.Common.{ErrorCode}
use distfs.Data.{Filled, filled, failed}

-- The bytes of this round, before those of the rounds that follow.
abbrev pub prepend : {P : Type 0} → List ℕ → Option (Filled × P) → Option (Filled × P)
prepend bs (some (filled rest, p)) = some (filled (bs ++ rest), p)
prepend bs r = r

module _ {P : Type 0} (read_chunk : ℕ → ℕ → ℕ → P → Option (Filled × P)) (chunk_size : ℕ)
    (garbage : ℕ) where
  -- The two tests after the read of a chunk; `rest` is the rest of the loop.
  pub check : ℕ → (P → Option (Filled × P)) → Option (Filled × P) → Option (Filled × P)
  check len rest none = none
  check len rest (some (failed err, p)) =
      if garbage == len then some (failed err, p) else some (failed ErrorCode.internal_error, p)
  check len rest (some (filled bs, p)) =
      if length bs == len then prepend bs (rest p) else some (failed ErrorCode.internal_error, p)

  -- The loop, on fuel: `none` means that the fuel ran out, or undefined behaviour below.
  pub read_loop : ℕ → ℕ → ℕ → ℕ → P → Option (Filled × P)
  unfolding check
  read_loop fuel id of zero p = some (filled [], p)
  read_loop zero id of (suc n) p = none
  read_loop (suc fuel) id of (suc n) p =
      let len = min (suc n) (chunk_size - of) in
      check len (λ p'. read_loop fuel ((id + 1) % 2 ^ 32) 0 (suc n - len) p')
        (read_chunk id of len p)

  -- Every round reads at least a byte.
  pub read : ℕ → ℕ → P → Option (Filled × P)
  read offset length p =
      read_loop length (offset / chunk_size % 2 ^ 32) (offset % chunk_size) length p
