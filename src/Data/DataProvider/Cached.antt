-- ===== src/Data/DataProvider/Cached.antt =====
-- data/data_provider.cc on data/chunk_provider.cc: a read of the image, through the cache.
use distfs.Base.{
  ℕ, ◌+◌, ◌*◌, ◌^◌, ◌<◌, ◌≤◌, List, Option, some, length, take, drop, ◌≡◌, sym, ◌∙◌, ap, arith,
}
use distfs.Common.{ErrorCode}
use distfs.Data.{Filled, filled, failed, ChunkStorage}
use distfs.Data.ChunkProvider.{ChunkProvider, read_chunk}
use distfs.Data.ChunkProvider.Laws.{IsGenuine, IsCoherent, Answers, read_chunk-Reads}
use distfs.Data.DataProvider.{read}
use distfs.Data.DataProvider.Laws
use distfs.Data.DataProvider.Laws.{IsProvider, read-IsPart}

module _ {S : Type 0} {store : ChunkStorage S} {fetch_chunk : ℕ → S → ErrorCode × S}
    {image : ℕ → Option (List ℕ)} {Genuine : S → Type 0}
    (laws : IsGenuine store fetch_chunk image Genuine) (chunk_size : ℕ) (positive : 0 < chunk_size)
    (small : chunk_size < 2 ^ 32)
    (full : (id : ℕ) (bs : List ℕ) → image id ≡ some bs → length bs ≡ chunk_size) (fresh : List ℕ)
    (garbage : ℕ) where
  sizes : (id : ℕ) (bs : List ℕ) → image id ≡ some bs → length bs < 2 ^ 32
  sizes id bs e = omega (arith, full id bs e)

  Answers-filled :
      (id offset len : ℕ) (p : ChunkProvider S) (out : Filled)
      → offset + len ≤ chunk_size
      → Answers laws sizes id chunk_size fresh offset len p out
      → (bs : List ℕ) → out ≡ filled bs
      → (cs : List ℕ) × (image id ≡ some cs) × (bs ≡ take len (drop offset cs))
  Answers-filled id offset len p (failed err) within a bs e = cc
  Answers-filled id offset len p (filled out) within (cs, im, same) bs e =
      (cs, im, ap of_filled (sym e) ∙ same (omega (arith, full id cs im)))
    where
      of_filled : Filled → List ℕ
      of_filled (filled xs) = xs
      of_filled (failed err) = out

  provider :
      IsProvider
        (read_chunk store fetch_chunk chunk_size fresh)
        chunk_size
        garbage
        image
        (IsCoherent image Genuine)
  provider = record {
    positive = positive;
    full = full;
    reads = λ id offset len p c within.
        let (out, p', ran, c', a) =
          read_chunk-Reads laws sizes id chunk_size fresh offset len p c within small in
        (out, p', ran, c', Answers-filled id offset len p out within a);
  }

  -- What a read through the cache gives: the bytes of the image, or an error, where the read of a part
  -- of a chunk fails.
  abbrev pub Gives : ℕ → ℕ → Filled → Type 0
  Gives =
      Laws.Gives (read_chunk store fetch_chunk chunk_size fresh) chunk_size garbage image
        (IsCoherent image Genuine)

  -- A read within the image, through the cache, always returns, and leaves the cache coherent. It
  -- returns `OK` and exactly the bytes of the image from `offset` on, as many as it was asked for,
  -- wherever each chunk came from, unless a part of a chunk among them cannot be read: it returns an
  -- error only if `ChunkProvider::read_chunk` fails there, from a coherent cache. (The cache is
  -- coherent, the chunks of the image have full size, and the store and the client never show a chunk
  -- that is not the image's.)
  pub read-cached :
      (offset n : ℕ) (p : ChunkProvider S)
      → offset + n < 2 ^ 32 * chunk_size
      → IsCoherent image Genuine p
      → (out : Filled) × (p' : ChunkProvider S) × (read
            (read_chunk store fetch_chunk chunk_size fresh)
            chunk_size
            garbage
            offset
            n
            p
          ≡ some (out, p'))
        × IsCoherent image Genuine p'
        × Gives offset n out
  read-cached offset n p within c =
      read-IsPart (read_chunk store fetch_chunk chunk_size fresh) chunk_size garbage image
        (IsCoherent image Genuine) provider offset n p within c
