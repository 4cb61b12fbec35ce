-- ===== src/Fuse/Reading.antt =====
-- fuse/fuse_main.cc: what a read of an open file returns, down to the chunks.
use distfs.Base.{
  ℕ, ◌+◌, ◌-◌, ◌*◌, ◌%◌, ◌^◌, ◌<◌, ◌≤◌, min, List, [], Option, some, length, ◌≡◌, ◌⊎◌, inl, inr,
  refl, ap, ◌∙◌, arith,
}
use distfs.Common.{ErrorCode}
use distfs.Data.{Filled, filled, failed, ChunkStorage}
use distfs.Data.ChunkProvider.{ChunkProvider, read_chunk}
use distfs.Data.ChunkProvider.Laws.{IsGenuine, IsCoherent}
use distfs.Data.DataProvider.{read}
use distfs.Data.DataProvider.Laws.{IsPart, Unread}
use distfs.Data.DataProvider.Cached.{Gives, read-cached}
use distfs.Meta.Effects.{Outcome, done}
use distfs.Meta.Queries.{file_position_at}
use distfs.Fuse.{ℤ, pos, eacces, to_int, wanted, read_reply, read_position, distfs_read}

-- A number of bytes that an `int` can say.
to_int-pos : (n : ℕ) → n < 2 ^ 31 → to_int n ≡ pos n
to_int-pos n h = ground arith

module _ {S : Type 0} {store : ChunkStorage S} {fetch_chunk : ℕ → S → ErrorCode × S}
    {image : ℕ → Option (List ℕ)} {Genuine : S → Type 0}
    (laws : IsGenuine store fetch_chunk image Genuine) (chunk_size : ℕ) (positive : 0 < chunk_size)
    (small : chunk_size < 2 ^ 32)
    (full : (id : ℕ) (bs : List ℕ) → image id ≡ some bs → length bs ≡ chunk_size) (fresh : List ℕ)
    (garbage : ℕ) (mem : List ℕ) (fh off len size offset : ℕ) (p : ChunkProvider S)
    (coherent : IsCoherent image Genuine p)
    (file : file_position_at mem fh ≡ done (ErrorCode.ok, some (off, len))) where
  -- The data provider below.
  abbrev pub provided : ℕ → ℕ → ChunkProvider S → Option (Filled × ChunkProvider S)
  provided = read (read_chunk store fetch_chunk chunk_size fresh) chunk_size garbage

  -- A read that ends with the number `n` and `n` bytes of the image from `addr` on, or with -EACCES,
  -- where a part of a chunk there cannot be read; the cache is as good as before.
  abbrev pub Replies : ℕ → ℕ → Outcome (ℤ × List ℕ × ChunkProvider S) → Type 0
  Replies addr n r =
      (reply : ℤ) × (bs : List ℕ) × (p' : ChunkProvider S) × (r ≡ done (reply, bs, p'))
      × IsCoherent image Genuine p'
      × (((reply ≡ eacces) × Fails addr n) ⊎ ((reply ≡ pos n) × IsPart chunk_size image addr n bs))
    where
      Fails : ℕ → ℕ → Type 0
      Fails =
          Unread (read_chunk store fetch_chunk chunk_size fresh) chunk_size garbage image
            (IsCoherent image Genuine)

  replied :
      (addr n : ℕ) (out : Filled) (p' : ChunkProvider S)
      → n < 2 ^ 31
      → IsCoherent image Genuine p'
      → Gives laws chunk_size positive small full fresh garbage addr n out
      → Replies addr n (read_reply n (some (out, p')))
  unfolding read_reply
  replied addr n (filled bs) p' h c part = (to_int n, bs, p', refl, c, inr (to_int-pos n h, part))
  replied addr n (failed err) p' h c u = (eacces, [], p', refl, c, inl (refl, u))

  distfs_read-wanted :
      (n : ℕ)
      → wanted len offset size ≡ n
      → n < 2 ^ 31
      → (off + offset) % 2 ^ 64 ≡ off + offset
      → off + offset + n < 2 ^ 32 * chunk_size
      → Replies (off + offset) n (distfs_read mem provided fh size offset p)
  unfolding distfs_read read_position
  distfs_read-wanted n e h exact near =
      let (out, p', ran, c', part) =
        read-cached laws chunk_size positive small full fresh garbage (off + offset) n p near
          coherent in
      rw (file, e, exact, ran) (replied (off + offset) n out p' h c' part)

  -- A read at an offset within an open file returns as many bytes as are asked for, but none behind
  -- the end of the file: its return value is their number, and they are the bytes of the image from
  -- that place in the file on. It returns -EACCES instead only if `ChunkProvider::read_chunk` fails for
  -- a part of a chunk among those bytes. (The file lies within the image, and the number of bytes read
  -- is below 2 ^ 31. The cache is coherent, the chunks of the image have full size, and the store
  -- and the client never show a chunk that is not the image's.)
  pub distfs_read-within :
      offset ≤ len
      → off + len < 2 ^ 32 * chunk_size
      → min (len - offset) size < 2 ^ 31
      → Replies (off + offset) (min (len - offset) size) (distfs_read mem provided fh size offset p)
  distfs_read-within inside near h =
      let big : 2 ^ 32 * chunk_size ≤ 2 ^ 64 = omega (arith, small) in
      let rest : (len + 2 ^ 64 - offset) % 2 ^ 64 ≡ len - offset = omega arith in
      distfs_read-wanted (min (len - offset) size) (ap (λ k. min k size) rest) h (omega arith)
        (omega arith)

  -- At an offset behind the end of the file the difference of length and offset wraps around: the
  -- call does not return 0, but `size`, with bytes of the image that are not of the file. It returns
  -- -EACCES only if `ChunkProvider::read_chunk` fails for a part of a chunk among those bytes. (The
  -- offset is behind the end by less than 2 ^ 64 - `size`, those bytes lie within the image, and `size`
  -- is below 2 ^ 31. The cache is coherent, the chunks of the image have full size, and the store and
  -- the client never show a chunk that is not the image's.)
  pub distfs_read-behind :
      len < offset
      → offset - len + size < 2 ^ 64
      → off + offset + size < 2 ^ 32 * chunk_size
      → size < 2 ^ 31
      → Replies (off + offset) size (distfs_read mem provided fh size offset p)
  distfs_read-behind behind wide near h =
      let big : 2 ^ 32 * chunk_size ≤ 2 ^ 64 = omega (arith, small) in
      let rest : (len + 2 ^ 64 - offset) % 2 ^ 64 ≡ 2 ^ 64 - (offset - len) = omega arith in
      distfs_read-wanted size (ap (λ k. min k size) rest ∙ omega arith) h (omega arith)
        (omega arith)
