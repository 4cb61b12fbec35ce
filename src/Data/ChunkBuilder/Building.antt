-- ===== src/Data/ChunkBuilder/Building.antt =====
-- data/chunk_builder.cc: `write`, `reserve` and `build`.
use distfs.Base.{
  ℕ, ◌+◌, ◌-◌, ◌/◌, ◌%◌, ◌^◌, ◌<◌, ◌≤◌, true, List, Option, some, length, get_elem?, ◌≡◌, refl,
  arith, Bool-cases, inl, inr, ◌⊎◌,
}
use distfs.Common.{ErrorCode, is_ok, is_ok_iff}
use distfs.Data.{ChunkStorage}
use distfs.Data.ChunkBuilder.{ChunkBuilder, move_pos, reserve, write, build}
use distfs.Data.Memory.{chunk_byte, div-lt_mono}
use distfs.Data.ChunkBuilder.Moving.{byte_at, Keeps, IsValid, Usable, move_pos-Moved, flushed_byte}
use distfs.Data.ChunkBuilder.Writing.{write_data-Writes}

module _ {S : Type 0} {store : ChunkStorage S} {chunk_size : ℕ} {Healthy : S → Type 0}
    {contents : S → ℕ → Option (List ℕ)} {Accepts : List ℕ → Type 0}
    (u : Usable store chunk_size Healthy contents Accepts) where
  -- The image after `write(offset, xs)`, whatever was at that place.
  pub record Replaced (b : ChunkBuilder S) (offset : ℕ) (xs : List ℕ) (b' : ChunkBuilder S)
      : Type 0 where
    pub valid : IsValid chunk_size contents Healthy b'
    pub inside :
        (addr : ℕ)
        → offset ≤ addr
        → addr < offset + length xs
        → byte_at chunk_size contents b' addr ≡ get_elem? xs (addr - offset)
    pub outside :
        (addr v : ℕ)
        → (addr < offset) ⊎ (offset + length xs ≤ addr)
        → byte_at chunk_size contents b addr ≡ some v
        → byte_at chunk_size contents b' addr ≡ some v

  -- `write` always returns, and if it returns `OK` the image holds the data at the offset, and
  -- everything else that it held before. (The builder is sound, the store is a map that takes every
  -- chunk of full size, and the data ends below 2 ^ 64 bytes and 2 ^ 32 chunks.)
  pub write-Replaced :
      (b : ChunkBuilder S) (offset : ℕ) (xs : List ℕ)
      → IsValid chunk_size contents Healthy b
      → offset + length xs < 2 ^ 64
      → (offset + length xs) / chunk_size < 2 ^ 32
      → (err : ErrorCode) × (b' : ChunkBuilder S) × (write store chunk_size offset xs b
          ≡ some (err, b'))
        × (err ≡ ErrorCode.ok → Replaced b offset xs b')
  unfolding write
  write-Replaced b offset xs v small near =
      let (err, b₁) = move_pos store chunk_size offset b in
      elim (Bool-cases (is_ok err)) [
        | inr bad ↦ (err, b₁, rw bad, λ good. absurd (ground (arith, (is_ok_iff err).1 good)))
        | inl good ↦
            let within =
              div-lt_mono offset (offset + length xs) chunk_size (2 ^ 32) (omega arith) near in
            let (moved, valid, keeps) =
              move_pos-Moved u b v.sized offset within ((is_ok_iff err).0 good) in
            let (err', b₂, ran, wrote) =
              write_data-Writes u b₁ xs valid (omega arith) (rw moved near) in
            (
              err',
              b₂,
              rw good ran,
              λ fine.
                  let w = wrote fine in
                  record {
                    valid = w.valid;
                    inside = rw moved at w.inside;
                    outside = λ addr x away h. w.outside addr x (omega arith) (keeps addr x h);
                  },
            )
      ]

  -- `reserve` hands out the old position. If it returns `OK` the position has moved on by `length`,
  -- and no byte of the image is lost or changed. (The builder is sound, the store is a map that takes
  -- every chunk of full size, and the new position is below 2 ^ 64 bytes and 2 ^ 32 chunks.)
  pub reserve-Keeps :
      (b : ChunkBuilder S) (n : ℕ)
      → IsValid chunk_size contents Healthy b
      → b.pos + n < 2 ^ 64
      → (b.pos + n) / chunk_size < 2 ^ 32
      → ((reserve store chunk_size n b).0.1 ≡ b.pos)
        × ((reserve store chunk_size n b).0.0 ≡ ErrorCode.ok
            → ((reserve store chunk_size n b).1.pos ≡ b.pos + n)
              × IsValid chunk_size contents Healthy (reserve store chunk_size n b).1
              × Keeps chunk_size contents b (reserve store chunk_size n b).1)
  unfolding reserve
  reserve-Keeps b n v small near =
      let exact : (b.pos + n) % 2 ^ 64 ≡ b.pos + n = omega arith in
      (refl, λ ok. rw exact (move_pos-Moved u b v.sized (b.pos + n) near (rw exact at ok)))

  -- After a successful `build` the builder is done, and the store alone holds every byte of the image.
  -- (The builder is sound, and the store is a map that takes every chunk of full size.)
  pub build-stored :
      (b : ChunkBuilder S)
      → IsValid chunk_size contents Healthy b
      → (build store chunk_size b).0 ≡ ErrorCode.ok
      → ((build store chunk_size b).1.built ≡ true)
        × ((addr : ℕ)
            → chunk_byte
                (contents (build store chunk_size b).1.store (addr / chunk_size))
                (addr % chunk_size)
              ≡ byte_at chunk_size contents b addr)
  unfolding build
  build-stored b v ok = elim (Bool-cases (is_ok (store.write_chunk b.chunk_num b.buff b.store).0)) [
    | inl good ↦ rw good (refl, flushed_byte u b v.sized ((is_ok_iff _).0 good))
    | inr bad ↦ absurd (ground (arith, is_ok_iff (store.write_chunk b.chunk_num b.buff b.store).0))
  ]
