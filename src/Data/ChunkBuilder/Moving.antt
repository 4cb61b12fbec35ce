-- ===== src/Data/ChunkBuilder/Moving.antt =====
-- data/chunk_builder.cc: `move_pos`, and the bytes that a builder holds.
use distfs.Base.{
  ℕ, ◌-◌, ◌/◌, ◌%◌, ◌^◌, ◌<◌, ◌==◌, if◌then◌else◌, List, Option, none, some, length, get_elem?, ◌≡◌,
  refl, arith, ap, sym, ◌∙◌, Bool-cases, inl, inr, ==_iff,
}
use native.Mathlib.Nat.{mod-lt}
use distfs.Common.{ErrorCode, is_ok, is_ok_iff}
use distfs.Data.{ChunkStorage, IsStorage}
use distfs.Data.ChunkBuilder.{ChunkBuilder, after_read, after_write, move_pos}
use distfs.Data.Memory.{overwrite, chunk_byte, get_elem?-overwrite, length-overwrite}

module _ {S : Type 0} (chunk_size : ℕ) (contents : S → ℕ → Option (List ℕ)) where
  -- The byte at an address of the image: in the buffer, if that holds its chunk, or in the store.
  abbrev pub byte_at : ChunkBuilder S → ℕ → Option ℕ
  byte_at b addr =
      if addr / chunk_size == b.chunk_num
      then get_elem? b.buff (addr % chunk_size)
      else chunk_byte (contents b.store (addr / chunk_size)) (addr % chunk_size)

  -- No byte that was there is lost or changed.
  abbrev pub Keeps : ChunkBuilder S → ChunkBuilder S → Type 0
  Keeps b b' = (addr v : ℕ) → byte_at b addr ≡ some v → byte_at b' addr ≡ some v

  -- The buffer and every stored chunk have the size of a chunk.
  pub record IsSized (Healthy : S → Type 0) (b : ChunkBuilder S) : Type 0 where
    pub healthy : Healthy b.store
    pub buff_size : length b.buff ≡ chunk_size
    pub chunk_sizes :
        (id : ℕ) (bs : List ℕ) → contents b.store id ≡ some bs → length bs ≡ chunk_size

  -- Besides, the buffer holds the chunk of the position.
  pub record IsValid (Healthy : S → Type 0) (b : ChunkBuilder S) : Type 0 where
    pub sized : IsSized Healthy b
    pub at_pos : b.chunk_num ≡ b.pos / chunk_size

-- What the builder relies on: the store is a map, and takes every chunk of full size.
pub record Usable {S : Type 0} (store : ChunkStorage S) (chunk_size : ℕ) (Healthy : S → Type 0)
    (contents : S → ℕ → Option (List ℕ)) (Accepts : List ℕ → Type 0) : Type 0 where
  pub positive : 0 < chunk_size
  pub laws : IsStorage store Healthy contents Accepts
  pub accepts : (bs : List ℕ) → length bs ≡ chunk_size → Accepts bs

module _ {S : Type 0} (store : ChunkStorage S) (chunk_size : ℕ) where
  -- Past a failed write `move_pos` returns its error.
  pub after_write-ok :
      (new_offset : ℕ) (b : ChunkBuilder S) (p : ErrorCode × S)
      → (after_write store chunk_size new_offset b p).0 ≡ ErrorCode.ok
      → p.0 ≡ ErrorCode.ok
  unfolding after_write
  after_write-ok new_offset b p h = elim (Bool-cases (is_ok p.0)) [
    | inl good ↦ (is_ok_iff p.0).0 good
    | inr bad ↦ rw (bad, after_write) at h
  ]

module _ {S : Type 0} {store : ChunkStorage S} {chunk_size : ℕ} {Healthy : S → Type 0}
    {contents : S → ℕ → Option (List ℕ)} {Accepts : List ℕ → Type 0}
    (u : Usable store chunk_size Healthy contents Accepts) (b : ChunkBuilder S)
    (z : IsSized chunk_size contents Healthy b) where
  -- The store after the buffer has been written to it.
  abbrev flushed : S
  flushed = (store.write_chunk b.chunk_num b.buff b.store).1

  module _ (wrote : (store.write_chunk b.chunk_num b.buff b.store).0 ≡ ErrorCode.ok) where
    flushed_contents :
        (k : ℕ)
        → contents flushed k ≡ (if k == b.chunk_num then some b.buff else contents b.store k)
    flushed_contents k =
        u.laws.write_stores b.chunk_num k b.buff b.store z.healthy (u.accepts b.buff z.buff_size)
          wrote

    flushed_healthy : Healthy flushed
    flushed_healthy =
        u.laws.write_healthy b.chunk_num b.buff b.store z.healthy (u.accepts b.buff z.buff_size)
          wrote

    -- A flushed store holds every byte of the image.
    pub flushed_byte :
        (addr : ℕ)
        → chunk_byte (contents flushed (addr / chunk_size)) (addr % chunk_size)
          ≡ byte_at chunk_size contents b addr
    flushed_byte addr = ground (arith, flushed_contents (addr / chunk_size))

    flushed_sizes : (id : ℕ) (bs : List ℕ) → contents flushed id ≡ some bs → length bs ≡ chunk_size
    flushed_sizes id bs e = elim (Bool-cases (id == b.chunk_num)) [
      | inl here ↦ ground (arith, flushed_contents id, z.buff_size)
      | inr there ↦ z.chunk_sizes id bs (ground (arith, flushed_contents id))
    ]

  -- What a move to `new_offset` achieves.
  abbrev pub Moved : ℕ → ChunkBuilder S → Type 0
  Moved new_offset b' =
      (b'.pos ≡ new_offset)
      × IsValid chunk_size contents Healthy b'
      × Keeps chunk_size contents b b'

  Moved-within :
      (new_offset : ℕ)
      → new_offset / chunk_size ≡ b.chunk_num
      → Moved new_offset (record b { pos = new_offset })
  Moved-within new_offset e = (
    refl,
    record {
      sized = record { healthy = z.healthy; buff_size = z.buff_size; chunk_sizes = z.chunk_sizes };
      at_pos = sym e;
    },
    λ addr v h. h,
  )

  module _ (new_offset num : ℕ) (at : num ≡ new_offset / chunk_size)
      (wrote : (store.write_chunk b.chunk_num b.buff b.store).0 ≡ ErrorCode.ok) where
    kept_fresh :
        (addr v : ℕ)
        → contents flushed num ≡ none
        → byte_at chunk_size contents b addr ≡ some v
        → byte_at chunk_size contents
            (record b { store = flushed; chunk_num = num; pos = new_offset })
            addr
          ≡ some v
    kept_fresh addr v missing h = elim (Bool-cases (addr / chunk_size == num)) [
      | inl same ↦
          let gone : contents flushed (addr / chunk_size) ≡ none =
            ap (contents flushed) ((==_iff _ num).0 same) ∙ missing in
          absurd (ground (arith, flushed_byte wrote addr, gone))
      | inr other ↦ rw other (flushed_byte wrote addr ∙ h)
    ]

    kept_back :
        (bs : List ℕ)
        → contents flushed num ≡ some bs
        → length bs ≡ chunk_size
        → (addr v : ℕ) → byte_at chunk_size contents b addr ≡ some v
        → byte_at chunk_size contents
            (record b {
              store = (store.read_chunk num flushed).1;
              chunk_num = num;
              buff = overwrite 0 bs b.buff;
              pos = new_offset;
            })
            addr
          ≡ some v
    kept_back bs stored full addr v h = elim (Bool-cases (addr / chunk_size == num)) [
      | inl same ↦
          let here : contents flushed (addr / chunk_size) ≡ some bs =
            ap (contents flushed) ((==_iff _ num).0 same) ∙ stored in
          let j = addr % chunk_size in
          let within : j < chunk_size = mod-lt addr u.positive in
          let copied = get_elem?-overwrite 0 j bs b.buff (omega (arith, z.buff_size)) in
          let at_j : j - 0 ≡ j = omega arith in
          rw same (ground (arith, copied, ap (get_elem? bs) at_j, flushed_byte wrote addr, here))
      | inr other ↦
          let still = u.laws.read_keeps num (addr / chunk_size) flushed (flushed_healthy wrote) in
          rw (other, still) (flushed_byte wrote addr ∙ h)
    ]

    Moved-fresh :
        contents flushed num ≡ none
        → Moved new_offset (record b { store = flushed; chunk_num = num; pos = new_offset })
    Moved-fresh missing = (
      refl,
      record {
        sized = record {
          healthy = flushed_healthy wrote;
          buff_size = z.buff_size;
          chunk_sizes = flushed_sizes wrote;
        };
        at_pos = at;
      },
      λ addr v h. kept_fresh addr v missing h,
    )

    Moved-back :
        (bs : List ℕ)
        → contents flushed num ≡ some bs
        → Moved new_offset (record b {
          store = (store.read_chunk num flushed).1;
          chunk_num = num;
          buff = overwrite 0 bs b.buff;
          pos = new_offset;
        })
    Moved-back bs stored =
        let full = flushed_sizes wrote num bs stored in
        (
          refl,
          record {
            sized = record {
              healthy = u.laws.read_healthy num flushed (flushed_healthy wrote);
              buff_size = length-overwrite 0 bs b.buff (omega (arith, z.buff_size)) ∙ z.buff_size;
              chunk_sizes = λ id cs e.
                  flushed_sizes wrote id cs
                    (sym (u.laws.read_keeps num id flushed (flushed_healthy wrote)) ∙ e);
            };
            at_pos = at;
          },
          λ addr v h. kept_back bs stored full addr v h,
        )

  Moved-write :
      (new_offset : ℕ) (c : Option (List ℕ))
      → new_offset / chunk_size % 2 ^ 32 ≡ new_offset / chunk_size
      → (store.write_chunk b.chunk_num b.buff b.store).0 ≡ ErrorCode.ok
      → contents flushed (new_offset / chunk_size % 2 ^ 32) ≡ c
      → Moved new_offset
          (after_write store chunk_size new_offset b
            (store.write_chunk b.chunk_num b.buff b.store)).1
  unfolding after_write
  Moved-write new_offset none at wrote missing =
      let num = new_offset / chunk_size % 2 ^ 32 in
      rw (wrote, after_write, u.laws.available_missing num flushed (flushed_healthy wrote) missing)
        (Moved-fresh new_offset num at wrote missing)
  Moved-write new_offset (some bs) at wrote stored =
      let num = new_offset / chunk_size % 2 ^ 32 in
      let healthy = flushed_healthy wrote in
      rw
        (
          wrote,
          after_write,
          u.laws.available_stored num flushed bs healthy stored,
          after_read,
          u.laws.read_stored num flushed bs healthy stored,
        )
        (Moved-back new_offset num at wrote bs stored)

  -- A successful `move_pos` arrives, holds the chunk of the new position in its buffer, and loses no
  -- byte of the image. (The number of the chunk is of 32 bits, the
  -- buffer and the stored chunks have full size, and the store is a map that takes such chunks.)
  pub move_pos-Moved :
      (new_offset : ℕ)
      → new_offset / chunk_size < 2 ^ 32
      → (move_pos store chunk_size new_offset b).0 ≡ ErrorCode.ok
      → Moved new_offset (move_pos store chunk_size new_offset b).1
  unfolding move_pos
  move_pos-Moved new_offset small ok = elim (Bool-cases (new_offset / chunk_size == b.chunk_num)) [
    | inl here ↦ rw (here, move_pos) (Moved-within new_offset ((==_iff _ b.chunk_num).0 here))
    | inr away ↦
        let wrote : (store.write_chunk b.chunk_num b.buff b.store).0 ≡ ErrorCode.ok =
          after_write-ok store chunk_size new_offset b
            (store.write_chunk b.chunk_num b.buff b.store) (rw (away, move_pos) at ok) in
        rw (away, move_pos) (Moved-write new_offset _ (omega arith) wrote refl)
  ]
