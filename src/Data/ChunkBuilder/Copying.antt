-- ===== src/Data/ChunkBuilder/Copying.antt =====
-- data/chunk_builder.cc: a round of `write_data`, as far as the copy goes.
use native.Mathlib.Nat.{mod-lt}
use distfs.Base.{
  ℕ, ◌+◌, ◌-◌, ◌/◌, ◌%◌, ◌^◌, ◌<◌, ◌≤◌, ◌==◌, ltb, leb, ◌&&◌, if◌then◌else◌, List, Option, length,
  take, get_elem?, ◌≡◌, arith, ap, ◌∙◌, Bool-cases, inl, inr, ==_iff, length-take,
}
use distfs.Data.{ChunkStorage}
use distfs.Data.ChunkBuilder.{ChunkBuilder, next_size, copy_in}
use distfs.Data.Memory.{
  get_elem?-overwrite, length-overwrite, get_elem?-take, same_chunk, chunk_place,
}
use distfs.Data.ChunkBuilder.Moving.{byte_at, IsSized, IsValid}

module _ {S : Type 0} (store : ChunkStorage S) {chunk_size : ℕ} {Healthy : S → Type 0}
    {contents : S → ℕ → Option (List ℕ)} (b : ChunkBuilder S)
    (v : IsValid chunk_size contents Healthy b) (positive : 0 < chunk_size) (xs : List ℕ)
    (small : b.pos + length xs < 2 ^ 64) where
  abbrev step : ℕ
  step = next_size store chunk_size xs b

  abbrev here : List ℕ
  here = take step xs

  room : b.pos % chunk_size + step ≤ chunk_size
  room = omega (arith, mod-lt b.pos positive)

  length-here : length here ≡ step
  length-here = omega (arith, length-take step xs)

  fits : b.pos % chunk_size + length here ≤ length b.buff
  fits = omega (arith, room, length-here, v.sized.buff_size)

  pub copy_in-IsSized : IsSized chunk_size contents Healthy (copy_in store chunk_size xs b)
  unfolding copy_in
  copy_in-IsSized = record {
    healthy = v.sized.healthy;
    buff_size = length-overwrite (b.pos % chunk_size) here b.buff fits ∙ v.sized.buff_size;
    chunk_sizes = v.sized.chunk_sizes;
  }

  pub copy_in-pos : (copy_in store chunk_size xs b).pos ≡ b.pos + step
  unfolding copy_in
  copy_in-pos = omega arith

  pub byte_at-copy_in :
      (addr : ℕ)
      → byte_at chunk_size contents (copy_in store chunk_size xs b) addr ≡ (
          if leb b.pos addr && ltb addr (b.pos + step)
          then get_elem? xs (addr - b.pos)
          else byte_at chunk_size contents b addr)
  unfolding copy_in
  byte_at-copy_in addr = elim (Bool-cases (addr / chunk_size == b.chunk_num)) [
    | inl same ↦
        let i = b.pos % chunk_size in
        let j = addr % chunk_size in
        let placed = chunk_place chunk_size b.pos addr ((==_iff _ b.chunk_num).0 same ∙ v.at_pos) in
        let gap : j - i ≡ addr - b.pos = omega arith in
        rw same (
          ground (
            arith,
            get_elem?-overwrite i j here b.buff fits,
            get_elem?-take step (j - i) xs,
            length-here,
            ap (get_elem? xs) gap,
          ))
    | inr other ↦
        rw other (ground (arith, same_chunk chunk_size b.pos step addr positive room, v.at_pos))
  ]
