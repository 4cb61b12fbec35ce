-- ===== src/Data/ChunkBuilder/Writing.antt =====
-- data/chunk_builder.cc: `write_data`.
use native.Mathlib.Nat.{mod-lt}
use distfs.Base.{
  ℕ, zero, suc, ◌+◌, ◌-◌, ◌/◌, ◌^◌, ◌<◌, ◌≤◌, ltb, List, [], ◌∷◌, Option, some, length, drop,
  get_elem?, ◌≡◌, refl, arith, ap, sym, ◌∙◌, Bool-cases, inl, inr, length-drop, ◌⊎◌,
}
use distfs.Common.{ErrorCode, is_ok, is_ok_iff}
use distfs.Data.{ChunkStorage}
use distfs.Data.ChunkBuilder.{ChunkBuilder, move_pos, next_size, copy_in, write_loop, write_data}
use distfs.Data.Memory.{get_elem?-drop, get_elem?_within, div-lt_mono}
use distfs.Data.ChunkBuilder.Moving.{byte_at, Keeps, IsValid, Usable, move_pos-Moved}
use distfs.Data.ChunkBuilder.Copying.{copy_in-IsSized, copy_in-pos, byte_at-copy_in}

-- `xs` has been written at the old position: it can be read there, and every other byte that was
-- there is unchanged.
pub record Wrote {S : Type 0} (chunk_size : ℕ) (Healthy : S → Type 0)
    (contents : S → ℕ → Option (List ℕ)) (b : ChunkBuilder S) (xs : List ℕ) (b' : ChunkBuilder S)
    : Type 0 where
  pub advanced : b'.pos ≡ b.pos + length xs
  pub valid : IsValid chunk_size contents Healthy b'
  pub inside :
      (addr : ℕ)
      → b.pos ≤ addr
      → addr < b.pos + length xs
      → byte_at chunk_size contents b' addr ≡ get_elem? xs (addr - b.pos)
  pub outside :
      (addr v : ℕ)
      → (addr < b.pos) ⊎ (b.pos + length xs ≤ addr)
      → byte_at chunk_size contents b addr ≡ some v
      → byte_at chunk_size contents b' addr ≡ some v

module _ {S : Type 0} {store : ChunkStorage S} {chunk_size : ℕ} {Healthy : S → Type 0}
    {contents : S → ℕ → Option (List ℕ)} {Accepts : List ℕ → Type 0}
    (u : Usable store chunk_size Healthy contents Accepts) where
  -- The first part of the data, copied and moved past, and then the rest.
  Wrote-step :
      (b : ChunkBuilder S) (v : IsValid chunk_size contents Healthy b) (xs : List ℕ)
      → b.pos + length xs < 2 ^ 64
      → (b₁ b₂ : ChunkBuilder S) → b₁.pos ≡ b.pos + next_size store chunk_size xs b
      → Keeps chunk_size contents (copy_in store chunk_size xs b) b₁
      → Wrote chunk_size Healthy contents b₁ (drop (next_size store chunk_size xs b) xs) b₂
      → Wrote chunk_size Healthy contents b xs b₂
  Wrote-step b v xs small b₁ b₂ moved keeps w =
      let n = next_size store chunk_size xs b in
      let len = length-drop n xs in
      record {
        advanced = omega (arith, w.advanced);
        valid = w.valid;
        inside = λ addr lo hi. elim (Bool-cases (ltb addr (b.pos + n))) [
          | inl early ↦
              let (x, here) = get_elem?_within (addr - b.pos) xs (omega arith) in
              let put = byte_at-copy_in store b v u.positive xs small addr in
              let copied : byte_at chunk_size contents (copy_in store chunk_size xs b) addr
                  ≡ some x =
                ground (arith, put) in
              w.outside addr x (inl (ground arith)) (keeps addr x copied) ∙ sym here
          | inr late ↦
              let at : n + (addr - b₁.pos) ≡ addr - b.pos = ground arith in
              w.inside addr (ground arith) (ground arith)
              ∙ get_elem?-drop n (addr - b₁.pos) xs
              ∙ ap (get_elem? xs) at
        ];
        outside = λ addr x away before.
            let put = byte_at-copy_in store b v u.positive xs small addr in
            let still : byte_at chunk_size contents (copy_in store chunk_size xs b) addr ≡ some x =
              ground (arith, put) in
            w.outside addr x (omega arith) (keeps addr x still);
      }

  -- A run that ends, and what it means that it ends well.
  abbrev pub Writes : ChunkBuilder S → List ℕ → Option (ErrorCode × ChunkBuilder S) → Type 0
  Writes b xs r =
      (err : ErrorCode) × (b' : ChunkBuilder S) × (r ≡ some (err, b'))
      × (err ≡ ErrorCode.ok → Wrote chunk_size Healthy contents b xs b')

  Wrote-nothing :
      (b : ChunkBuilder S)
      → IsValid chunk_size contents Healthy b
      → Wrote chunk_size Healthy contents b [] b
  Wrote-nothing b v = record {
    advanced = omega arith;
    valid = v;
    inside = λ addr lo hi. absurd (omega arith);
    outside = λ addr x away h. h;
  }

  write_loop-Writes :
      (fuel : ℕ) (xs : List ℕ) (b : ChunkBuilder S)
      → length xs ≤ fuel
      → IsValid chunk_size contents Healthy b
      → b.pos + length xs < 2 ^ 64
      → (b.pos + length xs) / chunk_size < 2 ^ 32
      → Writes b xs (write_loop store chunk_size fuel xs b)
  unfolding write_loop
  write_loop-Writes fuel [] b enough v small near = (ErrorCode.ok, b, refl, λ _. Wrote-nothing b v)
  write_loop-Writes zero (x ∷ xs) b enough v small near = absurd (omega arith)
  write_loop-Writes (suc fuel) (x ∷ xs) b enough v small near =
      let all : List ℕ = x ∷ xs in
      let n = next_size store chunk_size all b in
      let c = copy_in store chunk_size all b in
      let sized = copy_in-IsSized store b v u.positive all small in
      let at = copy_in-pos store b v u.positive all small in
      let (err, b₁) = move_pos store chunk_size c.pos c in
      let len = length-drop n all in
      let some_room = mod-lt b.pos u.positive in
      let within : (p : ℕ) → p ≤ b.pos + length all → p / chunk_size < 2 ^ 32 =
        λ p le. div-lt_mono p (b.pos + length all) chunk_size (2 ^ 32) le near in
      elim (Bool-cases (is_ok err)) [
        | inr bad ↦ (err, b₁, rw bad, λ good. absurd (ground (arith, (is_ok_iff err).1 good)))
        | inl good ↦
            let (moved, valid, keeps) =
              move_pos-Moved u c sized c.pos (within c.pos (omega arith))
                ((is_ok_iff err).0 good) in
            let (err', b₂, ran, wrote) =
              write_loop-Writes fuel (drop n all) b₁ (omega arith) valid (omega arith)
                (within _ (omega arith)) in
            (
              err',
              b₂,
              rw good ran,
              λ fine. Wrote-step b v all small b₁ b₂ (moved ∙ at) keeps (wrote fine),
            )
      ]

  -- `write_data` always returns. If it returns `OK`, the data can be read at the old position, the
  -- position has moved past it, and no other byte of the image has changed or got lost. (The image
  -- stays below 2 ^ 64 bytes and 2 ^ 32 chunks, the builder is sound, and the store is a map that takes
  -- every chunk of full size.)
  pub write_data-Writes :
      (b : ChunkBuilder S) (xs : List ℕ)
      → IsValid chunk_size contents Healthy b
      → b.pos + length xs < 2 ^ 64
      → (b.pos + length xs) / chunk_size < 2 ^ 32
      → Writes b xs (write_data store chunk_size xs b)
  unfolding write_data
  write_data-Writes b xs v small near =
      write_loop-Writes (length xs) xs b (omega arith) v small near
