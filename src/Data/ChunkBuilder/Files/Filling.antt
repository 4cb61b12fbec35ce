-- ===== src/Data/ChunkBuilder/Files/Filling.antt =====
-- data/chunk_builder.cc: the inner loop of `add_file` fills a block.
use distfs.Base.{
  ℕ, zero, suc, ◌+◌, ◌-◌, ◌^◌, ◌<◌, ◌≤◌, ltb, ◌&&◌, List, [], ◌∷◌, ◌++◌, Option, some, length, ◌≡◌,
  refl, arith, ap, sym, ◌∙◌, Bool-cases, inl, inr, append_assoc, length-append,
}
use distfs.Data.ChunkBuilder.Files.{Block, after_read, goes_on, block_loop}
use distfs.Data.ChunkStore.Reading.{Reads}
use distfs.Data.Posix.{Posix}

module _ {F W : Type 0} (posix : Posix F W) (file : List ℕ → W → Option (List ℕ))
    (rest : F → W → List ℕ) (r : Reads posix file rest)
    (good : (fd : F) (n : ℕ) (w : W) → (bs : List ℕ) × ((posix.read fd n w).0 ≡ some bs)) where
  -- A block has been read from an open file.
  pub record Fills (chunk_size : ℕ) (fd : F) (v : Block) (w : W) (v' : Block) (w' : W)
      : Type 0 where
    pub last : ℕ
    pub is_res : v'.res ≡ some last
    pub full : length v'.got + v'.max_size ≡ chunk_size
    pub same : v'.got ++ rest fd w' ≡ v.got ++ rest fd w
    pub counted : v'.length + length (rest fd w') ≡ v.length + length (rest fd w)
    pub over : last ≡ 0 → rest fd w' ≡ []
    pub less : length (rest fd w') ≤ length (rest fd w)
    pub progress : 0 < last → length (rest fd w') < length (rest fd w)

  nothing :
      (fd : F) (n : ℕ) (bs : List ℕ) (w : W)
      → 0 < n
      → (posix.read fd n w).0 ≡ some bs
      → length bs ≡ 0
      → rest fd (posix.read fd n w).1 ≡ []
  nothing fd n [] w some_ ran empty = sym (r.reads fd n w [] ran) ∙ r.ends fd n w some_ ran
  nothing fd n (b ∷ bs) w some_ ran empty = absurd (omega (arith, empty))

  -- The inner loop of `add_file` ends, however few bytes each `read` gives. What it has then put into
  -- the buffer follows what was there and is the next part of the file, with no byte left out; its
  -- number and the room that is left make up a chunk, the length is counted on by as much, and if the
  -- last `read` gave nothing the file is at its end. (No read fails, and `read` does what `Reads` says.
  -- There is room in the buffer, a chunk has less than 2 ^ 32 bytes, the fuel is more than the room,
  -- and the length stays below 2 ^ 64.)
  pub block_loop-Fills :
      (chunk_size fuel : ℕ) (fd : F) (v : Block) (w : W)
      → chunk_size < 2 ^ 32
      → length v.got + v.max_size ≡ chunk_size
      → 0 < v.max_size
      → v.max_size < fuel
      → v.length + length (rest fd w) < 2 ^ 64
      → (v' : Block) × (w' : W) × (block_loop posix fuel fd v w ≡ some (v', w'))
        × Fills chunk_size fd v w v' w'
  unfolding block_loop after_read goes_on
  block_loop-Fills chunk_size zero fd v w small full some_ enough count = absurd (omega arith)
  block_loop-Fills chunk_size (suc fuel) fd v w small full some_ enough count =
      let (bs, ran) = good fd v.max_size w in
      let w1 = (posix.read fd v.max_size w).1 in
      let v1 = after_read posix v (some bs) in
      let short = r.within fd v.max_size w bs ran in
      let all = r.reads fd v.max_size w bs ran in
      let size : length (rest fd w) ≡ length bs + length (rest fd w1) =
        ap length all ∙ length-append bs (rest fd w1) in
      let left : v1.max_size ≡ v.max_size - length bs = omega (arith, small, full, short) in
      let counts : v1.length ≡ v.length + length bs = omega (arith, count, size) in
      let got = length-append v.got bs in
      let same1 : (v.got ++ bs) ++ rest fd w1 ≡ v.got ++ rest fd w =
        append_assoc v.got bs (rest fd w1) ∙ ap (λ xs. v.got ++ xs) (sym all) in
      let full1 : length (v.got ++ bs) + v1.max_size ≡ chunk_size =
        omega (arith, got, left, full, short) in
      elim (Bool-cases (ltb 0 v1.max_size && ltb 0 (length bs))) [
        | inr out ↦ (
          v1,
          w1,
          rw (ran, out) refl,
          record {
            last = length bs;
            is_res = refl;
            full = full1;
            same = same1;
            counted = omega (arith, counts, size);
            over = λ empty. nothing fd v.max_size bs w some_ ran empty;
            less = omega (arith, size);
            progress = λ more. omega (arith, size, more);
          },
        )
        | inl more ↦
            let room : 0 < v1.max_size = ground arith in
            let some_bytes : 0 < length bs = ground arith in
            let (v', w', ended, f) =
              block_loop-Fills chunk_size fuel fd v1 w1 small full1 room
                (omega (arith, left, some_bytes, enough)) (omega (arith, counts, size, count)) in
            (
              v',
              w',
              rw (ran, more) ended,
              record {
                last = f.last;
                is_res = f.is_res;
                full = f.full;
                same = f.same ∙ same1;
                counted = omega (arith, f.counted, counts, size);
                over = f.over;
                less = omega (arith, f.less, size);
                progress = λ h. omega (arith, f.less, size, some_bytes);
              },
            )
      ]
