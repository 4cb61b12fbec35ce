-- ===== src/Data/ChunkStore/Loops.antt =====
-- data/chunk_store.cc: the loops of `read_chunk` and `write_chunk` end.
use distfs.Base.{
  ◌≢◌, ◌%◌, ◌^◌, ℕ, zero, suc, ◌+◌, ◌-◌, ◌≤◌, ◌<◌, ltb, List, ◌++◌, none, some, length, drop, ◌&&◌,
  length-drop, ◌≡◌, arith, inl, inr, Bool-cases, Option-cases,
}
use distfs.Data.Posix.{Posix}
use distfs.Data.ChunkStore.{read_loop, write_loop}

module _ {F W : Type 0} (posix : Posix F W) where
  pub read_loop-ends :
      (fuel : ℕ) (fd : F) (max_size : ℕ) (got : List ℕ) (w : W)
      → ((fd : F) (n : ℕ) (w : W) (bs : List ℕ) → (posix.read fd n w).0 ≡ some bs → length bs ≤ n)
      → max_size < 2 ^ 32
      → max_size < fuel
      → read_loop posix fuel fd max_size got w ≢ none
  unfolding read_loop
  read_loop-ends zero fd max_size got w reads small le h = absurd (omega arith)
  read_loop-ends (suc fuel) fd max_size got w reads small le h =
      elim (Option-cases (posix.read fd max_size w).0) [
        | inl failed_ ↦ cc (rw (read_loop, failed_) at h)
        | inr (bs, some_) ↦
            let left = (max_size + 2 ^ 32 - length bs) % 2 ^ 32 in
            let within = reads fd max_size w bs some_ in
            elim (Bool-cases (ltb 0 left && ltb 0 (length bs))) [
              | inr out ↦ cc (rw (read_loop, some_, out) at h)
              | inl more ↦
                  let some_bytes : 0 < length bs = ground arith in
                  let less : left < max_size = omega (arith, some_bytes, within) in
                  read_loop-ends fuel fd left (got ++ bs) (posix.read fd max_size w).1 reads
                    (omega (arith, less)) (omega (arith, less)) (rw (read_loop, some_, more) at h)
            ]
      ]

  pub write_loop-ends :
      (fuel : ℕ) (fd : F) (bs : List ℕ) (w : W)
      → length bs < fuel
      → write_loop posix fuel fd bs w ≢ none
  unfolding write_loop
  write_loop-ends zero fd bs w le h = absurd (omega arith)
  write_loop-ends (suc fuel) fd bs w le h = elim (Option-cases (posix.write fd bs w).0) [
    | inl failed_ ↦ cc (rw (write_loop, failed_) at h)
    | inr (n, some_) ↦ elim (Bool-cases (ltb 0 (length (drop n bs)) && ltb 0 n)) [
      | inr out ↦ cc (rw (write_loop, some_, out) at h)
      | inl more ↦
          let progress : 0 < n = ground arith in
          let some_left : 0 < length (drop n bs) = ground arith in
          write_loop-ends fuel fd (drop n bs) (posix.write fd bs w).1
            (omega (arith, progress, some_left, length-drop n bs))
            (rw (write_loop, some_, more) at h)
    ]
  ]
