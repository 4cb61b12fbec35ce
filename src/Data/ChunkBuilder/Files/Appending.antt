-- ===== src/Data/ChunkBuilder/Files/Appending.antt =====
-- data/chunk_builder.cc: `add_file` appends the file.
use distfs.Base.{
  append-nil, ℕ, zero, suc, ◌+◌, ◌-◌, ◌/◌, ◌%◌, ◌^◌, ◌<◌, ◌≤◌, ltb, true, false, List, [], ◌++◌,
  Option, none, some, length, take, get_elem?, ◌≡◌, refl, arith, ap, sym, ◌∙◌, subst, Bool-cases,
  inl, inr, length-append, take-append,
}
use distfs.Common.{ErrorCode, is_ok, is_ok_iff}
use distfs.Data.{ChunkStorage}
use distfs.Data.ChunkBuilder.{ChunkBuilder}
use distfs.Data.ChunkBuilder.Files.{
  Block, write_block, after_block, file_loop, finished, closing, add_file,
}
use distfs.Data.ChunkBuilder.Moving.{IsValid, Usable}
use distfs.Data.ChunkBuilder.Writing.{Wrote, write_data-Writes}
use distfs.Data.ChunkStore.Reading.{Reads}
use distfs.Data.Memory.{overwrite, get_elem?-append, get_elem?_within, div-lt_mono}
use distfs.Data.Posix.{opened, Posix}
use distfs.Meta.Effects.{Outcome, done, thrown, undefined}
use distfs.Data.ChunkBuilder.Files.Filling.{block_loop-Fills}

module _ {F W : Type 0} (posix : Posix F W) (file : List ℕ → W → Option (List ℕ))
    (rest : F → W → List ℕ) (r : Reads posix file rest)
    (good : (fd : F) (n : ℕ) (w : W) → (bs : List ℕ) × ((posix.read fd n w).0 ≡ some bs)) where
  module _ {S : Type 0} {store : ChunkStorage S} {chunk_size : ℕ} {Healthy : S → Type 0}
      {contents : S → ℕ → Option (List ℕ)} {Accepts : List ℕ → Type 0}
      (u : Usable store chunk_size Healthy contents Accepts) where
    Wrote-append :
        (b b1 b2 : ChunkBuilder S) (xs ys : List ℕ)
        → Wrote chunk_size Healthy contents b xs b1
        → Wrote chunk_size Healthy contents b1 ys b2
        → Wrote chunk_size Healthy contents b (xs ++ ys) b2
    Wrote-append b b1 b2 xs ys p q =
        let len = length-append xs ys in
        record {
          advanced = omega (arith, p.advanced, q.advanced, len);
          valid = q.valid;
          inside = λ addr lo hi.
              let app = get_elem?-append xs ys (addr - b.pos) in
              elim (Bool-cases (ltb (addr - b.pos) (length xs))) [
                | inl early ↦
                    let here = rw early at app in
                    let (x, known) = get_elem?_within (addr - b.pos) xs (ground arith) in
                    q.outside addr x (inl (ground (arith, p.advanced)))
                      (p.inside addr lo (ground arith) ∙ known)
                    ∙ sym known
                    ∙ sym here
                | inr late ↦
                    let there = rw late at app in
                    let at : addr - b1.pos ≡ addr - b.pos - length xs = omega (arith, p.advanced) in
                    q.inside addr (ground (arith, p.advanced)) (omega (arith, hi, len, p.advanced))
                    ∙ ap (get_elem? ys) at
                    ∙ sym there
              ];
          outside = λ addr v away h.
              q.outside addr v (omega (arith, len, p.advanced))
                (p.outside addr v (omega (arith, len)) h);
        }

    -- A block is written as far as it has been filled.
    write_block-Writes :
        (v : Block) (b : ChunkBuilder S)
        → chunk_size < 2 ^ 32
        → length v.got + v.max_size ≡ chunk_size
        → IsValid chunk_size contents Healthy b
        → b.pos + length v.got < 2 ^ 64
        → (b.pos + length v.got) / chunk_size < 2 ^ 32
        → (err : ErrorCode) × (b' : ChunkBuilder S) × (write_block posix store chunk_size v b
            ≡ done (err, b'))
          × (err ≡ ErrorCode.ok → Wrote chunk_size Healthy contents b v.got b')
    unfolding write_block
    write_block-Writes v b small full valid fits near =
        let n = (chunk_size + 2 ^ 32 - v.max_size) % 2 ^ 32 in
        let b1 = record b { read_buffer = overwrite 0 v.got b.read_buffer } in
        let valid1 : IsValid chunk_size contents Healthy b1 = record {
          sized = record {
            healthy = valid.sized.healthy;
            buff_size = valid.sized.buff_size;
            chunk_sizes = valid.sized.chunk_sizes;
          };
          at_pos = valid.at_pos;
        } in
        let size : n ≡ length v.got = omega (arith, small, full) in
        let inside : ltb chunk_size n ≡ false = ground arith in
        let bytes : take n b1.read_buffer ≡ v.got =
          rw size (unfold overwrite in take-append v.got _) in
        let (err, b2, ran, wrote) = write_data-Writes u b1 v.got valid1 fits near in
        (
          err,
          b2,
          rw (inside, bytes, ran) refl,
          λ fine.
              let w = wrote fine in
              record {
                advanced = w.advanced;
                valid = w.valid;
                inside = w.inside;
                outside = w.outside;
              },
        )

    -- What a run over the blocks ends in: the rest of the file stands at the old position.
    abbrev Appends :
        ChunkBuilder S
        → List ℕ
        → ℕ
        → Option (Outcome ((ErrorCode × ℕ) × ChunkBuilder S × W))
        → Type 0
    Appends b bytes len none = ⊥
    Appends b bytes len (some thrown) = ⊥
    Appends b bytes len (some undefined) = ⊥
    Appends b bytes len (some (done ((err, l), b', w'))) =
        err ≡ ErrorCode.ok → Wrote chunk_size Healthy contents b bytes b' × (l ≡ len + length bytes)

    Appends-append :
        (b b1 : ChunkBuilder S) (xs ys bytes : List ℕ) (len len1 : ℕ)
        (o : Option (Outcome ((ErrorCode × ℕ) × ChunkBuilder S × W)))
        → Wrote chunk_size Healthy contents b xs b1
        → xs ++ ys ≡ bytes
        → len1 + length ys ≡ len + length bytes
        → Appends b1 ys len1 o
        → Appends b bytes len o
    Appends-append b b1 xs ys bytes len len1 none p e c a = a
    Appends-append b b1 xs ys bytes len len1 (some thrown) p e c a = a
    Appends-append b b1 xs ys bytes len len1 (some undefined) p e c a = a
    Appends-append b b1 xs ys bytes len len1 (some (done ((err, l), b', w'))) p e c a = λ fine.
        let (q, count) = a fine in
        (
          subst (λ zs. Wrote chunk_size Healthy contents b zs b') e
              (Wrote-append b b1 b' xs ys p q),
          count ∙ c,
        )

    -- What follows a block that has been written.
    after_block-Appends :
        (b b1 : ChunkBuilder S) (xs ys bytes : List ℕ) (len len1 last : ℕ) (err : ErrorCode)
        (next : ChunkBuilder S → Option (Outcome ((ErrorCode × ℕ) × ChunkBuilder S × W))) (w : W)
        → (err ≡ ErrorCode.ok → Wrote chunk_size Healthy contents b xs b1)
        → xs ++ ys ≡ bytes
        → len1 + length ys ≡ len + length bytes
        → (last ≡ 0 → ys ≡ [])
        → (0 < last → err ≡ ErrorCode.ok → Appends b1 ys len1 (next b1))
        → Appends b bytes len
            (after_block posix store chunk_size (some last) len1 (done (err, b1)) next w)
    unfolding after_block
    after_block-Appends b b1 xs ys bytes len len1 last err next w wrote e c over later =
        elim (Bool-cases (is_ok err)) [
          | inr bad ↦ rw (bad, Appends) (λ fine. absurd (ground (arith, (is_ok_iff err).1 fine)))
          | inl fine ↦
              let ok = (is_ok_iff err).0 fine in
              elim (Bool-cases (ltb 0 last)) [
                | inl more ↦
                    rw (fine, more)
                      (Appends-append b b1 xs ys bytes len len1 (next b1) (wrote ok) e c
                        (later (ground arith) ok))
                | inr out ↦
                    let none_left : ys ≡ [] = over (ground arith) in
                    let all : xs ≡ bytes =
                      sym (append-nil xs) ∙ ap (λ zs. xs ++ zs) (sym none_left) ∙ e in
                    rw (fine, out, Appends)
                      (λ _. (
                        subst (λ zs. Wrote chunk_size Healthy contents b zs b1) all (wrote ok),
                        omega (arith, c, ap length none_left),
                      ))
              ]
        ]

    file_loop-Appends :
        (fuel : ℕ) (fd : F) (len : ℕ) (b : ChunkBuilder S) (w : W)
        → chunk_size < 2 ^ 32
        → IsValid chunk_size contents Healthy b
        → length (rest fd w) < fuel
        → len + length (rest fd w) < 2 ^ 64
        → b.pos + length (rest fd w) < 2 ^ 64
        → (b.pos + length (rest fd w)) / chunk_size < 2 ^ 32
        → Appends b (rest fd w) len (file_loop posix store chunk_size fuel fd len b w)
    unfolding file_loop
    file_loop-Appends zero fd len b w small valid enough count fits near =
        absurd (omega (arith, enough))
    file_loop-Appends (suc fuel) fd len b w small valid enough count fits near =
        let start : Block = record {
          got = [];
          max_size = chunk_size;
          length = len;
          res = some 0;
        } in
        let (v, w', ended, f) =
          block_loop-Fills posix file rest r good chunk_size (suc chunk_size) fd start w small
            (omega arith) u.positive (omega arith) count in
        let size : length v.got + length (rest fd w') ≡ length (rest fd w) =
          sym (length-append v.got (rest fd w')) ∙ ap length f.same in
        let within : (p : ℕ) → p ≤ b.pos + length (rest fd w) → p / chunk_size < 2 ^ 32 =
          λ p le. div-lt_mono p (b.pos + length (rest fd w)) chunk_size (2 ^ 32) le near in
        let (err, b1, ran, wrote) =
          write_block-Writes v b small f.full valid (omega (arith, size, fits))
            (within (b.pos + length v.got) (omega (arith, size))) in
        rw (file_loop, ended, ran, f.is_res)
          (after_block-Appends b b1 v.got (rest fd w') (rest fd w) len v.length f.last err
            (λ b'. file_loop posix store chunk_size fuel fd v.length b' w') w' wrote f.same
            f.counted f.over
            (λ more ok.
              let q = wrote ok in
              file_loop-Appends fuel fd v.length b1 w' small q.valid
                (omega (arith, f.progress more, enough)) (omega (arith, f.counted, count))
                (omega (arith, q.advanced, size, fits))
                (within (b1.pos + length (rest fd w')) (omega (arith, q.advanced, size)))))

    -- What `add_file` ends in, for a file that has been opened.
    abbrev pub Added :
        ChunkBuilder S
        → List ℕ
        → Option (Outcome ((ErrorCode × ℕ × ℕ) × ChunkBuilder S × W))
        → Type 0
    Added b bytes none = ⊥
    Added b bytes (some thrown) = ⊥
    Added b bytes (some undefined) = ⊥
    Added b bytes (some (done ((err, offset, len), b', w'))) =
        err ≡ ErrorCode.ok
        → (offset ≡ b.pos) × (len ≡ length bytes) × Wrote chunk_size Healthy contents b bytes b'

    closing-Added :
        (b : ChunkBuilder S) (bytes : List ℕ) (fd : F)
        (o : Option (Outcome ((ErrorCode × ℕ) × ChunkBuilder S × W)))
        → Appends b bytes 0 o
        → Added b bytes (closing posix store chunk_size b.pos fd o)
    unfolding closing finished
    closing-Added b bytes fd none a = a
    closing-Added b bytes fd (some thrown) a = a
    closing-Added b bytes fd (some undefined) a = a
    closing-Added b bytes fd (some (done ((err, l), b', w'))) a = λ fine.
        let (w, count) = a fine in
        let good_ : is_ok err ≡ true = (is_ok_iff err).1 fine in
        (rw good_ refl, omega (arith, count), w)

    -- `add_file` of a file that can be opened returns, with enough fuel; if it returns OK, the contents
    -- of the file have been written at the old position, no other byte of the image has changed or got
    -- lost, and the offset and the length are those of the file in the image. (No read fails. The builder
    -- is sound, the store is a map that takes every chunk of full size, a chunk has less than 2 ^ 32
    -- bytes, the image stays below 2 ^ 64 bytes and 2 ^ 32 chunks, and of the operating system the
    -- builder relies on `Reads`.)
    pub add_file-Added :
        (fuel : ℕ) (path : List ℕ) (b : ChunkBuilder S) (w : W) (fd : F) (bytes : List ℕ)
        → (posix.open_read path w).0 ≡ opened fd
        → file path w ≡ some bytes
        → length bytes < fuel
        → chunk_size < 2 ^ 32
        → IsValid chunk_size contents Healthy b
        → b.pos + length bytes < 2 ^ 64
        → (b.pos + length bytes) / chunk_size < 2 ^ 32
        → Added b bytes (add_file posix store chunk_size fuel path b w)
    unfolding add_file
    add_file-Added fuel path b w fd bytes open_ content enough small valid fits near =
        let w1 = (posix.open_read path w).1 in
        let same : rest fd w1 ≡ bytes = ground (arith, r.opens path w fd open_, content) in
        let ran =
          file_loop-Appends fuel fd 0 b w1 small valid (rw same enough)
            (rw same (omega (arith, fits))) (rw same fits) (rw same near) in
        rw (add_file, open_)
          (closing-Added b bytes fd _ (
            subst (λ bs. Appends b bs 0 (file_loop posix store chunk_size fuel fd 0 b w1)) same
              ran))
