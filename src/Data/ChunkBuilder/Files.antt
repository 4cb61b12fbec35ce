-- ===== src/Data/ChunkBuilder/Files.antt =====
-- data/chunk_builder.cc: `add_file`, which appends a file to the image.
-- `read` gives at most as many bytes as it is asked for, so it stays within `read_buffer`. A file that
-- is read has some size, but the loop over its blocks does not know it: it is on fuel, and `none` means
-- that the fuel ran out. The loop over the parts of a block ends, since a part has at least a byte.
pub mod Filling
pub mod Appending
use distfs.Base.{
  ℕ, zero, suc, ◌+◌, ◌-◌, ◌%◌, ◌^◌, ◌≤◌, ltb, if◌then◌else◌, Bool, false, ◌&&◌, List, [], ◌∷◌, ◌++◌,
  Option, none, some, length, take, ap,
}
use distfs.Common.{ErrorCode, is_ok}
use distfs.Data.{ChunkStorage}
use distfs.Data.ChunkBuilder.{ChunkBuilder, write_data}
use distfs.Data.Memory.{overwrite}
use distfs.Data.Posix.{Opened, opened, no_entry, open_failed, Posix}
use distfs.Meta.Effects.{Outcome, done, undefined, ◌>>=◌, defined}

-- The variables of the inner loop: `got` is what has been read into `read_buffer`, `res` the last
-- result of `read`, with `none` for -1.
pub record Block : Type 0 where
  pub got : List ℕ
  pub max_size : ℕ
  pub length : ℕ
  pub res : Option ℕ

module _ {F W : Type 0} (posix : Posix F W) where
  -- What a round makes of the variables; -1 is subtracted and added like any other result.
  pub after_read : Block → Option (List ℕ) → Block
  after_read v none = record v {
    max_size = (v.max_size + 1) % 2 ^ 32;
    length = (v.length + 2 ^ 64 - 1) % 2 ^ 64;
    res = none;
  }
  after_read v (some bs) = record {
    got = v.got ++ bs;
    max_size = (v.max_size + 2 ^ 32 - length bs) % 2 ^ 32;
    length = (v.length + length bs) % 2 ^ 64;
    res = some (length bs);
  }

  -- `res > 0`.
  pub goes_on : Option ℕ → Bool
  goes_on none = false
  goes_on (some n) = ltb 0 n

  -- The inner loop.
  pub block_loop : ℕ → F → Block → W → Option (Block × W)
  unfolding after_read goes_on
  block_loop zero fd v w = none
  block_loop (suc fuel) fd v w =
      let (bs, w') = posix.read fd v.max_size w in
      let v' = after_read v bs in
      let rest = block_loop fuel fd v' w' in
      if ltb 0 v'.max_size && goes_on v'.res then rest else some (v', w')

  module _ {S : Type 0} (store : ChunkStorage S) (chunk_size : ℕ) where
    -- `write_data(read_buffer, CHUNK_SIZE_BYTES - max_size)`; a read past the end of the buffer is
    -- `undefined`.
    pub write_block : Block → ChunkBuilder S → Outcome (ErrorCode × ChunkBuilder S)
    unfolding write_data overwrite
    write_block v b =
        let n = (chunk_size + 2 ^ 32 - v.max_size) % 2 ^ 32 in
        let b' = record b { read_buffer = overwrite 0 v.got b.read_buffer } in
        let wrote = defined (write_data store chunk_size (take n b'.read_buffer) b') in
        if ltb chunk_size n then undefined else wrote

    -- What follows a block: the code and the length so far, where the loop ends.
    pub after_block :
        Option ℕ
        → ℕ
        → Outcome (ErrorCode × ChunkBuilder S)
        → (ChunkBuilder S → Option (Outcome ((ErrorCode × ℕ) × ChunkBuilder S × W)))
        → W
        → Option (Outcome ((ErrorCode × ℕ) × ChunkBuilder S × W))
    after_block res len (done (err, b)) next w =
        if is_ok err
        then elim res [
          | none ↦ some (done ((ErrorCode.access_denied, len), b, w))
          | some n ↦ if ltb 0 n then next b else some (done ((ErrorCode.ok, len), b, w))
        ]
        else some (done ((err, len), b, w))
    after_block res len _ next w = some undefined

    -- The outer loop, with `*length` so far.
    pub file_loop :
        ℕ → F → ℕ → ChunkBuilder S → W → Option (Outcome ((ErrorCode × ℕ) × ChunkBuilder S × W))
    unfolding block_loop write_block after_block
    file_loop zero fd len b w = none
    file_loop (suc fuel) fd len b w =
        let start : Block = record {
          got = [];
          max_size = chunk_size;
          length = len;
          res = some 0;
        } in
        elim (block_loop (suc chunk_size) fd start w) [
          | none ↦ none
          | some (v, w') ↦
              after_block v.res v.length (write_block v b) (λ b'. file_loop fuel fd v.length b' w')
                w'
        ]

    -- `*offset` is set at the end only: before that it is 0, as it is where the result is an error.
    pub finished :
        ℕ → (ErrorCode × ℕ) × ChunkBuilder S × W → F → (ErrorCode × ℕ × ℕ) × ChunkBuilder S × W
    finished p ((err, len), b, w) fd = ((err, if is_ok err then p else 0, len), b, posix.close fd w)

    pub closing :
        ℕ
        → F
        → Option (Outcome ((ErrorCode × ℕ) × ChunkBuilder S × W))
        → Option (Outcome ((ErrorCode × ℕ × ℕ) × ChunkBuilder S × W))
    unfolding finished
    closing p fd none = none
    closing p fd (some r) = some (r >>= λ x. done (finished p x fd))

    -- `add_file`: the code, `*offset` and `*length`.
    pub add_file :
        ℕ
        → List ℕ
        → ChunkBuilder S
        → W
        → Option (Outcome ((ErrorCode × ℕ × ℕ) × ChunkBuilder S × W))
    unfolding file_loop closing
    add_file fuel path b w = elim (posix.open_read path w).0 [
      | no_entry ↦ some (done ((ErrorCode.not_found, 0, 0), b, (posix.open_read path w).1))
      | open_failed ↦ some (done ((ErrorCode.access_denied, 0, 0), b, (posix.open_read path w).1))
      | opened fd ↦ closing b.pos fd (file_loop fuel fd 0 b (posix.open_read path w).1)
    ]
