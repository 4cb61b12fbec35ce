-- ===== src/Data/ChunkBuilder.antt =====
-- data/chunk_builder.h and data/chunk_builder.cc: a file system image is written as one long run of
-- bytes, of which the builder holds one chunk in memory.
-- `chunk_size` is CHUNK_SIZE_BYTES; `store` is the compressed store. `usize` is of 64 bits and
-- `uint32_t` of 32, and they wrap. After a failed read or write of the store the contents of `buff`
-- are those before it.
pub mod Moving
pub mod Copying
pub mod Writing
pub mod Building
pub mod Files
mod Tests
use distfs.Base.{
  ℕ, zero, suc, ◌+◌, ◌-◌, ◌*◌, ◌/◌, ◌%◌, ◌^◌, min, ◌==◌, ltb, if◌then◌else◌, Bool, true, false,
  List, [], ◌∷◌, ◌++◌, Option, none, some, length, take, drop, replicate,
}
use distfs.Common.{ErrorCode, is_ok}
use distfs.Network.ChunkAvailability.{has}
use distfs.Data.{Filled, filled, failed, ChunkStorage}
use distfs.Data.Memory.{overwrite}

pub record ChunkBuilder (S : Type 0) : Type 0 where
  pub store : S
  pub built : Bool
  pub pos : ℕ
  pub buff : List ℕ
  pub read_buffer : List ℕ
  pub chunk_num : ℕ

module _ {S : Type 0} (store : ChunkStorage S) (chunk_size : ℕ) where
  -- The constructor; the two buffers hold whatever `new char[]` gives.
  pub new : List ℕ → List ℕ → S → ChunkBuilder S
  new buff read_buffer s = record {
    store = s;
    built = false;
    pos = 0;
    buff = buff;
    read_buffer = read_buffer;
    chunk_num = 0;
  }

  -- The end of `move_pos`, from the read of the chunk that is moved to.
  pub after_read : ℕ → ChunkBuilder S → Filled × S → ErrorCode × ChunkBuilder S
  unfolding overwrite
  after_read new_offset b (filled bs, s) =
      (ErrorCode.ok, record b { store = s; buff = overwrite 0 bs b.buff; pos = new_offset })
  after_read new_offset b (failed err, s) = (err, record b { store = s })

  -- The rest of `move_pos`, from the write of the chunk that is left.
  pub after_write : ℕ → ChunkBuilder S → ErrorCode × S → ErrorCode × ChunkBuilder S
  unfolding after_read
  after_write new_offset b (err, s) =
      let num = new_offset / chunk_size % 2 ^ 32 in
      let b' = record b { store = s; chunk_num = num } in
      if is_ok err
      then (if has num (store.available s)
          then after_read new_offset b' (store.read_chunk num s)
          else (ErrorCode.ok, record b' { pos = new_offset }))
      else (err, record b { store = s })

  pub move_pos : ℕ → ChunkBuilder S → ErrorCode × ChunkBuilder S
  unfolding after_write
  move_pos new_offset b =
      if new_offset / chunk_size == b.chunk_num
      then (ErrorCode.ok, record b { pos = new_offset })
      else after_write new_offset b (store.write_chunk b.chunk_num b.buff b.store)

  -- The number of bytes that a round of `write_data` copies.
  abbrev pub next_size : List ℕ → ChunkBuilder S → ℕ
  next_size xs b = min (chunk_size - b.pos % chunk_size) (length xs)

  -- `memcpy(buff + curr, data, next); pos += next;`
  pub copy_in : List ℕ → ChunkBuilder S → ChunkBuilder S
  unfolding overwrite
  copy_in xs b = record b {
    buff = overwrite (b.pos % chunk_size) (take (next_size xs b) xs) b.buff;
    pos = (b.pos + next_size xs b) % 2 ^ 64;
  }

  -- The loop of `write_data`, on fuel: `none` means that the fuel ran out.
  pub write_loop : ℕ → List ℕ → ChunkBuilder S → Option (ErrorCode × ChunkBuilder S)
  unfolding copy_in move_pos
  write_loop fuel [] b = some (ErrorCode.ok, b)
  write_loop zero (x ∷ xs) b = none
  write_loop (suc fuel) (x ∷ xs) b =
      let c = copy_in (x ∷ xs) b in
      let (err, b') = move_pos c.pos c in
      let rest = write_loop fuel (drop (next_size (x ∷ xs) b) (x ∷ xs)) b' in
      if is_ok err then rest else some (err, b')

  -- Every round copies at least a byte.
  pub write_data : List ℕ → ChunkBuilder S → Option (ErrorCode × ChunkBuilder S)
  write_data xs b = write_loop (length xs) xs b

  pub reserve : ℕ → ChunkBuilder S → (ErrorCode × ℕ) × ChunkBuilder S
  reserve length b = let (err, b') = move_pos ((b.pos + length) % 2 ^ 64) b in ((err, b.pos), b')

  pub write : ℕ → List ℕ → ChunkBuilder S → Option (ErrorCode × ChunkBuilder S)
  write offset xs b =
      let (err, b') = move_pos offset b in if is_ok err then write_data xs b' else some (err, b')

  pub build : ChunkBuilder S → ErrorCode × ChunkBuilder S
  build b =
      let (err, s) = store.write_chunk b.chunk_num b.buff b.store in
      if is_ok err
      then (err, record b { store = s; built = true })
      else (err, record b { store = s })

  -- The loop of the destructor, over the chunks that are available when it starts.
  pub remove_all : List ℕ → S → S
  remove_all [] s = s
  remove_all (i ∷ is) s = remove_all is (store.remove_chunk i s).1

  pub destroy : ChunkBuilder S → S
  unfolding remove_all
  destroy b = if b.built then b.store else remove_all (store.available b.store) b.store
