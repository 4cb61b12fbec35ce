-- ===== src/Data/ChunkStore.antt =====
-- data/chunk_store.h and data/chunk_store.cc: chunks as files, and the most recently used of them.
-- The operating system is a parameter (`Posix`). `std::set` is its elements in ascending order. What
-- the callback of the collector changes is the set and the files (`Disk`). The loops of `read` and
-- `write` are on fuel; that they run out of it is `undefined`, as an undefined `back()` of the
-- collector is.
pub mod Sets
pub mod Bound
pub mod Scanning
pub mod Loops
pub mod Operations
pub mod Reach
pub mod Reading
pub mod Names
mod Tests
use distfs.Base.{
  ℕ, zero, suc, ◌+◌, ◌-◌, ◌/◌, ◌%◌, ◌^◌, ◌==◌, ltb, if◌then◌else◌, Bool, true, false, ◌&&◌, ◌||◌,
  List, [], ◌∷◌, ◌++◌, Option, none, some, length, take, drop,
}
use distfs.Common.{ErrorCode, chunk_size_bytes}
use distfs.Common.LruCollector
use distfs.Common.LruCollector.{LruCollector}
use distfs.Common.LruCollector.History.{updates}
use distfs.Data.{Filled, filled, failed}
use distfs.Data.Posix.{
  Opened, opened, no_entry, open_failed, Unlinked, unlinked, no_file, unlink_failed, Posix,
}
use distfs.Meta.Effects.{Outcome, done, ◌>>=◌, defined}
use distfs.Network.ChunkAvailability.{insert}
use distfs.Network.Transfer.{same_string}

pub record ChunkStore : Type 0 where
  pub base_path : List ℕ
  pub in_store : List ℕ
  pub collector : LruCollector

-- `in_store.erase(id)`.
pub discard : ℕ → List ℕ → List ℕ
discard id [] = []
discard id (k ∷ ks) = if k == id then ks else k ∷ discard id ks

-- '/' and '.'.
abbrev pub slash : ℕ
slash = 47

abbrev pub dot : ℕ
dot = 46

-- `%X`, with as many digits as 32 bits need.
pub hex_digit : ℕ → ℕ
hex_digit d = if ltb d 10 then 48 + d else 55 + d

pub hex_digits : ℕ → ℕ → List ℕ
unfolding hex_digit
hex_digits zero n = []
hex_digits (suc fuel) n =
    let high = hex_digits fuel (n / 16) in
    if ltb n 16 then hex_digit n ∷ [] else high ++ hex_digit (n % 16) ∷ []

abbrev pub hex : ℕ → List ℕ
hex n = hex_digits 8 n

-- "%s/%X/%X/%X".
pub whole_path : List ℕ → ℕ → List ℕ
whole_path base_path id =
    base_path ++ slash ∷ (hex (id % 256) ++ slash ∷ (hex (id / 256 % 256) ++ slash ∷ hex id))

-- PATH_MAX - 1: `snprintf` cuts the path off there.
pub path_end : ℕ
path_end = 4095

pub id_to_path : List ℕ → ℕ → List ℕ
unfolding whole_path
id_to_path base_path id = take path_end (whole_path base_path id)

module _ {F W : Type 0} (posix : Posix F W) where
  -- What the callback of the collector changes.
  abbrev pub Disk : Type 0
  Disk = List ℕ × W

  -- `remove_chunk`, on the set and the files.
  pub remove_from : List ℕ → ℕ → Disk → ErrorCode × Disk
  unfolding id_to_path discard
  remove_from base_path id (in_store, w) = elim (posix.unlink (id_to_path base_path id) w).0 [
    | unlinked ↦ (ErrorCode.ok, (discard id in_store, (posix.unlink (id_to_path base_path id) w).1))
    | no_file ↦ (ErrorCode.not_found, (in_store, (posix.unlink (id_to_path base_path id) w).1))
    | unlink_failed ↦
        (ErrorCode.internal_error, (in_store, (posix.unlink (id_to_path base_path id) w).1))
  ]

  -- The callback.
  pub remover : List ℕ → ℕ → Disk → Disk
  unfolding remove_from
  remover base_path id d = (remove_from base_path id d).1

  pub remove_chunk : ℕ → ChunkStore → W → ErrorCode × ChunkStore × W
  unfolding remove_from
  remove_chunk id c w =
      let (err, (in_store, w')) = remove_from c.base_path id (c.in_store, w) in
      (err, record c { in_store = in_store }, w')

  pub available : ChunkStore → List ℕ
  available c = c.in_store

  -- "." and "..".
  pub is_dots : List ℕ → Bool
  unfolding same_string
  is_dots name = same_string name (dot ∷ []) || same_string name (dot ∷ dot ∷ [])

  -- The innermost loop of the constructor, over the names in a directory.
  pub scan_chunks : List (List ℕ) → List ℕ → List ℕ
  unfolding is_dots
  scan_chunks [] in_store = in_store
  scan_chunks (name ∷ names) in_store = elim (posix.strtol name) [
    | none ↦ scan_chunks names in_store
    | some id ↦
        let found = scan_chunks names (insert (id % 2 ^ 32) in_store) in
        let other = scan_chunks names in_store in if is_dots name then other else found
  ]

  -- The two loops around it: `visit` is what is done with a directory in the directory `path`.
  pub scan_dirs : (List ℕ → List ℕ → List ℕ) → List ℕ → List (List ℕ) → List ℕ → List ℕ
  unfolding is_dots
  scan_dirs visit path [] in_store = in_store
  scan_dirs visit path (name ∷ names) in_store =
      let next = visit (path ++ slash ∷ name) in_store in
      scan_dirs visit path names (if is_dots name then in_store else next)

  -- What is done with a directory that can be opened.
  pub visiting : W → (List (List ℕ) → List ℕ → List ℕ) → List ℕ → List ℕ → List ℕ
  visiting w scan path in_store = elim (posix.entries path w) [
    | none ↦ in_store
    | some names ↦ scan names in_store
  ]

  pub scan : List ℕ → W → List ℕ
  unfolding scan_chunks scan_dirs visiting
  scan base_path w =
      let chunks : List ℕ → List ℕ → List ℕ = visiting w scan_chunks in
      let inner : List ℕ → List ℕ → List ℕ = λ path. visiting w (scan_dirs chunks path) path in
      visiting w (scan_dirs inner base_path) base_path []

  -- The constructor. The callback erases only identifiers that the last loop has passed.
  pub new : List ℕ → ℕ → W → Outcome (ChunkStore × W)
  unfolding scan remover
  new store_path size w = do
    let found = scan store_path w
    (collector, (in_store, w')) ←
        defined (updates (remover store_path) found (LruCollector.new size) (found, w))
    done (record { base_path = store_path; in_store = in_store; collector = collector }, w')

  -- `collector->update(id)`.
  pub touch : ℕ → ChunkStore → W → Outcome (ChunkStore × W)
  unfolding remover
  touch id c w = do
    (collector, (in_store, w')) ←
        defined (LruCollector.update (remover c.base_path) id c.collector (c.in_store, w))
    done (record c { in_store = in_store; collector = collector }, w')

  -- The loop of `read_chunk`: `max_size` is of 32 bits. The result is -1, or the bytes.
  pub read_loop : ℕ → F → ℕ → List ℕ → W → Option (Option (List ℕ) × W)
  read_loop zero fd max_size got w = none
  read_loop (suc fuel) fd max_size got w = elim (posix.read fd max_size w).0 [
    | none ↦ some (none, (posix.read fd max_size w).1)
    | some bs ↦
        let left = (max_size + 2 ^ 32 - length bs) % 2 ^ 32 in
        let rest = read_loop fuel fd left (got ++ bs) (posix.read fd max_size w).1 in
        if ltb 0 left && ltb 0 (length bs)
        then rest
        else some (some (got ++ bs), (posix.read fd max_size w).1)
  ]

  -- The rest of `read_chunk`, behind `open`.
  pub read_opened : ℕ → ℕ → F → ChunkStore → W → Outcome (Filled × ChunkStore × W)
  unfolding touch read_loop
  read_opened chunk_size id fd c w = do
    (c', w1) ← touch id c w
    (res, w2) ← defined (read_loop (suc chunk_size) fd chunk_size [] w1)
    done (
      elim res [ none ↦ failed ErrorCode.internal_error | some bs ↦ filled bs ],
      c',
      posix.close fd w2,
    )

  pub read_chunk : ℕ → ℕ → ChunkStore → W → Outcome (Filled × ChunkStore × W)
  unfolding read_opened id_to_path
  read_chunk chunk_size id c w = elim (posix.open_read (id_to_path c.base_path id) w).0 [
    | opened fd ↦ read_opened chunk_size id fd c (posix.open_read (id_to_path c.base_path id) w).1
    | no_entry ↦
        done (failed ErrorCode.not_found, c, (posix.open_read (id_to_path c.base_path id) w).1)
    | open_failed ↦
        done (failed ErrorCode.internal_error, c, (posix.open_read (id_to_path c.base_path id) w).1)
  ]

  -- The loop of `create_base_dir`; `buff` is what has been copied. A directory is made for each '/'
  -- but the first character.
  pub make_dirs : List ℕ → List ℕ → W → ErrorCode × W
  make_dirs buff [] w = (ErrorCode.ok, w)
  make_dirs buff (x ∷ path) w =
      let plain = make_dirs (buff ++ x ∷ []) path w in
      let (made, w') = posix.make_dir buff w in
      let deeper = make_dirs (buff ++ x ∷ []) path w' in
      if x == slash then (if made then deeper else (ErrorCode.internal_error, w')) else plain

  pub create_base_dir : List ℕ → W → ErrorCode × W
  unfolding make_dirs
  create_base_dir [] w = (ErrorCode.ok, w)
  create_base_dir (x ∷ path) w = make_dirs (x ∷ []) path w

  -- The loop of `write_chunk`; the result says whether `res` is not -1.
  pub write_loop : ℕ → F → List ℕ → W → Option (Bool × W)
  write_loop zero fd bs w = none
  write_loop (suc fuel) fd bs w = elim (posix.write fd bs w).0 [
    | none ↦ some (false, (posix.write fd bs w).1)
    | some n ↦
        let rest = write_loop fuel fd (drop n bs) (posix.write fd bs w).1 in
        if ltb 0 (length (drop n bs)) && ltb 0 n then rest else some (true, (posix.write fd bs w).1)
  ]

  -- The end of `write_chunk`, behind the loop.
  pub written : ℕ → F → ChunkStore → Bool × W → Outcome (ErrorCode × ChunkStore × W)
  unfolding touch
  written id fd c (false, w) = done (ErrorCode.internal_error, c, posix.close fd w)
  written id fd c (true, w) = do
    (c', w') ← touch id c (posix.close fd w)
    done (ErrorCode.ok, record c' { in_store = insert id c'.in_store }, w')

  pub write_opened : ℕ → List ℕ → ChunkStore → Option F × W → Outcome (ErrorCode × ChunkStore × W)
  unfolding write_loop written
  write_opened id bs c (none, w) = done (ErrorCode.internal_error, c, w)
  write_opened id bs c (some fd, w) =
      defined (write_loop (suc (length bs)) fd bs w) >>= written id fd c

  pub write_chunk : ℕ → List ℕ → ChunkStore → W → Outcome (ErrorCode × ChunkStore × W)
  unfolding create_base_dir write_opened id_to_path
  write_chunk id bs c w =
      let path = id_to_path c.base_path id in
      elim (create_base_dir path w).0 [
        | ErrorCode.ok ↦ write_opened id bs c (posix.create path (create_base_dir path w).1)
        | err ↦ done (err, c, (create_base_dir path w).1)
      ]
