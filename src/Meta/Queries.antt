-- ===== src/Meta/Queries.antt =====
-- meta/meta_file_system.h and meta/meta_file_system.cc: the public queries, and the constructor.
-- An output argument that the code leaves as it was is `none`. The caller's buffer is the list of
-- its bytes, so that its true size is known.
pub mod Symlinks
pub mod Xattrs
mod Tests
use distfs.Base.{
  ℕ, zero, suc, ◌+◌, ◌-◌, ◌%◌, ◌^◌, ◌==◌, ltb, if◌then◌else◌, Bool, List, [], ◌∷◌, ◌++◌, Option,
  none, some, length, take, drop, replicate, set,
}
use distfs.Common.{ErrorCode, is_ok}
use distfs.Data.{Filled, filled, failed}
use distfs.Data.Memory.{overwrite}
use distfs.Meta.{sizeof_node, sizeof_usize, node_at, entry_at}
use distfs.Meta.Effects.{Outcome, done, thrown, undefined, ◌>>=◌}
use distfs.Meta.Memory.{string_at, u64_at}
use distfs.Meta.MetaFileSystem.{is_reg, is_lnk, is_dir, find_entity, get_node_offset}
use distfs.Meta.Stat.{Stat, get_stat}

-- `strncpy(buff, s, n)`: the first `n` bytes of the string, filled up with 0.
pub strncpy : List ℕ → List ℕ → ℕ → Outcome (List ℕ)
strncpy buff s n =
    if ltb (length buff) n
    then undefined
    else done (overwrite 0 (take n s ++ replicate (n - length s) 0) buff)

-- `buff[i] = c`.
pub assign : List ℕ → ℕ → ℕ → Outcome (List ℕ)
assign buff i c = if ltb i (length buff) then done (set buff i c) else undefined

module _ (mem : List ℕ) where
  -- `get_file_position(offset, …)`: the place and the length of the file.
  unfoldable pub file_position_at : ℕ → Outcome (ErrorCode × Option (ℕ × ℕ))
  file_position_at offset = do
    n ← node_at mem offset
    if is_reg n.mode
        then done (ErrorCode.ok, some (n.data_offset, n.length))
        else done (ErrorCode.bad_type, none)

  -- `get_file_position(path, …)`, which drops the code of the call within.
  pub get_file_position : List ℕ → Outcome (ErrorCode × Option (ℕ × ℕ))
  unfolding file_position_at
  get_file_position path = do
    (code, offset) ← get_node_offset mem path
    if is_ok code
        then (do (_, out) ← file_position_at offset; done (code, out))
        else done (code, none)

  -- `buff_size - 1` is unsigned.
  pub get_symlink : List ℕ → ℕ → List ℕ → Outcome (ErrorCode × List ℕ)
  unfolding strncpy assign
  get_symlink path buff_size buff = do
    (code, offset) ← get_node_offset mem path
    if is_ok code
        then (do
          n ← node_at mem offset
          if is_lnk n.mode
              then (do
                s ← string_at mem n.data_offset
                copied ← strncpy buff s ((buff_size + 2 ^ 64 - 1) % 2 ^ 64)
                ended ← assign copied buff_size 0
                done (if ltb buff_size (length s) then ErrorCode.too_long else code, ended))
              else done (ErrorCode.bad_type, buff))
        else done (code, buff)

  pub stat_path : List ℕ → Outcome (ErrorCode × Option Stat)
  stat_path path = do
    (code, offset) ← get_node_offset mem path
    if is_ok code
        then (do n ← node_at mem offset; done (code, some (get_stat n)))
        else done (code, none)

  -- The loop of `get_dir`, with the rounds left. The reader says whether to stop; `R` is what it
  -- changes.
  pub dir_loop {ℓ} : {R : Type ℓ} → (List ℕ → Stat → R → Bool × R) → ℕ → ℕ → ℕ → R → Outcome R
  dir_loop reader zero dirents i r = done r
  dir_loop reader (suc left) dirents i r = do
    e ← entry_at mem dirents i
    n ← node_at mem e.data_offset
    s ← string_at mem e.name_offset
    let (stop, r') = reader s (get_stat n) r
    let rest = dir_loop reader left dirents (i + 1) r'
    if stop then done r' else rest

  pub get_dir {ℓ} :
      {R : Type ℓ} → List ℕ → ℕ → (List ℕ → Stat → R → Bool × R) → R → Outcome (ErrorCode × R)
  unfolding dir_loop
  get_dir path start_at reader r = do
    (code, offset) ← get_node_offset mem path
    if is_ok code
        then (do
          n ← node_at mem offset
          if is_dir n.mode
              then (do
                r' ← dir_loop reader (n.length - start_at) n.data_offset start_at r
                done (code, r'))
              else done (ErrorCode.bad_type, r))
        else done (code, r)

  -- The loop of `list_xattr`, with the rounds left: the bytes written to `list` so far, and
  -- `*length`.
  pub xattr_loop : ℕ → ℕ → ℕ → ℕ → List ℕ → ℕ → Outcome (ErrorCode × List ℕ × ℕ)
  xattr_loop zero entries i buff_size written total = done (ErrorCode.ok, written, total)
  xattr_loop (suc left) entries i buff_size written total = do
    e ← entry_at mem entries i
    s ← string_at mem e.name_offset
    let res = length s + 1
    let counted = xattr_loop left entries (i + 1) buff_size written (total + res)
    let copied =
        xattr_loop left entries (i + 1) (buff_size - res) (written ++ (s ++ 0 ∷ [])) (total + res)
    if buff_size == 0
        then counted
        else (if ltb buff_size res then done (ErrorCode.too_long, written, total + res) else copied)

  pub list_xattr : List ℕ → ℕ → Outcome (ErrorCode × List ℕ × Option ℕ)
  unfolding xattr_loop
  list_xattr path buff_size = do
    (code, offset) ← get_node_offset mem path
    if is_ok code
        then (do
          n ← node_at mem offset
          (err, written, total) ← xattr_loop n.xattrs_count (offset + sizeof_node) 0 buff_size [] 0
          done (err, written, some total))
        else done (code, [], none)

  -- `memcpy` from an address.
  pub bytes_at : ℕ → ℕ → Outcome (List ℕ)
  bytes_at addr n = if ltb (length mem) (addr + n) then undefined else done (take n (drop addr mem))

  -- The part of `get_xattr` behind the search.
  pub xattr_value : ℕ → ℕ → Outcome (ErrorCode × List ℕ × Option ℕ)
  unfolding bytes_at
  xattr_value buff_size data_offset =
      if data_offset == 0 then done (ErrorCode.no_data, [], none) else (do
        data_size ← u64_at mem data_offset
        if buff_size == 0
            then done (ErrorCode.ok, [], some data_size)
            else (if ltb buff_size data_size
                then done (ErrorCode.too_long, [], some data_size)
                else (do
                  value ← bytes_at (data_offset + sizeof_usize) data_size
                  done (ErrorCode.ok, value, some data_size))))

  pub get_xattr : List ℕ → List ℕ → ℕ → Outcome (ErrorCode × List ℕ × Option ℕ)
  unfolding xattr_value
  get_xattr path name buff_size = do
    (code, offset) ← get_node_offset mem path
    if is_ok code
        then (do
          n ← node_at mem offset
          data_offset ← find_entity mem name (offset + sizeof_node) n.xattrs_count
          xattr_value buff_size data_offset)
        else done (code, [], none)

  pub get_offset : List ℕ → Outcome (ErrorCode × ℕ)
  get_offset path = get_node_offset mem path

-- `dataProvider.read`, as the constructor uses it: an error is an exception.
abbrev pub read_or_throw : {P : Type 0} → Option (Filled × P) → Outcome (List ℕ × P)
read_or_throw none = undefined
read_or_throw (some (failed err, p)) = thrown
read_or_throw (some (filled bs, p)) = done (bs, p)

-- The constructor from a data provider: the size first, and then the whole block.
pub open_metafs : {P : Type 0} → (ℕ → ℕ → P → Option (Filled × P)) → P → Outcome (List ℕ × P)
open_metafs read p = do
  (buf, p') ← read_or_throw (read 0 sizeof_usize p)
  size ← u64_at buf 0
  read_or_throw (read 0 size p')
