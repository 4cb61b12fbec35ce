-- ===== src/Meta/MetaFsBuilder.antt =====
-- meta/metafs_builder.h and meta/metafs_builder.cc: the tree of files is written into a buffer, which
-- grows as it fills.
-- `buf` is the member `data`. A position is an offset into it; a write past the end of the buffer is `undefined`.
-- `new_char n` is what `new char[n]` holds. The lengths that are reserved are sums in 64 bits; a
-- position is in the buffer, so it does not wrap.
pub mod Growth
pub mod Writes
pub mod Bounds
mod Tests
use distfs.Base.{
  ℕ, zero, suc, ◌+◌, ◌-◌, ◌*◌, ◌/◌, ◌%◌, ◌^◌, ◌==◌, ltb, if◌then◌else◌, Bool, true, false, List, [],
  ◌∷◌, ◌++◌, Option, none, some, length, drop, replicate,
}
use distfs.Data.Memory.{overwrite}
use distfs.Meta.{sizeof_node, sizeof_entry, sizeof_usize}
use distfs.Meta.Effects.{Outcome, done, undefined, ◌>>=◌, defined}
use distfs.Meta.Stat.{Stat, to_ns}

pub record MetaFsBuilder : Type 0 where
  pub root_path : List ℕ
  pub buf : List ℕ
  pub data_size : ℕ
  pub current_pos : ℕ

abbrev pub Xattrs : Type 0
Xattrs = List (List ℕ × List ℕ)

-- A number of `n` bytes, the lowest first.
pub bytes_of : ℕ → ℕ → List ℕ
bytes_of zero v = []
bytes_of (suc n) v = (v % 256) ∷ bytes_of n (v / 256)

-- A write to the buffer.
pub put : ℕ → List ℕ → List ℕ → Outcome (List ℕ)
put pos bs buf =
    if ltb (length buf) (pos + length bs) then undefined else done (overwrite pos bs buf)

-- What `strncpy(…, s.c_str(), s.size() + 1)` writes: from the first 0 of `s` on, only zeros.
pub c_string : List ℕ → List ℕ
c_string [] = 0 ∷ []
c_string (c ∷ s) = if c == 0 then 0 ∷ replicate (length s + 1) 0 else c ∷ c_string s

module _ (new_char : ℕ → List ℕ) where
  pub new : List ℕ → MetaFsBuilder
  new root_path = record { root_path = root_path; buf = []; data_size = 0; current_pos = 0 }

  -- The loop of `reserve_buffer`, on fuel: `wanted` is `length + current_pos`.
  pub grow : ℕ → ℕ → MetaFsBuilder → Option MetaFsBuilder
  grow zero wanted b = none
  grow (suc fuel) wanted b =
      let size = 2 * b.data_size % 2 ^ 64 in
      let more =
        grow fuel wanted
          (record b { buf = b.buf ++ drop b.data_size (new_char size); data_size = size }) in
      if ltb b.data_size wanted then more else some b

  -- 65 rounds: a size that is not 0 is doubled at most 64 times before it wraps.
  pub reserve_buffer : ℕ → MetaFsBuilder → Outcome MetaFsBuilder
  unfolding grow
  reserve_buffer length b = defined (grow 65 ((length + b.current_pos) % 2 ^ 64) b)

  pub set_stat : Stat → ℕ → List ℕ → Outcome (List ℕ)
  unfolding put bytes_of
  set_stat st n buf = do
    buf ← put n (bytes_of 4 st.mode) buf
    buf ← put (n + 4) (bytes_of 4 st.uid) buf
    buf ← put (n + 8) (bytes_of 4 st.gid) buf
    buf ← put (n + 16) (bytes_of 8 st.size) buf
    buf ← put (n + 24) (bytes_of 8 st.blocks) buf
    ctime ← to_ns st.ctim
    buf ← put (n + 40) (bytes_of 8 ctime) buf
    mtime ← to_ns st.mtim
    put (n + 32) (bytes_of 8 mtime) buf

  -- A round of the loop of `add_xattrs`: `entry` is the address of `entries[i]`.
  pub add_xattr : ℕ → List ℕ × List ℕ → List ℕ → ℕ → Outcome (List ℕ × ℕ)
  unfolding put bytes_of c_string
  add_xattr entry (name, value) buf pos = do
    buf ← put entry (bytes_of 8 pos) buf
    buf ← put pos (c_string name) buf
    let pos' = pos + (length name + 1)
    buf ← put (entry + 8) (bytes_of 8 pos') buf
    buf ← put pos' (bytes_of 8 (length value)) buf
    buf ← put (pos' + sizeof_usize) (c_string value) buf
    done (buf, pos' + sizeof_usize + (length value + 1))

  pub xattr_loop : ℕ → Xattrs → List ℕ → ℕ → Outcome (List ℕ × ℕ)
  unfolding add_xattr
  xattr_loop entry [] buf pos = done (buf, pos)
  xattr_loop entry (x ∷ xattrs) buf pos = do
    (buf', pos') ← add_xattr entry x buf pos
    xattr_loop (entry + sizeof_entry) xattrs buf' pos'

  pub add_xattrs : Xattrs → MetaFsBuilder → Outcome MetaFsBuilder
  unfolding xattr_loop
  add_xattrs xattrs b = do
    (buf, pos) ←
        xattr_loop b.current_pos xattrs b.buf (b.current_pos + sizeof_entry * length xattrs)
    done (record b { buf = buf; current_pos = pos })

  pub xattrs_len : Xattrs → ℕ
  xattrs_len [] = 0
  xattrs_len ((name, value) ∷ xattrs) =
      (length name + 1 + length value + 1 + sizeof_entry + sizeof_usize + xattrs_len xattrs)
      % 2 ^ 64

  -- What the three kinds of nodes begin with, behind `reserve_buffer`; `set_length` is the write of
  -- `n->length`, which only a directory has.
  pub add_node : Stat → Xattrs → (List ℕ → Outcome (List ℕ)) → MetaFsBuilder → Outcome MetaFsBuilder
  unfolding set_stat add_xattrs
  add_node st xattrs set_length b = do
    buf ← set_stat st b.current_pos b.buf
    buf ← set_length buf
    buf ← put (b.current_pos + 48) (bytes_of 4 (length xattrs)) buf
    add_xattrs xattrs (record b { buf = buf; current_pos = b.current_pos + sizeof_node })

  pub add_file : Stat → Xattrs → MetaFsBuilder → Outcome (ℕ × MetaFsBuilder)
  unfolding reserve_buffer xattrs_len add_node
  add_file st xattrs b = do
    b' ← reserve_buffer (sizeof_node + xattrs_len xattrs) b
    b' ← add_node st xattrs done b'
    done (b.current_pos, b')

  -- `target` is the string without its 0.
  pub add_link : Stat → List ℕ → Xattrs → MetaFsBuilder → Outcome (ℕ × MetaFsBuilder)
  unfolding reserve_buffer xattrs_len add_node
  add_link st target xattrs b = do
    let len = length target + 1
    b' ← reserve_buffer (sizeof_node + len + xattrs_len xattrs) b
    b' ← add_node st xattrs done b'
    buf ← put b'.current_pos (c_string target) b'.buf
    buf ← put (b.current_pos + 64) (bytes_of 8 b'.current_pos) buf
    done (b.current_pos, record b' { buf = buf; current_pos = b'.current_pos + len })

  -- The loop over the names: `dirent` is the address of `dirent[i]`.
  pub name_loop : ℕ → List (List ℕ) → List ℕ → ℕ → Outcome (List ℕ × ℕ)
  unfolding put c_string bytes_of
  name_loop dirent [] buf pos = done (buf, pos)
  name_loop dirent (name ∷ names) buf pos = do
    buf ← put pos (c_string name) buf
    buf ← put dirent (bytes_of 8 pos) buf
    name_loop (dirent + sizeof_entry) names buf (pos + (length name + 1))

  pub names_len : List (List ℕ) → ℕ
  names_len [] = 0
  names_len (name ∷ names) = (length name + 1 + sizeof_entry + names_len names) % 2 ^ 64

  -- The position of the node, and that of its entries.
  pub add_dir : Stat → List (List ℕ) → Xattrs → MetaFsBuilder → Outcome ((ℕ × ℕ) × MetaFsBuilder)
  unfolding reserve_buffer xattrs_len add_node name_loop names_len
  add_dir st sorted_entries xattrs b = do
    b' ← reserve_buffer (sizeof_node + names_len sorted_entries + xattrs_len xattrs) b
    b' ← add_node st xattrs (put (b.current_pos + 56) (bytes_of 8 (length sorted_entries))) b'
    let dirent = b'.current_pos
    buf ← put (b.current_pos + 64) (bytes_of 8 dirent) b'.buf
    (buf, pos) ← name_loop dirent sorted_entries buf (dirent + sizeof_entry * length sorted_entries)
    done ((b.current_pos, dirent), record b' { buf = buf; current_pos = pos })

  pub set_dirent_node_offset : ℕ → ℕ → ℕ → MetaFsBuilder → Outcome MetaFsBuilder
  unfolding put bytes_of
  set_dirent_node_offset dirent_pos pos value b = do
    buf ← put (dirent_pos + pos * sizeof_entry + 8) (bytes_of 8 value) b.buf
    done (record b { buf = buf })
