-- ===== src/Fuse.antt =====
-- fuse/fuse_main.cc: the calls of the kernel, and the numbers that they return.
-- An `int` is an integer here: `pos n` is n, and `negsuc n` is -(n + 1). `errno` is left out. The
-- metadata `mem` and the data provider are what `run_fuse` is given. The buffer that a call fills is
-- a component of its result, and so is the data provider afterwards.
pub mod Reading
mod Tests
use distfs.Base.{
  ℕ, zero, suc, ◌+◌, ◌-◌, ◌%◌, ◌^◌, min, ◌==◌, ltb, if◌then◌else◌, Bool, true, false, not, List, [],
  Option, none, some, bit_and,
}
use distfs.Common.{ErrorCode, is_ok}
use distfs.Data.{Filled, filled, failed}
use distfs.Meta.Effects.{Outcome, done, thrown, undefined, ◌>>=◌}
use distfs.Meta.MetaFileSystem.{get_node_offset}
use distfs.Meta.Queries.{
  file_position_at, get_symlink, stat_path, get_dir, list_xattr, get_xattr, get_offset,
}
use distfs.Meta.Stat.{Stat}

pub data ℤ : Type 0 where
  pos : ℕ → ℤ
  negsuc : ℕ → ℤ

-- `static_cast<int>` of a number of 64 bits.
abbrev pub to_int : ℕ → ℤ
to_int n = let r = n % 2 ^ 32 in if ltb r (2 ^ 31) then pos r else negsuc (2 ^ 32 - 1 - r)

-- -ENOENT, -EACCES, -ENOTDIR, -EINVAL, -ERANGE and -ENODATA.
abbrev pub enoent : ℤ
enoent = negsuc 1

abbrev pub eacces : ℤ
eacces = negsuc 12

abbrev pub enotdir : ℤ
enotdir = negsuc 19

abbrev pub einval : ℤ
einval = negsuc 21

abbrev pub erange : ℤ
erange = negsuc 33

abbrev pub enodata : ℤ
enodata = negsuc 60

-- O_WRONLY | O_RDWR.
abbrev write_flags : ℕ
write_flags = 3

pub readlink_reply : ErrorCode → ℤ
readlink_reply ErrorCode.ok = pos 0
readlink_reply ErrorCode.too_long = pos 0
readlink_reply ErrorCode.bad_type = einval
readlink_reply _ = enoent

pub readdir_reply : ErrorCode → ℤ
readdir_reply ErrorCode.ok = pos 0
readdir_reply ErrorCode.bad_type = enotdir
readdir_reply _ = enoent

-- With `len`, which is uninitialised where the query leaves it alone.
pub getxattr_reply : ErrorCode → Option ℕ → ℕ → ℤ
getxattr_reply ErrorCode.ok none garbage = to_int garbage
getxattr_reply ErrorCode.ok (some len) garbage = to_int len
getxattr_reply ErrorCode.too_long len garbage = erange
getxattr_reply ErrorCode.no_data len garbage = enodata
getxattr_reply _ len garbage = enoent

pub listxattr_reply : ErrorCode → Option ℕ → ℕ → ℤ
listxattr_reply ErrorCode.ok none garbage = to_int garbage
listxattr_reply ErrorCode.ok (some len) garbage = to_int len
listxattr_reply ErrorCode.too_long len garbage = erange
listxattr_reply _ len garbage = enoent

-- The bytes behind `offset`, or as many as are asked for; the difference is unsigned.
abbrev pub wanted : ℕ → ℕ → ℕ → ℕ
wanted len offset size = min ((len + 2 ^ 64 - offset) % 2 ^ 64) size

pub read_reply : {P : Type 0} → ℕ → Option (Filled × P) → Outcome (ℤ × List ℕ × P)
read_reply n none = undefined
read_reply n (some (filled bs, p)) = done (to_int n, bs, p)
read_reply n (some (failed err, p)) = done (eacces, [], p)

pub read_position :
    {P : Type 0}
    → (ℕ → ℕ → P → Option (Filled × P))
    → ℕ
    → ℕ
    → P
    → ErrorCode × Option (ℕ × ℕ)
    → Outcome (ℤ × List ℕ × P)
unfolding read_reply
read_position read size offset p (ErrorCode.ok, some (off, len)) =
    read_reply (wanted len offset size) (read ((off + offset) % 2 ^ 64) (wanted len offset size) p)
read_position read size offset p r = done (eacces, [], p)

module _ (mem : List ℕ) where
  pub distfs_getattr : List ℕ → Outcome (ℤ × Option Stat)
  distfs_getattr path = do
    (err, st) ← stat_path mem path
    done (if is_ok err then pos 0 else enoent, st)

  pub distfs_readlink : List ℕ → ℕ → List ℕ → Outcome (ℤ × List ℕ)
  unfolding readlink_reply
  distfs_readlink path buff_size buff = do
    (err, buff') ← get_symlink mem path buff_size buff
    done (readlink_reply err, buff')

  -- `filler` says whether its buffer is full.
  pub distfs_readdir {ℓ} :
      {R : Type ℓ} → (List ℕ → Stat → ℕ → R → Bool × R) → List ℕ → ℕ → R → Outcome (ℤ × R)
  unfolding readdir_reply
  distfs_readdir filler path offset r = do
    (err, (_, r')) ←
        get_dir mem path (offset % 2 ^ 32)
          (λ name st (o, q). let (stop, q') = filler name st (o + 1) q in (stop, (o + 1, q')))
          (offset, r)
    done (readdir_reply err, r')

  pub distfs_getxattr : List ℕ → List ℕ → ℕ → ℕ → Outcome (ℤ × List ℕ)
  unfolding getxattr_reply
  distfs_getxattr path name size garbage = do
    (err, value, len) ← get_xattr mem path name size
    done (getxattr_reply err len garbage, value)

  pub distfs_listattr : List ℕ → ℕ → ℕ → Outcome (ℤ × List ℕ)
  unfolding listxattr_reply
  distfs_listattr path size garbage = do
    (err, list, len) ← list_xattr mem path size
    done (listxattr_reply err len garbage, list)

  -- The reply, and `fi->fh` if the call sets it.
  pub distfs_open : List ℕ → ℕ → Outcome (ℤ × Option ℕ)
  distfs_open path flags =
      if bit_and flags write_flags == 0
      then (do
        (err, off) ← get_offset mem path
        done (if is_ok err then pos 0 else enoent, some off))
      else done (negsuc 0, none)

  -- `fh` is the offset of the node, from `distfs_open`.
  pub distfs_read :
      {P : Type 0} → (ℕ → ℕ → P → Option (Filled × P)) → ℕ → ℕ → ℕ → P → Outcome (ℤ × List ℕ × P)
  unfolding read_position
  distfs_read read fh size offset p = file_position_at mem fh >>= read_position read size offset p
