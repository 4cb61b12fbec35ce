-- ===== src/Data/Posix.antt =====
-- The calls of the operating system that data/chunk_store.cc and `add_file` of data/chunk_builder.cc
-- make, as a parameter.
-- `W` is all that they change, and `F` is what a file descriptor is. A path is its characters by their
-- codes.
use distfs.Base.{ℕ, List, Option, Bool}

-- `errno` is looked at for ENOENT only.
pub data Opened (F : Type 0) : Type 0 where
  opened : F → Opened F
  no_entry : Opened F
  open_failed : Opened F

pub data Unlinked : Type 0 where
  unlinked no_file unlink_failed : Unlinked

-- `none` is -1, for a number of bytes, and a null pointer, for a directory. `create` is `open` with
-- O_WRONLY, O_CREAT and O_TRUNC. `make_dir` is true where `mkdir` succeeds or gives EEXIST. `strtol`
-- is the number in base 16, if it is all of the string.
pub record Posix (F W : Type 0) : Type 0 where
  pub open_read : List ℕ → W → Opened F × W
  pub create : List ℕ → W → Option F × W
  pub read : F → ℕ → W → Option (List ℕ) × W
  pub write : F → List ℕ → W → Option ℕ × W
  pub close : F → W → W
  pub unlink : List ℕ → W → Unlinked × W
  pub make_dir : List ℕ → W → Bool × W
  pub entries : List ℕ → W → Option (List (List ℕ))
  pub strtol : List ℕ → Option ℕ
