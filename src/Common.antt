-- ===== src/Common.antt =====
-- common/: the error codes and constants that the other parts share (common/error_code.h,
-- common/consts.h), and the two containers below.
pub mod LruCollector
pub mod OrderedSet
use distfs.Base.{ℕ, ◌*◌, Bool, true, false, ◌≡◌, ◌↔◌, arith}

pub data ErrorCode : Type 0 where
  ok not_found access_denied too_long no_data bad_type internal_error not_implemented : ErrorCode

-- CHUNK_SIZE_BYTES: 4 MB.
unfoldable pub chunk_size_bytes : ℕ
chunk_size_bytes = 1024 * 1024 * 4

-- WIRE_CHUNK_SIZE_BYTES: 0.4 MB.
unfoldable pub wire_chunk_size_bytes : ℕ
wire_chunk_size_bytes = 1024 * 410

-- PING_TIMEOUT is passed on to gRPC only; these two are read by the connection pool.
abbrev pub info_refresh_s : ℕ
info_refresh_s = 10

abbrev pub pex_refresh_s : ℕ
pex_refresh_s = 60

-- `err == ErrorCode::OK`.
abbrev pub is_ok : ErrorCode → Bool
is_ok ErrorCode.ok = true
is_ok _ = false

pub is_ok_iff : (err : ErrorCode) → (is_ok err ≡ true) ↔ (err ≡ ErrorCode.ok)
is_ok_iff err = ground arith
