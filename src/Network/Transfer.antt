-- ===== src/Network/Transfer.antt =====
-- A chunk on its way from one peer to another: `DistfsService::GetChunk` of
-- network/distfs_service.cc sends it, and `ConnectionPool::fetch_chunk` of
-- network/connection_pool.cc receives it, compares its hash and stores it.
-- gRPC is a parameter: `write` is `writer->Write`, which says whether the call goes on, and `connect`
-- is one attempt to read a chunk from a peer with a new `ClientContext`, with the choice of the peer
-- among those that have it.
-- `checksum` is SHA-256, in hexadecimal.
pub mod Sending
pub mod Receiving
mod Tests
use distfs.Base.{
  ℕ, zero, suc, ◌+◌, ◌-◌, ◌%◌, ◌^◌, min, ltb, ◌==◌, ◌&&◌, if◌then◌else◌, Bool, true, false, List,
  [], ◌∷◌, ◌++◌, Option, none, some, length, take, drop, get_elem?,
}
use distfs.Common.{ErrorCode}
use distfs.Data.{Filled, filled, failed, ChunkStorage}
use distfs.Meta.Effects.{Outcome, done, undefined, ◌>>=◌, defined}

-- The codes of `grpc::Status` that the service uses.
pub data Status : Type 0 where
  ok cancelled not_found internal unavailable : Status

module _ {W : Type 0} (write : List ℕ → W → Bool × W) (wire_size : ℕ) where
  -- `set_data(buff + offset, min(WIRE_CHUNK_SIZE_BYTES, size - offset))`; `rest` is the chunk from
  -- `offset` on.
  abbrev pub next_part : List ℕ → List ℕ
  next_part rest = take (min wire_size (length rest)) rest

  -- The loop of `GetChunk`, on fuel: `none` means that the fuel ran out.
  pub send_loop : ℕ → List ℕ → W → Option (Status × W)
  send_loop fuel [] w = some (Status.ok, w)
  send_loop zero (x ∷ xs) w = none
  send_loop (suc fuel) (x ∷ xs) w =
      let (good, w') = write (next_part (x ∷ xs)) w in
      let sent = send_loop fuel (drop (min wire_size (length (x ∷ xs))) (x ∷ xs)) w' in
      if good then sent else some (Status.cancelled, w')

  -- Every round sends at least a byte.
  pub send_chunk : {S : Type 0} → Filled × S → W → Option (Status × S × W)
  unfolding send_loop
  send_chunk (failed ErrorCode.not_found, s) w = some (Status.not_found, s, w)
  send_chunk (failed err, s) w = some (Status.internal, s, w)
  send_chunk (filled bs, s) w = elim (send_loop (length bs) bs w) [
    | none ↦ none
    | some (status, w') ↦ some (status, s, w')
  ]

  pub get_chunk : {S : Type 0} → ChunkStorage S → ℕ → S → W → Option (Status × S × W)
  unfolding send_chunk
  get_chunk store id s w = send_chunk (store.read_chunk id s) w

-- One attempt: the parts that were read, and whether the status is `ok` in the end.
pub record Reply : Type 0 where
  pub parts : List (List ℕ)
  pub good : Bool

-- `==` of two strings.
unfoldable pub same_string : List ℕ → List ℕ → Bool
same_string [] [] = true
same_string [] (d ∷ ds) = false
same_string (c ∷ cs) [] = false
same_string (c ∷ cs) (d ∷ ds) = c == d && same_string cs ds

module _ (chunk_size : ℕ) where
  -- `memcpy(buff + offset, …)` for each part: `got` is what the buffer holds up to `offset`. The code
  -- does not look at the size of the buffer.
  pub receive : List ℕ → List (List ℕ) → Outcome (List ℕ)
  receive got [] = done got
  receive got (part ∷ parts) =
      let rest = receive (got ++ part) parts in
      if ltb chunk_size (length got + length part) then undefined else rest

  module _ {S E : Type 0} (store : ChunkStorage S) (connect : ℕ → E → Option Reply × E)
      (checksum : List ℕ → List ℕ) (hashes : List (List ℕ)) where
    -- The test of the hash: `some` is the state in which `fetch_chunk` returns, `none` is `continue`.
    pub verify : ℕ → List ℕ → S → Outcome (Option S)
    unfolding same_string
    verify id bs s = do
      hash ← defined (get_elem? hashes id)
      done (if same_string (checksum bs) hash then some (store.write_chunk id bs s).1 else none)

    -- A round of `while (true)`, behind `connection_for_block`.
    pub attempt : ℕ → Reply → S → Outcome (Option S)
    unfolding receive verify
    attempt id reply s =
        receive [] reply.parts >>= λ bs. if reply.good then verify id bs s else done none

    -- The rounds behind the first: `connection_for_block` comes before the call, which takes the
    -- `ClientContext` of the first round. gRPC does not allow a second call with a context.
    pub retry : S → Option Reply × E → Outcome (ErrorCode × S × E)
    retry s (none, e) = done (ErrorCode.not_found, s, e)
    retry s (some reply, e) = undefined

    -- What follows the first round.
    pub settle : ℕ → S → E → Option S → Outcome (ErrorCode × S × E)
    unfolding retry
    settle id s e none = retry s (connect id e)
    settle id s e (some s') = done (ErrorCode.ok, s', e)

    unfoldable pub fetch_chunk : ℕ → S → E → Outcome (ErrorCode × S × E)
    unfolding attempt settle
    fetch_chunk id s e =
        let (peer, e') = connect id e in
        elim peer [
          | none ↦ done (ErrorCode.not_found, s, e')
          | some reply ↦ attempt id reply s >>= settle id s e'
        ]
