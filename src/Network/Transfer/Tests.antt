-- ===== src/Network/Transfer/Tests.antt =====
-- network/: a chunk of four bytes, sent in parts of three, and fetched. The
-- hash of a chunk is the chunk itself here.
use distfs.Base.{ℕ, suc, Bool, true, false, List, [], ◌∷◌, Option, none, some, ◌≡◌, refl, arith}
use distfs.Data.Samples.{chunk_map, chunks}
use distfs.Meta.Effects.{done}
use distfs.Network.Transfer.{Status, Reply, get_chunk, receive, fetch_chunk}
use distfs.Network.Transfer.Sending.{log, Sends, get_chunk-Sends, receive-get_chunk}
use distfs.Network.Transfer.Receiving.{Fetches, fetch_chunk-Fetches}

-- A client that cancels at once.
abbrev cancel : List ℕ → ℕ → Bool × ℕ
cancel part n = (false, suc n)

get_chunk-Sends_example :
    (status : Status) × (w' : ℕ) × (get_chunk cancel 3 chunk_map 0 chunks 7
      ≡ some (status, chunks, w'))
    × Sends cancel 3 (omega arith) (1 ∷ 2 ∷ 3 ∷ 4 ∷ []) 7 (some (status, w'))
get_chunk-Sends_example =
    get_chunk-Sends cancel 3 (omega arith) chunk_map 0 chunks 7 (1 ∷ 2 ∷ 3 ∷ 4 ∷ []) refl

receive-get_chunk_example :
    (parts : List (List ℕ)) × (get_chunk log 3 chunk_map 0 chunks []
      ≡ some (Status.ok, chunks, parts))
    × (receive 4 [] parts ≡ done (1 ∷ 2 ∷ 3 ∷ 4 ∷ []))
receive-get_chunk_example =
    receive-get_chunk chunk_map 3 4 0 chunks (1 ∷ 2 ∷ 3 ∷ 4 ∷ []) (omega arith) refl (omega arith)

abbrev checksum : List ℕ → List ℕ
checksum bs = bs

abbrev hashes : List (List ℕ)
hashes = (1 ∷ 2 ∷ 3 ∷ 4 ∷ []) ∷ (5 ∷ 6 ∷ 7 ∷ 8 ∷ []) ∷ []

-- The peers of the attempts to come.
abbrev connect : ℕ → List Reply → Option Reply × List Reply
connect id [] = (none, [])
connect id (r ∷ rs) = (some r, rs)

abbrev peers : List Reply
peers = record { parts = (5 ∷ 6 ∷ 7 ∷ []) ∷ (8 ∷ []) ∷ []; good = true } ∷ []

fetch_chunk-Fetches_example :
    Fetches 4 chunk_map connect checksum hashes 1 [] peers
      (some (record { parts = (5 ∷ 6 ∷ 7 ∷ []) ∷ (8 ∷ []) ∷ []; good = true }), [])
      (fetch_chunk 4 chunk_map connect checksum hashes 1 [] peers)
fetch_chunk-Fetches_example = fetch_chunk-Fetches 4 chunk_map connect checksum hashes 1 [] peers
