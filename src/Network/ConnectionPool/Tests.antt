-- ===== src/Network/ConnectionPool/Tests.antt =====
-- Witnesses for the connection pool.
use native.Mathlib.Decide.{ℕ_discrete}
use distfs.Base.{
  if◌then◌else◌, ltb, ◌<◌, inl, inr, ℕ, ◌+◌, List, [], ◌∷◌, none, some, ◌≡◌, ◌⊎◌, refl, arith, true,
}
use distfs.Common.OrderedSet
use distfs.Common.OrderedSet.{OrderedSet, contains}
use distfs.Common.OrderedSet.Laws.{push-newest}
use distfs.Meta.Effects.{done}
use distfs.Network.ChunkAvailability.{ChunkAvailability, greatest, bitmask, of_bitmask}
use distfs.Network.ChunkAvailability.Encode.{of_bitmask-bitmask}
use distfs.Network.DistfsMetadata.{DistfsMetadata}
use distfs.Network.ConnectionPool.{
  Info, Host, ConnectionPool, new, bootstrap, push_all, note_pex, pex_from, connection_for_block,
}
use distfs.Network.ConnectionPool.Soundness.{IsSound, Ends}
use distfs.Network.ConnectionPool.Worker.{worker_explore}
use distfs.Network.ConnectionPool.Reach.{Reach, Step, Reach-IsSound}
use distfs.Network.ConnectionPool.Blocks.{Chooses, connection_for_block-Chooses}
use distfs.Network.ConnectionPool.Worker.Explore.{worker_explore-IsSound}

abbrev two_chunks : ChunkAvailability
two_chunks = record { chunks = 0 ∷ 1 ∷ [] }

two_chunks-mask :
    (mask : List ℕ) × (bitmask two_chunks ≡ some mask) × (of_bitmask mask ≡ two_chunks)
unfolding greatest
two_chunks-mask = of_bitmask-bitmask two_chunks 1 (ground arith) refl (omega arith) (omega arith)

abbrev answer : ℕ → Info
answer stub = record { fs_id = 1; node_id = stub; listen_port = 9; available = two_chunks-mask.0 }

-- URLs and stubs are numbers, and the world is a clock. Every node answers, is of file system 1 and
-- has the chunks 0 and 1.
abbrev test_host : Host ℕ ℕ ℕ
test_host = record {
  open_channel = λ url e. (some url, e);
  info_exchange = λ stub info e. (some (answer stub), e);
  peer_exchange = λ stub list e. (some (record { node_id = stub; peer = 7 ∷ 5 ∷ [] }), e);
  get_chunk = λ stub id e. (record { parts = (1 ∷ []) ∷ []; good = true }, e);
  time = λ e. (e, e + 20);
  pick = λ n e. (0, e);
  hash_policy = λ n k. if ltb n k then 13 else n;
  first_buckets = 1;
}

abbrev test_metadata : DistfsMetadata
test_metadata = record { id = 1; block_hashes = (1 ∷ []) ∷ [] }

-- A pool that is connected to peer 5, and one without a connection that has the candidate 7.
abbrev test_pool : ConnectionPool ℕ ℕ
test_pool = record {
  active_connections_limit = 3;
  peer_candidates = record {
    contents = [];
    iterators = [];
    max_size = 4;
    hash_policy = λ n k. n;
    buckets = 13;
    stale = 0;
  };
  active_peers = 5 ∷ [];
  metadata = test_metadata;
  connections =
      record {
        stub = 50;
        availability = record { chunks = 0 ∷ 2 ∷ [] };
        url = 5;
        n_id = 4;
        last_info = 0;
        last_pex = 0;
      }
      ∷ [];
  last_explore = 0;
  node_id = 0;
  listen_port = 9;
}

connection_for_block-Chooses_example :
    Chooses ℕ_discrete test_host 2 test_pool.connections
      (connection_for_block ℕ_discrete test_host 2 test_pool 0).0
connection_for_block-Chooses_example =
    connection_for_block-Chooses ℕ_discrete test_host 2 test_pool 0 (λ n e h. h)

start : Reach ℕ_discrete test_host (new ℕ_discrete test_host test_metadata 5 (some 50) 4 3 4 9 0).0
start = Reach.starts test_metadata 5 (some 50) 4 3 4 9 0

abbrev start_pool : ConnectionPool ℕ ℕ
start_pool = (new ℕ_discrete test_host test_metadata 5 (some 50) 4 3 4 9 0).0

-- A pool that has received the URLs 5 and 7.
pex_from_7 :
    (q : ConnectionPool ℕ ℕ) × (outgoing : List ℕ) × (e : ℕ) × (pex_from ℕ_discrete test_host 4
        (5 ∷ 7 ∷ [])
        start_pool
        16
      ≡ done ((q, outgoing), e))
unfolding new bootstrap pex_from push_all note_pex contains ℕ_discrete OrderedSet.new
pex_from_7 =
    elim (push-newest ℕ_discrete 7 start_pool.peer_candidates
      (record { mirrored = refl; distinct = tt; bounded = omega arith })) [
        | inl (_, (_, full, gone)) ↦ absurd (omega (arith, full))
        | inr (o', pushed, _, _, _, _) ↦ (
          record start_pool {
            peer_candidates = o';
            connections = (note_pex ℕ_discrete test_host 4 start_pool.connections 16).0.0;
          },
          [],
          36,
          rw pushed refl,
        )
      ]

Reach-IsSound_example : IsSound ℕ_discrete pex_from_7.0
Reach-IsSound_example =
    Reach-IsSound ℕ_discrete test_host
      (Reach.goes_on start (Step.is_told 4 (5 ∷ 7 ∷ []) pex_from_7.1 16 pex_from_7.2 pex_from_7.3))

worker_explore-IsSound_example :
    Ends ℕ_discrete
      ((bitmask (record { chunks = [] }) ≡ none)
        ⊎ ((pex_from_7.0.connections ≡ []) ⊎ (0 < pex_from_7.0.peer_candidates.stale)))
      (worker_explore ℕ_discrete test_host [] pex_from_7.0 16)
worker_explore-IsSound_example =
    worker_explore-IsSound ℕ_discrete test_host [] pex_from_7.0 16 Reach-IsSound_example
