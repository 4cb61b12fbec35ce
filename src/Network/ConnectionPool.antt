-- ===== src/Network/ConnectionPool.antt =====
-- network/connection_pool.h and network/connection_pool.cc: the peers that a node knows and is
-- connected to.
-- gRPC, the clock and the random generator are parameters (`Host`); `E` is what they change, and a call
-- that ends otherwise than with an `ok` status gives `none`. A URL is of a type with a decidable
-- equality: nothing else is asked of it here. A method runs to its end before the next one begins, so
-- the mutexes have nothing to do. `std::set` is its elements, of which the code asks only which and how
-- many they are.
pub mod Worker
pub mod Peers
pub mod Tracking
pub mod Soundness
pub mod Methods
pub mod Reach
pub mod Blocks
mod Tests
use distfs.Base.{
  ℕ, zero, suc, ◌+◌, ◌-◌, ◌%◌, ◌^◌, ◌==◌, ltb, if◌then◌else◌, Bool, true, false, List, [], ◌∷◌,
  ◌++◌, Option, none, some, length, get_elem?, map,
}
use distfs.Common.{ErrorCode}
use distfs.Common.OrderedSet
use distfs.Common.OrderedSet.{OrderedSet, contains}
use distfs.Meta.Effects.{Outcome, done, ◌>>=◌, defined}
use distfs.Network.ChunkAvailability.{ChunkAvailability, index, less}
use distfs.Network.DistfsMetadata.{DistfsMetadata}
use distfs.Network.Transfer.{Reply}

-- The messages of network/proto/distfs.proto.
pub record Info : Type 0 where
  pub fs_id : ℕ
  pub node_id : ℕ
  pub listen_port : ℕ
  pub available : List ℕ

pub record PeerList (Url : Type 0) : Type 0 where
  pub node_id : ℕ
  pub peer : List Url

-- `open_channel` is `CreateChannel` and `WaitForConnected`. `pick` is a random number below its
-- argument. `hash_policy` and `first_buckets` are those of the library's hash tables.
pub record Host (Url Stub E : Type 0) : Type 0 where
  pub open_channel : Url → E → Option Stub × E
  pub info_exchange : Stub → Info → E → Option Info × E
  pub peer_exchange : Stub → PeerList Url → E → Option (PeerList Url) × E
  pub get_chunk : Stub → ℕ → E → Reply × E
  pub time : E → ℕ × E
  pub pick : ℕ → E → ℕ × E
  pub hash_policy : ℕ → ℕ → ℕ
  pub first_buckets : ℕ

pub record Connection (Url Stub : Type 0) : Type 0 where
  pub stub : Stub
  pub availability : ChunkAvailability
  pub url : Url
  pub n_id : ℕ
  pub last_info : ℕ
  pub last_pex : ℕ

-- The store is left out: its chunks are an argument of the methods that ask for them.
pub record ConnectionPool (Url Stub : Type 0) : Type 0 where
  pub active_connections_limit : ℕ
  pub peer_candidates : OrderedSet Url
  pub active_peers : List Url
  pub metadata : DistfsMetadata
  pub connections : List (Connection Url Stub)
  pub last_explore : ℕ
  pub node_id : ℕ
  pub listen_port : ℕ

-- `connections.sort()`: stable, by the number of chunks.
pub insert_sorted :
    {Url Stub : Type 0}
    → Connection Url Stub
    → List (Connection Url Stub)
    → List (Connection Url Stub)
insert_sorted c [] = c ∷ []
insert_sorted c (d ∷ ds) =
    if less d.availability c.availability then d ∷ insert_sorted c ds else c ∷ d ∷ ds

pub sort : {Url Stub : Type 0} → List (Connection Url Stub) → List (Connection Url Stub)
unfolding insert_sorted
sort [] = []
sort (c ∷ cs) = insert_sorted c (sort cs)

module _ {Url Stub E : Type 0} (dec : Discrete Url) (host : Host Url Stub E) where
  -- `active_peers.insert(p)`.
  pub set_insert : Url → List Url → List Url
  unfolding contains
  set_insert p peers = if contains dec p peers then peers else p ∷ peers

  -- The connection to the peer that the metadata came from.
  pub bootstrap : Url → Option Stub → ℕ → List (Connection Url Stub)
  bootstrap peer none n_id = []
  bootstrap peer (some stub) n_id =
      record {
        stub = stub;
        availability = record { chunks = [] };
        url = peer;
        n_id = n_id;
        last_info = 0;
        last_pex = 0;
      }
      ∷ []

  -- The constructor, as far as the start of the worker. `stub` is that of the metadata, or `none`
  -- where there is none or its URL is empty.
  unfoldable pub new :
      DistfsMetadata → Url → Option Stub → ℕ → ℕ → ℕ → ℕ → E → ConnectionPool Url Stub × E
  unfolding bootstrap
  new metadata peer stub n_id limit candidates_limit listen_port e =
      let (node_id, e') = host.pick (2 ^ 64) e in
      let connections = bootstrap peer stub n_id in
      (
        record {
          active_connections_limit = limit;
          peer_candidates = OrderedSet.new host.hash_policy host.first_buckets candidates_limit;
          active_peers = map (λ c. c.url) connections;
          metadata = metadata;
          connections = connections;
          last_explore = 0;
          node_id = node_id;
          listen_port = listen_port;
        },
        e',
      )

  -- The loop of `connection_for_block`: the stubs of those that have the chunk.
  pub having : ℕ → List (Connection Url Stub) → List Stub
  having id [] = []
  having id (c ∷ cs) = if index c.availability id then c.stub ∷ having id cs else having id cs

  pub chosen : List Stub → E → Option Stub × E
  chosen [] e = (none, e)
  chosen (s ∷ ss) e = let (k, e') = host.pick (length (s ∷ ss)) e in (get_elem? (s ∷ ss) k, e')

  -- `none` is NOT_FOUND.
  pub connection_for_block : ℕ → ConnectionPool Url Stub → E → Option Stub × E
  unfolding having chosen
  connection_for_block id p e = chosen (having id p.connections) e

  -- `for (p : …) if (active_peers.count(p) == 0) peer_candidates.push(p);`
  pub push_all : List Url → List Url → OrderedSet Url → Outcome (OrderedSet Url)
  push_all active [] candidates = done candidates
  push_all active (p ∷ ps) candidates =
      if contains dec p active
      then push_all active ps candidates
      else (defined (OrderedSet.push dec p candidates) >>= λ r. push_all active ps (r.1))

  -- The loop of `info_from`, up to its `break`; `true` is `changed`.
  pub note_info :
      ℕ
      → ChunkAvailability
      → List (Connection Url Stub)
      → E
      → (List (Connection Url Stub) × Bool) × E
  note_info n_id availability [] e = (([], false), e)
  note_info n_id availability (c ∷ cs) e =
      let (now, e') = host.time e in
      let ((cs', changed), e'') = note_info n_id availability cs e in
      if c.n_id == n_id
      then ((record c { availability = availability; last_info = now } ∷ cs, true), e')
      else ((c ∷ cs', changed), e'')

  pub info_from :
      Url
      → ℕ
      → ChunkAvailability
      → ConnectionPool Url Stub
      → E
      → Outcome (ConnectionPool Url Stub × E)
  unfolding push_all note_info sort
  info_from peer n_id availability p e = do
    candidates ← push_all p.active_peers (peer ∷ []) p.peer_candidates
    let ((cs, changed), e') = note_info n_id availability p.connections e
    done (
      record p { peer_candidates = candidates; connections = if changed then sort cs else cs },
      e',
    )

  -- The second loop of `pex_from`: the connections, and the list that goes out.
  pub note_pex : ℕ → List (Connection Url Stub) → E → (List (Connection Url Stub) × List Url) × E
  note_pex n_id [] e = (([], []), e)
  note_pex n_id (c ∷ cs) e =
      let (now, e') = host.time e in
      let here = c.n_id == n_id in
      let ((cs', out), e'') = note_pex n_id cs (if here then e' else e) in
      if here
      then ((record c { last_pex = now } ∷ cs', out), e'')
      else ((c ∷ cs', c.url ∷ out), e'')

  pub pex_from :
      ℕ
      → List Url
      → ConnectionPool Url Stub
      → E
      → Outcome ((ConnectionPool Url Stub × List Url) × E)
  unfolding push_all note_pex
  pex_from n_id incoming p e = do
    candidates ← push_all p.active_peers incoming p.peer_candidates
    let ((cs, outgoing), e') = note_pex n_id p.connections e
    done ((record p { peer_candidates = candidates; connections = cs }, outgoing), e')
