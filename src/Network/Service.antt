-- ===== src/Network/Service.antt =====
-- network/distfs_service.cc and network/distfs_bootstrap.cc: what a node answers to its peers, and the
-- first question of a new node. `GetChunk` is in `Network.Transfer`.
-- A URL is a string here, its characters by their codes. `to_string` is `std::to_string`; a call of
-- `store.available` gives the list `available`. An exception is `thrown`.
pub mod Peer
pub mod Answers
mod Tests
use distfs.Base.{
  ℕ, zero, suc, ◌+◌, ◌==◌, ltb, if◌then◌else◌, Bool, true, false, ◌&&◌, not, List, [], ◌∷◌, ◌++◌,
  Option, none, some, length, take, drop,
}
use distfs.Meta.Effects.{Outcome, done, thrown, ◌>>=◌, defined}
use distfs.Network.ChunkAvailability.{of_bitmask, bitmask}
use distfs.Network.ConnectionPool.{Info, PeerList, Host, ConnectionPool, info_from, pex_from}
use distfs.Network.DistfsMetadata.{DistfsMetadata}
use distfs.Network.Transfer.{Status, same_string}

-- ':'.
abbrev pub colon : ℕ
colon = 58

-- "ip".
abbrev pub ip : List ℕ
ip = 105 ∷ 112 ∷ []

-- `s.substr(0, s.find_last_of(c) + 1)`: no `c` is position `npos`, and `npos + 1` is 0.
pub up_to_last : ℕ → List ℕ → List ℕ
up_to_last c [] = []
up_to_last c (x ∷ xs) =
    let rest = up_to_last c xs in
    elim rest [ [] ↦ if x == c then x ∷ [] else [] | y ∷ ys ↦ x ∷ y ∷ ys ]

-- `s.substr(pos, npos)`, which throws past the end.
pub substr : ℕ → List ℕ → Outcome (List ℕ)
substr pos s = if ltb (length s) pos then thrown else done (drop pos s)

-- The URL of the node that a call comes from: its address, with the port it listens on.
pub peer_url : (ℕ → List ℕ) → List ℕ → ℕ → Outcome (List ℕ)
unfolding up_to_last substr
peer_url to_string context_peer listen_port = do
  peer ← substr (if same_string (take 2 context_peer) ip then 5 else 0) context_peer
  done (up_to_last colon peer ++ to_string listen_port)

pub record Metadata : Type 0 where
  pub fs_id : ℕ
  pub node_id : ℕ
  pub block_hash : List (List ℕ)

module _ {Stub : Type 0} where
  -- The accessors of the pool.
  pub get_node_id : ConnectionPool (List ℕ) Stub → ℕ
  get_node_id p = p.node_id

  pub get_fs_id : ConnectionPool (List ℕ) Stub → ℕ
  get_fs_id p = p.metadata.id

  pub get_block_hashes : ConnectionPool (List ℕ) Stub → List (List ℕ)
  get_block_hashes p = p.metadata.block_hashes

  pub get_listen_port : ConnectionPool (List ℕ) Stub → ℕ
  get_listen_port p = p.listen_port

  pub get_metadata : ConnectionPool (List ℕ) Stub → Status × Metadata
  unfolding get_fs_id get_node_id get_block_hashes
  get_metadata p = (
    Status.ok,
    record { fs_id = get_fs_id p; node_id = get_node_id p; block_hash = get_block_hashes p },
  )

module _ {Stub E : Type 0} (dec : Discrete (List ℕ)) (host : Host (List ℕ) Stub E)
    (to_string : ℕ → List ℕ) where
  -- The response, once the caller is known; it is a field after another.
  pub respond : List ℕ → ConnectionPool (List ℕ) Stub → Outcome Info
  unfolding get_fs_id get_node_id get_listen_port
  respond available p = do
    mask ← defined (bitmask (record { chunks = available }))
    done (record {
      fs_id = get_fs_id p;
      node_id = get_node_id p;
      listen_port = get_listen_port p;
      available = mask;
    })

  -- Without a response, it is empty.
  pub info_exchange :
      List ℕ
      → List ℕ
      → Info
      → ConnectionPool (List ℕ) Stub
      → E
      → Outcome ((Status × Option Info) × ConnectionPool (List ℕ) Stub × E)
  unfolding peer_url respond get_fs_id
  info_exchange available context_peer request p e =
      let answered = do
        peer ← peer_url to_string context_peer request.listen_port
        (p', e') ← info_from dec host peer request.node_id (of_bitmask request.available) p e
        response ← respond available p'
        done ((Status.ok, some response), p', e')
      in if request.fs_id == get_fs_id p then answered else done ((Status.unavailable, none), p, e)

  pub peer_exchange :
      PeerList (List ℕ)
      → ConnectionPool (List ℕ) Stub
      → E
      → Outcome ((Status × PeerList (List ℕ)) × ConnectionPool (List ℕ) Stub × E)
  unfolding get_node_id
  peer_exchange request p e = do
    ((p', outgoing), e') ← pex_from dec host request.node_id request.peer p e
    done ((Status.ok, record { node_id = get_node_id p; peer = outgoing }), p', e')

-- `DistfsBootstrap::fetch_metadata`: the metadata with the stub and the node it came from.
-- `get_metadata_of` is the call of `GetMetadata`.
pub fetch_metadata :
    {Stub E : Type 0}
    → Host (List ℕ) Stub E
    → (Stub → E → Option Metadata × E)
    → List ℕ
    → E
    → Outcome ((DistfsMetadata × Stub × ℕ) × E)
fetch_metadata host get_metadata_of peer e = elim (host.open_channel peer e).0 [
  | none ↦ thrown
  | some stub ↦ elim (get_metadata_of stub (host.open_channel peer e).1).0 [
    | none ↦ thrown
    | some response ↦ done (
      (record { id = response.fs_id; block_hashes = response.block_hash }, stub, response.node_id),
      (get_metadata_of stub (host.open_channel peer e).1).1,
    )
  ]
]
