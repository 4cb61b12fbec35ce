-- ===== src/Network/Service/Answers.antt =====
-- network/distfs_service.cc: what `InfoExchange` answers, and what becomes of the pool.
use distfs.Base.{false, [], ◌∷◌, ℕ, ◌==◌, List, none, some, ◌≡◌, ◌≢◌, refl, arith}
use distfs.Meta.Effects.{done}
use distfs.Network.ChunkAvailability.{of_bitmask}
use distfs.Network.ConnectionPool.{Info, Host, ConnectionPool, push_all, info_from}
use distfs.Network.ConnectionPool.Soundness.{IsSound}
use distfs.Network.ConnectionPool.Methods.{noted}
use distfs.Network.Transfer.{Status}
use distfs.Network.Service.{info_exchange}

module _ {Stub E : Type 0} (dec : Discrete (List ℕ)) (host : Host (List ℕ) Stub E)
    (to_string : ℕ → List ℕ) where
  -- The answer to a request of the same file system.
  pub record IsAnswer (available : List ℕ) (p : ConnectionPool (List ℕ) Stub) (response : Info)
      (p' : ConnectionPool (List ℕ) Stub) : Type 0 where
    pub fs_id : response.fs_id ≡ p.metadata.id
    pub node_id : response.node_id ≡ p.node_id
    pub listen_port : response.listen_port ≡ p.listen_port
    pub chunks : of_bitmask response.available ≡ record { chunks = available }
    pub sound : IsSound dec p'

  -- A request of another file system is refused, and changes nothing, whatever the store and the
  -- pool are.
  pub info_exchange-refused :
      (available context_peer : List ℕ) (request : Info) (p : ConnectionPool (List ℕ) Stub) (e : E)
      → request.fs_id ≢ p.metadata.id
      → info_exchange dec host to_string available context_peer request p e
        ≡ done ((Status.unavailable, none), p, e)
  unfolding info_exchange
  info_exchange-refused available context_peer request p e other =
      let no_ : (request.fs_id == p.metadata.id) ≡ false = ground arith in rw no_ refl

  -- What becomes of a request that was put into the pool.
  abbrev pub Answered : List ℕ → List ℕ → List ℕ → Info → ConnectionPool (List ℕ) Stub → E → Type 0
  Answered available context_peer peer request p e =
      (response : Info) × (p' : ConnectionPool (List ℕ) Stub) × (e' : E) × (info_from dec host peer
          request.node_id (of_bitmask request.available) p e
        ≡ done (p', e'))
      × (info_exchange dec host to_string available context_peer request p e
          ≡ done ((Status.ok, some response), p', e'))
      × IsAnswer available p response p'
      × (push_all dec host p.active_peers (peer ∷ []) p.peer_candidates ≡ done p'.peer_candidates)
      × (p'.connections
          ≡ noted dec host request.node_id (of_bitmask request.available) p.connections e)
