-- ===== src/Network/ConnectionPool/Soundness.antt =====
-- network/connection_pool.cc: what holds of a pool, whatever its methods and the peers do.
use distfs.Base.{◌≤◌, max, length}
use distfs.Meta.Effects.{Outcome, done, thrown, undefined}
use distfs.Network.ConnectionPool.{ConnectionPool}
use distfs.Network.ConnectionPool.Tracking.{urls, Tracks}

module _ {Url Stub : Type 0} (dec : Discrete Url) where
  -- Connections, active peers and candidates go together, and there are no more active peers than
  -- allowed. (The peer that the metadata comes from is not counted against the limit.)
  pub record IsSound (p : ConnectionPool Url Stub) : Type 0 where
    pub tracks : Tracks dec (urls p.connections) p.active_peers p.peer_candidates
    pub bounded : length p.active_peers ≤ max 1 p.active_connections_limit

  -- A method that ends in a sound pool, or is undefined for the reason given.
  abbrev pub Ends : {E : Type 0} → Type 0 → Outcome (ConnectionPool Url Stub × E) → Type 0
  Ends why (done (p, e)) = IsSound p
  Ends why thrown = ⊥
  Ends why undefined = why
