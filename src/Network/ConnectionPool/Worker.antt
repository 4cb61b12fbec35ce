-- ===== src/Network/ConnectionPool/Worker.antt =====
-- network/connection_pool.cc: what the worker thread does, round after round.
pub mod Refresh
pub mod Exchange
pub mod Expand
pub mod Explore
use distfs.Base.{
  ℕ, zero, suc, ◌+◌, ◌-◌, ◌==◌, ltb, leb, if◌then◌else◌, Bool, true, false, not, ◌&&◌, List, [],
  ◌∷◌, ◌++◌, Option, none, some, length,
}
use distfs.Common.{info_refresh_s, pex_refresh_s}
use distfs.Common.OrderedSet
use distfs.Common.OrderedSet.{OrderedSet, erase}
use distfs.Meta.Effects.{Outcome, done, undefined, ◌>>=◌, defined}
use distfs.Network.ChunkAvailability.{ChunkAvailability, bitmask, of_bitmask, count}
use distfs.Network.ConnectionPool.{
  Info, PeerList, Host, Connection, ConnectionPool, sort, set_insert, push_all,
}

module _ {Url Stub E : Type 0} (dec : Discrete Url) (host : Host Url Stub E) where
  -- The `Info` that a node sends; its mask may be undefined. `available` is what the store has.
  pub own_info : List ℕ → ConnectionPool Url Stub → Outcome Info
  own_info available p = do
    mask ← defined (bitmask (record { chunks = available }))
    done (record {
      fs_id = p.metadata.id;
      node_id = p.node_id;
      listen_port = p.listen_port;
      available = mask;
    })

  -- What becomes of a connection after its `InfoExchange`; `none` is erased.
  pub refreshed : Connection Url Stub → Option Info × E → Option (Connection Url Stub) × E
  refreshed c (none, e) = (none, e)
  refreshed c (some response, e) =
      let (now, e') = host.time e in
      (some (record c { availability = of_bitmask response.available; last_info = now }), e')

  pub refresh : ℕ → Info → Connection Url Stub → E → Option (Connection Url Stub) × E
  unfolding refreshed
  refresh now request c e =
      if ltb info_refresh_s (now - c.last_info)
      then refreshed c (host.info_exchange c.stub request e)
      else (some c, e)

  -- The loop of `worker_get_info`: connections and active peers.
  pub info_loop :
      ℕ
      → Info
      → List (Connection Url Stub)
      → List Url
      → E
      → (List (Connection Url Stub) × List Url) × E
  unfolding refresh
  info_loop now request [] active e = (([], active), e)
  info_loop now request (c ∷ cs) active e = elim (refresh now request c e).0 [
    | none ↦ info_loop now request cs (erase dec c.url active) (refresh now request c e).1
    | some c' ↦
        let ((cs', active'), e') = info_loop now request cs active (refresh now request c e).1 in
        ((c' ∷ cs', active'), e')
  ]

  pub worker_get_info : List ℕ → ConnectionPool Url Stub → E → Outcome (ConnectionPool Url Stub × E)
  unfolding own_info info_loop sort
  worker_get_info available p e = do
    let (now, e1) = host.time e
    request ← own_info available p
    let ((cs, active), e2) = info_loop now request p.connections p.active_peers e1
    done (record p { connections = sort cs; active_peers = active }, e2)

  -- The URLs of the connections to other nodes.
  pub others : ℕ → List (Connection Url Stub) → List Url
  others n_id [] = []
  others n_id (c ∷ cs) = if c.n_id == n_id then others n_id cs else c.url ∷ others n_id cs

  -- The loop of `worker_get_pex`. `before` is what the iterator has passed.
  pub pex_loop :
      ℕ
      → ℕ
      → List (Connection Url Stub)
      → List (Connection Url Stub)
      → List Url
      → OrderedSet Url
      → E
      → Outcome ((List (Connection Url Stub) × List Url × OrderedSet Url) × E)
  unfolding others push_all
  pex_loop now node_id before [] active candidates e = done ((before, active, candidates), e)
  pex_loop now node_id before (c ∷ cs) active candidates e =
      let request : PeerList Url = record {
        node_id = node_id;
        peer = others c.n_id (before ++ c ∷ cs);
      } in
      let answer = host.peer_exchange c.stub request e in
      let kept = pex_loop now node_id (before ++ c ∷ []) cs active candidates e in
      let asked : Outcome ((List (Connection Url Stub) × List Url × OrderedSet Url) × E) =
        elim (answer.0) [
          | none ↦ pex_loop now node_id before cs (erase dec c.url active) candidates (answer.1)
          | some response ↦ push_all dec host active response.peer candidates >>= λ candidates'.
              let (t, e') = host.time (answer.1) in
              pex_loop now node_id (before ++ record c { last_pex = t } ∷ []) cs active candidates'
                e'
        ] in
      if ltb pex_refresh_s (now - c.last_pex) then asked else kept

  pub worker_get_pex : ConnectionPool Url Stub → E → Outcome (ConnectionPool Url Stub × E)
  unfolding pex_loop sort
  worker_get_pex p e = do
    let (now, e1) = host.time e
    ((cs, active, candidates), e2) ←
        pex_loop now p.node_id [] p.connections p.active_peers p.peer_candidates e1
    done (
      record p { connections = sort cs; active_peers = active; peer_candidates = candidates },
      e2,
    )

  -- The answer to the first `InfoExchange`, if it is of the same file system. A node that answers with
  -- the caller's own `node_id` is not treated otherwise.
  pub accepted : ℕ → Stub → Option Info × E → Option (Stub × Info) × E
  accepted fs_id stub (none, e) = (none, e)
  accepted fs_id stub (some response, e) =
      (if response.fs_id == fs_id then some (stub, response) else none, e)

  -- From `CreateChannel` to that test.
  pub handshake : List ℕ → ConnectionPool Url Stub → Url → E → Outcome (Option (Stub × Info) × E)
  unfolding own_info accepted
  handshake available p url e = elim (host.open_channel url e).0 [
    | none ↦ done (none, (host.open_channel url e).1)
    | some stub ↦ own_info available p >>= λ request.
        done (
          accepted p.metadata.id stub (host.info_exchange stub request (host.open_channel url e).1))
  ]

  pub connect_to : Url → Stub → Info → ℕ → Connection Url Stub
  connect_to url stub response now = record {
    stub = stub;
    availability = of_bitmask response.available;
    url = url;
    n_id = response.node_id;
    last_info = now;
    last_pex = 0;
  }

  -- `connections.push_back(…); connections.sort(); active_peers.insert(p);`
  pub add_connection : Connection Url Stub → ConnectionPool Url Stub → ConnectionPool Url Stub
  unfolding set_insert sort
  add_connection c p = record p {
    connections = sort (p.connections ++ c ∷ []);
    active_peers = set_insert dec host c.url p.active_peers;
  }

  -- `peer_candidates.pop()`.
  pub take_candidate : ConnectionPool Url Stub → Outcome (Url × ConnectionPool Url Stub)
  take_candidate p = do
    (url, candidates) ← defined (OrderedSet.pop dec p.peer_candidates)
    done (url, record p { peer_candidates = candidates })

  -- What a round of `worker_expand` does with the result of the handshake.
  pub expand_with :
      Url → ConnectionPool Url Stub → Option (Stub × Info) × E → ConnectionPool Url Stub × E
  unfolding add_connection connect_to
  expand_with url p (none, e) = (p, e)
  expand_with url p (some (stub, response), e) =
      let (now, e') = host.time e in (add_connection (connect_to url stub response now) p, e')

  -- The loop of `worker_expand`, with the rounds left of 5.
  pub expand_loop : ℕ → List ℕ → ConnectionPool Url Stub → E → Outcome (ConnectionPool Url Stub × E)
  unfolding take_candidate handshake expand_with
  expand_loop zero available p e = done (p, e)
  expand_loop (suc n) available p e =
      let next = do
        (url, p') ← take_candidate p
        r ← handshake available p' url e
        let (p'', e') = expand_with url p' r
        expand_loop n available p'' e'
      in if ltb (length p.active_peers) p.active_connections_limit
          && ltb 0 (OrderedSet.size p.peer_candidates)
        then next
        else done (p, e)

  pub worker_expand : List ℕ → ConnectionPool Url Stub → E → Outcome (ConnectionPool Url Stub × E)
  unfolding expand_loop
  worker_expand available p e = expand_loop 5 available p e

  -- `first` is replaced; there may be none, and `erase(begin())` is undefined then.
  pub replace_first :
      Connection Url Stub → ConnectionPool Url Stub → Outcome (ConnectionPool Url Stub)
  unfolding add_connection
  replace_first c p = elim p.connections [
    | [] ↦ undefined
    | first ∷ rest ↦ done (
        add_connection c
          (record p { connections = rest; active_peers = erase dec first.url p.active_peers }))
  ]

  pub explore_with :
      ℕ
      → Url
      → ConnectionPool Url Stub
      → Option (Stub × Info) × E
      → Outcome (ConnectionPool Url Stub × E)
  unfolding replace_first connect_to
  explore_with min_chunks url p (none, e) = done (p, e)
  explore_with min_chunks url p (some (stub, response), e) =
      let (now, e') = host.time e in
      let replaced = replace_first (connect_to url stub response now) p >>= λ p'. done (p', e') in
      if leb (count (of_bitmask response.available)) min_chunks then done (p, e) else replaced

  -- The loop of `worker_explore`, with the rounds left of 10.
  pub explore_loop :
      ℕ → ℕ → List ℕ → ConnectionPool Url Stub → E → Outcome (ConnectionPool Url Stub × E)
  unfolding take_candidate handshake explore_with
  explore_loop zero min_chunks available p e = done (p, e)
  explore_loop (suc n) min_chunks available p e =
      let next = do
        (url, p') ← take_candidate p
        r ← handshake available p' url e
        (p'', e') ← explore_with min_chunks url p' r
        explore_loop n min_chunks available p'' e'
      in if ltb 0 (OrderedSet.size p.peer_candidates) then next else done (p, e)

  -- The number of chunks of the first connection, which has the fewest.
  pub fewest : List (Connection Url Stub) → ℕ
  fewest [] = 0
  fewest (c ∷ cs) = count c.availability

  -- `last_explore` is never set.
  pub worker_explore : List ℕ → ConnectionPool Url Stub → E → Outcome (ConnectionPool Url Stub × E)
  unfolding explore_loop fewest
  worker_explore available p e =
      let (now, e') = host.time e in
      if ltb 15 (now - p.last_explore)
      then explore_loop 10 (fewest p.connections) available p e'
      else done (p, e')

  -- A round of the worker, without its sleep.
  pub worker : List ℕ → ConnectionPool Url Stub → E → Outcome (ConnectionPool Url Stub × E)
  unfolding worker_get_info worker_get_pex worker_expand worker_explore
  worker available p e = do
    (p1, e1) ← worker_get_info available p e
    (p2, e2) ← worker_get_pex p1 e1
    (p3, e3) ← worker_expand available p2 e2
    worker_explore available p3 e3
