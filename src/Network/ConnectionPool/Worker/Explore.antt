-- ===== src/Network/ConnectionPool/Worker/Explore.antt =====
-- network/connection_pool.cc: `worker_explore` keeps a pool sound, where it returns.
use distfs.Base.{
  ℕ, zero, suc, ◌≤◌, ◌<◌, ◌-◌, max, ltb, leb, List, [], ◌∷◌, Option, none, some, length, ◌≡◌, inl,
  inr, refl, ap, arith, Bool-cases, ◌⊎◌,
}
use distfs.Common.OrderedSet
use distfs.Common.OrderedSet.{OrderedSet, contains, erase}
use distfs.Meta.Effects.{Outcome, done, thrown, undefined, ◌>>=◌}
use distfs.Network.ChunkAvailability.{bitmask, of_bitmask, count}
use distfs.Network.ConnectionPool.{Info, Host, Connection, ConnectionPool}
use distfs.Network.ConnectionPool.Peers.{contains-erase}
use distfs.Network.ConnectionPool.Tracking.{urls, Tracks-drop}
use distfs.Network.ConnectionPool.Soundness.{IsSound, Ends}
use distfs.Network.ConnectionPool.Worker.{
  handshake, connect_to, add_connection, replace_first, explore_with, explore_loop, fewest,
  worker_explore,
}
use distfs.Network.ConnectionPool.Worker.Expand.{
  handshake-Shakes, Shakes-bind, IsNew, add_connection-Tracks, take_candidate-IsNew,
}

module _ {Url Stub E : Type 0} (dec : Discrete Url) (host : Host Url Stub E) where
  -- What a replacement does: it fails exactly when there is nothing to replace.
  abbrev Replaces : ConnectionPool Url Stub → Outcome (ConnectionPool Url Stub) → Type 0
  Replaces p (done p') =
      IsSound dec p'
      × (0 < length p'.active_peers)
      × (p'.peer_candidates.stale ≡ p.peer_candidates.stale)
  Replaces p thrown = ⊥
  Replaces p undefined = p.connections ≡ []

  -- The pool without its first connection.
  without_first :
      (p : ConnectionPool Url Stub) → List (Connection Url Stub) → Url → ConnectionPool Url Stub
  without_first p rest first = record p {
    connections = rest;
    active_peers = erase dec first p.active_peers;
  }

  replace_in :
      (c : Connection Url Stub) (p : ConnectionPool Url Stub) (cs : List (Connection Url Stub))
      → p.connections ≡ cs
      → IsSound dec p
      → IsNew dec host c.url p
      → Replaces p (replace_first dec host c p)
  unfolding replace_first without_first
  replace_in c p [] h v n = rw (h, Replaces) h
  replace_in c p (first ∷ rest) h v n =
      let t =
        Tracks-drop dec [] (urls rest) first.url p.active_peers p.peer_candidates
          (rw h at v.tracks) in
      let p' = without_first p rest first.url in
      let fewer : length (erase dec first.url p.active_peers) ≤ length p.active_peers =
        omega (arith, t.size, v.tracks.size, ap (λ cs. length (urls cs)) h) in
      let new : IsNew dec host c.url p' = record {
        tracks = t;
        inactive = ground (
          arith,
          contains-erase dec c.url first.url p.active_peers v.tracks.active_once,
          n.inactive,
        );
        gone = n.gone;
      } in
      let (t', more) = add_connection-Tracks dec host c p' new in
      let same : length (erase dec first.url p.active_peers) < length p.active_peers =
        omega (arith, t.size, v.tracks.size, ap (λ cs. length (urls cs)) h) in
      let bound : length (add_connection dec host c p').active_peers
          ≤ max 1 p.active_connections_limit =
        omega (arith, more, same, v.bounded) in
      rw (h, Replaces) (record { tracks = t'; bounded = bound }, omega (arith, more), refl)

  -- What is left to do after a replacement.
  Replaces-bind :
      {why : Type 0} (p : ConnectionPool Url Stub) (e : E) (r : Outcome (ConnectionPool Url Stub))
      (go : ConnectionPool Url Stub × E → Outcome (ConnectionPool Url Stub × E))
      → Replaces p r
      → (p.connections ≡ [] → why)
      → ((p' : ConnectionPool Url Stub)
          → IsSound dec p'
          → (p'.connections ≡ [] → why)
          → p'.peer_candidates.stale ≡ p.peer_candidates.stale
          → Ends dec why (go (p', e)))
      → Ends dec why (r >>= (λ p'. done (p', e)) >>= go)
  Replaces-bind p e (done p') go (v, some_, same) reason later =
      later p' v (λ none_. absurd (omega (arith, v.tracks.size, ap (λ cs. length (urls cs)) none_)))
        same
  Replaces-bind p e thrown go h reason later = absurd h
  Replaces-bind p e undefined go h reason later = reason h

  Explores-bind :
      {why : Type 0} (min_chunks : ℕ) (url : Url) (p : ConnectionPool Url Stub)
      (r : Option (Stub × Info) × E)
      (go : ConnectionPool Url Stub × E → Outcome (ConnectionPool Url Stub × E))
      → IsSound dec p
      → IsNew dec host url p
      → (p.connections ≡ [] → why)
      → ((p' : ConnectionPool Url Stub) (e : E)
          → IsSound dec p'
          → (p'.connections ≡ [] → why)
          → p'.peer_candidates.stale ≡ p.peer_candidates.stale
          → Ends dec why (go (p', e)))
      → Ends dec why (explore_with dec host min_chunks url p r >>= go)
  unfolding explore_with connect_to
  Explores-bind min_chunks url p (none, e) go v n reason later = later p e v reason refl
  Explores-bind min_chunks url p (some (stub, response), e) go v n reason later =
      let c = connect_to dec host url stub response (host.time e).0 in
      elim (Bool-cases (leb (count (of_bitmask response.available)) min_chunks)) [
        | inl few ↦ rw few (later p e v reason refl)
        | inr many ↦ rw many (
            Replaces-bind p (host.time e).1 (replace_first dec host c p) go
              (replace_in c p p.connections refl v n) reason
              (λ p' w r same. later p' (host.time e).1 w r same))
      ]

  explore_loop-IsSound :
      {why : Type 0} (n min_chunks : ℕ) (available : List ℕ) (p : ConnectionPool Url Stub) (e : E)
      → IsSound dec p
      → (bitmask (record { chunks = available }) ≡ none → why)
      → (p.connections ≡ [] → why)
      → (0 < p.peer_candidates.stale → why)
      → Ends dec why (explore_loop dec host n min_chunks available p e)
  unfolding explore_loop OrderedSet.size
  explore_loop-IsSound zero min_chunks available p e v masked empty stale = v
  explore_loop-IsSound (suc n) min_chunks available p e v masked empty stale =
      elim (Bool-cases (ltb 0 (OrderedSet.size p.peer_candidates))) [
        | inr out ↦ rw out v
        | inl some_ ↦ elim (take_candidate-IsNew dec host p v.tracks (ground arith)) [
          | inl (gone, none_) ↦ rw (some_, none_) (stale gone)
          | inr (url, candidates, taken, new, same) ↦
              let p' = record p { peer_candidates = candidates } in
              let v' : IsSound dec p' = record { tracks = new.tracks; bounded = v.bounded } in
              rw (some_, taken)
                (Shakes-bind dec host available (handshake dec host available p' url e) _
                  (handshake-Shakes dec host available p' url e) masked
                  (λ x. Explores-bind min_chunks url p' x _ v' new empty (λ q e' w r kept.
                    explore_loop-IsSound n min_chunks available q e' w masked r
                      (λ h. stale (omega (arith, h, kept, same))))))
        ]
      ]

  -- `worker_explore` keeps a pool sound. Its behaviour is undefined only if that of the mask of the
  -- store's chunks is, there is no connection to be replaced, or a rehash has invalidated the iterator
  -- of the oldest candidate.
  pub worker_explore-IsSound :
      (available : List ℕ) (p : ConnectionPool Url Stub) (e : E)
      → IsSound dec p
      → Ends dec
          ((bitmask (record { chunks = available }) ≡ none)
            ⊎ ((p.connections ≡ []) ⊎ (0 < p.peer_candidates.stale)))
          (worker_explore dec host available p e)
  unfolding worker_explore
  worker_explore-IsSound available p e v =
      elim (Bool-cases (ltb 15 ((host.time e).0 - p.last_explore))) [
        | inl late ↦ rw late (
            explore_loop-IsSound 10 (fewest dec host p.connections) available p (host.time e).1 v
              inl (λ h. inr (inl h)) (λ h. inr (inr h)))
        | inr early ↦ rw early v
      ]
