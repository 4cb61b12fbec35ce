-- ===== src/Network/ConnectionPool/Worker/Expand.antt =====
-- network/connection_pool.cc: `worker_expand` keeps a pool sound.
use distfs.Base.{
  ◌⊎◌, ap, ℕ, zero, suc, ◌<◌, ltb, ◌&&◌, false, List, [], ◌∷◌, ◌++◌, Option, none, some, length,
  ◌≡◌, inl, inr, refl, ap, arith, Bool-cases, Option-cases,
}
use distfs.Common.OrderedSet
use distfs.Common.OrderedSet.{OrderedSet, contains, pop}
use distfs.Meta.Effects.{Outcome, done, thrown, undefined, ◌>>=◌}
use distfs.Network.ChunkAvailability.{bitmask}
use distfs.Network.ConnectionPool.{Info, Host, Connection, ConnectionPool, set_insert}
use distfs.Network.ConnectionPool.Tracking.{
  urls, Tracks, Tracks-Same, Tracks-add, Tracks-pop, Same-sort, Same-snoc,
}
use distfs.Network.ConnectionPool.Soundness.{IsSound, Ends}
use distfs.Network.ConnectionPool.Worker.{
  own_info, handshake, connect_to, add_connection, take_candidate, expand_with, expand_loop,
  worker_expand,
}

module _ {Url Stub E : Type 0} (dec : Discrete Url) (host : Host Url Stub E) where
  -- A handshake is undefined only if the mask of the store's chunks is.
  abbrev pub Shakes : List ℕ → Outcome (Option (Stub × Info) × E) → Type 0
  Shakes available (done r) = Unit
  Shakes available thrown = ⊥
  Shakes available undefined = bitmask (record { chunks = available }) ≡ none

  pub handshake-Shakes :
      (available : List ℕ) (p : ConnectionPool Url Stub) (url : Url) (e : E)
      → Shakes available (handshake dec host available p url e)
  unfolding handshake own_info
  handshake-Shakes available p url e = elim (Option-cases (host.open_channel url e).0) [
    | inl closed ↦ rw (closed, Shakes) tt
    | inr (stub, open_) ↦ elim (Option-cases (bitmask (record { chunks = available }))) [
      | inl none_ ↦ rw (open_, none_, Shakes) none_
      | inr (mask, known) ↦ rw (open_, known, Shakes) tt
    ]
  ]

  -- What follows a handshake.
  pub Shakes-bind :
      {why : Type 0} (available : List ℕ) (r : Outcome (Option (Stub × Info) × E))
      (go : Option (Stub × Info) × E → Outcome (ConnectionPool Url Stub × E))
      → Shakes available r
      → (bitmask (record { chunks = available }) ≡ none → why)
      → ((x : Option (Stub × Info) × E) → Ends dec why (go x))
      → Ends dec why (r >>= go)
  Shakes-bind available (done x) go s reason later = later x
  Shakes-bind available thrown go s reason later = absurd s
  Shakes-bind available undefined go s reason later = reason s

  -- A URL that can be connected to.
  pub record IsNew (url : Url) (p : ConnectionPool Url Stub) : Type 0 where
    pub tracks : Tracks dec (urls p.connections) p.active_peers p.peer_candidates
    pub inactive : contains dec url p.active_peers ≡ false
    pub gone : contains dec url p.peer_candidates.iterators ≡ false

  pub set_insert-new :
      (url : Url) (active : List Url)
      → contains dec url active ≡ false
      → set_insert dec host url active ≡ url ∷ active
  unfolding set_insert
  set_insert-new url active h = rw h refl

  -- A new connection is tracked.
  pub add_connection-Tracks :
      (c : Connection Url Stub) (p : ConnectionPool Url Stub)
      → IsNew c.url p
      → Tracks dec
          (urls (add_connection dec host c p).connections)
          (add_connection dec host c p).active_peers
          (add_connection dec host c p).peer_candidates
        × (length (add_connection dec host c p).active_peers ≡ suc (length p.active_peers))
  unfolding add_connection
  add_connection-Tracks c p n =
      let t =
        Tracks-add dec (urls p.connections) c.url p.active_peers p.peer_candidates n.tracks
          n.inactive n.gone in
      let new = set_insert-new c.url p.active_peers n.inactive in
      rw new (
        Tracks-Same dec (Same-sort dec (p.connections ++ c ∷ []))
            (Tracks-Same dec (Same-snoc dec c p.connections) t),
        refl,
      )

  -- A candidate is taken from a queue that is not empty, unless its iterator is invalid.
  pub take_candidate-IsNew :
      (p : ConnectionPool Url Stub)
      → Tracks dec (urls p.connections) p.active_peers p.peer_candidates
      → 0 < length p.peer_candidates.contents
      → ((0 < p.peer_candidates.stale) × (take_candidate dec host p ≡ undefined))
        ⊎ ((url : Url) × (candidates : OrderedSet Url) × (take_candidate dec host p
              ≡ done (url, record p { peer_candidates = candidates }))
            × IsNew url (record p { peer_candidates = candidates })
            × (candidates.stale ≡ p.peer_candidates.stale))
  unfolding take_candidate
  take_candidate-IsNew p t some_ =
      let filled : 0 < length p.peer_candidates.iterators =
        omega (arith, ap length t.waiting.mirrored) in
      elim (Tracks-pop dec (urls p.connections) p.active_peers p.peer_candidates t filled) [
        | inl (stale, none_) ↦ inl (stale, rw none_ refl)
        | inr (url, candidates, popped, tracks, inactive, gone, same) ↦ inr (
          url,
          candidates,
          rw popped refl,
          record { tracks = tracks; inactive = inactive; gone = gone },
          same,
        )
      ]

  expand_with-IsSound :
      (url : Url) (p : ConnectionPool Url Stub) (r : Option (Stub × Info) × E)
      → IsSound dec p
      → IsNew url p
      → length p.active_peers < p.active_connections_limit
      → IsSound dec (expand_with dec host url p r).0
  unfolding expand_with connect_to
  expand_with-IsSound url p (none, e) v n room = v
  expand_with-IsSound url p (some (stub, response), e) v n room =
      let c = connect_to dec host url stub response (host.time e).0 in
      let (t, more) = add_connection-Tracks c p n in
      record { tracks = t; bounded = unfold add_connection in omega (arith, more, room) }

  expand_with-candidates :
      (url : Url) (p : ConnectionPool Url Stub) (r : Option (Stub × Info) × E)
      → (expand_with dec host url p r).0.peer_candidates ≡ p.peer_candidates
  unfolding expand_with connect_to add_connection
  expand_with-candidates url p (none, e) = refl
  expand_with-candidates url p (some (stub, response), e) = refl

  expand_loop-IsSound :
      {why : Type 0} (n : ℕ) (available : List ℕ) (p : ConnectionPool Url Stub) (e : E)
      → IsSound dec p
      → (bitmask (record { chunks = available }) ≡ none → why)
      → (0 < p.peer_candidates.stale → why)
      → Ends dec why (expand_loop dec host n available p e)
  unfolding expand_loop OrderedSet.size
  expand_loop-IsSound zero available p e v masked stale = v
  expand_loop-IsSound (suc n) available p e v masked stale =
      elim (Bool-cases (
        ltb (length p.active_peers) p.active_connections_limit
        && ltb 0 (OrderedSet.size p.peer_candidates))) [
          | inr full ↦ rw full v
          | inl room ↦ elim (take_candidate-IsNew p v.tracks (ground arith)) [
            | inl (gone, none_) ↦ rw (room, none_) (stale gone)
            | inr (url, candidates, taken, new, same) ↦
                let p' = record p { peer_candidates = candidates } in
                let v' : IsSound dec p' = record { tracks = new.tracks; bounded = v.bounded } in
                rw (room, taken)
                  (Shakes-bind available (handshake dec host available p' url e) _
                    (handshake-Shakes available p' url e) masked
                    (λ x.
                      let kept =
                        ap (λ (c : OrderedSet Url). c.stale) (expand_with-candidates url p' x) in
                      expand_loop-IsSound n available (expand_with dec host url p' x).0
                        (expand_with dec host url p' x).1
                        (expand_with-IsSound url p' x v' new (ground arith)) masked
                        (λ h. stale (omega (arith, h, kept, same)))))
          ]
        ]

  -- `worker_expand` keeps a pool sound: it connects only to peers that have no connection yet, and to
  -- none beyond the limit. Its behaviour is undefined only if that of the mask of the store's chunks
  -- is, or a rehash has invalidated the iterator of the oldest candidate.
  pub worker_expand-IsSound :
      (available : List ℕ) (p : ConnectionPool Url Stub) (e : E)
      → IsSound dec p
      → Ends dec
          ((bitmask (record { chunks = available }) ≡ none) ⊎ (0 < p.peer_candidates.stale))
          (worker_expand dec host available p e)
  unfolding worker_expand
  worker_expand-IsSound available p e v = expand_loop-IsSound 5 available p e v inl inr
