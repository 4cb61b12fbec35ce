-- ===== src/Network/ConnectionPool/Worker/Refresh.antt =====
-- network/connection_pool.cc: `worker_get_info` keeps a pool sound.
use distfs.Base.{
  ℕ, ◌≤◌, ◌-◌, ltb, List, [], ◌∷◌, ◌++◌, Option, none, some, length, ◌≡◌, inl, inr, refl, ap, sym,
  ◌∙◌, arith, Bool-cases, Option-cases, length-append, append_assoc, subst,
}
use distfs.Common.{info_refresh_s}
use distfs.Common.OrderedSet.{OrderedSet, erase}
use distfs.Network.ChunkAvailability.{bitmask}
use distfs.Network.ConnectionPool.{Info, Host, Connection, ConnectionPool}
use distfs.Network.ConnectionPool.Tracking.{urls, Tracks, Tracks-Same, Tracks-drop, Same-sort}
use distfs.Network.ConnectionPool.Worker.{own_info, refreshed, refresh, info_loop, worker_get_info}
use distfs.Network.ConnectionPool.Soundness.{IsSound, Ends}

module _ {Url Stub E : Type 0} (dec : Discrete Url) (host : Host Url Stub E) where
  refreshed-url :
      (c c' : Connection Url Stub) (a : Option Info × E)
      → (refreshed dec host c a).0 ≡ some c'
      → c'.url ≡ c.url
  unfolding refreshed
  refreshed-url c c' (none, e) h = cc
  refreshed-url c c' (some r, e) h = ground arith

  refresh-url :
      (now : ℕ) (request : Info) (c c' : Connection Url Stub) (e : E)
      → (refresh dec host now request c e).0 ≡ some c'
      → c'.url ≡ c.url
  unfolding refresh
  refresh-url now request c c' e h = elim (Bool-cases (ltb info_refresh_s (now - c.last_info))) [
    | inl stale ↦ refreshed-url c c' (host.info_exchange c.stub request e) (rw stale at h)
    | inr fresh ↦ let same : some c ≡ some c' = rw fresh at h in ground arith
  ]

  -- What is left of a pool by a loop over its connections: the ones before it, and what it keeps.
  abbrev Drops :
      List Url → List Url → OrderedSet Url → (List (Connection Url Stub) × List Url) × E → Type 0
  Drops before active candidates r =
      Tracks dec (before ++ urls r.0.0) r.0.1 candidates × (length r.0.1 ≤ length active)

  info_step :
      (now : ℕ) (request : Info) (before : List Url) (c : Connection Url Stub)
      (cs : List (Connection Url Stub)) (active : List Url) (candidates : OrderedSet Url)
      (o : Option (Connection Url Stub)) (e : E)
      → Tracks dec (before ++ c.url ∷ urls cs) active candidates
      → ((c' : Connection Url Stub) → o ≡ some c' → c'.url ≡ c.url)
      → ((before' active' : List Url)
          → Tracks dec (before' ++ urls cs) active' candidates
          → Drops before' active' candidates (info_loop dec host now request cs active' e))
      → Drops before active candidates (elim o [
        | none ↦ info_loop dec host now request cs (erase dec c.url active) e
        | some c' ↦
            let ((cs', active'), e') = info_loop dec host now request cs active e in
            ((c' ∷ cs', active'), e')
      ])
  info_step now request before c cs active candidates none e t same later =
      let t' = Tracks-drop dec before (urls cs) c.url active candidates t in
      let (kept, fewer) = later before (erase dec c.url active) t' in
      (
        kept,
        omega (
          arith,
          fewer,
          t.size,
          t'.size,
          length-append before (c.url ∷ urls cs),
          length-append before (urls cs),
        ),
      )
  info_step now request before c cs active candidates (some c') e t same later =
      let next = before ++ c'.url ∷ [] in
      let url = same c' refl in
      let at : next ++ urls cs ≡ before ++ c.url ∷ urls cs =
        append_assoc before (c'.url ∷ []) (urls cs) ∙ ap (λ u. before ++ u ∷ urls cs) url in
      let (kept, fewer) =
        later next active (subst (λ ks. Tracks dec ks active candidates) (sym at) t) in
      let left = info_loop dec host now request cs active e in
      (
        subst (λ ks. Tracks dec ks (left.0.1) candidates)
            (append_assoc before (c'.url ∷ []) (urls (left.0.0))) kept,
        fewer,
      )

  info_loop-Drops :
      (now : ℕ) (request : Info) (cs : List (Connection Url Stub)) (candidates : OrderedSet Url)
      (e : E) (before active : List Url)
      → Tracks dec (before ++ urls cs) active candidates
      → Drops before active candidates (info_loop dec host now request cs active e)
  unfolding info_loop
  info_loop-Drops now request [] candidates e before active t = (t, omega arith)
  info_loop-Drops now request (c ∷ cs) candidates e before active t =
      info_step now request before c cs active candidates (refresh dec host now request c e).0
        (refresh dec host now request c e).1 t (λ c' h. refresh-url now request c c' e h)
        (info_loop-Drops now request cs candidates (refresh dec host now request c e).1)

  -- `worker_get_info` keeps a pool sound: connections whose peers do not answer leave it together
  -- with their active peers. Its behaviour is undefined only if that of the mask of the store's chunks
  -- is.
  pub worker_get_info-IsSound :
      (available : List ℕ) (p : ConnectionPool Url Stub) (e : E)
      → IsSound dec p
      → Ends dec
          (bitmask (record { chunks = available }) ≡ none)
          (worker_get_info dec host available p e)
  unfolding worker_get_info own_info
  worker_get_info-IsSound available p e v =
      elim (Option-cases (bitmask (record { chunks = available }))) [
        | inl none_ ↦ rw none_ refl
        | inr (mask, known) ↦
            let (now, e1) = host.time e in
            let request : Info = record {
              fs_id = p.metadata.id;
              node_id = p.node_id;
              listen_port = p.listen_port;
              available = mask;
            } in
            let (kept, fewer) =
              info_loop-Drops now request p.connections p.peer_candidates e1 [] p.active_peers
                v.tracks in
            let left = info_loop dec host now request p.connections p.active_peers e1 in
            rw known (record {
              tracks = Tracks-Same dec (Same-sort dec (left.0.0)) kept;
              bounded = omega (arith, fewer, v.bounded);
            })
      ]
