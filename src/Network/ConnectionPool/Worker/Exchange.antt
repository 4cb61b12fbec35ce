-- ===== src/Network/ConnectionPool/Worker/Exchange.antt =====
-- network/connection_pool.cc: `worker_get_pex` keeps a pool sound.
use distfs.Base.{
  ℕ, ◌≤◌, ◌-◌, ltb, List, [], ◌∷◌, ◌++◌, Option, none, some, length, ◌≡◌, inl, inr, refl, ap, sym,
  ◌∙◌, arith, Bool-cases, length-append, append_assoc, append-nil, subst,
}
use distfs.Common.{pex_refresh_s}
use distfs.Common.OrderedSet.{OrderedSet, erase}
use distfs.Meta.Effects.{Outcome, done, thrown, undefined, ◌>>=◌}
use distfs.Network.ConnectionPool.{PeerList, Host, Connection, ConnectionPool, sort, push_all}
use distfs.Network.ConnectionPool.Tracking.{
  urls, urls-append, Tracks, Tracks-Same, Tracks-drop, push_all-Tracks, Same-sort,
}
use distfs.Network.ConnectionPool.Soundness.{IsSound, Ends}
use distfs.Network.ConnectionPool.Worker.{others, pex_loop, worker_get_pex}

module _ {Url Stub E : Type 0} (dec : Discrete Url) (host : Host Url Stub E) where
  -- What the loop leaves, unless a push of a candidate is undefined.
  abbrev Leaves :
      List Url → Outcome ((List (Connection Url Stub) × List Url × OrderedSet Url) × E) → Type 0
  Leaves active (done ((cs, active', candidates), e)) =
      Tracks dec (urls cs) active' candidates × (length active' ≤ length active)
  Leaves active thrown = ⊥
  Leaves active undefined = Unit

  -- The part of a pool that the loop works on.
  abbrev Before :
      List (Connection Url Stub) → List (Connection Url Stub) → List Url → OrderedSet Url → Type 0
  Before before cs active candidates = Tracks dec (urls (before ++ cs)) active candidates

  Leaves-le :
      (active active' : List Url)
      (r : Outcome ((List (Connection Url Stub) × List Url × OrderedSet Url) × E))
      → length active' ≤ length active
      → Leaves active' r
      → Leaves active r
  Leaves-le active active' (done ((cs, a, candidates), e)) le (t, fewer) = (t, omega arith)
  Leaves-le active active' thrown le h = h
  Leaves-le active active' undefined le h = h

  Before-next :
      (before cs : List (Connection Url Stub)) (c c' : Connection Url Stub) (active : List Url)
      (candidates : OrderedSet Url)
      → c'.url ≡ c.url
      → Before before (c ∷ cs) active candidates
      → Before (before ++ c' ∷ []) cs active candidates
  Before-next before cs c c' active candidates url t =
      let at : urls (before ++ c ∷ cs) ≡ urls ((before ++ c' ∷ []) ++ cs) =
        urls-append before (c ∷ cs)
        ∙ ap (λ u. urls before ++ u ∷ urls cs) (sym url)
        ∙ sym (urls-append before (c' ∷ cs))
        ∙ ap urls (sym (append_assoc before (c' ∷ []) cs)) in
      subst (λ ks. Tracks dec ks active candidates) at t

  Before-drop :
      (before cs : List (Connection Url Stub)) (c : Connection Url Stub) (active : List Url)
      (candidates : OrderedSet Url)
      → Before before (c ∷ cs) active candidates
      → Before before cs (erase dec c.url active) candidates
        × (length (erase dec c.url active) ≤ length active)
  Before-drop before cs c active candidates t =
      let t' = subst (λ ks. Tracks dec ks active candidates) (urls-append before (c ∷ cs)) t in
      let d = Tracks-drop dec (urls before) (urls cs) c.url active candidates t' in
      (
        subst (λ ks. Tracks dec ks (erase dec c.url active) candidates)
            (sym (urls-append before cs)) d,
        omega (
          arith,
          t'.size,
          d.size,
          length-append (urls before) (c.url ∷ urls cs),
          length-append (urls before) (urls cs),
        ),
      )

  pex_step :
      (now node_id : ℕ) (before cs : List (Connection Url Stub)) (c : Connection Url Stub)
      (active : List Url) (candidates : OrderedSet Url) (answer : Option (PeerList Url) × E)
      → Before before (c ∷ cs) active candidates
      → ((before' : List (Connection Url Stub)) (active' : List Url) (candidates' : OrderedSet Url)
            (e : E)
          → Before before' cs active' candidates'
          → Leaves active' (pex_loop dec host now node_id before' cs active' candidates' e))
      → Leaves active (elim answer.0 [
        | none ↦
            pex_loop dec host now node_id before cs (erase dec c.url active) candidates (answer.1)
        | some response ↦ push_all dec host active response.peer candidates >>= λ candidates'.
            let (t, e') = host.time (answer.1) in
            pex_loop dec host now node_id
              (before ++ record c { last_pex = t } ∷ [])
              cs
              active
              candidates'
              e'
      ])
  pex_step now node_id before cs c active candidates (none, e) t later =
      let (t', fewer) = Before-drop before cs c active candidates t in
      Leaves-le active (erase dec c.url active) _ fewer
        (later before (erase dec c.url active) candidates e t')
  pex_step now node_id before cs c active candidates (some response, e) t later =
      let (at, e') = host.time e in
      elim (push_all-Tracks dec host response.peer (urls (before ++ c ∷ cs)) active candidates t) [
        | inl gone ↦ rw gone tt
        | inr (candidates', pushed, t') ↦ rw pushed (
            later (before ++ record c { last_pex = at } ∷ []) active candidates' e'
              (Before-next before cs c (record c { last_pex = at }) active candidates' refl t'))
      ]

  pex_loop-Leaves :
      (now node_id : ℕ) (cs before : List (Connection Url Stub)) (active : List Url)
      (candidates : OrderedSet Url) (e : E)
      → Before before cs active candidates
      → Leaves active (pex_loop dec host now node_id before cs active candidates e)
  unfolding pex_loop
  pex_loop-Leaves now node_id [] before active candidates e t =
      (subst (λ cs. Tracks dec (urls cs) active candidates) (append-nil before) t, omega arith)
  pex_loop-Leaves now node_id (c ∷ cs) before active candidates e t =
      let request : PeerList Url = record {
        node_id = node_id;
        peer = others dec host c.n_id (before ++ c ∷ cs);
      } in
      elim (Bool-cases (ltb pex_refresh_s (now - c.last_pex))) [
        | inl stale ↦ rw stale (
            pex_step now node_id before cs c active candidates (host.peer_exchange c.stub request e)
              t (pex_loop-Leaves now node_id cs))
        | inr fresh ↦ rw fresh (
            pex_loop-Leaves now node_id cs (before ++ c ∷ []) active candidates e
              (Before-next before cs c c active candidates refl t))
      ]

  finished :
      (p : ConnectionPool Url Stub)
      (r : Outcome ((List (Connection Url Stub) × List Url × OrderedSet Url) × E))
      → IsSound dec p
      → Leaves p.active_peers r
      → Ends dec Unit (
          r >>= λ ((cs, active, candidates), e). done (
            record p { connections = sort cs; active_peers = active; peer_candidates = candidates },
            e,
          ))
  finished p (done ((cs, active, candidates), e)) v (t, fewer) = record {
    tracks = Tracks-Same dec (Same-sort dec cs) t;
    bounded = omega (arith, fewer, v.bounded);
  }
  finished p thrown v h = absurd h
  finished p undefined v h = h

  -- `worker_get_pex` keeps a pool sound, unless a push of a candidate is undefined: connections whose peers do not answer
  -- leave it together with their active peers, and of the URLs that are received only those of no
  -- active peer become candidates.
  pub worker_get_pex-IsSound :
      (p : ConnectionPool Url Stub) (e : E)
      → IsSound dec p
      → Ends dec Unit (worker_get_pex dec host p e)
  unfolding worker_get_pex
  worker_get_pex-IsSound p e v =
      let (now, e1) = host.time e in
      finished p _ v (
        pex_loop-Leaves now p.node_id p.connections [] p.active_peers p.peer_candidates e1 v.tracks)
