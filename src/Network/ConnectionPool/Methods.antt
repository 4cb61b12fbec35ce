-- ===== src/Network/ConnectionPool/Methods.antt =====
-- network/connection_pool.h and network/connection_pool.cc: the constructor, `info_from` and `pex_from`
-- keep a pool sound.
use distfs.Base.{
  ℕ, ◌==◌, if◌then◌else◌, List, [], ◌∷◌, Option, none, some, ◌≡◌, ◌⊎◌, inl, inr, refl, ap, sym, ◌∙◌,
  arith, Bool-cases, subst,
}
use distfs.Common.OrderedSet
use distfs.Common.OrderedSet.{OrderedSet, contains}
use distfs.Meta.Effects.{done, undefined}
use distfs.Network.ChunkAvailability.{ChunkAvailability}
use distfs.Network.DistfsMetadata.{DistfsMetadata}
use distfs.Network.ConnectionPool.{
  Host, Connection, ConnectionPool, sort, new, bootstrap, push_all, note_info, note_pex, info_from,
  pex_from,
}
use distfs.Network.ConnectionPool.Tracking.{urls, Same, Tracks-Same, push_all-Tracks, Same-sort}
use distfs.Network.ConnectionPool.Soundness.{IsSound}

module _ {Url Stub E : Type 0} (dec : Discrete Url) (host : Host Url Stub E) where
  -- A pool is sound from the start.
  pub new-IsSound :
      (metadata : DistfsMetadata) (peer : Url) (stub : Option Stub)
      (n_id limit candidates_limit listen_port : ℕ) (e : E)
      → IsSound dec (new dec host metadata peer stub n_id limit candidates_limit listen_port e).0
  unfolding new bootstrap contains OrderedSet.new
  new-IsSound metadata peer none n_id limit candidates_limit listen_port e = record {
    tracks = record {
      elements = λ a. refl;
      once = tt;
      active_once = tt;
      size = refl;
      waiting = record { mirrored = refl; distinct = tt; bounded = omega arith };
      apart = λ a h. cc;
    };
    bounded = omega arith;
  }
  new-IsSound metadata peer (some stub) n_id limit candidates_limit listen_port e = record {
    tracks = record {
      elements = λ a. refl;
      once = (refl, tt);
      active_once = (refl, tt);
      size = refl;
      waiting = record { mirrored = refl; distinct = tt; bounded = omega arith };
      apart = λ a h. refl;
    };
    bounded = omega arith;
  }

  note_info-urls :
      (n_id : ℕ) (availability : ChunkAvailability) (cs : List (Connection Url Stub)) (e : E)
      → urls (note_info dec host n_id availability cs e).0.0 ≡ urls cs
  unfolding note_info
  note_info-urls n_id availability [] e = refl
  note_info-urls n_id availability (c ∷ cs) e = elim (Bool-cases (c.n_id == n_id)) [
    | inl here ↦ rw here refl
    | inr there ↦ rw there (ap (◌∷◌ c.url) (note_info-urls n_id availability cs e))
  ]

  note_pex-urls :
      (n_id : ℕ) (cs : List (Connection Url Stub)) (e : E)
      → urls (note_pex dec host n_id cs e).0.0 ≡ urls cs
  unfolding note_pex
  note_pex-urls n_id [] e = refl
  note_pex-urls n_id (c ∷ cs) e = elim (Bool-cases (c.n_id == n_id)) [
    | inl here ↦ rw here (ap (◌∷◌ c.url) (note_pex-urls n_id cs (host.time e).1))
    | inr there ↦ rw there (ap (◌∷◌ c.url) (note_pex-urls n_id cs e))
  ]

  -- A URL that is known already can be pushed as well as a new one.
  pushed-IsSound :
      (ps : List Url) (p : ConnectionPool Url Stub) (cs : List (Connection Url Stub))
      → IsSound dec p
      → Same dec (urls p.connections) (urls cs)
      → (push_all dec host p.active_peers ps p.peer_candidates ≡ undefined)
        ⊎ ((candidates : OrderedSet Url) × (push_all dec host p.active_peers ps p.peer_candidates
              ≡ done candidates)
            × IsSound dec (record p { peer_candidates = candidates; connections = cs }))
  pushed-IsSound ps p cs v s =
      elim (push_all-Tracks dec host ps (urls p.connections) p.active_peers p.peer_candidates
        v.tracks) [
          | inl gone ↦ inl gone
          | inr (candidates, pushed, t) ↦
              inr (candidates, pushed, record { tracks = Tracks-Same dec s t; bounded = v.bounded })
        ]

  Same-≡ : (xs ys : List Url) → ys ≡ xs → Same dec xs ys
  Same-≡ xs ys e =
      subst (λ zs. Same dec xs zs) (sym e)
        (record { elements = λ a. refl; once = λ d. d; size = refl })

  Same-trans : (xs ys zs : List Url) → Same dec xs ys → Same dec ys zs → Same dec xs zs
  Same-trans xs ys zs s t = record {
    elements = λ a. t.elements a ∙ s.elements a;
    once = λ d. t.once (s.once d);
    size = t.size ∙ s.size;
  }

  -- The connections, where those of the node have the chunks that it told, in order again.
  abbrev pub noted :
      ℕ → ChunkAvailability → List (Connection Url Stub) → E → List (Connection Url Stub)
  noted n_id availability cs e =
      let ((cs', changed), _) = note_info dec host n_id availability cs e in
      if changed then sort cs' else cs'

  -- What `info_from` ends in.
  pub record Informs (peer : Url) (n_id : ℕ) (availability : ChunkAvailability) (e : E)
      (p q : ConnectionPool Url Stub) : Type 0 where
    pub sound : IsSound dec q
    pub node_id : q.node_id ≡ p.node_id
    pub listen_port : q.listen_port ≡ p.listen_port
    pub metadata : q.metadata ≡ p.metadata
    pub told :
        push_all dec host p.active_peers (peer ∷ []) p.peer_candidates ≡ done q.peer_candidates
    pub connections : q.connections ≡ noted n_id availability p.connections e

  -- `info_from` and `pex_from` keep a pool sound, unless a push of a candidate is undefined.
  pub info_from-Informs :
      (peer : Url) (n_id : ℕ) (availability : ChunkAvailability) (p : ConnectionPool Url Stub)
      (e : E)
      → IsSound dec p
      → ((push_all dec host p.active_peers (peer ∷ []) p.peer_candidates ≡ undefined)
          × (info_from dec host peer n_id availability p e ≡ undefined))
        ⊎ ((q : ConnectionPool Url Stub) × (e' : E) × (info_from dec host peer n_id availability p e
              ≡ done (q, e'))
            × Informs peer n_id availability e p q)
  unfolding info_from
  info_from-Informs peer n_id availability p e v =
      let r = note_info dec host n_id availability p.connections e in
      let s = Same-≡ _ _ (note_info-urls n_id availability p.connections e) in
      let t = Same-trans _ _ _ s (Same-sort dec r.0.0) in
      let cs : List (Connection Url Stub) = if r.0.1 then sort r.0.0 else r.0.0 in
      let u : Same dec (urls p.connections) (urls cs) = elim (Bool-cases r.0.1) [
        | inl changed ↦ rw changed t
        | inr kept ↦ rw kept s
      ] in
      elim (pushed-IsSound (peer ∷ []) p cs v u) [
        | inl gone ↦ inl (gone, rw gone refl)
        | inr (candidates, pushed, v') ↦ inr (
          record p { peer_candidates = candidates; connections = cs },
          r.1,
          rw pushed refl,
          record {
            sound = v';
            node_id = refl;
            listen_port = refl;
            metadata = refl;
            told = pushed;
            connections = refl;
          },
        )
      ]

  pub pex_from-IsSound :
      (n_id : ℕ) (incoming : List Url) (p : ConnectionPool Url Stub) (e : E)
      → IsSound dec p
      → (pex_from dec host n_id incoming p e ≡ undefined)
        ⊎ ((q : ConnectionPool Url Stub) × (outgoing : List Url) × (e' : E) × (pex_from dec host
                n_id incoming p e
              ≡ done ((q, outgoing), e'))
            × IsSound dec q)
  unfolding pex_from
  pex_from-IsSound n_id incoming p e v =
      let r = note_pex dec host n_id p.connections e in
      elim (pushed-IsSound incoming p r.0.0 v (Same-≡ _ _ (note_pex-urls n_id p.connections e))) [
        | inl gone ↦ inl (rw gone refl)
        | inr (candidates, pushed, v') ↦ inr (
          record p { peer_candidates = candidates; connections = r.0.0 },
          r.0.1,
          r.1,
          rw pushed refl,
          v',
        )
      ]
