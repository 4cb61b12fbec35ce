-- ===== src/Network/ConnectionPool/Reach.antt =====
-- network/connection_pool.cc: the states that a pool can get into.
-- Each step is a method that runs to its end; what the world does in between is any `E`.
use distfs.Base.{inl, inr, ℕ, List, ◌≡◌, sym, subst, ◌∙◌, Option}
use distfs.Meta.Effects.{Outcome, done, thrown, undefined}
use distfs.Network.ChunkAvailability.{ChunkAvailability}
use distfs.Network.DistfsMetadata.{DistfsMetadata}
use distfs.Network.ConnectionPool.{Host, ConnectionPool, new, info_from, pex_from}
use distfs.Network.ConnectionPool.Soundness.{IsSound, Ends}
use distfs.Network.ConnectionPool.Methods.{new-IsSound, info_from-Informs, pex_from-IsSound}
use distfs.Network.ConnectionPool.Worker.{
  worker_get_info, worker_get_pex, worker_expand, worker_explore,
}
use distfs.Network.ConnectionPool.Worker.Refresh.{worker_get_info-IsSound}
use distfs.Network.ConnectionPool.Worker.Exchange.{worker_get_pex-IsSound}
use distfs.Network.ConnectionPool.Worker.Expand.{worker_expand-IsSound}
use distfs.Network.ConnectionPool.Worker.Explore.{worker_explore-IsSound}

module _ {Url Stub E : Type 0} (dec : Discrete Url) (host : Host Url Stub E) where
  pub data Step : ConnectionPool Url Stub → ConnectionPool Url Stub → Type 0 where
    refreshes :
        (available : List ℕ) {p q : ConnectionPool Url Stub} (e e' : E)
        → worker_get_info dec host available p e ≡ done (q, e')
        → Step p q
    exchanges :
        {p q : ConnectionPool Url Stub} (e e' : E)
        → worker_get_pex dec host p e ≡ done (q, e')
        → Step p q
    expands :
        (available : List ℕ) {p q : ConnectionPool Url Stub} (e e' : E)
        → worker_expand dec host available p e ≡ done (q, e')
        → Step p q
    explores :
        (available : List ℕ) {p q : ConnectionPool Url Stub} (e e' : E)
        → worker_explore dec host available p e ≡ done (q, e')
        → Step p q
    is_informed :
        (peer : Url) (n_id : ℕ) (availability : ChunkAvailability) {p q : ConnectionPool Url Stub}
        (e e' : E)
        → info_from dec host peer n_id availability p e ≡ done (q, e')
        → Step p q
    is_told :
        (n_id : ℕ) (incoming outgoing : List Url) {p q : ConnectionPool Url Stub} (e e' : E)
        → pex_from dec host n_id incoming p e ≡ done ((q, outgoing), e')
        → Step p q

  pub data Reach : ConnectionPool Url Stub → Type 0 where
    starts :
        (metadata : DistfsMetadata) (peer : Url) (stub : Option Stub)
        (n_id limit candidates_limit listen_port : ℕ) (e : E)
        → Reach (new dec host metadata peer stub n_id limit candidates_limit listen_port e).0
    goes_on : {p q : ConnectionPool Url Stub} → Reach p → Step p q → Reach q

  Ends-done :
      (why : Type 0) {q : ConnectionPool Url Stub} {e : E}
      (r : Outcome (ConnectionPool Url Stub × E))
      → r ≡ done (q, e)
      → Ends dec why r
      → IsSound dec q
  Ends-done why r h ends = subst (λ r. Ends dec why r) h ends

  -- The pool that `pex_from` ends in is sound.
  abbrev Tells : Outcome ((ConnectionPool Url Stub × List Url) × E) → Type 0
  Tells (done ((p, outgoing), e)) = IsSound dec p
  Tells thrown = ⊥
  Tells undefined = Unit

  Step-IsSound : {p q : ConnectionPool Url Stub} → Step p q → IsSound dec p → IsSound dec q
  Step-IsSound (refreshes available e e' h) v =
      Ends-done _ _ h (worker_get_info-IsSound dec host available _ _ v)
  Step-IsSound (exchanges e e' h) v = Ends-done _ _ h (worker_get_pex-IsSound dec host _ _ v)
  Step-IsSound (expands available e e' h) v =
      Ends-done _ _ h (worker_expand-IsSound dec host available _ _ v)
  Step-IsSound (explores available e e' h) v =
      Ends-done _ _ h (worker_explore-IsSound dec host available _ _ v)
  Step-IsSound (is_informed peer n_id availability e e' h) v =
      elim (info_from-Informs dec host peer n_id availability _ e v) [
        | inl gone ↦ subst (Ends dec Unit) (sym gone.1 ∙ h) tt
        | inr (q', e1, ran, i) ↦ subst (Ends dec Unit) (sym ran ∙ h) i.sound
      ]
  Step-IsSound (is_told n_id incoming outgoing e e' h) v =
      elim (pex_from-IsSound dec host n_id incoming _ e v) [
        | inl gone ↦ subst Tells (sym gone ∙ h) tt
        | inr (q', outgoing', e1, ran, v') ↦ subst Tells (sym ran ∙ h) v'
      ]

  -- Every state that a pool gets into is sound: there is one connection for each active peer and none
  -- for another, no peer has two, no active peer is a candidate, the queue of candidates is in order,
  -- and there are no more active peers than the limit or one.
  pub Reach-IsSound : {p : ConnectionPool Url Stub} → Reach p → IsSound dec p
  Reach-IsSound (starts metadata peer stub n_id limit candidates_limit listen_port e) =
      new-IsSound dec host metadata peer stub n_id limit candidates_limit listen_port e
  Reach-IsSound (goes_on r s) = Step-IsSound s (Reach-IsSound r)
