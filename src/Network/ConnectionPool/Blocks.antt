-- ===== src/Network/ConnectionPool/Blocks.antt =====
-- network/connection_pool.cc: `ConnectionPool::fetch_chunk`, with the peers that it may ask.
use mathlib.Core.List.{Memᴰ}
use mathlib.Core.List.Memᴰ.{head, tail, not-nil}
use distfs.Base.{
  ℕ, zero, suc, ◌<◌, true, false, List, [], ◌∷◌, Option, none, some, length, get_elem?, ◌≡◌, inl,
  inr, refl, ap, ◌∙◌, arith, Bool-cases,
}
use distfs.Common.{ErrorCode}
use distfs.Data.{ChunkStorage}
use distfs.Meta.Effects.{Outcome, done}
use distfs.Network.ChunkAvailability.{index}
use distfs.Network.Transfer
use distfs.Network.Transfer.{Reply}
use distfs.Network.ConnectionPool.{
  Host, Connection, ConnectionPool, having, chosen, connection_for_block,
}

module _ {Url Stub E : Type 0} (dec : Discrete Url) (host : Host Url Stub E) where
  asked : ℕ → Option Stub × E → Option Reply × E
  asked id (none, e) = (none, e)
  asked id (some stub, e) = let (reply, e') = host.get_chunk stub id e in (some reply, e')

  -- A round of `while (true)`: the choice of a peer, and its answer.
  connect : ConnectionPool Url Stub → ℕ → E → Option Reply × E
  unfolding asked
  connect p id e = asked id (connection_for_block dec host id p e)

  pub fetch_chunk :
      {S : Type 0}
      → ℕ
      → ChunkStorage S
      → (List ℕ → List ℕ)
      → ℕ
      → ConnectionPool Url Stub
      → S
      → E
      → Outcome (ErrorCode × S × E)
  unfolding connect
  fetch_chunk chunk_size store checksum id p s e =
      Transfer.fetch_chunk chunk_size store (connect p) checksum p.metadata.block_hashes id s e

  -- No connection has the chunk, or a connection that has it is chosen.
  abbrev pub Chooses : ℕ → List (Connection Url Stub) → Option Stub → Type 0
  Chooses id cs none = (c : Connection Url Stub) → Memᴰ c cs → index c.availability id ≡ false
  Chooses id cs (some stub) =
      (c : Connection Url Stub) × Memᴰ c cs × (index c.availability id ≡ true) × (c.stub ≡ stub)

  Chooses-tail :
      (id : ℕ) (c : Connection Url Stub) (cs : List (Connection Url Stub)) (stub : Stub)
      → Chooses id cs (some stub)
      → Chooses id (c ∷ cs) (some stub)
  Chooses-tail id c cs stub (d, at, has, same) = (d, tail at, has, same)

  having-here :
      (id k : ℕ) (c : Connection Url Stub) (cs : List (Connection Url Stub)) (stub : Stub)
      → index c.availability id ≡ true
      → ((k : ℕ) → get_elem? (having dec host id cs) k ≡ some stub → Chooses id cs (some stub))
      → get_elem? (c.stub ∷ having dec host id cs) k ≡ some stub
      → Chooses id (c ∷ cs) (some stub)
  having-here id zero c cs stub has later h = (c, head refl, has, ground arith)
  having-here id (suc k) c cs stub has later h = Chooses-tail id c cs stub (later k h)

  having-elem :
      (id : ℕ) (cs : List (Connection Url Stub)) (stub : Stub) (k : ℕ)
      → get_elem? (having dec host id cs) k ≡ some stub
      → Chooses id cs (some stub)
  unfolding having
  having-elem id [] stub k h = cc
  having-elem id (c ∷ cs) stub k h = elim (Bool-cases (index c.availability id)) [
    | inr without ↦ Chooses-tail id c cs stub (having-elem id cs stub k (rw without at h))
    | inl has ↦ having-here id k c cs stub has (having-elem id cs stub) (rw has at h)
  ]

  elem-at : (xs : List Stub) (k : ℕ) → k < length xs → (x : Stub) × (get_elem? xs k ≡ some x)
  elem-at [] k h = absurd (omega (arith, h))
  elem-at (x ∷ xs) zero h = (x, refl)
  elem-at (x ∷ xs) (suc k) h = elem-at xs k (omega (arith, h))

  having-none :
      (id : ℕ) (cs : List (Connection Url Stub)) → having dec host id cs ≡ [] → Chooses id cs none
  unfolding having
  having-none id [] h c at = absurd (not-nil at)
  having-none id (d ∷ cs) h c at = elim (Bool-cases (index d.availability id)) [
    | inl has ↦ let more : d.stub ∷ having dec host id cs ≡ [] = rw has at h in cc
    | inr without ↦ elim at [
      | head same ↦ ap (λ b. index b.availability id) same ∙ without
      | tail later ↦ having-none id cs (rw without at h) c later
    ]
  ]

  chosen-Chooses :
      (id : ℕ) (cs : List (Connection Url Stub)) (stubs : List Stub) (e : E)
      → having dec host id cs ≡ stubs
      → ((n : ℕ) (e : E) → 0 < n → (host.pick n e).0 < n)
      → Chooses id cs (chosen dec host stubs e).0
  unfolding chosen
  chosen-Chooses id cs [] e h below = having-none id cs h
  chosen-Chooses id cs (s ∷ ss) e h below =
      let (k, e') = host.pick (length (s ∷ ss)) e in
      let (stub, at) = elem-at (s ∷ ss) k (below (length (s ∷ ss)) e (omega arith)) in
      rw at (having-elem id cs stub k (ap (λ xs. get_elem? xs k) h ∙ at))

  -- `connection_for_block` finds a peer, one of those whose connection says that they have the chunk,
  -- and NOT_FOUND only if no connection says so. (A number is picked below the bound that is given.)
  pub connection_for_block-Chooses :
      (id : ℕ) (p : ConnectionPool Url Stub) (e : E)
      → ((n : ℕ) (e : E) → 0 < n → (host.pick n e).0 < n)
      → Chooses id p.connections (connection_for_block dec host id p e).0
  unfolding connection_for_block
  connection_for_block-Chooses id p e below = chosen-Chooses id p.connections _ e refl below

  having-empty :
      (id : ℕ) (cs : List (Connection Url Stub)) → Chooses id cs none → having dec host id cs ≡ []
  unfolding having
  having-empty id [] h = refl
  having-empty id (c ∷ cs) h = rw (h c (head refl)) (having-empty id cs (λ d at. h d (tail at)))

  connect-none :
      (id : ℕ) (p : ConnectionPool Url Stub) (e : E)
      → Chooses id p.connections none
      → connect p id e ≡ (none, e)
  unfolding connect asked connection_for_block chosen
  connect-none id p e h = rw (having-empty id p.connections h) refl

  -- `fetch_chunk` returns NOT_FOUND at once, without a change of the store, when no connection says
  -- that it has the chunk.
  pub fetch_chunk-not_found :
      {S : Type 0} (chunk_size : ℕ) (store : ChunkStorage S) (checksum : List ℕ → List ℕ) (id : ℕ)
      (p : ConnectionPool Url Stub) (s : S) (e : E)
      → Chooses id p.connections none
      → fetch_chunk chunk_size store checksum id p s e ≡ done (ErrorCode.not_found, s, e)
  unfolding fetch_chunk Transfer.fetch_chunk
  fetch_chunk-not_found chunk_size store checksum id p s e none_ =
      rw (fetch_chunk, Transfer.fetch_chunk, connect-none id p e none_)
        (ap (λ r. done (ErrorCode.not_found, s, r.1)) (connect-none id p e none_))
