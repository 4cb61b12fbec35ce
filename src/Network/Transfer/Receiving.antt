-- ===== src/Network/Transfer/Receiving.antt =====
-- network/connection_pool.cc: what `fetch_chunk` puts into the store.
use distfs.Base.{
  ℕ, ◌<◌, ◌≤◌, ltb, if◌then◌else◌, Bool, true, false, List, [], ◌∷◌, Option, none, some, length,
  get_elem?, ◌≡◌, ◌⊎◌, inl, inr, refl, arith, Bool-cases, ltb→lt, ltb-false,
}
use distfs.Common.{ErrorCode}
use distfs.Data.{ChunkStorage}
use distfs.Meta.Effects.{Outcome, done, thrown, undefined, ◌>>=◌}
use distfs.Network.Transfer.{Reply, same_string, verify, attempt, retry, settle, fetch_chunk}
use distfs.Network.Transfer.Sending.{join, receive-join}

same_string-eq : (a b : List ℕ) → same_string a b ≡ true → a ≡ b
unfolding same_string
same_string-eq [] [] h = refl
same_string-eq [] (d ∷ ds) h = cc
same_string-eq (c ∷ cs) [] h = cc
same_string-eq (c ∷ cs) (d ∷ ds) h = ground (arith, same_string-eq cs ds)

same_string_refl : (a : List ℕ) → same_string a a ≡ true
unfolding same_string
same_string_refl [] = refl
same_string_refl (c ∷ cs) = ground (arith, same_string_refl cs)

same_string-ne : (a b : List ℕ) → same_string a b ≡ false → ¬ (a ≡ b)
same_string-ne a b h e = let same = same_string_refl a in cc

module _ (chunk_size : ℕ) {S E : Type 0} (store : ChunkStorage S)
    (connect : ℕ → E → Option Reply × E) (checksum : List ℕ → List ℕ) (hashes : List (List ℕ))
    (id : ℕ) (s : S) (e : E) where
  -- The reply is complete, fits the buffer and has the hash of the chunk.
  abbrev pub Matches : Reply → Type 0
  Matches reply =
      (reply.good ≡ true)
      × (length (join reply.parts) ≤ chunk_size)
      × (get_elem? hashes id ≡ some (checksum (join reply.parts)))

  -- The reply is not complete, or it has another hash.
  abbrev pub Mismatches : Reply → Type 0
  Mismatches reply =
      (length (join reply.parts) ≤ chunk_size)
      × ((reply.good ≡ false)
          ⊎ ((hash : List ℕ) × (get_elem? hashes id ≡ some hash)
              × ¬ (checksum (join reply.parts) ≡ hash)))

  -- The reply is longer than the buffer, or the chunk has no hash to compare with.
  abbrev pub Overruns : Reply → Type 0
  Overruns reply = (chunk_size < length (join reply.parts)) ⊎ (get_elem? hashes id ≡ none)

  abbrev Tries : Reply → Outcome (Option S) → Type 0
  Tries reply (done none) = Mismatches reply
  Tries reply (done (some s')) =
      Matches reply × (s' ≡ (store.write_chunk id (join reply.parts) s).1)
  Tries reply thrown = ⊥
  Tries reply undefined = Overruns reply

  tried : Reply → Outcome (Option S)
  tried reply = attempt chunk_size store connect checksum hashes id reply s

  verify-Tries :
      (reply : Reply) (h : Option (List ℕ))
      → reply.good ≡ true
      → length (join reply.parts) ≤ chunk_size
      → get_elem? hashes id ≡ h
      → Tries reply (verify chunk_size store connect checksum hashes id (join reply.parts) s)
  unfolding verify
  verify-Tries reply none good fits h = rw (h, Tries) (inr h)
  verify-Tries reply (some hash) good fits h =
      elim (Bool-cases (same_string (checksum (join reply.parts)) hash)) [
        | inl same ↦
            let sum = same_string-eq (checksum (join reply.parts)) hash same in
            rw (h, same, Tries) ((good, fits, rw sum h), refl)
        | inr other ↦
            rw (h, other, Tries)
              (fits, inr (hash, h, same_string-ne (checksum (join reply.parts)) hash other))
      ]

  judge-Tries :
      (reply : Reply) (g : Bool)
      → reply.good ≡ g
      → length (join reply.parts) ≤ chunk_size
      → Tries reply (
          if g
          then verify chunk_size store connect checksum hashes id (join reply.parts) s
          else done none)
  judge-Tries reply true good fits = verify-Tries reply (get_elem? hashes id) good fits refl
  judge-Tries reply false bad fits = (fits, inl bad)

  attempt-Tries : (reply : Reply) → Tries reply (tried reply)
  unfolding tried attempt
  attempt-Tries reply = elim (Bool-cases (ltb chunk_size (length (join reply.parts)))) [
    | inl over ↦
        rw (receive-join chunk_size reply.parts, over)
          (inl (ltb→lt chunk_size (length (join reply.parts)) over))
    | inr within ↦
        let fits : length (join reply.parts) ≤ chunk_size =
          omega (arith, ltb-false chunk_size (length (join reply.parts)) within) in
        rw (receive-join chunk_size reply.parts, within) (judge-Tries reply reply.good refl fits)
  ]

  -- How `fetch_chunk` ends, after the choice of a first peer.
  abbrev pub Fetches : Option Reply × E → Outcome (ErrorCode × S × E) → Type 0
  Fetches (peer, e') (done (ErrorCode.ok, s', e'')) =
      (reply : Reply) × (peer ≡ some reply)
      × Matches reply
      × (s' ≡ (store.write_chunk id (join reply.parts) s).1)
  Fetches (peer, e') (done (ErrorCode.not_found, s', e'')) =
      (s' ≡ s)
      × ((peer ≡ none)
          ⊎ ((reply : Reply) × (peer ≡ some reply) × Mismatches reply × ((connect id e').0 ≡ none)))
  Fetches (peer, e') (done (_, s', e'')) = ⊥
  Fetches (peer, e') thrown = ⊥
  Fetches (peer, e') undefined =
      (reply : Reply) × (peer ≡ some reply)
      × (Overruns reply ⊎ (Mismatches reply × ((next : Reply) × ((connect id e').0 ≡ some next))))

  settled :
      (reply : Reply) (e' : E) (o : Outcome (Option S)) (second : Option Reply × E)
      → Tries reply o
      → connect id e' ≡ second
      → Fetches (some reply, e') (o >>= settle chunk_size store connect checksum hashes id s e')
  unfolding settle retry
  settled reply e' (done (some s')) second (m, stored) at = (reply, refl, m, stored)
  settled reply e' (done none) (none, e'') m at =
      rw (at, Fetches) (refl, inr (reply, refl, m, λ i. (at i).0))
  settled reply e' (done none) (some next, e'') m at =
      rw (at, Fetches) (reply, refl, inr (m, (next, λ i. (at i).0)))
  settled reply e' thrown second h at = absurd h
  settled reply e' undefined second h at = (reply, refl, inl h)

  fetched :
      (c : Option Reply × E)
      → Fetches c (elim c.0 [
        | none ↦ done (ErrorCode.not_found, s, c.1)
        | some reply ↦ tried reply >>= settle chunk_size store connect checksum hashes id s c.1
      ])
  fetched (none, e') = (refl, inl refl)
  fetched (some reply, e') =
      settled reply e' (tried reply) (connect id e') (attempt-Tries reply) refl

  -- `fetch_chunk` returns OK exactly where the first peer sends a complete reply that fits the buffer
  -- and has the hash of the chunk, and then it has handed just these bytes to the store. It returns
  -- NOT_FOUND, with the store as it was, where no peer has the chunk, or the first reply is incomplete
  -- or has another hash and no peer has the chunk any more. Otherwise its behaviour is undefined: the
  -- first reply is longer than the buffer, or the chunk has no hash, or there is a peer for a second
  -- round, which uses the `ClientContext` of the first again.
  pub fetch_chunk-Fetches :
      Fetches (connect id e) (fetch_chunk chunk_size store connect checksum hashes id s e)
  unfolding fetch_chunk tried
  fetch_chunk-Fetches = fetched (connect id e)
