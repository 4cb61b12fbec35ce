-- ===== src/Network/Transfer/Sending.antt =====
-- network/distfs_service.cc: `GetChunk` sends the whole chunk, in parts.
use distfs.Base.{
  ℕ, zero, suc, ◌+◌, ◌<◌, ◌≤◌, min, ltb, if◌then◌else◌, Bool, true, List, [], ◌∷◌, ◌++◌, Option,
  some, length, take, drop, All, ◌≡◌, refl, ap, sym, ◌∙◌, arith, Bool-cases, inl, inr, length-take,
  length-drop, take-append-drop, append_assoc, append-nil, length-append, ltb→lt, le→ltb-false,
}
use distfs.Data.{filled, ChunkStorage}
use distfs.Meta.Effects.{done, undefined}
use distfs.Network.Transfer.{Status, send_loop, send_chunk, get_chunk, receive}

-- All the parts, one after the other.
abbrev pub join : List (List ℕ) → List ℕ
join [] = []
join (part ∷ parts) = part ++ join parts

module _ {W : Type 0} (write : List ℕ → W → Bool × W) where
  -- Parts written one after the other, until a write says that the call is cancelled.
  abbrev pub write_all : List (List ℕ) → W → Status × W
  write_all [] w = (Status.ok, w)
  write_all (part ∷ parts) w =
      let (good, w') = write part w in
      let rest = write_all parts w' in if good then rest else (Status.cancelled, w')

  module _ (wire_size : ℕ) (positive : 0 < wire_size) where
    abbrev pub Sends : List ℕ → W → Option (Status × W) → Type 0
    Sends bs w r =
        (parts : List (List ℕ)) × (join parts ≡ bs)
        × All (λ part. (0 < length part) × (length part ≤ wire_size)) parts
        × (r ≡ some (write_all parts w))

    -- The parts do not depend on what the writes say.
    cut :
        (fuel : ℕ) (bs : List ℕ)
        → length bs ≤ fuel
        → (parts : List (List ℕ)) × (join parts ≡ bs)
          × All (λ part. (0 < length part) × (length part ≤ wire_size)) parts
          × ((w : W) → send_loop write wire_size fuel bs w ≡ some (write_all parts w))
    unfolding send_loop
    cut fuel [] h = ([], refl, tt, λ w. refl)
    cut zero (x ∷ xs) h = absurd (omega arith)
    cut (suc fuel) (x ∷ xs) h =
        let all : List ℕ = x ∷ xs in
        let n = min wire_size (length all) in
        let some_left : length (drop n all) ≤ fuel = omega (arith, length-drop n all) in
        let (parts, whole, sizes, ran) = cut fuel (drop n all) some_left in
        (
          take n all ∷ parts,
          ap (◌++◌ (take n all)) whole ∙ take-append-drop n all,
          ((omega (arith, length-take n all), omega (arith, length-take n all)), sizes),
          λ w. elim (Bool-cases (write (take n all) w).0) [
            | inl good ↦ rw good (ran (write (take n all) w).1)
            | inr bad ↦ rw bad refl
          ],
        )

    -- The stored chunk is cut into parts, none of them empty and none larger than a message may be,
    -- which are the chunk again when they are put together. `GetChunk` always ends, and does nothing
    -- but write these parts in order, until the call is cancelled. (The store returns the chunk, and a
    -- message may hold a byte.)
    pub get_chunk-Sends :
        {S : Type 0} (store : ChunkStorage S) (id : ℕ) (s : S) (w : W) (bs : List ℕ)
        → (store.read_chunk id s).0 ≡ filled bs
        → (status : Status) × (w' : W) × (get_chunk write wire_size store id s w
            ≡ some (status, (store.read_chunk id s).1, w'))
          × Sends bs w (some (status, w'))
    unfolding get_chunk send_chunk
    get_chunk-Sends store id s w bs e =
        let (parts, whole, sizes, ran) = cut (length bs) bs (omega arith) in
        (
          (write_all parts w).0,
          (write_all parts w).1,
          rw (e, send_chunk, ran w) refl,
          (parts, whole, sizes, refl),
        )

-- A writer that never cancels, and keeps what it is given.
abbrev pub log : List ℕ → List (List ℕ) → Bool × List (List ℕ)
log part parts = (true, parts ++ part ∷ [])

write_all-log :
    (parts before : List (List ℕ)) → write_all log parts before ≡ (Status.ok, before ++ parts)
write_all-log [] before = ap (λ ps. (Status.ok, ps)) (sym (append-nil before))
write_all-log (part ∷ parts) before =
    write_all-log parts (before ++ part ∷ [])
    ∙ ap (λ ps. (Status.ok, ps)) (append_assoc before (part ∷ []) parts)

receive-append :
    (chunk_size : ℕ) (parts : List (List ℕ)) (got : List ℕ)
    → length got ≤ chunk_size
    → receive chunk_size got parts ≡ (
        if ltb chunk_size (length (got ++ join parts)) then undefined else done (got ++ join parts))
unfolding receive
receive-append chunk_size [] got h =
    rw (append-nil got, le→ltb-false chunk_size (length got) h) refl
receive-append chunk_size (part ∷ parts) got h =
    let l = length-append got part in
    let m = length-append (got ++ part) (join parts) in
    let assoc = append_assoc got part (join parts) in
    elim (Bool-cases (ltb chunk_size (length got + length part))) [
      | inl over ↦
          let large : ltb chunk_size (length (got ++ (part ++ join parts))) ≡ true =
            ap (λ xs. ltb chunk_size (length xs)) (sym assoc) ∙ ground (arith, ltb→lt _ _ over) in
          rw (over, large) refl
      | inr fits ↦ rw fits (
          receive-append chunk_size parts (got ++ part) (ground arith)
          ∙ ap (λ xs. if ltb chunk_size (length xs) then undefined else done xs) assoc)
    ]

-- The client puts the parts together, if they fit its buffer of the size of a chunk. The behaviour of
-- `fetch_chunk` is undefined as soon as a peer sends more than that.
pub receive-join :
    (chunk_size : ℕ) (parts : List (List ℕ))
    → receive chunk_size [] parts
      ≡ (if ltb chunk_size (length (join parts)) then undefined else done (join parts))
receive-join chunk_size parts = receive-append chunk_size parts [] (omega arith)

-- A chunk that a peer has is received as it is: if no write is cancelled, `GetChunk` returns OK, and
-- the parts that it has written are put together to the chunk. (The chunk fits the
-- client's buffer, and a message may hold a byte.)
pub receive-get_chunk :
    {S : Type 0} (store : ChunkStorage S) (wire_size chunk_size id : ℕ) (s : S) (bs : List ℕ)
    → 0 < wire_size
    → (store.read_chunk id s).0 ≡ filled bs
    → length bs ≤ chunk_size
    → (parts : List (List ℕ)) × (get_chunk log wire_size store id s []
        ≡ some (Status.ok, (store.read_chunk id s).1, parts))
      × (receive chunk_size [] parts ≡ done bs)
unfolding get_chunk send_chunk
receive-get_chunk store wire_size chunk_size id s bs positive e h =
    let (parts, whole, sizes, ran) = cut log wire_size positive (length bs) bs (omega arith) in
    (
      parts,
      rw (e, send_chunk, ran [], write_all-log parts []) refl,
      receive-join chunk_size parts ∙ rw (whole, le→ltb-false chunk_size (length bs) h) refl,
    )
