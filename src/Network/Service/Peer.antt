-- ===== src/Network/Service/Peer.antt =====
-- network/distfs_service.cc: the URL that `InfoExchange` makes of a peer's address.
use distfs.Base.{
  ℕ, ◌==◌, ltb, true, false, List, [], ◌∷◌, ◌++◌, length, ◌≡◌, refl, ap, arith, append_assoc,
}
use distfs.Meta.Effects.{done}
use distfs.Network.Transfer.{same_string}
use distfs.Network.Service.{colon, up_to_last, substr, peer_url}

-- No character of the string is `c`.
abbrev pub Without : ℕ → List ℕ → Type 0
Without c [] = Unit
Without c (x ∷ xs) = ((x == c) ≡ false) × Without c xs

up_to_last-none : (c : ℕ) (xs : List ℕ) → Without c xs → up_to_last c xs ≡ []
unfolding up_to_last
up_to_last-none c [] w = refl
up_to_last-none c (x ∷ xs) w = rw (up_to_last-none c xs w.1, w.0) refl

-- What comes after the last `c` is cut off.
up_to_last-after :
    (c : ℕ) (xs ys : List ℕ) → Without c ys → up_to_last c (xs ++ c ∷ ys) ≡ xs ++ c ∷ []
unfolding up_to_last
up_to_last-after c [] ys w =
    let same : (c == c) ≡ true = ground arith in rw (up_to_last-none c ys w, same) refl
up_to_last-after c (x ∷ []) ys w = rw (up_to_last-after c [] ys w) refl
up_to_last-after c (x ∷ y ∷ xs) ys w = rw (up_to_last-after c (y ∷ xs) ys w) refl

-- "ipv4:" and "ipv6:".
abbrev pub scheme : ℕ → List ℕ
scheme v = 105 ∷ 112 ∷ 118 ∷ v ∷ colon ∷ []

-- A peer at "ipv4:<host>:<port>" or "ipv6:<host>:<port>" is called "<host>:<listen_port>", whatever
-- characters the host has, if the port has no colon.
pub peer_url-scheme :
    (to_string : ℕ → List ℕ) (v : ℕ) (name port : List ℕ) (listen_port : ℕ)
    → Without colon port
    → peer_url to_string (scheme v ++ name ++ colon ∷ port) listen_port
      ≡ done (name ++ colon ∷ to_string listen_port)
unfolding peer_url substr same_string
peer_url-scheme to_string v name port listen_port w =
    let cut = up_to_last-after colon name port w in
    let long : ltb (length (scheme v ++ name ++ colon ∷ port)) 5 ≡ false = ground arith in
    rw (long, cut) (ap done (append_assoc name (colon ∷ []) (to_string listen_port)))
