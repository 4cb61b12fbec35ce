-- ===== src/Network/Service/Tests.antt =====
-- Witnesses for the service.
use native.Mathlib.Decide.{ℕ_discrete}
use distfs.Base.{ℕ, false, List, [], ◌∷◌, ◌++◌, none, ◌≡◌, refl, arith}
use distfs.Meta.Effects.{done}
use distfs.Network.ConnectionPool.{Info, Host, ConnectionPool, new}
use distfs.Network.Service.{colon, peer_url, info_exchange}
use distfs.Network.Service.Peer.{scheme, peer_url-scheme}

string_discrete : Discrete (List ℕ)
string_discrete [] [] = yes refl
string_discrete [] (y ∷ ys) = no (λ e. cc)
string_discrete (x ∷ xs) [] = no (λ e. cc)
string_discrete (x ∷ xs) (y ∷ ys) = elim (ℕ_discrete x y) [
  | no differ ↦ no (λ e. differ (ground arith))
  | yes same ↦ elim (string_discrete xs ys) [
    | no differ ↦ no (λ e. differ (ground arith))
    | yes rest ↦ yes cc
  ]
]

-- "0", whatever the number.
abbrev to_zero : ℕ → List ℕ
to_zero n = 48 ∷ []

peer_url-scheme_example :
    peer_url to_zero (scheme 52 ++ (49 ∷ []) ++ colon ∷ 50 ∷ []) 7 ≡ done (49 ∷ colon ∷ 48 ∷ [])
peer_url-scheme_example = peer_url-scheme to_zero 52 (49 ∷ []) (50 ∷ []) 7 (refl, tt)

-- Nobody answers.
abbrev silent : Host (List ℕ) ℕ ℕ
silent = record {
  open_channel = λ url e. (none, e);
  info_exchange = λ stub info e. (none, e);
  peer_exchange = λ stub list e. (none, e);
  get_chunk = λ stub id e. (record { parts = []; good = false }, e);
  time = λ e. (e, e);
  pick = λ n e. (0, e);
  hash_policy = λ n k. n;
  first_buckets = 13;
}

abbrev fresh_pool : ConnectionPool (List ℕ) ℕ
fresh_pool = (new string_discrete silent (record { id = 6; block_hashes = [] }) [] none 0 4 4 9 0).0

abbrev request : Info
request = record { fs_id = 6; node_id = 3; listen_port = 7; available = [] }

abbrev caller : List ℕ
caller = scheme 52 ++ (49 ∷ []) ++ colon ∷ 50 ∷ []
