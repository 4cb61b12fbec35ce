-- ===== src/Data/CompressedStore/Tests.antt =====
-- data/compressed_store.cc, run: over a map in memory, with a compression that puts a byte in front.
use distfs.Base.{ℕ, ◌+◌, ltb, if◌then◌else◌, List, [], ◌∷◌, Option, none, some, length}
use distfs.Data.CompressedStore.{Lz4}

abbrev unframe : List ℕ → Option (List ℕ)
unframe [] = none
unframe (x ∷ xs) = some xs

abbrev framing : Lz4
framing = record {
  compress_default = λ src size. if ltb size (length src + 1) then some [] else some (0 ∷ src);
  decompress_safe = λ src size. unframe src;
}

-- A chunk of full size does not fit.
abbrev full : List ℕ
full = 1 ∷ 2 ∷ 3 ∷ 4 ∷ []
