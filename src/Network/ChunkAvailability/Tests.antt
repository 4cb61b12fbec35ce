-- ===== src/Network/ChunkAvailability/Tests.antt =====
-- network/chunk_availability.cc, run.
use distfs.Base.{ℕ, List, [], ◌∷◌, none, some, ◌%◌, ◌≡◌, ◌↔◌, refl, arith}
use distfs.Network.ChunkAvailability.{ChunkAvailability, of_bitmask, bitmask, greatest}
use distfs.Network.ChunkAvailability.Encode.{of_bitmask-bitmask, bitmask-none_iff}

abbrev three : ChunkAvailability
three = record { chunks = 0 ∷ 3 ∷ 9 ∷ [] }

abbrev eight : ChunkAvailability
eight = record { chunks = 8 ∷ [] }

of_bitmask-bitmask_example :
    (mask : List ℕ) × (bitmask three ≡ some mask) × (of_bitmask mask ≡ three)
unfolding greatest
of_bitmask-bitmask_example =
    of_bitmask-bitmask three 9 (ground arith) refl (omega arith) (omega arith)

bitmask-none_iff_example :
    (bitmask eight ≡ none) ↔ ((m : ℕ) × (greatest eight.chunks ≡ some m) × (m % 8 ≡ 0))
bitmask-none_iff_example = bitmask-none_iff eight (ground arith)
