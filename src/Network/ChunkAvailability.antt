-- ===== src/Network/ChunkAvailability.antt =====
-- network/chunk_availability.h and network/chunk_availability.cc: the set of chunks that a node
-- has, and the bit mask that it is sent as.
-- `std::set<uint32_t>` is its elements in ascending order. A `std::string` is a list of bytes; a
-- write past its end is undefined, and gives `none`.
pub mod Bits
pub mod Sets
pub mod Decode
pub mod Encode
mod Tests
use distfs.Base.{
  ℕ, zero, suc, ◌+◌, ◌*◌, ◌/◌, ◌%◌, ◌^◌, ◌==◌, ltb, if◌then◌else◌, Bool, true, false, not, List, [],
  ◌∷◌, Option, none, some, length, get_or, set, replicate, bit_and, bit_or,
}

pub record ChunkAvailability : Type 0 where
  pub chunks : List ℕ

-- `chunks.insert(x)`.
pub insert : ℕ → List ℕ → List ℕ
insert x [] = x ∷ []
insert x (y ∷ ys) = if ltb x y then x ∷ y ∷ ys else if x == y then y ∷ ys else y ∷ insert x ys

-- `chunks.count(x) > 0`.
unfoldable pub has : ℕ → List ℕ → Bool
has x [] = false
has x (y ∷ ys) = if y == x then true else has x ys

-- `(c & (1 << j)) != 0`.
pub test_bit : ℕ → ℕ → Bool
test_bit c j = not (bit_and c (2 ^ j) == 0)

-- `c |= 1 << j`, on a byte.
pub or_bit : ℕ → ℕ → ℕ
or_bit c j = bit_or c (2 ^ j) % 256

-- The inner loop of the constructor from a mask, with `n` rounds left; `i * 8 + j` is unsigned.
pub add_bits : ℕ → ℕ → ℕ → ℕ → List ℕ → List ℕ
add_bits zero i c j s = s
add_bits (suc n) i c j s =
    add_bits n i c (j + 1) (if test_bit c j then insert ((i * 8 + j) % 2 ^ 32) s else s)

-- The outer loop, from byte `i`.
pub add_bytes : ℕ → List ℕ → List ℕ → List ℕ
add_bytes i [] s = s
add_bytes i (c ∷ cs) s = add_bytes (i + 1) cs (add_bits 8 i c 0 s)

pub of_bitmask : List ℕ → ChunkAvailability
of_bitmask mask = record { chunks = add_bytes 0 mask [] }

-- `*chunks.rbegin()`.
unfoldable pub greatest : List ℕ → Option ℕ
greatest [] = none
greatest (x ∷ []) = some x
greatest (x ∷ y ∷ ys) = greatest (y ∷ ys)

-- `for (uint32_t x : chunks) str[x / 8] |= 1 << (x % 8);`
pub write_bits : List ℕ → List ℕ → Option (List ℕ)
write_bits [] str = some str
write_bits (x ∷ xs) str =
    let rest = write_bits xs (set str (x / 8) (or_bit (get_or str (x / 8) 0) (x % 8))) in
    if ltb (x / 8) (length str) then rest else none

unfoldable pub bitmask : ChunkAvailability → Option (List ℕ)
bitmask a = elim (greatest a.chunks) [
  | none ↦ some []
  | some it ↦ write_bits a.chunks (replicate (it / 8 + it % 8) 0)
]

-- `operator[]`.
pub index : ChunkAvailability → ℕ → Bool
unfolding has
index a id = has id a.chunks

unfoldable pub count : ChunkAvailability → ℕ
count a = length a.chunks

-- `operator<`.
pub less : ChunkAvailability → ChunkAvailability → Bool
unfolding count
less a b = ltb (count a) (count b)
