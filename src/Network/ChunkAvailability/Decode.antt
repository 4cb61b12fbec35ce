-- ===== src/Network/ChunkAvailability/Decode.antt =====
-- network/chunk_availability.cc: what the constructor from a mask reads.
use distfs.Base.{
  ℕ, zero, suc, ◌+◌, ◌-◌, ◌*◌, ◌/◌, ◌%◌, ◌^◌, ◌≤◌, ltb, leb, Bool, ◌&&◌, ◌||◌, ◌≡◌, arith, List, [],
  ◌∷◌, ap, Bool-cases, inl, inr, length, get_or,
}
use distfs.Network.ChunkAvailability.{insert, has, test_bit, add_bits, add_bytes}
use distfs.Network.ChunkAvailability.Bits.{test_bit-zero}
use distfs.Network.ChunkAvailability.Sets.{Ascending, has-insert, insert-Ascending}

-- Bit `x` of a mask; there is none past its end.
abbrev pub bit : List ℕ → ℕ → Bool
bit mask x = test_bit (get_or mask (x / 8) 0) (x % 8)

pub add_bits-Ascending : (n i c j : ℕ) (s : List ℕ) → Ascending s → Ascending (add_bits n i c j s)
unfolding add_bits
add_bits-Ascending zero i c j s a = a
add_bits-Ascending (suc n) i c j s a = elim (Bool-cases (test_bit c j)) [
  | inl e ↦ rw (e, add_bits) (add_bits-Ascending n i c (j + 1) _ (insert-Ascending _ s a))
  | inr e ↦ rw (e, add_bits) (add_bits-Ascending n i c (j + 1) s a)
]

pub add_bytes-Ascending : (i : ℕ) (cs s : List ℕ) → Ascending s → Ascending (add_bytes i cs s)
unfolding add_bytes
add_bytes-Ascending i [] s a = a
add_bytes-Ascending i (c ∷ cs) s a =
    add_bytes-Ascending (i + 1) cs _ (add_bits-Ascending 8 i c 0 s a)

-- The rounds from `j` on add the bits from `j` on that are set, and nothing else.
pub has-add_bits :
    (n i c j x : ℕ) (s : List ℕ)
    → i * 8 + j + n ≤ 2 ^ 32
    → has x (add_bits n i c j s)
      ≡ (has x s || (leb (i * 8 + j) x && ltb x (i * 8 + j + n) && test_bit c (x - i * 8)))
unfolding add_bits
has-add_bits zero i c j x s h = ground arith
has-add_bits (suc n) i c j x s h =
    let j' = i * 8 + j in
    let exact : j' % 2 ^ 32 ≡ j' = omega arith in
    let at_j : j' - i * 8 ≡ j = omega arith in
    elim (Bool-cases (test_bit c j)) [
      | inl e ↦
          rw (e, add_bits, exact)
            (ground (
              arith,
              has-add_bits n i c (j + 1) x (insert j' s),
              has-insert x j' s,
              ap (test_bit c) at_j,
            ))
      | inr e ↦
          rw (e, add_bits) (ground (arith, has-add_bits n i c (j + 1) x s, ap (test_bit c) at_j))
    ]

pub has-add_bytes :
    (i : ℕ) (cs : List ℕ) (x : ℕ) (s : List ℕ)
    → (i + length cs) * 8 ≤ 2 ^ 32
    → has x (add_bytes i cs s) ≡ (has x s || (leb (i * 8) x && bit cs (x - i * 8)))
unfolding add_bytes
has-add_bytes i [] x s h = ground (arith, test_bit-zero ((x - i * 8) % 8))
has-add_bytes i (c ∷ cs) x s h = elim (Bool-cases (ltb (x - i * 8) 8)) [
  | inl here ↦
      let first : (x - i * 8) / 8 ≡ 0 = ground arith in
      let low : (x - i * 8) % 8 ≡ x - i * 8 = ground arith in
      rw (first, low)
        (ground (arith, has-add_bytes (i + 1) cs x (add_bits 8 i c 0 s), has-add_bits 8 i c 0 x s))
  | inr later ↦
      let next : (x - i * 8) / 8 ≡ suc ((x - (i + 1) * 8) / 8) = ground arith in
      let low : (x - i * 8) % 8 ≡ (x - (i + 1) * 8) % 8 = ground arith in
      rw (next, low)
        (ground (arith, has-add_bytes (i + 1) cs x (add_bits 8 i c 0 s), has-add_bits 8 i c 0 x s))
]
