-- ===== src/Network/ChunkAvailability/Encode.antt =====
-- network/chunk_availability.cc: what `bitmask` writes, and how it is read back.
use native.Mathlib.Decide.{ℕ_discrete}
use distfs.Base.{
  ℕ, ◌+◌, ◌-◌, ◌*◌, ◌/◌, ◌%◌, ◌^◌, ◌<◌, ◌≤◌, ◌==◌, true, false, ◌||◌, ◌≡◌, refl, arith, List, [],
  ◌∷◌, All, ◌≢◌, ◌↔◌, Option, none, some, length, get_or, set, ◌∙◌, All-set, All-get_or,
  All-replicate, get_or-set, replicate, length-set, length-replicate, lt→ltb,
}
use distfs.Network.ChunkAvailability.{
  ChunkAvailability, has, or_bit, add_bytes, of_bitmask, write_bits, bitmask, greatest,
}
use distfs.Network.ChunkAvailability.Bits.{test_bit-zero, test_bit-or_bit, or_bit-lt}
use distfs.Network.ChunkAvailability.Sets.{Ascending, Ascending-ext, greatest-le, has-greatest}
use distfs.Network.ChunkAvailability.Decode.{bit, has-add_bytes, add_bytes-Ascending}

abbrev pub AreBytes : List ℕ → Type 0
AreBytes = All (λ c. c < 256)

-- `str[a / 8] |= 1 << (a % 8)`.
abbrev write_bit : ℕ → List ℕ → List ℕ
write_bit a str = set str (a / 8) (or_bit (get_or str (a / 8) 0) (a % 8))

bit-write_bit :
    (a x : ℕ) (str : List ℕ)
    → AreBytes str
    → a / 8 < length str
    → bit (write_bit a str) x ≡ (a == x || bit str x)
bit-write_bit a x str b h =
    let c = get_or str (a / 8) 0 in
    let byte : c < 256 = All-get_or (λ c. c < 256) str (a / 8) 0 b (omega arith) in
    ground (
      arith,
      get_or-set str (a / 8) (x / 8) (or_bit c (a % 8)) 0 h,
      test_bit-or_bit c (a % 8) (x % 8) byte (omega arith) (omega arith),
    )

write_bit-AreBytes : (a : ℕ) (str : List ℕ) → AreBytes str → AreBytes (write_bit a str)
write_bit-AreBytes a str b = All-set (λ c. c < 256) str (a / 8) _ b (or_bit-lt _ _)

-- With room for every element, the loop sets the elements' bits and no others.
write_bits-bit :
    (xs str : List ℕ)
    → AreBytes str
    → All (λ x. x / 8 < length str) xs
    → (mask : List ℕ) × (write_bits xs str ≡ some mask)
      × (length mask ≡ length str)
      × ((x : ℕ) → bit mask x ≡ (has x xs || bit str x))
unfolding write_bits has
write_bits-bit [] str b room = (str, refl, refl, λ x. refl)
write_bits-bit (a ∷ xs) str b room =
    let str' = write_bit a str in
    let len = length-set str (a / 8) (or_bit (get_or str (a / 8) 0) (a % 8)) in
    let room' : All (λ x. x / 8 < length str') xs = rw len (room.1) in
    let (mask, done, len', bits) = write_bits-bit xs str' (write_bit-AreBytes a str b) room' in
    (
      mask,
      rw (lt→ltb _ _ room.0) done,
      len' ∙ len,
      λ x. ground (arith, bits x, bit-write_bit a x str b room.0),
    )

-- An element past the end of the string is written all the same, which is undefined.
write_bits-none :
    (m : ℕ) (xs str : List ℕ) → has m xs ≡ true → length str ≤ m / 8 → write_bits xs str ≡ none
unfolding write_bits has
write_bits-none m [] str h past = cc
write_bits-none m (a ∷ xs) str h past =
    let str' = write_bit a str in
    let len = length-set str (a / 8) (or_bit (get_or str (a / 8) 0) (a % 8)) in
    ground (arith, write_bits-none m xs str')

abbrev IsZero : ℕ → Type 0
IsZero c = c ≡ 0

-- A fresh mask has no bit set.
bit-replicate : (n x : ℕ) → bit (replicate n 0) x ≡ false
bit-replicate n x =
    let zero_byte =
      All-get_or IsZero (replicate n 0) (x / 8) 0 (All-replicate IsZero n 0 refl) refl in
    rw zero_byte (test_bit-zero (x % 8) (omega arith))

All-room : (m n : ℕ) (s : List ℕ) → m / 8 < n → All (λ y. y ≤ m) s → All (λ y. y / 8 < n) s
All-room m n [] h a = tt
All-room m n (y ∷ s) h a = (omega arith, All-room m n s h a.1)

-- Reading a mask back gives the ascending list of its bits.
read_back :
    (s mask : List ℕ)
    → Ascending s
    → length mask * 8 ≤ 2 ^ 32
    → ((x : ℕ) → bit mask x ≡ has x s)
    → add_bytes 0 mask [] ≡ s
unfolding has
read_back s mask a fits bits =
    Ascending-ext (add_bytes 0 mask []) s (add_bytes-Ascending 0 mask [] tt) a
      λ x. ground (arith, has-add_bytes 0 mask x [], bits x)

-- Where the greatest chunk is not a multiple of 8, the mask is well defined.
bitmask-some :
    (a : ChunkAvailability) (m : ℕ)
    → Ascending a.chunks
    → greatest a.chunks ≡ some m
    → m % 8 ≢ 0
    → (mask : List ℕ) × (bitmask a ≡ some mask)
      × (length mask ≡ m / 8 + m % 8)
      × ((x : ℕ) → bit mask x ≡ has x a.chunks)
unfolding bitmask
bitmask-some a m asc top rest =
    let n = m / 8 + m % 8 in
    let len = length-replicate n 0 in
    let below = greatest-le a.chunks m asc top in
    let room = All-room m (length (replicate n 0)) a.chunks (omega (arith, len)) below in
    let (mask, done, len', bits) =
      write_bits-bit a.chunks (replicate n 0) (All-replicate (λ c. c < 256) n 0 (omega arith))
        room in
    (mask, rw (top, bitmask) done, len' ∙ len, λ x. ground (arith, bits x, bit-replicate n x))

-- If the greatest chunk of a set is not a multiple of 8, the mask of the set is well defined, and
-- the constructor from a mask gives the same set back. (The greatest chunk is below 2 ^ 32 - 64, so
-- that the positions of the mask's bits are all of 32 bits.)
pub of_bitmask-bitmask :
    (a : ChunkAvailability) (m : ℕ)
    → Ascending a.chunks
    → greatest a.chunks ≡ some m
    → m % 8 ≢ 0
    → m < 2 ^ 32 - 64
    → (mask : List ℕ) × (bitmask a ≡ some mask) × (of_bitmask mask ≡ a)
unfolding of_bitmask
of_bitmask-bitmask a m asc top rest small =
    let (mask, done, len, bits) = bitmask-some a m asc top rest in
    let same = read_back a.chunks mask asc (omega arith) bits in
    (mask, done, λ i. record { chunks = same i })

bitmask-multiple :
    (a : ChunkAvailability) (m : ℕ) → greatest a.chunks ≡ some m → m % 8 ≡ 0 → bitmask a ≡ none
unfolding bitmask
bitmask-multiple a m top whole =
    let n = m / 8 + m % 8 in
    let past : length (replicate {A = ℕ} n 0) ≤ m / 8 =
      omega (arith, length-replicate {A = ℕ} n 0) in
    rw (top, bitmask)
      (write_bits-none m a.chunks (replicate n 0) (has-greatest a.chunks m top) past)

bitmask_undefined :
    (a : ChunkAvailability) (g : Option ℕ)
    → Ascending a.chunks
    → greatest a.chunks ≡ g
    → bitmask a ≡ none
    → (m : ℕ) × (greatest a.chunks ≡ some m) × (m % 8 ≡ 0)
unfolding bitmask
bitmask_undefined a none asc top h = absurd (cc (rw (top, bitmask) at h))
bitmask_undefined a (some m) asc top h = elim (ℕ_discrete (m % 8) 0) [
  | yes whole ↦ (m, top, whole)
  | no rest ↦ let (mask, done, _, _) = bitmask-some a m asc top rest in cc
]

-- The mask of a non-empty set whose greatest chunk is a multiple of 8 is written past its end: the
-- behaviour of `bitmask` is undefined for exactly those sets.
pub bitmask-none_iff :
    (a : ChunkAvailability)
    → Ascending a.chunks
    → (bitmask a ≡ none) ↔ ((m : ℕ) × (greatest a.chunks ≡ some m) × (m % 8 ≡ 0))
bitmask-none_iff a asc = (
  bitmask_undefined a (greatest a.chunks) asc refl,
  λ (m, top, whole). bitmask-multiple a m top whole,
)
