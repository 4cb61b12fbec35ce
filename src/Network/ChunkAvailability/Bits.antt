-- ===== src/Network/ChunkAvailability/Bits.antt =====
-- network/chunk_availability.cc: the bits of a byte, checked over all bytes.
use distfs.Base.{
  ℕ, zero, suc, ◌<◌, ◌==◌, Bool, true, false, ◌||◌, ◌≡◌, refl, arith, if◌then◌else◌, Bool-cases,
  inl, inr,
}
use distfs.Network.ChunkAvailability.{test_bit, or_bit}

-- A test passed by each of the numbers from `n - 1` down to 0.
passed : (ℕ → Bool) → ℕ → Bool
passed p zero = true
passed p (suc n) = if p n then passed p n else false

passed_at : (p : ℕ → Bool) (x n : ℕ) → x < n → passed p n ≡ true → p x ≡ true
unfolding passed
passed_at p x zero small h = absurd (omega arith)
passed_at p x (suc n) small h = elim (Bool-cases (x == n)) [
  | inl last ↦ ground arith
  | inr before ↦ passed_at p x n (ground arith) (ground arith)
]

abbrev same : Bool → Bool → Bool
same true b = b
same false b = if b then false else true

same_eq : (a b : Bool) → same a b ≡ true → a ≡ b
same_eq true b h = ground arith
same_eq false b h = ground arith

or_test : ℕ → ℕ → ℕ → Bool
or_test c j k = same (test_bit (or_bit c j) k) (j == k || test_bit c k)

or_table : passed (λ c. passed (λ j. passed (or_test c j) 8) 8) 256 ≡ true
unfolding passed or_test test_bit or_bit
or_table = refl

-- Setting bit `j` of a byte sets that bit and no other.
pub test_bit-or_bit :
    (c j k : ℕ) → c < 256 → j < 8 → k < 8 → test_bit (or_bit c j) k ≡ (j == k || test_bit c k)
test_bit-or_bit c j k hc hj hk =
    let at_c = passed_at (λ b. passed (λ i. passed (or_test b i) 8) 8) c 256 hc or_table in
    let at_j = passed_at (λ i. passed (or_test c i) 8) j 8 hj at_c in
    same_eq _ _ (unfold or_test in passed_at (or_test c j) k 8 hk at_j)

pub or_bit-lt : (c j : ℕ) → or_bit c j < 256
unfolding or_bit
or_bit-lt c j = omega arith

zero_test : ℕ → Bool
zero_test k = same (test_bit 0 k) false

zero_table : passed zero_test 8 ≡ true
unfolding passed zero_test test_bit
zero_table = refl

pub test_bit-zero : (k : ℕ) → k < 8 → test_bit 0 k ≡ false
unfolding zero_test
test_bit-zero k h = same_eq _ _ (passed_at zero_test k 8 h zero_table)
