-- ===== src/Network/DistfsMetadata/Identifier.antt =====
-- network/distfs_metadata.cc: the identifier that the hashes give.
use native.Mathlib.Nat.{mul_assoc, mul_right_comm, add-mul, mod-lt}
use distfs.Base.{
  ℕ, zero, suc, ◌+◌, ◌-◌, ◌*◌, ◌/◌, ◌%◌, ◌^◌, ◌<◌, ◌≤◌, ◌==◌, if◌then◌else◌, true, List, [], ◌∷◌,
  ◌≡◌, refl, ap, sym, ◌∙◌, arith, Bool-cases, inl, inr, subst,
}
use distfs.Network.DistfsMetadata.{multiply, multiply_all}

-- The number of even codes.
abbrev pub evens : List ℕ → ℕ
evens [] = 0
evens (c ∷ s) = (if c % 2 == 0 then 1 else 0) + evens s

abbrev pub evens_all : List (List ℕ) → ℕ
evens_all [] = 0
evens_all (s ∷ hashes) = evens s + evens_all hashes

-- 2 ^ n.
abbrev power : ℕ → ℕ
power zero = 1
power (suc n) = 2 * power n

-- What is missing of a factor 2 ^ 64 is at most 2 ^ n.
abbrev Lacks : ℕ → ℕ → Type 0
Lacks n id = (q : ℕ) × (id * power n ≡ q * 2 ^ 64)

Lacks-wrapped : (n x q : ℕ) → x * power n ≡ q * 2 ^ 64 → Lacks n (x % 2 ^ 64)
Lacks-wrapped n x q h =
    let high = x / 2 ^ 64 * power n in
    let whole : x / 2 ^ 64 * 2 ^ 64 + x % 2 ^ 64 ≡ x = omega arith in
    let parts : high * 2 ^ 64 + x % 2 ^ 64 * power n ≡ x * power n =
      ap (λ y. y + x % 2 ^ 64 * power n) (mul_right_comm (x / 2 ^ 64) (power n) (2 ^ 64))
      ∙ sym (add-mul (x / 2 ^ 64 * 2 ^ 64) (x % 2 ^ 64) (power n))
      ∙ ap (λ y. y * power n) whole in
    (q - high, omega (arith, parts, h))

Lacks-times : (n id c : ℕ) → Lacks n id → Lacks n (id * c % 2 ^ 64)
Lacks-times n id c (q, h) =
    Lacks-wrapped n (id * c) (q * c)
      (mul_right_comm id c (power n) ∙ ap (λ y. y * c) h ∙ mul_right_comm q (2 ^ 64) c)

Lacks-even : (n id c d : ℕ) → c ≡ d * 2 → Lacks (suc n) id → Lacks n (id * c % 2 ^ 64)
Lacks-even n id c d e (q, h) = Lacks-wrapped n (id * c) (q * d) (
    ap (λ y. id * y * power n) e
    ∙ ap (λ y. y * power n) (sym (mul_assoc id d 2))
    ∙ mul_assoc (id * d) 2 (power n)
    ∙ mul_right_comm id d (power (suc n))
    ∙ ap (λ y. y * d) h
    ∙ mul_right_comm q (2 ^ 64) d)

minus_minus : (n a b : ℕ) → n - a - b ≡ n - (a + b)
minus_minus n a b = omega arith

-- An even code brings a factor 2.
Lacks-halved : (n id c : ℕ) → (c % 2 == 0) ≡ true → Lacks n id → Lacks (n - 1) (id * c % 2 ^ 64)
Lacks-halved zero id c even h = Lacks-times zero id c h
Lacks-halved (suc n) id c even h =
    let two : c ≡ c / 2 * 2 = ground arith in
    subst (λ j. Lacks j (id * c % 2 ^ 64)) (omega arith) (Lacks-even n id c (c / 2) two h)

Lacks-step : (n id c : ℕ) → Lacks n id → Lacks (n - (if c % 2 == 0 then 1 else 0)) (id * c % 2 ^ 64)
Lacks-step n id c h = elim (Bool-cases (c % 2 == 0)) [
  | inr odd ↦ rw odd (subst (λ m. Lacks m (id * c % 2 ^ 64)) (omega arith) (Lacks-times n id c h))
  | inl even ↦ rw even (Lacks-halved n id c even h)
]

Lacks-multiply : (s : List ℕ) (n id : ℕ) → Lacks n id → Lacks (n - evens s) (multiply id s)
unfolding multiply
Lacks-multiply [] n id h = subst (λ m. Lacks m id) (omega arith) h
Lacks-multiply (c ∷ s) n id h =
    let e : ℕ = if c % 2 == 0 then 1 else 0 in
    subst (λ m. Lacks m (multiply (id * c % 2 ^ 64) s)) (minus_minus n e (evens s))
      (Lacks-multiply s (n - e) (id * c % 2 ^ 64) (Lacks-step n id c h))

Lacks-multiply_all :
    (hashes : List (List ℕ)) (n id : ℕ)
    → Lacks n id
    → Lacks (n - evens_all hashes) (multiply_all id hashes)
unfolding multiply_all
Lacks-multiply_all [] n id h = subst (λ m. Lacks m id) (omega arith) h
Lacks-multiply_all (s ∷ hashes) n id h =
    subst (λ m. Lacks m (multiply_all (multiply id s) hashes))
      (minus_minus n (evens s) (evens_all hashes))
      (Lacks-multiply_all hashes (n - evens s) (multiply id s) (Lacks-multiply s n id h))

multiply-lt : (s : List ℕ) (id : ℕ) → id < 2 ^ 64 → multiply id s < 2 ^ 64
unfolding multiply
multiply-lt [] id h = h
multiply-lt (c ∷ s) id h = multiply-lt s (id * c % 2 ^ 64) (mod-lt (id * c) (omega arith))

multiply_all-lt : (hashes : List (List ℕ)) (id : ℕ) → id < 2 ^ 64 → multiply_all id hashes < 2 ^ 64
unfolding multiply_all
multiply_all-lt [] id h = h
multiply_all-lt (s ∷ hashes) id h = multiply_all-lt hashes (multiply id s) (multiply-lt s id h)

-- If 64 of the characters of the hashes, or more, have even codes, the identifier of the file system
-- is 0, whatever the rest of the hashes. (A hash has 64 characters, and 8 of the 16 digits have even
-- codes.)
pub multiply_all-zero : (hashes : List (List ℕ)) → 64 ≤ evens_all hashes → multiply_all 1 hashes ≡ 0
multiply_all-zero hashes many =
    let start : Lacks 64 1 = (1, refl) in
    let none_left : 64 - evens_all hashes ≡ 0 = omega arith in
    let (q, h) =
      subst (λ m. Lacks m (multiply_all 1 hashes)) none_left
        (Lacks-multiply_all hashes 64 1 start) in
    let small = multiply_all-lt hashes 1 (omega arith) in omega arith
