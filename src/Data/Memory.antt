-- ===== src/Data/Memory.antt =====
-- `memcpy` into a buffer of data/chunk_builder.cc and data/chunk_provider.cc, and the places of a
-- chunk.
use distfs.Base.{
  ℕ, zero, suc, ◌+◌, ◌-◌, ◌*◌, ◌/◌, ◌%◌, ◌<◌, ◌≤◌, ltb, leb, ◌&&◌, if◌then◌else◌, List, [], ◌∷◌,
  ◌++◌, Option, none, some, length, take, drop, get_elem?, ◌≡◌, refl, arith, length-append,
  length-take, length-drop, ap, ◌∙◌,
}
use native.Mathlib.Nat.{div-add-mod, div-lt_iff_lt-mul, div-zero, mul-add-div_right, div-eq_of_lt}

-- `memcpy(buf + i, xs, …)`, for all of `xs`.
unfoldable pub overwrite : ℕ → List ℕ → List ℕ → List ℕ
overwrite i xs buf = take i buf ++ (xs ++ drop (i + length xs) buf)

-- A byte of a chunk that may not be there.
abbrev pub chunk_byte : Option (List ℕ) → ℕ → Option ℕ
chunk_byte none i = none
chunk_byte (some bs) i = get_elem? bs i

pub get_elem?-append :
    (xs ys : List ℕ) (i : ℕ)
    → get_elem? (xs ++ ys) i
      ≡ (if ltb i (length xs) then get_elem? xs i else get_elem? ys (i - length xs))
get_elem?-append [] ys i = let e : i - 0 ≡ i = omega arith in rw e (ground arith)
get_elem?-append (x ∷ xs) ys zero = ground arith
get_elem?-append (x ∷ xs) ys (suc i) = ground (arith, get_elem?-append xs ys i)

pub get_elem?-take : (n i : ℕ) (xs : List ℕ) → i < n → get_elem? (take n xs) i ≡ get_elem? xs i
get_elem?-take zero i xs h = absurd (omega arith)
get_elem?-take (suc n) i [] h = refl
get_elem?-take (suc n) zero (x ∷ xs) h = refl
get_elem?-take (suc n) (suc i) (x ∷ xs) h = get_elem?-take n i xs (omega arith)

pub get_elem?-drop : (n i : ℕ) (xs : List ℕ) → get_elem? (drop n xs) i ≡ get_elem? xs (n + i)
get_elem?-drop zero i xs = let e : 0 + i ≡ i = omega arith in rw e
get_elem?-drop (suc n) i [] = refl
get_elem?-drop (suc n) i (x ∷ xs) =
    let e : suc n + i ≡ suc (n + i) = omega arith in rw e (get_elem?-drop n i xs)

pub length-overwrite :
    (i : ℕ) (xs buf : List ℕ)
    → i + length xs ≤ length buf
    → length (overwrite i xs buf) ≡ length buf
unfolding overwrite
length-overwrite i xs buf h = omega (
  arith,
  length-append (take i buf) (xs ++ drop (i + length xs) buf),
  length-append xs (drop (i + length xs) buf),
  length-take i buf,
  length-drop (i + length xs) buf,
)

-- The bytes copied stand at their place, and all others where they were.
pub get_elem?-overwrite :
    (i j : ℕ) (xs buf : List ℕ)
    → i + length xs ≤ length buf
    → get_elem? (overwrite i xs buf) j
      ≡ (if leb i j && ltb j (i + length xs) then get_elem? xs (j - i) else get_elem? buf j)
unfolding overwrite
get_elem?-overwrite i j xs buf h = ground (
  arith,
  get_elem?-append (take i buf) (xs ++ drop (i + length xs) buf) j,
  get_elem?-append xs (drop (i + length xs) buf) (j - length (take i buf)),
  get_elem?-take i j buf,
  get_elem?-drop (i + length xs) (j - length (take i buf) - length xs) buf,
  length-take i buf,
)

-- Where a run of bytes within one chunk lies.
pub same_chunk : (c p n a : ℕ) → 0 < c → p % c + n ≤ c → p ≤ a → a < p + n → a / c ≡ p / c
same_chunk c p n a h fits lo hi = grind (arith, div-add-mod p c, div-add-mod a c)

pub chunk_place : (c p a : ℕ) → a / c ≡ p / c → a + p % c ≡ p + a % c
chunk_place c p a e = omega (arith, div-add-mod p c, div-add-mod a c, ap (λ (q : ℕ). c * q) e)

pub get_elem?_within : (i : ℕ) (xs : List ℕ) → i < length xs → (v : ℕ) × (get_elem? xs i ≡ some v)
get_elem?_within i [] h = absurd (omega arith)
get_elem?_within zero (x ∷ xs) h = (x, refl)
get_elem?_within (suc i) (x ∷ xs) h = get_elem?_within i xs (omega arith)

pub div-lt_mono : (a b c k : ℕ) → a ≤ b → b / c < k → a / c < k
div-lt_mono a b zero k h lt = rw div-zero (rw div-zero at lt)
div-lt_mono a b (suc c) k h lt =
    let positive : 0 < suc c = omega arith in
    let below = (div-lt_iff_lt-mul positive).0 lt in (div-lt_iff_lt-mul positive).1 (omega arith)

-- The bytes of chunk `id` stand in a run of chunks from `id * c` on.
pub chunk_start : (c id j : ℕ) → j < c → ((id * c + j) / c ≡ id) × ((id * c + j) % c ≡ j)
chunk_start c id j h =
    let q : (id * c + j) / c ≡ id =
      mul-add-div_right {m = c} (omega arith) id j ∙ rw (div-eq_of_lt h) (omega arith) in
    let whole = div-add-mod (id * c + j) c in (q, omega (arith, whole, ap (λ (x : ℕ). c * x) q))
