-- ===== src/Data/ChunkStore/Sets.antt =====
-- data/chunk_store.cc: the set of chunks in a store, and the collector's queue, as lists.
use distfs.Base.{
  subst, ◌≢◌, ℕ, zero, suc, ◌≤◌, ◌<◌, ◌==◌, if◌then◌else◌, true, false, List, [], ◌∷◌, some, length,
  take, get_elem?, ◌≡◌, refl, ◌∙◌, arith, inl, inr, Bool-cases, All, ◌⊎◌,
}
use distfs.Common.LruCollector.Laws.{without}
use distfs.Common.LruCollector.Update.{used}
use distfs.Data.ChunkStore.{discard}
use distfs.Network.ChunkAvailability.{has}
use distfs.Network.ChunkAvailability.Sets.{Ascending}

pub All-discard : (P : ℕ → Type 0) (id : ℕ) (ks : List ℕ) → All P ks → All P (discard id ks)
unfolding discard
All-discard P id [] h = h
All-discard P id (k ∷ ks) h = elim (Bool-cases (k == id)) [
  | inl here ↦ rw here h.1
  | inr there ↦ rw there (h.0, All-discard P id ks h.1)
]

pub discard-Ascending : (id : ℕ) (ks : List ℕ) → Ascending ks → Ascending (discard id ks)
unfolding discard
discard-Ascending id [] a = a
discard-Ascending id (k ∷ ks) a = elim (Bool-cases (k == id)) [
  | inl here ↦ rw here a.1
  | inr there ↦ rw there (All-discard _ id ks a.0, discard-Ascending id ks a.1)
]

pub has-All : (k : ℕ) (P : ℕ → Type 0) (ks : List ℕ) → All P ks → has k ks ≡ true → P k
unfolding has
has-All k P [] h e = absurd cc
has-All k P (x ∷ ks) h e = elim (Bool-cases (x == k)) [
  | inl here ↦ let same : x ≡ k = ground arith in subst P same h.0
  | inr there ↦ has-All k P ks h.1 (rw there at e)
]

pub has-discard :
    (k id : ℕ) (ks : List ℕ)
    → Ascending ks
    → has k (discard id ks) ≡ (if k == id then false else has k ks)
unfolding has discard
has-discard k id [] a = ground arith
has-discard k id (x ∷ ks) a = elim (Bool-cases (x == id)) [
  | inl here ↦ elim (Bool-cases (has k ks)) [
    | inl later ↦ let above : x < k = has-All k (λ y. x < y) ks a.0 later in ground arith
    | inr out ↦ ground arith
  ]
  | inr there ↦ ground (arith, has-discard k id ks a.1)
]

-- A list in order is no longer than a list that has all of it.
pub length-without-le : (k : ℕ) (ks : List ℕ) → has k ks ≡ true → length (without k ks) < length ks
unfolding has
length-without-le k [] h = absurd cc
length-without-le k (x ∷ ks) h = elim (Bool-cases (x == k)) [
  | inl here ↦ rw here (omega arith)
  | inr there ↦ rw there (let later = length-without-le k ks (rw there at h) in omega arith)
]

pub has-without : (j k : ℕ) (ks : List ℕ) → j ≢ k → has j (without k ks) ≡ has j ks
unfolding has
has-without j k [] h = refl
has-without j k (x ∷ ks) h = ground (arith, has-without j k ks h)

pub length-within :
    (xs ys : List ℕ)
    → Ascending xs
    → ((k : ℕ) → has k xs ≡ true → has k ys ≡ true)
    → length xs ≤ length ys
unfolding has
length-within [] ys a within = omega arith
length-within (x ∷ xs) ys a within =
    let here : has x ys ≡ true = within x (ground arith) in
    let rest : length xs ≤ length (without x ys) = length-within xs (without x ys) a.1 (λ k at.
      let above : x < k = has-All k (λ y. x < y) xs a.0 at in
      has-without k x ys (omega arith) ∙ within k (ground arith)) in
    omega (arith, rest, length-without-le x ys here)

-- An element is among the first `n`, or the one after them.
pub has-take :
    (k n : ℕ) (xs : List ℕ)
    → length xs ≤ suc n
    → has k xs ≡ true
    → (has k (take n xs) ≡ true) ⊎ (get_elem? xs n ≡ some k)
unfolding has
has-take k n [] le h = absurd cc
has-take k zero (x ∷ []) le h = inr (ground arith)
has-take k zero (x ∷ y ∷ xs) le h = absurd (omega arith)
has-take k (suc n) (x ∷ xs) le h = elim (Bool-cases (x == k)) [
  | inl here ↦ inl (rw here refl)
  | inr there ↦ rw there (has-take k n xs (omega arith) (rw there at h))
]

pub length-without : (k : ℕ) (ks : List ℕ) → length (without k ks) ≤ length ks
length-without k [] = omega arith
length-without k (x ∷ ks) = elim (Bool-cases (x == k)) [
  | inl here ↦ rw here (omega arith)
  | inr there ↦ rw there (let later = length-without k ks in omega arith)
]

pub has-first : (k n : ℕ) (ks : List ℕ) → 0 < n → has k (take n (k ∷ ks)) ≡ true
unfolding has
has-first k zero ks h = absurd (omega arith)
has-first k (suc n) ks h = ground arith

-- Using an identifier forgets none.
pub has-used : (k id : ℕ) (ks : List ℕ) → has k ks ≡ true → has k (used id ks) ≡ true
unfolding has
has-used k id ks h = elim (Bool-cases (id == k)) [
  | inl same ↦ rw same refl
  | inr other ↦ let ne : k ≢ id = ground arith in rw other (has-without k id ks ne ∙ h)
]
