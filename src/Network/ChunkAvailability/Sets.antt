-- ===== src/Network/ChunkAvailability/Sets.antt =====
-- network/chunk_availability.cc: sets as ascending lists.
use distfs.Base.{
  ℕ, ◌<◌, ◌≤◌, ◌==◌, ltb, true, false, ◌||◌, ◌≡◌, refl, arith, List, [], ◌∷◌, All, ap₂, Bool-cases,
  inl, inr, some,
}
use distfs.Network.ChunkAvailability.{insert, has, greatest}

-- Each element is above the ones before it.
abbrev pub Ascending : List ℕ → Type 0
Ascending [] = Unit
Ascending (x ∷ xs) = All (λ y. x < y) xs × Ascending xs

pub has-insert : (z x : ℕ) (s : List ℕ) → has z (insert x s) ≡ (x == z || has z s)
unfolding insert has
has-insert z x [] = ground arith
has-insert z x (y ∷ ys) = ground (arith, has-insert z x ys)

All-insert : (P : ℕ → Type 0) (x : ℕ) (s : List ℕ) → P x → All P s → All P (insert x s)
unfolding insert
All-insert P x [] p a = (p, tt)
All-insert P x (y ∷ ys) p a = ground (arith, All-insert P x ys p a.1)

All-lt_trans : (x y : ℕ) (s : List ℕ) → x < y → All (λ z. y < z) s → All (λ z. x < z) s
All-lt_trans x y [] h a = tt
All-lt_trans x y (z ∷ s) h a = (omega arith, All-lt_trans x y s h a.1)

pub insert-Ascending : (x : ℕ) (s : List ℕ) → Ascending s → Ascending (insert x s)
unfolding insert
insert-Ascending x [] a = (tt, tt)
insert-Ascending x (y ∷ ys) a = elim (Bool-cases (ltb x y)) [
  | inl below ↦ rw (below, insert) ((ground arith, All-lt_trans x y ys (ground arith) a.0), a)
  | inr above ↦ elim (Bool-cases (x == y)) [
    | inl e ↦ rw (above, insert, e) a
    | inr ne ↦
        rw (above, insert, ne)
          (All-insert (λ z. y < z) x ys (ground arith) a.0, insert-Ascending x ys a.1)
  ]
]

has-above : (x : ℕ) (s : List ℕ) → All (λ y. x < y) s → has x s ≡ false
unfolding has
has-above x [] a = refl
has-above x (y ∷ ys) a = ground (arith, has-above x ys a.1)

has-below : (z x : ℕ) (s : List ℕ) → z < x → All (λ y. x < y) s → has z s ≡ false
has-below z x s h a = has-above z s (All-lt_trans z x s h a)

-- Two ascending lists with the same elements are the same list.
pub Ascending-ext :
    (s t : List ℕ) → Ascending s → Ascending t → ((x : ℕ) → has x s ≡ has x t) → s ≡ t
unfolding has
Ascending-ext [] [] a b h = refl
Ascending-ext [] (y ∷ t) a b h = ground (arith, h y)
Ascending-ext (x ∷ s) [] a b h = ground (arith, h x)
Ascending-ext (x ∷ s) (y ∷ t) a b h =
    let e : x ≡ y =
      ground
        (arith, h x, h y, has-below x y t, has-below y x s, has-above x s a.0, has-above y t b.0) in
    let rest : (z : ℕ) → has z s ≡ has z t =
      λ z. ground (arith, h z, has-above x s a.0, has-above y t b.0) in
    ap₂ ◌∷◌ e (Ascending-ext s t a.1 b.1 rest)

-- The greatest element bounds the others.
pub greatest-some : (x : ℕ) (s : List ℕ) → (m : ℕ) × (greatest (x ∷ s) ≡ some m)
unfolding greatest
greatest-some x [] = (x, refl)
greatest-some x (y ∷ s) = greatest-some y s

pub greatest-le : (s : List ℕ) (m : ℕ) → Ascending s → greatest s ≡ some m → All (λ y. y ≤ m) s
unfolding greatest
greatest-le [] m a e = tt
greatest-le (x ∷ []) m a e = (ground arith, tt)
greatest-le (x ∷ y ∷ s) m a e =
    let below = greatest-le (y ∷ s) m a.1 e in (omega (arith, a.0, below), below)

pub has-greatest : (s : List ℕ) (m : ℕ) → greatest s ≡ some m → has m s ≡ true
unfolding greatest has
has-greatest [] m e = cc
has-greatest (x ∷ []) m e = ground arith
has-greatest (x ∷ y ∷ s) m e = ground (arith, has-greatest (y ∷ s) m e)
