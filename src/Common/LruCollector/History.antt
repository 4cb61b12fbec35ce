-- ===== src/Common/LruCollector/History.antt =====
-- common/lru_collector.cc: a history of updates, and `remove`.
use distfs.Base.{
  All, ◌≢◌, map, ℕ, zero, suc, ◌<◌, ◌==◌, List, [], ◌∷◌, Option, none, some, length, take, ◌≡◌,
  refl, ap, arith, take_all, inl, inr, Bool-cases, length-take, get_elem?, sym, ◌∙◌,
}
use distfs.Common.LruCollector.{Node, LruCollector, new, push_front, make_room, update, remove, ids}
use distfs.Common.LruCollector.Laws.{IsValid, without}
use distfs.Common.LruCollector.Update.{used, notify, update-used}

-- A history of uses, oldest first: each use brings its identifier to the front.
abbrev pub history : List ℕ → List ℕ → List ℕ
history h [] = h
history h (id ∷ rest) = history (used id h) rest

take-without-take :
    (n k : ℕ) (h : List ℕ) → take n (without k (take (suc n) h)) ≡ take n (without k h)
take-without-take zero k h = refl
take-without-take (suc n) k [] = refl
take-without-take (suc n) k (x ∷ h) = elim (Bool-cases (x == k)) [
  | inl e ↦ rw e (take_all (suc n) (take (suc n) h) (omega (arith, length-take (suc n) h)))
  | inr e ↦ rw e (ap (◌∷◌ x) (take-without-take n k h))
]

-- To note a use in the first `n` identifiers, those `n` are all that matter.
take-used-take : (n k : ℕ) (h : List ℕ) → take n (used k (take n h)) ≡ take n (used k h)
take-used-take zero k h = refl
take-used-take (suc n) k h = ap (◌∷◌ k) (take-without-take n k h)

module _ {ℓ} {S : Type ℓ} (remover : ℕ → S → S) where
  unfoldable pub updates : List ℕ → LruCollector → S → Option (LruCollector × S)
  updates [] c s = some (c, s)
  updates (id ∷ rest) c s = elim (update remover id c s) [
    | none ↦ none
    | some (c', s') ↦ updates rest c' s'
  ]

  -- Whatever is used, in whatever order, every update succeeds, and the queue of a sound collector
  -- goes on holding the `size` identifiers that were used last, in the order of their last use.
  pub updates-history :
      (requests : List ℕ) (c : LruCollector) (s : S) (h : List ℕ)
      → IsValid c
      → ids c ≡ take c.size h
      → (c' : LruCollector) × (s' : S) × (updates requests c s ≡ some (c', s'))
        × IsValid c'
        × (ids c' ≡ take c.size (history h requests))
  unfolding updates
  updates-history [] c s h v e = (c, s, refl, v, e)
  updates-history (id ∷ rest) c s h v e =
      let (d, done, sound, recent, size) = update-used remover id c s v in
      let recent' : ids d ≡ take d.size (used id h) =
        recent ∙ (rw e (take-used-take c.size id h) ∙ ap (λ n. take n (used id h)) (sym size)) in
      let s2 = notify remover (get_elem? (used id (ids c)) c.size) s in
      let (c', s', ran, v', e') = updates-history rest d s2 (used id h) sound recent' in
      (c', s', rw (done, updates) ran, v', e' ∙ ap (λ n. take n (history (used id h) rest)) size)

-- A new collector with room for something is sound, and holds nothing.
pub new-IsValid : (size : ℕ) → 0 < size → IsValid (new size) × (ids (new size) ≡ [])
unfolding new
new-IsValid size h =
    (record { positive = h; bounded = omega arith; distinct = tt; indexed = λ k. refl }, refl)

absent :
    (id h i : ℕ) (ns : List Node)
    → All (λ m. (m.id ≢ id) × (m.handle ≢ h)) ns
    → get_elem? (map (λ n. n.id) ns) i ≢ some id
absent id h i [] a e = cc
absent id h zero (n ∷ ns) a e = ground (arith, a)
absent id h (suc i) (n ∷ ns) a e = absent id h i ns a.1 e

-- `remove` takes the identifier out of the map and leaves its node in the queue. So the next `update`
-- of that identifier does not find the node: a queue that has the identifier in place `i` and room for
-- one more then has it in front as well as in place `i + 1`, and the collector is no longer sound.
pub remove-update {ℓ} :
    {S : Type ℓ} (remover : ℕ → S → S) (id i : ℕ) (c : LruCollector) (s : S)
    → length c.queue < c.size
    → get_elem? (ids c) i ≡ some id
    → (c' : LruCollector) × (update remover id (remove id c) s ≡ some (c', s))
      × (get_elem? (ids c') 0 ≡ some id)
      × (get_elem? (ids c') (suc i) ≡ some id)
      × ¬ IsValid c'
unfolding remove update make_room push_front
remove-update remover id i c s space queued = (
  push_front id (remove id c),
  ground arith,
  refl,
  queued,
  λ v. absent id c.next_handle i c.queue v.distinct.1 queued,
)
