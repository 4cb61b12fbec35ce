-- ===== src/Common/LruCollector/Laws.antt =====
-- common/lru_collector.cc: what a sound collector is, and what `update` does to one.
use distfs.Base.{
  ℕ, ◌+◌, ◌≤◌, ◌<◌, ◌==◌, if◌then◌else◌, List, [], ◌∷◌, Option, none, some, length, map, All, ◌≡◌,
  ◌≢◌, refl, arith, inl, inr, Bool-cases,
}
use distfs.Common.LruCollector.{Node, LruCollector, erase_node}

-- The node of an identifier that is nearest the front.
abbrev pub find : ℕ → List Node → Option ℕ
find k [] = none
find k (n ∷ ns) = if k == n.id then some n.handle else find k ns

-- No identifier and no handle stands twice, and every handle has been given out.
abbrev pub Distinct : ℕ → List Node → Type 0
Distinct bound [] = Unit
Distinct bound (n ∷ ns) =
    (n.handle < bound) × All (λ m. (m.id ≢ n.id) × (m.handle ≢ n.handle)) ns × Distinct bound ns

pub record IsValid (c : LruCollector) : Type 0 where
  pub positive : 0 < c.size
  pub bounded : length c.queue ≤ c.size
  pub distinct : Distinct c.next_handle c.queue
  pub indexed : (k : ℕ) → c.iterators k ≡ find k c.queue

-- A sequence of identifiers with the first occurrence of one taken out.
abbrev pub without : ℕ → List ℕ → List ℕ
without k [] = []
without k (x ∷ xs) = if x == k then xs else x ∷ without k xs

abbrev pub node_ids : List Node → List ℕ
node_ids = map (λ n. n.id)

pub find_absent :
    (k : ℕ) (ns : List Node) (h : ℕ) → All (λ m. (m.id ≢ k) × (m.handle ≢ h)) ns → find k ns ≡ none
find_absent k [] h a = refl
find_absent k (n ∷ ns) h a = ground (arith, find_absent k ns h a.1)

pub without_absent :
    (k : ℕ) (ns : List Node) (h : ℕ)
    → All (λ m. (m.id ≢ k) × (m.handle ≢ h)) ns
    → without k (node_ids ns) ≡ node_ids ns
without_absent k [] h a = refl
without_absent k (n ∷ ns) h a = ground (arith, without_absent k ns h a.1)

pub find_other :
    (k : ℕ) (ns : List Node) (i h : ℕ)
    → All (λ m. (m.id ≢ i) × (m.handle ≢ h)) ns
    → find k ns ≢ some h
find_other k [] i h a e = cc
find_other k (n ∷ ns) i h a e = ground (arith, find_other k ns i h a.1)

pub All-erase_node :
    (P : Node → Type 0) (h : ℕ) (ns : List Node) → All P ns → All P (erase_node h ns)
unfolding erase_node
All-erase_node P h [] a = tt
All-erase_node P h (n ∷ ns) a = elim (Bool-cases (n.handle == h)) [
  | inl e ↦ rw (e, erase_node) (a.1)
  | inr e ↦ rw (e, erase_node) (a.0, All-erase_node P h ns a.1)
]

pub Distinct-erase_node : (b h : ℕ) (ns : List Node) → Distinct b ns → Distinct b (erase_node h ns)
unfolding erase_node
Distinct-erase_node b h [] d = tt
Distinct-erase_node b h (n ∷ ns) d = elim (Bool-cases (n.handle == h)) [
  | inl e ↦ rw (e, erase_node) (d.2)
  | inr e ↦ rw (e, erase_node) (d.0, All-erase_node _ h ns d.1, Distinct-erase_node b h ns d.2)
]

module _ (b k h : ℕ) where
  -- Erasing the node of `k` takes `k` out of the queue, and moves nothing else.
  pub erase_node-without :
      (ns : List Node)
      → Distinct b ns
      → find k ns ≡ some h
      → node_ids (erase_node h ns) ≡ without k (node_ids ns)
  unfolding erase_node
  erase_node-without [] d e = cc
  erase_node-without (n ∷ ns) d e = ground (
    arith,
    without_absent n.id ns n.handle d.1,
    find_other k ns n.id n.handle d.1,
    erase_node-without ns d.2,
  )

  pub length-erase_node :
      (ns : List Node)
      → Distinct b ns
      → find k ns ≡ some h
      → length (erase_node h ns) + 1 ≡ length ns
  unfolding erase_node
  length-erase_node [] d e = cc
  length-erase_node (n ∷ ns) d e =
      ground (arith, find_other k ns n.id n.handle d.1, length-erase_node ns d.2)

  pub find-erase_node :
      (j : ℕ) (ns : List Node)
      → Distinct b ns
      → find k ns ≡ some h
      → find j (erase_node h ns) ≡ (if j == k then none else find j ns)
  unfolding erase_node
  find-erase_node j [] d e = cc
  find-erase_node j (n ∷ ns) d e = ground (
    arith,
    find_absent n.id ns n.handle d.1,
    find_other k ns n.id n.handle d.1,
    find-erase_node j ns d.2,
  )
