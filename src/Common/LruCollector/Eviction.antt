-- ===== src/Common/LruCollector/Eviction.antt =====
-- common/lru_collector.cc: what erasing the last node does to the queue.
use distfs.Base.{
  ℕ, suc, ◌==◌, if◌then◌else◌, List, [], ◌∷◌, none, some, length, get_elem?, take, All, ◌≡◌, ◌≢◌,
  refl, ap, arith,
}
use distfs.Common.LruCollector.{Node, back, pop_back}
use distfs.Common.LruCollector.Laws.{find, Distinct, node_ids}

pub back-some : (n : Node) (ns : List Node) → (l : Node) × (back (n ∷ ns) ≡ some l)
unfolding back
back-some n [] = (n, refl)
back-some n (m ∷ ns) = back-some m ns

pub All-back : (P : Node → Type 0) (ns : List Node) (l : Node) → back ns ≡ some l → All P ns → P l
unfolding back
All-back P [] l e a = cc
All-back P (n ∷ []) l e a = ground (arith)
All-back P (n ∷ m ∷ ns) l e a = All-back P (m ∷ ns) l e a.1

pub All-pop_back : (P : Node → Type 0) (ns : List Node) → All P ns → All P (pop_back ns)
unfolding pop_back
All-pop_back P [] a = tt
All-pop_back P (n ∷ []) a = tt
All-pop_back P (n ∷ m ∷ ns) a = (a.0, All-pop_back P (m ∷ ns) a.1)

pub Distinct-pop_back : (b : ℕ) (ns : List Node) → Distinct b ns → Distinct b (pop_back ns)
unfolding pop_back
Distinct-pop_back b [] d = tt
Distinct-pop_back b (n ∷ []) d = tt
Distinct-pop_back b (n ∷ m ∷ ns) d =
    (d.0, All-pop_back _ (m ∷ ns) d.1, Distinct-pop_back b (m ∷ ns) d.2)

pub length-pop_back : (n : Node) (ns : List Node) → length (pop_back (n ∷ ns)) ≡ length ns
unfolding pop_back
length-pop_back n [] = refl
length-pop_back n (m ∷ ns) = ap suc (length-pop_back m ns)

pub ids-pop_back :
    (n : Node) (ns : List Node)
    → node_ids (pop_back (n ∷ ns)) ≡ take (length ns) (node_ids (n ∷ ns))
unfolding pop_back
ids-pop_back n [] = refl
ids-pop_back n (m ∷ ns) = ap (◌∷◌ n.id) (ids-pop_back m ns)

pub find-pop_back :
    (b j : ℕ) (ns : List Node) (l : Node)
    → Distinct b ns
    → back ns ≡ some l
    → find j (pop_back ns) ≡ (if j == l.id then none else find j ns)
unfolding back pop_back
find-pop_back b j [] l d e = cc
find-pop_back b j (n ∷ []) l d e = ground arith
find-pop_back b j (n ∷ m ∷ ns) l d e = ground (
  arith,
  All-back (λ k. (k.id ≢ n.id) × (k.handle ≢ n.handle)) (m ∷ ns) l e d.1,
  find-pop_back b j (m ∷ ns) l d.2 e,
)

-- The last node, as the identifier that the shortened queue lacks.
pub back-get_elem? :
    (n : Node) (ns : List Node) (l : Node)
    → back (n ∷ ns) ≡ some l
    → get_elem? (node_ids (n ∷ ns)) (length ns) ≡ some l.id
unfolding back
back-get_elem? n [] l e = ground arith
back-get_elem? n (m ∷ ns) l e = back-get_elem? m ns l e

pub Distinct-suc : (b : ℕ) (ns : List Node) → Distinct b ns → Distinct (suc b) ns
Distinct-suc b [] d = tt
Distinct-suc b (n ∷ ns) d = (omega arith, d.1, Distinct-suc b ns d.2)

-- A node that is new beside a queue: no node there has its identifier or its handle.
pub All-fresh :
    (b k : ℕ) (ns : List Node)
    → Distinct b ns
    → find k ns ≡ none
    → All (λ m. (m.id ≢ k) × (m.handle ≢ b)) ns
All-fresh b k [] d e = tt
All-fresh b k (n ∷ ns) d e = ((ground arith, ground arith), All-fresh b k ns d.2 (ground arith))
