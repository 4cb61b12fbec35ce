-- ===== src/Common/LruCollector.antt =====
-- common/lru_collector.h and common/lru_collector.cc.
-- `std::list` is a list of nodes, front first. A node has a handle, which is what an iterator to it
-- is; handles are given out in order and never again, so an iterator to an erased node finds none.
-- `std::map` is a function. The mutex is held for the whole of both methods, so each is one step.
-- `remover` is the callback; `S` is whatever it changes.
pub mod Laws
pub mod Eviction
pub mod Update
pub mod History
mod Tests
use distfs.Base.{
  ℕ, zero, suc, ◌+◌, ◌==◌, leb, if◌then◌else◌, Bool, true, false, List, [], ◌∷◌, Option, none, some,
  length, map,
}

pub record Node : Type 0 where
  pub handle : ℕ
  pub id : ℕ

pub record LruCollector : Type 0 where
  pub size : ℕ
  pub queue : List Node
  pub iterators : ℕ → Option ℕ
  pub next_handle : ℕ

-- `iterators[id] = …` and `iterators.erase(id)`.
abbrev pub put : (ℕ → Option ℕ) → ℕ → Option ℕ → ℕ → Option ℕ
put f id v k = if k == id then v else f k

unfoldable pub new : ℕ → LruCollector
new size = record { size = size; queue = []; iterators = λ _. none; next_handle = 0 }

-- `queue.erase(it)`.
pub erase_node : ℕ → List Node → List Node
erase_node h [] = []
erase_node h (n ∷ ns) = if n.handle == h then ns else n ∷ erase_node h ns

-- `queue.back()`, undefined on an empty list.
pub back : List Node → Option Node
back [] = none
back (n ∷ []) = some n
back (n ∷ m ∷ ns) = back (m ∷ ns)

-- `queue.pop_back()`.
pub pop_back : List Node → List Node
pop_back [] = []
pop_back (n ∷ []) = []
pop_back (n ∷ m ∷ ns) = n ∷ pop_back (m ∷ ns)

-- `queue.push_front(id); iterators[id] = queue.begin();`
pub push_front : ℕ → LruCollector → LruCollector
push_front id c = record c {
  queue = node ∷ c.queue;
  iterators = put c.iterators id (some c.next_handle);
  next_handle = suc c.next_handle;
}
  where
    node : Node
    node = record { handle = c.next_handle; id = id }

module _ {ℓ} {S : Type ℓ} (remover : ℕ → S → S) where
  -- The body of `if (queue.size() >= size)`. `none` is the undefined `back()` of an empty list.
  pub evict : LruCollector → S → Option (LruCollector × S)
  unfolding back pop_back
  evict c s = elim (back c.queue) [
    | none ↦ none
    | some last ↦ some (
      record c { queue = pop_back c.queue; iterators = put c.iterators last.id none },
      remover last.id s,
    )
  ]

  -- The two branches on `it == iterators.end()`.
  pub make_room : LruCollector → S → Option ℕ → Option (LruCollector × S)
  unfolding evict erase_node
  make_room c s none = if leb c.size (length c.queue) then evict c s else some (c, s)
  make_room c s (some it) = some (record c { queue = erase_node it c.queue }, s)

  pub update : ℕ → LruCollector → S → Option (LruCollector × S)
  unfolding make_room push_front
  update id c s = elim (make_room c s (c.iterators id)) [
    | none ↦ none
    | some (c', s') ↦ some (push_front id c', s')
  ]

pub remove : ℕ → LruCollector → LruCollector
remove id c = record c { iterators = put c.iterators id none }

-- The identifiers in the queue, most recently used first.
abbrev pub ids : LruCollector → List ℕ
ids c = map (λ n. n.id) c.queue
