-- ===== src/Common/LruCollector/Tests.antt =====
-- common/lru_collector.cc, run: a collector with room for two identifiers.
use distfs.Base.{get_elem?, ℕ, ◌==◌, if◌then◌else◌, List, [], ◌∷◌, none, some, ◌≡◌, refl, arith}
use distfs.Common.LruCollector.{LruCollector, new, update, remove, ids}
use distfs.Common.LruCollector.Laws.{IsValid}
use distfs.Common.LruCollector.Update.{update-used}
use distfs.Common.LruCollector.History.{updates, updates-history, new-IsValid, remove-update}

-- The callback writes down what it is called with.
abbrev note : ℕ → List ℕ → List ℕ
note id log = id ∷ log

abbrev two : LruCollector
two = record {
  size = 2;
  queue = record { handle = 1; id = 8 } ∷ record { handle = 0; id = 7 } ∷ [];
  iterators = λ k. if k == 8 then some 1 else if k == 7 then some 0 else none;
  next_handle = 2;
}

two-IsValid : IsValid two
two-IsValid = record {
  positive = omega arith;
  bounded = omega arith;
  distinct = ground arith;
  indexed = λ k. refl;
}

update-used_example :
    (c' : LruCollector) × (update note 9 two [] ≡ some (c', 7 ∷ []))
    × IsValid c'
    × (ids c' ≡ 9 ∷ 8 ∷ [])
    × (c'.size ≡ 2)
update-used_example = update-used note 9 two [] two-IsValid

updates-history_example :
    (c' : LruCollector) × (s' : List ℕ) × (updates note (9 ∷ 8 ∷ 7 ∷ []) two [] ≡ some (c', s'))
    × IsValid c'
    × (ids c' ≡ 7 ∷ 8 ∷ [])
updates-history_example = updates-history note (9 ∷ 8 ∷ 7 ∷ []) two [] (8 ∷ 7 ∷ []) two-IsValid refl

new-IsValid_example : IsValid (new 2) × (ids (new 2) ≡ [])
new-IsValid_example = new-IsValid 2 (omega arith)

abbrev one : LruCollector
one = record {
  size = 2;
  queue = record { handle = 0; id = 7 } ∷ [];
  iterators = λ k. if k == 7 then some 0 else none;
  next_handle = 1;
}

remove-update_example :
    (c' : LruCollector) × (update note 7 (remove 7 one) [] ≡ some (c', []))
    × (get_elem? (ids c') 0 ≡ some 7)
    × (get_elem? (ids c') 1 ≡ some 7)
    × ¬ IsValid c'
remove-update_example = remove-update note 7 0 one [] (omega arith) refl
