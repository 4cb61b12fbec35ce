-- ===== src/Common/OrderedSet/Tests.antt =====
-- common/ordered_set.cc, run: a set of at most two numbers, in place of strings.
use native.Mathlib.Decide.{ℕ_discrete}
use distfs.Base.{ℕ, [], ◌∷◌, refl, arith}
use distfs.Common.OrderedSet.{OrderedSet, contains}
use distfs.Common.OrderedSet.Laws.{IsValid, Pushes, push-newest, Pops, pop-oldest}

abbrev pair : OrderedSet ℕ
pair = record {
  contents = 4 ∷ 5 ∷ [];
  iterators = 4 ∷ 5 ∷ [];
  max_size = 2;
  hash_policy = λ n k. n;
  buckets = 13;
  stale = 0;
}

pair-IsValid : IsValid ℕ_discrete pair
pair-IsValid = record {
  mirrored = refl;
  distinct = unfold contains ℕ_discrete in (refl, (refl, tt));
  bounded = omega arith;
}

push-newest_example : Pushes ℕ_discrete 6 pair
push-newest_example = push-newest ℕ_discrete 6 pair pair-IsValid

pop-oldest_example : Pops ℕ_discrete pair
pop-oldest_example = pop-oldest ℕ_discrete pair pair-IsValid
