-- ===== src/Common/OrderedSet.antt =====
-- common/ordered_set.h and common/ordered_set.cc: a set of strings that forgets the oldest ones.
-- An iterator into the hash table is the string it stands for. `contents` is the table `data`; the
-- code never reads its order, and a new string stands last. `iterators` is the queue, oldest first.
-- An insertion that rehashes the table invalidates every iterator made before it, and to use one is
-- undefined: `stale` is how many iterators at the front of the queue are invalid. The library decides
-- when it rehashes: `hash_policy` gives the number of buckets behind an insertion, from the number
-- before it and that of the elements behind it, and a change of that number is a rehash.
pub mod Laws
mod Tests
use mathlib.Core.Logic.{ite}
use distfs.Base.{
  ℕ, zero, suc, ◌+◌, ◌==◌, ltb, if◌then◌else◌, Bool, true, false, List, [], ◌∷◌, ◌++◌, Option, none,
  some, length,
}

pub record OrderedSet {ℓ} (A : Type ℓ) : Type ℓ where
  pub contents : List A
  pub iterators : List A
  pub max_size : ℕ
  pub hash_policy : ℕ → ℕ → ℕ
  pub buckets : ℕ
  pub stale : ℕ

module _ {ℓ} {A : Type ℓ} where
  -- `buckets` is what an empty table begins with.
  unfoldable pub new : (ℕ → ℕ → ℕ) → ℕ → ℕ → OrderedSet A
  new hash_policy buckets max_size = record {
    contents = [];
    iterators = [];
    max_size = max_size;
    hash_policy = hash_policy;
    buckets = buckets;
    stale = 0;
  }

  unfoldable pub size : OrderedSet A → ℕ
  size o = length o.contents

module _ {ℓ} {A : Type ℓ} (dec : Discrete A) where
  -- `data.count(str) > 0`.
  unfoldable pub contains : A → List A → Bool
  contains a [] = false
  contains a (x ∷ xs) = ite (dec x a) true (contains a xs)

  -- `data.erase(it)`.
  unfoldable pub erase : A → List A → List A
  erase a [] = []
  erase a (x ∷ xs) = ite (dec x a) xs (x ∷ erase a xs)

  -- `iterators.front()` is undefined on an empty queue, and so is `*it` of an invalid iterator: `none`.
  unfoldable pub pop : OrderedSet A → Option (A × OrderedSet A)
  unfolding erase
  pop o = elim o.iterators [
    | [] ↦ none
    | it ∷ rest ↦
        if ltb 0 o.stale
        then none
        else some (it, record o { contents = erase it o.contents; iterators = rest })
  ]

  -- `while (data.size() > max_size) pop();`, on fuel.
  pub shrink : ℕ → OrderedSet A → Option (OrderedSet A)
  shrink zero o = none
  shrink (suc fuel) o = elim (ltb o.max_size (length o.contents)) [
    | false ↦ some o
    | true ↦ elim (pop o) [ none ↦ none | some (_, o') ↦ shrink fuel o' ]
  ]

  -- `data.insert(str)` and `iterators.push(p.first)`.
  unfoldable pub insert : A → OrderedSet A → OrderedSet A
  insert str o =
      let buckets' = o.hash_policy o.buckets (suc (length o.contents)) in
      record o {
        contents = o.contents ++ str ∷ [];
        iterators = o.iterators ++ str ∷ [];
        buckets = buckets';
        stale = if buckets' == o.buckets then o.stale else length o.iterators;
      }

  -- The loop ends within as many rounds as there are elements; `fuel` is one more.
  pub push : A → OrderedSet A → Option (Bool × OrderedSet A)
  unfolding contains insert
  push str o = elim (contains str o.contents) [
    | true ↦ some (false, o)
    | false ↦ elim (shrink (suc (suc (length o.contents))) (insert str o)) [
      | none ↦ none
      | some o' ↦ some (true, o')
    ]
  ]
