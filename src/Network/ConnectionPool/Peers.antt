-- ===== src/Network/ConnectionPool/Peers.antt =====
-- network/connection_pool.cc: sets of URLs, and the three of them that go together.
use mathlib.Core.Logic.{ite, if_pos, if_neg}
use distfs.Base.{
  ℕ, zero, suc, if◌then◌else◌, true, false, List, [], ◌∷◌, ◌++◌, length, drop, ◌≡◌, refl, ap, ◌∙◌,
  arith,
}
use distfs.Common.OrderedSet.{contains, erase}
use distfs.Common.OrderedSet.Laws.{Distinct}

module _ {A : Type 0} (dec : Discrete A) where
  pub contains-append_lem :
      (a : A) (xs ys : List A)
      → contains dec a (xs ++ ys) ≡ (if contains dec a xs then true else contains dec a ys)
  unfolding contains
  contains-append_lem a [] ys = refl
  contains-append_lem a (x ∷ xs) ys = ground (arith, contains-append_lem a xs ys)

  pub contains-drop :
      (a : A) (n : ℕ) (xs : List A) → contains dec a (drop n xs) ≡ true → contains dec a xs ≡ true
  unfolding contains
  contains-drop a zero xs h = h
  contains-drop a (suc n) [] h = h
  contains-drop a (suc n) (x ∷ xs) h = ground (arith, contains-drop a n xs)

  pub contains-erase :
      (a b : A) (xs : List A)
      → Distinct dec xs
      → contains dec a (erase dec b xs) ≡ ite (dec b a) false (contains dec a xs)
  unfolding contains erase
  contains-erase a b [] d = ground arith
  contains-erase a b (x ∷ xs) d = elim (dec x b) [
    | yes same ↦ elim (dec x a) [
      | yes here ↦ ground (arith, ap (λ y. contains dec y xs) here)
      | no there ↦ ground arith
    ]
    | no other ↦ ground (arith, contains-erase a b xs d.1)
  ]

  pub Distinct-erase : (b : A) (xs : List A) → Distinct dec xs → Distinct dec (erase dec b xs)
  unfolding erase
  Distinct-erase b [] d = tt
  Distinct-erase b (x ∷ xs) d = elim (dec x b) [
    | yes same ↦ rw (if_pos (dec x b) same xs (x ∷ erase dec b xs)) d.1
    | no other ↦
        rw (if_neg (dec x b) other xs (x ∷ erase dec b xs))
          (contains-erase x b xs d.1 ∙ ground (arith, d.0), Distinct-erase b xs d.1)
  ]

  pub length-erase :
      (b : A) (xs : List A) → contains dec b xs ≡ true → suc (length (erase dec b xs)) ≡ length xs
  unfolding contains erase
  length-erase b [] h = cc
  length-erase b (x ∷ xs) h = ground (arith, length-erase b xs)

  pub erase-middle :
      (b : A) (xs ys : List A) → contains dec b xs ≡ false → erase dec b (xs ++ b ∷ ys) ≡ xs ++ ys
  unfolding contains erase
  erase-middle b [] ys h = ground arith
  erase-middle b (x ∷ xs) ys h = ground (arith, erase-middle b xs ys)

  pub Distinct-middle :
      (b : A) (xs ys : List A) → Distinct dec (xs ++ b ∷ ys) → contains dec b xs ≡ false
  unfolding contains
  Distinct-middle b [] ys d = refl
  Distinct-middle b (x ∷ xs) ys d =
      ground (arith, contains-append_lem x xs (b ∷ ys), Distinct-middle b xs ys d.1)

  pub Distinct-without :
      (b : A) (xs ys : List A) → Distinct dec (xs ++ b ∷ ys) → Distinct dec (xs ++ ys)
  unfolding contains
  Distinct-without b [] ys d = d.1
  Distinct-without b (x ∷ xs) ys d = (
    ground (arith, contains-append_lem x xs (b ∷ ys), contains-append_lem x xs ys),
    Distinct-without b xs ys d.1,
  )
