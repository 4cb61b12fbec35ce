-- ===== src/Common/OrderedSet/Laws.antt =====
-- common/ordered_set.cc: a sound set is a queue without repetitions, cut to its newest strings.
use mathlib.Core.Logic.{if_pos}
use distfs.Base.{
  ℕ, zero, suc, ◌-◌, ◌≤◌, ◌<◌, ltb, if◌then◌else◌, true, false, List, [], ◌∷◌, ◌++◌, none, some,
  length, drop, not, ap, ◌≡◌, ◌≢◌, refl, sym, arith, inl, inr, ◌⊎◌, subst, Bool-cases,
  length-append, ltb→lt, ltb-false, length-drop,
}
use distfs.Common.OrderedSet.{OrderedSet, contains, erase, pop, shrink, insert, push}

-- The newest `n` of a queue, oldest first.
abbrev pub newest {ℓ} : {A : Type ℓ} → ℕ → List A → List A
newest n xs = drop (length xs - n) xs

module _ {ℓ} {A : Type ℓ} (dec : Discrete A) where
  abbrev pub Distinct : List A → Type 0
  Distinct [] = Unit
  Distinct (x ∷ xs) = (contains dec x xs ≡ false) × Distinct xs

  pub record IsValid (o : OrderedSet A) : Type ℓ where
    pub mirrored : o.contents ≡ o.iterators
    pub distinct : Distinct o.iterators
    pub bounded : length o.iterators ≤ o.max_size

  contains-append :
      (a b : A) (xs : List A)
      → contains dec a xs ≡ false
      → b ≢ a
      → contains dec a (xs ++ b ∷ []) ≡ false
  unfolding contains
  contains-append a b [] h ne = ground arith
  contains-append a b (x ∷ xs) h ne = ground (arith, contains-append a b xs)

  contains-head :
      (a x : A) (xs : List A)
      → contains dec a (x ∷ xs) ≡ false
      → (x ≢ a) × (contains dec a xs ≡ false)
  unfolding contains
  contains-head a x xs h = ground arith

  Distinct-append :
      (b : A) (xs : List A) → Distinct xs → contains dec b xs ≡ false → Distinct (xs ++ b ∷ [])
  unfolding contains
  Distinct-append b [] d h = (refl, tt)
  Distinct-append b (x ∷ xs) d h =
      let (ne, rest) = contains-head b x xs h in
      (contains-append x b xs d.0 (λ e. ne (sym e)), Distinct-append b xs d.1 rest)

  Distinct-drop : (n : ℕ) (xs : List A) → Distinct xs → Distinct (drop n xs)
  Distinct-drop zero xs d = d
  Distinct-drop (suc n) [] d = d
  Distinct-drop (suc n) (x ∷ xs) d = Distinct-drop n xs d.1

  -- A set with other strings in it.
  abbrev pub holding : OrderedSet A → List A → OrderedSet A
  holding o xs = record o { contents = xs; iterators = xs }

  pop_front :
      (o : OrderedSet A) (x : A) (xs : List A)
      → o.stale ≡ 0
      → pop dec (holding o (x ∷ xs)) ≡ some (x, holding o xs)
  unfolding pop
  pop_front o x xs valid = rw (valid, if_pos (dec x x) refl xs (x ∷ erase dec x xs)) refl

  pop_stale :
      (o : OrderedSet A) (x : A) (xs : List A) → 0 < o.stale → pop dec (holding o (x ∷ xs)) ≡ none
  unfolding pop
  pop_stale o x xs h = let more : ltb 0 o.stale ≡ true = ground arith in rw more refl

  -- With enough fuel the loop drops the oldest strings until the rest fits, where their iterators are
  -- valid.
  shrink-newest :
      (fuel : ℕ) (o : OrderedSet A) (xs : List A)
      → length xs < fuel
      → o.stale ≡ 0
      → shrink dec fuel (holding o xs) ≡ some (holding o (newest o.max_size xs))
  unfolding shrink
  shrink-newest zero o xs h valid = absurd (omega arith)
  shrink-newest (suc fuel) o [] h valid = ground arith
  shrink-newest (suc fuel) o (x ∷ xs) h valid =
      elim (Bool-cases (ltb o.max_size (length (x ∷ xs)))) [
        | inl more ↦
            let e : length (x ∷ xs) - o.max_size ≡ suc (length xs - o.max_size) =
              omega (arith, ltb→lt o.max_size (length (x ∷ xs))) in
            rw (more, shrink, pop_front o x xs valid, shrink, e)
              (shrink-newest fuel o xs (omega arith) valid)
        | inr done ↦
            let e : length (x ∷ xs) - o.max_size ≡ 0 =
              omega (arith, ltb-false o.max_size (length (x ∷ xs))) in
            rw (done, shrink, e)
      ]

  -- A set that is small enough stays as it is, and in one that is not the loop uses the oldest iterator.
  shrink_small :
      (fuel : ℕ) (o : OrderedSet A) (xs : List A)
      → length xs ≤ o.max_size
      → shrink dec (suc fuel) (holding o xs) ≡ some (holding o (newest o.max_size xs))
  unfolding shrink
  shrink_small fuel o xs h =
      let e : length xs - o.max_size ≡ 0 = omega arith in
      let fits : ltb o.max_size (length xs) ≡ false = ground arith in rw (fits, shrink, e)

  shrink_stale :
      (fuel : ℕ) (o : OrderedSet A) (xs : List A)
      → o.max_size < length xs
      → 0 < o.stale
      → shrink dec (suc fuel) (holding o xs) ≡ none
  unfolding shrink
  shrink_stale fuel o [] h s = absurd (omega arith)
  shrink_stale fuel o (x ∷ xs) h s =
      let more : ltb o.max_size (length (x ∷ xs)) ≡ true = ground arith in
      rw (more, shrink, pop_stale o x xs s)

  -- What a push leaves in the queue.
  abbrev pub after_push : A → OrderedSet A → List A
  after_push str o =
      if contains dec str o.contents
      then o.iterators
      else newest o.max_size (o.iterators ++ str ∷ [])

  IsValid-newest :
      (o : OrderedSet A) (xs : List A) → Distinct xs → IsValid (holding o (newest o.max_size xs))
  IsValid-newest o xs d = record {
    mirrored = refl;
    distinct = Distinct-drop (length xs - o.max_size) xs d;
    bounded = omega (arith, length-drop (length xs - o.max_size) xs);
  }

  -- The string is new, the set is full, and the iterator of the oldest string is invalid behind the
  -- insertion.
  abbrev pub Dangles : A → OrderedSet A → Type 0
  Dangles str o =
      (contains dec str o.contents ≡ false)
      × (o.max_size < suc (length o.iterators))
      × (0 < (insert dec str o).stale)

  -- How a push ends: undefined, exactly for that reason, or in a sound set.
  abbrev pub Pushes : A → OrderedSet A → Type ℓ
  Pushes str o =
      ((push dec str o ≡ none) × Dangles str o)
      ⊎ ((o' : OrderedSet A) × (push dec str o ≡ some (not (contains dec str o.contents), o'))
          × IsValid o'
          × (o'.iterators ≡ after_push str o)
          × (o'.max_size ≡ o.max_size)
          × ¬ Dangles str o)

  push_known :
      (str : A) (o : OrderedSet A)
      → contains dec str o.contents ≡ true
      → push dec str o ≡ some (false, o)
  unfolding push
  push_known str o h = rw (h, push)

  -- The set behind the insertion, with the queue in place of the table.
  grown : A → OrderedSet A → OrderedSet A
  grown str o = holding (insert dec str o) (o.iterators ++ str ∷ [])

  insert-grown : (str : A) (o : OrderedSet A) → IsValid o → insert dec str o ≡ grown str o
  unfolding insert grown
  insert-grown str o v = λ i. record (insert dec str o) { contents = v.mirrored i ++ str ∷ [] }

  pushed :
      (str : A) (o o' : OrderedSet A)
      → IsValid o
      → contains dec str o.contents ≡ false
      → shrink dec (suc (suc (length o.contents))) (grown str o) ≡ some o'
      → push dec str o ≡ some (true, o')
  unfolding push
  pushed str o o' v h looped = rw (h, push, insert-grown str o v, looped) refl

  dangled :
      (str : A) (o : OrderedSet A)
      → IsValid o
      → contains dec str o.contents ≡ false
      → shrink dec (suc (suc (length o.contents))) (grown str o) ≡ none
      → push dec str o ≡ none
  unfolding push
  dangled str o v h looped = rw (h, push, insert-grown str o v, looped) refl

  push_done :
      (str : A) (o : OrderedSet A)
      → IsValid o
      → contains dec str o.contents ≡ false
      → ¬ Dangles str o
      → shrink dec (suc (suc (length o.contents))) (grown str o)
        ≡ some (holding (insert dec str o) (newest o.max_size (o.iterators ++ str ∷ [])))
      → Pushes str o
  unfolding insert
  push_done str o v h sound looped = inr (
    holding (insert dec str o) (newest o.max_size (o.iterators ++ str ∷ [])),
    rw h (pushed str o _ v h looped),
    IsValid-newest (insert dec str o) (o.iterators ++ str ∷ [])
        (Distinct-append str o.iterators v.distinct (rw v.mirrored at h)),
    rw h refl,
    refl,
    sound,
  )

  push_new :
      (str : A) (o : OrderedSet A) → IsValid o → contains dec str o.contents ≡ false → Pushes str o
  unfolding insert grown
  push_new str o v h =
      let all = o.iterators ++ str ∷ [] in
      let len : length all ≡ suc (length o.iterators) =
        omega (arith, length-append o.iterators (str ∷ [])) in
      let mirrored = ap length v.mirrored in
      let fuel = suc (length o.contents) in
      elim (Bool-cases (ltb o.max_size (suc (length o.iterators)))) [
        | inr room ↦
            let room' = ltb-false o.max_size (suc (length o.iterators)) room in
            push_done str o v h (λ d. omega (arith, d.1, room'))
              (shrink_small fuel (insert dec str o) all (omega (arith, len, room')))
        | inl full ↦ elim (Bool-cases (ltb 0 (insert dec str o).stale)) [
          | inr valid ↦
              let valid' = ltb-false 0 (insert dec str o).stale valid in
              push_done str o v h (λ d. omega (arith, d.2, valid'))
                (shrink-newest (suc fuel) (insert dec str o) all (omega (arith, len, mirrored))
                  (omega (arith, valid')))
          | inl gone ↦
              let more = ltb→lt o.max_size (suc (length o.iterators)) full in
              let gone' = ltb→lt 0 (insert dec str o).stale gone in
              inl (
                dangled str o v h
                    (shrink_stale fuel (insert dec str o) all (omega (arith, len, more)) gone'),
                (h, more, gone'),
              )
        ]
      ]

  -- On a sound set, `push` of a string that is there already returns `false` and leaves the set as it
  -- was. Otherwise it returns `true`: the queue then holds the newest `max_size` strings of the old
  -- queue with the new string at its end, and the set is sound again: no string stands in it twice,
  -- and it is within its size. Its behaviour is undefined exactly if the string is new, the set
  -- was full, and the iterator of the oldest string is one that a rehash, of this insertion or an
  -- earlier one, has invalidated.
  pub push-newest : (str : A) (o : OrderedSet A) → IsValid o → Pushes str o
  push-newest str o v = elim (Bool-cases (contains dec str o.contents)) [
    | inl h ↦ inr (o, rw h (push_known str o h), v, rw h refl, refl, (λ d. let fresh = d.0 in cc))
    | inr h ↦ push_new str o v h
  ]

  -- The three ways in which `pop` ends.
  abbrev pub Pops : OrderedSet A → Type ℓ
  Pops o =
      ((o.iterators ≡ []) × (pop dec o ≡ none))
      ⊎ (((0 < o.stale) × (pop dec o ≡ none))
          ⊎ ((a : A) × (o' : OrderedSet A) × (pop dec o ≡ some (a, o'))
              × (o.iterators ≡ a ∷ o'.iterators)
              × (contains dec a o'.contents ≡ false)
              × IsValid o'
              × (o'.max_size ≡ o.max_size)
              × (o'.stale ≡ o.stale)))

  pop_cases :
      (xs : List A) (o : OrderedSet A) → Distinct xs → length xs ≤ o.max_size → Pops (holding o xs)
  unfolding pop
  pop_cases [] o d b = inl (refl, refl)
  pop_cases (x ∷ xs) o d b = elim (Bool-cases (ltb 0 o.stale)) [
    | inl gone ↦ let gone' = ltb→lt 0 o.stale gone in inr (inl (gone', pop_stale o x xs gone'))
    | inr valid ↦ inr (
        inr (
          x,
          holding o xs,
          pop_front o x xs (omega (arith, ltb-false 0 o.stale valid)),
          refl,
          d.0,
          record { mirrored = refl; distinct = d.1; bounded = omega arith },
          refl,
          refl,
        ))
  ]

  -- `pop` returns the oldest string of a sound set, which the set then no longer holds; the others
  -- stay in order and the set stays sound. Its behaviour is undefined only on the empty set, and where
  -- a rehash has invalidated the oldest iterator.
  pub pop-oldest : (o : OrderedSet A) → IsValid o → Pops o
  pop-oldest o v =
      subst (λ cs. Pops (record o { contents = cs })) (sym v.mirrored)
        (pop_cases o.iterators o v.distinct v.bounded)
