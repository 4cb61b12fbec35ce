-- ===== src/Meta/MetaFileSystem/Search.antt =====
-- meta/meta_file_system.cc: the binary search of `find_entity` is right on a sorted table.
use Prim.Native.Nat.{Ordering}
use native.Mathlib.Decide.{ℕ_discrete, dec_lt}
use distfs.Base.{
  ℕ, zero, suc, ◌+◌, ◌-◌, ◌/◌, ◌^◌, ◌<◌, ◌≤◌, ltb, true, List, [], ◌∷◌, ◌≡◌, ◌≢◌, ◌⊎◌, inl, inr,
  refl, arith, Bool-cases, ltb→lt, ltb-false, lt→ltb, le→ltb-false,
}
use distfs.Meta.{Entry, entry_at}
use distfs.Meta.Effects.{Outcome, done}
use distfs.Meta.Memory.{string_at, strcmp}
use distfs.Meta.MetaFileSystem.{compare_name, target, last_test, search_loop, find_entity}

strcmp_eq : (a b : List ℕ) → strcmp a b ≡ Ordering.eq → a ≡ b
unfolding strcmp
strcmp_eq [] [] h = refl
strcmp_eq [] (d ∷ ds) h = absurd (ground arith)
strcmp_eq (c ∷ cs) [] h = absurd (ground arith)
strcmp_eq (c ∷ cs) (d ∷ ds) h = ground (arith, strcmp_eq cs ds)

strcmp_refl : (a : List ℕ) → strcmp a a ≡ Ordering.eq
unfolding strcmp
strcmp_refl [] = refl
strcmp_refl (c ∷ cs) = ground (arith, strcmp_refl cs)

strcmp_gt : (a b : List ℕ) → strcmp a b ≡ Ordering.lt → strcmp b a ≡ Ordering.gt
unfolding strcmp
strcmp_gt [] [] h = absurd (ground arith)
strcmp_gt [] (d ∷ ds) h = refl
strcmp_gt (c ∷ cs) [] h = absurd (ground arith)
strcmp_gt (c ∷ cs) (d ∷ ds) h = ground (arith, strcmp_gt cs ds)

-- A readable table of `n` entries, with their names and targets, in the order of `strcmp`.
pub record IsTable (mem : List ℕ) (ents n : ℕ) (name_of : ℕ → List ℕ) (target_of : ℕ → ℕ)
    : Type 0 where
  pub readable :
      (i : ℕ)
      → i < n
      → (e : Entry) × (entry_at mem ents i ≡ done e)
        × (string_at mem e.name_offset ≡ done (name_of i))
        × (e.data_offset ≡ target_of i)
  pub sorted : (i j : ℕ) → i < j → j < n → strcmp (name_of i) (name_of j) ≡ Ordering.lt

-- The result is the target of the entry with the name, or 0, and then there is none.
abbrev pub Finds : List ℕ → ℕ → (ℕ → List ℕ) → (ℕ → ℕ) → ℕ → Type 0
Finds name n name_of target_of r =
    ((i : ℕ) × (i < n) × (name_of i ≡ name) × (r ≡ target_of i))
    ⊎ ((r ≡ 0) × ((i : ℕ) → i < n → name_of i ≢ name))

module _ (mem name : List ℕ) (ents n : ℕ) (name_of : ℕ → List ℕ) (target_of : ℕ → ℕ)
    (t : IsTable mem ents n name_of target_of) where
  compare_name_lem : (i : ℕ) → i < n → compare_name mem name ents i ≡ done (strcmp (name_of i) name)
  unfolding compare_name
  compare_name_lem i h = let (e, read, str, to) = t.readable i h in rw (read, str)

  target_lem : (i : ℕ) → i < n → target mem ents i ≡ done (target_of i)
  unfolding target
  target_lem i h = let (e, read, str, to) = t.readable i h in rw (read, to)

  abbrev Absent : ℕ → Type 0
  Absent i = name_of i ≢ name

  -- Above an entry that comes after the name, and below one that comes before it, it does not stand.
  below-Absent : (m i : ℕ) → m < n → i < m → strcmp (name_of m) name ≡ Ordering.lt → Absent i
  below-Absent m i hm him lt e =
      ground (arith, strcmp_gt (name_of m) name lt, rw e at (t.sorted i m him hm))

  above-Absent : (m i : ℕ) → m < i → i < n → strcmp (name_of m) name ≡ Ordering.gt → Absent i
  above-Absent m i hmi hi gt e = ground (arith, rw e at (t.sorted m i hmi hi))

  at-Absent : (m : ℕ) → strcmp (name_of m) name ≢ Ordering.eq → Absent m
  at-Absent m ne e = ne (rw e (strcmp_refl name))

  abbrev Ends : Outcome ℕ → Type 0
  Ends o = (r : ℕ) × (o ≡ done r) × Finds name n name_of target_of r

  last_test-Ends :
      (a : ℕ) (x : Ordering)
      → a < n
      → strcmp (name_of a) name ≡ x
      → ((i : ℕ) → i < n → i ≢ a → Absent i)
      → Ends (last_test mem name ents a)
  unfolding last_test
  last_test-Ends a Ordering.eq h e rest =
      (target_of a, rw (compare_name_lem a h, e, target_lem a h), inl (a, h, strcmp_eq _ _ e, refl))
  last_test-Ends a x h e rest = (
    0,
    rw (compare_name_lem a h, e),
    inr (
      refl,
      λ i hi. elim (ℕ_discrete i a) [
        | yes same ↦ rw same (at-Absent a (λ q. cc))
        | no other ↦ rest i hi other
      ],
    ),
  )

  -- When the loop ends only the entry at `a` is left.
  exit-Ends :
      (a top : ℕ)
      → a < n
      → top ≤ a + 1
      → ((i : ℕ) → i < a → Absent i)
      → ((i : ℕ) → top ≤ i → i < n → Absent i)
      → Ends (last_test mem name ents a)
  exit-Ends a top ha ends low high = last_test-Ends a _ ha refl (λ i hi ne. elim (dec_lt i a) [
    | yes below ↦ low i below
    | no above ↦ high i (omega arith) hi
  ])

  -- One round, by the result of the comparison.
  round-Ends :
      (fuel a top : ℕ) (x : Ordering)
      → ltb (a + 1) top ≡ true
      → ltb (a + (top - 1)) (2 ^ 31) ≡ true
      → (a + (top - 1)) / 2 < n
      → strcmp (name_of ((a + (top - 1)) / 2)) name ≡ x
      → (x ≡ Ordering.lt → Ends (search_loop mem fuel name ents ((a + (top - 1)) / 2 + 1) top))
      → (x ≡ Ordering.gt → Ends (search_loop mem fuel name ents a ((a + (top - 1)) / 2)))
      → Ends (search_loop mem (suc fuel) name ents a top)
  unfolding search_loop
  round-Ends fuel a top Ordering.eq more fits hm e up down =
      let m = (a + (top - 1)) / 2 in
      (
        target_of m,
        rw (more, fits, compare_name_lem m hm, e, target_lem m hm),
        inl (m, hm, strcmp_eq _ _ e, refl),
      )
  round-Ends fuel a top Ordering.lt more fits hm e up down =
      let m = (a + (top - 1)) / 2 in
      let (r, ran, finds) = up refl in (r, rw (more, fits, compare_name_lem m hm, e) ran, finds)
  round-Ends fuel a top Ordering.gt more fits hm e up down =
      let m = (a + (top - 1)) / 2 in
      let (r, ran, finds) = down refl in (r, rw (more, fits, compare_name_lem m hm, e) ran, finds)

  search_loop-Ends :
      (fuel a top : ℕ)
      → top ≤ a + suc fuel
      → a < n
      → top ≤ n
      → n ≤ 2 ^ 30
      → ((i : ℕ) → i < a → Absent i)
      → ((i : ℕ) → top ≤ i → i < n → Absent i)
      → Ends (search_loop mem fuel name ents a top)
  unfolding search_loop
  search_loop-Ends zero a top enough ha ht small low high =
      rw (le→ltb-false (a + 1) top (omega arith)) (exit-Ends a top ha (omega arith) low high)
  search_loop-Ends (suc fuel) a top enough ha ht small low high =
      let m = (a + (top - 1)) / 2 in
      elim (Bool-cases (ltb (a + 1) top)) [
        | inr done_ ↦ rw done_ (exit-Ends a top ha (ltb-false (a + 1) top done_) low high)
        | inl more ↦
            let wide = ltb→lt (a + 1) top more in
            let hm : m < n = omega arith in
            round-Ends fuel a top _ more (lt→ltb _ _ (omega arith)) hm refl
              (λ lt.
                search_loop-Ends fuel (m + 1) top (omega arith) (omega arith) ht small
                  (λ i hi. elim (dec_lt i m) [
                    | yes less ↦ below-Absent m i hm less lt
                    | no same ↦ let e : i ≡ m = omega arith in rw e (at-Absent m (λ q. cc))
                  ])
                  high)
              (λ gt. search_loop-Ends fuel a m (omega arith) ha (omega arith) small low (λ i him hi.
                elim (ℕ_discrete i m) [
                  | yes e ↦ rw e (at-Absent m (λ q. cc))
                  | no ne ↦ above-Absent m i (omega arith) hi gt
                ]))
      ]

  -- On a sorted table `find_entity` returns: the target of the entry with the name, or 0 if no entry
  -- has it. (The table has at most 2 ^ 30 entries, so that no sum of indices overflows.)
  pub find_entity-Finds : n ≤ 2 ^ 30 → Ends (find_entity mem name ents n)
  unfolding find_entity
  find_entity-Finds small = elim (ℕ_discrete n 0) [
    | yes none_ ↦ (0, ground arith, inr (refl, λ i hi. absurd (omega arith)))
    | no some_ ↦
        let (r, ran, finds) =
          search_loop-Ends n 0 n (omega arith) (omega arith) (omega arith) small
            (λ i hi. absurd (omega arith)) (λ i lo hi. absurd (omega arith)) in
        (r, ground arith, finds)
  ]
