-- ===== src/Data/ChunkStore/Names.antt =====
-- data/chunk_store.cc: the names of the files.
use distfs.Base.{
  ℕ, zero, suc, ◌+◌, ◌*◌, ◌-◌, ◌/◌, ◌≤◌, ◌<◌, ◌%◌, ◌^◌, ◌==◌, ltb, if◌then◌else◌, false, List, [],
  ◌∷◌, ◌++◌, length, ◌≡◌, ◌≢◌, refl, ap, sym, ◌∙◌, arith, inl, inr, Bool-cases, length-append,
  take_all,
}
use distfs.Data.ChunkStore.{slash, hex_digit, hex_digits, hex, whole_path, path_end, id_to_path}

-- The number that stands behind the last '/', in base 16: what the digits so far are worth, and the
-- rest of the path.
digit_value : ℕ → ℕ
digit_value x = if ltb x 65 then x - 48 else x - 55

name_value : ℕ → List ℕ → ℕ
unfolding digit_value
name_value value [] = value
name_value value (x ∷ xs) =
    if x == slash then name_value 0 xs else name_value (value * 16 + digit_value x) xs

name_value-slash :
    (value : ℕ) (xs ys : List ℕ) → name_value value (xs ++ slash ∷ ys) ≡ name_value 0 ys
unfolding name_value
name_value-slash value [] ys = refl
name_value-slash value (x ∷ xs) ys = elim (Bool-cases (x == slash)) [
  | inl here ↦ rw here (name_value-slash 0 xs ys)
  | inr there ↦ rw there (name_value-slash (value * 16 + digit_value x) xs ys)
]

-- No digit is a '/'.
digit_value-hex_digit : (d : ℕ) → d < 16 → digit_value (hex_digit d) ≡ d
unfolding digit_value hex_digit
digit_value-hex_digit d h = ground arith

hex_digit-slash : (d : ℕ) → (hex_digit d == slash) ≡ false
unfolding hex_digit
hex_digit-slash d = ground arith

name_value-snoc :
    (value d : ℕ) (xs : List ℕ)
    → (d == slash) ≡ false
    → name_value value (xs ++ d ∷ []) ≡ name_value value xs * 16 + digit_value d
unfolding name_value
name_value-snoc value d [] h = rw h refl
name_value-snoc value d (x ∷ xs) h = elim (Bool-cases (x == slash)) [
  | inl here ↦ rw here (name_value-snoc 0 d xs h)
  | inr there ↦ rw there (name_value-snoc (value * 16 + digit_value x) d xs h)
]

name_value-hex_digits : (fuel n : ℕ) → n < 16 ^ fuel → name_value 0 (hex_digits fuel n) ≡ n
unfolding hex_digits name_value
name_value-hex_digits zero n h = omega arith
name_value-hex_digits (suc fuel) n h = elim (Bool-cases (ltb n 16)) [
  | inl small ↦
      let d = digit_value-hex_digit n (ground arith) in
      rw (small, hex_digit-slash n) (omega (arith, d))
  | inr large ↦
      let below : n / 16 < 16 ^ fuel = omega arith in
      let high = name_value-hex_digits fuel (n / 16) below in
      let low = digit_value-hex_digit (n % 16) (omega arith) in
      rw large (
        name_value-snoc 0 (hex_digit (n % 16)) (hex_digits fuel (n / 16)) (hex_digit-slash (n % 16))
        ∙ omega (arith, high, low))
]

length-hex_digits : (fuel n : ℕ) → length (hex_digits fuel n) ≤ fuel
unfolding hex_digits
length-hex_digits zero n = omega arith
length-hex_digits (suc fuel) n = elim (Bool-cases (ltb n 16)) [
  | inl small ↦ rw small (omega arith)
  | inr large ↦ rw large (
      omega (
        arith,
        length-append (hex_digits fuel (n / 16)) (hex_digit (n % 16) ∷ []),
        length-hex_digits fuel (n / 16),
      ))
]

length-whole_path :
    (base_path : List ℕ) (id : ℕ) → length (whole_path base_path id) ≤ length base_path + 27
unfolding whole_path
length-whole_path base_path id =
    let third = hex id in
    let second = hex (id / 256 % 256) ++ slash ∷ third in
    let first = hex (id % 256) ++ slash ∷ second in
    omega (
      arith,
      length-append base_path (slash ∷ first),
      length-append (hex (id % 256)) (slash ∷ second),
      length-append (hex (id / 256 % 256)) (slash ∷ third),
      length-hex_digits 8 id,
      length-hex_digits 8 (id / 256 % 256),
      length-hex_digits 8 (id % 256),
    )

-- Nothing is cut off the path of a directory that has a short one.
id_to_path-whole_path :
    (base_path : List ℕ) (id : ℕ)
    → length base_path ≤ 4068
    → id_to_path base_path id ≡ whole_path base_path id
unfolding id_to_path
id_to_path-whole_path base_path id short =
    take_all path_end (whole_path base_path id)
      (unfold path_end in omega (arith, short, length-whole_path base_path id))

name_value-whole_path :
    (base_path : List ℕ) (id : ℕ) → id < 2 ^ 32 → name_value 0 (whole_path base_path id) ≡ id
unfolding whole_path
name_value-whole_path base_path id small =
    let third = hex id in
    let second = hex (id / 256 % 256) ++ slash ∷ third in
    name_value-slash 0 base_path (hex (id % 256) ++ slash ∷ second)
    ∙ name_value-slash 0 (hex (id % 256)) second
    ∙ name_value-slash 0 (hex (id / 256 % 256)) third
    ∙ name_value-hex_digits 8 id (omega (arith, small))

-- The number of a chunk can be read off its path.
name_value-id_to_path :
    (base_path : List ℕ) (id : ℕ)
    → length base_path ≤ 4068
    → id < 2 ^ 32
    → name_value 0 (id_to_path base_path id) ≡ id
name_value-id_to_path base_path id short small =
    ap (name_value 0) (id_to_path-whole_path base_path id short)
    ∙ name_value-whole_path base_path id small

-- Two chunks have different files, in a directory whose path has at most 4068 characters.
pub id_to_path-other :
    (base_path : List ℕ) (id k : ℕ)
    → length base_path ≤ 4068
    → id < 2 ^ 32
    → k < 2 ^ 32
    → id ≢ k
    → id_to_path base_path id ≢ id_to_path base_path k
id_to_path-other base_path id k short small small' differ same = differ (
    sym (name_value-id_to_path base_path id short small)
    ∙ ap (name_value 0) same
    ∙ name_value-id_to_path base_path k short small')
