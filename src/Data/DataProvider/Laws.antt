-- ===== src/Data/DataProvider/Laws.antt =====
-- data/data_provider.cc: `read` puts the image together again.
use native.Mathlib.Nat.{mod-lt, div-add-mod, mul-le-mul_right, mod-eq_of_lt, div-lt_iff_lt-mul}
use native.Mathlib.Decide.{dec_lt}
use distfs.Base.{
  ℕ, zero, suc, ◌+◌, ◌-◌, ◌*◌, ◌/◌, ◌%◌, ◌^◌, ◌<◌, ◌≤◌, min, ◌==◌, ltb, List, [], ◌++◌, Option,
  some, true, length, take, drop, ◌≡◌, refl, sym, ap, ◌∙◌, arith, Bool-cases, inl, inr, get_elem?,
  ◌⊎◌, length-append, length-take, length-drop,
}
use distfs.Common.{ErrorCode}
use distfs.Data.{Filled, filled, failed}
use distfs.Data.Memory.{chunk_byte, chunk_start, get_elem?-append, get_elem?-take, get_elem?-drop}
use distfs.Data.DataProvider.{prepend, check, read_loop, read}

-- The image as one run of bytes.
abbrev pub flat : ℕ → (ℕ → Option (List ℕ)) → ℕ → Option ℕ
flat chunk_size image addr = chunk_byte (image (addr / chunk_size)) (addr % chunk_size)

-- `out` is the part of the image that begins at `offset`.
pub record IsPart (chunk_size : ℕ) (image : ℕ → Option (List ℕ)) (offset length_ : ℕ) (out : List ℕ)
    : Type 0 where
  pub size : length out ≡ length_
  pub bytes : (i : ℕ) → i < length_ → get_elem? out i ≡ flat chunk_size image (offset + i)

-- A read that goes on after this chunk goes on at the start of the next one, which has a number of
-- 32 bits.
next_id :
    (c id of n : ℕ)
    → of < c
    → id * c + of + n < 2 ^ 32 * c
    → (n - min n (c - of) ≡ 0) ⊎ ((id + 1) % 2 ^ 32 ≡ id + 1)
next_id c id of n h small = elim (dec_lt (id + 1) (2 ^ 32)) [
  | yes few ↦ inr (omega arith)
  | no many ↦
      let big : 2 ^ 32 * c ≤ (id + 1) * c = mul-le-mul_right c (omega arith) in inl (omega arith)
]

next_small :
    (c id of n : ℕ)
    → of < c
    → id * c + of + n < 2 ^ 32 * c
    → (id + 1) % 2 ^ 32 * c + 0 + (n - min n (c - of)) < 2 ^ 32 * c
next_small c id of n h small =
    let few : (id + 1) % 2 ^ 32 * c ≤ (2 ^ 32 - 1) * c = mul-le-mul_right c (omega arith) in
    elim (next_id c id of n h small) [
      | inl last ↦ omega arith
      | inr e ↦ let few' : (id + 1) * c ≤ (2 ^ 32 - 1) * c = rw e at few in rw e (omega arith)
    ]

next_place :
    (c id of n : ℕ)
    → of < c
    → id * c + of + n < 2 ^ 32 * c
    → (n - min n (c - of) ≡ 0) ⊎ ((id + 1) % 2 ^ 32 * c + 0 ≡ id * c + of + min n (c - of))
next_place c id of n h small = elim (next_id c id of n h small) [
  | inl last ↦ inl last
  | inr e ↦ elim (dec_lt n (c - of)) [
    | yes short ↦ inl (omega arith)
    | no long ↦ inr (rw e (omega arith))
  ]
]

module _ {P : Type 0} (read_chunk : ℕ → ℕ → ℕ → P → Option (Filled × P)) (chunk_size : ℕ)
    (garbage : ℕ) (image : ℕ → Option (List ℕ)) (Coherent : P → Type 0) where
  -- What is asked of the chunk provider, for a read within a chunk: it returns, and what it returns
  -- is of the image.
  pub record IsProvider : Type 0 where
    pub positive : 0 < chunk_size
    pub full : (id : ℕ) (bs : List ℕ) → image id ≡ some bs → length bs ≡ chunk_size
    pub reads :
        (id offset len : ℕ) (p : P)
        → Coherent p
        → offset + len ≤ chunk_size
        → (out : Filled) × (p' : P) × (read_chunk id offset len p ≡ some (out, p'))
          × Coherent p'
          × ((bs : List ℕ)
              → out ≡ filled bs
              → (cs : List ℕ) × (image id ≡ some cs) × (bs ≡ take len (drop offset cs)))

  -- Between `addr` and `addr + n`, there is a part of a chunk that could not be read.
  pub record Unread (addr n : ℕ) : Type 0 where
    pub id : ℕ
    pub of : ℕ
    pub len : ℕ
    pub before : P
    pub after : P
    pub err : ErrorCode
    pub coherent : Coherent before
    pub some_ : 0 < len
    pub within : of + len ≤ chunk_size
    pub from : addr ≤ id * chunk_size + of
    pub to : id * chunk_size + of + len ≤ addr + n
    pub fails : read_chunk id of len before ≡ some (failed err, after)

  -- `OK`, with the bytes of the image, or an error, which is that of a part of a chunk.
  abbrev pub Gives : ℕ → ℕ → Filled → Type 0
  Gives addr n (filled bs) = IsPart chunk_size image addr n bs
  Gives addr n (failed err) = Unread addr n

  module _ (laws : IsProvider) where
    -- What the loop does from a place within a chunk.
    abbrev Parts : ℕ → ℕ → Option (Filled × P) → Type 0
    Parts addr n r =
        (out : Filled) × (p' : P) × (r ≡ some (out, p')) × Coherent p' × Gives addr n out

    flat_at :
        (id j : ℕ) (cs : List ℕ)
        → j < chunk_size
        → image id ≡ some cs
        → flat chunk_size image (id * chunk_size + j) ≡ get_elem? cs j
    flat_at id j cs h im = let (q, r) = chunk_start chunk_size id j h in rw (q, r, im)

    -- One round, and the rest.
    IsPart-append :
        (id of n m : ℕ) (cs rest : List ℕ)
        → image id ≡ some cs
        → of + n ≤ chunk_size
        → IsPart chunk_size image (id * chunk_size + of + n) m rest
        → IsPart chunk_size image (id * chunk_size + of) (n + m) (take n (drop of cs) ++ rest)
    IsPart-append id of n m cs rest im within part =
        let first = take n (drop of cs) in
        let len : length first ≡ n =
          omega (arith, length-take n (drop of cs), length-drop of cs, laws.full id cs im) in
        record {
          size = omega (arith, length-append first rest, part.size);
          bytes = λ i lt. get_elem?-append first rest i ∙ elim (Bool-cases (ltb i n)) [
            | inl early ↦
                let split : id * chunk_size + of + i ≡ id * chunk_size + (of + i) = omega arith in
                rw (len, early, split)
                  (get_elem?-take n i (drop of cs) (ground arith)
                    ∙ get_elem?-drop of i cs
                    ∙ sym (flat_at id (of + i) cs (ground arith) im))
            | inr late ↦
                let split : id * chunk_size + of + n + (i - n) ≡ id * chunk_size + of + i =
                  ground arith in
                rw (len, late)
                  (part.bytes (i - n) (ground arith) ∙ ap (flat chunk_size image) split)
          ];
        }

    relocate : (a b m : ℕ) (out : Filled) → (m ≡ 0) ⊎ (a ≡ b) → Gives a m out → Gives b m out
    relocate a b m (filled bs) (inl empty) part = record {
      size = part.size;
      bytes = λ i lt. absurd (omega arith);
    }
    relocate a b m (failed err) (inl empty) u = absurd (omega (arith, empty, u.from, u.to, u.some_))
    relocate a b m out (inr same) part = rw (← same) part

    -- A part that could not be read is still one in a longer read.
    Unread-widen : (a m b n : ℕ) → b ≤ a → a + m ≤ b + n → Unread a m → Unread b n
    Unread-widen a m b n low high u = record {
      id = u.id;
      of = u.of;
      len = u.len;
      before = u.before;
      after = u.after;
      err = u.err;
      coherent = u.coherent;
      some_ = u.some_;
      within = u.within;
      from = omega (arith, low, u.from);
      to = omega (arith, high, u.to);
      fails = u.fails;
    }

    module _ (id of n m total : ℕ) (sum : n + m ≡ total) (within : of + n ≤ chunk_size) where
      prepend-Parts :
          (bs cs : List ℕ) (r : Option (Filled × P)) (out : Filled) (p : P)
          → image id ≡ some cs
          → bs ≡ take n (drop of cs)
          → r ≡ some (out, p)
          → Coherent p
          → Gives (id * chunk_size + of + n) m out
          → Parts (id * chunk_size + of) total (prepend bs r)
      prepend-Parts bs cs r (failed err) p im first e c u = (
        failed err,
        p,
        rw e,
        c,
        Unread-widen (id * chunk_size + of + n) m (id * chunk_size + of) total (omega arith)
            (omega (arith, sum)) u,
      )
      prepend-Parts bs cs r (filled rest) p im first e c part = (
        filled (bs ++ rest),
        p,
        rw e,
        c,
        rw (first, ← sum) (IsPart-append id of n m cs rest im within part),
      )

      unread :
          (p q : P) (err : ErrorCode)
          → Coherent p
          → 0 < n
          → read_chunk id of n p ≡ some (failed err, q)
          → Unread (id * chunk_size + of) total
      unread p q err c some_ e = record {
        id = id;
        of = of;
        len = n;
        before = p;
        after = q;
        err = err;
        coherent = c;
        some_ = some_;
        within = within;
        from = omega arith;
        to = omega (arith, sum);
        fails = e;
      }

      -- The bytes asked for are all there, so the test of their number succeeds.
      whole_part : (bs cs : List ℕ) → image id ≡ some cs → bs ≡ take n (drop of cs) → length bs ≡ n
      whole_part bs cs im first =
          rw first (
            omega
              (arith, length-take n (drop of cs), length-drop of cs, laws.full id cs im, within))

      check-Parts :
          (rest : P → Option (Filled × P)) (out : Filled) (p0 p : P)
          → ((q : P) → Coherent q → Parts (id * chunk_size + of + n) m (rest q))
          → Coherent p0
          → 0 < n
          → read_chunk id of n p0 ≡ some (out, p)
          → Coherent p
          → ((bs : List ℕ)
              → out ≡ filled bs
              → (cs : List ℕ) × (image id ≡ some cs) × (bs ≡ take n (drop of cs)))
          → Parts
              (id * chunk_size + of)
              total
              (check read_chunk chunk_size garbage n rest (some (out, p)))
      unfolding check
      check-Parts rest (failed err) p0 p later c0 some_ got c ans =
          elim (Bool-cases (garbage == n)) [
            | inl same ↦ (failed err, p, rw same, c, unread p0 p err c0 some_ got)
            | inr other ↦
                (failed ErrorCode.internal_error, p, rw other, c, unread p0 p err c0 some_ got)
          ]
      check-Parts rest (filled bs) p0 p later c0 some_ got c ans =
          let (cs, im, first) = ans bs refl in
          let len = whole_part bs cs im first in
          let same : (length bs == n) ≡ true = ground (arith, len) in
          let (out, q, ran, c', part) = later p c in
          rw (same, check) (prepend-Parts bs cs (rest p) out q im first ran c' part)

    read_loop-Parts :
        (fuel id of n : ℕ) (p : P)
        → n ≤ fuel
        → of < chunk_size
        → id * chunk_size + of + n < 2 ^ 32 * chunk_size
        → Coherent p
        → Parts (id * chunk_size + of) n (read_loop read_chunk chunk_size garbage fuel id of n p)
    unfolding read_loop
    read_loop-Parts fuel id of zero p enough start small c =
        (filled [], p, refl, c, record { size = refl; bytes = λ i lt. absurd (omega arith) })
    read_loop-Parts zero id of (suc n) p enough start small c = absurd (omega arith)
    read_loop-Parts (suc fuel) id of (suc n) p enough start small c =
        let len = min (suc n) (chunk_size - of) in
        let m = suc n - len in
        let next = (id + 1) % 2 ^ 32 in
        let rest : P → Option (Filled × P) =
          λ q. read_loop read_chunk chunk_size garbage fuel next 0 m q in
        let within : of + len ≤ chunk_size = omega arith in
        let (out, p', got, c', ans) = laws.reads id of len p c within in
        let later : (q : P) → Coherent q → Parts (id * chunk_size + of + len) m (rest q) = λ q cq.
          let (out', q', ran, cq', part) =
            read_loop-Parts fuel next 0 m q (omega arith) laws.positive
              (next_small chunk_size id of (suc n) start small) cq in
          (
            out',
            q',
            ran,
            cq',
            relocate (next * chunk_size + 0) (id * chunk_size + of + len) m out'
                (next_place chunk_size id of (suc n) start small) part,
          ) in
        rw got (
          check-Parts id of len m (suc n) (omega arith) within rest out p p' later c
            (omega (arith, start)) got c' ans)

    -- A read within the image always returns. It has read as many bytes as it was asked for, and they
    -- are those of the image from `offset` on, over however many chunks, or it returns an error, and
    -- then some part of a chunk there could not be read.
    pub read-IsPart :
        (offset n : ℕ) (p : P)
        → offset + n < 2 ^ 32 * chunk_size
        → Coherent p
        → (out : Filled) × (p' : P) × (read read_chunk chunk_size garbage offset n p
            ≡ some (out, p'))
          × Coherent p'
          × Gives offset n out
    unfolding read
    read-IsPart offset n p small c =
        let id = offset / chunk_size in
        let whole : id * chunk_size + offset % chunk_size ≡ offset =
          omega (arith, div-add-mod offset chunk_size) in
        let first : id % 2 ^ 32 ≡ id =
          mod-eq_of_lt ((div-lt_iff_lt-mul laws.positive).1 (omega arith)) in
        let start = mod-lt offset laws.positive in
        let (out, p', ran, c', part) =
          read_loop-Parts n id (offset % chunk_size) n p (omega arith) start (omega arith) c in
        (
          out,
          p',
          ap (λ i. read_loop read_chunk chunk_size garbage n i (offset % chunk_size) n p) first
              ∙ ran,
          c',
          rw whole at part,
        )
