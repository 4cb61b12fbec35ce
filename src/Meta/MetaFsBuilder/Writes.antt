-- ===== src/Meta/MetaFsBuilder/Writes.antt =====
-- meta/metafs_builder.cc: writes within the buffer go well, one after another.
use distfs.Base.{
  ℕ, zero, suc, ◌+◌, ◌*◌, ◌/◌, ◌≤◌, ◌<◌, ◌^◌, ◌==◌, ltb, false, List, [], ◌∷◌, length, ◌≡◌, refl,
  sym, ◌∙◌, arith, inl, inr, Bool-cases, length-replicate, subst,
}
use distfs.Data.Memory.{overwrite, length-overwrite}
use distfs.Meta.Effects.{Outcome, done, thrown, undefined, ◌>>=◌}
use distfs.Meta.Stat.{Stat, billion, to_ns-done}
use distfs.Meta.MetaFsBuilder.{
  Xattrs, bytes_of, put, c_string, set_stat, add_xattr, xattr_loop, xattrs_len, name_loop,
  names_len,
}

pub length-bytes_of : (n v : ℕ) → length (bytes_of n v) ≡ n
unfolding bytes_of
length-bytes_of zero v = refl
length-bytes_of (suc n) v = omega (arith, length-bytes_of n (v / 256))

pub length-c_string : (s : List ℕ) → length (c_string s) ≡ length s + 1
unfolding c_string
length-c_string [] = refl
length-c_string (c ∷ s) = elim (Bool-cases (c == 0)) [
  | inl nul ↦ rw nul (omega (arith, length-replicate {A = ℕ} (length s + 1) 0))
  | inr other ↦ rw other (omega (arith, length-c_string s))
]

-- A write within the buffer goes well, and does not change its size.
pub put-bind :
    {B : Type 0} (P : Outcome B → Type 0) (pos : ℕ) (bs buf : List ℕ) (n : ℕ)
    (next : List ℕ → Outcome B)
    → length buf ≡ n
    → pos + length bs ≤ n
    → ((buf' : List ℕ) → length buf' ≡ n → P (next buf'))
    → P (put pos bs buf >>= next)
unfolding put
put-bind P pos bs buf n next size fits later =
    let inside : ltb (length buf) (pos + length bs) ≡ false = ground arith in
    rw inside (
      later (overwrite pos bs buf) (length-overwrite pos bs buf (omega (arith, size, fits)) ∙ size))

-- A buffer of `n` bytes; with it, the position that is reached.
abbrev pub Sized : ℕ → Outcome (List ℕ) → Type 0
Sized n (done buf) = length buf ≡ n
Sized n thrown = ⊥
Sized n undefined = ⊥

abbrev pub Reaches : ℕ → ℕ → Outcome (List ℕ × ℕ) → Type 0
Reaches n end (done (buf, pos)) = (length buf ≡ n) × (pos ≡ end)
Reaches n end thrown = ⊥
Reaches n end undefined = ⊥

pub put-Sized :
    (pos : ℕ) (bs buf : List ℕ) (n : ℕ)
    → length buf ≡ n
    → pos + length bs ≤ n
    → Sized n (put pos bs buf)
unfolding put
put-Sized pos bs buf n size fits =
    let inside : ltb (length buf) (pos + length bs) ≡ false = ground arith in
    rw (inside, Sized) (length-overwrite pos bs buf (omega (arith, size, fits)) ∙ size)

-- A number of `k` bytes.
pub number-bind :
    {B : Type 0} (P : Outcome B → Type 0) (k pos v : ℕ) (buf : List ℕ) (n : ℕ)
    (next : List ℕ → Outcome B)
    → length buf ≡ n
    → pos + k ≤ n
    → ((buf' : List ℕ) → length buf' ≡ n → P (next buf'))
    → P (put pos (bytes_of k v) buf >>= next)
number-bind P k pos v buf n next size fits later =
    put-bind P pos (bytes_of k v) buf n next size (omega (arith, fits, length-bytes_of k v)) later

-- The times are ones that `set_stat` can write.
abbrev pub HasTimes : Stat → Type 0
HasTimes st =
    (st.ctim.nsec + st.ctim.sec * billion < 2 ^ 63)
    × (st.mtim.nsec + st.mtim.sec * billion < 2 ^ 63)

pub set_stat-Sized :
    (st : Stat) (new_char : ℕ → List ℕ) (pos : ℕ) (buf : List ℕ) (n : ℕ)
    → length buf ≡ n
    → pos + 48 ≤ n
    → HasTimes st
    → Sized n (set_stat new_char st pos buf)
unfolding set_stat
set_stat-Sized st new_char pos buf n size fits times =
    let ctime = st.ctim.nsec + st.ctim.sec * billion in
    let mtime = st.mtim.nsec + st.mtim.sec * billion in
    rw (to_ns-done st.ctim times.0, to_ns-done st.mtim times.1)
      (number-bind (Sized n) 4 pos st.mode buf n _ size (omega (arith, fits)) (λ b h.
        number-bind (Sized n) 4 (pos + 4) st.uid b n _ h (omega (arith, fits)) (λ b h.
          number-bind (Sized n) 4 (pos + 8) st.gid b n _ h (omega (arith, fits)) (λ b h.
            number-bind (Sized n) 8 (pos + 16) st.size b n _ h (omega (arith, fits)) (λ b h.
              number-bind (Sized n) 8 (pos + 24) st.blocks b n _ h (omega (arith, fits)) (λ b h.
                number-bind (Sized n) 8 (pos + 40) ctime b n _ h (omega (arith, fits)) (λ b h.
                  put-Sized (pos + 32) (bytes_of 8 mtime) b n h
                    (omega (arith, fits, length-bytes_of 8 mtime)))))))))

-- What the names and values of the attributes take.
abbrev pub payload : Xattrs → ℕ
payload [] = 0
payload ((name, value) ∷ xattrs) = length name + 1 + 8 + (length value + 1) + payload xattrs

pub add_xattr-Reaches :
    (new_char : ℕ → List ℕ) (entry : ℕ) (name value buf : List ℕ) (pos n : ℕ)
    → length buf ≡ n
    → entry + 16 ≤ n
    → pos + (length name + 1) + 8 + (length value + 1) ≤ n
    → Reaches n
        (pos + (length name + 1) + 8 + (length value + 1))
        (add_xattr new_char entry (name, value) buf pos)
unfolding add_xattr
add_xattr-Reaches new_char entry name value buf pos n size slot fits =
    let named = length-c_string name in
    let valued = length-c_string value in
    let end = pos + (length name + 1) + 8 + (length value + 1) in
    number-bind (Reaches n end) 8 entry pos buf n _ size (omega (arith, slot)) (λ b h.
      put-bind (Reaches n end) pos (c_string name) b n _ h (omega (arith, fits, named)) (λ b h.
        number-bind (Reaches n end) 8 (entry + 8) (pos + (length name + 1)) b n _ h
          (omega (arith, slot))
          (λ b h.
            number-bind (Reaches n end) 8 (pos + (length name + 1)) (length value) b n _ h
              (omega (arith, fits))
              (λ b h.
                put-bind (Reaches n end) (pos + (length name + 1) + 8) (c_string value) b n _ h
                  (omega (arith, fits, valued)) (λ b h. (h, refl))))))

-- What follows a step that reaches a position.
pub Reaches-bind :
    {B : Type 0} (P : Outcome B → Type 0) (n end : ℕ) (r : Outcome (List ℕ × ℕ))
    (next : List ℕ × ℕ → Outcome B)
    → Reaches n end r
    → ((buf : List ℕ) → length buf ≡ n → P (next (buf, end)))
    → P (r >>= next)
Reaches-bind P n end (done (buf, pos)) next (size, at) later =
    subst (λ p. P (next (buf, p))) (sym at) (later buf size)
Reaches-bind P n end thrown next h later = absurd h
Reaches-bind P n end undefined next h later = absurd h

pub Sized-bind :
    {B : Type 0} (P : Outcome B → Type 0) (n : ℕ) (r : Outcome (List ℕ)) (next : List ℕ → Outcome B)
    → Sized n r
    → ((buf : List ℕ) → length buf ≡ n → P (next buf))
    → P (r >>= next)
Sized-bind P n (done buf) next size later = later buf size
Sized-bind P n thrown next h later = absurd h
Sized-bind P n undefined next h later = absurd h

pub xattr_loop-Reaches :
    (new_char : ℕ → List ℕ) (xattrs : Xattrs) (entry : ℕ) (buf : List ℕ) (pos n : ℕ)
    → length buf ≡ n
    → entry + 16 * length xattrs ≤ n
    → pos + payload xattrs ≤ n
    → Reaches n (pos + payload xattrs) (xattr_loop new_char entry xattrs buf pos)
unfolding xattr_loop
xattr_loop-Reaches new_char [] entry buf pos n size slots fits = (size, omega arith)
xattr_loop-Reaches new_char ((name, value) ∷ xattrs) entry buf pos n size slots fits =
    Reaches-bind (Reaches n (pos + payload ((name, value) ∷ xattrs))) n _
      (add_xattr new_char entry (name, value) buf pos) _
      (add_xattr-Reaches new_char entry name value buf pos n size (omega (arith, slots))
        (omega (arith, fits)))
      (λ b h.
        let next = pos + (length name + 1) + 8 + (length value + 1) in
        let same : next + payload xattrs ≡ pos + payload ((name, value) ∷ xattrs) = omega arith in
        subst (λ end. Reaches n end (xattr_loop new_char (entry + 16) xattrs b next)) same
          (xattr_loop-Reaches new_char xattrs (entry + 16) b next n h (omega (arith, slots))
            (omega (arith, fits))))

-- What `xattrs_len` is without a wrap: the space of the entries, and that of what they point to.
pub xattrs_len-payload :
    (new_char : ℕ → List ℕ) (xattrs : Xattrs)
    → payload xattrs + 16 * length xattrs < 2 ^ 64
    → xattrs_len new_char xattrs ≡ payload xattrs + 16 * length xattrs
unfolding xattrs_len
xattrs_len-payload new_char [] small = refl
xattrs_len-payload new_char ((name, value) ∷ xattrs) small =
    let rest = xattrs_len-payload new_char xattrs (omega (arith, small)) in
    omega (arith, rest, small)

-- What the names of a directory take, and what `names_len` is without a wrap.
abbrev pub names_size : List (List ℕ) → ℕ
names_size [] = 0
names_size (name ∷ names) = length name + 1 + names_size names

pub names_len-names_size :
    (new_char : ℕ → List ℕ) (names : List (List ℕ))
    → names_size names + 16 * length names < 2 ^ 64
    → names_len new_char names ≡ names_size names + 16 * length names
unfolding names_len
names_len-names_size new_char [] small = refl
names_len-names_size new_char (name ∷ names) small =
    let rest = names_len-names_size new_char names (omega (arith, small)) in
    omega (arith, rest, small)

pub name_loop-Reaches :
    (new_char : ℕ → List ℕ) (names : List (List ℕ)) (dirent : ℕ) (buf : List ℕ) (pos n : ℕ)
    → length buf ≡ n
    → dirent + 16 * length names ≤ n
    → pos + names_size names ≤ n
    → Reaches n (pos + names_size names) (name_loop new_char dirent names buf pos)
unfolding name_loop
name_loop-Reaches new_char [] dirent buf pos n size slots fits = (size, omega arith)
name_loop-Reaches new_char (name ∷ names) dirent buf pos n size slots fits =
    let end = pos + names_size (name ∷ names) in
    let named = length-c_string name in
    put-bind (Reaches n end) pos (c_string name) buf n _ size (omega (arith, fits, named)) (λ b h.
      number-bind (Reaches n end) 8 dirent pos b n _ h (omega (arith, slots)) (λ b h.
        let same : (pos + (length name + 1)) + names_size names ≡ end = omega arith in
        subst
          (λ e. Reaches n e (name_loop new_char (dirent + 16) names b (pos + (length name + 1))))
          same
          (name_loop-Reaches new_char names (dirent + 16) b (pos + (length name + 1)) n h
            (omega (arith, slots)) (omega (arith, fits)))))
