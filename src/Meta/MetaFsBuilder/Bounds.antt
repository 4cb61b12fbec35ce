-- ===== src/Meta/MetaFsBuilder/Bounds.antt =====
-- meta/metafs_builder.cc: what is written stays in the room that was reserved for it.
use distfs.Base.{ℕ, ◌+◌, ◌*◌, ◌≤◌, ◌<◌, ◌^◌, List, length, ◌≡◌, refl, sym, ◌∙◌, arith, subst}
use distfs.Meta.Effects.{Outcome, done, thrown, undefined, ◌>>=◌}
use distfs.Meta.Stat.{Stat}
use distfs.Meta.MetaFsBuilder.{
  MetaFsBuilder, Xattrs, bytes_of, c_string, reserve_buffer, set_stat, xattr_loop, add_xattrs,
  xattrs_len, add_node, add_file, add_link, name_loop, names_len, add_dir,
}
use distfs.Meta.MetaFsBuilder.Growth.{IsSound, reserve_buffer-Grows}
use distfs.Meta.MetaFsBuilder.Writes.{
  HasTimes, payload, names_size, names_len-names_size, name_loop-Reaches, length-bytes_of,
  length-c_string, put-bind, Sized, put-Sized, number-bind, set_stat-Sized, Reaches-bind,
  Sized-bind, xattr_loop-Reaches, xattrs_len-payload,
}

-- A builder that has got to a position, in a buffer of `n` bytes.
record IsAt (n end : ℕ) (b : MetaFsBuilder) : Type 0 where
  size : length b.buf ≡ n
  room : b.data_size ≡ n
  at : b.current_pos ≡ end

abbrev Gets : ℕ → ℕ → Outcome MetaFsBuilder → Type 0
Gets n end (done b) = IsAt n end b
Gets n end thrown = ⊥
Gets n end undefined = ⊥

Gets-bind :
    {B : Type 0} (P : Outcome B → Type 0) (n end : ℕ) (r : Outcome MetaFsBuilder)
    (next : MetaFsBuilder → Outcome B)
    → Gets n end r
    → ((b : MetaFsBuilder) → IsAt n end b → P (next b))
    → P (r >>= next)
Gets-bind P n end (done b) next h later = later b h
Gets-bind P n end thrown next h later = absurd h
Gets-bind P n end undefined next h later = absurd h

add_xattrs-Gets :
    (new_char : ℕ → List ℕ) (xattrs : Xattrs) (b : MetaFsBuilder) (n : ℕ)
    → length b.buf ≡ n
    → b.data_size ≡ n
    → b.current_pos + (payload xattrs + 16 * length xattrs) ≤ n
    → Gets n (b.current_pos + (payload xattrs + 16 * length xattrs)) (add_xattrs new_char xattrs b)
unfolding add_xattrs
add_xattrs-Gets new_char xattrs b n size room fits =
    let start = b.current_pos + 16 * length xattrs in
    let end = b.current_pos + (payload xattrs + 16 * length xattrs) in
    Reaches-bind (Gets n end) n (start + payload xattrs)
      (xattr_loop new_char b.current_pos xattrs b.buf start) _
      (xattr_loop-Reaches new_char xattrs b.current_pos b.buf start n size (omega (arith, fits))
        (omega (arith, fits)))
      (λ buf h. record { size = h; room = room; at = omega arith })

-- `set_length` is nothing, or a write within the node.
add_node-Gets :
    (new_char : ℕ → List ℕ) (st : Stat) (xattrs : Xattrs) (set_length : List ℕ → Outcome (List ℕ))
    (b : MetaFsBuilder) (n : ℕ)
    → length b.buf ≡ n
    → b.data_size ≡ n
    → b.current_pos + (72 + (payload xattrs + 16 * length xattrs)) ≤ n
    → HasTimes st
    → ((buf : List ℕ) → length buf ≡ n → Sized n (set_length buf))
    → Gets n
        (b.current_pos + (72 + (payload xattrs + 16 * length xattrs)))
        (add_node new_char st xattrs set_length b)
unfolding add_node
add_node-Gets new_char st xattrs set_length b n size room fits times sets =
    let end = b.current_pos + (72 + (payload xattrs + 16 * length xattrs)) in
    Sized-bind (Gets n end) n (set_stat new_char st b.current_pos b.buf) _
      (set_stat-Sized st new_char b.current_pos b.buf n size (omega (arith, fits)) times)
      (λ buf h. Sized-bind (Gets n end) n (set_length buf) _ (sets buf h) (λ buf h.
        number-bind (Gets n end) 4 (b.current_pos + 48) (length xattrs) buf n _ h
          (omega (arith, fits))
          (λ buf h.
            let b' = record b { buf = buf; current_pos = b.current_pos + 72 } in
            let same : (b.current_pos + 72) + (payload xattrs + 16 * length xattrs) ≡ end =
              omega arith in
            subst (λ e. Gets n e (add_xattrs new_char xattrs b')) same
              (add_xattrs-Gets new_char xattrs b' n h room (omega (arith, fits))))))

-- A node of `size` bytes has been added at the current position.
abbrev pub Adds : MetaFsBuilder → ℕ → Outcome (ℕ × MetaFsBuilder) → Type 0
Adds b size (done (pos, b')) =
    (pos ≡ b.current_pos) × IsSound b' × (b'.current_pos ≡ b.current_pos + size)
Adds b size thrown = ⊥
Adds b size undefined = ⊥

module _ (new_char : ℕ → List ℕ) (news : (n : ℕ) → length (new_char n) ≡ n) where
  -- The buffer behind `reserve_buffer`, and a node in it.
  reserved-Gets :
      {B : Type 0} (P : Outcome B → Type 0) (st : Stat) (xattrs : Xattrs) (extra len : ℕ)
      (set_length : List ℕ → Outcome (List ℕ)) (b : MetaFsBuilder)
      (next : MetaFsBuilder → Outcome B)
      → IsSound b
      → HasTimes st
      → len ≡ 72 + extra + (payload xattrs + 16 * length xattrs)
      → len + b.current_pos < 2 ^ 63
      → ((n : ℕ) (buf : List ℕ)
          → b.current_pos + len ≤ n
          → length buf ≡ n
          → Sized n (set_length buf))
      → ((b1 b' : MetaFsBuilder)
          → reserve_buffer new_char (72 + extra + (payload xattrs + 16 * length xattrs)) b ≡ done b1
          → b.current_pos + len ≤ b1.data_size
          → IsAt b1.data_size (b.current_pos + (72 + (payload xattrs + 16 * length xattrs))) b'
          → P (next b'))
      → P (
          reserve_buffer new_char len b >>= λ b1.
          add_node new_char st xattrs set_length b1 >>= next)
  reserved-Gets P st xattrs extra len set_length b next v times sum small sets later =
      let (b1, ran, g) = reserve_buffer-Grows new_char news len b v small in
      let n = b1.data_size in
      let room : b.current_pos + len ≤ n = omega (arith, g.enough) in
      let node =
        add_node-Gets new_char st xattrs set_length b1 n g.allocated refl
          (omega (arith, room, g.same_pos, sum)) times (λ buf h. sets n buf room h) in
      rw ran (
        Gets-bind P n _ (add_node new_char st xattrs set_length b1) next node
          (λ b' at. later b1 b' (rw (← sum) ran) room (rw g.same_pos at at)))

  -- `add_file` writes nothing beyond the room that it reserves: a node and its attributes.
  pub add_file-Adds :
      (st : Stat) (xattrs : Xattrs) (b : MetaFsBuilder)
      → IsSound b
      → HasTimes st
      → 72 + (payload xattrs + 16 * length xattrs) + b.current_pos < 2 ^ 63
      → Adds b (72 + (payload xattrs + 16 * length xattrs)) (add_file new_char st xattrs b)
  unfolding add_file
  add_file-Adds st xattrs b v times small =
      let len = xattrs_len-payload new_char xattrs (omega (arith, small)) in
      let sum : 72 + xattrs_len new_char xattrs ≡ 72 + 0 + (payload xattrs + 16 * length xattrs) =
        omega (arith, len) in
      reserved-Gets (Adds b (72 + (payload xattrs + 16 * length xattrs))) st xattrs 0
        (72 + xattrs_len new_char xattrs) done b _ v times sum (omega (arith, small, len))
        (λ n buf room h. h)
        (λ b1 b' ran room at. (
          refl,
          record {
            allocated = at.size ∙ sym at.room;
            positive = omega (arith, at.room, room, v.positive);
            within = omega (arith, at.room, at.at, room, len);
          },
          at.at,
        ))

  -- `add_link` too, with the target and its 0.
  pub add_link-Adds :
      (st : Stat) (target : List ℕ) (xattrs : Xattrs) (b : MetaFsBuilder)
      → IsSound b
      → HasTimes st
      → 72 + (length target + 1) + (payload xattrs + 16 * length xattrs) + b.current_pos < 2 ^ 63
      → Adds b
          (72 + (length target + 1) + (payload xattrs + 16 * length xattrs))
          (add_link new_char st target xattrs b)
  unfolding add_link
  add_link-Adds st target xattrs b v times small =
      let len = xattrs_len-payload new_char xattrs (omega (arith, small)) in
      let all = 72 + (length target + 1) + (payload xattrs + 16 * length xattrs) in
      let named = length-c_string target in
      reserved-Gets (Adds b all) st xattrs (length target + 1)
        (72 + (length target + 1) + xattrs_len new_char xattrs) done b _ v times
        (omega (arith, len)) (omega (arith, small, len)) (λ n buf room h. h)
        (λ b1 b' ran room at.
          put-bind (Adds b all) b'.current_pos (c_string target) b'.buf b1.data_size _ at.size
            (omega (arith, named, at.at, room, len))
            (λ buf h.
              number-bind (Adds b all) 8 (b.current_pos + 64) b'.current_pos buf b1.data_size _ h
                (omega (arith, room))
                (λ buf h. (
                  refl,
                  record {
                    allocated = h ∙ sym at.room;
                    positive = omega (arith, at.room, room, v.positive);
                    within = omega (arith, at.room, at.at, room, len);
                  },
                  omega (arith, at.at),
                ))))

  -- The same for a directory, whose entries come with their position.
  abbrev pub AddsDir : MetaFsBuilder → ℕ → ℕ → Outcome ((ℕ × ℕ) × MetaFsBuilder) → Type 0
  AddsDir b entries size (done ((pos, dirent), b')) =
      (pos ≡ b.current_pos)
      × (dirent ≡ b.current_pos + entries)
      × IsSound b'
      × (b'.current_pos ≡ b.current_pos + size)
      × ((b1 : MetaFsBuilder) × (reserve_buffer new_char size b ≡ done b1)
          × (b'.data_size ≡ b1.data_size))
  AddsDir b entries size thrown = ⊥
  AddsDir b entries size undefined = ⊥

  -- `add_dir` reserves exactly what it writes, and so stays within the buffer: a node, its attributes,
  -- an entry for each name and the names. The node is at the position where the builder was, and the
  -- entries come after the attributes; the builder goes on behind the names, and is sound, with the
  -- buffer that `reserve_buffer` makes for just that much. (The builder was sound, the times of the
  -- status are below 2 ^ 63 nanoseconds, and all this ends below 2 ^ 63.)
  pub add_dir-Adds :
      (st : Stat) (sorted_entries : List (List ℕ)) (xattrs : Xattrs) (b : MetaFsBuilder)
      → IsSound b
      → HasTimes st
      → 72
          + (names_size sorted_entries + 16 * length sorted_entries)
          + (payload xattrs + 16 * length xattrs)
          + b.current_pos
        < 2 ^ 63
      → AddsDir b
          (72 + (payload xattrs + 16 * length xattrs))
          (72
            + (names_size sorted_entries + 16 * length sorted_entries)
            + (payload xattrs + 16 * length xattrs))
          (add_dir new_char st sorted_entries xattrs b)
  unfolding add_dir
  add_dir-Adds st sorted_entries xattrs b v times small =
      let len = xattrs_len-payload new_char xattrs (omega (arith, small)) in
      let named = names_len-names_size new_char sorted_entries (omega (arith, small)) in
      let names = names_size sorted_entries + 16 * length sorted_entries in
      let node = 72 + (payload xattrs + 16 * length xattrs) in
      let all = 72 + names + (payload xattrs + 16 * length xattrs) in
      reserved-Gets (AddsDir b node all) st xattrs names
        (72 + names_len new_char sorted_entries + xattrs_len new_char xattrs) _ b _ v times
        (omega (arith, len, named)) (omega (arith, small, len, named))
        (λ n buf room h.
          put-Sized (b.current_pos + 56) (bytes_of 8 (length sorted_entries)) buf n h
            (omega (arith, room, length-bytes_of 8 (length sorted_entries))))
        (λ b1 b' ran room at.
          let start = b'.current_pos + 16 * length sorted_entries in
          number-bind (AddsDir b node all) 8 (b.current_pos + 64) b'.current_pos b'.buf b1.data_size
            _ at.size (omega (arith, room))
            (λ buf h.
              Reaches-bind (AddsDir b node all) b1.data_size (start + names_size sorted_entries)
                (name_loop new_char b'.current_pos sorted_entries buf start) _
                (name_loop-Reaches new_char sorted_entries b'.current_pos buf start b1.data_size h
                  (omega (arith, at.at, room, len, named)) (omega (arith, at.at, room, len, named)))
                (λ buf h. (
                  refl,
                  at.at,
                  record {
                    allocated = h ∙ sym at.room;
                    positive = omega (arith, at.room, room, v.positive);
                    within = omega (arith, at.room, at.at, room, len, named);
                  },
                  omega (arith, at.at),
                  (b1, ran, at.room),
                ))))
