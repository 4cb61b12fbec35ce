-- ===== src/Meta/MetaFsBuilder/Growth.antt =====
-- meta/metafs_builder.cc: the buffer grows until there is room for what is to be written.
use native.Mathlib.Nat.{mul_assoc, mul_comm, pow-suc}
use distfs.Base.{
  ℕ, zero, suc, ◌+◌, ◌*◌, ◌≤◌, ◌<◌, ◌%◌, ◌^◌, ltb, false, List, [], ◌++◌, some, length, drop, ◌≡◌,
  refl, ap, sym, ◌∙◌, arith, inl, inr, Bool-cases, length-append, length-drop, append_assoc,
  append-nil,
}
use distfs.Meta.Effects.{done}
use distfs.Meta.MetaFsBuilder.{MetaFsBuilder, grow, reserve_buffer}

-- A builder between two writes.
pub record IsSound (b : MetaFsBuilder) : Type 0 where
  pub allocated : length b.buf ≡ b.data_size
  pub positive : 0 < b.data_size
  pub within : b.current_pos ≤ b.data_size

-- What has grown out of a buffer: what was in it comes first.
pub record Grows (wanted : ℕ) (b b' : MetaFsBuilder) : Type 0 where
  pub more : List ℕ
  pub kept : b'.buf ≡ b.buf ++ more
  pub allocated : length b'.buf ≡ b'.data_size
  pub enough : wanted ≤ b'.data_size
  pub larger : b.data_size ≤ b'.data_size
  pub same_pos : b'.current_pos ≡ b.current_pos

double_power : (d n : ℕ) → 2 * d * 2 ^ n ≡ d * 2 ^ suc n
double_power d n =
    mul_assoc 2 d (2 ^ n)
    ∙ mul_comm 2 (d * 2 ^ n)
    ∙ mul_assoc d (2 ^ n) 2
    ∙ ap (λ (k : ℕ). d * k) (sym (pow-suc 2 n))

module _ (new_char : ℕ → List ℕ) (news : (n : ℕ) → length (new_char n) ≡ n) where
  Grows-refl :
      (wanted : ℕ) (b : MetaFsBuilder)
      → length b.buf ≡ b.data_size
      → wanted ≤ b.data_size
      → Grows wanted b b
  Grows-refl wanted b allocated enough = record {
    more = [];
    kept = sym (append-nil b.buf);
    allocated = allocated;
    enough = enough;
    larger = omega arith;
    same_pos = refl;
  }

  -- The buffer after a round.
  twice : MetaFsBuilder → MetaFsBuilder
  twice b = record b {
    buf = b.buf ++ drop b.data_size (new_char (2 * b.data_size % 2 ^ 64));
    data_size = 2 * b.data_size % 2 ^ 64;
  }

  twice-allocated :
      (b : MetaFsBuilder)
      → length b.buf ≡ b.data_size
      → b.data_size < 2 ^ 63
      → ((twice b).data_size ≡ 2 * b.data_size) × (length (twice b).buf ≡ (twice b).data_size)
  unfolding twice
  twice-allocated b allocated small =
      let size = 2 * b.data_size % 2 ^ 64 in
      (
        omega (arith, small),
        omega (
          arith,
          small,
          allocated,
          news size,
          length-drop b.data_size (new_char size),
          length-append b.buf (drop b.data_size (new_char size)),
        ),
      )

  grow-Grows :
      (fuel wanted : ℕ) (b : MetaFsBuilder)
      → length b.buf ≡ b.data_size
      → wanted < 2 ^ 63
      → wanted ≤ b.data_size * 2 ^ fuel
      → (b' : MetaFsBuilder) × (grow new_char (suc fuel) wanted b ≡ some b') × Grows wanted b b'
  unfolding grow twice
  grow-Grows zero wanted b allocated small enough =
      let room : wanted ≤ b.data_size = omega (arith, enough) in
      let stops : ltb b.data_size wanted ≡ false = ground arith in
      (b, rw stops refl, Grows-refl wanted b allocated room)
  grow-Grows (suc fuel) wanted b allocated small enough =
      elim (Bool-cases (ltb b.data_size wanted)) [
        | inr room ↦ (b, rw room refl, Grows-refl wanted b allocated (ground arith))
        | inl less ↦
            let below : b.data_size < wanted = ground arith in
            let (double, allocated') = twice-allocated b allocated (omega arith) in
            let enough' : wanted ≤ (twice b).data_size * 2 ^ fuel =
              rw double (omega (arith, enough, double_power b.data_size fuel)) in
            let (b', ran, g) = grow-Grows fuel wanted (twice b) allocated' small enough' in
            (
              b',
              rw (grow, less) ran,
              record {
                more = drop b.data_size (new_char (2 * b.data_size % 2 ^ 64)) ++ g.more;
                kept = g.kept ∙ append_assoc b.buf _ g.more;
                allocated = g.allocated;
                enough = g.enough;
                larger = omega (arith, g.larger, double);
                same_pos = g.same_pos;
              },
            )
      ]

  -- `reserve_buffer` ends with room for `length` bytes from the current position on, and keeps what is
  -- in the buffer. (The buffer is not empty, and the sum of the two is below 2 ^ 63.)
  pub reserve_buffer-Grows :
      (length : ℕ) (b : MetaFsBuilder)
      → IsSound b
      → length + b.current_pos < 2 ^ 63
      → (b' : MetaFsBuilder) × (reserve_buffer new_char length b ≡ done b')
        × Grows (length + b.current_pos) b b'
  unfolding reserve_buffer
  reserve_buffer-Grows length b v small =
      let wanted = (length + b.current_pos) % 2 ^ 64 in
      let same : wanted ≡ length + b.current_pos = omega arith in
      let (b', ran, g) =
        grow-Grows 64 wanted b v.allocated (omega (arith, small))
          (omega (arith, small, v.positive)) in
      (b', rw ran refl, rw same at g)
