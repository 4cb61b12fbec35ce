-- ===== src/Meta/Queries/Symlinks.antt =====
-- meta/meta_file_system.cc: `get_symlink` and the buffer that it is given.
use distfs.Base.{
  ℕ, ◌+◌, ◌-◌, ◌%◌, ◌^◌, ◌≤◌, ltb, true, List, ◌++◌, length, take, replicate, ◌≡◌, refl, arith,
  Bool-cases, inl, inr, length-append, length-take, length-replicate, ltb-false, le→ltb-false,
}
use distfs.Common.{ErrorCode}
use distfs.Data.Memory.{length-overwrite}
use distfs.Meta.{Node, node_at}
use distfs.Meta.Effects.{Outcome, done, undefined, ◌>>=◌}
use distfs.Meta.Memory.{string_at}
use distfs.Meta.MetaFileSystem.{is_lnk, get_node_offset}
use distfs.Meta.Queries.{strncpy, assign, get_symlink}

-- A symbolic link, and what it points to.
pub record HasLink (mem path text : List ℕ) : Type 0 where
  pub offset : ℕ
  pub node : Node
  pub found : get_node_offset mem path ≡ done (ErrorCode.ok, offset)
  pub read : node_at mem offset ≡ done node
  pub link : is_lnk node.mode ≡ true
  pub target : string_at mem node.data_offset ≡ done text

-- `strncpy` does not change the size of the buffer, so that `buff[buff_size]` is behind it.
strncpy-assign {ℓ} :
    {R : Type ℓ} (buff s : List ℕ) (n : ℕ) (k : List ℕ → Outcome R)
    → (strncpy buff s n >>= λ b. assign b (length buff) 0 >>= k) ≡ undefined
unfolding strncpy assign
strncpy-assign buff s n k = elim (Bool-cases (ltb (length buff) n)) [
  | inl over ↦ rw over refl
  | inr fits ↦
      let text = take n s ++ replicate (n - length s) 0 in
      let len : 0 + length text ≤ length buff = omega (
        arith,
        length-append (take n s) (replicate (n - length s) 0),
        length-take n s,
        length-replicate {A = ℕ} (n - length s) 0,
        ltb-false (length buff) n fits,
      ) in
      let same = length-overwrite 0 text buff len in
      rw (fits, same, le→ltb-false (length buff) (length buff) (omega arith)) refl
]

-- On a symbolic link, with a buffer of exactly `buff_size` bytes, `get_symlink` always writes out of
-- bounds, whatever the link is.
pub get_symlink-overrun :
    (mem path text buff : List ℕ)
    → HasLink mem path text
    → get_symlink mem path (length buff) buff ≡ undefined
unfolding get_symlink strncpy assign
get_symlink-overrun mem path text buff h =
    rw (h.found, h.read, h.link, h.target)
      (strncpy-assign buff text ((length buff + 2 ^ 64 - 1) % 2 ^ 64) _)
