-- ===== src/Meta/MetaFileSystem.antt =====
-- meta/meta_file_system.h and meta/meta_file_system.cc: lookups in the tree.
-- `mem` is the block that `data` points to. A path or name is its bytes, without the final 0.
pub mod Search
pub mod Paths
mod Tests
use Prim.Native.Nat.{compare, Ordering}
use distfs.Base.{
  ℕ, zero, suc, ◌+◌, ◌-◌, ◌*◌, ◌/◌, ◌%◌, ◌^◌, ◌==◌, ltb, leb, if◌then◌else◌, Bool, true, false, not,
  ◌&&◌, List, [], ◌∷◌, ◌++◌, Option, none, some, length, take, drop, bit_and, replicate,
}
use distfs.Common.{ErrorCode, is_ok}
use distfs.Meta.{Node, Entry, sizeof_node, sizeof_usize, node_at, entry_at}
use distfs.Meta.Effects.{Outcome, done, thrown, undefined, ◌>>=◌}
use distfs.Meta.Memory.{string_at, strcmp, u64_at}
use distfs.Data.Memory.{overwrite}

-- S_ISREG, S_ISLNK and S_ISDIR.
unfoldable pub is_reg : ℕ → Bool
is_reg mode = bit_and mode 0xF000 == 0x8000

unfoldable pub is_lnk : ℕ → Bool
is_lnk mode = bit_and mode 0xF000 == 0xA000

unfoldable pub is_dir : ℕ → Bool
is_dir mode = bit_and mode 0xF000 == 0x4000

module _ (mem : List ℕ) where
  -- `strcmp(data + ents[i].name_offset, name)`.
  pub compare_name : List ℕ → ℕ → ℕ → Outcome Ordering
  compare_name name ents i = do
    e ← entry_at mem ents i
    s ← string_at mem e.name_offset
    done (strcmp s name)

  -- `ents[i].data_offset`.
  pub target : ℕ → ℕ → Outcome ℕ
  target ents i = do e ← entry_at mem ents i; done (e.data_offset)

  -- The test after the loop.
  pub last_test : List ℕ → ℕ → ℕ → Outcome ℕ
  unfolding compare_name target
  last_test name ents a = do
    x ← compare_name name ents a
    elim x [ Ordering.eq ↦ target ents a | _ ↦ done 0 ]

  -- `while (a < b)`, on fuel. `b` may be -1: `top` is b + 1. A sum of two `int` that is too large is
  -- undefined, and so is, here, a lack of fuel.
  pub search_loop : ℕ → List ℕ → ℕ → ℕ → ℕ → Outcome ℕ
  unfolding compare_name target last_test
  search_loop zero name ents a top = if ltb (a + 1) top then undefined else last_test name ents a
  search_loop (suc fuel) name ents a top =
      let sum = a + (top - 1) in
      let m = sum / 2 in
      let upper = search_loop fuel name ents (m + 1) top in
      let lower = search_loop fuel name ents a m in
      if ltb (a + 1) top
      then (if ltb sum (2 ^ 31)
          then (compare_name name ents m >>= λ x. elim x [
            | Ordering.eq ↦ target ents m
            | Ordering.lt ↦ upper
            | Ordering.gt ↦ lower
          ])
          else undefined)
      else last_test name ents a

  -- `ents_size - 1` as an `int` is negative from 2 ^ 31 + 1 on.
  pub find_entity : List ℕ → ℕ → ℕ → Outcome ℕ
  find_entity name ents ents_size =
      if ents_size == 0
      then done 0
      else search_loop ents_size name ents 0 (if leb ents_size (2 ^ 31) then ents_size else 0)

  pub get_child : ℕ → List ℕ → Outcome ℕ
  get_child offset name = do
    n ← node_at mem offset
    if is_dir n.mode then find_entity name (offset + sizeof_node) (n.length % 2 ^ 32) else done 0

  -- What follows a call of `get_child`: `n == 0` means that there is no such child.
  abbrev pub descend : Outcome ℕ → (ℕ → Outcome (ErrorCode × ℕ)) → Outcome (ErrorCode × ℕ)
  descend child go = child >>= λ n. if n == 0 then done (ErrorCode.not_found, 0) else go n

  -- The loop over the path, with the name read so far, and the test behind it.
  unfoldable pub walk : List ℕ → List ℕ → ℕ → Outcome (ErrorCode × ℕ)
  unfolding get_child
  walk [] [] offset = done (ErrorCode.ok, offset)
  walk [] (c ∷ cs) offset = descend (get_child offset (c ∷ cs)) (λ n. done (ErrorCode.ok, n))
  walk (c ∷ path) name offset =
      let next = descend (get_child offset name) (walk path []) in
      let longer = walk path (name ++ c ∷ []) offset in if c == b'/' then next else longer

  -- The path begins with a slash, or the call throws. The root stands behind the length.
  unfoldable pub get_node_offset : List ℕ → Outcome (ErrorCode × ℕ)
  unfolding walk
  get_node_offset [] = thrown
  get_node_offset (c ∷ path) = if c == b'/' then walk path [] sizeof_usize else thrown
