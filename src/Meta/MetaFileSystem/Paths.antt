-- ===== src/Meta/MetaFileSystem/Paths.antt =====
-- meta/meta_file_system.cc: `get_node_offset` goes down the tree, one component of the path at a time.
use distfs.Base.{
  ℕ, List, [], ◌∷◌, ◌++◌, All, ◌≡◌, ◌≢◌, refl, ap, sym, ◌∙◌, append_assoc, append-nil, ==_ne,
  fun_ext,
}
use distfs.Common.{ErrorCode}
use distfs.Meta.{sizeof_usize}
use distfs.Meta.Effects.{Outcome, done}
use distfs.Meta.MetaFileSystem.{get_child, descend, walk, get_node_offset}

-- A name that can stand in a path.
abbrev pub IsComponent : List ℕ → Type 0
IsComponent c = (c ≢ []) × All (λ b. b ≢ b'/') c

-- `a/b/c`.
abbrev pub render : List (List ℕ) → List ℕ
render [] = []
render (c ∷ []) = c
render (c ∷ d ∷ cs) = c ++ b'/' ∷ render (d ∷ cs)

-- The node that is reached by a step for each component, from a node.
pub resolve : List ℕ → List (List ℕ) → ℕ → Outcome (ErrorCode × ℕ)
resolve mem [] offset = done (ErrorCode.ok, offset)
resolve mem (c ∷ cs) offset = descend mem (get_child mem offset c) (resolve mem cs)

module _ (mem : List ℕ) where
  walk-append :
      (c rest name : List ℕ) (offset : ℕ)
      → All (λ b. b ≢ b'/') c
      → walk mem (c ++ rest) name offset ≡ walk mem rest (name ++ c) offset
  unfolding walk
  walk-append [] rest name offset h = rw append-nil
  walk-append (b ∷ c) rest name offset h = rw (==_ne b b'/' h.0) (
      walk-append c rest (name ++ b ∷ []) offset h.1
      ∙ ap (λ s. walk mem rest s offset) (append_assoc name (b ∷ []) c))

  walk_end :
      (c : List ℕ) (offset : ℕ)
      → c ≢ []
      → walk mem [] c offset ≡ descend mem (get_child mem offset c) (λ n. done (ErrorCode.ok, n))
  unfolding walk
  walk_end [] offset h = absurd (h refl)
  walk_end (b ∷ c) offset h = refl

  walk-resolve :
      (cs : List (List ℕ)) (offset : ℕ)
      → All IsComponent cs
      → walk mem (render cs) [] offset ≡ resolve mem cs offset
  unfolding walk resolve
  walk-resolve [] offset h = refl
  walk-resolve (c ∷ []) offset h =
      ap (λ p. walk mem p [] offset) (sym (append-nil c))
      ∙ walk-append c [] [] offset h.0.1
      ∙ walk_end c offset h.0.0
  walk-resolve (c ∷ d ∷ cs) offset h =
      walk-append c (b'/' ∷ render (d ∷ cs)) [] offset h.0.1
      ∙ ap (descend mem (get_child mem offset c)) (fun_ext λ n. walk-resolve (d ∷ cs) n h.1)

  -- A path of components, with a slash in front, is looked up by going from the root to the child of
  -- each component in turn: the first child that is missing ends the lookup with NOT_FOUND, and the
  -- offset of the last one is the result.
  pub get_node_offset-resolve :
      (cs : List (List ℕ))
      → All IsComponent cs
      → get_node_offset mem (b'/' ∷ render cs) ≡ resolve mem cs sizeof_usize
  unfolding get_node_offset
  get_node_offset-resolve cs h = walk-resolve cs sizeof_usize h
