-- ===== src/Meta/Queries/Xattrs.antt =====
-- meta/meta_file_system.cc: the list that `list_xattr` writes.
use distfs.Base.{
  ℕ, ◌+◌, ◌-◌, ◌≤◌, ◌==◌, ltb, false, List, [], ◌∷◌, ◌++◌, some, length, ◌≡◌, refl, ap, sym, ◌∙◌,
  arith, append_assoc, append-nil, subst,
}
use distfs.Common.{ErrorCode}
use distfs.Meta.{Node, Entry, sizeof_node, node_at, entry_at}
use distfs.Meta.Effects.{done, ◌>>=◌}
use distfs.Meta.Memory.{string_at}
use distfs.Meta.MetaFileSystem.{get_node_offset}
use distfs.Meta.Queries.{xattr_loop, list_xattr}

-- The names, each with its final 0: what `listxattr` is meant to return.
abbrev pub packed : List (List ℕ) → List ℕ
packed [] = []
packed (s ∷ ss) = s ++ 0 ∷ packed ss

-- Their length, counted name by name.
abbrev pub packed_size : List (List ℕ) → ℕ
packed_size [] = 0
packed_size (s ∷ ss) = length s + 1 + packed_size ss

packed_size-append :
    (ss ts : List (List ℕ)) → packed_size (ss ++ ts) ≡ packed_size ss + packed_size ts
packed_size-append [] ts = omega arith
packed_size-append (s ∷ ss) ts = omega (arith, packed_size-append ss ts)

-- The entries from `i` on, with their names.
abbrev pub Names : List ℕ → ℕ → ℕ → List (List ℕ) → Type 0
Names mem entries i [] = Unit
Names mem entries i (s ∷ ss) =
    ((e : Entry) × (entry_at mem entries i ≡ done e) × (string_at mem e.name_offset ≡ done s))
    × Names mem entries (i + 1) ss

Names-drop :
    (mem : List ℕ) (entries : ℕ) (ss ts : List (List ℕ)) (i : ℕ)
    → Names mem entries i (ss ++ ts)
    → Names mem entries (i + length ss) ts
Names-drop mem entries [] ts i h = subst (λ j. Names mem entries j ts) (omega arith) h
Names-drop mem entries (s ∷ ss) ts i h =
    let place : i + 1 + length ss ≡ i + length (s ∷ ss) = omega arith in
    subst (λ j. Names mem entries j ts) place (Names-drop mem entries ss ts (i + 1) h.1)

-- A node with extended attributes of these names.
pub record HasNames (mem path : List ℕ) (names : List (List ℕ)) : Type 0 where
  pub offset : ℕ
  pub node : Node
  pub found : get_node_offset mem path ≡ done (ErrorCode.ok, offset)
  pub read : node_at mem offset ≡ done node
  pub count : node.xattrs_count ≡ length names
  pub named : Names mem (offset + sizeof_node) 0 names

module _ (mem : List ℕ) (entries : ℕ) where
  -- Once the buffer is used up, or if there is none, the loop only counts.
  xattr_loop-counts :
      (ss : List (List ℕ)) (i total : ℕ) (written : List ℕ)
      → Names mem entries i ss
      → xattr_loop mem (length ss) entries i 0 written total
        ≡ done (ErrorCode.ok, written, total + packed_size ss)
  unfolding xattr_loop
  xattr_loop-counts [] i total written h = ap (λ n. done (ErrorCode.ok, written, n)) (omega arith)
  xattr_loop-counts (s ∷ ss) i total written ((e, at, str), more) =
      rw (at, str)
        (xattr_loop-counts ss (i + 1) (total + (length s + 1)) written more
          ∙ ap (λ n. done (ErrorCode.ok, written, n)) (omega arith))

  -- Names that fit are written, and what is left of the buffer is for the rest.
  xattr_loop-writes :
      (ss ts : List (List ℕ)) (i left total : ℕ) (written : List ℕ)
      → Names mem entries i (ss ++ ts)
      → xattr_loop mem (length (ss ++ ts)) entries i (packed_size ss + left) written total
        ≡ xattr_loop mem
            (length ts)
            entries
            (i + length ss)
            left
            (written ++ packed ss)
            (total + packed_size ss)
  unfolding xattr_loop
  xattr_loop-writes [] ts i left total written h =
      let room : packed_size [] + left ≡ left = omega arith in
      let place : i ≡ i + length {A = List ℕ} [] = omega arith in
      let sum : total ≡ total + packed_size [] = omega arith in
      let texts : written ≡ written ++ packed [] = sym (append-nil written) in
      λ k. xattr_loop mem (length ts) entries (place k) (room k) (texts k) (sum k)
  xattr_loop-writes (s ∷ ss) ts i left total written ((e, at, str), more) =
      let res = length s + 1 in
      let room = packed_size ss + left in
      let buff = packed_size (s ∷ ss) + left in
      let rest : buff - res ≡ room = omega arith in
      let used : (buff == 0) ≡ false = ground arith in
      let fits : ltb buff res ≡ false = ground arith in
      let texts : (written ++ (s ++ 0 ∷ [])) ++ packed ss ≡ written ++ packed (s ∷ ss) =
        append_assoc written (s ++ 0 ∷ []) (packed ss)
        ∙ ap (λ xs. written ++ xs) (append_assoc s (0 ∷ []) (packed ss)) in
      let place : i + 1 + length ss ≡ i + length (s ∷ ss) = omega arith in
      let sum : total + res + packed_size ss ≡ total + packed_size (s ∷ ss) = omega arith in
      rw (at, str, used, fits, rest)
        (xattr_loop-writes ss ts (i + 1) left (total + res) (written ++ (s ++ 0 ∷ [])) more
          ∙ (λ k. xattr_loop mem (length ts) entries (place k) left (texts k) (sum k)))

module _ (mem path : List ℕ) where
  list_xattr-split :
      (ss ts : List (List ℕ)) (left : ℕ) (h : HasNames mem path (ss ++ ts))
      → list_xattr mem path (packed_size ss + left) ≡ (
          xattr_loop mem
            (length ts)
            (h.offset + sizeof_node)
            (0 + length ss)
            left
            (packed ss)
            (0 + packed_size ss)
          >>= λ r. done (r.0, r.1, some (r.2)))
  unfolding list_xattr
  list_xattr-split ss ts left h =
      rw
        (
          h.found,
          h.read,
          h.count,
          xattr_loop-writes mem (h.offset + sizeof_node) ss ts 0 left 0 [] h.named,
        )
        refl

  -- `list_xattr` with a buffer that is large enough returns OK and writes every name, each with its
  -- final 0; without a buffer it returns OK and writes nothing. Either way it says how many bytes the
  -- names take.
  pub list_xattr-fits :
      (names : List (List ℕ)) (buff_size : ℕ)
      → HasNames mem path names
      → packed_size names ≤ buff_size
      → (list_xattr mem path buff_size
          ≡ done (ErrorCode.ok, packed names, some (packed_size names)))
        × (list_xattr mem path 0 ≡ done (ErrorCode.ok, [], some (packed_size names)))
  unfolding xattr_loop
  list_xattr-fits names buff_size h room =
      let h' = subst (λ ns. HasNames mem path ns) (sym (append-nil names)) h in
      let exact : packed_size names + (buff_size - packed_size names) ≡ buff_size = omega arith in
      let sum : 0 + packed_size names ≡ packed_size names = omega arith in
      (
        ap (list_xattr mem path) (sym exact)
            ∙ list_xattr-split names [] (buff_size - packed_size names) h'
            ∙ ap (λ n. done (ErrorCode.ok, packed names, some n)) sum,
        ap (list_xattr mem path) (omega arith)
            ∙ list_xattr-split [] names 0 h
            ∙ ap (λ o. o >>= λ r. done (r.0, r.1, some (r.2)))
                (xattr_loop-counts mem (h.offset + sizeof_node) names (0 + 0) (0 + 0) []
                  (subst (λ i. Names mem (h.offset + sizeof_node) i names) (omega arith) (h.named)))
            ∙ ap (λ n. done (ErrorCode.ok, [], some n)) (omega arith),
      )

  -- A buffer that the first names fill exactly is taken for no buffer from there on: the call returns
  -- OK instead of TOO_LONG, and the names that follow are missing from the list.
  pub list_xattr-cut :
      (ss ts : List (List ℕ))
      → HasNames mem path (ss ++ ts)
      → list_xattr mem path (packed_size ss)
        ≡ done (ErrorCode.ok, packed ss, some (packed_size (ss ++ ts)))
  list_xattr-cut ss ts h =
      let exact : packed_size ss ≡ packed_size ss + 0 = omega arith in
      ap (list_xattr mem path) exact
      ∙ list_xattr-split ss ts 0 h
      ∙ ap (λ o. o >>= λ r. done (r.0, r.1, some (r.2)))
          (xattr_loop-counts mem (h.offset + sizeof_node) ts (0 + length ss) (0 + packed_size ss)
            (packed ss) (Names-drop mem (h.offset + sizeof_node) ss ts 0 h.named))
      ∙ ap (λ n. done (ErrorCode.ok, packed ss, some n)) (omega (arith, packed_size-append ss ts))
