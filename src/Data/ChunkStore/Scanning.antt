-- ===== src/Data/ChunkStore/Scanning.antt =====
-- data/chunk_store.cc: the set that the constructor finds is in order.
use distfs.Base.{subst, ◌%◌, ◌^◌, ℕ, List, [], ◌∷◌, ◌++◌, refl, inl, inr, Bool-cases, Option-cases}
use distfs.Data.Posix.{Posix}
use distfs.Network.ChunkAvailability.{insert}
use distfs.Network.ChunkAvailability.Sets.{Ascending, insert-Ascending}
use distfs.Data.ChunkStore.{slash, is_dots, scan, scan_chunks, scan_dirs, visiting}

-- The sets that the loops of the constructor make are in order.
module _ {F W : Type 0} (posix : Posix F W) where
  scan_chunks-Ascending :
      (names : List (List ℕ)) (in_store : List ℕ)
      → Ascending in_store
      → Ascending (scan_chunks posix names in_store)
  unfolding scan_chunks
  scan_chunks-Ascending [] in_store a = a
  scan_chunks-Ascending (name ∷ names) in_store a = elim (Option-cases (posix.strtol name)) [
    | inl none_ ↦
        subst Ascending (rw (scan_chunks, none_) refl) (scan_chunks-Ascending names in_store a)
    | inr (id, some_) ↦ elim (Bool-cases (is_dots posix name)) [
      | inl dots ↦
          subst Ascending (rw (scan_chunks, some_, dots) refl)
            (scan_chunks-Ascending names in_store a)
      | inr plain ↦ subst Ascending (rw (scan_chunks, some_, plain) refl) (
          scan_chunks-Ascending names (insert (id % 2 ^ 32) in_store)
            (insert-Ascending (id % 2 ^ 32) in_store a))
    ]
  ]

  visiting-Ascending :
      (w : W) (visit : List (List ℕ) → List ℕ → List ℕ) (path in_store : List ℕ)
      → ((names : List (List ℕ)) (s : List ℕ) → Ascending s → Ascending (visit names s))
      → Ascending in_store
      → Ascending (visiting posix w visit path in_store)
  unfolding visiting
  visiting-Ascending w visit path in_store each a = elim (Option-cases (posix.entries path w)) [
    | inl none_ ↦ subst Ascending (rw (visiting, none_) refl) a
    | inr (names, some_) ↦ subst Ascending (rw (visiting, some_) refl) (each names in_store a)
  ]

  scan_dirs-Ascending :
      (visit : List ℕ → List ℕ → List ℕ) (path : List ℕ) (names : List (List ℕ)) (in_store : List ℕ)
      → ((p s : List ℕ) → Ascending s → Ascending (visit p s))
      → Ascending in_store
      → Ascending (scan_dirs posix visit path names in_store)
  unfolding scan_dirs
  scan_dirs-Ascending visit path [] in_store each a = a
  scan_dirs-Ascending visit path (name ∷ names) in_store each a =
      elim (Bool-cases (is_dots posix name)) [
        | inl dots ↦ rw dots (scan_dirs-Ascending visit path names in_store each a)
        | inr plain ↦ rw plain (
            scan_dirs-Ascending visit path names (visit (path ++ slash ∷ name) in_store) each
              (each (path ++ slash ∷ name) in_store a))
      ]

  pub scan-Ascending : (base_path : List ℕ) (w : W) → Ascending (scan posix base_path w)
  unfolding scan
  scan-Ascending base_path w =
      visiting-Ascending w _ base_path []
        (λ names s a.
          scan_dirs-Ascending _ base_path names s
            (λ p t b.
              visiting-Ascending w _ p t
                (λ names' s' a'.
                  scan_dirs-Ascending _ p names' s'
                    (λ q u c. visiting-Ascending w _ q u scan_chunks-Ascending c) a')
                b)
            a)
        tt
