-- ===== src/Network/DistfsMetadata/Hashes.antt =====
-- network/distfs_metadata.cc: the hashes that the constructor from a store computes.
use distfs.Base.{
  ℕ, zero, suc, ◌+◌, ◌%◌, ◌^◌, ◌<◌, List, [], ◌∷◌, length, map, ◌≡◌, refl, ap, subst, sym, arith,
}
use distfs.Common.{ErrorCode}
use distfs.Data.{Filled, filled, failed, ChunkStorage}
use distfs.Meta.Effects.{Outcome, done, thrown, undefined, ◌>>=◌}
use distfs.Network.DistfsMetadata.{DistfsMetadata, multiply_all, hash_of, hash_loop, of_store}

module _ {S : Type 0} (store : ChunkStorage S) (checksum : List ℕ → List ℕ) where
  -- The reads of `n` chunks from `i` on, one after another, all succeed, with `chunks`, and end in `s'`.
  abbrev pub ReadsAll : ℕ → ℕ → S → List (List ℕ) → S → Type 0
  ReadsAll zero i s [] s' = s' ≡ s
  ReadsAll zero i s (c ∷ chunks) s' = ⊥
  ReadsAll (suc n) i s [] s' = ⊥
  ReadsAll (suc n) i s (c ∷ chunks) s' =
      ((store.read_chunk i s).0 ≡ filled c) × ReadsAll n (i + 1) (store.read_chunk i s).1 chunks s'

  -- Of `n` reads from `i` on one fails, and those before it succeed.
  abbrev pub Fails : ℕ → ℕ → S → Type 0
  Fails n i s =
      (k : ℕ) × (chunks : List (List ℕ)) × (s' : S) × (err : ErrorCode) × (k < n)
      × ReadsAll k i s chunks s'
      × ((store.read_chunk (i + k) s').0 ≡ failed err)

  abbrev Loops : ℕ → ℕ → S → Outcome (List (List ℕ) × S) → Type 0
  Loops n i s (done (hashes, s')) =
      (chunks : List (List ℕ)) × ReadsAll n i s chunks s' × (hashes ≡ map checksum chunks)
  Loops n i s thrown = Fails n i s
  Loops n i s undefined = ⊥

  -- What the rest of the loop makes of the reads behind the first.
  Loops-rest :
      (n i : ℕ) (s s1 : S) (c : List ℕ) (rest : Outcome (List (List ℕ) × S))
      → store.read_chunk i s ≡ (filled c, s1)
      → Loops n (i + 1) s1 rest
      → Loops (suc n) i s (rest >>= λ (hashes, s''). done (checksum c ∷ hashes, s''))
  Loops-rest n i s s1 c (done (hashes, s'')) e (chunks, all, sums) = (
    c ∷ chunks,
    (λ j. (e j).0, subst (λ q. ReadsAll n (i + 1) q chunks s'') (sym (λ j. (e j).1)) all),
    ap (◌∷◌ (checksum c)) sums,
  )
  Loops-rest n i s s1 c thrown e (k, chunks, s', err, lt, before, fails) = (
    suc k,
    c ∷ chunks,
    s',
    err,
    omega (arith, lt),
    (λ j. (e j).0, subst (λ q. ReadsAll k (i + 1) q chunks s') (sym (λ j. (e j).1)) before),
    subst (λ m. (store.read_chunk m s').0 ≡ failed err) (omega arith) fails,
  )
  Loops-rest n i s s1 c undefined e l = absurd l

  Loops-next :
      (n i : ℕ) (s : S) (r : Filled × S)
      → store.read_chunk i s ≡ r
      → ((s1 : S) → Loops n (i + 1) s1 (hash_loop store checksum n (i + 1) s1))
      → Loops (suc n) i s (
          hash_of store checksum r >>= λ (hash, s').
          hash_loop store checksum n (i + 1) s' >>= λ (hashes, s''). done (hash ∷ hashes, s''))
  unfolding hash_of
  Loops-next n i s (filled c, s1) e later =
      Loops-rest n i s s1 c (hash_loop store checksum n (i + 1) s1) e (later s1)
  Loops-next n i s (failed err, s1) e later = (
    0,
    [],
    s,
    err,
    omega arith,
    refl,
    subst (λ m. (store.read_chunk m s).0 ≡ failed err) (omega arith) (λ j. (e j).0),
  )

  hash_loop-Loops : (n i : ℕ) (s : S) → Loops n i s (hash_loop store checksum n i s)
  unfolding hash_loop
  hash_loop-Loops zero i s = ([], refl, refl)
  hash_loop-Loops (suc n) i s =
      Loops-next n i s (store.read_chunk i s) refl (λ s1. hash_loop-Loops n (i + 1) s1)

  -- How the constructor ends: with what it has read, or by an exception.
  abbrev pub Hashes : S → Outcome (DistfsMetadata × S) → Type 0
  Hashes s (done (m, s')) =
      (chunks : List (List ℕ)) × ReadsAll (length (store.available s) % 2 ^ 32) 0 s chunks s'
      × (m.block_hashes ≡ map checksum chunks)
      × (m.id ≡ multiply_all 1 (map checksum chunks))
  Hashes s thrown = Fails (length (store.available s) % 2 ^ 32) 0 s
  Hashes s undefined = ⊥

  hashed :
      (s : S) (r : Outcome (List (List ℕ) × S))
      → Loops (length (store.available s) % 2 ^ 32) 0 s r
      → Hashes s (
          r >>= λ (hashes, s').
          done (record { id = multiply_all 1 hashes; block_hashes = hashes }, s'))
  hashed s (done (hashes, s')) (chunks, all, sums) = (chunks, all, sums, ap (multiply_all 1) sums)
  hashed s thrown h = h
  hashed s undefined h = absurd h

  -- The constructor reads the chunks from 0 on, as many as `available` says in 32 bits. If all of them
  -- can be read, the metadata has one hash for each chunk, in order, the checksum of what was read,
  -- and the identifier is the product of the characters of these hashes. It throws only where one of
  -- these reads fails.
  pub of_store-Hashes : (s : S) → Hashes s (of_store store checksum s)
  unfolding of_store
  of_store-Hashes s =
      hashed s (hash_loop store checksum (length (store.available s) % 2 ^ 32) 0 s)
        (hash_loop-Loops (length (store.available s) % 2 ^ 32) 0 s)
