-- ===== src/Data/CompressedStore/Laws.antt =====
-- data/compressed_store.cc: compression is invisible, where LZ4 succeeds.
use distfs.Base.{
  ℕ, ◌==◌, if◌then◌else◌, ◌≡◌, refl, ap, Option, some, none, List, arith, Bool-cases, inl, inr, ◌∙◌,
  sym,
}
use distfs.Common.{ErrorCode}
use distfs.Data.{filled, ChunkStorage, IsStorage}
use distfs.Data.CompressedStore.{
  Lz4, compress, decompress, decompressed, read_chunk, write_chunk, compressed_store,
}

-- A chunk that compresses within the buffer, to something that decompresses to it.
abbrev pub Compresses : Lz4 → ℕ → (List ℕ → Type 0) → List ℕ → Type 0
Compresses lz4 chunk_size Accepts bs =
    (zs : List ℕ) × (compress lz4 chunk_size bs ≡ some zs)
    × (decompress lz4 chunk_size zs ≡ some bs)
    × Accepts zs

abbrev expand : Lz4 → ℕ → Option (List ℕ) → Option (List ℕ)
expand lz4 chunk_size none = none
expand lz4 chunk_size (some zs) = decompress lz4 chunk_size zs

module _ {S : Type 0} (lz4 : Lz4) (chunk_size : ℕ) (Healthy : S → Type 0)
    (contents : S → ℕ → Option (List ℕ)) where
  -- The chunks of the store below, decompressed.
  abbrev pub plain : S → ℕ → Option (List ℕ)
  plain s id = expand lz4 chunk_size (contents s id)

  -- The store below is healthy, and every chunk in it decompresses.
  pub record Expands (s : S) : Type 0 where
    pub below : Healthy s
    pub expands :
        (id : ℕ) (zs : List ℕ)
        → contents s id ≡ some zs
        → (bs : List ℕ) × (decompress lz4 chunk_size zs ≡ some bs)

module _ {S : Type 0} (lz4 : Lz4) (chunk_size : ℕ) {store : ChunkStorage S} {Healthy : S → Type 0}
    {contents : S → ℕ → Option (List ℕ)} {Accepts : List ℕ → Type 0}
    (laws : IsStorage store Healthy contents Accepts) where
  read_stored :
      (id : ℕ) (s : S) (bs : List ℕ) (c : Option (List ℕ))
      → Healthy s
      → contents s id ≡ c
      → expand lz4 chunk_size c ≡ some bs
      → (read_chunk lz4 chunk_size store id s).0 ≡ filled bs
  unfolding read_chunk
  read_stored id s bs none h e x = cc
  read_stored id s bs (some zs) h e x = rw (laws.read_stored id s zs h e, decompressed, x)

  read_missing :
      (id : ℕ) (s : S) (c : Option (List ℕ))
      → Expands lz4 chunk_size Healthy contents s
      → contents s id ≡ c
      → expand lz4 chunk_size c ≡ none
      → (contents s id ≡ none)
  read_missing id s none h e x = e
  read_missing id s (some zs) h e x = let (bs, ok) = h.expands id zs e in cc

  written :
      (id k : ℕ) (bs : List ℕ) (s : S) (a : Compresses lz4 chunk_size Accepts bs)
      → Healthy s
      → (write_chunk lz4 chunk_size store id bs s).0 ≡ ErrorCode.ok
      → contents (write_chunk lz4 chunk_size store id bs s).1 k
        ≡ (if k == id then some a.0 else contents s k)
  unfolding write_chunk
  written id k bs s (zs, small, back, a) h e =
      rw (small, write_chunk) (laws.write_stores id k zs s h a (rw (small, write_chunk) at e))

  written_healthy :
      (id : ℕ) (bs : List ℕ) (s : S)
      → Compresses lz4 chunk_size Accepts bs
      → Healthy s
      → (write_chunk lz4 chunk_size store id bs s).0 ≡ ErrorCode.ok
      → Healthy (write_chunk lz4 chunk_size store id bs s).1
  unfolding write_chunk
  written_healthy id bs s (zs, small, back, a) h e =
      rw (small, write_chunk) (laws.write_healthy id zs s h a (rw (small, write_chunk) at e))

  stored_cases :
      (id : ℕ) (s : S) (bs : List ℕ) (c : Option (List ℕ))
      → contents s id ≡ c
      → expand lz4 chunk_size c ≡ some bs
      → (zs : List ℕ) × (contents s id ≡ some zs)
  stored_cases id s bs none e x = cc
  stored_cases id s bs (some zs) e x = (zs, e)

  Expands-if :
      (id k : ℕ) (bs : List ℕ) (s : S) (a : Compresses lz4 chunk_size Accepts bs)
      → Expands lz4 chunk_size Healthy contents s
      → (zs : List ℕ) → (if k == id then some a.0 else contents s k) ≡ some zs
      → (bs' : List ℕ) × (decompress lz4 chunk_size zs ≡ some bs')
  Expands-if id k bs s (ys, small, back, a) h zs e = elim (Bool-cases (k == id)) [
    | inl same ↦ (bs, ground arith)
    | inr other ↦ h.expands k zs (rw other at e)
  ]

  -- Over a store that is a map from identifiers to chunks, the compressed store is such a map too,
  -- as long as every stored chunk decompresses and every chunk written compresses without loss.
  pub compressed_store-IsStorage :
      IsStorage
        (compressed_store lz4 chunk_size store)
        (Expands lz4 chunk_size Healthy contents)
        (plain lz4 chunk_size Healthy contents)
        (Compresses lz4 chunk_size Accepts)
  unfolding compressed_store
  compressed_store-IsStorage = record {
    read_stored = λ id s bs h e. read_stored id s bs (contents s id) h.below refl e;
    read_missing = λ id s h e.
        unfold read_chunk in
        rw (laws.read_missing id s h.below (read_missing id s (contents s id) h refl e)) refl;
    read_keeps = λ id k s h.
        unfold read_chunk in ap (expand lz4 chunk_size) (laws.read_keeps id k s h.below);
    read_healthy = λ id s h.
        unfold read_chunk in
        record {
          below = laws.read_healthy id s h.below;
          expands = λ k zs e. h.expands k zs (sym (laws.read_keeps id k s h.below) ∙ e);
        };
    write_stores = λ id k bs s h a e.
        ap (expand lz4 chunk_size) (written id k bs s a h.below e) ∙ expand_if id k bs s a;
    write_healthy = λ id bs s h a e. record {
      below = written_healthy id bs s a h.below e;
      expands = λ k zs e'. Expands-if id k bs s a h zs (sym (written id k bs s a h.below e) ∙ e');
    };
    available_stored = λ id s bs h e.
        let (zs, e') = stored_cases id s bs (contents s id) refl e in
        laws.available_stored id s zs h.below e';
    available_missing = λ id s h e.
        laws.available_missing id s h.below (read_missing id s (contents s id) h refl e);
  }
    where
      expand_if :
          (id k : ℕ) (bs : List ℕ) (s : S) (a : Compresses lz4 chunk_size Accepts bs)
          → expand lz4 chunk_size (if k == id then some a.0 else contents s k)
            ≡ (if k == id then some bs else expand lz4 chunk_size (contents s k))
      expand_if id k bs s (zs, small, back, a) = ground arith
