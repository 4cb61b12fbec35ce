-- ===== src/Data/ChunkProvider/Laws.antt =====
-- data/chunk_provider.cc: the cache never shows anything but the chunks of the image.
use distfs.Base.{
  ℕ, ◌+◌, ◌-◌, ◌%◌, ◌^◌, ◌<◌, ◌≤◌, ◌==◌, ltb, List, Option, none, some, length, take, drop, ◌≡◌,
  ◌≢◌, refl, arith, take-take, drop-take, take-append, Bool-cases, inl, inr, get_elem?,
  le→ltb-false, subst,
}
use distfs.Common.{ErrorCode, is_ok}
use distfs.Common.LruCollector.{ids}
use distfs.Common.LruCollector.Laws
use distfs.Common.LruCollector.Update.{used, notify, update-used}
use distfs.Data.{Filled, filled, failed, ChunkStorage}
use distfs.Data.Memory.{overwrite}
use distfs.Data.ChunkProvider.{
  CacheEntry, Entries, ChunkProvider, set_entry, remove_chunk, copy_out, touch, after_fetch,
  after_miss, finish, load, from_cache, read_chunk,
}

-- What is asked of the store and of the client: whatever can be read, at any time, is the chunk that
-- the image has under that identifier.
pub record IsGenuine {S : Type 0} (store : ChunkStorage S) (fetch_chunk : ℕ → S → ErrorCode × S)
    (image : ℕ → Option (List ℕ)) (Genuine : S → Type 0) : Type 0 where
  pub read_image :
      (id : ℕ) (s : S) (bs : List ℕ)
      → Genuine s
      → (store.read_chunk id s).0 ≡ filled bs
      → image id ≡ some bs
  pub read_keeps : (id : ℕ) (s : S) → Genuine s → Genuine (store.read_chunk id s).1
  pub fetch_keeps : (id : ℕ) (s : S) → Genuine s → Genuine (fetch_chunk id s).1

-- An entry that has been loaded with a chunk.
pub record Holds (e : CacheEntry) (bs : List ℕ) : Type 0 where
  pub loaded : e.len ≡ length bs
  pub same : take e.len e.bytes ≡ bs

pub record IsCoherent {S : Type 0} (image : ℕ → Option (List ℕ)) (Genuine : S → Type 0)
    (p : ChunkProvider S) : Type 0 where
  pub genuine : Genuine p.store
  pub cached :
      (id : ℕ) (e : CacheEntry)
      → p.entries id ≡ some e
      → (bs : List ℕ) × (image id ≡ some bs) × Holds e bs
  pub collector : Laws.IsValid p.collector

copy_out-Holds :
    (e : CacheEntry) (bs : List ℕ) (offset len : ℕ)
    → Holds e bs
    → offset ≤ length bs
    → length bs < 2 ^ 32
    → copy_out e offset len ≡ take len (drop offset bs)
unfolding copy_out
copy_out-Holds e bs offset len h within small =
    let room : (e.len + 2 ^ 32 - offset) % 2 ^ 32 ≡ e.len - offset = omega (arith, h.loaded) in
    rw (
      room,
      ← h.same,
      drop-take offset e.len e.bytes,
      take-take len (e.len - offset) (drop offset e.bytes),
    )

Holds-overwrite :
    (bs fresh : List ℕ) → Holds (record { bytes = overwrite 0 bs fresh; len = length bs }) bs
unfolding overwrite
Holds-overwrite bs fresh = record {
  loaded = refl;
  same = take-append bs (drop (0 + length bs) fresh);
}

-- The callback only ever takes entries out.
notify_kept :
    (o : Option ℕ) (f : Entries) (k : ℕ) (e : CacheEntry)
    → notify remove_chunk o f k ≡ some e
    → f k ≡ some e
unfolding remove_chunk
notify_kept none f k e h = h
notify_kept (some i) f k e h = ground arith

touch-IsCoherent :
    {S : Type 0} {image : ℕ → Option (List ℕ)} {Genuine : S → Type 0} (id : ℕ) (p : ChunkProvider S)
    → IsCoherent image Genuine p
    → (p' : ChunkProvider S) × (touch id p ≡ some p') × IsCoherent image Genuine p'
unfolding touch
touch-IsCoherent id p c =
    let (collector', done, valid, recent, size) =
      update-used remove_chunk id p.collector p.entries c.collector in
    let gone = get_elem? (used id (ids p.collector)) p.collector.size in
    (
      record p { collector = collector'; entries = notify remove_chunk gone p.entries },
      rw (done, touch),
      record {
        genuine = c.genuine;
        cached = λ k e h. c.cached k e (notify_kept gone p.entries k e h);
        collector = valid;
      },
    )

module _ {S : Type 0} {store : ChunkStorage S} {fetch_chunk : ℕ → S → ErrorCode × S}
    {image : ℕ → Option (List ℕ)} {Genuine : S → Type 0}
    (laws : IsGenuine store fetch_chunk image Genuine)
    (sizes : (id : ℕ) (bs : List ℕ) → image id ≡ some bs → length bs < 2 ^ 32) (id : ℕ) where
  -- The outcome of the two reads: the image's chunk, or an error, in a state as good as before.
  abbrev Loads : Filled → Type 0
  Loads (filled bs) = image id ≡ some bs
  Loads (failed err) = Unit

  read_image : (r : Filled) (s : S) → Genuine s → (store.read_chunk id s).0 ≡ r → Loads r
  read_image (filled bs) s g e = laws.read_image id s bs g e
  read_image (failed err) s g e = tt

  after_fetch-Loads :
      (q : ErrorCode × S)
      → Genuine q.1
      → Loads (after_fetch store fetch_chunk id q).0
        × Genuine (after_fetch store fetch_chunk id q).1
  unfolding after_fetch
  after_fetch-Loads q g = elim (Bool-cases (is_ok q.0)) [
    | inl good ↦
        rw (good, after_fetch)
          (read_image (store.read_chunk id q.1).0 q.1 g refl, laws.read_keeps id q.1 g)
    | inr bad ↦ rw (bad, after_fetch) (tt, g)
  ]

  after_miss-Loads :
      (r : Filled) (s : S)
      → Genuine s
      → Loads r
      → Loads (after_miss store fetch_chunk id (r, s)).0
        × Genuine (after_miss store fetch_chunk id (r, s)).1
  unfolding after_miss
  after_miss-Loads (failed ErrorCode.not_found) s g l =
      after_fetch-Loads (fetch_chunk id s) (laws.fetch_keeps id s g)
  after_miss-Loads (filled bs) s g l = (l, g)
  after_miss-Loads (failed _) s g l = (tt, g)

  module _ (chunk_size : ℕ) (fresh : List ℕ) (offset len : ℕ) (p : ChunkProvider S) where
    -- What a read may answer: the bytes asked for, of the image's chunk; or an error, if the store
    -- does not have the chunk.
    abbrev pub Answers : Filled → Type 0
    Answers (filled out) =
        (bs : List ℕ) × (image id ≡ some bs)
        × (offset ≤ length bs → out ≡ take len (drop offset bs))
    Answers (failed err) = (bs : List ℕ) → (store.read_chunk id p.store).0 ≢ filled bs

    abbrev pub Reads : Option (Filled × ChunkProvider S) → Type 0
    Reads r =
        (out : Filled) × (p' : ChunkProvider S) × (r ≡ some (out, p'))
        × IsCoherent image Genuine p'
        × Answers out

    set_entry-some :
        (e : CacheEntry) (bs : List ℕ) (k : ℕ) (f : CacheEntry)
        → image id ≡ some bs
        → Holds e bs
        → IsCoherent image Genuine p
        → set_entry p.entries id (some e) k ≡ some f
        → (cs : List ℕ) × (image k ≡ some cs) × Holds f cs
    set_entry-some e bs k f im h c eq = elim (Bool-cases (k == id)) [
      | inl same ↦
          let at : image k ≡ some bs = ground arith in
          let it : e ≡ f = ground arith in (bs, at, subst (λ g. Holds g bs) it h)
      | inr other ↦ c.cached k f (rw other at eq)
    ]

    finish-Reads :
        (r : Filled × S)
        → Loads r.0
        → Genuine r.1
        → IsCoherent image Genuine p
        → ((bs : List ℕ) → (store.read_chunk id p.store).0 ≡ filled bs → r.0 ≡ filled bs)
        → Reads (finish fresh id offset len p r)
    unfolding finish
    finish-Reads (failed err, s) l g c first = (
      failed err,
      record p { store = s; entries = set_entry p.entries id none },
      refl,
      record {
        genuine = g;
        cached = λ k e h. c.cached k e (ground arith);
        collector = c.collector;
      },
      λ bs e. cc (first bs e),
    )
    finish-Reads (filled bs, s) l g c first =
        let ent : CacheEntry = record { bytes = overwrite 0 bs fresh; len = length bs } in
        let loaded : ChunkProvider S = record p {
          store = s;
          entries = set_entry p.entries id (some ent);
        } in
        let holds = Holds-overwrite bs fresh in
        let coherent : IsCoherent image Genuine loaded = record {
          genuine = g;
          cached = λ k e h. set_entry-some ent bs k e l holds c h;
          collector = c.collector;
        } in
        let (p', touched, c') = touch-IsCoherent id loaded coherent in
        (
          filled (copy_out ent offset len),
          p',
          rw (touched, finish),
          c',
          (bs, l, λ within. copy_out-Holds ent bs offset len holds within (sizes id bs l)),
        )

    load-Reads :
        IsCoherent image Genuine p → Reads (load store fetch_chunk chunk_size fresh id offset len p)
    unfolding load after_miss
    load-Reads c =
        let r = store.read_chunk id p.store in
        let kept = laws.read_keeps id p.store c.genuine in
        let (l, g) = after_miss-Loads r.0 r.1 kept (read_image r.0 p.store c.genuine refl) in
        finish-Reads (after_miss store fetch_chunk id r) l g c (λ bs e. rw (e, after_miss))

    from_cache-Reads :
        (o : Option CacheEntry)
        → p.entries id ≡ o
        → IsCoherent image Genuine p
        → Reads (from_cache store fetch_chunk chunk_size fresh id offset len p o)
    unfolding from_cache
    from_cache-Reads none e c = load-Reads c
    from_cache-Reads (some ce) e c = elim (Bool-cases (ltb 0 ce.len)) [
      | inl loaded ↦
          let (bs, im, holds) = c.cached id ce e in
          let (p', touched, c') = touch-IsCoherent id p c in
          (
            filled (copy_out ce offset len),
            p',
            rw (loaded, touched, from_cache),
            c',
            (bs, im, λ within. copy_out-Holds ce bs offset len holds within (sizes id bs im)),
          )
      | inr empty ↦ rw (empty, from_cache) (load-Reads c)
    ]

    -- A read within a chunk always returns, and leaves the cache coherent. If it returns `OK`, the
    -- bytes are those of the image's chunk, whether they came from the cache, the store or the
    -- network; it fails only if the store cannot read the chunk. (The cache is coherent, the offset is
    -- within the chunk, and the store and the client never show a chunk that is not the image's.)
    pub read_chunk-Reads :
        IsCoherent image Genuine p
        → offset + len ≤ chunk_size
        → chunk_size < 2 ^ 32
        → Reads (read_chunk store fetch_chunk chunk_size fresh id offset len p)
    unfolding read_chunk
    read_chunk-Reads c within small =
        let exact : (offset + len) % 2 ^ 32 ≡ offset + len = omega arith in
        rw (exact, le→ltb-false chunk_size (offset + len) within)
          (from_cache-Reads (p.entries id) refl c)
