-- ===== src/Data/ChunkStore/Bound.antt =====
-- data/chunk_store.cc: what an update of the collector does to the chunks in a store.
use distfs.Base.{
  subst, ℕ, suc, ◌≤◌, ◌==◌, true, List, [], ◌∷◌, Option, none, some, length, take, get_elem?, ◌≡◌,
  refl, ap, ◌∙◌, arith, inl, inr, Bool-cases, length-map, ◌⊎◌,
}
use distfs.Common.LruCollector
use distfs.Common.LruCollector.{LruCollector, ids}
use distfs.Common.LruCollector.Laws
use distfs.Common.LruCollector.Laws.{without}
use distfs.Common.LruCollector.Update.{used, notify, update-used}
use distfs.Common.LruCollector.History.{updates}
use distfs.Data.Posix.{unlinked, Posix}
use distfs.Data.ChunkStore.{ChunkStore, discard, id_to_path, remove_from, remover, touch}
use distfs.Meta.Effects.{done}
use distfs.Network.ChunkAvailability.{insert, has}
use distfs.Network.ChunkAvailability.Sets.{Ascending, has-insert, insert-Ascending}
use distfs.Data.ChunkStore.Sets.{
  discard-Ascending, has-discard, has-take, length-without, has-first, has-used,
}

-- What is known of the chunks of a store: the collector has them all.
pub record IsBound (c : ChunkStore) : Type 0 where
  pub collector : LruCollector.Laws.IsValid c.collector
  pub ascending : Ascending c.in_store
  pub known : (k : ℕ) → has k c.in_store ≡ true → has k (ids c.collector) ≡ true

module _ {F W : Type 0} (posix : Posix F W)
    (removes : (path : List ℕ) (w : W) → (posix.unlink path w).0 ≡ unlinked) where
  -- What the callback leaves in the set.
  abbrev left_by : Option ℕ → List ℕ → List ℕ
  left_by none in_store = in_store
  left_by (some k) in_store = discard k in_store

  notify-left :
      (base_path : List ℕ) (o : Option ℕ) (in_store : List ℕ) (w : W)
      → (notify (remover posix base_path) o (in_store, w)).0 ≡ left_by o in_store
  unfolding remover remove_from
  notify-left base_path none in_store w = refl
  notify-left base_path (some k) in_store w =
      rw (remover, remove_from, removes (id_to_path base_path k) w) refl

  left_by-Ascending :
      (o : Option ℕ) (in_store : List ℕ) → Ascending in_store → Ascending (left_by o in_store)
  left_by-Ascending none in_store a = a
  left_by-Ascending (some k) in_store a = discard-Ascending k in_store a

  left_by-known :
      (n : ℕ) (in_store recent : List ℕ) (o : Option ℕ) (k : ℕ)
      → get_elem? recent n ≡ o
      → length recent ≤ suc n
      → Ascending in_store
      → (has k in_store ≡ true → has k recent ≡ true)
      → has k (left_by o in_store) ≡ true
      → has k (take n recent) ≡ true
  left_by-known n in_store recent none k at le a known h = elim (has-take k n recent le (known h)) [
    | inl here ↦ here
    | inr gone ↦ absurd cc
  ]
  left_by-known n in_store recent (some l) k at le a known h = elim (Bool-cases (k == l)) [
    | inl same ↦ let out = rw (has-discard k l in_store a, same) at h in absurd cc
    | inr other ↦
        let stored : has k in_store ≡ true = rw (has-discard k l in_store a, other) at h in
        elim (has-take k n recent le (known stored)) [
          | inl here ↦ here
          | inr gone ↦ absurd (ground (arith, gone, at))
        ]
  ]

  left_by-has :
      (o : Option ℕ) (in_store : List ℕ) (k : ℕ)
      → Ascending in_store
      → has k (left_by o in_store) ≡ true
      → has k in_store ≡ true
  left_by-has none in_store k a h = h
  left_by-has (some l) in_store k a h = ground (arith, h, has-discard k l in_store a)

  -- What is kept is known to the collector, or for a reason that does not depend on it.
  pub record Keeps (rest : List ℕ) (collector : LruCollector) (in_store : List ℕ) : Type 0 where
    pub valid : LruCollector.Laws.IsValid collector
    pub ascending : Ascending in_store
    pub known :
        (k : ℕ) → has k in_store ≡ true → (has k (ids collector) ≡ true) ⊎ (has k rest ≡ true)

  -- An update keeps this, and the collector knows the chunk then.
  update-Keeps :
      (base_path rest : List ℕ) (id : ℕ) (c : LruCollector) (in_store : List ℕ) (w : W)
      → Keeps (id ∷ rest) c in_store
      → (d : LruCollector) × (in_store' : List ℕ) × (w' : W) × (LruCollector.update
            (remover posix base_path)
            id
            c
            (in_store, w)
          ≡ some (d, (in_store', w')))
        × Keeps rest d in_store'
        × (has id (ids d) ≡ true)
        × (d.size ≡ c.size)
  unfolding has
  update-Keeps base_path rest id c in_store w b =
      let recent = used id (ids c) in
      let o = get_elem? recent c.size in
      let (d, ran, valid, queue, size) =
        update-used (remover posix base_path) id c (in_store, w) b.valid in
      let after = notify (remover posix base_path) o (in_store, w) in
      let left = notify-left base_path o in_store w in
      let fits : length recent ≤ suc c.size = omega (
        arith,
        length-without id (ids c),
        length-map (λ (m : LruCollector.Node). m.id) c.queue,
        b.valid.bounded,
      ) in
      let here = ap (has id) queue ∙ has-first id c.size (without id (ids c)) b.valid.positive in
      (
        d,
        after.0,
        after.1,
        ran,
        record {
          valid = valid;
          ascending = rw left (left_by-Ascending o in_store b.ascending);
          known = λ k h.
              let h' : has k (left_by o in_store) ≡ true = rw left at h in
              elim (b.known k (left_by-has o in_store k b.ascending h')) [
                | inl old ↦ inl (
                    ap (has k) queue
                    ∙ left_by-known c.size in_store recent o k refl fits b.ascending
                        (λ _. has-used k id (ids c) old) h')
                | inr new ↦ elim (Bool-cases (id == k)) [
                  | inl same ↦
                      let e : id ≡ k = ground arith in
                      inl (subst (λ j. has j (ids d) ≡ true) e here)
                  | inr other ↦ inr (rw other at new)
                ]
              ];
        },
        here,
        size,
      )

  -- A store that has been bound stays so when a chunk is used; the collector knows the chunk then.
  pub touch-IsBound :
      (id : ℕ) (c : ChunkStore) (w : W)
      → IsBound c
      → (c' : ChunkStore) × (w' : W) × (touch posix id c w ≡ done (c', w'))
        × IsBound c'
        × (has id (ids c'.collector) ≡ true)
        × (c'.collector.size ≡ c.collector.size)
  unfolding touch has
  touch-IsBound id c w b =
      let (d, in_store, w', ran, k, here, size) =
        update-Keeps c.base_path [] id c.collector c.in_store w (record {
          valid = b.collector;
          ascending = b.ascending;
          known = λ k h. inl (b.known k h);
        }) in
      (
        record c { in_store = in_store; collector = d },
        w',
        rw ran refl,
        record {
          collector = k.valid;
          ascending = k.ascending;
          known = λ j h. elim (k.known j h) [ inl at ↦ at | inr out ↦ absurd cc ];
        },
        here,
        size,
      )

  -- The last loop of the constructor.
  pub updates-Keeps :
      (base_path rest : List ℕ) (c : LruCollector) (in_store : List ℕ) (w : W)
      → Keeps rest c in_store
      → (d : LruCollector) × (in_store' : List ℕ) × (w' : W) × (updates
            (remover posix base_path)
            rest
            c
            (in_store, w)
          ≡ some (d, (in_store', w')))
        × Keeps [] d in_store'
        × (d.size ≡ c.size)
  unfolding updates
  updates-Keeps base_path [] c in_store w b = (c, in_store, w, refl, b, refl)
  updates-Keeps base_path (id ∷ rest) c in_store w b =
      let (d, in_store1, w1, ran, k, here, size) = update-Keeps base_path rest id c in_store w b in
      let (d', in_store2, w2, ran', k', size') = updates-Keeps base_path rest d in_store1 w1 k in
      (d', in_store2, w2, rw (ran, updates) ran', k', size' ∙ size)

  pub insert-IsBound :
      (id : ℕ) (c : ChunkStore)
      → IsBound c
      → has id (ids c.collector) ≡ true
      → IsBound (record c { in_store = insert id c.in_store })
  insert-IsBound id c b here = record {
    collector = b.collector;
    ascending = insert-Ascending id c.in_store b.ascending;
    known = λ k h. elim (Bool-cases (id == k)) [
      | inl same ↦
          let e : id ≡ k = ground arith in subst (λ j. has j (ids c.collector) ≡ true) e here
      | inr other ↦
          b.known k (let at = has-insert k id c.in_store in let h' = rw (at, other) at h in h')
    ];
  }
