-- ===== src/Common/LruCollector/Update.antt =====
-- common/lru_collector.cc: what `update` does to a sound collector.
use distfs.Base.{
  ℕ, suc, ◌-◌, ◌≤◌, ◌<◌, leb, List, [], ◌∷◌, Option, none, some, length, take, ◌≡◌, ◌≢◌, refl, ap,
  arith, take_all, inl, inr, Bool-cases, leb→le, get_elem?, length-map, get_elem?_past, sym, ◌∙◌,
}
use distfs.Common.LruCollector.{
  Node, LruCollector, put, erase_node, back, pop_back, push_front, evict, make_room, update, ids,
}
use distfs.Common.LruCollector.Laws.{
  find, Distinct, IsValid, without, node_ids, without_absent, Distinct-erase_node,
  erase_node-without, length-erase_node, find-erase_node,
}
use distfs.Common.LruCollector.Eviction.{
  back-some, Distinct-pop_back, length-pop_back, ids-pop_back, find-pop_back, back-get_elem?,
  Distinct-suc, All-fresh,
}

-- An identifier used once more: it goes to the front, and stands nowhere else.
abbrev pub used : ℕ → List ℕ → List ℕ
used id h = id ∷ without id h

-- The callback, called for at most one identifier.
abbrev pub notify {ℓ} : {S : Type ℓ} → (ℕ → S → S) → Option ℕ → S → S
notify remover none s = s
notify remover (some k) s = remover k s

-- What is left to do once there is room.
record Room (id : ℕ) (c : LruCollector) : Type 0 where
  positive : 0 < c.size
  space : length c.queue < c.size
  distinct : Distinct c.next_handle c.queue
  indexed : (k : ℕ) → k ≢ id → c.iterators k ≡ find k c.queue
  absent : find id c.queue ≡ none

push_front-IsValid : (id : ℕ) (c : LruCollector) → Room id c → IsValid (push_front id c)
unfolding push_front
push_front-IsValid id c r = record {
  positive = r.positive;
  bounded = r.space;
  distinct = (omega arith, All-fresh _ id c.queue r.distinct r.absent, Distinct-suc _ _ r.distinct);
  indexed = λ k. ground (arith, r.indexed k);
}

-- The result of `make_room`, by the way it was reached.
module _ {ℓ} {S : Type ℓ} (remover : ℕ → S → S) (id : ℕ) (c : LruCollector) (s : S)
    (v : IsValid c) where
  Makes : Option (LruCollector × S) → Type ℓ
  Makes r =
      (c' : LruCollector) × (r ≡ some (c', notify remover (get_elem? (used id (ids c)) c.size) s))
      × Room id c'
      × (id ∷ ids c' ≡ take c.size (used id (ids c)))
      × (c'.size ≡ c.size)

  make_room-hit : (it : ℕ) → c.iterators id ≡ some it → Makes (make_room remover c s (some it))
  unfolding make_room Makes
  make_room-hit it e =
      let found : find id c.queue ≡ some it = sym (v.indexed id) ∙ e in
      let shorter = length-erase_node c.next_handle id it c.queue v.distinct found in
      let same = erase_node-without c.next_handle id it c.queue v.distinct found in
      let len = length-map (λ (n : Node). n.id) (erase_node it c.queue) in
      let fits : length (used id (ids c)) ≤ c.size = rw (← same) (omega (arith, v.bounded)) in
      (
        record c { queue = erase_node it c.queue },
        rw (get_elem?_past c.size (used id (ids c)) fits),
        record {
          positive = v.positive;
          space = omega (arith, v.bounded);
          distinct = Distinct-erase_node _ it c.queue v.distinct;
          indexed = λ k other.
              v.indexed k
              ∙ ground (arith, find-erase_node c.next_handle id it k c.queue v.distinct found);
          absent = ground (arith, find-erase_node c.next_handle id it id c.queue v.distinct found);
        },
        rw (take_all c.size (used id (ids c)) fits, same),
        refl,
      )

  ids_absent : find id c.queue ≡ none → without id (ids c) ≡ ids c
  ids_absent absent =
      without_absent id c.queue c.next_handle (All-fresh _ id c.queue v.distinct absent)

  evicted :
      (n : Node) (ns : List Node) (l : Node)
      → c.queue ≡ n ∷ ns
      → back c.queue ≡ some l
      → length c.queue ≡ c.size
      → find id c.queue ≡ none
      → get_elem? (used id (ids c)) c.size ≡ some l.id
  evicted n ns l shape last full absent =
      let size : c.size ≡ suc (length ns) = omega (arith, ap length shape) in
      rw (size, ids_absent absent, shape) (back-get_elem? n ns l (rw shape at last))

  kept :
      (n : Node) (ns : List Node)
      → c.queue ≡ n ∷ ns
      → length c.queue ≡ c.size
      → find id c.queue ≡ none
      → node_ids (pop_back c.queue) ≡ take (c.size - 1) (without id (ids c))
  kept n ns shape full absent =
      let size : length ns ≡ c.size - 1 = omega (arith, ap length shape) in
      rw (ids_absent absent, shape, ← size) (ids-pop_back n ns)

  make_room-evict :
      (n : Node) (ns : List Node)
      → c.queue ≡ n ∷ ns
      → length c.queue ≡ c.size
      → find id c.queue ≡ none
      → Makes (evict remover c s)
  unfolding evict Makes
  make_room-evict n ns shape full absent =
      let (l, ends) = back-some n ns in
      let last : back c.queue ≡ some l = rw shape ends in
      let size : c.size ≡ suc (c.size - 1) = omega (arith, v.positive) in
      (
        record c { queue = pop_back c.queue; iterators = put c.iterators l.id none },
        rw (last, evict, evicted n ns l shape last full absent),
        record {
          positive = v.positive;
          space = rw shape (omega (arith, length-pop_back n ns, ap length shape));
          distinct = Distinct-pop_back _ c.queue v.distinct;
          indexed = λ k other.
              ground (arith, v.indexed k, find-pop_back c.next_handle k c.queue l v.distinct last);
          absent = ground (arith, find-pop_back c.next_handle id c.queue l v.distinct last);
        },
        rw size (ap (◌∷◌ id) (kept n ns shape full absent)),
        refl,
      )

  make_room-keep : length c.queue < c.size → find id c.queue ≡ none → Makes (some (c, s))
  unfolding Makes
  make_room-keep space absent =
      let len = length-map (λ (n : Node). n.id) c.queue in
      let fits : length (used id (ids c)) ≤ c.size = rw (ids_absent absent) (omega arith) in
      (
        c,
        rw (get_elem?_past c.size (used id (ids c)) fits),
        record {
          positive = v.positive;
          space = space;
          distinct = v.distinct;
          indexed = λ k other. v.indexed k;
          absent = absent;
        },
        rw (take_all c.size (used id (ids c)) fits, ids_absent absent),
        refl,
      )

  make_room-full :
      (q : List Node)
      → c.queue ≡ q
      → c.size ≤ length c.queue
      → find id c.queue ≡ none
      → Makes (evict remover c s)
  make_room-full [] shape full absent = absurd (omega (arith, v.positive, ap length shape))
  make_room-full (n ∷ ns) shape full absent =
      make_room-evict n ns shape (omega (arith, v.bounded)) absent

  make_room-miss : c.iterators id ≡ none → Makes (make_room remover c s none)
  unfolding make_room
  make_room-miss e =
      let absent : find id c.queue ≡ none = sym (v.indexed id) ∙ e in
      elim (Bool-cases (leb c.size (length c.queue))) [
        | inl full ↦ rw full (make_room-full c.queue refl (leb→le _ _ full) absent)
        | inr space ↦ rw space (make_room-keep (ground arith) absent)
      ]

  make_room-Makes : (it : Option ℕ) → c.iterators id ≡ it → Makes (make_room remover c s it)
  make_room-Makes none e = make_room-miss e
  make_room-Makes (some it) e = make_room-hit it e

  -- On a sound collector `update` succeeds. Afterwards the collector is sound and of the same size;
  -- the queue holds the first `size` of the identifiers used so far, the new one in front and each
  -- once; and the callback was called exactly for the identifier that this leaves out, if there is
  -- one.
  pub update-used :
      (c' : LruCollector) × (update remover id c s
        ≡ some (c', notify remover (get_elem? (used id (ids c)) c.size) s))
      × IsValid c'
      × (ids c' ≡ take c.size (used id (ids c)))
      × (c'.size ≡ c.size)
  unfolding update push_front Makes
  update-used =
      let (d, made, room, recent, size) = make_room-Makes (c.iterators id) refl in
      (push_front id d, rw (made, update), push_front-IsValid id d room, recent, size)
