-- ===== src/Network/ConnectionPool/Tracking.antt =====
-- network/connection_pool.cc: the connections, the active peers and the candidates go together.
use mathlib.Core.Logic.{ite}
use distfs.Base.{
  none, ◌⊎◌, ◌<◌, ◌-◌, Bool, true, false, List, [], ◌∷◌, ◌++◌, some, length, ◌≡◌, ◌≢◌, inl, inr,
  refl, ap, sym, ◌∙◌, arith, Bool-cases, length-append, not,
}
use distfs.Common.OrderedSet
use distfs.Common.OrderedSet.{OrderedSet, contains, erase, push, pop}
use distfs.Common.OrderedSet.Laws.{Distinct, newest, push-newest, pop-oldest}
use distfs.Meta.Effects.{undefined, done}
use distfs.Network.ChunkAvailability.{less}
use distfs.Network.ConnectionPool.{Host, Connection, insert_sorted, sort, push_all}
use distfs.Network.ConnectionPool.Peers.{
  contains-append_lem, contains-drop, contains-erase, Distinct-erase, length-erase, erase-middle,
  Distinct-middle, Distinct-without,
}

-- The URLs of the connections.
abbrev pub urls : {Url Stub : Type 0} → List (Connection Url Stub) → List Url
urls [] = []
urls (c ∷ cs) = c.url ∷ urls cs

module _ {A : Type 0} (dec : Discrete A) where
  -- The same elements, each as often.
  pub record Same (xs ys : List A) : Type 0 where
    pub elements : (a : A) → contains dec a ys ≡ contains dec a xs
    pub once : Distinct dec xs → Distinct dec ys
    pub size : length ys ≡ length xs

  -- The peers with a connection are the active ones, each once, and no active peer is a candidate.
  pub record Tracks (keys active : List A) (candidates : OrderedSet A) : Type 0 where
    pub elements : (a : A) → contains dec a active ≡ contains dec a keys
    pub once : Distinct dec keys
    pub active_once : Distinct dec active
    pub size : length active ≡ length keys
    pub waiting : OrderedSet.Laws.IsValid dec candidates
    pub apart : (a : A) → contains dec a active ≡ true → contains dec a candidates.iterators ≡ false

  pub Tracks-Same :
      {keys keys' active : List A} {candidates : OrderedSet A}
      → Same keys keys'
      → Tracks keys active candidates
      → Tracks keys' active candidates
  Tracks-Same s t = record {
    elements = λ a. t.elements a ∙ sym (s.elements a);
    once = s.once t.once;
    active_once = t.active_once;
    size = t.size ∙ sym s.size;
    waiting = t.waiting;
    apart = t.apart;
  }

  pub Tracks-drop :
      (xs ys : List A) (u : A) (active : List A) (candidates : OrderedSet A)
      → Tracks (xs ++ u ∷ ys) active candidates
      → Tracks (xs ++ ys) (erase dec u active) candidates
  unfolding contains
  Tracks-drop xs ys u active candidates t =
      let gone = Distinct-middle dec u xs ys t.once in
      let middle = erase-middle dec u xs ys gone in
      let there : contains dec u (xs ++ u ∷ ys) ≡ true =
        ground (arith, contains-append_lem dec u xs (u ∷ ys)) in
      let here : contains dec u active ≡ true = t.elements u ∙ there in
      record {
        elements = λ a.
            contains-erase dec a u active t.active_once
            ∙ ap (λ b. ite (dec u a) false b) (t.elements a)
            ∙ sym (contains-erase dec a u (xs ++ u ∷ ys) t.once)
            ∙ ap (contains dec a) middle;
        once = Distinct-without dec u xs ys t.once;
        active_once = Distinct-erase dec u active t.active_once;
        size = omega (
          arith,
          length-erase dec u active here,
          t.size,
          length-append xs (u ∷ ys),
          length-append xs ys,
        );
        waiting = t.waiting;
        apart = λ a h. t.apart a (ground (arith, contains-erase dec a u active t.active_once));
      }

  pub Tracks-add :
      (keys : List A) (u : A) (active : List A) (candidates : OrderedSet A)
      → Tracks keys active candidates
      → contains dec u active ≡ false
      → contains dec u candidates.iterators ≡ false
      → Tracks (u ∷ keys) (u ∷ active) candidates
  unfolding contains
  Tracks-add keys u active candidates t new free = record {
    elements = λ a. ground (arith, t.elements a);
    once = (sym (t.elements u) ∙ new, t.once);
    active_once = (new, t.active_once);
    size = omega (arith, t.size);
    waiting = t.waiting;
    apart = λ a h. elim (dec u a) [
      | yes same ↦ ap (λ y. contains dec y candidates.iterators) (sym same) ∙ free
      | no other ↦ t.apart a (ground arith)
    ];
  }

  -- What is in the queue after a push was there before, or is the new string.
  contains-after_push :
      (a str : A) (candidates : OrderedSet A)
      → contains dec a candidates.iterators ≡ false
      → str ≢ a
      → contains dec a (OrderedSet.Laws.after_push dec str candidates) ≡ false
  unfolding contains
  contains-after_push a str candidates out ne =
      elim (Bool-cases (contains dec str candidates.contents)) [
        | inl known ↦ rw known out
        | inr fresh ↦
            let all = candidates.iterators ++ str ∷ [] in
            rw fresh (
              ground (
                arith,
                contains-drop dec a (length all - candidates.max_size) all,
                contains-append_lem dec a candidates.iterators (str ∷ []),
              ))
      ]

  Tracks-push :
      (str : A) (keys active : List A) (candidates : OrderedSet A)
      → Tracks keys active candidates
      → contains dec str active ≡ false
      → (push dec str candidates ≡ none)
        ⊎ ((candidates' : OrderedSet A) × (added : Bool) × (push dec str candidates
              ≡ some (added, candidates'))
            × Tracks keys active candidates'
            × (candidates'.max_size ≡ candidates.max_size))
  Tracks-push str keys active candidates t new = elim (push-newest dec str candidates t.waiting) [
    | inl dangles ↦ inl dangles.0
    | inr (candidates', pushed, valid, queue, size, _) ↦ inr (
      candidates',
      not (contains dec str candidates.contents),
      pushed,
      record {
        elements = t.elements;
        once = t.once;
        active_once = t.active_once;
        size = t.size;
        waiting = valid;
        apart = λ a h.
            ap (contains dec a) queue
            ∙ contains-after_push a str candidates (t.apart a h)
                (λ e. cc (ap (λ y. contains dec y active) e));
      },
      size,
    )
  ]

  pub Tracks-pop :
      (keys active : List A) (candidates : OrderedSet A)
      → Tracks keys active candidates
      → 0 < length candidates.iterators
      → ((0 < candidates.stale) × (pop dec candidates ≡ none))
        ⊎ ((u : A) × (candidates' : OrderedSet A) × (pop dec candidates ≡ some (u, candidates'))
            × Tracks keys active candidates'
            × (contains dec u active ≡ false)
            × (contains dec u candidates'.iterators ≡ false)
            × (candidates'.stale ≡ candidates.stale))
  unfolding contains
  Tracks-pop keys active candidates t some_ = elim (pop-oldest dec candidates t.waiting) [
    | inl none_ ↦ absurd (omega (arith, ap length none_.0))
    | inr (inl gone) ↦ inl gone
    | inr (inr (u, candidates', popped, queue, gone, valid, size, stale)) ↦
        let waited : contains dec u candidates.iterators ≡ true = rw queue (ground arith) in
        inr (
          u,
          candidates',
          popped,
          record {
            elements = t.elements;
            once = t.once;
            active_once = t.active_once;
            size = t.size;
            waiting = valid;
            apart = λ a h. let out = rw queue at (t.apart a h) in ground arith;
          },
          elim (Bool-cases (contains dec u active)) [
            | inr new ↦ new
            | inl old ↦ let out = t.apart u old in cc
          ],
          ap (contains dec u) (sym valid.mirrored) ∙ gone,
          stale,
        )
  ]

module _ {Url Stub E : Type 0} (dec : Discrete Url) (host : Host Url Stub E) where
  -- `push_all` keeps all in order, unless a push is undefined.
  pub push_all-Tracks :
      (ps keys active : List Url) (candidates : OrderedSet Url)
      → Tracks dec keys active candidates
      → (push_all dec host active ps candidates ≡ undefined)
        ⊎ ((candidates' : OrderedSet Url) × (push_all dec host active ps candidates
              ≡ done candidates')
            × Tracks dec keys active candidates')
  unfolding push_all
  push_all-Tracks [] keys active candidates t = inr (candidates, refl, t)
  push_all-Tracks (p ∷ ps) keys active candidates t = elim (Bool-cases (contains dec p active)) [
    | inl old ↦ rw old (push_all-Tracks ps keys active candidates t)
    | inr new ↦ elim (Tracks-push dec p keys active candidates t new) [
      | inl gone ↦ inl (rw (new, gone) refl)
      | inr (mid, added, pushed, tracks, _) ↦ elim (push_all-Tracks ps keys active mid tracks) [
        | inl gone ↦ inl (rw (new, pushed) gone)
        | inr (last, ran, tracks') ↦ inr (last, rw (new, pushed) ran, tracks')
      ]
    ]
  ]

module _ {Url Stub : Type 0} (dec : Discrete Url) where
  Same-insert_sorted :
      (c : Connection Url Stub) (cs : List (Connection Url Stub))
      → Same dec (c.url ∷ urls cs) (urls (insert_sorted c cs))
  unfolding insert_sorted contains
  Same-insert_sorted c [] = record { elements = λ a. refl; once = λ d. d; size = refl }
  Same-insert_sorted c (d ∷ ds) = elim (Bool-cases (less d.availability c.availability)) [
    | inr before ↦ rw before (record { elements = λ a. refl; once = λ d. d; size = refl })
    | inl after ↦
        let s = Same-insert_sorted c ds in
        rw after (record {
          elements = λ a. ground (arith, s.elements a);
          once = λ h. (s.elements d.url ∙ ground arith, s.once (ground arith, h.1.1));
          size = omega (arith, s.size);
        })
  ]

  -- Sorting does not change which connections there are.
  pub Same-sort : (cs : List (Connection Url Stub)) → Same dec (urls cs) (urls (sort cs))
  unfolding sort contains
  Same-sort [] = record { elements = λ a. refl; once = λ d. d; size = refl }
  Same-sort (c ∷ cs) =
      let s = Same-sort cs in
      let t = Same-insert_sorted c (sort cs) in
      record {
        elements = λ a. t.elements a ∙ ground (arith, s.elements a);
        once = λ d. t.once (s.elements c.url ∙ d.0, s.once d.1);
        size = omega (arith, s.size, t.size);
      }

pub urls-append :
    {Url Stub : Type 0} (xs ys : List (Connection Url Stub)) → urls (xs ++ ys) ≡ urls xs ++ urls ys
urls-append [] ys = refl
urls-append (x ∷ xs) ys = ap (◌∷◌ x.url) (urls-append xs ys)

-- A connection at the end is as good as one in front.
pub Same-snoc :
    {Url Stub : Type 0} (dec : Discrete Url) (c : Connection Url Stub)
    (cs : List (Connection Url Stub))
    → Same dec (c.url ∷ urls cs) (urls (cs ++ c ∷ []))
unfolding contains
Same-snoc dec c [] = record { elements = λ a. refl; once = λ d. d; size = refl }
Same-snoc dec c (b ∷ cs) =
    let s = Same-snoc dec c cs in
    record {
      elements = λ a. ground (arith, s.elements a);
      once = λ h. (s.elements b.url ∙ ground arith, s.once (ground arith, h.1.1));
      size = omega (arith, s.size);
    }
