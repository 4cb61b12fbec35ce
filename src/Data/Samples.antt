-- ===== src/Data/Samples.antt =====
-- data/chunk_store.h: a small store in memory, at which the tests of data/ run the code, and a disk.
use distfs.Data.Posix.{opened, unlinked, Posix}
use distfs.Data.ChunkStore.Reading.{Reads}
use distfs.Base.{
  zero, suc, ◌+◌, ◌≤◌, ◌<◌, take, drop, sym, ap, ◌∙◌, ◌++◌, take-append-drop, drop-drop,
  length-take, ℕ, ◌==◌, if◌then◌else◌, true, false, List, [], ◌∷◌, Option, none, some, map, length,
  ◌≡◌, refl, arith, Bool-cases, inl, inr,
}
use distfs.Common.{ErrorCode}
use distfs.Network.ChunkAvailability.{has}
use distfs.Common.LruCollector.{new}
use distfs.Common.LruCollector.History.{new-IsValid}
use distfs.Data.{Filled, filled, failed, ChunkStorage, IsStorage}
use distfs.Data.ChunkProvider.{ChunkProvider}
use distfs.Data.ChunkProvider.Laws.{IsGenuine, IsCoherent}

abbrev pub Chunks : Type 0
Chunks = List (ℕ × List ℕ)

abbrev pub lookup : Chunks → ℕ → Option (List ℕ)
lookup [] k = none
lookup ((i, bs) ∷ cs) k = if k == i then some bs else lookup cs k

abbrev without : ℕ → Chunks → Chunks
without k [] = []
without k ((i, bs) ∷ cs) = if k == i then without k cs else (i, bs) ∷ without k cs

abbrev pub found : Option (List ℕ) → Filled
found none = failed ErrorCode.not_found
found (some bs) = filled bs

abbrev pub chunk_map : ChunkStorage Chunks
chunk_map = record {
  read_chunk = λ id s. (found (lookup s id), s);
  write_chunk = λ id bs s. (ErrorCode.ok, (id, bs) ∷ s);
  remove_chunk = λ id s. (ErrorCode.ok, without id s);
  available = λ s. map (λ c. c.0) s;
}

-- Every state and every chunk will do.
abbrev pub AnyState : Chunks → Type 0
AnyState s = Unit

abbrev pub AnyChunk : List ℕ → Type 0
AnyChunk bs = Unit

abbrev pub OfSize : ℕ → List ℕ → Type 0
OfSize n bs = length bs ≡ n

has-lookup :
    (id : ℕ) (s : Chunks) (bs : List ℕ) → lookup s id ≡ some bs → has id (map (λ c. c.0) s) ≡ true
unfolding has
has-lookup id [] bs e = absurd (ground arith)
has-lookup id ((i, cs) ∷ s) bs e = ground (arith, has-lookup id s bs)

has-lookup_missing : (id : ℕ) (s : Chunks) → lookup s id ≡ none → has id (map (λ c. c.0) s) ≡ false
unfolding has
has-lookup_missing id [] e = refl
has-lookup_missing id ((i, cs) ∷ s) e = ground (arith, has-lookup_missing id s)

pub chunk_map-IsStorage : {Accepts : List ℕ → Type 0} → IsStorage chunk_map AnyState lookup Accepts
chunk_map-IsStorage = record {
  read_stored = λ id s bs h e. rw e refl;
  read_missing = λ id s h e. rw e refl;
  read_keeps = λ id k s h. refl;
  read_healthy = λ id s h. tt;
  write_stores = λ id k bs s h a e. refl;
  write_healthy = λ id bs s h a e. tt;
  available_stored = λ id s bs h e. has-lookup id s bs e;
  available_missing = λ id s h e. has-lookup_missing id s e;
}

-- An image of two chunks. A client can fetch both.
abbrev pub chunks : Chunks
chunks = (0, 1 ∷ 2 ∷ 3 ∷ 4 ∷ []) ∷ (1, 5 ∷ 6 ∷ 7 ∷ 8 ∷ []) ∷ []

abbrev pub image : ℕ → Option (List ℕ)
image = lookup chunks

abbrev fetched : ℕ → Option (List ℕ) → Chunks → ErrorCode × Chunks
fetched id none s = (ErrorCode.not_found, s)
fetched id (some bs) s = (ErrorCode.ok, (id, bs) ∷ s)

abbrev pub fetch_chunk : ℕ → Chunks → ErrorCode × Chunks
fetch_chunk id s = fetched id (image id) s

abbrev pub Genuine : Chunks → Type 0
Genuine s = (id : ℕ) (bs : List ℕ) → lookup s id ≡ some bs → image id ≡ some bs

found_filled : (o : Option (List ℕ)) (bs : List ℕ) → found o ≡ filled bs → o ≡ some bs
found_filled none bs e = cc
found_filled (some cs) bs e = cc

fetched-Genuine :
    (id : ℕ) (o : Option (List ℕ)) (s : Chunks)
    → image id ≡ o
    → Genuine s
    → Genuine (fetched id o s).1
fetched-Genuine id none s e g k bs h = g k bs h
fetched-Genuine id (some cs) s e g k bs h = elim (Bool-cases (k == id)) [
  | inl same ↦ ground (arith, g k bs)
  | inr other ↦ g k bs (rw other at h)
]

pub chunk_map-IsGenuine : IsGenuine chunk_map fetch_chunk image Genuine
chunk_map-IsGenuine = record {
  read_image = λ id s bs g e. g id bs (found_filled (lookup s id) bs e);
  read_keeps = λ id s g. g;
  fetch_keeps = λ id s g. fetched-Genuine id (image id) s refl g;
}

-- An empty cache before a store that has the first chunk.
abbrev pub provider : ChunkProvider Chunks
provider = record { store = (0, 1 ∷ 2 ∷ 3 ∷ 4 ∷ []) ∷ []; entries = λ id. none; collector = new 2 }

pub provider-IsCoherent : IsCoherent image Genuine provider
provider-IsCoherent = record {
  genuine = λ id bs e. ground arith;
  cached = λ id e h. cc;
  collector = (new-IsValid 2 (omega arith)).0;
}

pub image-full : (id : ℕ) (bs : List ℕ) → image id ≡ some bs → length bs ≡ 4
image-full id bs e = ground arith

-- A disk on which every file is the same; the state is how far it has been read.
abbrev pub text : List ℕ
text = 7 ∷ 8 ∷ 9 ∷ []

abbrev pub test_posix : Posix ℕ ℕ
test_posix = record {
  open_read = λ path w. (opened 0, 0);
  create = λ path w. (some 0, w);
  read = λ fd n w. (some (take n (drop w text)), w + n);
  write = λ fd bs w. (some (length bs), w);
  close = λ fd w. w;
  unlink = λ path w. (unlinked, w);
  make_dir = λ path w. (true, w);
  entries = λ path w. some ((65 ∷ []) ∷ []);
  strtol = λ name. some (length name + 1);
}

pub read_within : (fd n w : ℕ) (bs : List ℕ) → (test_posix.read fd n w).0 ≡ some bs → length bs ≤ n
read_within fd n w bs h =
    let same : take n (drop w text) ≡ bs = ground arith in
    omega (arith, length-take n (drop w text), ap length same)

take-none : (n : ℕ) (xs : List ℕ) → 0 < n → take n xs ≡ [] → xs ≡ []
take-none zero xs some_ h = absurd (omega arith)
take-none (suc n) [] some_ h = refl
take-none (suc n) (x ∷ xs) some_ h = cc

pub test_posix-Reads : Reads test_posix (λ path w. some text) (λ fd w. drop w text)
test_posix-Reads = record {
  opens = λ path w fd h. refl;
  misses = λ path w h. absurd (ground arith);
  reads = λ fd n w bs h.
      let same : take n (drop w text) ≡ bs = ground arith in
      sym (take-append-drop n (drop w text))
      ∙ ap (λ xs. xs ++ drop n (drop w text)) same
      ∙ ap (λ xs. bs ++ xs) (drop-drop n w text);
  within = read_within;
  ends = λ fd n w some_ h. take-none n (drop w text) some_ (ground arith);
  outlives = λ fd path w. refl;
}
