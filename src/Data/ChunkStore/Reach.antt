-- ===== src/Data/ChunkStore/Reach.antt =====
-- data/chunk_store.cc: the states that a store gets into have no more chunks than it is allowed.
use distfs.Base.{subst, ◌^◌, ℕ, ◌≤◌, ◌<◌, List, some, length, ◌≡◌, sym, ◌∙◌, arith, length-map}
use distfs.Common.{ErrorCode}
use distfs.Common.LruCollector
use distfs.Common.LruCollector.{LruCollector, ids}
use distfs.Data.{Filled}
use distfs.Data.Posix.{unlinked, Posix}
use distfs.Data.ChunkStore.{ChunkStore, remove_chunk, read_chunk, write_chunk}
use distfs.Meta.Effects.{Outcome, done, thrown, undefined}
use distfs.Data.ChunkStore.Sets.{length-within}
use distfs.Data.ChunkStore.{new, available}
use distfs.Data.ChunkStore.Bound.{IsBound}
use distfs.Data.ChunkStore.Operations.{
  new-IsBound, Keeping, read_chunk-Keeping, write_chunk-Keeping, remove_chunk-Keeping,
}

-- What is done with a store, from its construction on. What the files are in between is any `W`.
module _ {F W : Type 0} (posix : Posix F W) (chunk_size : ℕ) where
  pub data Step : ChunkStore → ChunkStore → Type 0 where
    reads :
        (id : ℕ) {c c' : ChunkStore} (res : Filled) (w w' : W)
        → read_chunk posix chunk_size id c w ≡ done (res, c', w')
        → Step c c'
    writes :
        (id : ℕ) (bs : List ℕ) {c c' : ChunkStore} (err : ErrorCode) (w w' : W)
        → write_chunk posix id bs c w ≡ done (err, c', w')
        → Step c c'
    removes : (id : ℕ) (c : ChunkStore) (w : W) → Step c (remove_chunk posix id c w).1

  pub data Reach (size : ℕ) : ChunkStore → Type 0 where
    starts :
        (store_path : List ℕ) {c : ChunkStore} (w w' : W)
        → new posix store_path size w ≡ done (c, w')
        → Reach size c
    goes_on : {c c' : ChunkStore} → Reach size c → Step c c' → Reach size c'

module _ {F W : Type 0} (posix : Posix F W) (chunk_size : ℕ)
    (unlinks : (path : List ℕ) (w : W) → (posix.unlink path w).0 ≡ unlinked)
    (within : (fd : F) (n : ℕ) (w : W) (bs : List ℕ)
      → (posix.read fd n w).0 ≡ some bs
      → length bs ≤ n) where
  -- A store that is bound, and has that much room.
  abbrev Fits : ℕ → ChunkStore → Type 0
  Fits size c = IsBound c × (c.collector.size ≡ size)

  abbrev Began : ℕ → Outcome (ChunkStore × W) → Type 0
  Began size (done (c, w)) = Fits size c
  Began size thrown = ⊥
  Began size undefined = ⊥

  Step-Fits :
      (size : ℕ) {c c' : ChunkStore}
      → chunk_size < 2 ^ 32
      → Step posix chunk_size c c'
      → Fits size c
      → Fits size c'
  Step-Fits size small (reads id res w w' h) (b, room) =
      let (b', same) =
        subst (Keeping posix unlinks _) h
          (read_chunk-Keeping posix unlinks chunk_size id _ w within small b) in
      (b', same ∙ room)
  Step-Fits size small (writes id bs err w w' h) (b, room) =
      let (b', same) =
        subst (Keeping posix unlinks _) h (write_chunk-Keeping posix unlinks id bs _ w b) in
      (b', same ∙ room)
  Step-Fits size small (removes id c w) (b, room) =
      let (b', same) = remove_chunk-Keeping posix unlinks id c w b in (b', same ∙ room)

  Reach-Fits :
      (size : ℕ) {c : ChunkStore}
      → chunk_size < 2 ^ 32
      → 0 < size
      → Reach posix chunk_size size c
      → Fits size c
  Reach-Fits size small some_ (starts store_path w w' h) =
      let (c, w1, ran, b, room) = new-IsBound posix unlinks store_path size w some_ in
      subst (Began size) (sym ran ∙ h) (b, room)
  Reach-Fits size small some_ (goes_on r step) =
      Step-Fits size small step (Reach-Fits size small some_ r)

  -- A store of a positive `size` never has more than `size` chunks, whatever is read, written and
  -- removed, and whatever it finds at its start. (Removing a file succeeds, and `read` gives no more
  -- bytes than it is asked for.)
  pub available-le :
      (size : ℕ) (c : ChunkStore)
      → chunk_size < 2 ^ 32
      → 0 < size
      → Reach posix chunk_size size c
      → length (available posix c) ≤ size
  unfolding available
  available-le size c small some_ r =
      let (b, room) = Reach-Fits size small some_ r in
      let all = length-within c.in_store (ids c.collector) b.ascending b.known in
      omega (
        arith,
        all,
        room,
        length-map (λ (m : LruCollector.Node). m.id) c.collector.queue,
        b.collector.bounded,
      )
