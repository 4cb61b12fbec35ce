-- ===== src/Data/ChunkStore/Operations.antt =====
-- data/chunk_store.cc: the methods keep a store within the bound of its collector, and return.
use distfs.Base.{
  ◌^◌, ℕ, suc, ◌≤◌, ◌<◌, Bool, true, false, List, [], Option, none, some, length, ◌≡◌, refl, arith,
  inl, inr, Option-cases,
}
use distfs.Common.{ErrorCode}
use distfs.Common.LruCollector
use distfs.Common.LruCollector.{LruCollector, ids}
use distfs.Common.LruCollector.History.{new-IsValid}
use distfs.Data.{failed}
use distfs.Data.Posix.{Opened, opened, no_entry, open_failed, unlinked, Posix}
use distfs.Data.ChunkStore.{
  ChunkStore, discard, id_to_path, remove_from, remove_chunk, read_opened, read_chunk, written,
  write_opened, write_chunk, create_base_dir, read_loop, write_loop,
}
use distfs.Meta.Effects.{Outcome, done, thrown, undefined}
use distfs.Network.ChunkAvailability.{has}
use distfs.Data.ChunkStore.Sets.{discard-Ascending, has-discard}
use distfs.Data.ChunkStore.{new, scan}
use distfs.Data.ChunkStore.Bound.{IsBound, Keeps, touch-IsBound, insert-IsBound, updates-Keeps}
use distfs.Data.ChunkStore.Scanning.{scan-Ascending}
use distfs.Data.ChunkStore.Loops.{read_loop-ends, write_loop-ends}

module _ {F W : Type 0} (posix : Posix F W)
    (removes : (path : List ℕ) (w : W) → (posix.unlink path w).0 ≡ unlinked) where
  pub new-IsBound :
      (store_path : List ℕ) (size : ℕ) (w : W)
      → 0 < size
      → (c : ChunkStore) × (w' : W) × (new posix store_path size w ≡ done (c, w'))
        × IsBound c
        × (c.collector.size ≡ size)
  unfolding new LruCollector.new
  new-IsBound store_path size w h =
      let found = scan posix store_path w in
      let (valid, empty) = new-IsValid size h in
      let start : Keeps posix removes found (LruCollector.new size) found = record {
        valid = valid;
        ascending = scan-Ascending posix store_path w;
        known = λ k at. inr at;
      } in
      let (d, in_store, w', ran, k, room) =
        updates-Keeps posix removes store_path found (LruCollector.new size) found w start in
      (
        record { base_path = store_path; in_store = in_store; collector = d },
        w',
        rw ran refl,
        record {
          collector = k.valid;
          ascending = k.ascending;
          known =
              λ j at. elim (k.known j at) [ inl here ↦ here | inr out ↦ absurd (unfold has in cc) ];
        },
        room,
      )

  -- Room is what the collector has it for, and does not change.
  abbrev pub Keeping : {A : Type 0} → ℕ → Outcome (A × ChunkStore × W) → Type 0
  Keeping size (done (a, c, w)) = IsBound c × (c.collector.size ≡ size)
  Keeping size thrown = ⊥
  Keeping size undefined = ⊥

  read_opened-Keeping :
      (chunk_size id : ℕ) (fd : F) (c : ChunkStore) (w : W)
      → ((fd : F) (n : ℕ) (w : W) (bs : List ℕ) → (posix.read fd n w).0 ≡ some bs → length bs ≤ n)
      → chunk_size < 2 ^ 32
      → IsBound c
      → Keeping c.collector.size (read_opened posix chunk_size id fd c w)
  unfolding read_opened
  read_opened-Keeping chunk_size id fd c w reads small b =
      let (c', w1, ran, b', here, room) = touch-IsBound posix removes id c w b in
      elim (Option-cases (read_loop posix (suc chunk_size) fd chunk_size [] w1)) [
        | inl out ↦ absurd (
            read_loop-ends posix (suc chunk_size) fd chunk_size [] w1 reads small (omega arith) out)
        | inr ((res, w2), ended) ↦ rw (ran, ended) (b', room)
      ]

  pub read_chunk-Keeping :
      (chunk_size id : ℕ) (c : ChunkStore) (w : W)
      → ((fd : F) (n : ℕ) (w : W) (bs : List ℕ) → (posix.read fd n w).0 ≡ some bs → length bs ≤ n)
      → chunk_size < 2 ^ 32
      → IsBound c
      → Keeping c.collector.size (read_chunk posix chunk_size id c w)
  unfolding read_chunk
  read_chunk-Keeping chunk_size id c w reads small b =
      opening (posix.open_read (id_to_path c.base_path id) w)
    where
      opening :
          (o : Opened F × W)
          → Keeping c.collector.size (elim o.0 [
            | opened fd ↦ read_opened posix chunk_size id fd c o.1
            | no_entry ↦ done (failed ErrorCode.not_found, c, o.1)
            | open_failed ↦ done (failed ErrorCode.internal_error, c, o.1)
          ])
      opening (opened fd, w') = read_opened-Keeping chunk_size id fd c w' reads small b
      opening (no_entry, w') = (b, refl)
      opening (open_failed, w') = (b, refl)

  written-Keeping :
      (id : ℕ) (fd : F) (c : ChunkStore) (r : Bool × W)
      → IsBound c
      → Keeping c.collector.size (written posix id fd c r)
  unfolding written
  written-Keeping id fd c (false, w) b = (b, refl)
  written-Keeping id fd c (true, w) b =
      let (c', w', ran, b', here, room) = touch-IsBound posix removes id c (posix.close fd w) b in
      rw ran (insert-IsBound posix removes id c' b' here, room)

  write_opened-Keeping :
      (id : ℕ) (bs : List ℕ) (c : ChunkStore) (o : Option F × W)
      → IsBound c
      → Keeping c.collector.size (write_opened posix id bs c o)
  unfolding write_opened
  write_opened-Keeping id bs c (none, w) b = (b, refl)
  write_opened-Keeping id bs c (some fd, w) b =
      elim (Option-cases (write_loop posix (suc (length bs)) fd bs w)) [
        | inl out ↦ absurd (write_loop-ends posix (suc (length bs)) fd bs w (omega arith) out)
        | inr (r, ended) ↦ rw ended (written-Keeping id fd c r b)
      ]

  pub write_chunk-Keeping :
      (id : ℕ) (bs : List ℕ) (c : ChunkStore) (w : W)
      → IsBound c
      → Keeping c.collector.size (write_chunk posix id bs c w)
  unfolding write_chunk
  write_chunk-Keeping id bs c w b = making (create_base_dir posix (id_to_path c.base_path id) w)
    where
      path : List ℕ
      path = id_to_path c.base_path id

      making :
          (r : ErrorCode × W)
          → Keeping c.collector.size (elim r.0 [
            | ErrorCode.ok ↦ write_opened posix id bs c (posix.create path r.1)
            | err ↦ done (err, c, r.1)
          ])
      making (ErrorCode.ok, w') = write_opened-Keeping id bs c (posix.create path w') b
      making (err, w') = (b, refl)

  pub remove_chunk-Keeping :
      (id : ℕ) (c : ChunkStore) (w : W)
      → IsBound c
      → Keeping c.collector.size (done (remove_chunk posix id c w))
  unfolding remove_chunk remove_from
  remove_chunk-Keeping id c w b =
      let left : (remove_chunk posix id c w).1.in_store ≡ discard id c.in_store =
        rw (remove_from, removes (id_to_path c.base_path id) w) refl in
      (
        record {
          collector = b.collector;
          ascending = rw left (discard-Ascending id c.in_store b.ascending);
          known = λ k h.
              let h' : has k (discard id c.in_store) ≡ true = rw left at h in
              b.known k (ground (arith, h', has-discard k id c.in_store b.ascending));
        },
        refl,
      )
