-- ===== src/Data/ChunkStore/Tests.antt =====
-- Witnesses for the store.
use distfs.Base.{[], ◌∷◌}
use distfs.Common.LruCollector
use distfs.Data.ChunkStore.{ChunkStore}

abbrev test_store : ChunkStore
test_store = record { base_path = 47 ∷ []; in_store = []; collector = LruCollector.new 2 }
