-- ===== src/Data/ChunkBuilder/Tests.antt =====
-- data/chunk_builder.cc, run: chunks of four bytes in a map in memory, and a file of three bytes.
use distfs.Base.{take, drop, false, ℕ, [], ◌∷◌, none, some, ◌≡◌, refl, arith}
use distfs.Data.Posix.{Posix}
use distfs.Data.ChunkBuilder.Files.{Block, block_loop}
use distfs.Data.ChunkBuilder.Files.Filling.{Fills, block_loop-Fills}
use distfs.Data.Samples.{text, test_posix, test_posix-Reads, Chunks}
use distfs.Data.ChunkBuilder.{ChunkBuilder}

abbrev builder : ChunkBuilder Chunks
builder = record {
  store = (0, 1 ∷ 2 ∷ 3 ∷ 4 ∷ []) ∷ [];
  built = false;
  pos = 6;
  buff = 5 ∷ 6 ∷ 0 ∷ 0 ∷ [];
  read_buffer = 0 ∷ 0 ∷ 0 ∷ 0 ∷ [];
  chunk_num = 1;
}

abbrev start : Block
start = record { got = []; max_size = 4; length = 0; res = some 0 }

block_loop-Fills_example :
    (v : Block) × (w : ℕ) × (block_loop test_posix 5 0 start 1 ≡ some (v, w))
    × Fills test_posix
        (λ path w. some text)
        (λ fd w. drop w text)
        test_posix-Reads
        (λ fd n w. (take n (drop w text), refl))
        4
        0
        start
        1
        v
        w
block_loop-Fills_example =
    block_loop-Fills test_posix (λ path w. some text) (λ fd w. drop w text) test_posix-Reads
      (λ fd n w. (take n (drop w text), refl)) 4 5 0 start 1 (omega arith) refl (omega arith)
      (omega arith) (omega arith)

-- A disk that cannot be read.
abbrev broken : Posix ℕ ℕ
broken = record test_posix { read = λ fd n w. (none, w) }
