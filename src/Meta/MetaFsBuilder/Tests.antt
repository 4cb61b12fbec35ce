-- ===== src/Meta/MetaFsBuilder/Tests.antt =====
-- Witnesses for the builder of the tree.
use distfs.Base.{ℕ, List, [], ◌∷◌, replicate, arith, length-replicate}
use distfs.Meta.Stat.{Stat, Timespec}
use distfs.Meta.MetaFsBuilder.{MetaFsBuilder, add_dir}
use distfs.Meta.MetaFsBuilder.Growth.{IsSound}
use distfs.Meta.MetaFsBuilder.Bounds.{AddsDir, add_dir-Adds}

abbrev zeros : ℕ → List ℕ
zeros n = replicate n 0

abbrev epoch : Timespec
epoch = record { sec = 0; nsec = 0 }

abbrev test_stat : Stat
test_stat = record {
  mode = 0x41ED;
  nlink = 2;
  uid = 1;
  gid = 1;
  size = 4096;
  blocks = 8;
  atim = epoch;
  mtim = epoch;
  ctim = epoch;
}

-- A buffer that is too small for a node, and two files of which the directory has an attribute.
abbrev test_builder : MetaFsBuilder
test_builder = record { root_path = 47 ∷ []; buf = zeros 8; data_size = 8; current_pos = 8 }

test_builder-IsSound : IsSound test_builder
test_builder-IsSound = record {
  allocated = length-replicate {A = ℕ} 8 0;
  positive = omega arith;
  within = omega arith;
}

add_dir-Adds_example :
    AddsDir zeros
      (λ n. length-replicate {A = ℕ} n 0)
      test_builder
      102
      138
      (add_dir zeros test_stat
        ((97 ∷ []) ∷ (98 ∷ []) ∷ [])
        ((120 ∷ [], 1 ∷ 2 ∷ 3 ∷ []) ∷ [])
        test_builder)
add_dir-Adds_example =
    add_dir-Adds zeros (λ n. length-replicate {A = ℕ} n 0) test_stat ((97 ∷ []) ∷ (98 ∷ []) ∷ [])
      ((120 ∷ [], 1 ∷ 2 ∷ 3 ∷ []) ∷ []) test_builder test_builder-IsSound (omega arith, omega arith)
      (omega arith)
