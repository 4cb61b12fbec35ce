-- ===== src/Meta/MetaFileSystem/Tests.antt =====
-- meta/meta_file_system.cc, run: a table of the names `a` and `b`, in a block too small to
-- have them as files.
use Prim.Native.Nat.{Ordering}
use distfs.Base.{ℕ, zero, suc, ◌<◌, ◌++◌, List, [], ◌∷◌, ◌≡◌, refl, arith}
use distfs.Meta.{Entry, entry_at}
use distfs.Meta.Effects.{done}
use distfs.Meta.Memory.{u64_at, until_nul, string_at, strcmp}
use distfs.Meta.MetaFileSystem.{find_entity, get_node_offset}
use distfs.Meta.MetaFileSystem.Search.{Finds, IsTable, find_entity-Finds}
use distfs.Meta.MetaFileSystem.Paths.{resolve, get_node_offset-resolve}

-- A number below 256, in 64 bits.
abbrev u64 : ℕ → List ℕ
u64 c = c ∷ 0 ∷ 0 ∷ 0 ∷ 0 ∷ 0 ∷ 0 ∷ 0 ∷ []

-- Two entries, and their names behind them.
abbrev table : List ℕ
table = u64 32 ++ u64 40 ++ u64 34 ++ u64 48 ++ (b'a' ∷ 0 ∷ b'b' ∷ 0 ∷ [])

abbrev name_of : ℕ → List ℕ
name_of zero = b'a' ∷ []
name_of (suc i) = b'b' ∷ []

abbrev target_of : ℕ → ℕ
target_of zero = 40
target_of (suc i) = 48

readable :
    (i : ℕ)
    → i < 2
    → (e : Entry) × (entry_at table 0 i ≡ done e)
      × (string_at table e.name_offset ≡ done (name_of i))
      × (e.data_offset ≡ target_of i)
unfolding entry_at string_at u64_at until_nul
readable zero h = (record { name_offset = 32; data_offset = 40 }, refl, refl, refl)
readable (suc zero) h = (record { name_offset = 34; data_offset = 48 }, refl, refl, refl)
readable (suc (suc i)) h = absurd (omega arith)

sorted : (i j : ℕ) → i < j → j < 2 → strcmp (name_of i) (name_of j) ≡ Ordering.lt
unfolding strcmp
sorted zero zero h k = absurd (omega arith)
sorted zero (suc j) h k = refl
sorted (suc i) zero h k = absurd (omega arith)
sorted (suc i) (suc j) h k = absurd (omega arith)

table-IsTable : IsTable table 0 2 name_of target_of
table-IsTable = record { readable = readable; sorted = sorted }

find_entity-Finds_example :
    (r : ℕ) × (find_entity table (b'b' ∷ []) 0 2 ≡ done r) × Finds (b'b' ∷ []) 2 name_of target_of r
find_entity-Finds_example =
    find_entity-Finds table (b'b' ∷ []) 0 2 name_of target_of table-IsTable (omega arith)

get_node_offset-resolve_example :
    get_node_offset table (b'/' ∷ b'a' ∷ b'/' ∷ b'b' ∷ [])
    ≡ resolve table ((b'a' ∷ []) ∷ (b'b' ∷ []) ∷ []) 8
get_node_offset-resolve_example =
    get_node_offset-resolve table ((b'a' ∷ []) ∷ (b'b' ∷ []) ∷ []) (ground arith)
