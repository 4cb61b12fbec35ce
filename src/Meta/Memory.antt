-- ===== src/Meta/Memory.antt =====
-- The block of memory that meta/meta_file_system.cc reads: numbers and C strings in it.
use Prim.Native.Nat.{compare, Ordering}
use distfs.Base.{
  ℕ, zero, suc, ◌+◌, ◌*◌, ◌==◌, if◌then◌else◌, List, [], ◌∷◌, Option, none, some, get_elem?, drop,
}
use distfs.Meta.Effects.{Outcome, done, ◌>>=◌, defined}

pub byte_at : List ℕ → ℕ → Outcome ℕ
byte_at mem addr = defined (get_elem? mem addr)

-- `n` bytes from an address, the lowest first.
pub word_at : ℕ → List ℕ → ℕ → Outcome ℕ
unfolding byte_at
word_at zero mem addr = done 0
word_at (suc n) mem addr = do
  low ← byte_at mem addr
  high ← word_at n mem (addr + 1)
  done (low + 256 * high)

unfoldable pub u32_at : List ℕ → ℕ → Outcome ℕ
unfolding word_at
u32_at = word_at 4

unfoldable pub u64_at : List ℕ → ℕ → Outcome ℕ
unfolding word_at
u64_at = word_at 8

-- The bytes up to the first 0, which has to come.
unfoldable pub until_nul : List ℕ → Option (List ℕ)
until_nul [] = none
until_nul (c ∷ cs) =
    if c == 0 then some [] else (elim (until_nul cs) [ none ↦ none | some s ↦ some (c ∷ s) ])

-- The C string at an address.
unfoldable pub string_at : List ℕ → ℕ → Outcome (List ℕ)
unfolding until_nul
string_at mem addr = defined (until_nul (drop addr mem))

-- `strcmp`, on the bytes of the two strings.
unfoldable pub strcmp : List ℕ → List ℕ → Ordering
strcmp [] [] = Ordering.eq
strcmp [] (d ∷ ds) = Ordering.lt
strcmp (c ∷ cs) [] = Ordering.gt
strcmp (c ∷ cs) (d ∷ ds) = elim (compare c d) [ Ordering.eq ↦ strcmp cs ds | other ↦ other ]
