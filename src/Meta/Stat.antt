-- ===== src/Meta/Stat.antt =====
-- The status of a file: what `set_stat` of meta/metafs_builder.cc puts into a node, and what
-- `get_stat` of meta/meta_file_system.cc makes of it.
-- `time_t` and `tv_nsec` are not negative here. Fields of `struct stat` that neither function names
-- are left out.
mod Tests
use distfs.Base.{
  ℕ, suc, ◌+◌, ◌*◌, ◌/◌, ◌%◌, ◌^◌, ◌<◌, ◌≤◌, if◌then◌else◌, Bool, true, false, ◌≡◌, refl, ap, arith,
  ltb,
}
use distfs.Meta.Effects.{Outcome, done, undefined, ◌>>=◌}
use distfs.Meta.{Node}
use distfs.Meta.MetaFileSystem.{is_dir}

pub record Timespec : Type 0 where
  pub sec : ℕ
  pub nsec : ℕ

pub record Stat : Type 0 where
  pub mode : ℕ
  pub nlink : ℕ
  pub uid : ℕ
  pub gid : ℕ
  pub size : ℕ
  pub blocks : ℕ
  pub atim : Timespec
  pub mtim : Timespec
  pub ctim : Timespec

abbrev pub billion : ℕ
billion = 1_000_000_000

-- Nanoseconds since the epoch. The product and the sum are of signed 64-bit numbers, whose overflow
-- is undefined; as `tv_nsec` is not negative, the sum overflows if the product does.
pub to_ns : Timespec → Outcome ℕ
to_ns t =
    if ltb (t.nsec + t.sec * billion) (2 ^ 63) then done (t.nsec + t.sec * billion) else undefined

pub of_ns : ℕ → Timespec
of_ns ns = record { sec = ns / billion; nsec = ns % billion }

pub set_stat : Stat → Node → Outcome Node
unfolding to_ns
set_stat st n = do
  ctime ← to_ns st.ctim
  mtime ← to_ns st.mtim
  done (record n {
    mode = st.mode;
    uid = st.uid;
    gid = st.gid;
    size = st.size;
    block_count = st.blocks;
    ctime_ns = ctime;
    mtime_ns = mtime;
  })

pub get_stat : Node → Stat
unfolding of_ns is_dir
get_stat n = record {
  mode = n.mode;
  nlink = if is_dir n.mode then 2 else 1;
  uid = n.uid;
  gid = n.gid;
  size = n.size;
  blocks = n.block_count;
  atim = of_ns n.mtime_ns;
  mtim = of_ns n.mtime_ns;
  ctim = of_ns n.ctime_ns;
}

-- Nanoseconds that a signed number of 64 bits can say.
abbrev pub IsTime : Timespec → Type 0
IsTime t = (t.nsec < billion) × (t.nsec + t.sec * billion < 2 ^ 63)

pub to_ns-done :
    (t : Timespec) → t.nsec + t.sec * billion < 2 ^ 63 → to_ns t ≡ done (t.nsec + t.sec * billion)
unfolding to_ns
to_ns-done t h = ground arith

of_ns-sum : (t : Timespec) → IsTime t → of_ns (t.nsec + t.sec * billion) ≡ t
unfolding of_ns
of_ns-sum t h =
    let secs : (t.nsec + t.sec * billion) / billion ≡ t.sec = omega arith in
    let nsecs : (t.nsec + t.sec * billion) % billion ≡ t.nsec = omega arith in
    λ i. record { sec = secs i; nsec = nsecs i }

-- What a status keeps on its way through a node: everything but the number of links, which is 2 for
-- a directory and 1 for the rest, and the time of the last access, which becomes that of the last
-- change. (The two times, in nanoseconds, are below 2 ^ 63, and `tv_nsec` is below a second.)
pub get_stat-set_stat :
    (st : Stat) (n : Node)
    → IsTime st.mtim
    → IsTime st.ctim
    → (n' : Node) × (set_stat st n ≡ done n')
      × (get_stat n' ≡ record st { nlink = if is_dir st.mode then 2 else 1; atim = st.mtim })
unfolding set_stat get_stat
get_stat-set_stat st n m c = (
  record n {
    mode = st.mode;
    uid = st.uid;
    gid = st.gid;
    size = st.size;
    block_count = st.blocks;
    ctime_ns = st.ctim.nsec + st.ctim.sec * billion;
    mtime_ns = st.mtim.nsec + st.mtim.sec * billion;
  },
  rw (to_ns-done st.ctim c.1, to_ns-done st.mtim m.1) refl,
  rw (of_ns-sum st.mtim m, of_ns-sum st.ctim c) refl,
)
