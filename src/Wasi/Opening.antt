-- ===== src/Wasi/Opening.antt =====
-- ixland_wamr.c: path_open and clock_time_get.
use Prim.Native.Nat.{bit_and, bit_or}
use ixland.Prelude.{
  ◌++◌, ℕ, zero, suc, ◌+◌, ◌-◌, ◌*◌, ◌%◌, ◌^◌, Bool, not, Option, none, some, [], ◌∷◌, ◌==◌,
  if◌then◌else◌,
}
use ixland.Prelude.Int.{pos, is_neg}
use ixland.Prelude.Text.{drop, Bytes}
use ixland.Fd.Files.{Outcome, ok, err}
use ixland.Wasi.{
  strncpy, done, fail, WasiErrno, Reply, errno_to_wasi, FdEntry, wasi_max_fd, Table, put_entry,
  checked,
}

-- The flags O_... of the host.
pub record OpenFlags : Type 0 where
  pub cloexec : ℕ
  pub creat : ℕ
  pub directory : ℕ
  pub excl : ℕ
  pub trunc : ℕ
  pub rdonly : ℕ
  pub wronly : ℕ
  pub rdwr : ℕ

-- The bits of `oflags` and of `fs_rights_base` that are read.
pub record Asked : Type 0 where
  pub creat : Bool
  pub directory : Bool
  pub excl : Bool
  pub trunc : Bool
  pub reads : Bool
  pub writes : Bool

abbrev pub or_if : Bool → ℕ → ℕ → ℕ
or_if b flag flags = if b then bit_or flags flag else flags

-- `(flags & ~O_RDONLY) | O_RDWR`, or `flags | O_WRONLY`, by `flags & O_RDONLY`.
abbrev for_writing : OpenFlags → ℕ → ℕ
for_writing o flags =
    if bit_and flags o.rdonly == 0
    then bit_or flags o.wronly
    else bit_or (flags - bit_and flags o.rdonly) o.rdwr

abbrev pub creation_flags : OpenFlags → Asked → ℕ
creation_flags o a =
    or_if a.trunc o.trunc
      (or_if a.excl o.excl (or_if a.directory o.directory (or_if a.creat o.creat o.cloexec)))

unfoldable pub native_flags : OpenFlags → Asked → ℕ
native_flags o a =
    let flags = or_if a.reads o.rdonly (creation_flags o a) in
    if a.writes then for_writing o flags else flags

-- The bytes of memory up to the first NUL.
unfoldable pub c_string : Bytes → Bytes
c_string [] = []
c_string (b ∷ bs) = let rest = c_string bs in if b == 0 then [] else b ∷ rest

unfoldable pub first_free : ℕ → ℕ → (ℕ → FdEntry) → Option ℕ
first_free zero i entries = none
first_free (suc n) i entries =
    let rest = first_free n (suc i) entries in if is_neg (entries i).real_fd then some i else rest

-- The path is copied into the entry's array, whose last byte stays.
abbrev pub copied : Bytes → Bytes → Bytes
copied path old = strncpy 1023 path ++ drop 1023 old

abbrev use_slot : Bytes → ℕ → Option ℕ → Table → Reply ℕ × Table
use_slot path real none t = (fail WasiErrno.emfile, record t { closed = pos real ∷ t.closed })
use_slot path real (some i) t = (
  done i,
  put_entry t i (record (t.entries i) {
    real_fd = pos real;
    wasi_fd = pos i;
    path = copied path (t.entries i).path;
  }),
)

abbrev pub opened : Bytes → Outcome ℕ → Table → Reply ℕ × Table
opened path (err e) t = (fail (errno_to_wasi e), t)
opened path (ok real) t = use_slot path real (first_free (wasi_max_fd - 3) 3 t.entries) t

-- `memory` is what stands from the path's address on; `path_len`, `dirfd` and the rest are not read.
unfoldable pub path_open :
    Bool → Bool → OpenFlags → (Bytes → ℕ → Outcome ℕ) → Bytes → ℕ → Asked → Table → Reply ℕ × Table
unfolding native_flags c_string errno_to_wasi
path_open inst mapped o vfs_open memory path_len a t =
    if not inst
    then (fail WasiErrno.einval, t)
    else if not mapped
    then (fail WasiErrno.efault, t)
    else opened (c_string memory) (vfs_open (c_string memory) (native_flags o a)) t

-- The four clocks, and any other number.
pub data Clock : Type 0 where
  realtime monotonic process_cputime thread_cputime other : Clock

abbrev nanoseconds : Outcome (ℕ × ℕ) → Reply ℕ
nanoseconds (err e) = fail (errno_to_wasi e)
nanoseconds (ok (sec, nsec)) = done ((sec * 1000000000 + nsec) % 2 ^ 64)

abbrev read_clock : (Clock → Outcome (ℕ × ℕ)) → Clock → Reply ℕ
read_clock host Clock.other = fail WasiErrno.einval
read_clock host clock = nanoseconds (host clock)

-- `host` gives the seconds and the nanoseconds of a clock.
unfoldable pub clock_time_get : Bool → Bool → (Clock → Outcome (ℕ × ℕ)) → Clock → Reply ℕ
unfolding errno_to_wasi
clock_time_get inst mapped host clock = checked inst mapped (read_clock host clock)
