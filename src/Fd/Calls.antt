-- ===== src/Fd/Calls.antt =====
-- IXLandSystem/fs/open.c, fcntl.c and read_write.c: the calls on the descriptor table of the library.
-- What the host and ixland_vfs_open (defined nowhere in the repository) answer is an argument: a number
-- that is not negative, or the `errno` of a failure. `closed` lists the host's descriptors that were
-- closed, the last first. An entry's lock is held across the host's call, so that a call is one step.
-- An offset does not wrap around at 2^63 here.
pub mod Sharing
pub mod Offsets
pub mod Clean
pub mod Reached
use ixland.Prelude.{
  ℕ, zero, suc, ◌+◌, ◌-◌, Bool, true, false, ◌||◌, not, Option, none, some, List, [], ◌∷◌, ◌==◌,
  ltb, leb, if◌then◌else◌,
}
use ixland.Prelude.Int.{ℤ, pos, negsuc, eqb}
use ixland.Prelude.Text.{Bytes}
use ixland.Fd.Errno.{Errno, ebadf, efault, espipe}
use ixland.Fd.Files.{Outcome, ok, err}
use ixland.Fd.Static.{
  max_fd, FdTable, alloc_fd, free_fd, get_fd_entry, get_real_fd, get_fd_flags, set_fd_flags,
  get_fd_offset, set_fd_offset, init_fd_entry, clone_fd_entry,
}

pub record World : Type 0 where
  pub table : FdTable
  pub closed : List ℤ

-- What the host answers for one of its descriptors.
abbrev pub Host : Type 0
Host = ℤ → Outcome ℕ

abbrev pub is_out : ℤ → Bool
is_out (negsuc n) = true
is_out (pos i) = leb max_fd i

-- `fd <= 2`.
abbrev pub is_standard : ℤ → Bool
is_standard (negsuc n) = true
is_standard (pos i) = leb i 2

abbrev pub open_entry :
    Outcome ℕ × FdTable → Bytes → ℕ → ℕ → Outcome ℕ → Option Bool → List ℤ → Outcome ℕ × World
open_entry (err e, t) path flags mode answer directory closed =
    (err e, record { table = t; closed = closed })
open_entry (ok i, t) path flags mode (err e) directory closed =
    (err e, record { table = free_fd (pos i) t; closed = closed })
open_entry (ok i, t) path flags mode (ok real_fd) directory closed = (
  ok i,
  record { table = init_fd_entry i (pos real_fd) flags mode path directory t; closed = closed },
)

-- `answer` is what ixland_vfs_open says, `directory` what `fstat` does of its descriptor.
unfoldable pub open_file :
    Option Bytes → ℕ → ℕ → Outcome ℕ → Option Bool → World → Outcome ℕ × World
open_file none flags mode answer directory w = (err efault, w)
open_file (some path) flags mode answer directory w =
    open_entry (alloc_fd w.table) path flags mode answer directory w.closed

unfoldable openat_file :
    ℤ → Option Bytes → ℕ → ℕ → Outcome ℕ → Option Bool → World → Outcome ℕ × World
openat_file dirfd path flags mode answer directory w = open_file path flags mode answer directory w

-- `O_WRONLY | O_CREAT | O_TRUNC` of the host's header is an argument.
unfoldable creat_file : ℕ → Option Bytes → ℕ → Outcome ℕ → Option Bool → World → Outcome ℕ × World
creat_file wronly_creat_trunc path mode answer directory w =
    open_file path wronly_creat_trunc mode answer directory w

-- The mode counts only with O_CREAT, for which `has_creat` tests.
unfoldable ixland_open :
    (ℕ → Bool) → Option Bytes → ℕ → ℕ → Outcome ℕ → Option Bool → World → Outcome ℕ × World
ixland_open has_creat path flags mode answer directory w =
    open_file path flags (if has_creat flags then mode else 0) answer directory w

abbrev pub close_entry : ℤ → Option ℕ → World → Outcome ℕ × World
close_entry fd none w = (err ebadf, w)
close_entry fd (some i) w =
    (ok 0, record { table = free_fd fd w.table; closed = get_real_fd i w.table ∷ w.closed })

unfoldable pub close_file : ℤ → World → Outcome ℕ × World
close_file fd w =
    if is_out fd
    then (err ebadf, w)
    else if is_standard fd
    then (ok 0, w)
    else close_entry fd (get_fd_entry fd w.table) w

abbrev pub found : ℤ → Option ℕ → Outcome ℤ
found fd none = err ebadf
found fd (some i) = ok fd

unfoldable pub dup : ℤ → FdTable → Outcome ℤ
dup fd t = if is_out fd then err ebadf else found fd (get_fd_entry fd t)

-- The descriptor `new` is closed first if it has an entry.
abbrev pub freed : ℤ → Option ℕ → World → World
freed new none w = w
freed new (some i) w = (close_file new w).1

-- The index that a descriptor in range is.
abbrev pub index : ℤ → ℕ
index (pos i) = i
index (negsuc n) = 0

abbrev pub copy_entry : ℤ → ℤ → Option ℕ → World → Outcome ℤ × World
copy_entry old new none w = (err ebadf, w)
copy_entry old new (some i) w =
    let v = freed new (get_fd_entry new w.table) w in
    (ok new, record v { table = clone_fd_entry (index new) (index old) v.table })

unfoldable pub dup2 : ℤ → ℤ → World → Outcome ℤ × World
dup2 old new w =
    if is_out old || is_out new
    then (err ebadf, w)
    else if eqb old new
    then (ok new, w)
    else copy_entry old new (get_fd_entry old w.table) w

unfoldable dup3 : ℤ → ℤ → ℕ → World → Outcome ℤ × World
dup3 old new flags w = dup2 old new w

-- The commands with what they take; any other command goes to the host.
pub data Command : Type 0 where
  dupfd dupfd_cloexec : (minfd : ℤ) → Command
  getfd getfl : Command
  setfd setfl : (flags : ℕ) → Command
  other : Command

abbrev flags_of : Option ℕ → FdTable → Outcome ℤ
flags_of none t = err ebadf
flags_of (some i) t = ok (pos (get_fd_flags i t))

abbrev pub change_flags : Option ℕ → ℕ → World → Outcome ℤ × World
change_flags none flags w = (err ebadf, w)
change_flags (some i) flags w = (ok (pos 0), record w { table = set_fd_flags i flags w.table })

abbrev pub as_int : Outcome ℕ → Outcome ℤ
as_int (err e) = err e
as_int (ok n) = ok (pos n)

abbrev pub ask : Host → Option ℕ → FdTable → Outcome ℤ
ask host none t = err ebadf
ask host (some i) t = as_int (host (get_real_fd i t))

abbrev pub on_command : Host → ℤ → Command → World → Outcome ℤ × World
on_command host fd (Command.dupfd minfd) w = dup2 fd minfd w
on_command host fd (Command.dupfd_cloexec minfd) w = dup2 fd minfd w
on_command host fd Command.getfd w = (ok (pos 0), w)
on_command host fd (Command.setfd flags) w = (ok (pos 0), w)
on_command host fd Command.getfl w = (flags_of (get_fd_entry fd w.table) w.table, w)
on_command host fd (Command.setfl flags) w = change_flags (get_fd_entry fd w.table) flags w
on_command host fd Command.other w =
    (if is_standard fd then as_int (host fd) else ask host (get_fd_entry fd w.table) w.table, w)

unfoldable pub fcntl : Host → ℤ → Command → World → Outcome ℤ × World
fcntl host fd command w = if is_out fd then (err ebadf, w) else on_command host fd command w

-- An offset with `n` bytes more.
abbrev pub advance : ℤ → ℕ → ℤ
advance (pos a) n = pos (a + n)
advance (negsuc a) n = if leb n a then negsuc (a - n) else pos (n - a - 1)

abbrev pub moved : ℕ → Outcome ℕ → FdTable → FdTable
moved i (err e) t = t
moved i (ok n) t = if ltb 0 n then set_fd_offset i (advance (get_fd_offset i t) n) t else t

abbrev pub transfer_entry : Host → Option ℕ → FdTable → Outcome ℕ × FdTable
transfer_entry host none t = (err ebadf, t)
transfer_entry host (some i) t = (host (get_real_fd i t), moved i (host (get_real_fd i t)) t)

-- `buffer` says whether the buffer's address is not NULL.
unfoldable read_file : Host → ℤ → Bool → FdTable → Outcome ℕ × FdTable
read_file host fd buffer t =
    if not buffer
    then (err efault, t)
    else if is_out fd
    then (err ebadf, t)
    else if is_standard fd
    then (host fd, t)
    else transfer_entry host (get_fd_entry fd t) t

unfoldable write_file : Host → ℤ → Bool → FdTable → Outcome ℕ × FdTable
write_file host fd buffer t =
    if not buffer
    then (err efault, t)
    else if is_out fd
    then (err ebadf, t)
    else if is_standard fd
    then (host fd, t)
    else transfer_entry host (get_fd_entry fd t) t

abbrev pub sought : ℕ → Outcome ℕ → FdTable → FdTable
sought i (err e) t = t
sought i (ok n) t = set_fd_offset i (pos n) t

abbrev pub seek_entry : Host → Option ℕ → FdTable → Outcome ℕ × FdTable
seek_entry host none t = (err ebadf, t)
seek_entry host (some i) t = (host (get_real_fd i t), sought i (host (get_real_fd i t)) t)

unfoldable pub lseek : Host → ℤ → FdTable → Outcome ℕ × FdTable
lseek host fd t =
    if is_out fd
    then (err ebadf, t)
    else if is_standard fd
    then (err espipe, t)
    else seek_entry host (get_fd_entry fd t) t

abbrev at_position : Host → Option ℕ → FdTable → Outcome ℕ
at_position host none t = err ebadf
at_position host (some i) t = host (get_real_fd i t)

unfoldable pread : Host → ℤ → FdTable → Outcome ℕ
pread host fd t = if is_standard fd then err espipe else at_position host (get_fd_entry fd t) t

unfoldable pwrite : Host → ℤ → FdTable → Outcome ℕ
pwrite host fd t = if is_standard fd then err espipe else at_position host (get_fd_entry fd t) t
