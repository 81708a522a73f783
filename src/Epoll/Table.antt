-- ===== src/Epoll/Table.antt =====
-- eventpoll.c: the table of instances, epoll_create, epoll_create1 and epoll_ctl.
use Prim.Native.Nat.{bit_and}
use ixland.Prelude.{
  ℕ, zero, suc, ◌+◌, ◌-◌, Bool, ◌||◌, not, Option, none, some, [], ◌==◌, ltb, leb, if◌then◌else◌,
}
use ixland.Prelude.Int.{ℤ, pos, negsuc, eqb}
use ixland.Fd.Errno.{einval, ebadf, emfile, enomem}
use ixland.Fd.Files.{Outcome, ok, err}
use ixland.Fd.Static.{max_fd}
use ixland.Epoll.{Event, Instance, epollet, Kevent, Op, ctl_op}

abbrev pub max_instances : ℕ
max_instances = 256

-- epoll_table. Each instance stands in it once.
abbrev pub EpollTable : Type 0
EpollTable = ℕ → Option Instance

unfoldable pub first_null : ℕ → ℕ → EpollTable → Option ℕ
first_null zero i table = none
first_null (suc rounds) i table =
    let rest = first_null rounds (i + 1) table in elim (table i) [ none ↦ some i | some epi ↦ rest ]

abbrev pub put_instance : EpollTable → ℕ → Option Instance → EpollTable
put_instance table i o = λ j. if j == i then o else table j

abbrev register_at : Option ℕ → Instance → EpollTable → Option ℕ × EpollTable
register_at none epi table = (none, table)
register_at (some i) epi table = (some (i + max_fd + 100), put_instance table i (some epi))

abbrev register_instance : Instance → EpollTable → Option ℕ × EpollTable
register_instance epi table = register_at (first_null max_instances 0 table) epi table

unfoldable pub lookup_instance : ℤ → EpollTable → Option Instance
lookup_instance (negsuc n) table = none
lookup_instance (pos epfd) table =
    if ltb epfd (max_fd + 100) || leb max_instances (epfd - max_fd - 100)
    then none
    else table (epfd - max_fd - 100)

unfoldable pub unregister_instance : ℤ → EpollTable → EpollTable
unregister_instance (negsuc n) table = table
unregister_instance (pos epfd) table =
    if ltb epfd (max_fd + 100) || leb max_instances (epfd - max_fd - 100)
    then table
    else put_instance table (epfd - max_fd - 100) none

abbrev pub new_instance : ℕ → ℕ → Instance
new_instance kq flags = record {
  kq = kq;
  flags = flags;
  items = λ b. [];
  item_count = 0;
  total_events = 0;
  submitted = [];
}

abbrev pub registered : Option ℕ × EpollTable → Outcome ℕ × EpollTable
registered (none, table) = (err emfile, table)
registered (some epfd, table) = (ok epfd, table)

-- EPOLL_CLOEXEC is the only flag.
abbrev pub is_bad_flags : ℕ → Bool
is_bad_flags flags = not (flags == bit_and flags epollet)

-- `memory` and `buckets`: the two calls of calloc; `kq`: kqueue of the host.
unfoldable pub epoll_create1 : Bool → Option ℕ → Bool → ℕ → EpollTable → Outcome ℕ × EpollTable
epoll_create1 memory none buckets flags table =
    if is_bad_flags flags
    then (err einval, table)
    else if not memory
    then (err enomem, table)
    else (err emfile, table)
epoll_create1 memory (some kq) buckets flags table =
    if is_bad_flags flags
    then (err einval, table)
    else if not memory
    then (err enomem, table)
    else if not buckets
    then (err enomem, table)
    else registered (register_instance (new_instance kq flags) table)

unfoldable epoll_create : Bool → Option ℕ → Bool → ℤ → EpollTable → Outcome ℕ × EpollTable
epoll_create memory kq buckets (negsuc n) table = (err einval, table)
epoll_create memory kq buckets (pos size) table =
    if size == 0 then (err einval, table) else epoll_create1 memory kq buckets 0 table

-- The index of an instance that was found.
abbrev pub number_of : ℤ → ℕ
number_of (pos epfd) = epfd - max_fd - 100
number_of (negsuc n) = 0

abbrev put_result : ℕ → EpollTable → Outcome ℕ × Instance → Outcome ℕ × EpollTable
put_result i table (r, epi) = (r, put_instance table i (some epi))

-- `valid` says of a descriptor whether fcntl knows it.
abbrev ctl_on :
    Bool
    → Kevent
    → (ℕ → Bool)
    → ℤ
    → Op
    → ℤ
    → Option Event
    → Option Instance
    → EpollTable
    → Outcome ℕ × EpollTable
ctl_on memory kevent valid epfd op fd event none table = (err ebadf, table)
ctl_on memory kevent valid epfd op (negsuc n) event (some epi) table =
    if eqb epfd (negsuc n) then (err einval, table) else (err ebadf, table)
ctl_on memory kevent valid epfd op (pos fd) event (some epi) table =
    if eqb epfd (pos fd)
    then (err einval, table)
    else if not (valid fd)
    then (err ebadf, table)
    else put_result (number_of epfd) table (ctl_op memory kevent op fd event epi)

unfoldable pub epoll_ctl :
    Bool → Kevent → (ℕ → Bool) → ℤ → Op → ℤ → Option Event → EpollTable → Outcome ℕ × EpollTable
epoll_ctl memory kevent valid epfd op fd event table =
    ctl_on memory kevent valid epfd op fd event (lookup_instance epfd table) table
