-- ===== src/Readiness.antt =====
-- IXLandSystem/fs/select.c and select_internal.h: poll, ppoll, select and pselect on top of kqueue. What
-- kqueue, calloc, fcntl and kevent of the host answer is an argument; closing the queue and freeing the
-- arrays leave no modelled state.
pub mod Poll
pub mod Select
pub mod Asked
pub mod Polled
pub mod Selected
pub mod Requested
use ixland.Prelude.{ℕ, Bool, ◌-◌, ◌%◌, ◌^◌, ltb, if◌then◌else◌}
use ixland.Prelude.Int.{ℤ, pos, negsuc}
use ixland.Fd.Errno.{Errno, eintr}
use ixland.Epoll.{Filter}

abbrev pub pollin : ℕ
pollin = 0x001

abbrev pub pollpri : ℕ
pollpri = 0x002

abbrev pub pollout : ℕ
pollout = 0x004

abbrev pub pollerr : ℕ
pollerr = 0x008

abbrev pub pollhup : ℕ
pollhup = 0x010

abbrev pub pollnval : ℕ
pollnval = 0x020

abbrev pub pollrdnorm : ℕ
pollrdnorm = 0x040

abbrev pub pollrdband : ℕ
pollrdband = 0x080

abbrev pub pollwrnorm : ℕ
pollwrnorm = 0x100

abbrev pub pollwrband : ℕ
pollwrband = 0x200

abbrev pub fd_setsize : ℕ
fd_setsize = 1024

-- A change given to kevent: a descriptor, EVFILT_READ or EVFILT_WRITE, the flag EV_OOBAND beside EV_ADD,
-- and `udata`.
pub record Watch : Type 0 where
  pub ident : ℕ
  pub filter : Filter
  pub oob : Bool
  pub udata : ℕ

-- `(int)n`.
abbrev pub as_int : ℕ → ℤ
as_int n = if ltb (n % 2 ^ 32) (2 ^ 31) then pos (n % 2 ^ 32) else negsuc (2 ^ 32 - n % 2 ^ 32 - 1)

-- The error of a failed kevent: EINTR is kept, and any other becomes `e`.
abbrev pub kevent_error : Errno → Errno → Errno
kevent_error e Errno.eintr = eintr
kevent_error e _ = e
