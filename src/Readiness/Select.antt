-- ===== src/Readiness/Select.antt =====
-- select.c: ixland_select and ixland_pselect. A `linux_fd_set_t` is the set of its bits, all below
-- IXLAND_FD_SETSIZE, which the code never leaves.
use ixland.Prelude.{
  ℕ, zero, suc, ◌+◌, ◌-◌, ◌*◌, ◌/◌, Bool, true, false, ◌&&◌, ◌||◌, not, Option, none, some, List,
  [], ◌∷◌, ◌++◌, ◌==◌, ltb, if◌then◌else◌,
}
use ixland.Prelude.Int.{ℤ, pos, negsuc}
use ixland.Fd.Errno.{einval, ebadf, enomem}
use ixland.Fd.Files.{Outcome, ok, err}
use ixland.Epoll.{Filter}
use ixland.Epoll.Pwait.{mask_during, mask_after}
use ixland.Readiness.{fd_setsize, Watch, kevent_error}
use ixland.Readiness.Poll.{Report, Limit}

abbrev pub FdSet : Type 0
FdSet = ℕ → Bool

abbrev pub empty_set : FdSet
empty_set fd = false

-- IXLAND_FD_SET.
abbrev pub add_fd : ℕ → FdSet → FdSet
add_fd fd set g = g == fd || set g

-- The three sets of a call; none is NULL.
pub record Sets : Type 0 where
  pub reads : Option FdSet
  pub writes : Option FdSet
  pub excepts : Option FdSet

-- What the host answers: whether fcntl knows a descriptor in the first loop and in the second, between
-- which other threads run, whether kqueue and the two callocs succeed, and what kevent reports.
pub record Host : Type 0 where
  pub is_open : ℕ → Bool
  pub stays_open : ℕ → Bool
  pub has_queue : Bool
  pub has_changes : Bool
  pub has_events : Bool
  pub kevent : List Watch → Limit → Outcome (List Report)

-- `set && IXLAND_FD_ISSET(fd, set)`.
abbrev pub is_set : Option FdSet → ℕ → Bool
is_set none fd = false
is_set (some set) fd = set fd

abbrev pub is_requested : Sets → ℕ → Bool
is_requested s fd = is_set s.reads fd || is_set s.writes fd || is_set s.excepts fd

-- The first loop: `n` rounds from `fd` up; whether every requested descriptor is open.
unfoldable pub all_open : (ℕ → Bool) → Sets → ℕ → ℕ → Bool
all_open o s zero fd = true
all_open o s (suc n) fd =
    let rest = all_open o s n (suc fd) in if is_requested s fd && not (o fd) then false else rest

abbrev pub watch_if : Option FdSet → ℕ → Filter → Bool → List Watch
watch_if set fd filter oob =
    if is_set set fd
    then record { ident = fd; filter = filter; oob = oob; udata = fd + 1 } ∷ []
    else []

abbrev pub watch_fd : Sets → ℕ → List Watch
watch_fd s fd =
    watch_if s.reads fd Filter.read false
    ++ watch_if s.writes fd Filter.write false
    ++ watch_if s.excepts fd Filter.read true

abbrev pub before : List Watch → Option (List Watch) → Option (List Watch)
before ws none = none
before ws (some vs) = some (ws ++ vs)

-- The second loop: the changes, or none where fcntl fails for a requested descriptor.
unfoldable pub build : (ℕ → Bool) → Sets → ℕ → ℕ → Option (List Watch)
build o s zero fd = some []
build o s (suc n) fd =
    let rest = build o s n (suc fd) in
    if is_requested s fd && not (o fd) then none else before (watch_fd s fd) rest

-- IXLAND_FD_ZERO of a set that is there.
abbrev pub cleared : Option FdSet → Option FdSet
cleared none = none
cleared (some set) = some empty_set

abbrev pub clear_all : Sets → Sets
clear_all s = record {
  reads = cleared s.reads;
  writes = cleared s.writes;
  excepts = cleared s.excepts;
}

abbrev pub with_fd : ℕ → Option FdSet → Option FdSet
with_fd fd none = none
with_fd fd (some set) = some (add_fd fd set)

abbrev pub record_event : ℕ → Filter → Bool → Sets → Sets
record_event fd Filter.read true s = record s { excepts = with_fd fd s.excepts }
record_event fd Filter.read false s = record s { reads = with_fd fd s.reads }
record_event fd Filter.write oob s = record s { writes = with_fd fd s.writes }

-- `udata - 1`, if that is a descriptor below `nfds`.
abbrev pub is_known : ℕ → ℕ → Bool
is_known nfds udata = ltb 0 udata && ltb (udata - 1) nfds

-- The loop over the reported events, with the count so far.
unfoldable pub collect : ℕ → List Report → ℕ → Sets → ℕ × Sets
collect nfds [] count s = (count, s)
collect nfds ((udata, r) ∷ rs) count s =
    let known = is_known nfds udata in
    collect nfds rs (if known then count + 1 else count)
      (if known then record_event (udata - 1) r.filter r.ooband s else s)

-- `tv_sec` and `tv_usec * 1000`.
abbrev pub limit_of : Option (ℕ × ℕ) → Limit
limit_of none = none
limit_of (some (sec, usec)) = some (sec, usec * 1000)

abbrev pub finish : ℕ → Sets → Outcome (List Report) → Outcome ℕ × Sets
finish nfds s (err e) = (err (kevent_error ebadf e), s)
finish nfds s (ok rs) = let r = collect nfds rs 0 s in (ok r.0, r.1)

abbrev pub wait_for : Host → ℕ → Sets → Limit → Option (List Watch) → Outcome ℕ × Sets
wait_for host nfds s limit none = (err ebadf, s)
wait_for host nfds s limit (some []) = (ok 0, s)
wait_for host nfds s limit (some (w ∷ ws)) =
    if host.has_events
    then finish nfds (clear_all s) (host.kevent (w ∷ ws) limit)
    else (err enomem, s)

abbrev pub is_null : Option FdSet → Bool
is_null none = true
is_null (some set) = false

-- With something to wait for.
abbrev select_some : Host → ℕ → Sets → Limit → Outcome ℕ × Sets
select_some host nfds s limit =
    if not (all_open host.is_open s nfds 0)
    then (err ebadf, s)
    else if not host.has_queue || not host.has_changes
    then (err enomem, s)
    else wait_for host nfds s limit (build host.stays_open s nfds 0)

-- Sleeping changes nothing; `timeout` is not negative.
unfoldable pub select : Host → ℤ → Sets → Option (ℕ × ℕ) → Outcome ℕ × Sets
unfolding all_open build collect
select host (negsuc n) s timeout = (err einval, s)
select host (pos nfds) s timeout =
    if ltb fd_setsize nfds
    then (err einval, s)
    else if nfds == 0 || (is_null s.reads && is_null s.writes && is_null s.excepts)
    then (ok 0, s)
    else select_some host nfds s (limit_of timeout)

-- `tv_nsec / 1000`.
unfoldable microseconds : Option (ℕ × ℕ) → Option (ℕ × ℕ)
microseconds none = none
microseconds (some (sec, nsec)) = some (sec, nsec / 1000)

-- The host's answers depend on the thread's mask, which is the second result.
unfoldable pub pselect :
    (ℕ → Host) → ℤ → Sets → Option (ℕ × ℕ) → Option ℕ → ℕ → (Outcome ℕ × Sets) × ℕ
unfolding select microseconds
pselect host nfds s timeout sigmask mask =
    let during = mask_during sigmask mask in
    (select (host during) nfds s (microseconds timeout), mask_after sigmask mask during)
