-- ===== src/Readiness/Poll.antt =====
-- select.c: ixland_poll and ixland_ppoll.
use Prim.Native.Nat.{bit_or}
use ixland.Prelude.{
  ℕ, zero, suc, ◌+◌, ◌*◌, ◌/◌, ◌%◌, ◌^◌, Bool, false, ◌||◌, not, Option, none, some, List, [], ◌∷◌,
  ◌++◌, ltb, length, if◌then◌else◌,
}
use ixland.Prelude.Int.{ℤ, pos, negsuc}
use ixland.Fd.Errno.{efault, eintr, enomem}
use ixland.Fd.Files.{Outcome, ok, err}
use ixland.Epoll.{Filter, Reported, has_any, bit}
use ixland.Epoll.Pwait.{mask_during, mask_after}
use ixland.Readiness.{
  pollin, pollpri, pollout, pollerr, pollhup, pollnval, pollrdnorm, pollrdband, pollwrnorm,
  pollwrband, Watch, as_int, kevent_error,
}

-- `struct linux_pollfd`; the two shorts are bit patterns.
pub record PollFd : Type 0 where
  pub fd : ℤ
  pub events : ℕ
  pub revents : ℕ

-- A reported kevent: its `udata`, its filter and its flags.
abbrev pub Report : Type 0
Report = ℕ × Reported

-- `timeout_ms / 1000` and `(timeout_ms % 1000) * 1000000`; none is no limit.
abbrev pub Limit : Type 0
Limit = Option (ℕ × ℕ)

-- What the host answers: whether fcntl knows a descriptor, whether kqueue and the two callocs succeed,
-- and what kevent reports for the changes, the room of the array of events and the limit.
pub record Host : Type 0 where
  pub is_open : ℕ → Bool
  pub has_queue : Bool
  pub has_changes : Bool
  pub has_events : Bool
  pub kevent : List Watch → ℕ → Limit → Outcome (List Report)

abbrev pub filter_flag : Filter → ℕ
filter_flag Filter.read = pollin
filter_flag Filter.write = pollout

-- The flags are different bits.
unfoldable pub poll_revents : Reported → ℕ
poll_revents r = filter_flag r.filter + bit r.error pollerr + bit r.eof pollhup

abbrev pub is_polled : (ℕ → Bool) → ℤ → Bool
is_polled is_open (negsuc n) = false
is_polled is_open (pos fd) = is_open fd

-- `revents` of an entry after the first loop.
unfoldable pub prepared : (ℕ → Bool) → PollFd → PollFd
prepared is_open p = record p { revents = if is_polled is_open p.fd then 0 else pollnval }

unfoldable pub prepare : (ℕ → Bool) → List PollFd → List PollFd
unfolding prepared
prepare is_open [] = []
prepare is_open (p ∷ ps) = prepared is_open p ∷ prepare is_open ps

abbrev pub wants : Filter → ℕ → Bool
wants Filter.read events = has_any events (pollin + pollrdnorm + pollrdband + pollpri)
wants Filter.write events = has_any events (pollout + pollwrnorm + pollwrband)

abbrev pub watch_for : Bool → ℕ → Filter → ℕ → List Watch
watch_for wanted fd filter i =
    if wanted then record { ident = fd; filter = filter; oob = false; udata = i } ∷ [] else []

abbrev pub watches_of : (ℕ → Bool) → ℕ → ℤ → ℕ → List Watch
watches_of is_open i (negsuc n) events = []
watches_of is_open i (pos fd) events =
    if is_open fd
    then watch_for (wants Filter.read events) fd Filter.read i
      ++ watch_for (wants Filter.write events) fd Filter.write i
    else []

-- The changes that the first loop writes for the entries from `i` up.
unfoldable pub watches : (ℕ → Bool) → ℕ → List PollFd → List Watch
watches is_open i [] = []
watches is_open i (p ∷ ps) = watches_of is_open i p.fd p.events ++ watches is_open (suc i) ps

-- `revents & POLLNVAL` of some entry: an entry has it exactly if it is not polled.
unfoldable pub any_nval : List PollFd → Bool
any_nval [] = false
any_nval (p ∷ ps) = has_any p.revents pollnval || any_nval ps

-- `fds[idx].revents |= flags`.
unfoldable pub mark : ℕ → ℕ → List PollFd → List PollFd
mark i flags [] = []
mark zero flags (p ∷ ps) = record p { revents = bit_or p.revents flags } ∷ ps
mark (suc i) flags (p ∷ ps) = p ∷ mark i flags ps

-- The loop over the reported events, with the count so far.
unfoldable pub collect : List Report → ℕ → List PollFd → ℕ × List PollFd
unfolding mark poll_revents
collect [] count ps = (count, ps)
collect ((i, r) ∷ rs) count ps =
    let known = ltb i (length ps) in
    collect rs (if known then count + 1 else count)
      (if known then mark i (poll_revents r) ps else ps)

abbrev pub limit_of : ℤ → Limit
limit_of (negsuc n) = none
limit_of (pos ms) = some (ms / 1000, ms % 1000 * 1000000)

abbrev pub finish : List PollFd → Outcome (List Report) → Outcome ℕ × List PollFd
finish ps (err e) = (err (kevent_error efault e), ps)
finish ps (ok rs) = let r = collect rs 0 ps in (ok r.0, r.1)

-- `nfds * 2` in 32 bits, the length of both arrays.
abbrev pub room : List PollFd → ℕ
room ps = length ps * 2 % 2 ^ 32

-- After the first loop; `ps` are the entries it leaves.
abbrev pub wait_for : Host → ℤ → List Watch → List PollFd → Outcome ℕ × List PollFd
wait_for host timeout [] ps = (ok (if any_nval ps then 1 else 0), ps)
wait_for host timeout (w ∷ ws) ps =
    if host.has_events
    then finish ps (host.kevent (w ∷ ws) (room ps) (limit_of timeout))
    else (err enomem, ps)

-- No entries: the call sleeps, or it waits for a signal.
abbrev poll_nothing : ℤ → Outcome ℕ
poll_nothing (pos ms) = ok 0
poll_nothing (negsuc n) = err eintr

-- none: a change is written behind the array.
unfoldable pub poll_kqueue : Host → List PollFd → ℤ → Option (Outcome ℕ × List PollFd)
unfolding prepare watches any_nval collect
poll_kqueue host [] timeout = some (poll_nothing timeout, [])
poll_kqueue host (p ∷ ps) timeout =
    if not host.has_queue || not host.has_changes
    then some (err enomem, p ∷ ps)
    else if ltb (room (p ∷ ps)) (length (watches host.is_open 0 (p ∷ ps)))
    then none
    else some
        (wait_for host timeout (watches host.is_open 0 (p ∷ ps)) (prepare host.is_open (p ∷ ps)))

-- none for `fds` is NULL. The number of entries is the length of the list.
unfoldable pub poll : Host → Option (List PollFd) → ℤ → Option (Outcome ℕ × List PollFd)
unfolding poll_kqueue
poll host none timeout = some (err efault, [])
poll host (some ps) timeout = poll_kqueue host ps timeout

-- The limit of ppoll, `tv_sec` and `tv_nsec` (neither negative), in milliseconds.
unfoldable milliseconds : Option (ℕ × ℕ) → ℤ
milliseconds none = negsuc 0
milliseconds (some (sec, nsec)) = as_int (sec * 1000 + nsec / 1000000)

-- The host's answers depend on the thread's mask, which is the second result.
unfoldable pub ppoll :
    (ℕ → Host)
    → Option (List PollFd)
    → Option (ℕ × ℕ)
    → Option ℕ
    → ℕ
    → Option (Outcome ℕ × List PollFd) × ℕ
unfolding poll milliseconds
ppoll host ps timeout sigmask mask =
    let during = mask_during sigmask mask in
    (poll (host during) ps (milliseconds timeout), mask_after sigmask mask during)
