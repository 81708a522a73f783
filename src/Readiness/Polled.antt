-- ===== src/Readiness/Polled.antt =====
-- select.c: what a poll reports.
use Prim.Native.Nat.{bit_or}
use ixland.Prelude.{
  ℕ, suc, ◌+◌, ◌^◌, ◌<◌, ◌≡◌, refl, Bool, true, false, not, ◌&&◌, ◌||◌, some, List, [], ◌∷◌, ◌==◌,
  ltb, length, if◌then◌else◌, arith,
}
use ixland.Prelude.Int.{ℤ, pos, negsuc}
use ixland.Fd.Files.{ok}
use ixland.Epoll.{Filter, Reported, bit}
use ixland.Readiness.{pollerr, pollhup, Watch}
use ixland.Readiness.Poll.{
  PollFd, Report, Host, filter_flag, poll_revents, is_polled, prepare, watches_of, watches,
  any_nval, limit_of, room, poll_kqueue, poll,
}

-- `v` with the flags of every report of entry `i`.
abbrev with_reports : ℕ → List Report → ℕ → ℕ
with_reports i [] v = v
with_reports i ((j, r) ∷ rs) v = with_reports i rs (if j == i then bit_or v (poll_revents r) else v)

-- The flags of Linux's <poll.h>: POLLIN 1, POLLOUT 4, POLLERR 8, POLLHUP 16, POLLNVAL 32.
abbrev poll_flags : (can_read can_write error hung invalid : Bool) → ℕ
poll_flags can_read can_write error hung invalid =
    (if can_read then 1 else 0)
    + (if can_write then 4 else 0)
    + (if error then 8 else 0)
    + (if hung then 16 else 0)
    + (if invalid then 32 else 0)

abbrev is_read : Filter → Bool
is_read Filter.read = true
is_read Filter.write = false

-- Whether some report names entry `j` and is as `p` says.
abbrev any_report : (Reported → Bool) → ℕ → List Report → Bool
any_report p j [] = false
any_report p j ((i, r) ∷ rs) = (i == j && p r) || any_report p j rs

abbrev all_bools : (Bool → Bool) → Bool
all_bools p = p true && p false

-- The flags of an entry with those of a report, as a test.
abbrev joins : Filter → Bool → Bool → Bool → Bool → Bool → Bool → Bool → Bool
joins f i o e h n x y =
    bit_or (poll_flags i o e h n) (filter_flag f + bit x pollerr + bit y pollhup)
    == poll_flags (i || is_read f) (o || not (is_read f)) (e || x) (h || y) n

abbrev always_joins : Filter → Bool
always_joins f = all_bools λ i. all_bools λ o.
    all_bools λ e. all_bools λ h. all_bools λ n. all_bools λ x. all_bools λ y. joins f i o e h n x y

-- The number of reports whose index is below `n`.
abbrev count_below : ℕ → List Report → ℕ
count_below n [] = 0
count_below n ((j, r) ∷ rs) = (if ltb j n then 1 else 0) + count_below n rs

-- A poll whose queue, arrays and kevent succeed.
abbrev pub Succeeds : Host → List PollFd → ℤ → Watch → List Watch → List Report → Type 0
Succeeds host ps timeout w ws rs =
    (host.has_queue ≡ true)
    × (host.has_changes ≡ true)
    × (host.has_events ≡ true)
    × (length ps < 2 ^ 31)
    × (watches host.is_open 0 ps ≡ w ∷ ws)
    × (host.kevent (w ∷ ws) (room ps) (limit_of timeout) ≡ ok rs)

-- Every entry has a descriptor that is not open.
abbrev AllUnknown : (ℕ → Bool) → List PollFd → Type 0
AllUnknown o [] = Unit
AllUnknown o (p ∷ ps) = (is_polled o p.fd ≡ false) × AllUnknown o ps

watches_of_unknown :
    (o : ℕ → Bool) (i : ℕ) (fd : ℤ) (events : ℕ)
    → is_polled o fd ≡ false
    → watches_of o i fd events ≡ []
watches_of_unknown o i (negsuc n) events h = refl
watches_of_unknown o i (pos fd) events h = rw h refl

watches_unknown : (o : ℕ → Bool) (i : ℕ) (ps : List PollFd) → AllUnknown o ps → watches o i ps ≡ []
unfolding watches
watches_unknown o i [] h = refl
watches_unknown o i (p ∷ ps) (e, h) =
    rw (watches_of_unknown o i p.fd p.events e) (watches_unknown o (suc i) ps h)

-- Poll answers 1 for entries that all have descriptors which are not open, however many they are.
poll-one_for_all :
    (host : Host) (p : PollFd) (ps : List PollFd) (timeout : ℤ)
    → host.has_queue ≡ true
    → host.has_changes ≡ true
    → AllUnknown host.is_open (p ∷ ps)
    → poll host (some (p ∷ ps)) timeout ≡ some (ok 1, prepare host.is_open (p ∷ ps))
unfolding poll poll_kqueue any_nval
poll-one_for_all host p ps timeout q c h =
    let z : ltb (room (p ∷ ps)) 0 ≡ false = ground arith in
    rw (q, c, watches_unknown host.is_open 0 (p ∷ ps) h, z, h.0) refl
