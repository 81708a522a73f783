-- ===== src/Readiness/Requested.antt =====
-- select.c: a select stays within what was requested, and what it leaves of the sets when it fails.
use ixland.Prelude.{
  ℕ, zero, suc, ◌+◌, ◌-◌, ◌≤◌, ◌<◌, ◌≡◌, refl, sym, ap, ◌∙◌, Bool, true, false, ◌&&◌, ◌||◌, not,
  Option, none, some, List, [], ◌∷◌, ◌++◌, ◌==◌, ltb, Bool-cases, Option-cases, inl, inr, arith,
}
use ixland.Prelude.Int.{pos}
use ixland.Fd.Errno.{Errno, ebadf}
use ixland.Fd.Files.{Outcome, err}
use ixland.Epoll.{Filter}
use ixland.Readiness.{fd_setsize, Watch, kevent_error}
use ixland.Readiness.Poll.{Report}
use ixland.Readiness.Select.{
  FdSet, Sets, Host, is_set, is_requested, all_open, watch_if, watch_fd, build, clear_all, is_known,
  limit_of, is_null, select,
}
use ixland.Readiness.Selected.{
  Kind, set_of, kind_of, same_kind, is_reported, is_set-cleared, is_set_null, select-reports,
  is_waiting, Succeeds,
}

abbrev same_filter : Filter → Filter → Bool
same_filter Filter.read Filter.read = true
same_filter Filter.write Filter.write = true
same_filter _ _ = false

-- The filter of each set.
abbrev filter_of : Kind → Filter
filter_of Kind.readable = Filter.read
filter_of Kind.writable = Filter.write
filter_of Kind.exceptional = Filter.read

-- Whether a set of that filter holds the descriptor.
abbrev pub is_asked : Filter → Sets → ℕ → Bool
is_asked Filter.read s fd = is_set s.reads fd || is_set s.excepts fd
is_asked Filter.write s fd = is_set s.writes fd

-- Whether a list of changes asks for a filter under a `udata`.
abbrev has_watch : ℕ → Filter → List Watch → Bool
has_watch udata f [] = false
has_watch udata f (w ∷ ws) = (w.udata == udata && same_filter w.filter f) || has_watch udata f ws

-- Every report has a filter and the `udata` of a change that was asked for with it.
abbrev AllAsked : List Watch → List Report → Type 0
AllAsked ws [] = Unit
AllAsked ws ((u, r) ∷ rs) = (has_watch u r.filter ws ≡ true) × AllAsked ws rs

filter_of-kind_of :
    (f : Filter) (oob : Bool) (k : Kind) → same_kind (kind_of f oob) k ≡ true → filter_of k ≡ f
filter_of-kind_of Filter.read true Kind.exceptional h = refl
filter_of-kind_of Filter.read false Kind.readable h = refl
filter_of-kind_of Filter.write oob Kind.writable h = refl
filter_of-kind_of Filter.read true Kind.readable h = cc
filter_of-kind_of Filter.read true Kind.writable h = cc
filter_of-kind_of Filter.read false Kind.exceptional h = cc
filter_of-kind_of Filter.read false Kind.writable h = cc
filter_of-kind_of Filter.write oob Kind.readable h = cc
filter_of-kind_of Filter.write oob Kind.exceptional h = cc

has_watch-is_reported :
    (n fd : ℕ) (k : Kind) (ws : List Watch) (rs : List Report)
    → AllAsked ws rs
    → is_reported n fd k rs ≡ true
    → has_watch (fd + 1) (filter_of k) ws ≡ true
has_watch-is_reported n fd k ws [] a h = cc
has_watch-is_reported n fd k ws ((u, r) ∷ rs) (a, more) h =
    elim (Bool-cases (is_known n u && fd == u - 1 && same_kind (kind_of r.filter r.ooband) k)) [
      | inl e ↦
          let same = filter_of-kind_of r.filter r.ooband k (ground arith) in
          let place : u ≡ fd + 1 = ground arith in rw (← place, same) a
      | inr e ↦ has_watch-is_reported n fd k ws rs more (ground arith)
    ]

has_watch-append :
    (u : ℕ) (k : Filter) (vs ws : List Watch)
    → has_watch u k (vs ++ ws) ≡ (has_watch u k vs || has_watch u k ws)
has_watch-append u k [] ws = refl
has_watch-append u k (v ∷ vs) ws = ground (arith, has_watch-append u k vs ws)

has_watch-watch_if :
    (u : ℕ) (k : Filter) (o : Option FdSet) (g : ℕ) (f : Filter) (oob : Bool)
    → has_watch u k (watch_if o g f oob) ≡ (is_set o g && g + 1 == u && same_filter f k)
has_watch-watch_if u k none g f oob = refl
has_watch-watch_if u k (some set) g f oob = ground arith

chosen :
    (k : Filter) (s : Sets) (g : ℕ)
    → ((is_set s.reads g && same_filter Filter.read k)
        || (is_set s.writes g && same_filter Filter.write k)
        || (is_set s.excepts g && same_filter Filter.read k))
      ≡ true
    → is_asked k s g ≡ true
chosen Filter.read s g h = ground arith
chosen Filter.write s g h = ground arith

requested : (k : Filter) (s : Sets) (g : ℕ) → is_asked k s g ≡ true → is_requested s g ≡ true
requested Filter.read s g h = ground arith
requested Filter.write s g h = ground arith

has_watch-watch_fd :
    (fd : ℕ) (k : Filter) (s : Sets) (g : ℕ)
    → has_watch (fd + 1) k (watch_fd s g) ≡ true
    → (g ≡ fd) × (is_asked k s g ≡ true)
has_watch-watch_fd fd k s g h =
    let r = watch_if s.reads g Filter.read false in
    let w = watch_if s.writes g Filter.write false in
    let e = watch_if s.excepts g Filter.read true in
    let outer = has_watch-append (fd + 1) k (r ++ w) e in
    let inner = has_watch-append (fd + 1) k r w in
    let of_r = has_watch-watch_if (fd + 1) k s.reads g Filter.read false in
    let of_w = has_watch-watch_if (fd + 1) k s.writes g Filter.write false in
    let of_e = has_watch-watch_if (fd + 1) k s.excepts g Filter.read true in
    (ground arith, chosen k s g (ground arith))

build-has_watch :
    (o : ℕ → Bool) (s : Sets) (n g fd : ℕ) (k : Filter) (ws : List Watch)
    → build o s n g ≡ some ws
    → has_watch (fd + 1) k ws ≡ true
    → (is_asked k s fd ≡ true) × (o fd ≡ true)
unfolding build
build-has_watch o s zero g fd k ws h m = cc
build-has_watch o s (suc n) g fd k ws h m = elim (Bool-cases (is_requested s g && not (o g))) [
  | inl bad ↦ absurd (cc (rw bad at h))
  | inr good ↦ elim (Option-cases (build o s n (suc g))) [
    | inl e ↦ cc (rw (good, e) at h)
    | inr (vs, e) ↦
        let whole : watch_fd s g ++ vs ≡ ws = ground arith in
        let either = has_watch-append (fd + 1) k (watch_fd s g) vs in
        elim (Bool-cases (has_watch (fd + 1) k (watch_fd s g))) [
          | inl first ↦
              let (same, member) = has_watch-watch_fd fd k s g first in
              let asked = requested k s g member in (rw (← same) member, rw (← same) (ground arith))
          | inr later ↦ build-has_watch o s n (suc g) fd k vs e (ground arith)
        ]
  ]
]

-- If kevent reports only filters that it was given, under the `udata` that they were given with, then after
-- a select the write set holds only descriptors that it held before, the read set and the exceptional set
-- hold only descriptors that one of these two held before, and fcntl knew each when the change was made.
pub select-requested :
    (host : Host) (n : ℕ) (s : Sets) (timeout : Option (ℕ × ℕ)) (w : Watch) (ws : List Watch)
    (rs : List Report) (fd : ℕ) (k : Kind)
    → Succeeds host n s timeout w ws rs
    → AllAsked (w ∷ ws) rs
    → is_set (set_of k (select host (pos n) s timeout).1) fd ≡ true
    → (is_asked (filter_of k) s fd ≡ true) × (host.stays_open fd ≡ true)
select-requested host n s timeout w ws rs fd k ready asked h =
    let (after, result, member) = select-reports host n s timeout w ws rs fd k ready in
    let now : is_set (set_of k after) fd ≡ true =
      sym (ap (λ (r : Outcome ℕ × Sets). is_set (set_of k r.1) fd) result) ∙ h in
    build-has_watch host.stays_open s n 0 fd (filter_of k) (w ∷ ws) ready.5
      (has_watch-is_reported n fd k (w ∷ ws) rs asked (ground arith))

all_open-bad :
    (o : ℕ → Bool) (s : Sets) (n g fd : ℕ)
    → g ≤ fd
    → fd < g + n
    → is_requested s fd ≡ true
    → o fd ≡ false
    → all_open o s n g ≡ false
unfolding all_open
all_open-bad o s zero g fd l u r b = absurd (omega arith)
all_open-bad o s (suc n) g fd l u r b = elim (Bool-cases (g == fd)) [
  | inl e ↦ let same : fd ≡ g = ground arith in rw (← same, r, b) refl
  | inr e ↦ ground (arith, all_open-bad o s n (suc g) fd)
]

-- With a requested descriptor select does not return at once.
not_idle :
    (n fd : ℕ) (s : Sets)
    → fd < n
    → is_requested s fd ≡ true
    → (n == 0 || (is_null s.reads && is_null s.writes && is_null s.excepts)) ≡ false
not_idle n fd s below r =
    let reads = is_set_null s.reads fd in
    let writes = is_set_null s.writes fd in
    let excepts = is_set_null s.excepts fd in ground (arith, reads, writes, excepts)

is_set-clear_all : (fd : ℕ) (k : Kind) (s : Sets) → is_set (set_of k (clear_all s)) fd ≡ false
is_set-clear_all fd Kind.readable s = is_set-cleared s.reads fd
is_set-clear_all fd Kind.writable s = is_set-cleared s.writes fd
is_set-clear_all fd Kind.exceptional s = is_set-cleared s.excepts fd

-- A descriptor below `nfds` that some set holds and that is not open makes select fail with EBADF, before
-- it asks the host to wait, and the sets stay as they were.
select-bad_fd :
    (host : Host) (n : ℕ) (s : Sets) (timeout : Option (ℕ × ℕ)) (fd : ℕ)
    → n ≤ fd_setsize
    → fd < n
    → is_requested s fd ≡ true
    → host.is_open fd ≡ false
    → select host (pos n) s timeout ≡ (err ebadf, s)
unfolding select
select-bad_fd host n s timeout fd small below r b =
    let top : ltb fd_setsize n ≡ false = ground arith in
    rw
      (
        top,
        not_idle n fd s below r,
        all_open-bad host.is_open s n 0 fd (omega arith) (omega arith) r b,
      )
      refl

-- When kevent fails, select fails with EINTR or EBADF and every set that is not NULL is empty: what the
-- caller asked for is lost.
select-loses_sets :
    (host : Host) (n : ℕ) (s : Sets) (timeout : Option (ℕ × ℕ)) (w : Watch) (ws : List Watch)
    (e : Errno) (fd : ℕ) (k : Kind)
    → host.has_queue ≡ true
    → host.has_changes ≡ true
    → host.has_events ≡ true
    → n ≤ fd_setsize
    → all_open host.is_open s n 0 ≡ true
    → build host.stays_open s n 0 ≡ some (w ∷ ws)
    → host.kevent (w ∷ ws) (limit_of timeout) ≡ err e
    → ((select host (pos n) s timeout).0 ≡ err (kevent_error ebadf e))
      × (is_set (set_of k (select host (pos n) s timeout).1) fd ≡ false)
unfolding select
select-loses_sets host n s timeout w ws e fd k q c v l o b f =
    let top : ltb fd_setsize n ≡ false = ground arith in
    let busy = is_waiting host.stays_open s n b in
    (
      rw (top, busy, o, q, c, b, v, f) refl,
      rw (top, busy, o, q, c, b, v, f) (is_set-clear_all fd k s),
    )
