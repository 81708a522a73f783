-- ===== src/Readiness/Asked.antt =====
-- select.c: the changes that a poll asks for fit its array, and they are the right ones.
use ixland.Prelude.{
  ℕ, zero, suc, ◌+◌, ◌*◌, ◌%◌, ◌^◌, ◌≤◌, ◌<◌, ◌≡◌, refl, sym, ap, ◌∙◌, Bool, true, false, ◌&&◌,
  ◌||◌, not, Option, none, some, List, [], ◌∷◌, ◌++◌, ◌==◌, ltb, length, length-append, get_elem?,
  if◌then◌else◌, Bool-cases, inl, inr, arith,
}
use ixland.Prelude.Int.{ℤ, pos, negsuc, eqb}
use ixland.Fd.Errno.{enomem}
use ixland.Fd.Files.{Outcome, err}
use ixland.Epoll.{Filter}
use ixland.Readiness.{Watch}
use ixland.Readiness.Poll.{
  PollFd, Host, prepare, wants, watch_for, watches_of, watches, room, wait_for, poll_kqueue, poll,
}

length-watch_for :
    (b : Bool) (fd : ℕ) (filter : Filter) (i : ℕ) → length (watch_for b fd filter i) ≤ 1
length-watch_for true fd filter i = omega arith
length-watch_for false fd filter i = omega arith

length-watches_of :
    (o : ℕ → Bool) (i : ℕ) (fd : ℤ) (events : ℕ) → length (watches_of o i fd events) ≤ 2
length-watches_of o i (negsuc n) events = omega arith
length-watches_of o i (pos fd) events = elim (Bool-cases (o fd)) [
  | inl e ↦ rw e (
      omega (
        arith,
        length-append (watch_for (wants Filter.read events) fd Filter.read i)
            (watch_for (wants Filter.write events) fd Filter.write i),
        length-watch_for (wants Filter.read events) fd Filter.read i,
        length-watch_for (wants Filter.write events) fd Filter.write i,
      ))
  | inr e ↦ rw e (omega arith)
]

length-watches : (o : ℕ → Bool) (i : ℕ) (ps : List PollFd) → length (watches o i ps) ≤ 2 * length ps
unfolding watches
length-watches o i [] = omega arith
length-watches o i (p ∷ ps) = omega (
  arith,
  length-append (watches_of o i p.fd p.events) (watches o (suc i) ps),
  length-watches_of o i p.fd p.events,
  length-watches o (suc i) ps,
)

pub fits-room :
    (o : ℕ → Bool) (ps : List PollFd)
    → length ps < 2 ^ 31
    → ltb (room ps) (length (watches o 0 ps)) ≡ false
fits-room o ps h =
    let e : length ps * 2 % 2 ^ 32 ≡ length ps * 2 = omega arith in
    rw e (ground (arith, length-watches o 0 ps))

-- With fewer than 2^31 entries a poll writes no change behind its array: it always has a result.
poll-fits :
    (host : Host) (ps : List PollFd) (timeout : ℤ)
    → length ps < 2 ^ 31
    → (r : Outcome ℕ × List PollFd) × (poll host (some ps) timeout ≡ some r)
unfolding poll poll_kqueue
poll-fits host [] timeout h = (_, refl)
poll-fits host (p ∷ ps) timeout h = elim (Bool-cases (not host.has_queue || not host.has_changes)) [
  | inl e ↦ ((err enomem, p ∷ ps), rw e refl)
  | inr e ↦ (
    wait_for host timeout (watches host.is_open 0 (p ∷ ps)) (prepare host.is_open (p ∷ ps)),
    rw (e, fits-room host.is_open (p ∷ ps) h) refl,
  )
]

-- How often a change stands in a list of changes.
abbrev same_filter : Filter → Filter → Bool
same_filter Filter.read Filter.read = true
same_filter Filter.write Filter.write = true
same_filter _ _ = false

abbrev pub asks : ℕ → Filter → ℕ → List Watch → ℕ
asks fd filter i [] = 0
asks fd filter i (w ∷ ws) =
    (if w.ident == fd && same_filter w.filter filter && w.udata == i then 1 else 0)
    + asks fd filter i ws

-- How often it should: once if entry `i` is there, has that descriptor, which is open, and wants that.
abbrev should_ask : (ℕ → Bool) → ℕ → Filter → Option PollFd → ℕ
should_ask o fd filter none = 0
should_ask o fd filter (some p) =
    if eqb p.fd (pos fd) && o fd && wants filter p.events then 1 else 0

asks-append :
    (fd : ℕ) (filter : Filter) (i : ℕ) (vs ws : List Watch)
    → asks fd filter i (vs ++ ws) ≡ asks fd filter i vs + asks fd filter i ws
asks-append fd filter i [] ws = omega arith
asks-append fd filter i (v ∷ vs) ws = omega (arith, asks-append fd filter i vs ws)

asks-watch_for :
    (b : Bool) (fd g : ℕ) (filter k : Filter) (i j : ℕ)
    → asks fd filter j (watch_for b g k i)
      ≡ (if b && g == fd && same_filter k filter && i == j then 1 else 0)
asks-watch_for true fd g filter k i j = ground arith
asks-watch_for false fd g filter k i j = refl

-- The two changes of one descriptor, for either filter asked about.
asks-pair :
    (a b : Bool) (fd g : ℕ) (filter : Filter) (i j : ℕ)
    → asks fd filter j (watch_for a g Filter.read i ++ watch_for b g Filter.write i) ≡ (
        if g == fd && i == j
        then (if elim filter [ Filter.read ↦ a | Filter.write ↦ b ] then 1 else 0)
        else 0)
asks-pair a b fd g Filter.read i j = ground (
  arith,
  asks-append fd Filter.read j (watch_for a g Filter.read i) (watch_for b g Filter.write i),
  asks-watch_for a fd g Filter.read Filter.read i j,
  asks-watch_for b fd g Filter.read Filter.write i j,
)
asks-pair a b fd g Filter.write i j = ground (
  arith,
  asks-append fd Filter.write j (watch_for a g Filter.read i) (watch_for b g Filter.write i),
  asks-watch_for a fd g Filter.write Filter.read i j,
  asks-watch_for b fd g Filter.write Filter.write i j,
)

asks-watches_of :
    (o : ℕ → Bool) (fd : ℕ) (filter : Filter) (i j : ℕ) (g : ℤ) (events r : ℕ)
    → asks fd filter j (watches_of o i g events) ≡ (
        if i == j
        then should_ask o fd filter (some (record { fd = g; events = events; revents = r }))
        else 0)
asks-watches_of o fd filter i j (negsuc n) events r = ground arith
asks-watches_of o fd Filter.read i j (pos g) events r =
    ground
      (arith, asks-pair (wants Filter.read events) (wants Filter.write events) fd g Filter.read i j)
asks-watches_of o fd Filter.write i j (pos g) events r =
    ground (
      arith,
      asks-pair (wants Filter.read events) (wants Filter.write events) fd g Filter.write i j,
    )

asks-watches_below :
    (o : ℕ → Bool) (fd : ℕ) (filter : Filter) (i j : ℕ) (ps : List PollFd)
    → j < i
    → asks fd filter j (watches o i ps) ≡ 0
unfolding watches
asks-watches_below o fd filter i j [] h = refl
asks-watches_below o fd filter i j (p ∷ ps) h = ground (
  arith,
  asks-append fd filter j (watches_of o i p.fd p.events) (watches o (suc i) ps),
  asks-watches_of o fd filter i j p.fd p.events p.revents,
  asks-watches_below o fd filter (suc i) j ps,
)

asks-watches_from :
    (o : ℕ → Bool) (fd : ℕ) (filter : Filter) (i j : ℕ) (ps : List PollFd)
    → asks fd filter (i + j) (watches o i ps) ≡ should_ask o fd filter (get_elem? ps j)
unfolding watches
asks-watches_from o fd filter i j [] = refl
asks-watches_from o fd filter i zero (p ∷ ps) = ground (
  arith,
  asks-append fd filter (i + 0) (watches_of o i p.fd p.events) (watches o (suc i) ps),
  asks-watches_of o fd filter i (i + 0) p.fd p.events p.revents,
  asks-watches_below o fd filter (suc i) (i + 0) ps,
)
asks-watches_from o fd filter i (suc j) (p ∷ ps) =
    let e : i + suc j ≡ suc i + j = omega arith in
    rw e (
      ground (
        arith,
        asks-append fd filter (suc i + j) (watches_of o i p.fd p.events) (watches o (suc i) ps),
        asks-watches_of o fd filter i (suc i + j) p.fd p.events p.revents,
        asks-watches_from o fd filter (suc i) j ps,
      ))

-- Exactly the asked changes go to kevent: one for a descriptor, a filter and an index if the entry of
-- that index has that descriptor, fcntl knows it, and the entry wants an event of that filter; no other.
asks-watches :
    (o : ℕ → Bool) (fd : ℕ) (filter : Filter) (j : ℕ) (ps : List PollFd)
    → asks fd filter j (watches o 0 ps) ≡ should_ask o fd filter (get_elem? ps j)
asks-watches o fd filter j ps =
    let e : 0 + j ≡ j = omega arith in
    sym (ap (λ (k : ℕ). asks fd filter k (watches o 0 ps)) e) ∙ asks-watches_from o fd filter 0 j ps
