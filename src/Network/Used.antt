-- ===== src/Network/Used.antt =====
-- network.c: no call on a socket gives it back.
use ixland.Prelude.{ℕ, ◌<◌, ◌≡◌, ◌≢◌, refl, ◌∙◌, true, ◌==◌, Bool-cases, inl, inr, arith}
use ixland.Prelude.Int.{ℤ}
use ixland.Fd.Errno.{emfile}
use ixland.Fd.Files.{err}
use ixland.Network.{Network, Numbers, max_sockets, socket}
use ixland.Network.Slots.{first_unused-none, socket_cases}
use ixland.Network.Runs.{Call, after, Moves, after-Moves}

-- What the calls of socket and those on sockets do to the table, without the start and the end of the
-- network.
pub data Later (c : Numbers) (net : Network) : Network → Type 0 where
  here : Later c net net
  open_one :
      (domain kind protocol : ℤ) (l : Network)
      → Later c net l
      → Later c net (socket c domain kind protocol l).1
  call : (a : Call) (l : Network) → Later c net l → Later c net (after c a l)

Moves-used :
    (c : Numbers) (net l : Network) (j : ℕ)
    → Moves c net l
    → (net.sockets j).used ≡ true
    → (l.sockets j).used ≡ true
Moves-used c net l j (inl e) h = rw e h
Moves-used c net l j (inr (i, t, f, u, at)) h = elim (Bool-cases (j == i)) [
  | inl e ↦ rw (at j, e) (f.same_used ∙ u)
  | inr e ↦ rw (at j, e) h
]

socket-used :
    (c : Numbers) (domain kind protocol : ℤ) (net : Network) (j : ℕ)
    → (net.sockets j).used ≡ true
    → ((socket c domain kind protocol net).1.sockets j).used ≡ true
socket-used c domain kind protocol net j h = elim (socket_cases c domain kind protocol net) [
  | inl (full, e) ↦ rw e h
  | inr (i, r, l, e, low, free, lowest, others, result) ↦
      let ne : j ≢ i = λ q. ground arith in rw (e, others j ne) h
]

Later-used :
    (c : Numbers) (net l : Network) (j : ℕ)
    → Later c net l
    → (net.sockets j).used ≡ true
    → (l.sockets j).used ≡ true
Later-used c net _ j here h = h
Later-used c net _ j (open_one domain kind protocol l r) h =
    socket-used c domain kind protocol l j (Later-used c net l j r h)
Later-used c net _ j (call a l r) h =
    Moves-used c l (after c a l) j (after-Moves c a l) (Later-used c net l j r h)

-- Once all 256 slots are in use, socket fails with EMFILE after every further sequence of calls of socket
-- and calls on sockets (connect, bind, listen, accept, send, recv, the options, shutdown), as long as the
-- network is neither stopped nor started: none of these calls gives a slot back.
pub socket-exhausted :
    (c : Numbers) (net l : Network) (domain kind protocol : ℤ)
    → ((j : ℕ) → j < max_sockets → (net.sockets j).used ≡ true)
    → Later c net l
    → socket c domain kind protocol l ≡ (err emfile, l)
unfolding socket
socket-exhausted c net l domain kind protocol full r =
    let none_left =
      first_unused-none max_sockets 0 l.sockets
        (λ j low high. Later-used c net l j r (full j (omega arith))) in
    rw none_left refl
