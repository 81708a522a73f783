-- ===== src/Network/Clean.antt =====
-- network.c: the table of sockets that every history leads to.
use ixland.Prelude.{
  ℕ, ◌≡◌, ◌≢◌, refl, ap, ◌∙◌, true, false, [], ◌==◌, Bool-cases, ◌⊎◌, inl, inr, arith,
}
use ixland.Prelude.Int.{ℤ}
use ixland.Fd.Errno.{eafnosupport}
use ixland.Fd.Files.{Outcome, ok, err}
use ixland.Network.{
  Socket, Network, Numbers, zeroed, no_sockets, network_init, network_deinit, socket,
}
use ixland.Network.Slots.{is_known_domain, opened, socket_cases}
use ixland.Network.Runs.{Call, after, is_quiet, Follows, Moves, after-Moves}

-- A socket in use: its domain is AF_INET or AF_INET6, and it has a connection or a listener only if it is
-- a stream.
pub record IsOpen (c : Numbers) (s : Socket) : Type 0 where
  pub in_use : s.used ≡ true
  pub domain_known : is_known_domain c s.domain ≡ true
  pub quiet : is_quiet c s ≡ true

-- Every slot is zeroed or holds such a socket.
abbrev pub IsCleanTable : Numbers → Network → Type 0
IsCleanTable c net = (i : ℕ) → (net.sockets i ≡ zeroed) ⊎ IsOpen c (net.sockets i)

-- The histories of the table: it starts zeroed, and sockets are made, used and forgotten.
pub data Reachable (c : Numbers) : Network → Type 0 where
  begin : Reachable c (record { sockets = no_sockets; initialized = false; cancelled = [] })
  init : (net : Network) → Reachable c net → Reachable c (network_init net)
  deinit : (net : Network) → Reachable c net → Reachable c (network_deinit net)
  open_one :
      (domain kind protocol : ℤ) (net : Network)
      → Reachable c net
      → Reachable c (socket c domain kind protocol net).1
  call : (a : Call) (net : Network) → Reachable c net → Reachable c (after c a net)

Follows-IsOpen : (c : Numbers) (s t : Socket) → Follows c s t → IsOpen c s → IsOpen c t
Follows-IsOpen c s t f o = record {
  in_use = f.same_used ∙ o.in_use;
  domain_known = ap (is_known_domain c) f.same_domain ∙ o.domain_known;
  quiet = f.still_quiet o.quiet;
}

zeroed-unused : (c : Numbers) (s : Socket) → (s ≡ zeroed) ⊎ IsOpen c s → s.used ≡ true → IsOpen c s
zeroed-unused c s (inl z) u = cc
zeroed-unused c s (inr o) u = o

Moves-IsCleanTable :
    (c : Numbers) (net l : Network) → Moves c net l → IsCleanTable c net → IsCleanTable c l
Moves-IsCleanTable c net l (inl e) h = rw e h
Moves-IsCleanTable c net l (inr (i, t, f, u, at)) h = λ j. elim (Bool-cases (j == i)) [
  | inl e ↦
      let now : l.sockets j ≡ t = at j ∙ rw e refl in
      rw now (inr (Follows-IsOpen c (net.sockets i) t f (zeroed-unused c (net.sockets i) (h i) u)))
  | inr e ↦ let now : l.sockets j ≡ net.sockets j = at j ∙ rw e refl in rw now (h j)
]

zeroed_if_unused :
    (c : Numbers) (s : Socket) → (s ≡ zeroed) ⊎ IsOpen c s → s.used ≡ false → s ≡ zeroed
zeroed_if_unused c s (inl z) u = z
zeroed_if_unused c s (inr o) u = absurd (cc o.in_use)

-- What socket leaves in its slot, which was zeroed.
new_slot :
    (c : Numbers) (domain kind protocol : ℤ) (s t : Socket) (r : Outcome ℕ) (i : ℕ)
    → s ≡ zeroed
    → ((is_known_domain c domain ≡ true) × (r ≡ ok i) × (t ≡ opened domain kind protocol s))
      ⊎ ((is_known_domain c domain ≡ false) × (r ≡ err eafnosupport) × (t ≡ zeroed))
    → (t ≡ zeroed) ⊎ IsOpen c t
new_slot c domain kind protocol s t r i z (inl (known, e, made)) =
    rw (made, z) (inr (record { in_use = refl; domain_known = known; quiet = ground arith }))
new_slot c domain kind protocol s t r i z (inr (known, e, back)) = inl back

socket-IsCleanTable :
    (c : Numbers) (domain kind protocol : ℤ) (net : Network)
    → IsCleanTable c net
    → IsCleanTable c (socket c domain kind protocol net).1
socket-IsCleanTable c domain kind protocol net h = elim (socket_cases c domain kind protocol net) [
  | inl (full, e) ↦ rw e h
  | inr (i, r, l, e, low, free, lowest, others, result) ↦
      let was = zeroed_if_unused c (net.sockets i) (h i) free in
      rw e (λ j. elim (Bool-cases (j == i)) [
        | inl same ↦
            let at : j ≡ i = ground arith in
            rw at (new_slot c domain kind protocol (net.sockets i) (l.sockets i) r i was result)
        | inr other ↦ let ne : j ≢ i = λ q. ground arith in rw (others j ne) (h j)
      ])
]

init-IsCleanTable :
    (c : Numbers) (net : Network) → IsCleanTable c net → IsCleanTable c (network_init net)
unfolding network_init
init-IsCleanTable c net h = elim (Bool-cases net.initialized) [
  | inl e ↦ rw e h
  | inr e ↦ rw e (λ i. inl refl)
]

deinit-IsCleanTable :
    (c : Numbers) (net : Network) → IsCleanTable c net → IsCleanTable c (network_deinit net)
unfolding network_deinit
deinit-IsCleanTable c net h = elim (Bool-cases net.initialized) [
  | inl e ↦ rw e (λ i. inl refl)
  | inr e ↦ rw e h
]

-- In every table that calls lead to, each slot is zeroed, or it is in use with the domain AF_INET or
-- AF_INET6 and has a connection or a listener only if its type is SOCK_STREAM.
pub Reachable-IsCleanTable : (c : Numbers) (net : Network) → Reachable c net → IsCleanTable c net
Reachable-IsCleanTable c _ begin = λ i. inl refl
Reachable-IsCleanTable c _ (init net r) = init-IsCleanTable c net (Reachable-IsCleanTable c net r)
Reachable-IsCleanTable c _ (deinit net r) =
    deinit-IsCleanTable c net (Reachable-IsCleanTable c net r)
Reachable-IsCleanTable c _ (open_one domain kind protocol net r) =
    socket-IsCleanTable c domain kind protocol net (Reachable-IsCleanTable c net r)
Reachable-IsCleanTable c _ (call a net r) =
    Moves-IsCleanTable c net (after c a net) (after-Moves c a net) (Reachable-IsCleanTable c net r)
