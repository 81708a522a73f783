-- ===== src/Network/Slots.antt =====
-- network.c: which slot of the table a new socket gets.
use ixland.Prelude.{
  ℕ, zero, suc, ◌+◌, ◌≤◌, ◌<◌, ◌≡◌, ◌≢◌, refl, ap, ◌∙◌, Bool, true, false, ◌&&◌, ◌||◌, Option, none,
  some, ◌==◌, ltb, ◌⊎◌, ==_refl, ==_ne, Bool-cases, Option-cases, inl, inr, arith,
}
use ixland.Prelude.Int.{ℤ, eqb}
use ixland.Fd.Errno.{emfile, eafnosupport}
use ixland.Fd.Files.{Outcome, ok, err}
use ixland.Network.{
  Socket, Network, Numbers, max_sockets, zeroed, put_socket, first_unused, socket_free, take_slot,
  open_taken, socket,
}

-- The first slot that is not in use, from `i` up in `n` rounds.
first_unused-some :
    (n i : ℕ) (f : ℕ → Socket) (k : ℕ)
    → first_unused n i f ≡ some k
    → (i ≤ k) × (k < i + n) × ((f k).used ≡ false)
unfolding first_unused
first_unused-some zero i f k h = cc
first_unused-some (suc n) i f k h = elim (Bool-cases (f i).used) [
  | inl taken ↦
      let rest : first_unused n (suc i) f ≡ some k = ground arith in
      let (low, high, free) = first_unused-some n (suc i) f k rest in
      (omega arith, omega arith, free)
  | inr free ↦ let here : i ≡ k = ground arith in (omega arith, omega arith, rw (← here) free)
]

-- All slots below the one found are in use.
first_unused-lowest :
    (n i : ℕ) (f : ℕ → Socket) (k j : ℕ)
    → first_unused n i f ≡ some k
    → i ≤ j
    → j < k
    → (f j).used ≡ true
unfolding first_unused
first_unused-lowest zero i f k j h low high = cc
first_unused-lowest (suc n) i f k j h low high = elim (Bool-cases (f i).used) [
  | inl taken ↦ elim (Bool-cases (j == i)) [
    | inl e ↦ let here : j ≡ i = ground arith in rw here taken
    | inr e ↦ first_unused-lowest n (suc i) f k j (ground arith) (ground arith) high
  ]
  | inr free ↦ let here : i ≡ k = ground arith in absurd (omega arith)
]

-- Without an unused slot among them, all slots are in use.
first_unused-taken :
    (n i : ℕ) (f : ℕ → Socket) (j : ℕ)
    → first_unused n i f ≡ none
    → i ≤ j
    → j < i + n
    → (f j).used ≡ true
unfolding first_unused
first_unused-taken zero i f j h low high = absurd (omega arith)
first_unused-taken (suc n) i f j h low high = elim (Bool-cases (f i).used) [
  | inl taken ↦ elim (Bool-cases (j == i)) [
    | inl e ↦ let here : j ≡ i = ground arith in rw here taken
    | inr e ↦ first_unused-taken n (suc i) f j (ground arith) (ground arith) (omega arith)
  ]
  | inr free ↦ cc (rw free at h)
]

pub first_unused-none :
    (n i : ℕ) (f : ℕ → Socket)
    → ((j : ℕ) → i ≤ j → j < i + n → (f j).used ≡ true)
    → first_unused n i f ≡ none
unfolding first_unused
first_unused-none zero i f h = refl
first_unused-none (suc n) i f h =
    rw (h i (omega arith) (omega arith))
      (first_unused-none n (suc i) f (λ j a b. h j (omega arith) (omega arith)))

abbrev pub is_known_domain : Numbers → ℤ → Bool
is_known_domain c domain = eqb domain c.af_inet || eqb domain c.af_inet6

-- A new socket: the slot of the caller's choice of domain, type and protocol.
abbrev pub opened : ℤ → ℤ → ℤ → Socket → Socket
opened domain kind protocol s = record s {
  used = true;
  domain = domain;
  kind = kind;
  protocol = protocol;
}

abbrev call_socket : Numbers → ℤ → ℤ → ℤ → Network → Option ℕ → Outcome ℕ × Network
call_socket c domain kind protocol net slot =
    open_taken c domain kind protocol net (take_slot net slot)

-- The result of socket for an unused slot in the table.
open_in_slot :
    (c : Numbers) (domain kind protocol : ℤ) (net : Network) (i : ℕ)
    → i < max_sockets
    → (is_known_domain c domain ≡ true)
        × ((call_socket c domain kind protocol net (some i)).0 ≡ ok i)
        × ((call_socket c domain kind protocol net (some i)).1.sockets i
            ≡ opened domain kind protocol (net.sockets i))
      ⊎ (is_known_domain c domain ≡ false)
        × ((call_socket c domain kind protocol net (some i)).0 ≡ err eafnosupport)
        × ((call_socket c domain kind protocol net (some i)).1.sockets i ≡ zeroed)
unfolding socket_free
open_in_slot c domain kind protocol net i h =
    let self = ==_refl i in
    let low : ltb i max_sockets ≡ true = ground arith in
    elim (Bool-cases (is_known_domain c domain)) [
      | inl e ↦ inl (e, rw e refl, rw (e, self) refl)
      | inr e ↦ inr (e, rw e refl, rw (e, self, low, self) refl)
    ]

socket_free-other :
    (i j : ℕ) (net : Network) → j ≢ i → (socket_free i net).sockets j ≡ net.sockets j
unfolding socket_free
socket_free-other i j net h = elim (Bool-cases (ltb i max_sockets && (net.sockets i).used)) [
  | inl e ↦ rw (e, ==_ne j i h) refl
  | inr e ↦ rw e refl
]

open_in_other :
    (c : Numbers) (domain kind protocol : ℤ) (net : Network) (i j : ℕ)
    → j ≢ i
    → (call_socket c domain kind protocol net (some i)).1.sockets j ≡ net.sockets j
open_in_other c domain kind protocol net i j h =
    let other = ==_ne j i h in
    let taken = put_socket net i (record (net.sockets i) { used = true }) in
    let named =
      put_socket taken i
        (record (taken.sockets i) { domain = domain; kind = kind; protocol = protocol }) in
    elim (Bool-cases (is_known_domain c domain)) [
      | inl e ↦ rw (e, other) refl
      | inr e ↦ rw e (socket_free-other i j named h ∙ rw other refl)
    ]

-- socket gives the lowest slot that is not in use, marked as used with the domain, the type and the
-- protocol of the call, and leaves every other slot alone; for another domain than AF_INET and AF_INET6 it
-- fails with EAFNOSUPPORT, and that slot is zeroed; and if all slots are in use it fails with
-- EMFILE and changes nothing.
pub socket_cases :
    (c : Numbers) (domain kind protocol : ℤ) (net : Network)
    → (((j : ℕ) → j < max_sockets → (net.sockets j).used ≡ true)
        × (socket c domain kind protocol net ≡ (err emfile, net)))
      ⊎ ((i : ℕ) × (r : Outcome ℕ) × (after : Network) × (socket c domain kind protocol net
            ≡ (r, after))
          × (i < max_sockets)
          × ((net.sockets i).used ≡ false)
          × ((j : ℕ) → j < i → (net.sockets j).used ≡ true)
          × ((j : ℕ) → j ≢ i → after.sockets j ≡ net.sockets j)
          × (((is_known_domain c domain ≡ true)
                × (r ≡ ok i)
                × (after.sockets i ≡ opened domain kind protocol (net.sockets i)))
              ⊎ ((is_known_domain c domain ≡ false)
                  × (r ≡ err eafnosupport)
                  × (after.sockets i ≡ zeroed))))
unfolding socket
socket_cases c domain kind protocol net =
    elim (Option-cases (first_unused max_sockets 0 net.sockets)) [
      | inl e ↦ inl (
        λ j l. first_unused-taken max_sockets 0 net.sockets j e (omega arith) (omega arith),
        ap (call_socket c domain kind protocol net) e,
      )
      | inr (i, e) ↦
          let (low, high, free) = first_unused-some max_sockets 0 net.sockets i e in
          inr (
            i,
            (call_socket c domain kind protocol net (some i)).0,
            (call_socket c domain kind protocol net (some i)).1,
            ap (call_socket c domain kind protocol net) e,
            omega arith,
            free,
            λ j l. first_unused-lowest max_sockets 0 net.sockets i j e (omega arith) l,
            λ j ne. open_in_other c domain kind protocol net i j ne,
            open_in_slot c domain kind protocol net i (omega arith),
          )
    ]
