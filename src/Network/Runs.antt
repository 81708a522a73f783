-- ===== src/Network/Runs.antt =====
-- network.c: what a call on one socket does to the table.
use ixland.Prelude.{
  ℕ, zero, suc, ◌<◌, ◌≡◌, refl, ap, Bool, true, false, ◌&&◌, ◌||◌, Option, none, some, List, [],
  ◌∷◌, ◌==◌, ltb, if◌then◌else◌, Bool-cases, ◌⊎◌, inl, inr, arith, length,
}
use ixland.Prelude.Int.{ℤ, pos, negsuc, eqb}
use ixland.Prelude.Text.{Bytes, take}
use ixland.Fd.Files.{Outcome, ok}
use ixland.Network.{
  Handle, Socket, Network, Numbers, max_sockets, put_socket, socket_get, at_slot, on_socket,
}
use ixland.Network.Calls.{
  Dial, ConnectionState, connect_error, copy_addr, start, has_endpoint, with_remote, connect_to,
  connect, bind_to, bind, listen_on, listen, accept, send, recv, setsockopt, getsockopt,
  shutdown_on, shutdown, accept_on, send_on, recv_on, getsockopt_on,
}

-- A call on the socket of a number, with what the framework does.
pub data Call : Type 0 where
  connect_call : (dial : Dial) (fd : ℤ) (addr : Option Bytes) → Call
  bind_call : (fd : ℤ) (addr : Option Bytes) → Call
  listen_call : (made : Option Handle) (fd : ℤ) → Call
  accept_call setsockopt_call shutdown_call : (fd : ℤ) → Call
  send_call : (made error : Bool) (fd : ℤ) (buffer : Bytes) → Call
  recv_call : (room : ℕ) (content : Option Bytes) (error : Bool) (fd : ℤ) → Call
  getsockopt_call : (fd : ℤ) (room : Option ℕ) → Call

abbrev pub after : Numbers → Call → Network → Network
after c (Call.connect_call dial fd addr) net = (connect c dial fd addr net).1
after c (Call.bind_call fd addr) net = (bind c fd addr net).1
after c (Call.listen_call made fd) net = (listen c made fd net).1
after c (Call.accept_call fd) net = (accept fd net).1
after c (Call.setsockopt_call fd) net = (setsockopt fd net).1
after c (Call.shutdown_call fd) net = (shutdown fd net).1
after c (Call.send_call made error fd buffer) net = (send made error fd buffer net).1
after c (Call.recv_call room content error fd) net = (recv room content error fd net).1
after c (Call.getsockopt_call fd room) net = (getsockopt fd room net).1

abbrev is_none : Option Handle → Bool
is_none none = true
is_none (some h) = false

-- A socket of another type than SOCK_STREAM has no connection and no listener.
abbrev pub is_quiet : Numbers → Socket → Bool
is_quiet c s = eqb s.kind c.sock_stream || (is_none s.connection && is_none s.listener)

-- The same socket later: in use as before, with the same domain and type, and still quiet.
pub record Follows (c : Numbers) (s t : Socket) : Type 0 where
  pub same_used : t.used ≡ s.used
  pub same_domain : t.domain ≡ s.domain
  pub same_kind : t.kind ≡ s.kind
  pub still_quiet : is_quiet c s ≡ true → is_quiet c t ≡ true

-- Between two states of the table at most one slot changed, which was in use.
abbrev Changes : Numbers → Network → Network → Type 0
Changes c net after =
    (i : ℕ) × (t : Socket) × Follows c (net.sockets i) t
    × ((net.sockets i).used ≡ true)
    × ((j : ℕ) → after.sockets j ≡ (if j == i then t else net.sockets j))

abbrev pub Moves : Numbers → Network → Network → Type 0
Moves c net after = (after ≡ net) ⊎ Changes c net after

socket_get-some :
    (fd : ℤ) (net : Network) (i : ℕ)
    → socket_get fd net ≡ some i
    → (fd ≡ pos i) × (i < max_sockets) × ((net.sockets i).used ≡ true)
unfolding socket_get
socket_get-some (negsuc n) net i h = cc
socket_get-some (pos n) net i h = elim (Bool-cases (ltb n max_sockets && (net.sockets n).used)) [
  | inl e ↦
      let same : n ≡ i = ground arith in (ap pos same, ground arith, rw (← same) (ground arith))
  | inr e ↦ cc (rw e at h)
]

at_slot-Moves {ℓ} :
    {A : Type ℓ} (c : Numbers) (fd : ℤ) (body : ℕ → Socket → Network → Outcome A × Network)
    (net : Network) (slot : Option ℕ)
    → socket_get fd net ≡ slot
    → ((i : ℕ) → (net.sockets i).used ≡ true → Moves c net (body i (net.sockets i) net).1)
    → Moves c net (at_slot body net slot).1
at_slot-Moves c fd body net none e h = inl refl
at_slot-Moves c fd body net (some i) e h =
    let (same, low, used) = socket_get-some fd net i e in h i used

on_socket-Moves {ℓ} :
    {A : Type ℓ} (c : Numbers) (fd : ℤ) (body : ℕ → Socket → Network → Outcome A × Network)
    (net : Network)
    → ((i : ℕ) → (net.sockets i).used ≡ true → Moves c net (body i (net.sockets i) net).1)
    → Moves c net (on_socket fd body net).1
on_socket-Moves c fd body net h = at_slot-Moves c fd body net (socket_get fd net) refl h

-- A value that is chosen again under the same test.
chosen_twice {ℓ} :
    {A : Type ℓ} (b : Bool) (x y z : A)
    → (if b then x else (if b then y else z)) ≡ (if b then x else z)
chosen_twice true x y z = refl
chosen_twice false x y z = refl

chosen_thrice {ℓ} :
    {A : Type ℓ} (b : Bool) (x y z w : A)
    → (if b then x else (if b then y else (if b then z else w))) ≡ (if b then x else w)
chosen_thrice true x y z w = refl
chosen_thrice false x y z w = refl

module _ (c : Numbers) (net : Network) (i : ℕ) (used : (net.sockets i).used ≡ true) where
  bind_to-Moves : (addr : Option Bytes) → Moves c net (bind_to c addr i (net.sockets i) net).1
  bind_to-Moves none = inl refl
  bind_to-Moves (some []) = inl refl
  bind_to-Moves (some (b ∷ bs)) = inr (
    i,
    record (net.sockets i) {
      local_addr = copy_addr c.storage_size (b ∷ bs) (net.sockets i).local_addr;
      local_addr_len = length (take c.storage_size (b ∷ bs));
    },
    record { same_used = refl; same_domain = refl; same_kind = refl; still_quiet = λ q. q },
    used,
    λ j. refl,
  )

  shutdown_on-Moves :
      (h : Option Handle)
      → (net.sockets i).connection ≡ h
      → Moves c net (shutdown_on i (net.sockets i) net).1
  shutdown_on-Moves none e = rw e (inl refl)
  shutdown_on-Moves (some h) e = rw e (
      inr (
        i,
        record (net.sockets i) { connection = none },
        record {
          same_used = refl;
          same_domain = refl;
          same_kind = refl;
          still_quiet = ground arith;
        },
        used,
        λ j. refl,
      ))

  listen_on-Moves : (made : Option Handle) → Moves c net (listen_on c made i (net.sockets i) net).1
  listen_on-Moves made = elim (Bool-cases (eqb (net.sockets i).kind c.sock_stream)) [
    | inl e ↦ rw e (
        inr (
          i,
          record (net.sockets i) { listener = made },
          record {
            same_used = refl;
            same_domain = refl;
            same_kind = refl;
            still_quiet = ground arith;
          },
          used,
          λ j. refl,
        ))
    | inr e ↦ rw e (inl refl)
  ]

  -- The socket of a stream, with the address and some connection.
  connecting : Bytes → Option Handle → Socket
  connecting addr h = record (with_remote c addr (net.sockets i)) { connection = h }

  connecting-Follows :
      (addr : Bytes) (h : Option Handle)
      → eqb (net.sockets i).kind c.sock_stream ≡ true
      → Follows c (net.sockets i) (connecting addr h)
  unfolding connecting
  connecting-Follows addr h e = record {
    same_used = refl;
    same_domain = refl;
    same_kind = refl;
    still_quiet = ground arith;
  }

  start-Moves :
      (dial : Dial) (addr : Bytes) (h : Option Handle) (states : List ConnectionState)
      → dial.states ≡ states
      → eqb (net.sockets i).kind c.sock_stream ≡ true
      → Moves c net
          (start dial i
            (with_remote c addr (net.sockets i))
            h
            (put_socket net i (with_remote c addr (net.sockets i)))).1
  unfolding connecting
  start-Moves dial addr none states d e = inr (
    i,
    connecting addr none,
    connecting-Follows addr none e,
    used,
    λ j. chosen_twice (j == i) _ _ _,
  )
  start-Moves dial addr (some h) [] d e = rw d (
      inr (
        i,
        connecting addr none,
        connecting-Follows addr none e,
        used,
        λ j. chosen_thrice (j == i) _ _ _ _,
      ))
  start-Moves dial addr (some h) (st ∷ ss) d e = elim (Bool-cases (connect_error (st ∷ ss) false)) [
    | inl f ↦
        rw (d, f)
          (inr (
            i,
            connecting addr none,
            connecting-Follows addr none e,
            used,
            λ j. chosen_thrice (j == i) _ _ _ _,
          ))
    | inr f ↦
        rw (d, f)
          (inr (
            i,
            connecting addr (some h),
            connecting-Follows addr (some h) e,
            used,
            λ j. chosen_twice (j == i) _ _ _,
          ))
  ]

  -- Only the remote address is stored.
  addressed-Moves :
      (addr : Bytes) → Moves c net (put_socket net i (with_remote c addr (net.sockets i)))
  addressed-Moves addr = inr (
    i,
    with_remote c addr (net.sockets i),
    record { same_used = refl; same_domain = refl; same_kind = refl; still_quiet = λ q. q },
    used,
    λ j. refl,
  )

  connect_to-Moves :
      (dial : Dial) (addr : Option Bytes)
      → Moves c net (connect_to c dial addr i (net.sockets i) net).1
  connect_to-Moves dial none = inl refl
  connect_to-Moves dial (some []) = inl refl
  connect_to-Moves dial (some (b ∷ bs)) =
      elim (Bool-cases (eqb (net.sockets i).kind c.sock_stream)) [
        | inl e ↦ elim (Bool-cases (has_endpoint dial (dial.family (b ∷ bs)) (b ∷ bs))) [
          | inl f ↦ rw (e, f) (start-Moves dial (b ∷ bs) dial.connection dial.states refl e)
          | inr f ↦ rw (e, f) (addressed-Moves (b ∷ bs))
        ]
        | inr e ↦ rw e (addressed-Moves (b ∷ bs))
      ]

-- A call on a socket changes the slot of one socket in use at most; the socket stays in use, with its
-- domain and its type, and has a connection or a listener only if it is a stream or had one before.
pub after-Moves : (c : Numbers) (call : Call) (net : Network) → Moves c net (after c call net)
unfolding connect bind listen accept send recv setsockopt getsockopt shutdown
after-Moves c (Call.connect_call dial fd addr) net =
    on_socket-Moves c fd (connect_to c dial addr) net (λ i u. connect_to-Moves c net i u dial addr)
after-Moves c (Call.bind_call fd addr) net =
    on_socket-Moves c fd (bind_to c addr) net (λ i u. bind_to-Moves c net i u addr)
after-Moves c (Call.listen_call made fd) net =
    on_socket-Moves c fd (listen_on c made) net (λ i u. listen_on-Moves c net i u made)
after-Moves c (Call.accept_call fd) net = on_socket-Moves c fd accept_on net (λ i u. inl refl)
after-Moves c (Call.setsockopt_call fd) net =
    on_socket-Moves c fd (λ i s l. (ok 0, l)) net (λ i u. inl refl)
after-Moves c (Call.shutdown_call fd) net =
    on_socket-Moves c fd shutdown_on net
      (λ i u. shutdown_on-Moves c net i u (net.sockets i).connection refl)
after-Moves c (Call.send_call made error fd []) net =
    on_socket-Moves c fd (send_on made error []) net (λ i u. inl refl)
after-Moves c (Call.send_call made error fd (b ∷ bs)) net =
    on_socket-Moves c fd (send_on made error (b ∷ bs)) net (λ i u. inl refl)
after-Moves c (Call.recv_call zero content error fd) net =
    on_socket-Moves c fd (recv_on zero content error) net (λ i u. inl refl)
after-Moves c (Call.recv_call (suc room) content error fd) net =
    on_socket-Moves c fd (recv_on (suc room) content error) net (λ i u. inl refl)
after-Moves c (Call.getsockopt_call fd none) net =
    on_socket-Moves c fd (getsockopt_on none) net (λ i u. inl refl)
after-Moves c (Call.getsockopt_call fd (some room)) net =
    on_socket-Moves c fd (getsockopt_on (some room)) net (λ i u. inl refl)
