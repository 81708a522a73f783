-- ===== src/Network.antt =====
-- IXLandSystem/kernel/net/network.c: the table of sockets; Network.Calls has the calls on one. What the Network framework
-- of the host does is an argument: the objects that it makes, named by numbers, and what it reports.
-- A pointer argument is `none` if it is NULL; an address has as many bytes as its length says. The
-- lock of the table makes a search one step.
pub mod Calls
pub mod Slots
pub mod Runs
pub mod Clean
pub mod Used
use ixland.Prelude.{
  ℕ, zero, suc, ◌+◌, ◌-◌, Bool, true, false, not, ◌&&◌, ◌||◌, Option, none, some, List, [], ◌∷◌,
  ◌++◌, ◌==◌, leb, ltb, if◌then◌else◌, length,
}
use ixland.Prelude.Int.{ℤ, pos, negsuc, eqb}
use ixland.Prelude.Text.{Bytes, take, drop}
use ixland.Fd.Errno.{
  Errno, ebadf, einval, enomem, emfile, eagain, eafnosupport, eopnotsupp, enotconn, epipe,
  econnreset, econnrefused, etimedout,
}
use ixland.Fd.Files.{Outcome, ok, err}

-- An object of the framework.
abbrev pub Handle : Type 0
Handle = ℕ

pub record Socket : Type 0 where
  pub used : Bool
  pub domain : ℤ
  pub kind : ℤ
  pub protocol : ℤ
  pub connection : Option Handle
  pub listener : Option Handle
  pub local_addr : Bytes
  pub remote_addr : Bytes
  pub local_addr_len : ℕ
  pub remote_addr_len : ℕ

abbrev pub max_sockets : ℕ
max_sockets = 256

-- The table, the flag of the initialisation, and the objects that were cancelled, the last one first.
pub record Network : Type 0 where
  pub sockets : ℕ → Socket
  pub initialized : Bool
  pub cancelled : List Handle

-- AF_INET, AF_INET6, SOCK_STREAM and the size of a `sockaddr_storage` of the host's headers.
pub record Numbers : Type 0 where
  pub af_inet : ℤ
  pub af_inet6 : ℤ
  pub sock_stream : ℤ
  pub storage_size : ℕ

-- `memset(entry, 0, sizeof(entry))`; an address has no bytes but zeros.
abbrev pub zeroed : Socket
zeroed = record {
  used = false;
  domain = pos 0;
  kind = pos 0;
  protocol = pos 0;
  connection = none;
  listener = none;
  local_addr = [];
  remote_addr = [];
  local_addr_len = 0;
  remote_addr_len = 0;
}

abbrev pub put_socket : Network → ℕ → Socket → Network
put_socket net i s = record net { sockets = λ j. if j == i then s else net.sockets j }

unfoldable pub first_unused : ℕ → ℕ → (ℕ → Socket) → Option ℕ
first_unused zero i sockets = none
first_unused (suc n) i sockets =
    let rest = first_unused n (suc i) sockets in if (sockets i).used then rest else some i

abbrev pub take_slot : Network → Option ℕ → Option (ℕ × Network)
take_slot net none = none
take_slot net (some i) = some (i, put_socket net i (record (net.sockets i) { used = true }))

unfoldable socket_alloc : Network → Option (ℕ × Network)
socket_alloc net = take_slot net (first_unused max_sockets 0 net.sockets)

-- The handle of a field that is not NULL.
abbrev pub held : Option Handle → List Handle
held none = []
held (some h) = h ∷ []

unfoldable pub socket_free : ℕ → Network → Network
socket_free i net =
    if ltb i max_sockets && (net.sockets i).used
    then record (put_socket net i zeroed) {
      cancelled = held (net.sockets i).listener ++ held (net.sockets i).connection ++ net.cancelled;
    }
    else net

-- The index of a socket, if the number is that of one in use.
unfoldable pub socket_get : ℤ → Network → Option ℕ
socket_get (negsuc n) net = none
socket_get (pos i) net = if ltb i max_sockets && (net.sockets i).used then some i else none

abbrev pub no_sockets : ℕ → Socket
no_sockets i = zeroed

unfoldable pub network_init : Network → Network
network_init net =
    if net.initialized then net else record net { sockets = no_sockets; initialized = true }

-- The loop over the table: `n` rounds from `i` up.
unfoldable cancel_all : ℕ → ℕ → (ℕ → Socket) → List Handle → List Handle
cancel_all zero i sockets hs = hs
cancel_all (suc n) i sockets hs = cancel_all n (suc i) sockets (
    if (sockets i).used then held (sockets i).listener ++ held (sockets i).connection ++ hs else hs)

unfoldable network_deinit : Network → Network
unfolding cancel_all
network_deinit net =
    if net.initialized
    then record {
      sockets = no_sockets;
      initialized = false;
      cancelled = cancel_all max_sockets 0 net.sockets net.cancelled;
    }
    else net

abbrev open_in : Numbers → ℤ → ℤ → ℤ → ℕ → Network → Outcome ℕ × Network
open_in c domain kind protocol i net =
    let named =
      put_socket net i
        (record (net.sockets i) { domain = domain; kind = kind; protocol = protocol }) in
    if eqb domain c.af_inet || eqb domain c.af_inet6
    then (ok i, named)
    else (err eafnosupport, socket_free i named)

abbrev pub open_taken : Numbers → ℤ → ℤ → ℤ → Network → Option (ℕ × Network) → Outcome ℕ × Network
open_taken c domain kind protocol net none = (err emfile, net)
open_taken c domain kind protocol net (some (i, taken)) = open_in c domain kind protocol i taken

unfoldable pub socket : Numbers → ℤ → ℤ → ℤ → Network → Outcome ℕ × Network
unfolding socket_alloc socket_free
socket c domain kind protocol net = open_taken c domain kind protocol net (socket_alloc net)

socketpair : Outcome (ℕ × ℕ)
socketpair = err eopnotsupp

-- A call on the socket of a number, or EBADF.
abbrev pub at_slot {ℓ} :
    {A : Type ℓ}
    → (ℕ → Socket → Network → Outcome A × Network)
    → Network
    → Option ℕ
    → Outcome A × Network
at_slot body net none = (err ebadf, net)
at_slot body net (some i) = body i (net.sockets i) net

abbrev pub on_socket {ℓ} :
    {A : Type ℓ} → ℤ → (ℕ → Socket → Network → Outcome A × Network) → Network → Outcome A × Network
on_socket fd body net = at_slot body net (socket_get fd net)
