-- ===== src/Network/Calls.antt =====
-- IXLandSystem/kernel/net/network.c: the calls on a socket.
use ixland.Prelude.{
  ℕ, zero, suc, Bool, true, false, not, ◌||◌, Option, none, some, List, [], ◌∷◌, ◌++◌, leb,
  if◌then◌else◌, length,
}
use ixland.Prelude.Int.{ℤ, eqb}
use ixland.Prelude.Text.{Bytes, take, drop}
use ixland.Fd.Errno.{
  einval, enomem, eagain, eafnosupport, eopnotsupp, enotconn, epipe, econnreset, econnrefused,
  etimedout,
}
use ixland.Fd.Files.{Outcome, ok, err}
use ixland.Network.{on_socket, Handle, Socket, Network, Numbers, put_socket}

-- The states that the handler of a connection is called with.
pub data ConnectionState : Type 0 where
  ready failed cancelled other : ConnectionState

-- `sa_family` of an address, by the host's layout.
pub data Family : Type 0 where
  inet inet6 unknown : Family

-- What the framework does for connect: the endpoint and the connection it makes, and the states that its
-- handler has seen when the wait of 30 seconds ends; none is the end of the time.
pub record Dial : Type 0 where
  pub family : Bytes → Family
  pub endpoint : Bytes → Bool
  pub connection : Option Handle
  pub states : List ConnectionState

-- `memcpy` of an address into the zeroed or older bytes, cut to the size of the field.
abbrev pub copy_addr : ℕ → Bytes → Bytes → Bytes
copy_addr size addr old = take size addr ++ drop (length (take size addr)) old

-- `connect_error` after the handler was called with these states.
unfoldable pub connect_error : List ConnectionState → Bool → Bool
connect_error [] error = error
connect_error (ConnectionState.ready ∷ ss) error = connect_error ss false
connect_error (ConnectionState.failed ∷ ss) error = connect_error ss true
connect_error (ConnectionState.cancelled ∷ ss) error = connect_error ss true
connect_error (ConnectionState.other ∷ ss) error = connect_error ss error

abbrev hang_up : ℕ → Socket → Handle → Network → Network
hang_up i s h net = record (put_socket net i (record s { connection = none })) {
  cancelled = h ∷ net.cancelled;
}

-- After the wait; `s` is the socket with its connection `h`.
abbrev dialled : ℕ → Socket → Handle → List ConnectionState → Network → Outcome ℕ × Network
dialled i s h [] net = (err etimedout, hang_up i s h net)
dialled i s h (st ∷ ss) net =
    if connect_error (st ∷ ss) false then (err econnrefused, hang_up i s h net) else (ok 0, net)

abbrev pub start : Dial → ℕ → Socket → Option Handle → Network → Outcome ℕ × Network
start dial i s none net = (err enomem, put_socket net i (record s { connection = none }))
start dial i s (some h) net =
    let t = record s { connection = some h } in dialled i t h dial.states (put_socket net i t)

abbrev pub has_endpoint : Dial → Family → Bytes → Bool
has_endpoint dial Family.unknown addr = false
has_endpoint dial Family.inet addr = dial.endpoint addr
has_endpoint dial Family.inet6 addr = dial.endpoint addr

-- With the remote address stored; `s` has it.
abbrev dial_stream : Numbers → Dial → Bytes → ℕ → Socket → Network → Outcome ℕ × Network
dial_stream c dial addr i s net =
    if not (eqb s.kind c.sock_stream)
    then (ok 0, net)
    else if has_endpoint dial (dial.family addr) addr
    then start dial i s dial.connection net
    else (err einval, net)

abbrev pub with_remote : Numbers → Bytes → Socket → Socket
with_remote c addr s = record s {
  remote_addr = copy_addr c.storage_size addr s.remote_addr;
  remote_addr_len = length (take c.storage_size addr);
}

abbrev pub connect_to : Numbers → Dial → Option Bytes → ℕ → Socket → Network → Outcome ℕ × Network
connect_to c dial none i s net = (err einval, net)
connect_to c dial (some []) i s net = (err einval, net)
connect_to c dial (some (b ∷ bs)) i s net =
    dial_stream c dial (b ∷ bs) i (with_remote c (b ∷ bs) s)
      (put_socket net i (with_remote c (b ∷ bs) s))

unfoldable pub connect : Numbers → Dial → ℤ → Option Bytes → Network → Outcome ℕ × Network
connect c dial fd addr = on_socket fd (connect_to c dial addr)

abbrev pub bind_to : Numbers → Option Bytes → ℕ → Socket → Network → Outcome ℕ × Network
bind_to c none i s net = (err einval, net)
bind_to c (some []) i s net = (err einval, net)
bind_to c (some (b ∷ bs)) i s net = (
  ok 0,
  put_socket net i (record s {
    local_addr = copy_addr c.storage_size (b ∷ bs) s.local_addr;
    local_addr_len = length (take c.storage_size (b ∷ bs));
  }),
)

unfoldable pub bind : Numbers → ℤ → Option Bytes → Network → Outcome ℕ × Network
bind c fd addr = on_socket fd (bind_to c addr)

-- The framework's answer to nw_listener_create.
abbrev pub listen_on : Numbers → Option Handle → ℕ → Socket → Network → Outcome ℕ × Network
listen_on c made i s net = if not (eqb s.kind c.sock_stream) then (err eopnotsupp, net) else (
  elim made [ none ↦ err enomem | some h ↦ ok 0 ],
  put_socket net i (record s { listener = made }),
)

unfoldable pub listen : Numbers → Option Handle → ℤ → Network → Outcome ℕ × Network
listen c made fd = on_socket fd (listen_on c made)

-- accept and accept4.
abbrev pub accept_on : ℕ → Socket → Network → Outcome ℕ × Network
accept_on i s net = (elim s.listener [ none ↦ err einval | some h ↦ err eagain ], net)

unfoldable pub accept : ℤ → Network → Outcome ℕ × Network
accept fd = on_socket fd accept_on

-- `made`: dispatch_data_create succeeds; `error`: the framework reports one.
abbrev pub send_on : Bool → Bool → Bytes → ℕ → Socket → Network → Outcome ℕ × Network
send_on made error [] i s net = (ok 0, net)
send_on made error (b ∷ bs) i s net = (
  elim s.connection [
    | none ↦ err enotconn
    | some h ↦ if not made then err enomem else if error then err epipe else ok (length (b ∷ bs))
  ],
  net,
)

-- send and sendto; a buffer that is NULL has no bytes here.
unfoldable pub send : Bool → Bool → ℤ → Bytes → Network → Outcome ℕ × Network
send made error fd buffer = on_socket fd (send_on made error buffer)

-- `room`: the length of the buffer, 0 if it is NULL. The framework gives some content, none if there is
-- nothing that can be mapped, and says whether there was an error. The result is what is copied.
abbrev pub recv_on : ℕ → Option Bytes → Bool → ℕ → Socket → Network → Outcome Bytes × Network
recv_on zero content error i s net = (ok [], net)
recv_on (suc room) content error i s net = (
  elim s.connection [
    | none ↦ err enotconn
    | some h ↦
        if error
        then err econnreset
        else ok (elim content [ none ↦ [] | some bytes ↦ take (suc room) bytes ])
  ],
  net,
)

-- recv and recvfrom.
unfoldable pub recv : ℕ → Option Bytes → Bool → ℤ → Network → Outcome Bytes × Network
recv room content error fd = on_socket fd (recv_on room content error)

unfoldable pub setsockopt : ℤ → Network → Outcome ℕ × Network
setsockopt fd = on_socket fd (λ i s net. (ok 0, net))

-- The option's value and the length that it now has, if both pointers are given and there is room for an
-- `int` of four bytes.
abbrev pub getsockopt_on : Option ℕ → ℕ → Socket → Network → Outcome (Option (ℕ × ℕ)) × Network
getsockopt_on none i s net = (ok none, net)
getsockopt_on (some room) i s net = (ok (if leb 4 room then some (0, 4) else none), net)

unfoldable pub getsockopt : ℤ → Option ℕ → Network → Outcome (Option (ℕ × ℕ)) × Network
getsockopt fd room = on_socket fd (getsockopt_on room)

abbrev pub shutdown_on : ℕ → Socket → Network → Outcome ℕ × Network
shutdown_on i s net = (ok 0, elim s.connection [ none ↦ net | some h ↦ hang_up i s h net ])

unfoldable pub shutdown : ℤ → Network → Outcome ℕ × Network
shutdown fd = on_socket fd shutdown_on

-- inet_pton and inet_ntop: the host's conversion, for the two families it knows.
unfoldable convert {ℓ} : {A : Type ℓ} → Numbers → (ℤ → Outcome A) → ℤ → Outcome A
convert c host af = if eqb af c.af_inet || eqb af c.af_inet6 then host af else err eafnosupport
