-- ===== src/Examples/Sockets.antt =====
-- The table of sockets.
use ixland.Prelude.{ℕ, ◌<◌, ◌≡◌, ◌≢◌, refl, ◌⊎◌, true, false, some, []}
use ixland.Prelude.Int.{pos}
use ixland.Fd.Errno.{emfile, eafnosupport}
use ixland.Fd.Files.{Outcome, ok, err}
use ixland.Network.{Socket, Network, Numbers, max_sockets, zeroed, no_sockets, network_init, socket}
use ixland.Network.Slots.{is_known_domain, opened, socket_cases}
use ixland.Network.Runs.{Call, after}
use ixland.Network.Clean.{IsCleanTable, Reachable, Reachable-IsCleanTable}
use ixland.Network.Used.{Later, socket-exhausted}

abbrev linux : Numbers
linux = record { af_inet = pos 2; af_inet6 = pos 10; sock_stream = pos 1; storage_size = 128 }

abbrev fresh : Network
fresh = record { sockets = no_sockets; initialized = false; cancelled = [] }

abbrev opened_one : Network
opened_one = (socket linux (pos 2) (pos 1) (pos 0) (network_init fresh)).1

abbrev listening : Call
listening = Call.listen_call (some 7) (pos 0)

Reachable-IsCleanTable_example : IsCleanTable linux (after linux listening opened_one)
Reachable-IsCleanTable_example = Reachable-IsCleanTable linux (after linux listening opened_one) (
    Reachable.call listening opened_one (
      Reachable.open_one (pos 2) (pos 1) (pos 0) (network_init fresh)
        (Reachable.init fresh Reachable.begin)))

-- A stream that has no connection yet.
abbrev stream : Socket
stream = record zeroed { used = true; domain = pos 2; kind = pos 1 }

abbrev full_table : Network
full_table = record { sockets = λ j. stream; initialized = true; cancelled = [] }

abbrev shut : Network
shut = after linux (Call.shutdown_call (pos 5)) full_table

socket-exhausted_example : socket linux (pos 2) (pos 1) (pos 0) shut ≡ (err emfile, shut)
socket-exhausted_example =
    socket-exhausted linux full_table shut (pos 2) (pos 1) (pos 0) (λ j h. refl)
      (Later.call (Call.shutdown_call (pos 5)) full_table Later.here)

socket_cases_example :
    (((j : ℕ) → j < max_sockets → (fresh.sockets j).used ≡ true)
      × (socket linux (pos 1) (pos 1) (pos 0) fresh ≡ (err emfile, fresh)))
    ⊎ ((i : ℕ) × (r : Outcome ℕ) × (later : Network) × (socket linux (pos 1) (pos 1) (pos 0) fresh
          ≡ (r, later))
        × (i < max_sockets)
        × ((fresh.sockets i).used ≡ false)
        × ((j : ℕ) → j < i → (fresh.sockets j).used ≡ true)
        × ((j : ℕ) → j ≢ i → later.sockets j ≡ fresh.sockets j)
        × (((is_known_domain linux (pos 1) ≡ true)
              × (r ≡ ok i)
              × (later.sockets i ≡ opened (pos 1) (pos 1) (pos 0) (fresh.sockets i)))
            ⊎ ((is_known_domain linux (pos 1) ≡ false)
                × (r ≡ err eafnosupport)
                × (later.sockets i ≡ zeroed))))
socket_cases_example = socket_cases linux (pos 1) (pos 1) (pos 0) fresh
