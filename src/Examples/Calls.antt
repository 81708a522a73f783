-- ===== src/Examples/Calls.antt =====
-- The library's table after some calls, an epoll instance, the commands and the users.
use ixland.Prelude.{
  List, ℕ, ◌≡◌, refl, Bool, true, false, none, some, [], ◌∷◌, arith, ◌==◌, ◌⊎◌, if◌then◌else◌,
}
use ixland.Prelude.Int.{pos}
use ixland.Prelude.Text.{codes}
use ixland.Fd.Errno.{enoent, eperm, emfile}
use ixland.Fd.Files.{ok, err}
use ixland.Fd.Static.{max_fd, FdTable, OpenFlags, zeroed, file_init}
use ixland.Fd.Static.Slots.{AreUsed}
use ixland.Fd.Calls.{World, open_file, close_file, dup2}
use ixland.Fd.Calls.Sharing.{IsClean, SameWorld, open_file_cases, dup2-close_file}
use ixland.Fd.Calls.Clean.{file_init-IsClean}
use ixland.Fd.Calls.Reached.{Call, Reachable, after, Reachable-IsClean}
use ixland.Fd.Calls.Offsets.{Transfer}
use ixland.Epoll.{Event, Instance, Op, find_in, ctl_op, build_kevents}
use ixland.Epoll.Table.{new_instance}
use ixland.Epoll.Interests.{watch, Refines, Simulates, ctl_op-Simulates}
use ixland.Epoll.Deletions.{IsUnregistered, Leaves, ctl_op-AsksToAdd}
use ixland.Registry.{Command, registry_clear, lookup}
use ixland.Registry.Newest.{register_all, latest, lookup-latest}

abbrev host_flags : OpenFlags
host_flags = record { rdonly = 0; wronly = 1 }

abbrev first_world : World
first_world = record {
  table = file_init host_flags (record { entries = λ j. zeroed; initialized = false });
  closed = [];
}

abbrev opening : Call
opening = Call.open_call (some (codes "/etc/motd")) 0 0 (ok 9) (some false)

two_calls : Reachable host_flags (after (Call.close_call (pos 3)) (after opening first_world))
two_calls =
    Reachable.call (Call.close_call (pos 3)) (after opening first_world)
      (Reachable.call opening first_world (Reachable.begin (λ j. zeroed)))

Reachable-IsClean_example :
    IsClean (after (Call.close_call (pos 3)) (after opening first_world)).table
Reachable-IsClean_example =
    Reachable-IsClean host_flags (after (Call.close_call (pos 3)) (after opening first_world))
      two_calls

open_file_cases_example :
    (AreUsed first_world.table.entries 3 max_fd
      × (open_file (some (codes "/etc/motd")) 0 0 (ok 9) none first_world
          ≡ (err emfile, first_world))
      × (open_file (some (codes "/etc/motd")) 0 0 (err enoent) none first_world
          ≡ (err emfile, first_world)))
    ⊎ ((i : ℕ) × (v : World) × (u : World) × (f : World) × (open_file
            (some (codes "/etc/motd"))
            0
            0
            (ok 9)
            none
            first_world
          ≡ (ok i, v))
        × (close_file (pos i) v ≡ (ok 0, u))
        × SameWorld u (record first_world { closed = pos 9 ∷ [] })
        × (open_file (some (codes "/etc/motd")) 0 0 (err enoent) none first_world ≡ (err enoent, f))
        × SameWorld f first_world)
open_file_cases_example =
    open_file_cases (codes "/etc/motd") 0 0 9 enoent none first_world
      (file_init-IsClean host_flags (λ j. zeroed))

abbrev one_open : FdTable
one_open = record {
  entries = λ j. if j == 3 then record zeroed { fd = pos 9; used = true } else zeroed;
  initialized = true;
}

dup2-close_file_example :
    (v : World) × (u : World) × (dup2 (pos 3) (pos 5) (record { table = one_open; closed = [] })
      ≡ (ok (pos 5), v))
    × (v.table.entries 3 ≡ one_open.entries 3)
    × (v.table.entries 5 ≡ one_open.entries 3)
    × (close_file (pos 5) v ≡ (ok 0, u))
    × (u.closed ≡ pos 9 ∷ v.closed)
    × (u.table.entries 3 ≡ one_open.entries 3)
dup2-close_file_example =
    dup2-close_file 3 5 (record { table = one_open; closed = [] }) (omega arith) (omega arith)
      (omega arith) (omega arith) (λ e. omega (arith, e)) refl

abbrev some_transfers : List Transfer
some_transfers =
    Transfer.read (λ real. ok 4)
    ∷ Transfer.write (λ real. err eperm)
    ∷ Transfer.write (λ real. ok 6)
    ∷ []

abbrev an_instance : Instance
an_instance = new_instance 7 0

abbrev an_event : Event
an_event = record { events = 5; user_data = 1 }

nothing_watched : Refines an_instance (λ g. none)
unfolding find_in
nothing_watched = (λ b. tt, λ g. refl)

ctl_op-Simulates_example :
    Simulates
      (ctl_op true (λ cs. true) Op.add 4 (some an_event) an_instance)
      (ok 0, watch 4 (some an_event) (λ g. none))
unfolding build_kevents
ctl_op-Simulates_example =
    ctl_op-Simulates true (λ cs. true) Op.add 4 (some an_event) an_instance (λ g. none)
      nothing_watched

abbrev watching : Instance
watching = (ctl_op true (λ cs. true) Op.add 4 (some an_event) an_instance).1

watching-IsUnregistered : IsUnregistered watching
watching-IsUnregistered =
    (ctl_op-AsksToAdd true (λ cs. true) Op.add 4 (some an_event) an_instance (λ b. tt)).0

-- A deletion of the item, with an event.
ctl_op-AsksToAdd_example :
    Leaves [] watching (ctl_op true (λ cs. true) Op.del 4 (some an_event) watching).1
ctl_op-AsksToAdd_example =
    ctl_op-AsksToAdd true (λ cs. true) Op.del 4 (some an_event) watching watching-IsUnregistered

abbrev ls : ℕ → Bool → Command × Bool
ls entry memory = (record { path = codes "/bin/ls"; entry = entry }, memory)

lookup-latest_example :
    lookup
      (some (codes "/bin/ls"))
      (register_all (ls 1 true ∷ ls 2 true ∷ ls 3 false ∷ []) (registry_clear []))
    ≡ some 2
unfolding latest
lookup-latest_example = lookup-latest (codes "/bin/ls") (ls 1 true ∷ ls 2 true ∷ ls 3 false ∷ []) []
