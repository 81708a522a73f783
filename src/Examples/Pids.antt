-- ===== src/Examples/Pids.antt =====
-- The identifier allocator from its first call on.
use ixland.Prelude.{◌≡◌, refl, ap, ◌∙◌, [], ◌∷◌, arith}
use ixland.Prelude.Int.{pos}
use ixland.Pid.{fresh_allocator, alloc_pid, pop_pid, pid_init, free_pid, max_pid, pid_count}
use ixland.Pid.Invariant.{fill_at}
use ixland.Pid.Trace.{Trace, start, allocated, freed, IsAccounted, Trace-IsAccounted}

-- The first identifier is 1000.
first_pid : (alloc_pid fresh_allocator).0 ≡ pos 1000
unfolding alloc_pid pop_pid pid_init
first_pid =
    ap pos (fill_at pid_count max_pid 0 (λ i. 0) 64535 (omega arith) (omega arith) ∙ omega arith)

one_pid : Trace (alloc_pid fresh_allocator).1 (1000 ∷ [])
one_pid =
    allocated (alloc_pid fresh_allocator).1 1000 start
      (ap (λ x. (x, (alloc_pid fresh_allocator).1)) first_pid)

Trace-IsAccounted_example : IsAccounted (free_pid (alloc_pid fresh_allocator).1 (pos 1000)) []
Trace-IsAccounted_example = Trace-IsAccounted (freed 1000 one_pid refl)
